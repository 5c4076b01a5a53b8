-- ===== src/Executor/Processes/Reaping.antt =====
-- executor/process.go: what `reapOnce` leaves behind.
use vectrify_agent_runner.Base.{ℕ, ◌-◌, ◌<◌, ◌≡◌, ◌⊎◌, true, false}
use vectrify_agent_runner.Executor.Processes.{
  Process, ProcessManager, no_tree, idle_tree, live_tree, whole_tree, child_only,
}

-- The process exited, or else was started, longer ago than the limit.
abbrev pub IsPastAge : ProcessManager → ℕ → Process → Type 0
IsPastAge m now p =
    ((p.exited ≡ true) × (m.max_age < now - p.exited_at))
    ⊎ ((p.exited ≡ false) × (m.max_age < now - p.started_at))

-- The log file is gone, and a process that had not exited was signalled: its tree, or the process alone
-- where there is no tracker. A tracker that kills nothing changes nothing.
abbrev pub IsReaped : Process → Process → Type 0
IsReaped p q =
    (q.log_removed ≡ true)
    × (p.exited ≡ true → q.kill ≡ p.kill)
    × (p.exited ≡ false → p.tree ≡ live_tree → q.kill ≡ whole_tree)
    × (p.exited ≡ false → p.tree ≡ no_tree → q.kill ≡ child_only)
    × (p.exited ≡ false → p.tree ≡ idle_tree → q.kill ≡ p.kill)
