-- ===== src/Executor/Processes/Stop.antt =====
-- executor/process.go: `Stop`, `reapOnce` and `Shutdown`, each up to the end of its lock, and the
-- killing that follows, that of a `Start` which lost a race for an identifier too.
use vectrify_agent_runner.Base.{
  ℕ, ◌-◌, Bool, true, false, Option, none, some, List, [], ◌∷◌, Text, ltb, lookup, erase,
  if◌then◌else◌, get_elem?, set, map, ◌++◌,
}
use vectrify_agent_runner.Executor.Processes.{
  Process, ProcessManager, Removal, to_kill, to_reap, to_discard, ended, kill_process, modify,
}
use vectrify_agent_runner.Executor.Processes.Start.{discard}

unfoldable pub stop_at : ProcessManager → Text → Option ℕ → ProcessManager × Bool
stop_at m id none = (m, false)
stop_at m id (some h) =
    (record m { processes = erase id m.processes; removals = m.removals ++ to_kill h ∷ [] }, true)

-- `Stop`. The log file is left where it is.
unfoldable pub stop : ProcessManager → Text → ProcessManager × Bool
unfolding stop_at
stop m id = stop_at m id (lookup id m.processes)

-- `lastActivity`
unfoldable pub last_activity : Process → ℕ
last_activity p = if p.exited then p.exited_at else p.started_at

unfoldable pub is_old_process : ℕ → ℕ → Option Process → Bool
unfolding last_activity
is_old_process now age none = false
is_old_process now age (some p) = ltb age (now - last_activity p)

unfoldable pub is_old : ProcessManager → ℕ → ℕ → Bool
unfolding is_old_process
is_old m now h = is_old_process now m.max_age (get_elem? m.objects h)

-- The loop of `reapOnce` over the map: the entries that stay, and the processes of the others.
unfoldable pub kept : (ℕ → Bool) → List (Text × ℕ) → List (Text × ℕ)
kept old [] = []
kept old ((id, h) ∷ entries) = let rest = kept old entries in if old h then rest else (id, h) ∷ rest

unfoldable pub dropped : (ℕ → Bool) → List (Text × ℕ) → List ℕ
dropped old [] = []
dropped old ((id, h) ∷ entries) = let rest = dropped old entries in if old h then h ∷ rest else rest

unfoldable pub reap_process : Process → Process
unfolding kill_process
reap_process p = record (if p.exited then p else kill_process p) { log_removed = true }

-- `reapOnce`
unfoldable pub reap_once : ProcessManager → ℕ → ProcessManager
unfolding is_old kept dropped
reap_once m now = record m {
  processes = kept (is_old m now) m.processes;
  removals = m.removals ++ map to_reap (dropped (is_old m now) m.processes);
}

unfoldable pub handles : List (Text × ℕ) → List ℕ
handles [] = []
handles ((id, h) ∷ entries) = h ∷ handles entries

-- `Shutdown`
unfoldable pub shutdown : ProcessManager → ProcessManager
unfolding handles
shutdown m = if m.shutting_down then m else record m {
  shutting_down = true;
  processes = [];
  removals = m.removals ++ map to_kill (handles m.processes);
}

-- What follows the lock for the process at one place: the kill, the rest of `reapOnce`, or the end of a
-- `Start` that was refused.
unfoldable pub kill_from : ProcessManager → ℕ → Option Removal → ProcessManager
unfolding modify kill_process reap_process discard
kill_from m k (some (to_kill h)) = record m {
  objects = modify kill_process m.objects h;
  removals = set m.removals k ended;
}
kill_from m k (some (to_reap h)) = record m {
  objects = modify reap_process m.objects h;
  removals = set m.removals k ended;
}
kill_from m k (some (to_discard h)) = record m {
  objects = modify discard m.objects h;
  removals = set m.removals k ended;
}
kill_from m k other = m

unfoldable pub kill_removed : ProcessManager → ℕ → ProcessManager
unfolding kill_from
kill_removed m k = kill_from m k (get_elem? m.removals k)
