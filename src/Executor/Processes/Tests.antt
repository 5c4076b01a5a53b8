-- ===== src/Executor/Processes/Tests.antt =====
-- The pool in short runs.
use vectrify_agent_runner.Base.{
  All, ℕ, ◌+◌, ◌≡◌, ◌⊎◌, refl, true, false, some, List, [], ◌∷◌, ◌++◌, Text, codes, text_eq, lookup,
  insert, length, get_elem?, min, ◌≤◌, ◌<◌, newline, split, pos, arith,
}
use vectrify_agent_runner.Executor.Processes.{
  Process, ended, live_tree, launched, ProcessManager, new_manager, default_limit,
}
use vectrify_agent_runner.Executor.Processes.Start.{
  runs, begin_start, check_start, launch, launch_from, new_process, register, register_from,
  register_object, register_process, register_found, set_phase, put_object,
}
use vectrify_agent_runner.Executor.Processes.Stop.{shutdown, handles}
use vectrify_agent_runner.Executor.Processes.Steps.{
  Event, begins, launches, registers, finishes, kills, step, run,
}
use vectrify_agent_runner.Executor.Processes.Accounting.{IsLoose, IsSound}
use vectrify_agent_runner.Executor.Processes.Preserved.{run-IsSound}
use vectrify_agent_runner.Executor.Processes.Stopping.{shutdown-final}
use vectrify_agent_runner.Executor.Processes.Forgotten.{shutdown_forgets, kill_all}
use vectrify_agent_runner.Executor.Processes.Removals.{IsDoomed}
use vectrify_agent_runner.Executor.Processes.Capacity.{pending_starts, run-bounded}
use vectrify_agent_runner.Executor.Processes.Logs.{
  logs, logs-tail, trim_newline, max_log_bytes, log_text,
}

abbrev one : List Event
one = begins (codes "a") (codes "serve") [] ∷ launches 0 5 (runs 70 live_tree (codes "/log")) ∷ []

abbrev two : List Event
two =
    begins (codes "a") (codes "serve") []
    ∷ begins (codes "b") (codes "serve") []
    ∷ launches 0 5 (runs 70 live_tree (codes "/log"))
    ∷ launches 1 6 (runs 71 live_tree (codes "/log2"))
    ∷ registers 0
    ∷ registers 1
    ∷ []

abbrev fresh : ProcessManager
fresh = new_manager (codes "/w") (pos 1) 100

-- Two calls of `Start` that overlap fill a pool for one with two.
two_starts : length (run fresh two).processes ≡ 2
unfolding new_manager default_limit run step begin_start check_start launch launch_from new_process
    register register_from register_object register_process register_found set_phase put_object
    lookup insert text_eq
two_starts = refl

run-IsSound_example : IsSound (run fresh two)
run-IsSound_example = run-IsSound (codes "/w") (pos 1) 100 two

run-bounded_example :
    length (run fresh two).processes + pending_starts (run fresh two) < fresh.max_processes + 2
unfolding new_manager default_limit run step begin_start check_start launch launch_from new_process
    register register_from register_object register_process register_found set_phase put_object
    lookup insert text_eq
run-bounded_example = run-bounded 2 (codes "/w") (pos 1) 100 two (
  omega arith,
  (omega arith, (omega arith, (omega arith, (omega arith, (omega arith, omega arith))))),
)

shutdown-final_example :
    let n = run (shutdown (run fresh (one ++ registers 0 ∷ []))) (finishes 0 ∷ kills 0 ∷ []) in
    (n.processes ≡ [])
    × ((h : ℕ) (p : Process) → get_elem? n.objects h ≡ some p → IsLoose p → IsDoomed h n.removals)
    × (All (λ r. r ≡ ended) n.removals
        → (h : ℕ) (p : Process) → get_elem? n.objects h ≡ some p
        → ¬ IsLoose p)
unfolding new_manager default_limit run step begin_start check_start launch launch_from new_process
    register register_from register_object register_process register_found set_phase put_object
    lookup insert text_eq
shutdown-final_example =
    shutdown-final (codes "/w") (pos 1) 100 (one ++ registers 0 ∷ []) (finishes 0 ∷ kills 0 ∷ [])
      refl (tt, tt)

abbrev serving : Process
serving = new_process (codes "a") (codes "serve") (codes "/w") 5 70 live_tree (codes "/log")

abbrev pool : ProcessManager
pool = record {
  workspace_root = codes "/w";
  max_processes = 1;
  max_age = 100;
  processes = (codes "a", 0) ∷ [];
  shutting_down = false;
  objects = serving ∷ serving ∷ [];
  starts = launched 1 ∷ [];
  removals = [];
}

shutdown_forgets_example :
    let n = register (kill_all (shutdown pool) (0 ∷ [])) 0 in
    (lookup (codes "a") n.processes ≡ some 1)
    × (get_elem? n.objects 1 ≡ some (record serving { waited_for = true }))
    × (shutdown n ≡ n)
unfolding handles new_process
shutdown_forgets_example =
    shutdown_forgets pool 0 1 serving (0 ∷ []) refl refl refl (refl, tt) (λ d. d)

logs-tail_example :
    (pre : Text) × (shown : Text) × (trim_newline (codes "x\ny\n") ≡ pre ++ shown)
    × (length (split newline shown)
        ≡ min 1 (length (split newline (trim_newline (codes "x\ny\n")))))
    × (((length shown ≤ max_log_bytes)
          × (logs pool (λ path. some (codes "x\ny\n")) (codes "a") (pos 1) ≡ log_text shown))
        ⊎ ((hidden : Text) × (rest : Text) × (shown ≡ hidden ++ rest)
            × (length rest ≡ max_log_bytes)
            × (logs pool (λ path. some (codes "x\ny\n")) (codes "a") (pos 1)
                ≡ log_text (codes "<earlier output clipped>\n" ++ rest))))
unfolding lookup text_eq new_process
logs-tail_example =
    logs-tail pool (λ path. some (codes "x\ny\n")) (codes "a") 1 0 serving (codes "x\ny\n")
      (omega arith) refl refl refl
