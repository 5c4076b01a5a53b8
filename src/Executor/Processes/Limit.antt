-- ===== src/Executor/Processes/Limit.antt =====
-- executor/process.go: `maxProcesses`, which is set when the manager is made.
use vectrify_agent_runner.Base.{
  true, false, if◌then◌else◌, ◌∙◌, ℕ, ◌≡◌, refl, Bool, not, ◌&&◌, Option, none, some, List, [], ◌∷◌,
  Text, lookup, get_elem?,
}
use vectrify_agent_runner.Executor.Processes.{
  Process, WaitResult, Removal, to_kill, to_reap, to_discard, ended, Phase, checked, launched,
  grace, ProcessManager,
}
use vectrify_agent_runner.Executor.Processes.Start.{
  Launch, fails, runs, begin_start, launch, launch_from, register, register_from, register_object,
  register_process, register_found, set_phase, put_object, finish_start, finish_from, finish_object,
  wait_for_exit, wait_object,
}
use vectrify_agent_runner.Executor.Processes.Stop.{
  stop, stop_at, reap_once, shutdown, kill_from, kill_removed,
}
use vectrify_agent_runner.Executor.Processes.Steps.{
  Event, begins, launches, registers, finishes, exits, stops, reaps, shuts_down, kills, step, run,
}

launch_from-max :
    (m : ProcessManager) (k now : ℕ) (answer : Launch) (phase : Option Phase)
    → (launch_from m k now answer phase).max_processes ≡ m.max_processes
unfolding launch_from set_phase
launch_from-max m k now (fails x) (some (checked id command dir)) = refl
launch_from-max m k now (runs pid tree log_path) (some (checked id command dir)) = refl
launch_from-max m k now (fails x) phase = refl
launch_from-max m k now (runs pid tree log_path) phase = refl

register_found-max :
    (m : ProcessManager) (k h : ℕ) (p : Process) (found : Option ℕ)
    → (register_found m k h p found).max_processes ≡ m.max_processes
unfolding register_found set_phase put_object
register_found-max m k h p none = refl
register_found-max m k h p (some o) = refl

register_object-max :
    (m : ProcessManager) (k h : ℕ) (p : Option Process)
    → (register_object m k h p).max_processes ≡ m.max_processes
unfolding register_object register_process
register_object-max m k h none = refl
register_object-max m k h (some p) = register_found-max m k h p (lookup p.id m.processes)

register_from-max :
    (m : ProcessManager) (k : ℕ) (phase : Option Phase)
    → (register_from m k phase).max_processes ≡ m.max_processes
unfolding register_from
register_from-max m k (some (launched h)) = register_object-max m k h (get_elem? m.objects h)
register_from-max m k phase = refl

finish_object-max :
    (m : ProcessManager) (k h : ℕ) (p : Option Process)
    → (finish_object m k h p).max_processes ≡ m.max_processes
unfolding finish_object set_phase
finish_object-max m k h none = refl
finish_object-max m k h (some p) = refl

finish_from-max :
    (m : ProcessManager) (k : ℕ) (phase : Option Phase)
    → (finish_from m k phase).max_processes ≡ m.max_processes
unfolding finish_from
finish_from-max m k (some (grace h)) = finish_object-max m k h (get_elem? m.objects h)
finish_from-max m k phase = refl

either-max_processes :
    (b : Bool) (m n : ProcessManager) (top : ℕ)
    → m.max_processes ≡ top
    → n.max_processes ≡ top
    → (if b then m else n).max_processes ≡ top
either-max_processes true m n top e f = e
either-max_processes false m n top e f = f

wait_object-max :
    (m : ProcessManager) (h now : ℕ) (result : WaitResult) (p : Option Process)
    → (wait_object m h now result p).max_processes ≡ m.max_processes
unfolding wait_object put_object
wait_object-max m h now result none = refl
wait_object-max m h now result (some p) =
    either-max_processes (p.waited_for && not p.exited) _ m m.max_processes refl refl

stop_at-max :
    (m : ProcessManager) (id : Text) (found : Option ℕ)
    → (stop_at m id found).0.max_processes ≡ m.max_processes
unfolding stop_at
stop_at-max m id none = refl
stop_at-max m id (some h) = refl

kill_from-max :
    (m : ProcessManager) (k : ℕ) (found : Option Removal)
    → (kill_from m k found).max_processes ≡ m.max_processes
unfolding kill_from
kill_from-max m k none = refl
kill_from-max m k (some ended) = refl
kill_from-max m k (some (to_kill h)) = refl
kill_from-max m k (some (to_reap h)) = refl
kill_from-max m k (some (to_discard h)) = refl

step-max : (m : ProcessManager) (e : Event) → (step m e).max_processes ≡ m.max_processes
unfolding step begin_start launch register finish_start wait_for_exit stop reap_once shutdown
    kill_removed
step-max m (begins id command dir) = refl
step-max m (launches k now answer) = launch_from-max m k now answer (get_elem? m.starts k)
step-max m (registers k) = register_from-max m k (get_elem? m.starts k)
step-max m (finishes k) = finish_from-max m k (get_elem? m.starts k)
step-max m (exits h now result) = wait_object-max m h now result (get_elem? m.objects h)
step-max m (stops id) = stop_at-max m id (lookup id m.processes)
step-max m (reaps now) = refl
step-max m shuts_down = either-max_processes m.shutting_down m _ m.max_processes refl refl
step-max m (kills k) = kill_from-max m k (get_elem? m.removals k)

-- The limit is never changed.
pub run-max : (m : ProcessManager) (es : List Event) → (run m es).max_processes ≡ m.max_processes
unfolding run
run-max m [] = refl
run-max m (e ∷ es) = run-max (step m e) es ∙ step-max m e
