-- ===== src/Executor/Processes/Steps.antt =====
-- executor/process.go: the steps of all goroutines on one pool.
use vectrify_agent_runner.Base.{ℕ, List, [], ◌∷◌, Text}
use vectrify_agent_runner.Executor.Processes.{WaitResult, ProcessManager}
use vectrify_agent_runner.Executor.Processes.Start.{
  Launch, begin_start, launch, register, finish_start, wait_for_exit,
}
use vectrify_agent_runner.Executor.Processes.Stop.{stop, reap_once, shutdown, kill_removed}

pub data Event : Type 0 where
  begins : Text → Text → Text → Event
  launches : ℕ → ℕ → Launch → Event
  registers : ℕ → Event
  finishes : ℕ → Event
  exits : ℕ → ℕ → WaitResult → Event
  stops : Text → Event
  reaps : ℕ → Event
  shuts_down : Event
  kills : ℕ → Event

unfoldable pub step : ProcessManager → Event → ProcessManager
unfolding begin_start launch register finish_start wait_for_exit stop reap_once shutdown
    kill_removed
step m (begins id command dir) = begin_start m id command dir
step m (launches k now answer) = launch m k now answer
step m (registers k) = register m k
step m (finishes k) = finish_start m k
step m (exits h now result) = wait_for_exit m h now result
step m (stops id) = (stop m id).0
step m (reaps now) = reap_once m now
step m shuts_down = shutdown m
step m (kills k) = kill_removed m k

unfoldable pub run : ProcessManager → List Event → ProcessManager
unfolding step
run m [] = m
run m (e ∷ es) = run (step m e) es
