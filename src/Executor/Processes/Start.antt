-- ===== src/Executor/Processes/Start.antt =====
-- executor/process.go: the steps of `Start`, and `waitForExit`.
use vectrify_agent_runner.Base.{
  ℕ, true, false, not, ◌&&◌, Option, none, some, [], ◌∷◌, ◌++◌, Text, text_eq, leb, lookup, insert,
  if◌then◌else◌, get_elem?, set, length, pos, is_zero,
}
use vectrify_agent_runner.Executor.Processes.{
  to_discard, Tree, Kill, no_tree, idle_tree, live_tree, whole_tree, untouched, Process, WaitResult,
  clean_exit, exit_error, wait_error, StartError, id_required, command_required, shutting_down,
  already_in_use, limit_reached, exited_immediately, Phase, checked, launched, grace, started,
  refused, ProcessManager,
}

-- The checks at the head of `Start`, up to the first Unlock.
unfoldable pub check_start : ProcessManager → Text → Text → Text → Phase
check_start m id command dir =
    if text_eq id []
    then refused id_required
    else if text_eq command []
    then refused command_required
    else if m.shutting_down
    then refused shutting_down
    else elim (lookup id m.processes) [
      | some h ↦ refused already_in_use
      | none ↦
          if leb m.max_processes (length m.processes)
          then refused limit_reached
          else checked id command (if text_eq dir [] then m.workspace_root else dir)
    ]

unfoldable pub begin_start : ProcessManager → Text → Text → Text → ProcessManager
unfolding check_start
begin_start m id command dir = record m { starts = m.starts ++ check_start m id command dir ∷ [] }

-- What the system answers to `Start` between the two locks.
pub data Launch : Type 0 where
  fails : StartError → Launch
  -- the process identifier, the tracker, and the path of the log file
  runs : ℕ → Tree → Text → Launch

unfoldable pub new_process : Text → Text → Text → ℕ → ℕ → Tree → Text → Process
new_process id command dir now pid tree log_path = record {
  id = id;
  command = command;
  working_dir = dir;
  pid = pid;
  started_at = now;
  tree = tree;
  log_path = log_path;
  exited = false;
  exited_at = 0;
  exit_code = pos 0;
  exit_err = [];
  kill = untouched;
  log_removed = false;
  waited_for = false;
}

unfoldable pub set_phase : ProcessManager → ℕ → Phase → ProcessManager
set_phase m k phase = record m { starts = set m.starts k phase }

-- From the first Unlock to the second Lock.
unfoldable pub launch_from : ProcessManager → ℕ → ℕ → Launch → Option Phase → ProcessManager
unfolding set_phase new_process
launch_from m k now (fails e) (some (checked id command dir)) = set_phase m k (refused e)
launch_from m k now (runs pid tree log_path) (some (checked id command dir)) = record m {
  objects = m.objects ++ new_process id command dir now pid tree log_path ∷ [];
  starts = set m.starts k (launched (length m.objects));
}
launch_from m k now answer phase = m

unfoldable pub launch : ProcessManager → ℕ → ℕ → Launch → ProcessManager
unfolding launch_from
launch m k now answer = launch_from m k now answer (get_elem? m.starts k)

unfoldable pub discard_by : Tree → Kill → Kill
discard_by no_tree sent = sent
discard_by idle_tree sent = sent
discard_by live_tree sent = whole_tree

-- What the loser of a race for an identifier does: `tree.kill` if the interface is not nil.
unfoldable pub discard : Process → Process
unfolding discard_by
discard p = record p { kill = discard_by p.tree p.kill; log_removed = true }

unfoldable pub put_object : ProcessManager → ℕ → Process → ProcessManager
put_object m h p = record m { objects = set m.objects h p }

-- The second lock of `Start`, for the process `p` at `h`, with what stands under its identifier.
unfoldable pub register_found : ProcessManager → ℕ → ℕ → Process → Option ℕ → ProcessManager
unfolding put_object set_phase
register_found m k h p (some other) = record (set_phase m k (refused already_in_use)) {
  removals = m.removals ++ to_discard h ∷ [];
}
register_found m k h p none =
    record (set_phase (put_object m h (record p { waited_for = true })) k (grace h)) {
      processes = insert p.id h m.processes;
    }

unfoldable pub register_process : ProcessManager → ℕ → ℕ → Process → ProcessManager
unfolding register_found
register_process m k h p = register_found m k h p (lookup p.id m.processes)

unfoldable pub register_object : ProcessManager → ℕ → ℕ → Option Process → ProcessManager
unfolding register_process
register_object m k h none = m
register_object m k h (some p) = register_process m k h p

unfoldable pub register_from : ProcessManager → ℕ → Option Phase → ProcessManager
unfolding register_object
register_from m k (some (launched h)) = register_object m k h (get_elem? m.objects h)
register_from m k phase = m

unfoldable pub register : ProcessManager → ℕ → ProcessManager
unfolding register_from
register m k = register_from m k (get_elem? m.starts k)

-- The answer of `Start` after the grace period: a process that has exited with another code than 0 is
-- an error, with the description of its exit if there is one.
unfoldable pub start_reply : ℕ → Process → Phase
start_reply h p =
    if p.exited && not (is_zero p.exit_code)
    then refused (exited_immediately p.exit_err)
    else started h

unfoldable pub finish_object : ProcessManager → ℕ → ℕ → Option Process → ProcessManager
unfolding start_reply set_phase
finish_object m k h none = m
finish_object m k h (some p) = set_phase m k (start_reply h p)

unfoldable pub finish_from : ProcessManager → ℕ → Option Phase → ProcessManager
unfolding finish_object
finish_from m k (some (grace h)) = finish_object m k h (get_elem? m.objects h)
finish_from m k phase = m

unfoldable pub finish_start : ProcessManager → ℕ → ProcessManager
unfolding finish_from
finish_start m k = finish_from m k (get_elem? m.starts k)

-- `waitForExit` after `cmd.Wait`.
unfoldable pub exit_process : ℕ → WaitResult → Process → Process
exit_process now clean_exit p = record p { exited = true; exited_at = now }
exit_process now (exit_error text code) p = record p {
  exited = true;
  exited_at = now;
  exit_err = text;
  exit_code = code;
}
exit_process now (wait_error text) p = record p {
  exited = true;
  exited_at = now;
  exit_err = text;
  exit_code = pos 1;
}

-- Only a process that was registered is waited for, and only once.
unfoldable pub wait_object : ProcessManager → ℕ → ℕ → WaitResult → Option Process → ProcessManager
unfolding put_object exit_process
wait_object m h now result none = m
wait_object m h now result (some p) =
    if p.waited_for && not p.exited then put_object m h (exit_process now result p) else m

unfoldable pub wait_for_exit : ProcessManager → ℕ → ℕ → WaitResult → ProcessManager
unfolding wait_object
wait_for_exit m h now result = wait_object m h now result (get_elem? m.objects h)
