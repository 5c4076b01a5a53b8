-- ===== src/Executor/Processes.antt =====
-- executor/process.go: the pool of detached processes, as a system of interleaved steps. A step is
-- what one goroutine does between two points at which others may run. `Start` takes the lock twice, and
-- has four steps; `waitForExit` has one. `Stop`, `reapOnce` and `Shutdown` take entries out of the pool
-- under the lock, in one step, and kill the processes after it, in one step for each. Times are
-- nanoseconds of one clock that never goes back.
pub mod Start
pub mod Stop
pub mod Steps
pub mod Removals
pub mod Accounting
mod Kept
pub mod Preserved
pub mod Stopping
pub mod Forgotten
pub mod Reaping
mod Limit
pub mod Capacity
mod Listing
pub mod Logs
mod Tests
use vectrify_agent_runner.Base.{
  ℕ, ◌+◌, ◌-◌, ◌≡◌, Bool, true, false, not, ◌&&◌, Option, none, some, List, [], ◌∷◌, ◌++◌, Text,
  codes, text_eq, ◌==◌, ltb, leb, lookup, insert, erase, if◌then◌else◌, get_elem?, set, length, ℤ,
  pos, not_positive, pos_part, is_zero,
}

-- What a signal was sent to: the whole tree, or the direct child where there is no tracker.
pub data Kill : Type 0 where
  untouched whole_tree child_only : Kill

-- `procTreeIface`: the nil interface, a tracker that kills nothing (a nil pointer, which the interface
-- holds when the tracker could not be made, or one that could not be attached), and one that was
-- attached.
pub data Tree : Type 0 where
  no_tree idle_tree live_tree : Tree

-- `managedProcess`, with what has become of the process and of its log file.
pub record Process : Type 0 where
  pub id : Text
  pub command : Text
  pub working_dir : Text
  pub pid : ℕ
  pub started_at : ℕ
  pub tree : Tree
  pub log_path : Text
  pub exited : Bool
  pub exited_at : ℕ
  pub exit_code : ℤ
  pub exit_err : Text
  pub kill : Kill
  pub log_removed : Bool
  pub waited_for : Bool

-- What `cmd.Wait` returns.
pub data WaitResult : Type 0 where
  clean_exit : WaitResult
  exit_error : Text → ℤ → WaitResult
  wait_error : Text → WaitResult

pub data StartError : Type 0 where
  id_required command_required shutting_down already_in_use limit_reached : StartError
  log_failed launch_failed : StartError
  exited_immediately : Text → StartError

-- Where a call of `Start` stands.
pub data Phase : Type 0 where
  -- past the first lock, with the identifier, the command and the directory
  checked : Text → Text → Text → Phase
  -- the process runs, and is not in the pool
  launched : ℕ → Phase
  -- in the grace period
  grace : ℕ → Phase
  started : ℕ → Phase
  refused : StartError → Phase

-- A process that `Stop` or `Shutdown`, or `reapOnce`, has taken out of the pool and has yet to kill, one
-- that `Start` has refused under its second lock and has yet to kill, or one that is done with.
pub data Removal : Type 0 where
  to_kill to_reap to_discard : ℕ → Removal
  ended : Removal

-- `ProcessManager`. A process is the index of its object; `starts` are the calls of `Start` so far, and
-- `removals` the processes taken out of the pool, or refused by it, so far.
pub record ProcessManager : Type 0 where
  pub workspace_root : Text
  pub max_processes : ℕ
  pub max_age : ℕ
  pub processes : List (Text × ℕ)
  pub shutting_down : Bool
  pub objects : List Process
  pub starts : List Phase
  pub removals : List Removal

default_limit : ℤ → ℕ
default_limit limit = if not_positive limit then 5 else pos_part limit

-- `NewProcessManager`
unfoldable pub new_manager : Text → ℤ → ℕ → ProcessManager
unfolding default_limit
new_manager root limit age = record {
  workspace_root = root;
  max_processes = default_limit limit;
  max_age = age;
  processes = [];
  shutting_down = false;
  objects = [];
  starts = [];
  removals = [];
}

unfoldable pub kill_by : Tree → Kill → Kill
kill_by no_tree sent = child_only
kill_by idle_tree sent = sent
kill_by live_tree sent = whole_tree

-- `tree.kill`, or Process.Kill where the interface is nil.
unfoldable pub kill_process : Process → Process
unfolding kill_by
kill_process p = record p { kill = kill_by p.tree p.kill }

at_place : (Process → Process) → List Process → ℕ → Option Process → List Process
at_place f ps h none = ps
at_place f ps h (some p) = set ps h (f p)

-- The objects with the one at `h` changed.
unfoldable pub modify : (Process → Process) → List Process → ℕ → List Process
unfolding at_place
modify f ps h = at_place f ps h (get_elem? ps h)
