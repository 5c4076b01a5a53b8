-- ===== src/Runner.antt =====
-- runner/runner.go: what the runner makes of one command. The executors are given by what they answer,
-- so that a handler is the messages it sends.
pub mod Browser
pub mod Handlers
pub mod Replies
pub mod Timeouts
mod Tests
use vectrify_agent_runner.Base.{Bool, Option, none, some, List, Text, ℤ}
use vectrify_agent_runner.Protocol.{RawCommand}
use vectrify_agent_runner.Executor.FileOps.{FileOp}
use vectrify_agent_runner.Executor.Shell.{Stream}

-- A string or an error.
pub data Answer : Type 0 where
  data_of : Text → Answer
  error_of : Text → Answer

-- The calls of the browser manager.
pub data BrowserCall : Type 0 where
  launch_session : BrowserCall
  goto_url : Text → ℤ → BrowserCall
  click : Text → ℤ → BrowserCall
  fill : Text → Text → ℤ → BrowserCall
  wait_for_selector : Text → Text → ℤ → BrowserCall
  screenshot : Text → Bool → BrowserCall
  get_text : Text → BrowserCall
  get_content : BrowserCall
  evaluate : Text → BrowserCall
  close_session : BrowserCall

-- What the executors answer: `file_op` with the data of a command that succeeds, `shell` with the
-- chunks, success and the exit code, `install` with the progress and the error of `EnsureInstalled`,
-- `browser` for a session (with what `evaluate` gives already written out), `process_start` with the
-- line on the process, `process_list` with one for each of them. `quoted` is the verb %q of package fmt
-- and `seconds_text` writes an exit code.
pub record Executors : Type 0 where
  pub file_op : FileOp → Text → Answer
  pub shell : Text → Text → ℤ → List (Stream × Text) × (Bool × ℤ)
  pub git : Text → Text → RawCommand → Answer
  pub transfer : Text → Text → Text → ℤ → Bool → Answer
  pub install : List Text × Option Text
  pub browser : Text → BrowserCall → Answer
  pub process_start : Text → Text → Text → Answer
  pub process_stop : Text → Bool
  pub process_list : List Text
  pub process_logs : Text → ℤ → Answer
  pub update_runner_key : Text → Option Text
  pub quoted : Text → Text

-- The `Runner`, with the field of its configuration that handlers read.
pub record Runner : Type 0 where
  pub allow_shell : Bool
  pub executors : Executors
