-- ===== src/Executor/Shell.antt =====
-- executor/shell.go, `Run`: the loop over four channels, and what is made of it. An iteration is given by
-- the case that `select` chose; which cases are ready is up to the command, its descendants and the
-- clock.
pub mod Ending
pub mod Outcome
mod Tests
use vectrify_agent_runner.Base.{
  ℕ, zero, suc, ◌+◌, ◌≡◌, Bool, true, false, not, ◌&&◌, ◌||◌, Option, none, some, List, [], ◌∷◌,
  ◌++◌, Text, if◌then◌else◌, ◌==◌, ℤ, pos, negsuc, is_zero,
}
use vectrify_agent_runner.Executor.Processes.{WaitResult, clean_exit, exit_error, wait_error}

pub data Stream : Type 0 where
  stdout stderr : Stream

-- A chunk of the channel `chunks`: output of the command, or a note of the runner on standard error.
pub data ShellChunk : Type 0 where
  output : Stream → Text → ShellChunk
  timed_out_note : ℤ → ShellChunk
  force_killed_note unconfirmed_note : ShellChunk
  -- a pipe or the process could not be made
  failure_note : Text → ShellChunk

-- The case that an iteration of the loop takes.
pub data Ready : Type 0 where
  from_out : Stream → Text → Ready
  out_closed : Ready
  from_cmd_done : WaitResult → Ready
  from_ctx_done : Ready
  from_grace : Ready

-- The variables of the loop. `cmd_done` and `ctx_done` are whether these channels are not nil yet,
-- `grace` whether the timer has been started, `kills` the calls of `tree.kill`.
pub record Loop : Type 0 where
  pub timeout_secs : ℤ
  pub sent : List ShellChunk
  pub timed_out : Bool
  pub force_killed : Bool
  pub exited : Bool
  pub cmd_err : WaitResult
  pub cmd_done : Bool
  pub ctx_done : Bool
  pub grace : Bool
  pub kills : ℕ
  pub left : Bool

unfoldable pub new_loop : ℤ → Loop
new_loop timeout_secs = record {
  timeout_secs = timeout_secs;
  sent = [];
  timed_out = false;
  force_killed = false;
  exited = false;
  cmd_err = clean_exit;
  cmd_done = true;
  ctx_done = true;
  grace = false;
  kills = 0;
  left = false;
}

unfoldable pub on_cmd_done : Loop → WaitResult → Loop
on_cmd_done l err = record l {
  cmd_done = false;
  cmd_err = err;
  exited = true;
  kills = suc l.kills;
  grace = true;
}

unfoldable pub on_ctx_done : Loop → Loop
on_ctx_done l = record l {
  ctx_done = false;
  timed_out = true;
  sent = l.sent ++ timed_out_note l.timeout_secs ∷ [];
  kills = suc l.kills;
  grace = true;
}

-- One iteration; `none` where the channel of the case is nil.
unfoldable pub iterate : Loop → Ready → Option Loop
unfolding on_cmd_done on_ctx_done
iterate l (from_out stream bytes) = some (record l { sent = l.sent ++ output stream bytes ∷ [] })
iterate l out_closed = some (record l { left = true })
iterate l (from_cmd_done err) = if l.cmd_done then some (on_cmd_done l err) else none
iterate l from_ctx_done = if l.ctx_done then some (on_ctx_done l) else none
iterate l from_grace =
    if l.grace then some (record l { force_killed = true; left = true }) else none

unfoldable pub turn : Loop → Ready → Option Loop
unfolding iterate
turn l r = if l.left then none else iterate l r

-- The loop over the cases taken; `none` if one of them cannot be taken.
unfoldable pub loop : Option Loop → List Ready → Option Loop
unfolding turn
loop none rs = none
loop (some l) [] = some l
loop (some l) (r ∷ rs) = loop (turn l r) rs

-- What the wait for the exit status after the loop comes to.
pub data LastWait : Type 0 where
  arrives : WaitResult → LastWait
  grace_passes : LastWait

unfoldable pub confirm_exit : Loop → LastWait → Loop
confirm_exit l (arrives err) = record l { cmd_err = err; exited = true }
confirm_exit l grace_passes = record l { sent = l.sent ++ unconfirmed_note ∷ [] }

unfoldable pub exit_code_of : WaitResult → ℤ
exit_code_of clean_exit = pos 0
exit_code_of (exit_error text code) = code
exit_code_of (wait_error text) = pos 1

pub record ShellResult : Type 0 where
  pub chunks : List ShellChunk
  pub exit_code : ℤ
  pub ok : Bool

unfoldable pub result_of : List ShellChunk → ℤ → ShellResult
result_of chunks code = record { chunks = chunks; exit_code = code; ok = is_zero code }

-- The switch on the exit code, for whether the deadline has passed.
unfoldable pub conclude : Loop → Bool → ShellResult
unfolding exit_code_of result_of
conclude l expired =
    if l.timed_out
    then result_of l.sent (negsuc 0)
    else if expired
    then result_of (l.sent ++ timed_out_note l.timeout_secs ∷ []) (negsuc 0)
    else if not l.exited
    then result_of l.sent (pos 1)
    else result_of l.sent (exit_code_of l.cmd_err)

-- What follows the loop.
unfoldable pub finish : Loop → LastWait → Bool → ShellResult
unfolding conclude confirm_exit
finish l last expired =
    let k = if l.force_killed then record l { sent = l.sent ++ force_killed_note ∷ [] } else l in
    conclude (if k.exited then k else confirm_exit k last) expired

-- Whether the pipes and the process could be made.
pub data Begin : Type 0 where
  begin_failed : Text → Begin
  begun : Begin

unfoldable pub finish_loop : Option Loop → LastWait → Bool → Option ShellResult
unfolding finish
finish_loop none last expired = none
finish_loop (some l) last expired = if l.left then some (finish l last expired) else none

-- `Run`; `none` for cases that cannot be taken, or that do not leave the loop.
unfoldable pub run_shell : ℤ → Begin → List Ready → LastWait → Bool → Option ShellResult
unfolding result_of finish_loop loop new_loop
run_shell timeout_secs (begin_failed text) cases last expired =
    some (result_of (failure_note text ∷ []) (pos 1))
run_shell timeout_secs begun cases last expired =
    finish_loop (loop (some (new_loop timeout_secs)) cases) last expired
