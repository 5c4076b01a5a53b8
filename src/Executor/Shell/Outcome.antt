-- ===== src/Executor/Shell/Outcome.antt =====
-- executor/shell.go, `Run`: its result against what happened.
use vectrify_agent_runner.Base.{
  ◌≡◌, Bool, true, false, Option, none, some, List, [], ◌∷◌, ℤ, pos, negsuc, is_zero,
}
use vectrify_agent_runner.Executor.Processes.{WaitResult}
use vectrify_agent_runner.Executor.Shell.{
  ShellChunk, output, timed_out_note, force_killed_note, unconfirmed_note, failure_note, Ready,
  from_out, out_closed, from_cmd_done, from_ctx_done, from_grace, Loop, LastWait, arrives,
  grace_passes, ShellResult, exit_code_of,
}

-- What happened: whether the deadline was seen, the exit status that arrived, and the output.
unfoldable pub deadline_seen : Bool → List Ready → Bool
deadline_seen b [] = b
deadline_seen b (from_out stream bytes ∷ rs) = deadline_seen b rs
deadline_seen b (out_closed ∷ rs) = deadline_seen b rs
deadline_seen b (from_cmd_done err ∷ rs) = deadline_seen b rs
deadline_seen b (from_ctx_done ∷ rs) = deadline_seen true rs
deadline_seen b (from_grace ∷ rs) = deadline_seen b rs

unfoldable pub status_seen : Option WaitResult → List Ready → Option WaitResult
status_seen s [] = s
status_seen s (from_out stream bytes ∷ rs) = status_seen s rs
status_seen s (out_closed ∷ rs) = status_seen s rs
status_seen s (from_cmd_done err ∷ rs) = status_seen (some err) rs
status_seen s (from_ctx_done ∷ rs) = status_seen s rs
status_seen s (from_grace ∷ rs) = status_seen s rs

unfoldable pub heard : List Ready → List ShellChunk
heard [] = []
heard (from_out stream bytes ∷ rs) = output stream bytes ∷ heard rs
heard (out_closed ∷ rs) = heard rs
heard (from_cmd_done err ∷ rs) = heard rs
heard (from_ctx_done ∷ rs) = heard rs
heard (from_grace ∷ rs) = heard rs

-- The chunks without the notes of the runner.
unfoldable pub outputs : List ShellChunk → List ShellChunk
outputs [] = []
outputs (output stream bytes ∷ cs) = output stream bytes ∷ outputs cs
outputs (timed_out_note t ∷ cs) = outputs cs
outputs (force_killed_note ∷ cs) = outputs cs
outputs (unconfirmed_note ∷ cs) = outputs cs
outputs (failure_note text ∷ cs) = outputs cs

status_of : Bool → WaitResult → Option WaitResult
status_of false err = none
status_of true err = some err

-- The state of the loop says what has happened.
abbrev Tells : Bool → Option WaitResult → List ShellChunk → Option Loop → Type 0
Tells d s cs none = Unit
Tells d s cs (some l) =
    (l.timed_out ≡ d) × (status_of l.exited l.cmd_err ≡ s) × (outputs l.sent ≡ cs)

-- The exit status in the end: what arrived, or else what the wait after the loop came to.
unfoldable pub confirmed : Option WaitResult → LastWait → Option WaitResult
confirmed (some err) last = some err
confirmed none (arrives err) = some err
confirmed none grace_passes = none

unfoldable pub verdict : Bool → Option WaitResult → ℤ
verdict true status = negsuc 0
verdict false none = pos 1
verdict false (some err) = exit_code_of err

-- What a result has to say of what happened.
abbrev pub Reports : Bool → Option WaitResult → List ShellChunk → ShellResult → Type 0
Reports late status cs r =
    (r.exit_code ≡ verdict late status) × (r.ok ≡ is_zero r.exit_code) × (outputs r.chunks ≡ cs)
