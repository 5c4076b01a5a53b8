-- ===== src/Runner/Tests.antt =====
-- Commands to a runner whose executors always answer the same.
use vectrify_agent_runner.Base.{
  ◌≢◌, ◌⊎◌, ℕ, ◌≡◌, ◌≤◌, refl, true, false, none, [], ◌∷◌, codes, text_eq, lookup, min, ◌*◌, pos,
  int_lt, not_positive,
}
use vectrify_agent_runner.Protocol.{RawCommand, text, number, cmd_id, cmd_type, int_of}
use vectrify_agent_runner.Executor.Shell.{stdout}
use vectrify_agent_runner.Runner.{Runner, Executors, data_of}
use vectrify_agent_runner.Runner.Handlers.{dispatch}
use vectrify_agent_runner.Runner.Replies.{IsReply, dispatch-IsReply, dispatch-noninterference}
use vectrify_agent_runner.Runner.Timeouts.{
  max_shell_timeout, clamp_timeout, shell_deadline, shell_deadline-bounded,
}

abbrev fixed : Executors
fixed = record {
  file_op = λ op path. data_of (codes "ok");
  shell = λ command dir timeout. ((stdout, codes "x") ∷ [], (true, pos 0));
  git = λ op dir raw. data_of (codes "ok");
  transfer = λ direction url path limit overwrite. data_of (codes "ok");
  install = (codes "50%" ∷ [], none);
  browser = λ session c. data_of (codes "ok");
  process_start = λ id command dir. data_of (codes "ok");
  process_stop = λ id. true;
  process_list = [];
  process_logs = λ id n. data_of (codes "ok");
  update_runner_key = λ key. none;
  quoted = λ s. s;
}

abbrev strict : Runner
strict = record { allow_shell = false; executors = fixed }

abbrev shell_command : RawCommand
shell_command =
    (codes "cmd_id", text (codes "7"))
    ∷ (codes "type", text (codes "shell"))
    ∷ (codes "command", text (codes "ls"))
    ∷ []

abbrev key_command : RawCommand
key_command =
    (codes "cmd_id", text (codes "8"))
    ∷ (codes "type", text (codes "update_key"))
    ∷ (codes "new_key", text (codes "vrun_1"))
    ∷ []

-- A timeout for the browser whose product overflows is not limited.
unlimited :
    clamp_timeout ((codes "timeout_seconds", number (pos 9223372037)) ∷ [])
    ≡ (codes "timeout_seconds", number (pos 9223372037)) ∷ []
unfolding clamp_timeout lookup text_eq int_of
unlimited = refl

dispatch-IsReply_example : IsReply (cmd_id shell_command) (dispatch strict shell_command true).sent
dispatch-IsReply_example = dispatch-IsReply strict shell_command true

abbrev refusing : Executors
refusing = record fixed { shell = λ command dir timeout. ([], (false, pos 1)) }

dispatch-noninterference_example :
    (strict.allow_shell ≡ false
      → (cmd_type shell_command ≡ codes "process") ⊎ (cmd_type shell_command ≡ codes "browser")
      → dispatch strict shell_command true
        ≡ dispatch (record strict { executors = refusing }) shell_command true)
    × (cmd_type shell_command ≢ codes "process"
        → cmd_type shell_command ≢ codes "browser"
        → dispatch strict shell_command true
          ≡ dispatch (record strict { allow_shell = true }) shell_command true)
dispatch-noninterference_example = dispatch-noninterference strict refusing true shell_command true

shell_deadline-bounded_example :
    (int_lt max_shell_timeout (shell_deadline (pos 700)) ≡ false)
    × ((n : ℕ)
        → pos 700 ≡ pos n
        → 1 ≤ n
        → n ≤ 9223372036
        → shell_deadline (pos 700) ≡ pos (min n 600 * 1000000000))
    × (not_positive (pos 700) ≡ true → shell_deadline (pos 700) ≡ pos 60000000000)
shell_deadline-bounded_example = shell_deadline-bounded (pos 700)
