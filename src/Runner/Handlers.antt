-- ===== src/Runner/Handlers.antt =====
-- runner/runner.go: `Dispatch` and its other handlers.
use vectrify_agent_runner.Base.{
  Bool, true, false, not, Option, none, some, List, [], ◌∷◌, ◌++◌, Text, codes, text_eq, lookup,
  if◌then◌else◌, newline, join, ℤ, pos, not_positive,
}
use vectrify_agent_runner.Protocol.{
  RawCommand, Value, pair, Message, stream_msg, done_msg, error_msg, str, get_bool, get_int, int_of,
  cmd_id, cmd_type,
}
use vectrify_agent_runner.Executor.FileOps.{
  FileOp, view_op, create_op, str_replace_op, insert_op, delete_op, other_op,
}
use vectrify_agent_runner.Executor.Shell.{Stream, stdout, stderr}
use vectrify_agent_runner.Runner.{Answer, data_of, error_of, Executors, Runner}
use vectrify_agent_runner.Runner.Browser.{failed, succeeded, handle_browser}
use vectrify_agent_runner.Runner.Timeouts.{shell_timeout}

-- What a handler does: the messages it sends, and whether it asks for a new connection.
pub record Handled : Type 0 where
  pub sent : List Message
  pub reconnect : Bool

abbrev pub only : List Message → Handled
only sent = record { sent = sent; reconnect = false }

unfoldable pub result_of : Text → Answer → Message
unfolding failed succeeded
result_of id (data_of text) = succeeded id text
result_of id (error_of e) = failed id e

unfoldable pub range_of : Option Value → Option (ℤ × ℤ)
range_of (some (pair a b)) = some (int_of (some a), int_of (some b))
range_of v = none

-- The operation that a `file_op` command names.
unfoldable pub file_op_of : RawCommand → FileOp
unfolding range_of
file_op_of raw =
    let command = str raw (codes "command") in
    if text_eq command (codes "view")
    then view_op (range_of (lookup (codes "view_range") raw))
    else if text_eq command (codes "create")
    then create_op (str raw (codes "file_text"))
    else if text_eq command (codes "str_replace")
    then str_replace_op (str raw (codes "old_str")) (str raw (codes "new_str"))
    else if text_eq command (codes "insert")
    then insert_op (get_int raw (codes "insert_line")) (str raw (codes "new_str"))
    else if text_eq command (codes "delete")
    then delete_op
    else other_op command

file_op_data : FileOp → Text → Answer → Answer
file_op_data (create_op bytes) path (data_of text) =
    data_of (codes "File created successfully: " ++ path)
file_op_data delete_op path (data_of text) = data_of (codes "File deleted: " ++ path)
file_op_data op path a = a

unfoldable pub file_op_message : Executors → Text → Text → FileOp → Message
unfolding result_of file_op_data failed
file_op_message x id path (other_op command) =
    failed id (codes "unknown file_op command: " ++ x.quoted command)
file_op_message x id path op = result_of id (file_op_data op path (x.file_op op path))

unfoldable pub handle_file_op_msg : Runner → Text → RawCommand → Handled
unfolding file_op_message file_op_of
handle_file_op_msg r id raw =
    only (file_op_message r.executors id (str raw (codes "path")) (file_op_of raw) ∷ [])

unfoldable pub stream_name : Stream → Text
stream_name stdout = codes "stdout"
stream_name stderr = codes "stderr"

unfoldable pub chunk_msgs : Text → List (Stream × Text) → List Message
unfolding stream_name
chunk_msgs id [] = []
chunk_msgs id ((stream, bytes) ∷ chunks) =
    stream_msg id (stream_name stream) bytes ∷ chunk_msgs id chunks

unfoldable pub shell_msgs : Text → List (Stream × Text) × (Bool × ℤ) → List Message
unfolding chunk_msgs
shell_msgs id (chunks, (ok, code)) = chunk_msgs id chunks ++ done_msg id ok code ∷ []

-- `handleShell`. Whether shell commands are allowed is not asked.
unfoldable pub handle_shell : Runner → Text → RawCommand → Handled
unfolding shell_msgs shell_timeout
handle_shell r id raw = only (
    shell_msgs id (
      r.executors.shell (str raw (codes "command")) (str raw (codes "working_dir"))
        (shell_timeout (get_int raw (codes "timeout_seconds")))))

unfoldable pub handle_git : Runner → Text → RawCommand → Handled
unfolding result_of
handle_git r id raw = only (
    result_of id (r.executors.git (str raw (codes "operation")) (str raw (codes "working_dir")) raw)
    ∷ [])

unfoldable pub transfer_limit : ℤ → ℤ
transfer_limit n = if not_positive n then pos 104857600 else n

unfoldable pub handle_file_transfer : Runner → Text → RawCommand → Handled
unfolding result_of transfer_limit
handle_file_transfer r id raw = only (
    result_of id (
      r.executors.transfer (str raw (codes "direction")) (str raw (codes "url"))
        (str raw (codes "path")) (transfer_limit (get_int raw (codes "max_bytes")))
        (get_bool raw (codes "overwrite")))
    ∷ [])

abbrev pub process_gate : Text
process_gate =
    codes
      "process commands require allow_shell=true in config.yaml (background processes share the shell permission — there is no separate allow_process setting)"

unfoldable pub stopped_text : Text → Bool → Text
stopped_text id true = codes "process " ++ id ++ codes " stopped"
stopped_text id false =
    codes "process " ++ id ++ codes " was not running (already stopped or never existed)"

unfoldable pub list_text : List Text → Text
list_text [] = codes "no background processes are currently tracked"
list_text (l ∷ ls) = join newline (l ∷ ls)

unfoldable pub process_message : Executors → Text → RawCommand → Text → Text → Message
unfolding result_of stopped_text list_text failed succeeded
process_message x id raw action process =
    if text_eq action (codes "start")
    then result_of id
        (x.process_start process (str raw (codes "command")) (str raw (codes "working_dir")))
    else if text_eq action (codes "stop")
    then succeeded id (stopped_text (x.quoted process) (x.process_stop process))
    else if text_eq action (codes "list")
    then succeeded id (list_text x.process_list)
    else if text_eq action (codes "logs")
    then result_of id (x.process_logs process (get_int raw (codes "tail_lines")))
    else failed id (codes "unknown process action: " ++ x.quoted action)

unfoldable pub handle_process : Runner → Text → RawCommand → Handled
unfolding process_message failed
handle_process r id raw = only (
    (if not r.allow_shell
      then failed id process_gate
      else process_message r.executors id raw (str raw (codes "action"))
          (str raw (codes "process_id")))
    ∷ [])

unfoldable pub key_handled : Text → Bool → Option Text → Handled
unfolding failed succeeded
key_handled id can_reconnect (some e) = only (failed id e ∷ [])
key_handled id can_reconnect none = record {
  sent = succeeded id (codes "runner_key updated") ∷ [];
  reconnect = can_reconnect;
}

-- `handleUpdateKey`, for whether `triggerReconnect` was given.
unfoldable pub handle_update_key : Runner → Text → RawCommand → Bool → Handled
unfolding key_handled failed
handle_update_key r id raw can_reconnect =
    let key = str raw (codes "new_key") in
    if text_eq key []
    then only (failed id (codes "new_key is required") ∷ [])
    else key_handled id can_reconnect (r.executors.update_runner_key key)

unfoldable pub dispatch_type : Runner → Text → Text → RawCommand → Bool → Handled
unfolding handle_file_op_msg handle_shell handle_git handle_file_transfer handle_update_key
    handle_process handle_browser
dispatch_type r type id raw can_reconnect =
    if text_eq type (codes "file_op")
    then handle_file_op_msg r id raw
    else if text_eq type (codes "shell")
    then handle_shell r id raw
    else if text_eq type (codes "git")
    then handle_git r id raw
    else if text_eq type (codes "file_transfer")
    then handle_file_transfer r id raw
    else if text_eq type (codes "update_key")
    then handle_update_key r id raw can_reconnect
    else if text_eq type (codes "browser")
    then only (handle_browser r id raw)
    else if text_eq type (codes "process")
    then handle_process r id raw
    else only (error_msg id (codes "unknown command type: " ++ r.executors.quoted type) ∷ [])

-- `Dispatch`
unfoldable pub dispatch : Runner → RawCommand → Bool → Handled
unfolding dispatch_type cmd_id cmd_type
dispatch r raw can_reconnect = dispatch_type r (cmd_type raw) (cmd_id raw) raw can_reconnect
