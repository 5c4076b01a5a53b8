-- ===== src/Runner/Replies.antt =====
-- runner/runner.go: the messages that answer a command, and which commands `allow_shell` stops.
use vectrify_agent_runner.Base.{
  ◌≡◌, ◌≢◌, ◌⊎◌, inl, inr, refl, Bool, true, false, not, Option, none, some, List, [], ◌∷◌, ◌++◌,
  Text, codes, text_eq, text_eq_iff, if◌then◌else◌, Bool-cases, All, arith, ℤ,
}
use vectrify_agent_runner.Protocol.{
  RawCommand, Message, result_msg, stream_msg, done_msg, error_msg, str, cmd_id, cmd_type,
}
use vectrify_agent_runner.Executor.FileOps.{FileOp, other_op}
use vectrify_agent_runner.Executor.Shell.{Stream}
use vectrify_agent_runner.Runner.{Answer, data_of, error_of, Executors, Runner, BrowserCall}
use vectrify_agent_runner.Runner.Browser.{
  failed, succeeded, handle_browser, after_install, perform, answered, progress_msgs, Planned, call,
  missing, unknown,
}
use vectrify_agent_runner.Runner.Handlers.{
  Handled, dispatch, dispatch_type, handle_file_op_msg, handle_shell, handle_git,
  handle_file_transfer, handle_update_key, handle_process, key_handled, result_of, file_op_message,
  shell_msgs, chunk_msgs, process_message,
}

-- A message of the stream of a command, and one that ends it.
abbrev pub IsStream : Text → Message → Type 0
IsStream id (stream_msg i stream bytes) = i ≡ id
IsStream id m = ⊥

abbrev pub IsTerminal : Text → Message → Type 0
IsTerminal id (stream_msg i stream bytes) = ⊥
IsTerminal id (result_msg i ok text error) = i ≡ id
IsTerminal id (done_msg i ok code) = i ≡ id
IsTerminal id (error_msg i message) = i ≡ id

-- Any number of messages of the stream, and then one that ends the command.
abbrev pub IsReply : Text → List Message → Type 0
IsReply id [] = ⊥
IsReply id (m ∷ []) = IsTerminal id m
IsReply id (m ∷ n ∷ ms) = IsStream id m × IsReply id (n ∷ ms)

append-IsReply :
    (id : Text) (ms : List Message) (m : Message)
    → All (IsStream id) ms
    → IsTerminal id m
    → IsReply id (ms ++ m ∷ [])
append-IsReply id [] m h t = t
append-IsReply id (a ∷ []) m h t = (h.0, t)
append-IsReply id (a ∷ b ∷ ms) m h t = (h.0, append-IsReply id (b ∷ ms) m h.1 t)

result_of-IsTerminal : (id : Text) (a : Answer) → IsTerminal id (result_of id a)
unfolding result_of failed succeeded
result_of-IsTerminal id (data_of text) = refl
result_of-IsTerminal id (error_of e) = refl

chunk_msgs-IsStream :
    (id : Text) (chunks : List (Stream × Text)) → All (IsStream id) (chunk_msgs id chunks)
unfolding chunk_msgs
chunk_msgs-IsStream id [] = tt
chunk_msgs-IsStream id ((stream, bytes) ∷ chunks) = (refl, chunk_msgs-IsStream id chunks)

progress_msgs-IsStream : (id : Text) (ts : List Text) → All (IsStream id) (progress_msgs id ts)
unfolding progress_msgs
progress_msgs-IsStream id [] = tt
progress_msgs-IsStream id (t ∷ ts) = (refl, progress_msgs-IsStream id ts)

file_op_message-IsTerminal :
    (x : Executors) (id path : Text) (op : FileOp) → IsTerminal id (file_op_message x id path op)
unfolding file_op_message failed
file_op_message-IsTerminal x id path (other_op command) = refl
file_op_message-IsTerminal x id path op = result_of-IsTerminal id _

-- A choice of which both sides have a property.
choose : {A : Type 0} (P : A → Type 0) (b : Bool) (x y : A) → P x → P y → P (if b then x else y)
choose P true x y h k = h
choose P false x y h k = k

process_message-IsTerminal :
    (x : Executors) (id : Text) (raw : RawCommand) (action process : Text)
    → IsTerminal id (process_message x id raw action process)
unfolding process_message failed succeeded
process_message-IsTerminal x id raw action process =
    choose (IsTerminal id) (text_eq action (codes "start")) _ _ (result_of-IsTerminal id _) (
      choose (IsTerminal id) (text_eq action (codes "stop")) _ _ refl (
        choose (IsTerminal id) (text_eq action (codes "list")) _ _ refl (
          choose (IsTerminal id) (text_eq action (codes "logs")) _ _ (result_of-IsTerminal id _)
            refl)))

answered-IsTerminal :
    (x : Executors) (id session log : Text) (c : BrowserCall) (a : Answer)
    → IsTerminal id (answered x id session log c a)
unfolding answered failed succeeded
answered-IsTerminal x id session log c (error_of e) = refl
answered-IsTerminal x id session log c (data_of text) = refl

perform-IsTerminal :
    (x : Executors) (id session action log : Text) (p : Planned)
    → IsTerminal id (perform x id session action log p)
unfolding perform failed
perform-IsTerminal x id session action log unknown = refl
perform-IsTerminal x id session action log (missing error) = refl
perform-IsTerminal x id session action log (call c) = answered-IsTerminal x id session log c _

after_install-IsTerminal :
    (x : Executors) (id : Text) (raw : RawCommand) (log : Text) (e : Option Text)
    → IsTerminal id (after_install x id raw log e)
unfolding after_install failed
after_install-IsTerminal x id raw log (some error) = refl
after_install-IsTerminal x id raw log none =
    choose (IsTerminal id) (text_eq (str raw (codes "session_id")) []) _ _ refl
      (perform-IsTerminal x id (str raw (codes "session_id")) (str raw (codes "action")) log _)

handle_browser-IsReply :
    (r : Runner) (id : Text) (raw : RawCommand) → IsReply id (handle_browser r id raw)
unfolding handle_browser failed
handle_browser-IsReply r id raw = choose (IsReply id) (not r.allow_shell) _ _ refl (
    append-IsReply id (progress_msgs id r.executors.install.0) _
      (progress_msgs-IsStream id r.executors.install.0)
      (after_install-IsTerminal r.executors id raw _ r.executors.install.1))

key_handled-IsReply :
    (id : Text) (b : Bool) (e : Option Text) → IsReply id (key_handled id b e).sent
unfolding key_handled failed succeeded
key_handled-IsReply id b none = refl
key_handled-IsReply id b (some e) = refl

shell_msgs-IsReply :
    (id : Text) (o : List (Stream × Text) × (Bool × ℤ)) → IsReply id (shell_msgs id o)
unfolding shell_msgs
shell_msgs-IsReply id (chunks, (ok, code)) =
    append-IsReply id (chunk_msgs id chunks) (done_msg id ok code) (chunk_msgs-IsStream id chunks)
      refl

dispatch_type-IsReply :
    (r : Runner) (type id : Text) (raw : RawCommand) (b : Bool)
    → IsReply id (dispatch_type r type id raw b).sent
unfolding dispatch_type handle_file_op_msg handle_shell handle_git handle_file_transfer
    handle_update_key handle_process failed
dispatch_type-IsReply r type id raw b =
    let P : Handled → Type 0 = λ h. IsReply id h.sent in
    choose P (text_eq type (codes "file_op")) _ _ (file_op_message-IsTerminal r.executors id _ _) (
      choose P (text_eq type (codes "shell")) _ _ (shell_msgs-IsReply id _) (
        choose P (text_eq type (codes "git")) _ _ (result_of-IsTerminal id _) (
          choose P (text_eq type (codes "file_transfer")) _ _ (result_of-IsTerminal id _) (
            choose P (text_eq type (codes "update_key")) _ _
              (choose P (text_eq (str raw (codes "new_key")) []) _ _ refl
                (key_handled-IsReply id b _))
              (choose P (text_eq type (codes "browser")) _ _ (handle_browser-IsReply r id raw) (
                choose P (text_eq type (codes "process")) _ _
                  (choose (IsTerminal id) (not r.allow_shell) _ _ refl
                    (process_message-IsTerminal r.executors id raw _ _))
                  refl))))))

-- Whatever the executors answer: a command gets any number of stream messages, and then exactly one
-- message that ends it, which is the last; and all of them carry the identifier of the command.
pub dispatch-IsReply :
    (r : Runner) (raw : RawCommand) (can_reconnect : Bool)
    → IsReply (cmd_id raw) (dispatch r raw can_reconnect).sent
unfolding dispatch
dispatch-IsReply r raw can_reconnect =
    dispatch_type-IsReply r (cmd_type raw) (cmd_id raw) raw can_reconnect

elif-Holds :
    {A : Type 0} (P : A → Type 0) (b : Bool) (x y : A)
    → ((b ≡ true) → P x)
    → P y
    → P (if b then x else y)
elif-Holds P true x y h k = h refl
elif-Holds P false x y h k = k

-- When a new connection is asked for.
abbrev pub IsRotation : Runner → RawCommand → Bool → Type 0
IsRotation r raw can_reconnect =
    (can_reconnect ≡ true)
    × (cmd_type raw ≡ codes "update_key")
    × (str raw (codes "new_key") ≢ [])
    × (r.executors.update_runner_key (str raw (codes "new_key")) ≡ none)

key_handled-reconnects :
    (id : Text) (b : Bool) (e : Option Text)
    → (key_handled id b e).reconnect ≡ true
    → (b ≡ true) × (e ≡ none)
unfolding key_handled
key_handled-reconnects id b none h = (h, refl)
key_handled-reconnects id b (some e) h = cc

handle_update_key-reconnects :
    (r : Runner) (id : Text) (raw : RawCommand) (b : Bool)
    → (handle_update_key r id raw b).reconnect ≡ true
    → (b ≡ true)
      × (str raw (codes "new_key") ≢ [])
      × (r.executors.update_runner_key (str raw (codes "new_key")) ≡ none)
unfolding handle_update_key
handle_update_key-reconnects r id raw b h =
    let key = str raw (codes "new_key") in
    elim (Bool-cases (text_eq key [])) [
      | inl e ↦ ground (arith, e, h)
      | inr e ↦
          let k =
            key_handled-reconnects id b (r.executors.update_runner_key key)
              (ground (arith, e, h)) in
          (k.0, λ q. ground (arith, e, (text_eq_iff key []).1 q), k.1)
    ]

-- A new connection is asked for only where the caller can be asked, by a command for a new key that is
-- not empty, and after the key has been written.
pub dispatch-reconnects :
    (r : Runner) (raw : RawCommand) (can_reconnect : Bool)
    → (dispatch r raw can_reconnect).reconnect ≡ true
    → IsRotation r raw can_reconnect
unfolding dispatch dispatch_type handle_file_op_msg handle_shell handle_git handle_file_transfer
    handle_process
dispatch-reconnects r raw b =
    let type = cmd_type raw in
    let P : Handled → Type 0 = λ h. (h.reconnect ≡ true) → IsRotation r raw b in
    choose P (text_eq type (codes "file_op")) _ _ (λ e. cc)
      (choose P (text_eq type (codes "shell")) _ _ (λ e. cc)
        (choose P (text_eq type (codes "git")) _ _ (λ e. cc)
          (choose P (text_eq type (codes "file_transfer")) _ _ (λ e. cc)
            (elif-Holds P (text_eq type (codes "update_key")) _ _
              (λ t h.
                let k = handle_update_key-reconnects r (cmd_id raw) raw b h in
                (k.0, (text_eq_iff type (codes "update_key")).0 t, k.1, k.2))
              (choose P (text_eq type (codes "browser")) _ _ (λ e. cc)
                (choose P (text_eq type (codes "process")) _ _ (λ e. cc) (λ e. cc)))))))

-- The choice between two handlers, for two runners.
if-cong :
    (b : Bool) (x y z w : Handled)
    → ((b ≡ true) → x ≡ z)
    → (y ≡ w)
    → (if b then x else y) ≡ (if b then z else w)
if-cong true x y z w h k = h refl
if-cong false x y z w h k = k

refuses-same :
    (r : Runner) (other : Executors) (raw : RawCommand) (can_reconnect : Bool)
    → r.allow_shell ≡ false
    → (cmd_type raw ≡ codes "process") ⊎ (cmd_type raw ≡ codes "browser")
    → dispatch r raw can_reconnect ≡ dispatch (record r { executors = other }) raw can_reconnect
unfolding dispatch dispatch_type text_eq handle_process handle_browser
refuses-same r other raw can_reconnect e (inl t) = rw (t, e) refl
refuses-same r other raw can_reconnect e (inr t) = rw (t, e) refl

ungated-same :
    (r : Runner) (allowed : Bool) (raw : RawCommand) (can_reconnect : Bool)
    → cmd_type raw ≢ codes "process"
    → cmd_type raw ≢ codes "browser"
    → dispatch r raw can_reconnect ≡ dispatch (record r { allow_shell = allowed }) raw can_reconnect
unfolding dispatch dispatch_type handle_file_op_msg handle_shell handle_git handle_file_transfer
    handle_update_key
ungated-same r allowed raw can_reconnect p b =
    let type = cmd_type raw in
    if-cong (text_eq type (codes "file_op")) _ _ _ _ (λ e. refl)
      (if-cong (text_eq type (codes "shell")) _ _ _ _ (λ e. refl)
        (if-cong (text_eq type (codes "git")) _ _ _ _ (λ e. refl)
          (if-cong (text_eq type (codes "file_transfer")) _ _ _ _ (λ e. refl)
            (if-cong (text_eq type (codes "update_key")) _ _ _ _ (λ e. refl)
              (if-cong (text_eq type (codes "browser")) _ _ _ _
                (λ e. absurd (b ((text_eq_iff type (codes "browser")).0 e)))
                (if-cong (text_eq type (codes "process")) _ _ _ _
                  (λ e. absurd (p ((text_eq_iff type (codes "process")).0 e))) refl))))))

-- With `allow_shell` off, the outcome of a command for processes or the browser does not depend on what
-- the executors would answer. The outcome of any other command, a shell or a git command among them, does
-- not depend on `allow_shell`.
pub dispatch-noninterference :
    (r : Runner) (other : Executors) (allowed : Bool) (raw : RawCommand) (can_reconnect : Bool)
    → (r.allow_shell ≡ false
        → (cmd_type raw ≡ codes "process") ⊎ (cmd_type raw ≡ codes "browser")
        → dispatch r raw can_reconnect
          ≡ dispatch (record r { executors = other }) raw can_reconnect)
      × (cmd_type raw ≢ codes "process"
          → cmd_type raw ≢ codes "browser"
          → dispatch r raw can_reconnect
            ≡ dispatch (record r { allow_shell = allowed }) raw can_reconnect)
dispatch-noninterference r other allowed raw can_reconnect =
    (refuses-same r other raw can_reconnect, ungated-same r allowed raw can_reconnect)
