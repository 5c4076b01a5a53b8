-- ===== src/Executor/Processes/Logs.antt =====
-- executor/process.go: what `Logs` returns of a log file, and the names of log files.
use mathlib.Core.List.{append_assoc}
use vectrify_agent_runner.Base.{
  ℕ, zero, suc, ◌-◌, ◌≤◌, ◌<◌, min, ◌≡◌, ◌⊎◌, inl, inr, refl, sym, ap, ◌∙◌, Bool, false, ◌&&◌, ◌||◌,
  Option, none, some, List, [], ◌∷◌, ◌++◌, Text, codes, text_eq, ◌==◌, ltb, leb, if◌then◌else◌,
  length, take, drop, length-drop, take-drop, All, newline, split, join, Free, split-Free,
  split-join, join-split, Bool-cases, arith, ℤ, pos, not_positive, pos_part, lookup, get_elem?,
}
use vectrify_agent_runner.Executor.Processes.{Process, ProcessManager}

abbrev pub max_log_bytes : ℕ
max_log_bytes = 200000

-- strings.TrimSuffix(text, "\n")
unfoldable pub trim_newline : Text → Text
trim_newline [] = []
trim_newline (c ∷ []) = if c == newline then [] else c ∷ []
trim_newline (c ∷ d ∷ cs) = c ∷ trim_newline (d ∷ cs)

last_lines : ℕ → List Text → List Text
last_lines n lines = if ltb n (length lines) then drop (length lines - n) lines else lines

-- The text with the last `tail_lines` lines; all of it for no positive number.
unfoldable pub tail_text : Text → ℤ → Text
unfolding trim_newline last_lines
tail_text text tail_lines =
    if not_positive tail_lines
    then text
    else join newline (last_lines (pos_part tail_lines) (split newline (trim_newline text)))

unfoldable pub clip_log : Text → Text
clip_log text =
    if ltb max_log_bytes (length text)
    then codes "<earlier output clipped>\n" ++ drop (length text - max_log_bytes) text
    else text

pub data LogError : Type 0 where
  no_such_process cannot_read : LogError

pub data LogReply : Type 0 where
  log_text : Text → LogReply
  log_failed : LogError → LogReply

log_reply : ℤ → Option Text → LogReply
unfolding tail_text clip_log
log_reply tail_lines none = log_failed cannot_read
log_reply tail_lines (some text) = log_text (clip_log (tail_text text tail_lines))

log_of : (Text → Option Text) → ℤ → Option Process → LogReply
unfolding log_reply
log_of read tail_lines none = log_failed no_such_process
log_of read tail_lines (some p) = log_reply tail_lines (read p.log_path)

log_entry : ProcessManager → (Text → Option Text) → ℤ → Option ℕ → LogReply
unfolding log_of
log_entry m read tail_lines none = log_failed no_such_process
log_entry m read tail_lines (some h) = log_of read tail_lines (get_elem? m.objects h)

-- `Logs`, for a file system that reads files by `read`.
unfoldable pub logs : ProcessManager → (Text → Option Text) → Text → ℤ → LogReply
unfolding log_entry
logs m read id tail_lines = log_entry m read tail_lines (lookup id m.processes)

is_safe : ℕ → Bool
is_safe c =
    (leb b'a' c && leb c b'z')
    || (leb b'A' c && leb c b'Z')
    || (leb b'0' c && leb c b'9')
    || (c == b'-')
    || (c == b'_')

replaced : Text → Text
unfolding is_safe
replaced [] = []
replaced (c ∷ cs) = (if is_safe c then c else b'_') ∷ replaced cs

-- `sanitizeForFilename`, on the characters of an identifier.
unfoldable pub sanitize_for_filename : Text → Text
unfolding replaced
sanitize_for_filename s = if text_eq (replaced s) [] then codes "process" else replaced s

join-drop :
    (k : ℕ) (ls : List Text)
    → k < length ls
    → (pre : Text) × (join newline ls ≡ pre ++ join newline (drop k ls))
unfolding join
join-drop zero ls h = ([], refl)
join-drop (suc k) [] h = ground (arith, h)
join-drop (suc k) (l ∷ []) h = ground (arith, h)
join-drop (suc k) (l ∷ m ∷ ls) h =
    let (pre, e) = join-drop k (m ∷ ls) (ground (arith, h)) in
    (
      l ++ newline ∷ pre,
      ap (λ x. l ++ newline ∷ x) e
          ∙ sym (append_assoc l (newline ∷ pre) (join newline (drop k (m ∷ ls)))),
    )

drop-Free : (k : ℕ) (ls : List Text) → All (Free newline) ls → All (Free newline) (drop k ls)
drop-Free zero ls h = h
drop-Free (suc k) [] h = tt
drop-Free (suc k) (l ∷ ls) h = drop-Free k ls h.1

split-join-length :
    (ls : List Text)
    → All (Free newline) ls
    → 1 ≤ length ls
    → length (split newline (join newline ls)) ≡ length ls
split-join-length [] a h = ground (arith, h)
split-join-length (l ∷ ls) a h = ap length (split-join newline l ls a)

-- The last lines of a text are a piece at its end with so many lines.
last_lines-tail :
    (n : ℕ) (text : Text)
    → 1 ≤ n
    → let shown = join newline (last_lines n (split newline text)) in
      ((pre : Text) × (text ≡ pre ++ shown))
      × (length (split newline shown) ≡ min n (length (split newline text)))
unfolding last_lines
last_lines-tail n text h = elim (Bool-cases (ltb n (length (split newline text)))) [
  | inl e ↦
      let ls = split newline text in
      let k = length ls - n in
      let (pre, q) = join-drop k ls (ground (arith, e)) in
      rw e (
        (pre, sym (join-split newline text) ∙ q),
        split-join-length (drop k ls) (drop-Free k ls (split-Free newline text))
              (ground (arith, e, length-drop k ls))
            ∙ ground (arith, e, length-drop k ls),
      )
  | inr e ↦ rw (e, join-split newline text) (([], refl), ground (arith, e))
]

-- For a process of the pool whose log can be read, and at least one line asked for: what is shown is a
-- piece at the end of the log without its last newline, with so many lines, or all if there are fewer.
-- It is returned as it is if it has at most 200000 bytes, and otherwise as its last 200000 bytes behind
-- a line that says so.
pub logs-tail :
    (m : ProcessManager) (read : Text → Option Text) (id : Text) (n h : ℕ) (p : Process)
    (text : Text)
    → 1 ≤ n
    → lookup id m.processes ≡ some h
    → get_elem? m.objects h ≡ some p
    → read p.log_path ≡ some text
    → (pre : Text) × (shown : Text) × (trim_newline text ≡ pre ++ shown)
      × (length (split newline shown) ≡ min n (length (split newline (trim_newline text))))
      × (((length shown ≤ max_log_bytes) × (logs m read id (pos n) ≡ log_text shown))
          ⊎ ((hidden : Text) × (rest : Text) × (shown ≡ hidden ++ rest)
              × (length rest ≡ max_log_bytes)
              × (logs m read id (pos n) ≡ log_text (codes "<earlier output clipped>\n" ++ rest))))
unfolding logs log_entry log_of log_reply tail_text clip_log
logs-tail m read id n h p text l e f g =
    let z : (n == 0) ≡ false = ground (arith, l) in
    let shown = join newline (last_lines n (split newline (trim_newline text))) in
    let ((pre, a), b) = last_lines-tail n (trim_newline text) l in
    (
      pre,
      shown,
      a,
      b,
      elim (Bool-cases (ltb max_log_bytes (length shown))) [
        | inl t ↦ inr (
          take (length shown - max_log_bytes) shown,
          drop (length shown - max_log_bytes) shown,
          sym (take-drop (length shown - max_log_bytes) shown),
          length-drop (length shown - max_log_bytes) shown ∙ ground (arith, t),
          rw (e, f, g, z, t) refl,
        )
        | inr t ↦ inl (ground (arith, t), rw (e, f, g, z, t) refl)
      ],
    )
