-- ===== src/Config/RunnerKey.antt =====
-- config/config.go, `UpdateRunnerKey`: the one line of the file that it rewrites.
use vectrify_agent_runner.Base.{
  ◌≡◌, ◌≢◌, refl, ap, ◌∙◌, inl, inr, Bool, true, false, Option, none, some, List, [], ◌∷◌, ◌++◌,
  Text, codes, arith, text_eq, text_eq_iff, ◌==◌, if◌then◌else◌, Bool-cases, newline, split, join,
  has_prefix, trim_left, All, All-append, Free, split-join, split-Free,
}
use vectrify_agent_runner.Config.{
  Config, Result, ok, err, config_path_unknown, unreadable, unwritable, is_valid_runner_key,
  bad_runner_key, validate, Abs,
}

abbrev pub key_prefix : Text
key_prefix = codes "runner_key:"

abbrev pub key_line : Text → Text
key_line new_key = codes "runner_key:            " ++ new_key

-- The test of the loop.
unfoldable pub is_key_line : Text → Bool
is_key_line line = has_prefix (trim_left line) key_prefix

-- The loop over the lines, with its `break`, and the line appended if it found none.
unfoldable pub rewrite_lines : Text → List Text → List Text
rewrite_lines new_key [] = key_line new_key ∷ []
rewrite_lines new_key (line ∷ lines) =
    if is_key_line line then key_line new_key ∷ lines else line ∷ rewrite_lines new_key lines

unfoldable pub rewrite_file : Text → Text → Text
rewrite_file new_key bytes = join newline (rewrite_lines new_key (split newline bytes))

written : Config → Text → Text → Bool → Result (Config × Text)
written c new_key bytes false = err unwritable
written c new_key bytes true = ok (record c { runner_key = new_key }, rewrite_file new_key bytes)

key_read : Config → Text → Option Text → Bool → Result (Config × Text)
unfolding written
key_read c new_key none can_write = err unreadable
key_read c new_key (some bytes) can_write = written c new_key bytes can_write

-- The settings and the file after `UpdateRunnerKey`. Whether the file can be read, and what is in
-- it, and whether it can be written, are arguments.
unfoldable pub update_runner_key : Config → Text → Option Text → Bool → Result (Config × Text)
unfolding key_read
update_runner_key c new_key bytes can_write =
    if text_eq c.config_path [] then err config_path_unknown else key_read c new_key bytes can_write

-- The first line that sets the key, as the lines of a file are read.
unfoldable pub find_key_line : List Text → Option Text
find_key_line [] = none
find_key_line (line ∷ lines) = if is_key_line line then some line else find_key_line lines

-- The lines that do not set the key, up to the first that does, and all after it.
unfoldable pub other_lines : List Text → List Text
other_lines [] = []
other_lines (line ∷ lines) = if is_key_line line then lines else line ∷ other_lines lines

key_line-IsKeyLine : (k : Text) → is_key_line (key_line k) ≡ true
unfolding is_key_line has_prefix trim_left
key_line-IsKeyLine k = refl

find_key_line-rewrite :
    (k : Text) (ls : List Text) → find_key_line (rewrite_lines k ls) ≡ some (key_line k)
unfolding find_key_line rewrite_lines
find_key_line-rewrite k [] = rw (key_line-IsKeyLine k) refl
find_key_line-rewrite k (l ∷ ls) = elim (Bool-cases (is_key_line l)) [
  | inl e ↦ rw e (rw (key_line-IsKeyLine k) refl)
  | inr e ↦ rw e (rw e (find_key_line-rewrite k ls))
]

other_lines-rewrite :
    (k : Text) (ls : List Text) → other_lines (rewrite_lines k ls) ≡ other_lines ls
unfolding other_lines rewrite_lines
other_lines-rewrite k [] = rw (key_line-IsKeyLine k) refl
other_lines-rewrite k (l ∷ ls) = elim (Bool-cases (is_key_line l)) [
  | inl e ↦ rw e (rw (key_line-IsKeyLine k) refl)
  | inr e ↦ rw e (rw e (ap (λ xs. l ∷ xs) (other_lines-rewrite k ls)))
]

rewrite_twice :
    (k m : Text) (ls : List Text) → rewrite_lines m (rewrite_lines k ls) ≡ rewrite_lines m ls
unfolding rewrite_lines
rewrite_twice k m [] = rw (key_line-IsKeyLine k) refl
rewrite_twice k m (l ∷ ls) = elim (Bool-cases (is_key_line l)) [
  | inl e ↦ rw e (rw (key_line-IsKeyLine k) refl)
  | inr e ↦ rw e (rw e (ap (λ xs. l ∷ xs) (rewrite_twice k m ls)))
]

key_line-Free : (k : Text) → Free newline k → Free newline (key_line k)
key_line-Free k h =
    All-append (λ c. (c == newline) ≡ false) (codes "runner_key:            ") k (ground arith) h

rewrite_lines-Free :
    (k : Text) (ls : List Text)
    → Free newline k
    → All (Free newline) ls
    → All (Free newline) (rewrite_lines k ls)
unfolding rewrite_lines
rewrite_lines-Free k [] f h = (key_line-Free k f, tt)
rewrite_lines-Free k (l ∷ ls) f h = elim (Bool-cases (is_key_line l)) [
  | inl e ↦ rw e (key_line-Free k f, h.1)
  | inr e ↦ rw e (h.0, rewrite_lines-Free k ls f h.1)
]

rewrite_lines_cons : (k : Text) (ls : List Text) → rewrite_lines k ls ≢ []
unfolding rewrite_lines
rewrite_lines_cons k [] = λ e. cc
rewrite_lines_cons k (l ∷ ls) = λ e. ground arith

split-join_cons :
    (ls : List Text) → ls ≢ [] → All (Free newline) ls → split newline (join newline ls) ≡ ls
split-join_cons [] n h = absurd (n refl)
split-join_cons (l ∷ ls) n h = split-join newline l ls h

split-rewrite_file :
    (k bytes : Text)
    → Free newline k
    → split newline (rewrite_file k bytes) ≡ rewrite_lines k (split newline bytes)
unfolding rewrite_file
split-rewrite_file k bytes f =
    split-join_cons _ (rewrite_lines_cons k _) (rewrite_lines-Free k _ f (split-Free newline bytes))

-- A key without a newline that was written is the key of the settings and of the first line of the
-- new file that sets one, and every line but the one replaced stands as it stood.
pub update_runner_key-written :
    (c : Config) (new_key bytes : Text) (can_write : Bool) {d : Config} {file : Text}
    → Free newline new_key
    → update_runner_key c new_key (some bytes) can_write ≡ ok (d, file)
    → (d ≡ record c { runner_key = new_key })
      × (find_key_line (split newline file) ≡ some (key_line new_key))
      × (other_lines (split newline file) ≡ other_lines (split newline bytes))
unfolding update_runner_key
update_runner_key-written c new_key bytes can_write f e = ground (
  arith,
  split-rewrite_file new_key bytes f,
  find_key_line-rewrite new_key (split newline bytes),
  other_lines-rewrite new_key (split newline bytes),
)

-- Writing a key without a newline and then another gives the file that writing the second alone
-- gives.
pub rewrite_file-rewrite_file :
    (k m bytes : Text)
    → Free newline k
    → rewrite_file m (rewrite_file k bytes) ≡ rewrite_file m bytes
unfolding rewrite_file
rewrite_file-rewrite_file k m bytes f =
    ap (λ ls. join newline (rewrite_lines m ls)) (split-rewrite_file k bytes f)
    ∙ ap (join newline) (rewrite_twice k m (split newline bytes))

-- No test of the key's form stands on this path: a key that is not a valid runner key is written to
-- the file and taken into the settings like any other, and `validate` then refuses those settings.
pub update_runner_key-unvalidated :
    (abs : Abs) (c : Config) (new_key bytes : Text)
    → c.config_path ≢ []
    → c.api_url ≢ []
    → new_key ≢ []
    → is_valid_runner_key new_key ≡ false
    → (d : Config) × (update_runner_key c new_key (some bytes) true
        ≡ ok (d, rewrite_file new_key bytes))
      × (validate abs d ≡ err bad_runner_key)
unfolding update_runner_key validate
update_runner_key-unvalidated abs c new_key bytes p u n i = (
  record c { runner_key = new_key },
  ground (arith, text_eq_iff c.config_path []),
  ground (arith, text_eq_iff c.api_url [], text_eq_iff new_key []),
)
