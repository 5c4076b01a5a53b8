-- ===== src/Executor/FileOps/Insert.antt =====
-- executor/file_ops.go: `Insert` seen as an operation on the lines of a file.
use mathlib.Core.List.{append-nil}
use vectrify_agent_runner.Base.{
  ℕ, zero, suc, ◌≤◌, ◌<◌, ◌≡◌, refl, sym, ap, ◌∙◌, true, false, not, ◌&&◌, some, List, [], ◌∷◌,
  ◌++◌, Text, if◌then◌else◌, ltb, length, take, drop, newline, split, join, Free, split-Free,
  split_one, split_append_all, All, lookup, insert, arith, pos, negsuc,
}
use vectrify_agent_runner.Executor.FileOps.Bytes.{normalize, ends_with_newline}
use vectrify_agent_runner.Executor.FileOps.{
  complete, written, Disk, done, failed, bad_line, write, insert_text, insert_found, insert_at,
  insert_lines, inserted_text,
}

-- The lines that a text makes, and the empty one behind it where the text does not end the file.
abbrev pub added_lines : ℕ → List Text → Text → List Text
added_lines n lines new =
    if ltb n (length lines) && not (ends_with_newline new)
    then split newline new ++ [] ∷ []
    else split newline new

split-added :
    (n : ℕ) (lines : List Text) (new : Text)
    → split newline (inserted_text n (length lines) new) ≡ added_lines n lines new
unfolding inserted_text split
split-added n lines new = ground (arith, split_append_all newline new [])

-- The lines of the texts, one after the other.
split_each : List Text → List Text
split_each [] = []
split_each (t ∷ ts) = split newline t ++ split_each ts

split-join_each :
    (t : Text) (ts : List Text) → split newline (join newline (t ∷ ts)) ≡ split_each (t ∷ ts)
unfolding split_each join
split-join_each t [] = sym (append-nil (split newline t))
split-join_each t (u ∷ ts) =
    split_append_all newline t (join newline (u ∷ ts))
    ∙ ap (λ x. split newline t ++ x) (split-join_each u ts)

split_each-Free : (ls : List Text) → All (Free newline) ls → split_each ls ≡ ls
unfolding split_each
split_each-Free [] h = refl
split_each-Free (l ∷ ls) h = rw (split_one newline l h.0, split_each-Free ls h.1) refl

split_each-between :
    (xs : List Text) (t : Text) (ys : List Text)
    → All (Free newline) xs
    → All (Free newline) ys
    → split_each (xs ++ t ∷ ys) ≡ xs ++ (split newline t ++ ys)
unfolding split_each
split_each-between [] t ys h k = ap (λ x. split newline t ++ x) (split_each-Free ys k)
split_each-between (x ∷ xs) t ys h k =
    rw (split_one newline x h.0) (ap (λ z. x ∷ z) (split_each-between xs t ys h.1 k))

split-join_between :
    (xs : List Text) (t : Text) (ys : List Text)
    → split newline (join newline (xs ++ t ∷ ys)) ≡ split_each (xs ++ t ∷ ys)
split-join_between [] t ys = split-join_each t ys
split-join_between (x ∷ xs) t ys = split-join_each x (xs ++ t ∷ ys)

take-Free : (n : ℕ) (ls : List Text) → All (Free newline) ls → All (Free newline) (take n ls)
take-Free zero ls h = tt
take-Free (suc n) [] h = tt
take-Free (suc n) (l ∷ ls) h = (h.0, take-Free n ls h.1)

drop-Free : (n : ℕ) (ls : List Text) → All (Free newline) ls → All (Free newline) (drop n ls)
drop-Free zero ls h = h
drop-Free (suc n) [] h = tt
drop-Free (suc n) (l ∷ ls) h = drop-Free n ls h.1

insert_lines-split :
    (n : ℕ) (new : Text) (lines : List Text)
    → All (Free newline) lines
    → split newline (join newline (insert_lines n new lines))
      ≡ take n lines ++ (added_lines n lines new ++ drop n lines)
unfolding insert_lines
insert_lines-split n new lines h =
    split-join_between (take n lines) (inserted_text n (length lines) new) (drop n lines)
    ∙ split_each-between (take n lines) (inserted_text n (length lines) new) (drop n lines)
        (take-Free n lines h) (drop-Free n lines h)
    ∙ ap (λ x. take n lines ++ (x ++ drop n lines)) (split-added n lines new)

-- In a file that is there and can be written, with CRLF made LF: a line number below 0 or above the
-- number of lines is refused, the disk as it was; otherwise the lines of the file afterwards are the
-- first `n`, those of the new text, and the others, with an empty line behind the new text where it
-- ends in no newline and lines follow.
pub insert_text-lines :
    (d : Disk) (path new bytes : Text)
    → lookup path d.files ≡ some bytes
    → d.write_end path ≡ complete
    → let lines = split newline (normalize bytes) in
      ((n : ℕ) → insert_text d path (negsuc n) new ≡ (d, failed bad_line))
      × ((n : ℕ) → length lines < n → insert_text d path (pos n) new ≡ (d, failed bad_line))
      × ((n : ℕ)
          → n ≤ length lines
          → (t : Text) × (insert_text d path (pos n) new
              ≡ (record d { files = insert path t d.files }, done))
            × (split newline t ≡ take n lines ++ (added_lines n lines new ++ drop n lines)))
unfolding insert_text insert_found insert_at write written
insert_text-lines d path new bytes l w =
    let lines = split newline (normalize bytes) in
    (
      λ n. rw l refl,
      λ n h. (let e : ltb (length lines) n ≡ true = ground arith in rw (l, e) refl),
      λ n h. (
        join newline (insert_lines n new lines),
        (let e : ltb (length lines) n ≡ false = ground arith in rw (l, e, w) refl),
        insert_lines-split n new lines (split-Free newline (normalize bytes)),
      ),
    )
