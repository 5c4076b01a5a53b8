-- ===== src/Executor/FileOps/Tests.antt =====
-- File operations on a small disk.
use vectrify_agent_runner.Base.{
  ◌≡◌, ◌⊎◌, refl, true, false, none, [], ◌∷◌, ◌++◌, Text, codes, text_eq, lookup, insert, IsDict,
  newline, split, join, take, drop, length, has_prefix, pos, negsuc, ◌≤◌, ◌<◌, ℕ,
}
use vectrify_agent_runner.Executor.Paths.{clean, components, clean_components, clean_step}
use vectrify_agent_runner.Executor.Paths.Containment.{IsBelow}
use vectrify_agent_runner.Executor.FileOps.{
  Disk, complete, unwritable, str_replace_op, done, failed, bad_line, handle_file_op, str_replace,
  insert_text,
}
use vectrify_agent_runner.Executor.FileOps.Bytes.{normalize, ends_with_newline, count, count_skip}
use vectrify_agent_runner.Executor.FileOps.Frame.{handle_file_op-IsBelow}
use vectrify_agent_runner.Executor.FileOps.Replace.{IsReplacement, str_replace-IsReplacement}
use vectrify_agent_runner.Executor.FileOps.Insert.{added_lines, insert_text-lines}

abbrev disk : Disk
disk = record {
  files = (codes "/w/a", codes "one\r\ntwo") ∷ (codes "/w2/a", codes "one") ∷ [];
  is_dir = λ p. false;
  write_end = λ p. complete;
  can_remove = λ p. true;
  make_parents = λ p. (true, λ q. false);
  remove_dir = λ p. none;
  list_dir = λ p. none;
}

-- The inserted line is followed by an empty one.
insert_blank_line :
    insert_text disk (codes "/w/a") (pos 1) (codes "x")
    ≡ (record disk { files = insert (codes "/w/a") (codes "one\nx\n\ntwo") disk.files }, done)
unfolding insert_text insert lookup text_eq normalize split join ends_with_newline
insert_blank_line = refl

-- Two occurrences that overlap count as one.
overlap : count (codes "aba") (codes "ababa") ≡ 1
unfolding count count_skip has_prefix
overlap = refl

handle_file_op-IsBelow_example :
    let r =
      handle_file_op
        (record { root = clean (codes "/w"); cwd = none })
        disk
        (str_replace_op (codes "one") (codes "1"))
        (codes "/w/x/../a") in
    IsDict r.0.files
    × ((r.0.files ≡ disk.files) ⊎ (r.1 ≡ done) ⊎ (r.1 ≡ failed unwritable))
    × ((q : Text) → (lookup q r.0.files ≡ lookup q disk.files) ⊎ IsBelow (codes "/w") q)
unfolding components clean_components clean_step split text_eq
handle_file_op-IsBelow_example =
    handle_file_op-IsBelow (codes "/w") none disk (str_replace_op (codes "one") (codes "1"))
      (codes "/w/x/../a") (λ e. cc) ((refl, tt), (tt, tt))

str_replace-IsReplacement_example :
    IsReplacement disk
      (codes "/w/a")
      (normalize (codes "o"))
      (normalize (codes "0"))
      (normalize (codes "one\r\ntwo"))
      (str_replace disk (codes "/w/a") (codes "o") (codes "0"))
unfolding lookup text_eq
str_replace-IsReplacement_example =
    str_replace-IsReplacement disk (codes "/w/a") (codes "o") (codes "0") (codes "one\r\ntwo") refl
      refl

insert_text-lines_example :
    let lines = split newline (normalize (codes "one\r\ntwo")) in
    ((n : ℕ) → insert_text disk (codes "/w/a") (negsuc n) (codes "x") ≡ (disk, failed bad_line))
    × ((n : ℕ)
        → length lines < n
        → insert_text disk (codes "/w/a") (pos n) (codes "x") ≡ (disk, failed bad_line))
    × ((n : ℕ)
        → n ≤ length lines
        → (t : Text) × (insert_text disk (codes "/w/a") (pos n) (codes "x")
            ≡ (record disk { files = insert (codes "/w/a") t disk.files }, done))
          × (split newline t ≡ take n lines ++ (added_lines n lines (codes "x") ++ drop n lines)))
unfolding lookup text_eq
insert_text-lines_example =
    insert_text-lines disk (codes "/w/a") (codes "x") (codes "one\r\ntwo") refl refl
