-- ===== src/Executor/FileOps/Frame.antt =====
-- executor/file_ops.go: which files an operation can change.
use vectrify_agent_runner.Base.{
  take, insert, ◌≡◌, ◌≢◌, ◌⊎◌, inl, inr, refl, sym, ap, ◌∙◌, subst, Bool, true, false, ◌==◌, Option,
  none, some, List, [], Text, text_eq, text_eq_iff, if◌then◌else◌, ltb, length, lookup,
  lookup-insert, lookup-erase, IsDict, insert-IsDict, erase-IsDict, Bool-cases, newline, split,
  join, ℤ, pos, negsuc,
}
use vectrify_agent_runner.Executor.Paths.{components, clean, Guarded, inside, refused, guard_path}
use vectrify_agent_runner.Executor.Paths.Containment.{IsBelow, guard_path-IsBelow}
use vectrify_agent_runner.Executor.FileOps.Bytes.{normalize, count, replace_first}
use vectrify_agent_runner.Executor.FileOps.{
  insert_lines, Disk, FileOps, FileOp, view_op, create_op, str_replace_op, insert_op, delete_op,
  other_op, Reply, done, failed, unwritable, WriteEnd, complete, not_opened, cut_off, written,
  write, write_below, dir_removed, write_file, str_replace, str_replace_found, replace_in,
  insert_text, insert_found, insert_at, delete_file, delete_found, perform, guarded, handle_file_op,
}

-- Either the files are as they were, or the operation was done or its write broke off, and other files
-- are as they were.
abbrev pub IsConfined : Disk → Text → Disk × Reply → Type 0
IsConfined d path r =
    (r.0.files ≡ d.files)
    ⊎ (((r.1 ≡ done) ⊎ (r.1 ≡ failed unwritable))
        × IsDict r.0.files
        × ((q : Text) → text_eq path q ≡ false → lookup q r.0.files ≡ lookup q d.files))

inserted-IsConfined :
    (d : Disk) (path bytes : Text) (reply : Reply)
    → IsDict d.files
    → (reply ≡ done) ⊎ (reply ≡ failed unwritable)
    → IsConfined d path (record d { files = insert path bytes d.files }, reply)
inserted-IsConfined d path bytes reply h e =
    inr
      (e, insert-IsDict path bytes d.files h, λ q n. lookup-insert path q bytes d.files ∙ rw n refl)

written-IsConfined :
    (d : Disk) (path bytes : Text) (end : WriteEnd)
    → IsDict d.files
    → IsConfined d path (written d path bytes done end)
unfolding written
written-IsConfined d path bytes complete h = inserted-IsConfined d path bytes done h (inl refl)
written-IsConfined d path bytes not_opened h = inl refl
written-IsConfined d path bytes (cut_off n) h =
    inserted-IsConfined d path (take n bytes) (failed unwritable) h (inr refl)

write-IsConfined :
    (d : Disk) (path bytes : Text) → IsDict d.files → IsConfined d path (write d path bytes done)
unfolding write
write-IsConfined d path bytes h = written-IsConfined d path bytes (d.write_end path) h

choose-IsConfined :
    (d : Disk) (path : Text) (b : Bool) (x y : Disk × Reply)
    → IsConfined d path x
    → IsConfined d path y
    → IsConfined d path (if b then x else y)
choose-IsConfined d path true x y h k = h
choose-IsConfined d path false x y h k = k

replace_in-IsConfined :
    (d : Disk) (path old new bytes : Text)
    → IsDict d.files
    → IsConfined d path (replace_in d path old new bytes)
unfolding replace_in
replace_in-IsConfined d path old new bytes h =
    choose-IsConfined d path (count old bytes == 0) _ _ (inl refl) (
      choose-IsConfined d path (ltb 1 (count old bytes)) _ _ (inl refl)
        (write-IsConfined d path (replace_first old new bytes) h))

str_replace_found-IsConfined :
    (d : Disk) (path old new : Text) (found : Option Text)
    → IsDict d.files
    → IsConfined d path (str_replace_found d path old new found)
unfolding str_replace_found
str_replace_found-IsConfined d path old new none h = inl refl
str_replace_found-IsConfined d path old new (some bytes) h =
    replace_in-IsConfined d path (normalize old) (normalize new) (normalize bytes) h

insert_at-IsConfined :
    (d : Disk) (path : Text) (line_num : ℤ) (new : Text) (lines : List Text)
    → IsDict d.files
    → IsConfined d path (insert_at d path line_num new lines)
unfolding insert_at
insert_at-IsConfined d path (negsuc n) new lines h = inl refl
insert_at-IsConfined d path (pos n) new lines h =
    choose-IsConfined d path (ltb (length lines) n) _ _ (inl refl)
      (write-IsConfined d path (join newline (insert_lines n new lines)) h)

insert_found-IsConfined :
    (d : Disk) (path : Text) (line_num : ℤ) (new : Text) (found : Option Text)
    → IsDict d.files
    → IsConfined d path (insert_found d path line_num new found)
unfolding insert_found
insert_found-IsConfined d path line_num new none h = inl refl
insert_found-IsConfined d path line_num new (some bytes) h =
    insert_at-IsConfined d path line_num new (split newline (normalize bytes)) h

write_below-IsConfined :
    (d : Disk) (path bytes : Text) (parents : Bool × (Text → Bool))
    → IsDict d.files
    → IsConfined d path (write_below d path bytes parents)
unfolding write_below
write_below-IsConfined d path bytes (made, dirs) h =
    choose-IsConfined d path made _ _
      (write-IsConfined (record d { is_dir = dirs }) path (normalize bytes) h) (inl refl)

dir_removed-IsConfined :
    (d : Disk) (path : Text) (dirs : Option (Text → Bool)) → IsConfined d path (dir_removed d dirs)
unfolding dir_removed
dir_removed-IsConfined d path none = inl refl
dir_removed-IsConfined d path (some dirs) = inl refl

delete_found-IsConfined :
    (d : Disk) (path : Text) (found : Option Text)
    → IsDict d.files
    → IsConfined d path (delete_found d path found)
unfolding delete_found
delete_found-IsConfined d path none h =
    choose-IsConfined d path (d.is_dir path) _ _ (dir_removed-IsConfined d path (d.remove_dir path))
      (inl refl)
delete_found-IsConfined d path (some bytes) h =
    choose-IsConfined d path (d.can_remove path) _ _
      (inr
        (inl refl, erase-IsDict path d.files h, λ q n. lookup-erase path q d.files h ∙ rw n refl))
      (inl refl)

perform-IsConfined :
    (d : Disk) (op : FileOp) (path : Text) → IsDict d.files → IsConfined d path (perform d op path)
unfolding perform write_file str_replace insert_text delete_file
perform-IsConfined d (view_op view_range) path h = inl refl
perform-IsConfined d (create_op bytes) path h =
    write_below-IsConfined d path bytes (d.make_parents path) h
perform-IsConfined d (str_replace_op old new) path h =
    str_replace_found-IsConfined d path old new (lookup path d.files) h
perform-IsConfined d (insert_op line_num new) path h =
    insert_found-IsConfined d path line_num new (lookup path d.files) h
perform-IsConfined d delete_op path h = delete_found-IsConfined d path (lookup path d.files) h
perform-IsConfined d (other_op command) path h = inl refl

-- What the operation did is confined to the path that the guard let through.
abbrev IsGuarded : Disk → Guarded → Disk × Reply → Type 0
IsGuarded d g r = (r.0.files ≡ d.files) ⊎ ((p : Text) × (g ≡ inside p) × IsConfined d p r)

guarded-IsGuarded :
    (d : Disk) (op : FileOp) (g : Guarded) → IsDict d.files → IsGuarded d g (guarded d op g)
unfolding guarded
guarded-IsGuarded d op (refused e) h = inl refl
guarded-IsGuarded d op (inside p) h = inr (p, refl, perform-IsConfined d op p h)

handle_file_op-IsGuarded :
    (f : FileOps) (d : Disk) (op : FileOp) (path : Text)
    → IsDict d.files
    → IsGuarded d (guard_path f.root f.cwd path) (handle_file_op f d op path)
unfolding handle_file_op
handle_file_op-IsGuarded f d (other_op command) path h = inl refl
handle_file_op-IsGuarded f d op path h = guarded-IsGuarded d op (guard_path f.root f.cwd path) h

-- A confined step, seen from below the workspace.
IsConfined-IsBelow :
    (workspace p : Text) (d : Disk) (r : Disk × Reply)
    → IsBelow workspace p
    → IsConfined d p r
    → IsDict d.files
    → IsDict r.0.files
      × ((r.0.files ≡ d.files) ⊎ (r.1 ≡ done) ⊎ (r.1 ≡ failed unwritable))
      × ((q : Text) → (lookup q r.0.files ≡ lookup q d.files) ⊎ IsBelow workspace q)
IsConfined-IsBelow workspace p d r b (inl e) h =
    (subst IsDict (sym e) h, inl e, λ q. inl (ap (lookup q) e))
IsConfined-IsBelow workspace p d r b (inr c) h = (
  c.1,
  inr c.0,
  λ q. elim (Bool-cases (text_eq p q)) [
    | inl e ↦ inr (subst (IsBelow workspace) ((text_eq_iff p q).0 e) b)
    | inr e ↦ inl (c.2 q e)
  ],
)

-- An operation on any path, for a workspace root other than the root of the file system: either the
-- files are as they were, or the operation was done, or writing failed; and a file whose content was
-- changed, by a write that broke off too, is one below the workspace, however the path was written. No
-- path gets a second file. Links are not modelled.
pub handle_file_op-IsBelow :
    (workspace : Text) (cwd : Option Text) (d : Disk) (op : FileOp) (path : Text)
    → components workspace ≢ []
    → IsDict d.files
    → let r = handle_file_op (record { root = clean workspace; cwd = cwd }) d op path in
      IsDict r.0.files
      × ((r.0.files ≡ d.files) ⊎ (r.1 ≡ done) ⊎ (r.1 ≡ failed unwritable))
      × ((q : Text) → (lookup q r.0.files ≡ lookup q d.files) ⊎ IsBelow workspace q)
handle_file_op-IsBelow workspace cwd d op path n h =
    let f : FileOps = record { root = clean workspace; cwd = cwd } in
    elim (handle_file_op-IsGuarded f d op path h) [
      | inl e ↦ (subst IsDict (sym e) h, inl e, λ q. inl (ap (lookup q) e))
      | inr (p, g, c) ↦
          IsConfined-IsBelow workspace p d (handle_file_op f d op path)
            (guard_path-IsBelow workspace path cwd n g) c h
    ]
