-- ===== src/Executor/FileOps.antt =====
-- executor/file_ops.go: the operations on the contents of files. Paths are guarded as in Paths; every
-- operation holds the lock of its path from the reading to the writing, so that it is one step.
pub mod Bytes
pub mod Replace
pub mod Frame
pub mod Insert
mod Tests
use vectrify_agent_runner.Base.{
  ℕ, zero, suc, ◌+◌, ◌-◌, ◌≡◌, ◌==◌, Bool, true, false, not, ◌&&◌, ◌||◌, Option, none, some, List,
  [], ◌∷◌, ◌++◌, Text, codes, text_eq, if◌then◌else◌, ltb, leb, length, take, drop, newline, split,
  join, has_prefix, lookup, insert, erase, ℤ, pos, negsuc, pos_part,
}
use vectrify_agent_runner.Executor.Paths.{PathError, Guarded, inside, refused, guard_path}
use vectrify_agent_runner.Executor.FileOps.Bytes.{
  normalize, count, replace_first, lines_of, view, clip, ends_with_newline,
}

-- How os.WriteFile ends: with all written, without having opened the file, or with an error after it
-- was emptied and its first bytes were written.
pub data WriteEnd : Type 0 where
  complete not_opened : WriteEnd
  cut_off : ℕ → WriteEnd

-- The disk as the operations see it: the contents of the files, and which paths are directories. The
-- rest is what the system answers for a path: how a write ends, whether a file can be removed, whether
-- os.MkdirAll makes its parents, with the directories after that, the directories after os.Remove where
-- it removes a directory (an empty one), and the text of a directory's listing. There are no links.
pub record Disk : Type 0 where
  pub files : List (Text × Text)
  pub is_dir : Text → Bool
  pub write_end : Text → WriteEnd
  pub can_remove : Text → Bool
  pub make_parents : Text → Bool × (Text → Bool)
  pub remove_dir : Text → Option (Text → Bool)
  pub list_dir : Text → Option Text

pub data FileError : Type 0 where
  bad_path : PathError → FileError
  not_found unreadable no_parents unwritable unremovable text_not_found not_unique bad_line
        bad_start :
      FileError
  unknown_command : FileError

pub data Reply : Type 0 where
  done : Reply
  content : Text → Reply
  failed : FileError → Reply

-- `FileOps`: the cleaned root, and the working directory of the process.
pub record FileOps : Type 0 where
  pub root : Text
  pub cwd : Option Text

listed : Option Text → Reply
listed none = failed unreadable
listed (some text) = content text

viewed : Option Text → Reply
viewed none = failed bad_start
viewed (some text) = content (clip text)

read_file_lines : Option Text → Option (ℤ × ℤ) → Reply
unfolding viewed
read_file_lines none view_range = failed not_found
read_file_lines (some bytes) view_range = viewed (view (lines_of bytes) view_range)

-- `ReadFile`
unfoldable pub read_file : Disk → Text → Option (ℤ × ℤ) → Reply
unfolding listed read_file_lines
read_file d path view_range =
    if d.is_dir path
    then listed (d.list_dir path)
    else read_file_lines (lookup path d.files) view_range

written : Disk → Text → Text → Reply → WriteEnd → Disk × Reply
written d path bytes reply complete = (record d { files = insert path bytes d.files }, reply)
written d path bytes reply not_opened = (d, failed unwritable)
written d path bytes reply (cut_off n) =
    (record d { files = insert path (take n bytes) d.files }, failed unwritable)

-- os.WriteFile
unfoldable pub write : Disk → Text → Text → Reply → Disk × Reply
unfolding written
write d path bytes reply = written d path bytes reply (d.write_end path)

write_below : Disk → Text → Text → Bool × (Text → Bool) → Disk × Reply
unfolding write
write_below d path bytes (made, dirs) =
    let e : Disk = record d { is_dir = dirs } in
    if made then write e path (normalize bytes) done else (e, failed no_parents)

-- `WriteFile`, with os.MkdirAll first.
unfoldable pub write_file : Disk → Text → Text → Disk × Reply
unfolding write_below
write_file d path bytes = write_below d path bytes (d.make_parents path)

replace_in : Disk → Text → Text → Text → Text → Disk × Reply
unfolding write
replace_in d path old new bytes =
    let n = count old bytes in
    if n == 0
    then (d, failed text_not_found)
    else if ltb 1 n
    then (d, failed not_unique)
    else write d path (replace_first old new bytes) done

str_replace_found : Disk → Text → Text → Text → Option Text → Disk × Reply
unfolding replace_in
str_replace_found d path old new none = (d, failed not_found)
str_replace_found d path old new (some bytes) =
    replace_in d path (normalize old) (normalize new) (normalize bytes)

-- `StrReplace`
unfoldable pub str_replace : Disk → Text → Text → Text → Disk × Reply
unfolding str_replace_found
str_replace d path old new = str_replace_found d path old new (lookup path d.files)

-- The text with the newline that `Insert` adds to it.
unfoldable pub inserted_text : ℕ → ℕ → Text → Text
inserted_text line_num lines new =
    if ltb line_num lines && not (ends_with_newline new) then new ++ newline ∷ [] else new

unfoldable pub insert_lines : ℕ → Text → List Text → List Text
unfolding inserted_text
insert_lines line_num new lines =
    take line_num lines ++ inserted_text line_num (length lines) new ∷ drop line_num lines

insert_at : Disk → Text → ℤ → Text → List Text → Disk × Reply
unfolding insert_lines write
insert_at d path (negsuc n) new lines = (d, failed bad_line)
insert_at d path (pos n) new lines =
    if ltb (length lines) n
    then (d, failed bad_line)
    else write d path (join newline (insert_lines n new lines)) done

insert_found : Disk → Text → ℤ → Text → Option Text → Disk × Reply
unfolding insert_at
insert_found d path line_num new none = (d, failed not_found)
insert_found d path line_num new (some bytes) =
    insert_at d path line_num new (split newline (normalize bytes))

-- `Insert`
unfoldable pub insert_text : Disk → Text → ℤ → Text → Disk × Reply
unfolding insert_found
insert_text d path line_num new = insert_found d path line_num new (lookup path d.files)

dir_removed : Disk → Option (Text → Bool) → Disk × Reply
dir_removed d none = (d, failed unremovable)
dir_removed d (some dirs) = (record d { is_dir = dirs }, done)

-- os.Remove
delete_found : Disk → Text → Option Text → Disk × Reply
unfolding dir_removed
delete_found d path none =
    if d.is_dir path then dir_removed d (d.remove_dir path) else (d, failed not_found)
delete_found d path (some bytes) =
    if d.can_remove path
    then (record d { files = erase path d.files }, done)
    else (d, failed unremovable)

-- `DeleteFile`
unfoldable pub delete_file : Disk → Text → Disk × Reply
unfolding delete_found
delete_file d path = delete_found d path (lookup path d.files)

-- A `file_op` command of the API.
pub data FileOp : Type 0 where
  view_op : Option (ℤ × ℤ) → FileOp
  create_op : Text → FileOp
  str_replace_op : Text → Text → FileOp
  insert_op : ℤ → Text → FileOp
  delete_op : FileOp
  other_op : Text → FileOp

unfoldable pub perform : Disk → FileOp → Text → Disk × Reply
unfolding read_file write_file str_replace insert_text delete_file
perform d (view_op view_range) path = (d, read_file d path view_range)
perform d (create_op bytes) path = write_file d path bytes
perform d (str_replace_op old new) path = str_replace d path old new
perform d (insert_op line_num new) path = insert_text d path line_num new
perform d delete_op path = delete_file d path
perform d (other_op command) path = (d, failed unknown_command)

guarded : Disk → FileOp → Guarded → Disk × Reply
unfolding perform
guarded d op (refused e) = (d, failed (bad_path e))
guarded d op (inside path) = perform d op path

-- `handleFileOp` of runner/runner.go: a command that is not known is answered before its path is
-- looked at.
unfoldable pub handle_file_op : FileOps → Disk → FileOp → Text → Disk × Reply
unfolding guarded guard_path
handle_file_op f d (other_op command) path = (d, failed unknown_command)
handle_file_op f d op path = guarded d op (guard_path f.root f.cwd path)
