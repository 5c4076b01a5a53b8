-- ===== src/Updater/Swap.antt =====
-- updater/swap.go: the binary is replaced by renaming files. Whether a call of the operating system
-- succeeds is given; a rename of a file that is not there fails, and one that succeeds replaces what
-- stands under the new name.
pub mod Binary
pub mod Restore
mod Tests
use vectrify_agent_runner.Base.{
  Bool, true, false, not, ◌&&◌, Option, none, some, List, [], ◌∷◌, ◌++◌, Text, codes, if◌then◌else◌,
  lookup, insert, erase,
}

abbrev pub Files : Type 0
Files = List (Text × Text)

rename_found : Files → Text → Text → Bool → Option Text → Option Files
rename_found files from to allowed none = none
rename_found files from to allowed (some bytes) =
    if allowed then some (insert to bytes (erase from files)) else none

-- os.Rename; `none` is an error, and the files are as they were.
unfoldable pub rename : Files → Text → Text → Bool → Option Files
unfolding rename_found
rename files from to allowed = rename_found files from to allowed (lookup from files)

is_present : Option Text → Bool
is_present none = false
is_present (some bytes) = true

remove : Files → Text → Bool → Files
remove files path allowed = if allowed then erase path files else files

-- What the system answers to `swapBinary`: whether the leftover can be removed, whether the file under
-- the other name can, whether the renames succeed, and the path with the process identifier.
pub record SwapAnswers : Type 0 where
  pub removes_old : Bool
  pub removes_other : Bool
  pub moves_aside : Bool
  pub installs : Bool
  pub rolls_back : Bool
  pub other_path : Text

pub data SwapResult : Type 0 where
  swapped : Text → SwapResult
  not_moved rolled_back : SwapResult
  -- the rollback has failed too
  stranded : Text → SwapResult

pub data Place : Type 0 where
  place : Files → Text → Place

-- The path for the current binary, with what stood there removed.
make_place : Files → Text → SwapAnswers → Place
unfolding is_present remove
make_place files old a =
    if is_present (lookup old files)
    then (if a.removes_old
        then place (erase old files) old
        else place (remove files a.other_path a.removes_other) a.other_path)
    else place files old

back_from : Files → Text → Option Files → Files × SwapResult
back_from files old none = (files, stranded old)
back_from files old (some restored) = (restored, rolled_back)

install_over : Files → Text → Text → SwapAnswers → Option Files → Files × SwapResult
unfolding back_from rename
install_over files exe old a none = back_from files old (rename files old exe a.rolls_back)
install_over files exe old a (some installed) = (installed, swapped old)

install_from : Files → Text → Text → Text → SwapAnswers → Option Files → Files × SwapResult
unfolding install_over rename
install_from files exe new old a none = (files, not_moved)
install_from files exe new old a (some aside) =
    install_over aside exe old a (rename aside new exe a.installs)

swap_into : Text → Text → SwapAnswers → Place → Files × SwapResult
unfolding install_from rename
swap_into exe new a (place files old) =
    install_from files exe new old a (rename files exe old a.moves_aside)

-- `swapBinary`
unfoldable pub swap_binary : Files → Text → Text → SwapAnswers → Files × SwapResult
unfolding swap_into make_place
swap_binary files exe new a = swap_into exe new a (make_place files (exe ++ codes ".old") a)

-- What the system answers to `restorePrevious`, with the path for the bad binary.
pub record RestoreAnswers : Type 0 where
  pub moves_bad : Bool
  pub restores : Bool
  pub undoes : Bool
  pub bad_path : Text

pub data RestoreResult : Type 0 where
  restored unavailable bad_not_moved undone : RestoreResult
  bad_stranded : Text → RestoreResult

undo_from : Files → Text → Option Files → Files × RestoreResult
undo_from files bad none = (files, bad_stranded bad)
undo_from files bad (some back) = (back, undone)

put_back : Files → Text → RestoreAnswers → Option Files → Files × RestoreResult
unfolding undo_from rename
put_back files exe a none = undo_from files a.bad_path (rename files a.bad_path exe a.undoes)
put_back files exe a (some done) = (done, restored)

restore_from : Files → Text → Text → RestoreAnswers → Option Files → Files × RestoreResult
unfolding put_back rename
restore_from files exe old a none = (files, bad_not_moved)
restore_from files exe old a (some aside) = put_back aside exe a (rename aside old exe a.restores)

-- `restorePrevious`
unfoldable pub restore_previous : Files → Text → Text → RestoreAnswers → Files × RestoreResult
unfolding restore_from is_present rename
restore_previous files exe old a =
    if is_present (lookup old files)
    then restore_from files exe old a (rename files exe a.bad_path a.moves_bad)
    else (files, unavailable)
