-- ===== src/Updater/Swap/Restore.antt =====
-- updater/swap.go: the way back from a swap.
use vectrify_agent_runner.Base.{
  ◌≡◌, ◌∙◌, false, Option, none, some, Text, text_eq, text_eq_iff, lookup, IsDict, arith,
}
use vectrify_agent_runner.Updater.Swap.{
  Files, rename, RestoreAnswers, RestoreResult, restored, unavailable, bad_not_moved, undone,
  bad_stranded, is_present, undo_from, put_back, restore_from, restore_previous,
}
use vectrify_agent_runner.Updater.Swap.Binary.{IsMoved, rename-IsMoved, found-allowed}

-- What it leaves, for the bytes of the previous and of the bad binary.
abbrev Leaves : Text → Text → Text → RestoreAnswers → Files → RestoreResult → Type 0
Leaves exe previous bad a files restored =
    (lookup exe files ≡ some previous) × (lookup a.bad_path files ≡ some bad)
Leaves exe previous bad a files unavailable = ⊥
Leaves exe previous bad a files bad_not_moved = lookup exe files ≡ some bad
Leaves exe previous bad a files undone = lookup exe files ≡ some bad
Leaves exe previous bad a files (bad_stranded path) =
    (lookup path files ≡ some bad) × (a.undoes ≡ false)

abbrev pub IsRestore : Text → Text → Text → RestoreAnswers → Files × RestoreResult → Type 0
IsRestore exe previous bad a r = Leaves exe previous bad a r.0 r.1

module _ (exe old previous bad : Text) (a : RestoreAnswers)
    (apart : text_eq exe a.bad_path ≡ false) where
  undo_from-IsRestore :
      (files : Files) (o : Option Files)
      → lookup a.bad_path files ≡ some bad
      → IsMoved files a.bad_path exe a.undoes o
      → IsRestore exe previous bad a (undo_from files a.bad_path o)
  unfolding undo_from
  undo_from-IsRestore files none e m = (e, found-allowed e m)
  undo_from-IsRestore files (some back) e m = m.1 ∙ e

  put_back-IsRestore :
      (files : Files) (o : Option Files)
      → IsDict files
      → text_eq old a.bad_path ≡ false
      → lookup a.bad_path files ≡ some bad
      → lookup old files ≡ some previous
      → IsMoved files old exe a.restores o
      → IsRestore exe previous bad a (put_back files exe a o)
  unfolding put_back
  put_back-IsRestore files none d x e f m =
      undo_from-IsRestore files (rename files a.bad_path exe a.undoes) e
        (rename-IsMoved files a.bad_path exe a.undoes d)
  put_back-IsRestore files (some done) d x e f m = (m.1 ∙ f, m.2 a.bad_path apart x ∙ e)

  restore_from-IsRestore :
      (files : Files) (o : Option Files)
      → text_eq exe old ≡ false
      → text_eq old a.bad_path ≡ false
      → lookup exe files ≡ some bad
      → lookup old files ≡ some previous
      → IsMoved files exe a.bad_path a.moves_bad o
      → IsRestore exe previous bad a (restore_from files exe old a o)
  unfolding restore_from
  restore_from-IsRestore files none x y e f m = e
  restore_from-IsRestore files (some aside) x y e f m =
      let z : text_eq a.bad_path old ≡ false =
        ground (arith, y, text_eq_iff old a.bad_path, text_eq_iff a.bad_path old) in
      put_back-IsRestore aside (rename aside old exe a.restores) m.0 y (m.1 ∙ e) (m.2 old z x ∙ f)
        (rename-IsMoved aside old exe a.restores m.0)

  -- From what a swap leaves: either the previous binary is in place again, and the bad one under its new
  -- name; or the bad one is in place; or it stands under the name reported, which happens only if it
  -- cannot be moved back.
  pub restore_previous-IsRestore :
      (files : Files)
      → IsDict files
      → text_eq exe old ≡ false
      → text_eq old a.bad_path ≡ false
      → lookup exe files ≡ some bad
      → lookup old files ≡ some previous
      → IsRestore exe previous bad a (restore_previous files exe old a)
  unfolding restore_previous is_present
  restore_previous-IsRestore files d x y e f = rw f (
      restore_from-IsRestore files (rename files exe a.bad_path a.moves_bad) x y e f
        (rename-IsMoved files exe a.bad_path a.moves_bad d))
