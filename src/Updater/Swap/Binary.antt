-- ===== src/Updater/Swap/Binary.antt =====
-- updater/swap.go: there is always a binary in place, or it is said where the last one is.
use vectrify_agent_runner.Base.{
  ◌≡◌, ◌⊎◌, inl, inr, refl, sym, ◌∙◌, Bool, true, false, Option, none, some, ◌++◌, Text, codes,
  text_eq, text_eq_iff, text_eq_refl, if◌then◌else◌, lookup, erase, lookup-insert, lookup-erase,
  IsDict, insert-IsDict, erase-IsDict, arith,
}
use vectrify_agent_runner.Updater.Swap.{
  Files, rename, rename_found, SwapAnswers, SwapResult, swapped, not_moved, rolled_back, stranded,
  Place, place, make_place, is_present, remove, back_from, install_over, install_from, swap_into,
  swap_binary,
}

-- What a rename comes to: nothing, or the file under its new name, and the others as they were.
abbrev pub IsMoved : Files → Text → Text → Bool → Option Files → Type 0
IsMoved files from to allowed none = (lookup from files ≡ none) ⊎ (allowed ≡ false)
IsMoved files from to allowed (some after) =
    IsDict after
    × (lookup to after ≡ lookup from files)
    × ((q : Text) → text_eq to q ≡ false → text_eq from q ≡ false → lookup q after ≡ lookup q files)

rename_found-IsMoved :
    (files : Files) (from to : Text) (allowed : Bool) (found : Option Text)
    → IsDict files
    → lookup from files ≡ found
    → IsMoved files from to allowed (rename_found files from to allowed found)
unfolding rename_found
rename_found-IsMoved files from to allowed none d e = inl e
rename_found-IsMoved files from to false (some bytes) d e = inr refl
rename_found-IsMoved files from to true (some bytes) d e = (
  insert-IsDict to bytes (erase from files) (erase-IsDict from files d),
  lookup-insert to to bytes (erase from files) ∙ rw (text_eq_refl to) (sym e),
  λ q n m.
      lookup-insert to q bytes (erase from files) ∙ rw n (lookup-erase from q files d ∙ rw m refl),
)

pub rename-IsMoved :
    (files : Files) (from to : Text) (allowed : Bool)
    → IsDict files
    → IsMoved files from to allowed (rename files from to allowed)
unfolding rename
rename-IsMoved files from to allowed d =
    rename_found-IsMoved files from to allowed (lookup from files) d refl

-- What a swap leaves, for the bytes of the current and of the new binary.
abbrev Leaves : Text → Text → Text → Bool → Files → SwapResult → Type 0
Leaves exe current next rolls_back files (swapped old) =
    (lookup exe files ≡ some next) × (lookup old files ≡ some current)
Leaves exe current next rolls_back files not_moved = lookup exe files ≡ some current
Leaves exe current next rolls_back files rolled_back = lookup exe files ≡ some current
Leaves exe current next rolls_back files (stranded old) =
    (lookup old files ≡ some current) × (rolls_back ≡ false)

abbrev pub IsSwap : Text → Text → Text → Bool → Files × SwapResult → Type 0
IsSwap exe current next rolls_back r = Leaves exe current next rolls_back r.0 r.1

pub found-allowed :
    {A : Type 0} {o : Option A} {x : A} {b : Bool}
    → o ≡ some x
    → (o ≡ none) ⊎ (b ≡ false)
    → b ≡ false
found-allowed e (inl n) = cc
found-allowed e (inr n) = n

choose : {A : Type 0} (P : A → Type 0) (b : Bool) (x y : A) → P x → P y → P (if b then x else y)
choose P true x y h k = h
choose P false x y h k = k

module _ (exe new current next : Text) (a : SwapAnswers) (apart : text_eq exe new ≡ false) where
  back_from-IsSwap :
      (files : Files) (old : Text) (o : Option Files)
      → lookup old files ≡ some current
      → IsMoved files old exe a.rolls_back o
      → IsSwap exe current next a.rolls_back (back_from files old o)
  unfolding back_from
  back_from-IsSwap files old none e m = (e, found-allowed e m)
  back_from-IsSwap files old (some restored) e m = m.1 ∙ e

  install_over-IsSwap :
      (files : Files) (old : Text) (o : Option Files)
      → IsDict files
      → text_eq exe old ≡ false
      → text_eq new old ≡ false
      → lookup old files ≡ some current
      → lookup new files ≡ some next
      → IsMoved files new exe a.installs o
      → IsSwap exe current next a.rolls_back (install_over files exe old a o)
  unfolding install_over
  install_over-IsSwap files old none d x y e f m =
      back_from-IsSwap files old (rename files old exe a.rolls_back) e
        (rename-IsMoved files old exe a.rolls_back d)
  install_over-IsSwap files old (some installed) d x y e f m = (m.1 ∙ f, m.2 old x y ∙ e)

  install_from-IsSwap :
      (files : Files) (old : Text) (o : Option Files)
      → text_eq exe old ≡ false
      → text_eq new old ≡ false
      → lookup exe files ≡ some current
      → lookup new files ≡ some next
      → IsMoved files exe old a.moves_aside o
      → IsSwap exe current next a.rolls_back (install_from files exe new old a o)
  unfolding install_from
  install_from-IsSwap files old none x y e f m = e
  install_from-IsSwap files old (some aside) x y e f m =
      let z : text_eq old new ≡ false =
        ground (arith, y, text_eq_iff old new, text_eq_iff new old) in
      install_over-IsSwap aside old (rename aside new exe a.installs) m.0 x y (m.1 ∙ e)
        (m.2 new z apart ∙ f) (rename-IsMoved aside new exe a.installs m.0)

  -- A place where the current binary can go.
  IsReady : Place → Type 0
  IsReady (place files old) =
      IsDict files
      × (text_eq exe old ≡ false)
      × (text_eq new old ≡ false)
      × (lookup exe files ≡ some current)
      × (lookup new files ≡ some next)

  swap_into-IsSwap :
      (p : Place) → IsReady p → IsSwap exe current next a.rolls_back (swap_into exe new a p)
  unfolding swap_into IsReady
  swap_into-IsSwap (place files old) h =
      install_from-IsSwap files old (rename files exe old a.moves_aside) h.1 h.2 h.3 h.4
        (rename-IsMoved files exe old a.moves_aside h.0)

  lookup-spared :
      (files : Files) (path q : Text)
      → IsDict files
      → text_eq q path ≡ false
      → lookup q (erase path files) ≡ lookup q files
  lookup-spared files path q d n =
      let z : text_eq path q ≡ false = ground (arith, n, text_eq_iff path q, text_eq_iff q path) in
      lookup-erase path q files d ∙ rw z refl

  erased-IsReady :
      (files : Files) (old path : Text)
      → IsDict files
      → text_eq exe path ≡ false
      → text_eq new path ≡ false
      → text_eq exe old ≡ false
      → text_eq new old ≡ false
      → lookup exe files ≡ some current
      → lookup new files ≡ some next
      → IsReady (place (erase path files) old)
  unfolding IsReady
  erased-IsReady files old path d x y u v e f = (
    erase-IsDict path files d,
    u,
    v,
    lookup-spared files path exe d x ∙ e,
    lookup-spared files path new d y ∙ f,
  )

  remove-IsReady :
      (files : Files)
      → IsDict files
      → text_eq exe a.other_path ≡ false
      → text_eq new a.other_path ≡ false
      → lookup exe files ≡ some current
      → lookup new files ≡ some next
      → (allowed : Bool) → IsReady (place (remove files a.other_path allowed) a.other_path)
  unfolding remove
  remove-IsReady files d u v e f true = erased-IsReady files a.other_path a.other_path d u v u v e f
  remove-IsReady files d u v e f false = unfold IsReady in (d, u, v, e, f)

  make_place-IsReady :
      (files : Files) (old : Text)
      → IsDict files
      → text_eq exe old ≡ false
      → text_eq new old ≡ false
      → text_eq exe a.other_path ≡ false
      → text_eq new a.other_path ≡ false
      → lookup exe files ≡ some current
      → lookup new files ≡ some next
      → IsReady (make_place files old a)
  unfolding make_place remove
  make_place-IsReady files old d x y u v e f =
      choose IsReady (is_present (lookup old files)) _ _
        (choose IsReady a.removes_old _ _ (erased-IsReady files old old d x y x y e f)
          (remove-IsReady files d u v e f a.removes_other))
        (unfold IsReady in (d, x, y, e, f))

  -- Before an update the binary is in place, and the new one beside it. Whatever calls fail: either the
  -- new binary is in place afterwards and the current one under the name returned; or the current one
  -- is in place; or it stands under the name reported, which happens only if the rollback fails.
  pub swap_binary-IsSwap :
      (files : Files)
      → IsDict files
      → text_eq exe (exe ++ codes ".old") ≡ false
      → text_eq new (exe ++ codes ".old") ≡ false
      → text_eq exe a.other_path ≡ false
      → text_eq new a.other_path ≡ false
      → lookup exe files ≡ some current
      → lookup new files ≡ some next
      → IsSwap exe current next a.rolls_back (swap_binary files exe new a)
  unfolding swap_binary
  swap_binary-IsSwap files d x y u v e f =
      swap_into-IsSwap (make_place files (exe ++ codes ".old") a)
        (make_place-IsReady files (exe ++ codes ".old") d x y u v e f)
