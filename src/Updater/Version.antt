-- ===== src/Updater/Version.antt =====
-- updater/updater.go, `isNewer` and `assetURL`. What fmt.Sscanf reads from a version is a parameter:
-- the three numbers, 0 where it stops early.
use vectrify_agent_runner.Base.{
  ◌≡◌, sym, subst, ◌⊎◌, ◌∙◌, Bool-cases, inl, inr, ◌==◌, Bool, true, false, not, [], ◌∷◌, Text,
  text_eq, text_eq_iff, if◌then◌else◌, ℤ, int_lt, int_eq, arith,
}
use vectrify_agent_runner.Base.Sort.{StrictOrder}

pub record Version : Type 0 where
  pub major : ℤ
  pub minor : ℤ
  pub patch : ℤ

unfoldable pub is_newer : (Text → Version) → Text → Text → Bool
is_newer scan current latest =
    let c = scan current in
    let l = scan latest in
    if text_eq current latest
    then false
    else if not (int_eq l.major c.major)
    then int_lt c.major l.major
    else if not (int_eq l.minor c.minor)
    then int_lt c.minor l.minor
    else int_lt c.patch l.patch

-- The tag without its `v`.
unfoldable pub strip_v : Text → Text
strip_v [] = []
strip_v (c ∷ version) = if c == 0x76 then version else c ∷ version

-- The test on the three numbers alone.
abbrev pub version_lt : Version → Version → Bool
version_lt c l =
    if not (int_eq l.major c.major)
    then int_lt c.major l.major
    else if not (int_eq l.minor c.minor)
    then int_lt c.minor l.minor
    else int_lt c.patch l.patch

version_lt_irrefl : (v : Version) → version_lt v v ≡ false
version_lt_irrefl v = ground arith

pub is_newer-version_lt :
    (scan : Text → Version) (x y : Text) → is_newer scan x y ≡ version_lt (scan x) (scan y)
unfolding is_newer
is_newer-version_lt scan x y = elim (Bool-cases (text_eq x y)) [
  | inl same ↦
      subst (λ z. is_newer scan x z ≡ version_lt (scan x) (scan z)) ((text_eq_iff x y).0 same)
        (ground (arith, text_eq_iff x x, version_lt_irrefl (scan x)))
  | inr other ↦ ground arith
]

version_lt_asym : (u v : Version) → version_lt u v ≡ true → version_lt v u ≡ false
version_lt_asym u v h = ground arith

version_lt_trans :
    (u v w : Version) → version_lt u v ≡ true → version_lt v w ≡ true → version_lt u w ≡ true
version_lt_trans u v w h k = ground arith

-- What it means that `v` is not below `u`.
abbrev IsAbove : Version → Version → Type 0
IsAbove v u =
    (int_lt u.major v.major ≡ true)
    ⊎ ((int_eq u.major v.major ≡ true)
        × ((int_lt u.minor v.minor ≡ true)
            ⊎ ((int_eq u.minor v.minor ≡ true) × (int_lt v.patch u.patch ≡ false))))

above : (v u : Version) → version_lt v u ≡ false → IsAbove v u
above v u h = ground arith

IsAbove-not_lt : (v u : Version) → IsAbove v u → version_lt v u ≡ false
IsAbove-not_lt v u (inl h) = ground arith
IsAbove-not_lt v u (inr (h, inl k)) = ground arith
IsAbove-not_lt v u (inr (h, inr k)) = ground arith

IsAbove-trans : (u v w : Version) → IsAbove v u → IsAbove w v → IsAbove w u
IsAbove-trans u v w (inl h) (inl k) = inl (ground arith)
IsAbove-trans u v w (inl h) (inr (k, l)) = inl (ground arith)
IsAbove-trans u v w (inr (h, l)) (inl k) = inl (ground arith)
IsAbove-trans u v w (inr (h, inl a)) (inr (k, inl b)) = inr (ground arith, inl (ground arith))
IsAbove-trans u v w (inr (h, inl a)) (inr (k, inr b)) = inr (ground arith, inl (ground arith))
IsAbove-trans u v w (inr (h, inr a)) (inr (k, inl b)) = inr (ground arith, inl (ground arith))
IsAbove-trans u v w (inr (h, inr a)) (inr (k, inr b)) =
    inr (ground arith, inr (ground arith, ground arith))

version_lt_cotrans :
    (u v w : Version) → version_lt v u ≡ false → version_lt w v ≡ false → version_lt w u ≡ false
version_lt_cotrans u v w h k = IsAbove-not_lt w u (IsAbove-trans u v w (above v u h) (above w v k))

-- `is_newer` is a strict order whose incomparable versions are interchangeable, for every reading of
-- the versions: so that no sequence of updates returns to a version that it has left.
pub is_newer-StrictOrder : (scan : Text → Version) → StrictOrder Text (is_newer scan)
is_newer-StrictOrder scan = record {
  asymmetric = λ x y h.
      rw (is_newer-version_lt scan y x)
        (version_lt_asym (scan x) (scan y) (sym (is_newer-version_lt scan x y) ∙ h));
  transitive = λ x y z h k. rw (is_newer-version_lt scan x z) (
      version_lt_trans (scan x) (scan y) (scan z) (sym (is_newer-version_lt scan x y) ∙ h)
        (sym (is_newer-version_lt scan y z) ∙ k));
  cotransitive = λ x y z h k. rw (is_newer-version_lt scan z x) (
      version_lt_cotrans (scan x) (scan y) (scan z) (sym (is_newer-version_lt scan y x) ∙ h)
        (sym (is_newer-version_lt scan z y) ∙ k));
}
