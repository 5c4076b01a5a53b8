-- ===== src/Base/Dict.antt =====
-- Go's `map[string]V` as an association list with one pair to a key.
use Prim.Native.Nat.{ℕ, ◌+◌}
use mathlib.Core.Path.{◌≡◌, refl, subst}
use mathlib.Core.Logic.{inl, inr}
use mathlib.Core.Bool.{true, false}
use mathlib.Core.Option.{Option, none, some}
use mathlib.Core.List.{List, [], ◌∷◌}
use native.Mathlib.Omega.{arith}
use vectrify_agent_runner.Base.Tests.{if◌then◌else◌, Bool-cases}
use vectrify_agent_runner.Base.Lists.{All, sum}
use vectrify_agent_runner.Base.Strings.{Text, text_eq, text_eq_iff}

module _ {ℓ} {V : Type ℓ} where
  unfoldable pub lookup : Text → List (Text × V) → Option V
  lookup k [] = none
  lookup k ((j, v) ∷ m) = if text_eq j k then some v else lookup k m

  unfoldable pub insert : Text → V → List (Text × V) → List (Text × V)
  insert k v [] = (k, v) ∷ []
  insert k v ((j, w) ∷ m) = if text_eq j k then (j, v) ∷ m else (j, w) ∷ insert k v m

  unfoldable pub erase : Text → List (Text × V) → List (Text × V)
  erase k [] = []
  erase k ((j, w) ∷ m) = if text_eq j k then m else (j, w) ∷ erase k m

  pub lookup-insert :
      (k j : Text) (v : V) (m : List (Text × V))
      → lookup j (insert k v m) ≡ (if text_eq k j then some v else lookup j m)
  unfolding lookup insert
  lookup-insert k j v [] = refl
  lookup-insert k j v ((i, w) ∷ m) =
      ground (arith, text_eq_iff k j, text_eq_iff i k, text_eq_iff i j, lookup-insert k j v m)

  -- No key stands twice.
  abbrev pub Fresh : Text → List (Text × V) → Type 0
  Fresh k [] = Unit
  Fresh k ((j, w) ∷ m) = (text_eq j k ≡ false) × Fresh k m

  abbrev pub IsDict : List (Text × V) → Type 0
  IsDict [] = Unit
  IsDict ((j, w) ∷ m) = Fresh j m × IsDict m

  pub lookup-Fresh : (k : Text) (m : List (Text × V)) → Fresh k m → lookup k m ≡ none
  unfolding lookup
  lookup-Fresh k [] h = refl
  lookup-Fresh k ((j, w) ∷ m) h = ground (arith, lookup-Fresh k m h.1)

  insert-Fresh :
      (k j : Text) (v : V) (m : List (Text × V))
      → text_eq k j ≡ false
      → Fresh j m
      → Fresh j (insert k v m)
  unfolding insert
  insert-Fresh k j v [] n h = (n, tt)
  insert-Fresh k j v ((i, w) ∷ m) n h = ground (arith, insert-Fresh k j v m n h.1)

  pub insert-IsDict : (k : Text) (v : V) (m : List (Text × V)) → IsDict m → IsDict (insert k v m)
  unfolding insert
  insert-IsDict k v [] h = (tt, tt)
  insert-IsDict k v ((i, w) ∷ m) h =
      ground
        (arith, insert-IsDict k v m h.1, insert-Fresh k i v m, text_eq_iff i k, text_eq_iff k i)

  erase-Fresh : (k j : Text) (m : List (Text × V)) → Fresh j m → Fresh j (erase k m)
  unfolding erase
  erase-Fresh k j [] h = tt
  erase-Fresh k j ((i, w) ∷ m) h = ground (arith, erase-Fresh k j m h.1)

  pub erase-IsDict : (k : Text) (m : List (Text × V)) → IsDict m → IsDict (erase k m)
  unfolding erase
  erase-IsDict k [] h = tt
  erase-IsDict k ((i, w) ∷ m) h = ground (arith, erase-IsDict k m h.1, erase-Fresh k i m h.0)

  Fresh-eq : (k j : Text) (m : List (Text × V)) → text_eq k j ≡ true → Fresh k m → lookup j m ≡ none
  Fresh-eq k j m e h = rw (← (text_eq_iff k j).0 e) (lookup-Fresh k m h)

  pub lookup-erase :
      (k j : Text) (m : List (Text × V))
      → IsDict m
      → lookup j (erase k m) ≡ (if text_eq k j then none else lookup j m)
  unfolding lookup erase
  lookup-erase k j [] h = ground arith
  lookup-erase k j ((i, w) ∷ m) h = ground (
    arith,
    text_eq_iff k j,
    text_eq_iff i k,
    text_eq_iff i j,
    lookup-erase k j m h.1,
    Fresh-eq i j m,
  )

-- A weight summed over the values: how `insert` and `erase` move it.
module _ {ℓ} {V : Type ℓ} (f : V → ℕ) where
  abbrev pub total : List (Text × V) → ℕ
  total = sum (λ p. f p.1)

  -- The weight under a key; a key that is not there weighs nothing.
  abbrev pub weight : Option V → ℕ
  weight none = 0
  weight (some v) = f v

  pub total-insert :
      (k : Text) (v : V) (m : List (Text × V))
      → total (insert k v m) + weight (lookup k m) ≡ total m + f v
  unfolding lookup insert
  total-insert k v [] = ground arith
  total-insert k v ((j, w) ∷ m) = ground (arith, total-insert k v m)

  pub total-erase :
      (k : Text) (m : List (Text × V)) → total (erase k m) + weight (lookup k m) ≡ total m
  unfolding lookup erase
  total-erase k [] = ground arith
  total-erase k ((j, w) ∷ m) = ground (arith, total-erase k m)

module _ {ℓ κ} {V : Type ℓ} (P : V → Type κ) where
  abbrev pub AllValues : List (Text × V) → Type κ
  AllValues = All (λ p. P p.1)

  pub insert-AllValues :
      (k : Text) (v : V) (m : List (Text × V)) → P v → AllValues m → AllValues (insert k v m)
  unfolding insert
  insert-AllValues k v [] p h = (p, tt)
  insert-AllValues k v ((j, w) ∷ m) p h = elim (Bool-cases (text_eq j k)) [
    | inl e ↦ rw e (p, h.1)
    | inr e ↦ rw e (h.0, insert-AllValues k v m p h.1)
  ]

  pub erase-AllValues : (k : Text) (m : List (Text × V)) → AllValues m → AllValues (erase k m)
  unfolding erase
  erase-AllValues k [] h = tt
  erase-AllValues k ((j, w) ∷ m) h = elim (Bool-cases (text_eq j k)) [
    | inl e ↦ rw e h.1
    | inr e ↦ rw e (h.0, erase-AllValues k m h.1)
  ]

  pub lookup-AllValues :
      (k : Text) (m : List (Text × V)) {v : V} → AllValues m → lookup k m ≡ some v → P v
  unfolding lookup
  lookup-AllValues k [] h e = cc
  lookup-AllValues k ((j, w) ∷ m) h e = elim (Bool-cases (text_eq j k)) [
    | inl q ↦ subst P (ground arith) h.0
    | inr q ↦ lookup-AllValues k m h.1 (ground arith)
  ]
