-- ===== src/Base/Lists.antt =====
-- Lists measured and indexed by native numbers, and sums over a list.
use Prim.Native.Nat.{ℕ, zero, suc, ◌+◌, ◌-◌, ◌≤◌, min}
use mathlib.Core.Path.{◌≡◌, refl, sym, ap, subst}
use mathlib.Core.Logic.{◌⊎◌, inl, inr}
use mathlib.Core.Bool.{false}
use mathlib.Core.List.{List, [], ◌∷◌, ◌++◌}
use mathlib.Core.Option.{Option, none, some, some-injective}
use vectrify_agent_runner.Base.Tests.{◌==◌}
use native.Mathlib.Omega.{arith}

module _ {ℓ} {A : Type ℓ} where
  abbrev pub length : List A → ℕ
  length [] = 0
  length (x ∷ xs) = suc (length xs)

  abbrev pub get_elem? : List A → ℕ → Option A
  get_elem? [] i = none
  get_elem? (x ∷ xs) zero = some x
  get_elem? (x ∷ xs) (suc i) = get_elem? xs i

  -- A write out of bounds changes nothing.
  abbrev pub set : List A → ℕ → A → List A
  set [] i v = []
  set (x ∷ xs) zero v = v ∷ xs
  set (x ∷ xs) (suc i) v = x ∷ set xs i v

  abbrev pub take : ℕ → List A → List A
  take zero xs = []
  take (suc n) [] = []
  take (suc n) (x ∷ xs) = x ∷ take n xs

  abbrev pub drop : ℕ → List A → List A
  drop zero xs = xs
  drop (suc n) [] = []
  drop (suc n) (x ∷ xs) = drop n xs

  pub length-append : (xs ys : List A) → length (xs ++ ys) ≡ length xs + length ys
  length-append [] ys = omega arith
  length-append (x ∷ xs) ys = omega (arith, length-append xs ys)

  pub length-take : (n : ℕ) (xs : List A) → length (take n xs) ≡ min n (length xs)
  length-take zero xs = omega arith
  length-take (suc n) [] = omega arith
  length-take (suc n) (x ∷ xs) = omega (arith, length-take n xs)

  pub length-drop : (n : ℕ) (xs : List A) → length (drop n xs) ≡ length xs - n
  length-drop zero xs = ground arith
  length-drop (suc n) [] = ground arith
  length-drop (suc n) (x ∷ xs) = ground (arith, length-drop n xs)

  pub take-drop : (n : ℕ) (xs : List A) → take n xs ++ drop n xs ≡ xs
  take-drop zero xs = refl
  take-drop (suc n) [] = refl
  take-drop (suc n) (x ∷ xs) = ap (λ t. x ∷ t) (take-drop n xs)

  -- A predicate that holds of every element, as a tuple.
  abbrev pub All {κ} : (A → Type κ) → List A → Type κ
  All P [] = Unit
  All P (x ∷ xs) = P x × All P xs

  -- The sum of a weight over a list.
  abbrev pub sum : (A → ℕ) → List A → ℕ
  sum f [] = 0
  sum f (x ∷ xs) = f x + sum f xs

  pub sum-append : (f : A → ℕ) (xs ys : List A) → sum f (xs ++ ys) ≡ sum f xs + sum f ys
  sum-append f [] ys = omega arith
  sum-append f (x ∷ xs) ys = omega (arith, sum-append f xs ys)

  -- Replacing one element moves the sum by the difference of the two weights.
  pub sum-set :
      (f : A → ℕ) (xs : List A) (i : ℕ) (v : A) {x : A}
      → get_elem? xs i ≡ some x
      → sum f (set xs i v) + f x ≡ sum f xs + f v
  sum-set f [] i v e = ground arith
  sum-set f (y ∷ ys) zero v e = ground arith
  sum-set f (y ∷ ys) (suc i) v e = omega (arith, sum-set f ys i v e)

  pub le-sum : (f : A → ℕ) (xs : List A) (i : ℕ) {x : A} → get_elem? xs i ≡ some x → f x ≤ sum f xs
  le-sum f [] i e = ground arith
  le-sum f (y ∷ ys) zero e = ground arith
  le-sum f (y ∷ ys) (suc i) e = omega (arith, le-sum f ys i e)

module _ {ℓ} {A : Type ℓ} where
  pub get_elem?-set_self :
      (xs : List A) (i : ℕ) (v : A) {x : A}
      → get_elem? xs i ≡ some x
      → get_elem? (set xs i v) i ≡ some v
  get_elem?-set_self [] i v e = ground arith
  get_elem?-set_self (x ∷ xs) zero v e = refl
  get_elem?-set_self (x ∷ xs) (suc i) v e = get_elem?-set_self xs i v e

  -- A write leaves the other places as they are.
  pub get_elem?-set_ne :
      (xs : List A) (i j : ℕ) (v : A) → (i == j) ≡ false → get_elem? (set xs i v) j ≡ get_elem? xs j
  get_elem?-set_ne [] i j v h = refl
  get_elem?-set_ne (x ∷ xs) zero zero v h = ground (arith, h)
  get_elem?-set_ne (x ∷ xs) zero (suc j) v h = refl
  get_elem?-set_ne (x ∷ xs) (suc i) zero v h = refl
  get_elem?-set_ne (x ∷ xs) (suc i) (suc j) v h = get_elem?-set_ne xs i j v (ground (arith, h))

  -- What stands in a list after a write.
  pub get_elem?-set_cases :
      (xs : List A) (i : ℕ) (v : A) (j : ℕ) {x : A}
      → get_elem? (set xs i v) j ≡ some x
      → ((j ≡ i) × (x ≡ v)) ⊎ (((i == j) ≡ false) × (get_elem? xs j ≡ some x))
  get_elem?-set_cases [] i v j e = cc
  get_elem?-set_cases (x ∷ xs) zero v zero e = inl (refl, some-injective _ _ (sym e))
  get_elem?-set_cases (x ∷ xs) zero v (suc j) e = inr (ground arith, e)
  get_elem?-set_cases (x ∷ xs) (suc i) v zero e = inr (ground arith, e)
  get_elem?-set_cases (x ∷ xs) (suc i) v (suc j) e = elim (get_elem?-set_cases xs i v j e) [
    | inl (a, b) ↦ inl (ap (λ n. suc n) a, b)
    | inr (a, b) ↦ inr (ground (arith, a), b)
  ]

  -- What stands in a list after a push.
  pub get_elem?-push :
      (xs : List A) (v : A) (j : ℕ) {x : A}
      → get_elem? (xs ++ v ∷ []) j ≡ some x
      → (get_elem? xs j ≡ some x) ⊎ ((j ≡ length xs) × (x ≡ v))
  get_elem?-push [] v zero e = inr (refl, some-injective _ _ (sym e))
  get_elem?-push [] v (suc j) e = cc
  get_elem?-push (x ∷ xs) v zero e = inl e
  get_elem?-push (x ∷ xs) v (suc j) e = elim (get_elem?-push xs v j e) [
    | inl h ↦ inl h
    | inr (a, b) ↦ inr (ap (λ n. suc n) a, b)
  ]

  pub get_elem?-append :
      (xs ys : List A) (j : ℕ) {x : A} → get_elem? xs j ≡ some x → get_elem? (xs ++ ys) j ≡ some x
  get_elem?-append [] ys j e = cc
  get_elem?-append (x ∷ xs) ys zero e = e
  get_elem?-append (x ∷ xs) ys (suc j) e = get_elem?-append xs ys j e

  pub get_elem?-length : (xs : List A) (v : A) → get_elem? (xs ++ v ∷ []) (length xs) ≡ some v
  get_elem?-length [] v = refl
  get_elem?-length (x ∷ xs) v = get_elem?-length xs v

  pub get_elem?-All {κ} :
      (P : A → Type κ) (xs : List A) (i : ℕ) {x : A} → All P xs → get_elem? xs i ≡ some x → P x
  get_elem?-All P [] i h e = cc
  get_elem?-All P (x ∷ xs) zero h e = subst P (some-injective _ _ e) h.0
  get_elem?-All P (x ∷ xs) (suc i) h e = get_elem?-All P xs i h.1 e

  pub All-set {κ} :
      (P : A → Type κ) (xs : List A) (i : ℕ) (v : A) → All P xs → P v → All P (set xs i v)
  All-set P [] i v h p = tt
  All-set P (x ∷ xs) zero v h p = (p, h.1)
  All-set P (x ∷ xs) (suc i) v h p = (h.0, All-set P xs i v h.1 p)

  pub All-append {κ} : (P : A → Type κ) (xs ys : List A) → All P xs → All P ys → All P (xs ++ ys)
  All-append P [] ys hx hy = hy
  All-append P (x ∷ xs) ys hx hy = (hx.0, All-append P xs ys hx.1 hy)

  pub All-map {κ ι} :
      (P : A → Type κ) (Q : A → Type ι) (xs : List A) → ((a : A) → P a → Q a) → All P xs → All Q xs
  All-map P Q [] f h = tt
  All-map P Q (x ∷ xs) f h = (f x h.0, All-map P Q xs f h.1)
