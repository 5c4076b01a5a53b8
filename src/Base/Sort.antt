-- ===== src/Base/Sort.antt =====
-- sort.SliceStable as stable insertion, for an order given as a test.
use mathlib.Core.Path.{◌≡◌, refl, ap, ◌∙◌, subst}
use mathlib.Core.Logic.{◌⊎◌, inl, inr, ∥∥₁_elim}
use mathlib.Core.Bool.{Bool, true, false}
use mathlib.Core.List.{List, [], ◌∷◌, Perm, Permᴰ}
use mathlib.Core.List.Perm
use native.Mathlib.Omega.{arith}
use vectrify_agent_runner.Base.Tests.{if◌then◌else◌, Bool-cases}
use vectrify_agent_runner.Base.Lists.{All}

module _ {ℓ} {A : Type ℓ} (less : A → A → Bool) where
  -- `x` goes before the first element that is not less than it.
  unfoldable pub insert_sorted : A → List A → List A
  insert_sorted x [] = x ∷ []
  insert_sorted x (y ∷ ys) = if less y x then y ∷ insert_sorted x ys else x ∷ y ∷ ys

  unfoldable pub stable_sort : List A → List A
  unfolding insert_sorted
  stable_sort [] = []
  stable_sort (x ∷ xs) = insert_sorted x (stable_sort xs)

  pub insert_sorted-perm : (x : A) (ys : List A) → Perm (insert_sorted x ys) (x ∷ ys)
  unfolding insert_sorted
  insert_sorted-perm x [] = Perm.refl (x ∷ [])
  insert_sorted-perm x (y ∷ ys) = elim (Bool-cases (less y x)) [
    | inl e ↦ rw e (Perm.trans (Perm.cons y (insert_sorted-perm x ys)) (Perm.swap x y ys))
    | inr e ↦ rw e (Perm.refl (x ∷ y ∷ ys))
  ]

  pub stable_sort-perm : (xs : List A) → Perm (stable_sort xs) xs
  unfolding stable_sort
  stable_sort-perm [] = Perm.refl []
  stable_sort-perm (x ∷ xs) =
      Perm.trans (insert_sorted-perm x (stable_sort xs)) (Perm.cons x (stable_sort-perm xs))

  -- No element is less than one before it.
  abbrev pub IsSorted : List A → Type 0
  IsSorted [] = Unit
  IsSorted (x ∷ xs) = All (λ y. less y x ≡ false) xs × IsSorted xs

-- What a sort needs of its order.
pub record StrictOrder {ℓ} (A : Type ℓ) (less : A → A → Bool) : Type ℓ where
  pub asymmetric : (x y : A) → less x y ≡ true → less y x ≡ false
  pub transitive : (x y z : A) → less x y ≡ true → less y z ≡ true → less x z ≡ true
  pub cotransitive : (x y z : A) → less y x ≡ false → less z y ≡ false → less z x ≡ false

List-set {ℓ} : {A : Type ℓ} → IsSet A → IsSet (List A)
List-set s = hlevel s

module _ {ℓ} {A : Type ℓ} (less : A → A → Bool) (o : StrictOrder A less) where
  All-insert_sorted {κ} :
      (P : A → Type κ) (x : A) (ys : List A) → P x → All P ys → All P (insert_sorted less x ys)
  unfolding insert_sorted
  All-insert_sorted P x [] p h = (p, tt)
  All-insert_sorted P x (y ∷ ys) p h = elim (Bool-cases (less y x)) [
    | inl e ↦ rw e (h.0, All-insert_sorted P x ys p h.1)
    | inr e ↦ rw e (p, h)
  ]

  above :
      (x y : A) (ys : List A)
      → less y x ≡ false
      → All (λ z. less z y ≡ false) ys
      → All (λ z. less z x ≡ false) ys
  above x y [] e h = tt
  above x y (z ∷ zs) e h = (o.cotransitive x y z e h.0, above x y zs e h.1)

  insert_sorted-IsSorted :
      (x : A) (ys : List A) → IsSorted less ys → IsSorted less (insert_sorted less x ys)
  unfolding insert_sorted
  insert_sorted-IsSorted x [] h = (tt, tt)
  insert_sorted-IsSorted x (y ∷ ys) h = elim (Bool-cases (less y x)) [
    | inl e ↦ rw e (
      All-insert_sorted (λ z. less z y ≡ false) x ys (o.asymmetric y x e) h.0,
      insert_sorted-IsSorted x ys h.1,
    )
    | inr e ↦ rw e ((e, above x y ys e h.0), h)
  ]

  pub stable_sort-IsSorted : (xs : List A) → IsSorted less (stable_sort less xs)
  unfolding stable_sort
  stable_sort-IsSorted [] = tt
  stable_sort-IsSorted (x ∷ xs) =
      insert_sorted-IsSorted x (stable_sort less xs) (stable_sort-IsSorted xs)

  abbrev pub Comparable : A → A → Type 0
  Comparable x y = (less x y ≡ true) ⊎ (less y x ≡ true)

  -- Any two elements at different places are ordered.
  abbrev pub AllComparable : List A → Type 0
  AllComparable [] = Unit
  AllComparable (x ∷ xs) = All (Comparable x) xs × AllComparable xs

  insert_sorted_comm :
      (x y : A) (zs : List A)
      → Comparable x y
      → insert_sorted less x (insert_sorted less y zs)
        ≡ insert_sorted less y (insert_sorted less x zs)
  unfolding insert_sorted
  insert_sorted_comm x y [] c = ground (arith, o.asymmetric x y, o.asymmetric y x)
  insert_sorted_comm x y (z ∷ zs) c = ground (
    arith,
    insert_sorted_comm x y zs c,
    o.asymmetric x y,
    o.asymmetric y x,
    o.transitive z x y,
    o.transitive z y x,
  )

  All-Permᴰ {κ} : (P : A → Type κ) {xs ys : List A} → Permᴰ xs ys → All P xs → All P ys
  All-Permᴰ P Permᴰ.nil h = tt
  All-Permᴰ P (Permᴰ.cons e p) h = (subst P e h.0, All-Permᴰ P p h.1)
  All-Permᴰ P (Permᴰ.swap e f) h = (subst P f h.1.0, (subst P e h.0, h.1.1))
  All-Permᴰ P (Permᴰ.trans p q) h = All-Permᴰ P q (All-Permᴰ P p h)

  Comparable-sym : (x y : A) → Comparable x y → Comparable y x
  Comparable-sym x y c = ground arith

  AllComparable-Permᴰ : {xs ys : List A} → Permᴰ xs ys → AllComparable xs → AllComparable ys
  AllComparable-Permᴰ Permᴰ.nil h = tt
  AllComparable-Permᴰ (Permᴰ.cons {b = b} {l₂ = l₂} e p) h =
      (subst (λ a. All (Comparable a) l₂) e (All-Permᴰ _ p h.0), AllComparable-Permᴰ p h.1)
  AllComparable-Permᴰ (Permᴰ.swap {a = a} {b = b} {a' = a'} {b' = b'} {l = l} e f) h = (
    (
      subst (λ c. Comparable c b') f (subst (Comparable b) e (Comparable-sym a b h.0.0)),
      subst (λ c. All (Comparable c) l) f h.1.0,
    ),
    (subst (λ c. All (Comparable c) l) e h.0.1, h.1.1),
  )
  AllComparable-Permᴰ (Permᴰ.trans p q) h = AllComparable-Permᴰ q (AllComparable-Permᴰ p h)

  stable_sort-Permᴰ :
      {xs ys : List A} → Permᴰ xs ys → AllComparable xs → stable_sort less xs ≡ stable_sort less ys
  unfolding stable_sort
  stable_sort-Permᴰ Permᴰ.nil h = refl
  stable_sort-Permᴰ (Permᴰ.cons {a = a} {b = b} {l₂ = l₂} e p) h =
      ap (insert_sorted less a) (stable_sort-Permᴰ p h.1)
      ∙ ap (λ c. insert_sorted less c (stable_sort less l₂)) e
  stable_sort-Permᴰ (Permᴰ.swap {a = a} {b = b} {a' = a'} {b' = b'} {l = l} e f) h =
      insert_sorted_comm a b (stable_sort less l) h.0.0
      ∙ (ap (λ c. insert_sorted less c (insert_sorted less a (stable_sort less l))) f
          ∙ ap (λ c. insert_sorted less a' (insert_sorted less c (stable_sort less l))) e)
  stable_sort-Permᴰ (Permᴰ.trans p q) h =
      stable_sort-Permᴰ p h ∙ stable_sort-Permᴰ q (AllComparable-Permᴰ p h)

  -- Where any two elements are ordered, the sorted list does not depend on the order given.
  pub stable_sort-Perm :
      {xs ys : List A}
      → IsSet A
      → Perm xs ys
      → AllComparable xs
      → stable_sort less xs ≡ stable_sort less ys
  stable_sort-Perm s p h = ∥∥₁_elim p (List-set s _ _) (λ d. stable_sort-Permᴰ d h)
