-- ===== src/Executor/Processes/Kept.antt =====
-- executor/process.go: which entries `reapOnce` keeps.
use vectrify_agent_runner.Base.{
  ℕ, ◌≡◌, ◌⊎◌, inl, inr, refl, subst, Bool, true, false, some, List, [], ◌∷◌, Text, text_eq, ◌==◌,
  lookup, IsDict, Fresh, if◌then◌else◌, Bool-cases, arith,
}
use vectrify_agent_runner.Executor.Processes.Stop.{kept, dropped}
use vectrify_agent_runner.Executor.Processes.Removals.{Misses}

pub nothing_found : (id : Text) {h : ℕ} → lookup id [] ≡ some h → ⊥
unfolding lookup
nothing_found id e = cc

pub kept-Fresh :
    (old : ℕ → Bool) (id : Text) (processes : List (Text × ℕ))
    → Fresh id processes
    → Fresh id (kept old processes)
unfolding kept
kept-Fresh old id [] f = tt
kept-Fresh old id ((j, h) ∷ processes) f = elim (Bool-cases (old h)) [
  | inl e ↦ rw e (kept-Fresh old id processes f.1)
  | inr e ↦ rw e (f.0, kept-Fresh old id processes f.1)
]

pub kept-IsDict :
    (old : ℕ → Bool) (processes : List (Text × ℕ)) → IsDict processes → IsDict (kept old processes)
unfolding kept
kept-IsDict old [] d = tt
kept-IsDict old ((j, h) ∷ processes) d = elim (Bool-cases (old h)) [
  | inl e ↦ rw e (kept-IsDict old processes d.1)
  | inr e ↦ rw e (kept-Fresh old j processes d.0, kept-IsDict old processes d.1)
]

pub dropped-Misses :
    (old : ℕ → Bool) (i : Text) (h j : ℕ) (processes : List (Text × ℕ))
    → Misses j (dropped old ((i, h) ∷ processes))
    → ((old h ≡ true) → (h == j) ≡ false) × Misses j (dropped old processes)
unfolding dropped
dropped-Misses old i h j processes a = elim (Bool-cases (old h)) [
  | inl o ↦
      let b : Misses j (h ∷ dropped old processes) =
        subst (λ x. Misses j (if x then h ∷ dropped old processes else dropped old processes)) o
          a in
      (λ p. b.0, b.1)
  | inr o ↦ (
    λ p. ground (arith, o, p),
    subst (λ x. Misses j (if x then h ∷ dropped old processes else dropped old processes)) o a,
  )
]

pub lookup_cons :
    (id i : Text) (h j : ℕ) (processes : List (Text × ℕ))
    → lookup id ((i, h) ∷ processes) ≡ some j
    → ((text_eq i id ≡ true) × (h ≡ j)) ⊎ ((text_eq i id ≡ false) × (lookup id processes ≡ some j))
unfolding lookup
lookup_cons id i h j processes e = ground (arith, e)

-- An entry whose process is not among those dropped is kept.
pub lookup-kept :
    (old : ℕ → Bool) (id : Text) (j : ℕ) (processes : List (Text × ℕ))
    → Misses j (dropped old processes)
    → lookup id processes ≡ some j
    → lookup id (kept old processes) ≡ some j
unfolding lookup kept
lookup-kept old id j [] a e = e
lookup-kept old id j ((i, h) ∷ processes) a e =
    let (b, c) = dropped-Misses old i h j processes a in
    let rest = lookup-kept old id j processes c in
    elim (lookup_cons id i h j processes e) [
      | inl (t, q) ↦ elim (Bool-cases (old h)) [
        | inl o ↦ ground (arith, b o, q)
        | inr o ↦ rw (o, t, q) refl
      ]
      | inr (t, q) ↦ elim (Bool-cases (old h)) [
        | inl o ↦ rw o (rest q)
        | inr o ↦ rw (o, t) (rest q)
      ]
    ]
