-- ===== src/Executor/Processes/Removals.antt =====
-- executor/process.go: the processes that were taken out of the pool and are not yet killed.
use mathlib.Core.Option.{some-injective}
use vectrify_agent_runner.Base.{
  ℕ, zero, suc, ◌≡◌, ◌⊎◌, inl, inr, sym, ◌∙◌, subst, ap, false, Option, none, some, List, [], ◌∷◌,
  ◌++◌, ◌==◌, ==_iff, get_elem?, set, map, All, Bool-cases, arith,
}
use vectrify_agent_runner.Executor.Processes.{Removal, to_kill, to_reap, to_discard, ended}

-- The process that a removal has yet to kill.
abbrev pub target : Removal → Option ℕ
target (to_kill h) = some h
target (to_reap h) = some h
target (to_discard h) = some h
target ended = none

-- A call that has taken the process out of the pool, or refused it, has yet to kill it.
abbrev pub IsDoomed : ℕ → List Removal → Type 0
IsDoomed h [] = ⊥
IsDoomed h (r ∷ rs) = (target r ≡ some h) ⊎ IsDoomed h rs

pub append-IsDoomed : (h : ℕ) (rs ss : List Removal) → IsDoomed h rs → IsDoomed h (rs ++ ss)
append-IsDoomed h [] ss d = absurd d
append-IsDoomed h (r ∷ rs) ss (inl e) = inl e
append-IsDoomed h (r ∷ rs) ss (inr d) = inr (append-IsDoomed h rs ss d)

pub append-IsDoomed_new : (h : ℕ) (rs ss : List Removal) → IsDoomed h ss → IsDoomed h (rs ++ ss)
append-IsDoomed_new h [] ss d = d
append-IsDoomed_new h (r ∷ rs) ss d = inr (append-IsDoomed_new h rs ss d)

-- A removal that is done with leaves those of other processes.
pub set-IsDoomed :
    (rs : List Removal) (k h j : ℕ) (r : Removal)
    → get_elem? rs k ≡ some r
    → target r ≡ some h
    → (h == j) ≡ false
    → IsDoomed j rs
    → IsDoomed j (set rs k ended)
set-IsDoomed [] k h j r e t n d = absurd d
set-IsDoomed (x ∷ rs) zero h j r e t n (inl u) =
    let v : some h ≡ some j = sym t ∙ (ap target (sym (some-injective _ _ e)) ∙ u) in
    ground (arith, n, some-injective _ _ v)
set-IsDoomed (x ∷ rs) zero h j r e t n (inr d) = inr d
set-IsDoomed (x ∷ rs) (suc k) h j r e t n (inl u) = inl u
set-IsDoomed (x ∷ rs) (suc k) h j r e t n (inr d) = inr (set-IsDoomed rs k h j r e t n d)

abbrev pub Misses : ℕ → List ℕ → Type 0
Misses j = All (λ h. (h == j) ≡ false)

-- A process is none of those of a list, or it is to be removed with them.
pub removed_or_missed :
    (make : ℕ → Removal) (j : ℕ) (hs : List ℕ)
    → ((h : ℕ) → target (make h) ≡ some h)
    → Misses j hs ⊎ IsDoomed j (map make hs)
removed_or_missed make j [] t = inl tt
removed_or_missed make j (h ∷ hs) t = elim (Bool-cases (h == j)) [
  | inl e ↦ inr (inl (subst (λ x. target (make h) ≡ some x) ((==_iff h j).0 e) (t h)))
  | inr e ↦ elim (removed_or_missed make j hs t) [ inl m ↦ inl (e, m) | inr d ↦ inr (inr d) ]
]

-- Nothing is to be killed any more.
pub ended-IsDoomed : (h : ℕ) (rs : List Removal) → All (λ r. r ≡ ended) rs → ¬ IsDoomed h rs
ended-IsDoomed h [] a d = d
ended-IsDoomed h (r ∷ rs) a (inl e) = let f : none ≡ some h = sym (ap target a.0) ∙ e in cc
ended-IsDoomed h (r ∷ rs) a (inr d) = ended-IsDoomed h rs a.1 d
