-- ===== src/Updater/Lock/Exclusion.antt =====
-- When the lock excludes, and how it does not.
use mathlib.Core.Option.{some-injective}
use vectrify_agent_runner.Base.{
  false, ◌==◌, ◌∙◌, set, get_elem?-set_ne, ℕ, ◌+◌, ◌-◌, ◌≡◌, ◌≤◌, refl, subst, Option, none, some,
  List, [], ◌∷◌, get_elem?, sum, sum-set, le-sum, Option-cases, inl, inr, arith, All,
}
use vectrify_agent_runner.Updater.Lock.{
  Phase, out, found, reclaiming, removed, abandoning, abandon, holding, Action, create,
  create_fails, judge, remove, release, crash, try_create_lock, lock_is_stale, advance, Machine,
  Event, act, tick, step, run, moved, acted,
}

abbrev pub holds : Phase → ℕ
holds holding = 1
holds other = 0

-- A process that may yet remove a lock which is another's: it has judged one stale, or has released its
-- own and will release it again.
abbrev pub reclaims : Phase → ℕ
reclaims reclaiming = 1
reclaims removed = 1
reclaims abandoning = 1
reclaims other = 0

abbrev pub holders : Machine → ℕ
holders m = sum holds m.processes

abbrev pub present : Option ℕ → ℕ
present none = 0
present (some modified) = 1

-- The states of the runs, from one without a lock in which nobody updates, in which no process has
-- yet judged a lock stale, and none has undone an update.
pub data Orderly : Machine → Type 0 where
  begin : (m : Machine) → m.file ≡ none → All (λ p. p ≡ out) m.processes → Orderly m
  next :
      (e : Event) {m n : Machine}
      → Orderly m
      → step m e ≡ some n
      → sum reclaims n.processes ≡ 0
      → Orderly n

-- The effect of a step on the holders, where `others` of them are other processes.
abbrev Keeps : ℕ → Option (Option ℕ × Phase) → Type 0
Keeps others none = Unit
Keeps others (some (file, phase)) = others + holds phase ≤ present file

created-Keeps :
    (now others : ℕ) (file : Option ℕ) (refused : Phase)
    → holds refused ≡ 0
    → others ≤ present file
    → Keeps others (some (try_create_lock now file refused))
unfolding try_create_lock
created-Keeps now others none refused r h = ground arith
created-Keeps now others (some t) refused r h = ground arith

advance-Keeps :
    (now others : ℕ) (file : Option ℕ) (p : Phase) (a : Action)
    → reclaims p ≡ 0
    → others + holds p ≤ present file
    → Keeps others (advance now file p a)
unfolding advance
advance-Keeps now others file out create r h =
    created-Keeps now others file found refl (ground arith)
advance-Keeps now others file out create_fails r h = h
advance-Keeps now others file found judge r h = ground arith
advance-Keeps now others file holding release r h = ground arith
advance-Keeps now others file holding abandon r h = ground arith
advance-Keeps now others file out crash r h = h
advance-Keeps now others file found crash r h = h
advance-Keeps now others file holding crash r h = ground arith
advance-Keeps now others file p a r h = ground arith

-- A machine on which no more hold the lock than there are lock files.
record Inv (m : Machine) : Type 0 where
  held : holders m ≤ present m.file
  unclaimed : sum reclaims m.processes ≡ 0

moved-holders :
    (m : Machine) (i : ℕ) (p : Phase) (r : Option (Option ℕ × Phase)) {n : Machine}
    → get_elem? m.processes i ≡ some p
    → ((others : ℕ) → others + holds p ≤ present m.file → Keeps others r)
    → holders m ≤ present m.file
    → moved m i r ≡ some n
    → holders n ≤ present n.file
unfolding moved
moved-holders m i p none g k h e = ground arith
moved-holders m i p (some (file, phase)) g k h e =
    subst (λ q. holders q ≤ present q.file) (some-injective _ _ e)
      (let l = le-sum holds m.processes i g in
        omega (
          arith,
          k (holders m - holds p) (omega (arith, l, h)),
          sum-set holds m.processes i phase g,
          l,
        ))

acted-holders :
    (m : Machine) (i : ℕ) (a : Action) (o : Option Phase) {n : Machine}
    → get_elem? m.processes i ≡ o
    → Inv m
    → acted m i a o ≡ some n
    → holders n ≤ present n.file
unfolding acted
acted-holders m i a none g v e = ground arith
acted-holders m i a (some p) g v e =
    moved-holders m i p (advance m.now m.file p a) g
      (λ others.
        advance-Keeps m.now others m.file p a
          (omega (arith, le-sum reclaims m.processes i g, v.unclaimed)))
      v.held e

step-holders :
    (m : Machine) (e : Event) {n : Machine} → Inv m → step m e ≡ some n → holders n ≤ present n.file
unfolding step
step-holders m (act i a) v e = acted-holders m i a (get_elem? m.processes i) refl v e
step-holders m (tick d) v e = subst (λ q. holders q ≤ present q.file) (some-injective _ _ e) v.held

begin-none : (ps : List Phase) → All (λ p. p ≡ out) ps → (sum holds ps ≡ 0) × (sum reclaims ps ≡ 0)
begin-none [] h = (refl, refl)
begin-none (p ∷ ps) h =
    let (a, b) = begin-none ps h.1 in (rw h.0 (omega (arith, a)), rw h.0 (omega (arith, b)))

Orderly-Inv : {m : Machine} → Orderly m → Inv m
Orderly-Inv (begin m f h) =
    let (a, b) = begin-none m.processes h in record { held = ground (arith, a); unclaimed = b }
Orderly-Inv (next e {m} o s r) = record { held = step-holders m e (Orderly-Inv o) s; unclaimed = r }

-- In every interleaving of any number of processes, crashes included, in which none has judged a lock
-- stale and none has undone an update after its swap, at most one process holds the lock, and if one does
-- the file is there.
pub Orderly-excludes :
    (m : Machine)
    → Orderly m
    → (holders m ≤ 1) × (holders m ≡ 1 → (modified : ℕ) × (m.file ≡ some modified))
Orderly-excludes m o =
    let v = Orderly-Inv o in
    elim (Option-cases m.file) [
      | inl f ↦ (ground (arith, v.held), λ e. ground (arith, v.held))
      | inr (t, f) ↦ (ground (arith, v.held), λ e. (t, f))
    ]

-- The steps by which a process takes a lock from another that holds it: it finds the lock, the lock is
-- released, it judges the missing file stale, the other takes the lock again, and it removes that one.
abbrev pub takeover : List Event
takeover =
    act 1 create
    ∷ act 0 create
    ∷ act 1 release
    ∷ act 0 judge
    ∷ act 1 create
    ∷ act 0 remove
    ∷ act 0 create
    ∷ []

-- With any other processes, two that are not updating can both come to hold the lock while the clock
-- stands still: the missing file between a failed create and the test of its age counts as stale, and
-- the removal takes whatever file is there.
takeover-shared :
    (now : ℕ) (others : List Phase)
    → run (record { file = none; now = now; processes = out ∷ out ∷ others }) takeover
      ≡ some (record { file = some now; now = now; processes = holding ∷ holding ∷ others })
unfolding run step advance lock_is_stale try_create_lock
takeover-shared now others = refl

-- The call by which a process removes a lock that may be another's.
abbrev pub Strays : Phase → Action → Type 0
Strays reclaiming remove = Unit
Strays abandoning release = Unit
Strays other action = ⊥

straying-step :
    (m : Machine) (i : ℕ) (p : Phase) (a : Action)
    → get_elem? m.processes i ≡ some p
    → Strays p a
    → (q : Phase) × (holds p ≡ 0)
      × (holds q ≡ 0)
      × (step m (act i a) ≡ some (record m { file = none; processes = set m.processes i q }))
unfolding step acted advance moved
straying-step m i reclaiming remove e s = (removed, refl, refl, rw e refl)
straying-step m i abandoning release e s = (out, refl, refl, rw e refl)
straying-step m i p a e s = absurd s

creating-step :
    (m : Machine) (k : ℕ)
    → m.file ≡ none
    → get_elem? m.processes k ≡ some out
    → step m (act k create)
      ≡ some (record m { file = some m.now; processes = set m.processes k holding })
unfolding step acted advance moved try_create_lock
creating-step m k f e = rw (e, f) refl

run-two :
    (m n o : Machine) (e f : Event)
    → step m e ≡ some n
    → step n f ≡ some o
    → run m (e ∷ f ∷ []) ≡ some o
unfolding run
run-two m n o e f s t = ground (arith, s, t)

-- In any state in which a process has judged a lock stale, or has released the lock of an update that it
-- undid, its next removal lets another one in: that one takes the lock and none of those that held it
-- before has given it back.
pub stray_removal-shares :
    (m : Machine) (i k : ℕ) (p : Phase) (a : Action)
    → get_elem? m.processes i ≡ some p
    → Strays p a
    → (i == k) ≡ false
    → get_elem? m.processes k ≡ some out
    → (n : Machine) × (run m (act i a ∷ act k create ∷ []) ≡ some n) × (holders n ≡ holders m + 1)
stray_removal-shares m i k p a e s d o =
    let (q, hp, hq, f) = straying-step m i p a e s in
    let g = get_elem?-set_ne m.processes i k q d ∙ o in
    let m' : Machine = record m { file = none; processes = set m.processes i q } in
    let n : Machine = record m' { file = some m.now; processes = set m'.processes k holding } in
    (
      n,
      run-two m m' n (act i a) (act k create) f (creating-step m' k refl g),
      omega
          (arith, hp, hq, sum-set holds m.processes i q e, sum-set holds m'.processes k holding g),
    )
