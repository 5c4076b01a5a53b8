-- ===== src/Client/System/Invariant.antt =====
-- The invariant of the dispatch system, and that every step of every goroutine keeps it.
use vectrify_agent_runner.Base.{
  ℕ, ◌+◌, ◌≤◌, ◌≡◌, refl, subst, inl, inr, some, List, [], ◌∷◌, Text, text_eq_refl, lookup, leb,
  arith, Option-cases, Bool-cases, All, All-set, All-append, All-map, sum, sum-set, sum-append,
  le-sum, get_elem?, set,
}
use mathlib.Core.Option.{some-injective}
use vectrify_agent_runner.Client.Registry.{Registry}
use vectrify_agent_runner.Client.Registry.Counts.{active, active_heavy}
use vectrify_agent_runner.Client.Registry.Laws.{IsValid, refs, new_registry-IsValid}
use vectrify_agent_runner.Client.Waiters.{Limits, max_pending_slot_waiters}
use vectrify_agent_runner.Client.System.{
  Phase, waiting, asleep, Task, Shared, System, Event, tick, command, act, Action, dispatch_one,
  receive, put_task, step, new_client, Reach, here, next,
}
use vectrify_agent_runner.Client.System.Effects.{
  waits, flies, flies_as, Sleeps, Wakes, Effect, Holds, dispatch_one-Effect,
}

abbrev pub waiting_tasks : List Task → ℕ
waiting_tasks = sum (λ t. waits t.phase)

abbrev pub flying_tasks : List Task → ℕ
flying_tasks = sum (λ t. flies t.phase)

abbrev pub flying_as : Text → List Task → ℕ
flying_as j = sum (λ t. flies_as j t.cmd_id t.phase)

abbrev pub Sleepers : Limits → Registry → List Task → Type 0
Sleepers limits r = All (λ t. Sleeps limits r t.phase)

pub record Inv (limits : Limits) (c : System) : Type 0 where
  pub valid : IsValid c.shared.inflight
  pub waiters : c.shared.pending_waiters ≡ waiting_tasks c.tasks
  pub capped : c.shared.pending_waiters ≤ max_pending_slot_waiters
  pub units : active c.shared.inflight ≡ flying_tasks c.tasks
  pub refs_held : (j : Text) → refs j c.shared.inflight ≡ flying_as j c.tasks
  pub bounded_global : active c.shared.inflight ≤ limits.max_concurrency
  pub bounded_heavy : active_heavy c.shared.inflight ≤ limits.max_heavy_concurrency
  pub sleepers : Sleepers limits c.shared.inflight c.tasks

new_client-Inv : (limits : Limits) (start : ℕ) → Inv limits (new_client start)
unfolding new_client lookup
new_client-Inv limits start = record {
  valid = new_registry-IsValid;
  waiters = refl;
  capped = omega arith;
  units = refl;
  refs_held = λ j. refl;
  bounded_global = omega arith;
  bounded_heavy = omega arith;
  sleepers = tt;
}

Sleeps-mono :
    (limits : Limits) (r r' : Registry) (p : Phase)
    → Wakes r r'
    → Sleeps limits r p
    → Sleeps limits r' p
Sleeps-mono limits r r' (asleep by g h w) k z = (
  ground arith,
  λ e b. ground (arith, z.1 (ground arith) b),
  λ e b. ground (arith, z.2 (ground arith) b),
)
Sleeps-mono limits r r' waiting k z = tt
Sleeps-mono limits r r' _ k z = tt

module _ (limits : Limits) (c : System) (v : Inv limits c) where
  pub Holds-of : (i : ℕ) {t : Task} → get_elem? c.tasks i ≡ some t → Holds c.shared t
  Holds-of i {t} e = record {
    valid = v.valid;
    waiter = omega (arith, v.waiters, le-sum (λ t. waits t.phase) c.tasks i e);
    unit = ground (
      arith,
      v.refs_held t.cmd_id,
      text_eq_refl t.cmd_id,
      le-sum (λ u. flies_as t.cmd_id u.cmd_id u.phase) c.tasks i e,
    );
  }

  put-Inv :
      (i : ℕ) {t : Task} (s' : Shared) (t' : Task)
      → get_elem? c.tasks i ≡ some t
      → Effect limits c.shared t s' t'
      → Inv limits (record { shared = s'; tasks = set c.tasks i t' })
  put-Inv i {t} s' t' e f = record {
    valid = f.valid;
    waiters = omega (arith, v.waiters, f.waiters, sum-set (λ t. waits t.phase) c.tasks i t' e);
    capped = omega (arith, v.capped, f.no_new_waiter);
    units = omega (arith, v.units, f.units_moved, sum-set (λ t. flies t.phase) c.tasks i t' e);
    refs_held = λ j. ground (
      arith,
      v.refs_held j,
      f.refs_moved j,
      sum-set (λ u. flies_as j u.cmd_id u.phase) c.tasks i t' e,
    );
    bounded_global = f.bounded_global v.bounded_global;
    bounded_heavy = f.bounded_heavy v.bounded_heavy;
    sleepers =
        All-set _ c.tasks i t'
          (All-map _ _ c.tasks
            (λ u. Sleeps-mono limits c.shared.inflight s'.inflight u.phase f.wakes) v.sleepers)
          f.sleeps;
  }

  -- A new command joins the waiters, or only its busy reply is sent.
  receive-Inv : (cmd_id cmd_type : Text) → Inv limits (receive c cmd_id cmd_type)
  unfolding receive
  receive-Inv cmd_id cmd_type =
      elim (Bool-cases (leb max_pending_slot_waiters c.shared.pending_waiters)) [
        | inl full ↦ rw full (record {
          valid = v.valid;
          waiters = v.waiters;
          capped = v.capped;
          units = v.units;
          refs_held = v.refs_held;
          bounded_global = v.bounded_global;
          bounded_heavy = v.bounded_heavy;
          sleepers = v.sleepers;
        })
        | inr room ↦ rw room (record {
          valid = v.valid;
          waiters = omega (arith, v.waiters, sum-append (λ t. waits t.phase) c.tasks (task ∷ []));
          capped = ground arith;
          units = omega (arith, v.units, sum-append (λ t. flies t.phase) c.tasks (task ∷ []));
          refs_held = λ j. ground (
            arith,
            v.refs_held j,
            sum-append (λ t. flies_as j t.cmd_id t.phase) c.tasks (task ∷ []),
          );
          bounded_global = v.bounded_global;
          bounded_heavy = v.bounded_heavy;
          sleepers = All-append _ c.tasks (task ∷ []) v.sleepers (tt, tt);
        })
      ]
    where
      task : Task
      task = record { cmd_id = cmd_id; cmd_type = cmd_type; phase = waiting }

  act-Inv : (i : ℕ) (a : Action) {d : System} → step limits c (act i a) ≡ some d → Inv limits d
  unfolding step put_task
  act-Inv i a {d} e = elim (Option-cases (get_elem? c.tasks i)) [
    | inl gone ↦ cc
    | inr (t, found) ↦ acted t found
  ]
    where
      acted : (t : Task) → get_elem? c.tasks i ≡ some t → Inv limits d
      acted t found = elim (Option-cases (dispatch_one limits c.shared t t.phase a)) [
        | inl stuck ↦ ground arith
        | inr (r, moved) ↦ subst (Inv limits) (ground arith) (
            put-Inv i r.0 r.1 found
              (dispatch_one-Effect limits c.shared t a (Holds-of i found) moved))
      ]

  tick-Inv : (n : ℕ) → Inv limits (record c { shared = record c.shared { now = c.shared.now + n } })
  tick-Inv n = record {
    valid = v.valid;
    waiters = v.waiters;
    capped = v.capped;
    units = v.units;
    refs_held = v.refs_held;
    bounded_global = v.bounded_global;
    bounded_heavy = v.bounded_heavy;
    sleepers = v.sleepers;
  }

  step-Inv : (e : Event) {d : System} → step limits c e ≡ some d → Inv limits d
  unfolding step
  step-Inv (tick n) e = subst (Inv limits) (some-injective _ _ e) (tick-Inv n)
  step-Inv (command cmd_id cmd_type) e =
      subst (Inv limits) (some-injective _ _ e) (receive-Inv cmd_id cmd_type)
  step-Inv (act i a) e = act-Inv i a e

-- A step of one goroutine, from its `dispatchOne`.
pub step-act :
    (limits : Limits) (c : System) (i : ℕ) (a : Action) {t : Task} {s' : Shared} {t' : Task}
    → get_elem? c.tasks i ≡ some t
    → dispatch_one limits c.shared t t.phase a ≡ some (s', t')
    → step limits c (act i a) ≡ some (record { shared = s'; tasks = set c.tasks i t' })
unfolding step put_task
step-act limits c i a found moved = ground arith

-- Every state.
pub Reach-Inv : (limits : Limits) (start : ℕ) {c : System} → Reach limits start c → Inv limits c
Reach-Inv limits start here = new_client-Inv limits start
Reach-Inv limits start (next {c} e r s) = step-Inv limits c (Reach-Inv limits start r) e s
