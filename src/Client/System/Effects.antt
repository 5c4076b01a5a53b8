-- ===== src/Client/System/Effects.antt =====
-- What one step of a hand-off goroutine does to the registry, the waiters and the goroutine itself.
use vectrify_agent_runner.Base.{
  ℕ, ◌+◌, ◌≤◌, ◌<◌, ◌≡◌, refl, sym, subst, ◌⊎◌, inl, inr, Bool, true, false, Option, none, some,
  Text, text_eq, ◌==◌, if◌then◌else◌, arith, lookup, Option-cases,
}
use vectrify_agent_runner.Client.Registry.{Registry, Attempt, Limit, Entry, try_acquire}
use vectrify_agent_runner.Client.Registry.Counts.{active, active_heavy}
use vectrify_agent_runner.Client.Registry.Laws.{
  IsValid, refs, try_acquire-admitted, try_acquire-blocked, admit-active, admit-refs, admit-IsValid,
  remove-active, remove-refs, remove-IsValid,
}
use vectrify_agent_runner.Client.Waiters.{Limits, release_waiter}
use vectrify_agent_runner.Client.System.{
  Phase, waiting, asleep, admitted, refused, rejecting, running, leaving, done, Task, Shared,
  Action, attempt, wake, time_out, let_go, reply, finish, panic, leave, dispatch_one, removed,
  attempted, let_waiter_go,
}

-- 1 while the goroutine holds one of the waiter slots.
abbrev pub waits : Phase → ℕ
waits waiting = 1
waits (asleep by g h w) = 1
waits (admitted d) = 1
waits (refused by g h) = 1
waits _ = 0

-- 1 while the goroutine holds a unit of the registry.
abbrev pub flies : Phase → ℕ
flies (admitted d) = 1
flies running = 1
flies _ = 0

abbrev pub flies_as : Text → Text → Phase → ℕ
flies_as j cmd_id p = if text_eq cmd_id j then flies p else 0

-- The condition that sent a sleeper to sleep still holds while its channel is open.
abbrev pub Sleeps : Limits → Registry → Phase → Type 0
Sleeps limits r (asleep by g h w) =
    (w ≤ r.wait_ch)
    × (w ≡ r.wait_ch → by ≡ Limit.heavy → limits.max_heavy_concurrency ≤ active_heavy r)
    × (w ≡ r.wait_ch → by ≡ Limit.global → limits.max_concurrency ≤ active r)
Sleeps limits r _ = Unit {0}

-- The registry has woken the sleepers, or its counts have not fallen.
abbrev pub Wakes : Registry → Registry → Type 0
Wakes r r' =
    (r.wait_ch < r'.wait_ch)
    ⊎ ((r'.wait_ch ≡ r.wait_ch) × (active r ≤ active r') × (active_heavy r ≤ active_heavy r'))

pub record Effect (limits : Limits) (s : Shared) (t : Task) (s' : Shared) (t' : Task) : Type 0 where
  pub same_id : t'.cmd_id ≡ t.cmd_id
  pub valid : IsValid s'.inflight
  pub waiters : s'.pending_waiters + waits t.phase ≡ s.pending_waiters + waits t'.phase
  pub no_new_waiter : s'.pending_waiters ≤ s.pending_waiters
  pub units_moved : active s'.inflight + flies t.phase ≡ active s.inflight + flies t'.phase
  pub refs_moved :
      (j : Text)
      → refs j s'.inflight + flies_as j t.cmd_id t.phase
        ≡ refs j s.inflight + flies_as j t.cmd_id t'.phase
  pub bounded_global :
      active s.inflight ≤ limits.max_concurrency → active s'.inflight ≤ limits.max_concurrency
  pub bounded_heavy :
      active_heavy s.inflight ≤ limits.max_heavy_concurrency
      → active_heavy s'.inflight ≤ limits.max_heavy_concurrency
  pub wakes : Wakes s.inflight s'.inflight
  pub sleeps : Sleeps limits s'.inflight t'.phase

-- What a step may rely on: the goroutine's own share of the counters is in them.
pub record Holds (s : Shared) (t : Task) : Type 0 where
  pub valid : IsValid s.inflight
  pub waiter : waits t.phase ≤ s.pending_waiters
  pub unit : flies t.phase ≤ refs t.cmd_id s.inflight

module _ (limits : Limits) (s : Shared) (t : Task) (h : Holds s t) where
  -- A step that leaves the registry alone.
  Effect-kept :
      (s' : Shared) (p : Phase)
      → s'.inflight ≡ s.inflight
      → s'.pending_waiters + waits t.phase ≡ s.pending_waiters + waits p
      → waits p ≤ waits t.phase
      → flies t.phase ≡ flies p
      → Sleeps limits s.inflight p
      → Effect limits s t s' (record t { phase = p })
  Effect-kept s' p e w l f z = record {
    same_id = refl;
    valid = subst IsValid (sym e) h.valid;
    waiters = w;
    no_new_waiter = omega arith;
    units_moved = ground arith;
    refs_moved = λ j. ground arith;
    bounded_global = ground arith;
    bounded_heavy = ground arith;
    wakes = inr (ground arith);
    sleeps = subst (λ r. Sleeps limits r p) (sym e) z;
  }

  Effect-acquired :
      (d : Bool) (r' : Registry)
      → t.phase ≡ waiting
      → try_acquire s.inflight s.now t.cmd_id t.cmd_type limits.max_concurrency
          limits.max_heavy_concurrency
        ≡ Attempt.admitted d r'
      → Effect limits s t (record s { inflight = r' }) (record t { phase = admitted d })
  Effect-acquired d r' p e =
      let (a, q) =
        try_acquire-admitted s.inflight s.now t.cmd_id t.cmd_type limits.max_concurrency
          limits.max_heavy_concurrency e in
      let (up, up_heavy, same) = admit-active s.inflight s.now t.cmd_id t.cmd_type _ refl q in
      record {
        same_id = refl;
        valid = admit-IsValid s.inflight s.now t.cmd_id t.cmd_type _ refl q h.valid;
        waiters = ground arith;
        no_new_waiter = ground arith;
        units_moved = ground arith;
        refs_moved =
            λ j. ground (arith, admit-refs s.inflight s.now t.cmd_id t.cmd_type _ refl q j);
        bounded_global = λ b. ground arith;
        bounded_heavy = λ b. ground arith;
        wakes = inr (ground arith);
        sleeps = tt;
      }

  Effect-removed :
      t.phase ≡ running
      → (x : Entry) → lookup t.cmd_id s.inflight.entries ≡ some x
      → Effect limits s t (removed s t).0 (removed s t).1
  unfolding removed
  Effect-removed p x l =
      let (down, down_heavy, woken) = remove-active s.inflight t.cmd_id h.valid l in
      record {
        same_id = refl;
        valid = remove-IsValid s.inflight t.cmd_id h.valid l;
        waiters = ground arith;
        no_new_waiter = ground arith;
        units_moved = ground arith;
        refs_moved = λ j. ground (arith, remove-refs s.inflight t.cmd_id h.valid l j);
        bounded_global = λ b. ground arith;
        bounded_heavy = λ b. ground arith;
        wakes = inl (ground arith);
        sleeps = tt;
      }

  Effect-asleep :
      (by : Limit) (g b w : ℕ)
      → t.phase ≡ waiting
      → try_acquire s.inflight s.now t.cmd_id t.cmd_type limits.max_concurrency
          limits.max_heavy_concurrency
        ≡ Attempt.blocked by g b w
      → Effect limits s t s (record t { phase = asleep by g b w })
  Effect-asleep by g b w p e =
      let full =
        try_acquire-blocked s.inflight s.now t.cmd_id t.cmd_type limits.max_concurrency
          limits.max_heavy_concurrency e in
      Effect-kept s (asleep by g b w) refl (ground arith) (ground arith) (ground arith)
        (ground arith, λ _ c. ground (arith, full.3 c), λ _ c. ground (arith, full.4 c))

  Effect-attempted :
      (r : Attempt)
      → t.phase ≡ waiting
      → try_acquire s.inflight s.now t.cmd_id t.cmd_type limits.max_concurrency
          limits.max_heavy_concurrency
        ≡ r
      → Effect limits s t (attempted s t r).0 (attempted s t r).1
  unfolding attempted
  Effect-attempted (Attempt.admitted d r') p e = Effect-acquired d r' p e
  Effect-attempted (Attempt.blocked by g b w) p e = Effect-asleep by g b w p e

  -- A waiter slot is given back, and nothing else moves.
  Effect-let_go :
      (p : Phase)
      → waits t.phase ≡ 1
      → waits p ≡ 0
      → flies t.phase ≡ flies p
      → Sleeps limits s.inflight p
      → Effect limits s t (let_waiter_go s t p).0 (let_waiter_go s t p).1
  unfolding let_waiter_go release_waiter
  Effect-let_go p held free f z = Effect-kept _ p refl (ground (arith, h.waiter)) (omega arith) f z

  Effect-finished : t.phase ≡ running → Effect limits s t (removed s t).0 (removed s t).1
  Effect-finished p = elim (Option-cases (lookup t.cmd_id s.inflight.entries)) [
    | inl gone ↦ absurd (ground (arith, h.unit, gone))
    | inr (x, l) ↦ Effect-removed p x l
  ]

-- The result of a step, if there is one, has the effect.
abbrev Effects : Limits → Shared → Task → Option (Shared × Task) → Type 0
Effects limits s t none = Unit {0}
Effects limits s t (some (s', t')) = Effect limits s t s' t'

Effects-if :
    (limits : Limits) (s : Shared) (t : Task) (b : Bool) (r : Shared × Task)
    → Effect limits s t r.0 r.1
    → Effects limits s t (if b then none else some r)
Effects-if limits s t true r e = tt
Effects-if limits s t false r e = e

dispatch_one-Effects :
    (limits : Limits) (s : Shared) (t : Task) (p : Phase) (a : Action)
    → Holds s t
    → t.phase ≡ p
    → Effects limits s t (dispatch_one limits s t p a)
unfolding dispatch_one
dispatch_one-Effects limits s t waiting attempt h e = Effect-attempted limits s t h _ e refl
dispatch_one-Effects limits s t waiting panic h e =
    Effect-let_go limits s t h leaving (ground arith) refl (ground arith) tt
dispatch_one-Effects limits s t (asleep by g b w) wake h e =
    Effects-if limits s t (w == s.inflight.wait_ch) _
      (Effect-kept limits s t h s waiting refl (ground arith) (ground arith) (ground arith) tt)
dispatch_one-Effects limits s t (asleep by g b w) time_out h e =
    Effect-kept limits s t h s (refused by g b) refl (ground arith) (ground arith) (ground arith) tt
dispatch_one-Effects limits s t (admitted d) let_go h e =
    Effect-let_go limits s t h running (ground arith) refl (ground arith) tt
dispatch_one-Effects limits s t (refused by g b) let_go h e =
    Effect-let_go limits s t h (rejecting by g b) (ground arith) refl (ground arith) tt
dispatch_one-Effects limits s t (rejecting by g b) reply h e =
    Effect-kept limits s t h _ leaving refl (ground arith) (ground arith) (ground arith) tt
dispatch_one-Effects limits s t running finish h e = Effect-finished limits s t h e
dispatch_one-Effects limits s t running panic h e = Effect-finished limits s t h e
dispatch_one-Effects limits s t leaving leave h e =
    Effect-kept limits s t h _ done refl (ground arith) (ground arith) (ground arith) tt
dispatch_one-Effects limits s t _ _ h e = tt

-- Every step of a hand-off goroutine that holds its share of the counters moves the counters with
-- the goroutine's phase.
pub dispatch_one-Effect :
    (limits : Limits) (s : Shared) (t : Task) (a : Action) {s' : Shared} {t' : Task}
    → Holds s t
    → dispatch_one limits s t t.phase a ≡ some (s', t')
    → Effect limits s t s' t'
dispatch_one-Effect limits s t a h e =
    subst (Effects limits s t) e (dispatch_one-Effects limits s t t.phase a h refl)
