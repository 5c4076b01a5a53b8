-- ===== src/Client/System/Guarantees.antt =====
-- client/ws_client.go and client/inflight.go: what holds in every state that the dispatch system
-- reaches, whatever the order in which its goroutines run.
use vectrify_agent_runner.Base.{
  ℕ, zero, suc, ◌≤◌, ◌≡◌, subst, false, some, List, [], ◌∷◌, arith, All, get_elem?,
}
use mathlib.Core.Option.{some-injective}
use vectrify_agent_runner.Client.Registry.{Limit, count}
use vectrify_agent_runner.Client.Registry.Counts.{active, active_heavy, count-active}
use vectrify_agent_runner.Client.Waiters.{Limits, max_pending_slot_waiters}
use vectrify_agent_runner.Client.System.{Phase, asleep, Task, System, Reach, activity}
use vectrify_agent_runner.Client.System.Effects.{waits, flies, Sleeps}
use vectrify_agent_runner.Client.System.Invariant.{Reach-Inv, waiting_tasks, flying_tasks}

-- In every reachable state `count` is the number of goroutines that have won a slot and not yet
-- given it back, and is at most the concurrency limit; the units of heavy commands are at most the
-- heavy limit; `pendingWaiters` is the number of goroutines that still hold a waiter slot, and is
-- at most 64.
pub Reach-counted :
    (limits : Limits) (start : ℕ) {c : System}
    → Reach limits start c
    → (count c.shared.inflight ≡ flying_tasks c.tasks)
      × (count c.shared.inflight ≤ limits.max_concurrency)
      × (active_heavy c.shared.inflight ≤ limits.max_heavy_concurrency)
      × (c.shared.pending_waiters ≡ waiting_tasks c.tasks)
      × (c.shared.pending_waiters ≤ max_pending_slot_waiters)
Reach-counted limits start {c} r =
    let v = Reach-Inv limits start r in ground (arith, count-active c.shared.inflight)

-- The goroutine neither waits for a slot nor holds one.
abbrev pub IsPast : Phase → Type 0
IsPast p = (waits p ≡ 0) × (flies p ≡ 0)

All-IsPast :
    (ts : List Task) → waiting_tasks ts ≡ 0 → flying_tasks ts ≡ 0 → All (λ t. IsPast t.phase) ts
All-IsPast [] w f = tt
All-IsPast (t ∷ ts) w f = ((omega arith, omega arith), All-IsPast ts (omega arith) (omega arith))

-- The test of `Drain` and `Activity`, made at one moment: in a reachable state in which `count` and
-- `pendingWaiters` are both 0 no goroutine waits for a slot, and none is in `dispatchFunc`.
pub idle-IsPast :
    (limits : Limits) (start : ℕ) {c : System}
    → Reach limits start c
    → (activity c.shared).0 ≡ false
    → All (λ t. IsPast t.phase) c.tasks
unfolding activity
idle-IsPast limits start {c} r e =
    let v = Reach-Inv limits start r in
    All-IsPast c.tasks (ground (arith, count-active c.shared.inflight))
      (ground (arith, count-active c.shared.inflight))

All-get :
    (P : Task → Type 0) (ts : List Task) (i : ℕ) {t : Task}
    → All P ts
    → get_elem? ts i ≡ some t
    → P t
All-get P [] i h e = cc
All-get P (t ∷ ts) zero h e = subst P (some-injective _ _ e) h.0
All-get P (t ∷ ts) (suc i) h e = All-get P ts i h.1 e

-- No wakeup is missed: in every reachable state, while the channel that a sleeping goroutine waits
-- on is still the registry's, the limit that sent it to sleep is still reached.
pub asleep-limit :
    (limits : Limits) (start : ℕ) {c : System} (i : ℕ) {t : Task} {by : Limit} {g h w : ℕ}
    → Reach limits start c
    → get_elem? c.tasks i ≡ some t
    → t.phase ≡ asleep by g h w
    → w ≡ c.shared.inflight.wait_ch
    → (by ≡ Limit.heavy → limits.max_heavy_concurrency ≤ active_heavy c.shared.inflight)
      × (by ≡ Limit.global → limits.max_concurrency ≤ active c.shared.inflight)
asleep-limit limits start {c} i r e p o =
    let v = Reach-Inv limits start r in
    let z = subst (Sleeps limits c.shared.inflight) p (All-get _ c.tasks i v.sleepers e) in
    (z.1 o, z.2 o)
