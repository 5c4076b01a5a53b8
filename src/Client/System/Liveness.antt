-- ===== src/Client/System/Liveness.antt =====
-- client/ws_client.go: no goroutine of the dispatch system can be stuck for good.
use vectrify_agent_runner.Base.{
  ℕ, zero, suc, ◌<◌, ◌≡◌, refl, ◌⊎◌, inl, inr, some, List, [], ◌∷◌, arith, All, sum, get_elem?, set,
  sum-set,
}
use native.Mathlib.Decide.{dec_lt}
use vectrify_agent_runner.Client.Registry.{Attempt, count}
use vectrify_agent_runner.Client.Registry.Counts.{count-active}
use vectrify_agent_runner.Client.Waiters.{Limits}
use vectrify_agent_runner.Client.System.{
  Phase, waiting, asleep, admitted, refused, rejecting, running, leaving, done, Task, Shared,
  System, Reach, next, Action, act, attempt, time_out, let_go, reply, finish, leave, step,
  dispatch_one, attempted,
}
use vectrify_agent_runner.Client.System.Invariant.{Reach-Inv, step-act, waiting_tasks, flying_tasks}

-- How many steps a goroutine has ahead of it at most, if every one of its waits ends.
rank : Phase → ℕ
rank waiting = 5
rank (asleep by g h w) = 4
rank (admitted d) = 3
rank (refused by g h) = 3
rank (rejecting by g h) = 2
rank running = 2
rank leaving = 1
rank done = 0

-- A step that is open to a goroutine: in `select`, that the context is done.
next_action : Phase → Action
next_action waiting = attempt
next_action (asleep by g h w) = time_out
next_action (admitted d) = let_go
next_action (refused by g h) = let_go
next_action (rejecting by g h) = reply
next_action running = finish
next_action leaving = leave
next_action done = leave

attempted-rank : (s : Shared) (t : Task) (a : Attempt) → rank (attempted s t a).1.phase < 5
unfolding attempted rank
attempted-rank s t (Attempt.admitted d r) = omega arith
attempted-rank s t (Attempt.blocked by g h w) = omega arith

dispatch_one-progress :
    (limits : Limits) (s : Shared) (t : Task) (p : Phase)
    → 0 < rank p
    → (r : Shared × Task) × (dispatch_one limits s t p (next_action p) ≡ some r)
      × (rank r.1.phase < rank p)
unfolding rank next_action dispatch_one
dispatch_one-progress limits s t waiting h = (_, refl, attempted-rank s t _)
dispatch_one-progress limits s t (asleep by g b w) h = (_, refl, omega arith)
dispatch_one-progress limits s t (admitted d) h = (_, refl, omega arith)
dispatch_one-progress limits s t (refused by g b) h = (_, refl, omega arith)
dispatch_one-progress limits s t (rejecting by g b) h = (_, refl, omega arith)
dispatch_one-progress limits s t running h = (_, refl, omega arith)
dispatch_one-progress limits s t leaving h = (_, refl, omega arith)
dispatch_one-progress limits s t done h = absurd (omega arith)

abbrev ranks : List Task → ℕ
ranks = sum (λ t. rank t.phase)

busy_task :
    (ts : List Task)
    → (ranks ts ≡ 0) ⊎ ((i : ℕ) × (t : Task) × (get_elem? ts i ≡ some t) × (0 < rank t.phase))
busy_task [] = inl refl
busy_task (t ∷ ts) = elim (dec_lt 0 (rank t.phase)) [
  | yes h ↦ inr (0, t, refl, h)
  | no h ↦ elim (busy_task ts) [
    | inl e ↦ inl (omega arith)
    | inr (i, u, e, k) ↦ inr (suc i, u, e, k)
  ]
]

-- A run of goroutine steps, with no new command.
pub data Runs (limits : Limits) : System → System → Type 0 where
  stay : {c : System} → Runs limits c c
  go :
      {c d e : System} (i : ℕ) (a : Action)
      → step limits c (act i a) ≡ some d
      → Runs limits d e
      → Runs limits c e

rank-done : (p : Phase) → rank p ≡ 0 → p ≡ done
unfolding rank
rank-done done h = refl
rank-done _ h = ground arith

All-done : (ts : List Task) → ranks ts ≡ 0 → All (λ t. t.phase ≡ done) ts
All-done [] h = tt
All-done (t ∷ ts) h = (rank-done t.phase (omega arith), All-done ts (omega arith))

done-idle :
    (ts : List Task) → All (λ t. t.phase ≡ done) ts → (waiting_tasks ts ≡ 0) × (flying_tasks ts ≡ 0)
done-idle [] h = (refl, refl)
done-idle (t ∷ ts) h = ground (arith, done-idle ts h.1)

-- One more step of the goroutine `t`, and what is left to do shrinks.
closer :
    (limits : Limits) (c : System) (i : ℕ) (t : Task)
    → get_elem? c.tasks i ≡ some t
    → 0 < rank t.phase
    → (d : System) × (step limits c (act i (next_action t.phase)) ≡ some d)
      × (ranks d.tasks < ranks c.tasks)
closer limits c i t found k =
    let (r, e, less) = dispatch_one-progress limits c.shared t t.phase k in
    (
      record { shared = r.0; tasks = set c.tasks i r.1 },
      step-act limits c i (next_action t.phase) found e,
      omega (arith, sum-set (λ u. rank u.phase) c.tasks i r.1 found),
    )

Runs-down :
    (limits : Limits) (n : ℕ) (c : System)
    → ranks c.tasks < n
    → (d : System) × Runs limits c d × (ranks d.tasks ≡ 0)
Runs-down limits zero c h = absurd (omega arith)
Runs-down limits (suc n) c h = elim (busy_task c.tasks) [
  | inl e ↦ (c, stay, e)
  | inr (i, t, found, k) ↦
      let (d, s, less) = closer limits c i t found k in
      let (e, runs, e0) = Runs-down limits n d (omega arith) in
      (e, go i (next_action t.phase) s runs, e0)
]

Runs-Reach :
    (limits : Limits) (start : ℕ) {c d : System}
    → Reach limits start c
    → Runs limits c d
    → Reach limits start d
Runs-Reach limits start r stay = r
Runs-Reach limits start r (go i a s runs) = Runs-Reach limits start (next (act i a) r s) runs

-- From every reachable state the goroutines can run on, with no new command, to a state in which
-- each of them has ended, nothing is in flight and nobody waits: no lock, wait or counter keeps
-- one of them for good once its command returns, and its wait for a slot times out.
pub Reach-quiesces :
    (limits : Limits) (start : ℕ) {c : System}
    → Reach limits start c
    → (d : System) × Runs limits c d
      × All (λ t. t.phase ≡ done) d.tasks
      × (count d.shared.inflight ≡ 0)
      × (d.shared.pending_waiters ≡ 0)
Reach-quiesces limits start {c} r =
    let (d, runs, e) = Runs-down limits (suc (ranks c.tasks)) c (omega arith) in
    let v = Reach-Inv limits start (Runs-Reach limits start r runs) in
    let idle = done-idle d.tasks (All-done d.tasks e) in
    (
      d,
      runs,
      All-done d.tasks e,
      omega (arith, v.units, idle, count-active d.shared.inflight),
      omega (arith, v.waiters, idle),
    )
