-- ===== src/Client/System/Races.antt =====
-- client/ws_client.go, `Drain` and `Activity` against the goroutines of `dispatchOne`: what the two
-- readers can see when a goroutine moves between their reads, or before its last deferred call.
use vectrify_agent_runner.Base.{
  ℕ, ◌<◌, ◌≡◌, refl, inl, inr, Bool, true, false, ◌&&◌, some, arith, get_elem?, set, ◌==◌, lookup,
  Option-cases, get_elem?-set_self,
}
use vectrify_agent_runner.Client.Registry.{Registry, Attempt, count, try_acquire, remove}
use vectrify_agent_runner.Client.Registry.Counts.{active, active_split, count-active}
use vectrify_agent_runner.Client.Registry.Laws.{remove-active}
use vectrify_agent_runner.Client.Registry.Capacity.{is_admitted, Admits-try_acquire}
use vectrify_agent_runner.Client.Waiters.{Limits, release_waiter}
use vectrify_agent_runner.Client.System.{
  waiting, admitted, running, leaving, Task, Shared, System, Reach, next, activity, act, attempt,
  let_go, finish, step, dispatch_one,
}
use vectrify_agent_runner.Client.System.Invariant.{Reach-Inv, Holds-of, step-act}

-- The test in the loop of `Drain`: `inflight.count()` is read in one state, and then
-- `pendingWaiterCount()` in another that goroutines have made of it.
unfoldable pub drained : Shared → Shared → Bool
drained s s' = (count s.inflight == 0) && (s'.pending_waiters == 0)

module _ (limits : Limits) (start : ℕ) {c : System} (r : Reach limits start c) (i : ℕ) {t : Task}
    (found : get_elem? c.tasks i ≡ some t) where
  won : (duplicate : Bool) → Registry → System
  won duplicate r' = record {
    shared = record c.shared { inflight = r' };
    tasks = set c.tasks i (record t { phase = admitted duplicate });
  }

  started : (duplicate : Bool) → Registry → System
  started duplicate r' = record {
    shared = record c.shared {
      inflight = r';
      pending_waiters = release_waiter c.shared.pending_waiters;
    };
    tasks =
        set (set c.tasks i (record t { phase = admitted duplicate })) i
          (record t { phase = running });
  }

  started-Reach :
      (duplicate : Bool) (r' : Registry)
      → t.phase ≡ waiting
      → try_acquire c.shared.inflight c.shared.now t.cmd_id t.cmd_type limits.max_concurrency
          limits.max_heavy_concurrency
        ≡ Attempt.admitted duplicate r'
      → Reach limits start (started duplicate r')
  unfolding won started dispatch_one
  started-Reach duplicate r' p e =
      next (act i let_go)
        (next (act i attempt) r
          (step-act limits c i attempt found (rw (p, dispatch_one) (rw e refl))))
        (step-act limits (won duplicate r') i let_go
          (get_elem?-set_self c.tasks i (record t { phase = admitted duplicate }) found) refl)

  started_task :
      (duplicate : Bool) (r' : Registry)
      → get_elem? (started duplicate r').tasks i ≡ some (record t { phase = running })
  unfolding started
  started_task duplicate r' =
      get_elem?-set_self (set c.tasks i (record t { phase = admitted duplicate })) i
        (record t { phase = running })
        (get_elem?-set_self c.tasks i (record t { phase = admitted duplicate }) found)

  -- Whatever is reserved, if there is room when nothing is in flight.
  room :
      count c.shared.inflight ≡ 0
      → 0 < limits.max_concurrency
      → 0 < limits.max_heavy_concurrency
      → is_admitted (
          try_acquire c.shared.inflight c.shared.now t.cmd_id t.cmd_type limits.max_concurrency
            limits.max_heavy_concurrency)
        ≡ true
  room n g h =
      Admits-try_acquire c.shared.inflight c.shared.now t.cmd_id t.cmd_type limits.max_concurrency
        limits.max_heavy_concurrency
        (record {
          global_room = omega (arith, count-active c.shared.inflight);
          heavy_room =
              λ _. omega (arith, count-active c.shared.inflight, active_split c.shared.inflight);
        })

  missed :
      (a : Attempt)
      → try_acquire c.shared.inflight c.shared.now t.cmd_id t.cmd_type limits.max_concurrency
          limits.max_heavy_concurrency
        ≡ a
      → is_admitted a ≡ true
      → t.phase ≡ waiting
      → count c.shared.inflight ≡ 0
      → c.shared.pending_waiters ≡ 1
      → (d : System) × Reach limits start d
        × (drained c.shared d.shared ≡ true)
        × (get_elem? d.tasks i ≡ some (record t { phase = running }))
  unfolding drained started release_waiter
  missed (Attempt.admitted duplicate r') e _ p n w = (
    started duplicate r',
    started-Reach duplicate r' p e,
    ground arith,
    started_task duplicate r',
  )
  missed (Attempt.blocked by g h w) e a p n k = cc

  -- `Drain` and `Activity` read `count` first and `pendingWaiterCount` after it. In every reachable
  -- state with nothing in flight and one waiting goroutine, under limits of at least 1, that
  -- goroutine can win its slot and give its waiter slot back between the two reads: both reads
  -- give 0 while it runs `dispatchFunc`, so that `Drain` returns with a command in flight.
  pub drained-misses :
      t.phase ≡ waiting
      → count c.shared.inflight ≡ 0
      → c.shared.pending_waiters ≡ 1
      → 0 < limits.max_concurrency
      → 0 < limits.max_heavy_concurrency
      → (d : System) × Reach limits start d
        × (drained c.shared d.shared ≡ true)
        × (get_elem? d.tasks i ≡ some (record t { phase = running }))
  drained-misses p n w g h = missed _ refl (room n g h) p n w

  last_removed : System
  last_removed = record {
    shared = record c.shared { inflight = remove c.shared.inflight t.cmd_id };
    tasks = set c.tasks i (record t { phase = leaving });
  }

  last_removed-step : t.phase ≡ running → step limits c (act i finish) ≡ some last_removed
  unfolding last_removed dispatch_one
  last_removed-step p = step-act limits c i finish found (rw (p, dispatch_one) refl)

  last_removed-count :
      t.phase ≡ running → count c.shared.inflight ≡ 1 → active last_removed.shared.inflight ≡ 0
  unfolding last_removed
  last_removed-count p n =
      let h = Holds-of limits c (Reach-Inv limits start r) i found in
      elim (Option-cases (lookup t.cmd_id c.shared.inflight.entries)) [
        | inl gone ↦ absurd (ground (arith, h.unit))
        | inr (e, l) ↦ omega (
          arith,
          remove-active c.shared.inflight t.cmd_id h.valid l,
          count-active c.shared.inflight,
        )
      ]

  -- `touch` is the last deferred call, after `remove`. In every reachable state whose only command
  -- runs and nobody waits, the step in which it ends leads to a state in which `Activity` says
  -- that the runner is not busy and still gives the time of activity from before the command
  -- ended.
  pub activity-gap :
      t.phase ≡ running
      → count c.shared.inflight ≡ 1
      → c.shared.pending_waiters ≡ 0
      → (d : System) × (step limits c (act i finish) ≡ some d)
        × (activity d.shared ≡ (false, (activity c.shared).1))
  unfolding activity last_removed
  activity-gap p n w = (
    last_removed,
    last_removed-step p,
    ground (arith, last_removed-count p n, count-active (remove c.shared.inflight t.cmd_id)),
  )
