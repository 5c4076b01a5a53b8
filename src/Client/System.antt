-- ===== src/Client/System.antt =====
-- client/ws_client.go: the receive loop and the hand-off goroutines of `dispatchOne` as a system of
-- interleaved steps. A step is what one goroutine does between two points at which others may run:
-- the body of a lock, or a wait that ends. Times are nanoseconds of one clock that never goes back.
pub mod Effects
pub mod Invariant
pub mod Guarantees
pub mod Liveness
pub mod Races
mod Tests
use mathlib.Core.Option.{some-injective}
use vectrify_agent_runner.Base.{
  ℕ, ◌+◌, ◌≡◌, subst, arith, inl, inr, Option-cases, Bool, true, false, ◌||◌, Option, none, some,
  List, [], ◌∷◌, ◌++◌, Text, ◌==◌, ltb, lookup, insert, erase, text_eq, if◌then◌else◌, get_elem?,
  set,
}
use vectrify_agent_runner.Client.Registry.{
  Registry, Attempt, Limit, new_registry, count, counts_locked, try_acquire, remove,
}
use vectrify_agent_runner.Client.Registry
use vectrify_agent_runner.Client.Classify.{classify_command}
use vectrify_agent_runner.Client.Waiters.{
  Limits, Message, waiters_full, busy_message, max_pending_slot_waiters, try_reserve_waiter,
  release_waiter,
}

-- Where a hand-off goroutine stands in `dispatchOne`.
pub data Phase : Type 0 where
  -- at the head of the loop of `acquire`
  waiting : Phase
  -- in the `select` of `acquire`, with the reason, the counts and the channel of its last check
  asleep : Limit → ℕ → ℕ → ℕ → Phase
  -- `acquire` has returned a slot (a duplicate's, perhaps), and `releaseWaiterOnce` is still to come
  admitted : Bool → Phase
  -- `acquire` has given up, and `releaseWaiterOnce` is still to come
  refused : Limit → ℕ → ℕ → Phase
  -- the busy reply is to be sent
  rejecting : Limit → ℕ → ℕ → Phase
  -- in `dispatchFunc`
  running : Phase
  -- the deferred calls have run but for the last, `touch`
  leaving : Phase
  done : Phase

pub record Task : Type 0 where
  pub cmd_id : Text
  pub cmd_type : Text
  pub phase : Phase

pub record ErrorMsg : Type 0 where
  pub cmd_id : Text
  pub message : Message

-- The fields of `Client` that goroutines share, the clock, and the error replies sent so far.
pub record Shared : Type 0 where
  pub inflight : Registry
  pub pending_waiters : ℕ
  pub last_active : ℕ
  pub now : ℕ
  pub sent : List ErrorMsg

unfoldable pub touch : Shared → Shared
touch s = record s { last_active = s.now }

pub data Action : Type 0 where
  attempt wake time_out let_go reply finish panic leave : Action

-- The outcome of one round of `acquire`, as the goroutine's next phase.
unfoldable pub attempted : Shared → Task → Attempt → Shared × Task
attempted s t (Attempt.admitted duplicate r) =
    (record s { inflight = r }, record t { phase = admitted duplicate })
attempted s t (Attempt.blocked by active heavy wait_ch) =
    (s, record t { phase = asleep by active heavy wait_ch })

-- `releaseWaiterOnce`, on to the phase `p`.
unfoldable pub let_waiter_go : Shared → Task → Phase → Shared × Task
let_waiter_go s t p =
    (record s { pending_waiters = release_waiter s.pending_waiters }, record t { phase = p })

-- The deferred `remove`: after `dispatchFunc` has returned, and after it has panicked.
unfoldable pub removed : Shared → Task → Shared × Task
removed s t = (record s { inflight = remove s.inflight t.cmd_id }, record t { phase = leaving })

unfoldable pub rejected : Limits → Shared → Task → Limit → ℕ → ℕ → Shared × Task
rejected limits s t by active heavy = (
  record s {
    sent =
        s.sent ++ record { cmd_id = t.cmd_id; message = busy_message limits by active heavy } ∷ [];
  },
  record t { phase = leaving },
)

-- `dispatchOne`, one step at a time. A panic before `acquire` has returned releases the waiter; one
-- in `dispatchFunc` leaves as a return does.
unfoldable pub dispatch_one : Limits → Shared → Task → Phase → Action → Option (Shared × Task)
unfolding attempted let_waiter_go removed rejected touch
dispatch_one limits s t waiting attempt = some (
    attempted s t (
      try_acquire s.inflight s.now t.cmd_id t.cmd_type limits.max_concurrency
        limits.max_heavy_concurrency))
dispatch_one limits s t waiting panic = some (let_waiter_go s t leaving)
dispatch_one limits s t (asleep by active heavy wait_ch) wake =
    if wait_ch == s.inflight.wait_ch then none else some (s, record t { phase = waiting })
dispatch_one limits s t (asleep by active heavy wait_ch) time_out =
    some (s, record t { phase = refused by active heavy })
dispatch_one limits s t (admitted duplicate) let_go = some (let_waiter_go s t running)
dispatch_one limits s t (refused by active heavy) let_go =
    some (let_waiter_go s t (rejecting by active heavy))
dispatch_one limits s t (rejecting by active heavy) reply =
    some (rejected limits s t by active heavy)
dispatch_one limits s t running finish = some (removed s t)
dispatch_one limits s t running panic = some (removed s t)
dispatch_one limits s t leaving leave = some (touch s, record t { phase = done })
dispatch_one limits s t _ _ = none

pub record System : Type 0 where
  pub shared : Shared
  pub tasks : List Task

-- One inbound command, in the loop of `connect`.
unfoldable pub receive : System → Text → Text → System
unfolding touch try_reserve_waiter
receive c cmd_id cmd_type =
    let s = touch c.shared in
    let (pending, reserved) = try_reserve_waiter s.pending_waiters in
    if reserved
    then record {
      shared = record s { pending_waiters = pending };
      tasks = c.tasks ++ record { cmd_id = cmd_id; cmd_type = cmd_type; phase = waiting } ∷ [];
    }
    else record c {
      shared = record s {
        sent =
            s.sent
            ++ record { cmd_id = cmd_id; message = waiters_full max_pending_slot_waiters } ∷ [];
      };
    }

pub data Event : Type 0 where
  tick : ℕ → Event
  command : Text → Text → Event
  act : ℕ → Action → Event

put_task : System → ℕ → Option (Shared × Task) → Option System
put_task c i none = none
put_task c i (some (s, t)) = some (record { shared = s; tasks = set c.tasks i t })

-- `none`: the event cannot happen in this state.
unfoldable pub step : Limits → System → Event → Option System
unfolding put_task
step limits c (tick n) = some (record c { shared = record c.shared { now = c.shared.now + n } })
step limits c (command cmd_id cmd_type) = some (receive c cmd_id cmd_type)
step limits c (act i a) = elim (get_elem? c.tasks i) [
  | none ↦ none
  | some t ↦ put_task c i (dispatch_one limits c.shared t t.phase a)
]

-- `New`: `touch` seeds the time of the last activity.
unfoldable pub new_client : ℕ → System
unfolding new_registry touch
new_client start = record {
  shared = touch (record {
    inflight = new_registry;
    pending_waiters = 0;
    last_active = 0;
    now = start;
    sent = [];
  });
  tasks = [];
}

-- `Activity`, with both counters read at one moment.
unfoldable pub activity : Shared → Bool × Option ℕ
activity s = (
  ltb 0 (count s.inflight) || ltb 0 s.pending_waiters,
  if s.last_active == 0 then none else some s.last_active,
)

-- What the states of a run look like.
pub data Reach (limits : Limits) (start : ℕ) : System → Type 0 where
  here : Reach limits start (new_client start)
  next :
      {c d : System} (e : Event)
      → Reach limits start c
      → step limits c e ≡ some d
      → Reach limits start d

-- A whole run, from a list of events.
unfoldable pub run : Limits → System → List Event → Option System
unfolding step receive dispatch_one new_client try_acquire remove counts_locked count lookup insert
    erase classify_command text_eq release_waiter activity busy_message
run limits c [] = some c
run limits c (e ∷ es) = elim (step limits c e) [ none ↦ none | some d ↦ run limits d es ]

pub run-Reach :
    (limits : Limits) (start : ℕ) (c : System) (es : List Event) {d : System}
    → Reach limits start c
    → run limits c es ≡ some d
    → Reach limits start d
unfolding run
run-Reach limits start c [] r e = subst (Reach limits start) (some-injective _ _ e) r
run-Reach limits start c (e ∷ es) r h = elim (Option-cases (step limits c e)) [
  | inl stuck ↦ cc
  | inr (d, s) ↦ run-Reach limits start d es (next e r s) (ground arith)
]
