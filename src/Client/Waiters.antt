-- ===== src/Client/Waiters.antt =====
-- client/ws_client.go: the counter of hand-off goroutines that wait for a slot, and the text of the
-- busy replies. A message is its format with the numbers that fill it.
use vectrify_agent_runner.Base.{ℕ, ◌+◌, ◌-◌, Bool, true, false, leb, ltb, if◌then◌else◌}
use vectrify_agent_runner.Client.Registry.{Limit, global, heavy}

abbrev pub max_pending_slot_waiters : ℕ
max_pending_slot_waiters = 64

unfoldable pub try_reserve_waiter : ℕ → ℕ × Bool
try_reserve_waiter pending_waiters =
    if leb max_pending_slot_waiters pending_waiters
    then (pending_waiters, false)
    else (pending_waiters + 1, true)

unfoldable pub release_waiter : ℕ → ℕ
release_waiter pending_waiters =
    if ltb 0 pending_waiters then pending_waiters - 1 else pending_waiters

pub record Limits : Type 0 where
  pub max_concurrency : ℕ
  pub max_heavy_concurrency : ℕ

-- "too many commands already waiting (cap=…)", "heavy-command concurrency limit of … reached
-- (active=…)" and "concurrency limit of … reached (active=…)".
pub data Message : Type 0 where
  waiters_full : ℕ → Message
  heavy_limit global_limit : ℕ → ℕ → Message

unfoldable pub busy_message : Limits → Limit → ℕ → ℕ → Message
busy_message limits heavy active heavy_active =
    heavy_limit limits.max_heavy_concurrency heavy_active
busy_message limits global active heavy_active = global_limit limits.max_concurrency active
