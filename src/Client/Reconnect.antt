-- ===== src/Client/Reconnect.antt =====
-- client/ws_client.go, `backoff` and the loop of `RunForever`. Durations are nanoseconds.
use native.Mathlib.Nat.{pow-suc}
use vectrify_agent_runner.Base.{
  ℕ, zero, suc, ◌+◌, ◌*◌, ◌/◌, ◌^◌, ◌≤◌, ◌<◌, ◌≡◌, List, [], ◌∷◌, ◌++◌, All, length, arith, leb,
  ltb, if◌then◌else◌, min, max, ℤ, pos, to_int64, to_int64_small,
}

abbrev pub second : ℕ
second = 1000000000

abbrev pub healthy_duration : ℕ
healthy_duration = 30 * second

-- The seconds of `backoff` as the source's float, in halves: math.Pow(2, attempt - 1) is 1/2 at
-- attempt 0 and a power of two from then on, which is exact where it does not exceed the cap.
unfoldable pub backoff_halves : ℕ → ℕ → ℕ
backoff_halves attempt max_backoff_sec =
    let secs = 2 ^ attempt in
    let capped = if ltb (2 * max_backoff_sec) secs then 2 * max_backoff_sec else secs in
    if ltb capped 2 then 2 else capped

unfoldable pub backoff_secs : ℕ → ℕ → ℕ
backoff_secs attempt max_backoff_sec = backoff_halves attempt max_backoff_sec / 2

-- time.Duration(secs) * time.Second
unfoldable pub backoff : ℕ → ℕ → ℤ
backoff attempt max_backoff_sec = to_int64 (backoff_secs attempt max_backoff_sec * second)

-- How a connection ended, and how long it was up.
pub data Ended : Type 0 where
  lost clean : ℕ → Ended

-- One round of the loop of `RunForever`: the new attempt counter, and the pause.
unfoldable pub reconnect : ℕ → ℕ → Ended → ℕ × ℤ
reconnect max_backoff_sec attempt (lost uptime) =
    let next = if leb healthy_duration uptime then 0 else attempt + 1 in
    (next, backoff next max_backoff_sec)
reconnect max_backoff_sec attempt (clean uptime) = (0, pos (2 * second))

-- The loop over the connections of a run: the attempt counter at the end.
unfoldable pub run_forever : ℕ → ℕ → List Ended → ℕ
unfolding reconnect
run_forever max_backoff_sec attempt [] = attempt
run_forever max_backoff_sec attempt (e ∷ es) =
    run_forever max_backoff_sec (reconnect max_backoff_sec attempt e).0 es

pow_pos : (n : ℕ) → 1 ≤ 2 ^ n
pow_pos zero = omega arith
pow_pos (suc n) = omega (arith, pow_pos n, pow-suc 2 n)

secs_bounds :
    (attempt cap : ℕ)
    → (1 ≤ backoff_secs attempt cap)
      × (backoff_secs attempt cap ≤ max 1 cap)
      × (1 ≤ cap → backoff_secs (suc attempt) cap ≡ min (2 ^ attempt) cap)
unfolding backoff_secs backoff_halves
secs_bounds attempt cap = ground (arith, pow_pos attempt, pow-suc 2 attempt)

-- The pause after a healthy connection.
backoff-zero : (limit : ℕ) → backoff 0 limit ≡ pos second
unfolding backoff backoff_secs backoff_halves
backoff-zero limit = ground arith

-- Below the caps at which a duration overflows (9223372036 s), every pause is a whole number of
-- seconds, at least 1 and at most the larger of 1 and the limit; after n + 1 failures in a row it
-- is the smaller of 2^n and the limit.
pub backoff_bounds :
    (attempt limit : ℕ)
    → limit ≤ 9223372036
    → (secs : ℕ) × (backoff attempt limit ≡ pos (secs * second))
      × (1 ≤ secs)
      × (secs ≤ max 1 limit)
      × (1 ≤ limit → (n : ℕ) → attempt ≡ suc n → secs ≡ min (2 ^ n) limit)
unfolding backoff
backoff_bounds attempt limit h =
    let (low, high, _) = secs_bounds attempt limit in
    (
      backoff_secs attempt limit,
      to_int64_small _ (ground (arith, high)),
      low,
      high,
      λ p n e. ground (arith, (secs_bounds n limit).2 p),
    )

-- Every connection of the list failed before it was healthy.
abbrev pub Unhealthy : List Ended → Type 0
Unhealthy = All λ e. (uptime : ℕ) × (e ≡ lost uptime) × (uptime < healthy_duration)

run_forever_from :
    (limit attempt : ℕ) (es : List Ended)
    → Unhealthy es
    → run_forever limit attempt es ≡ attempt + length es
unfolding run_forever
run_forever_from limit attempt [] h = omega arith
run_forever_from limit attempt (e ∷ es) h =
    ground (arith, h.0, run_forever_from limit (attempt + 1) es h.1)

-- The counter of attempts counts the failures since the last connection that was up for 30 s or ended
-- cleanly, however short that one was, whatever went before. The pause after a connection that was lost
-- after 30 s is one second, and the one after a clean end two.
pub run_forever_counts :
    (limit attempt : ℕ) (before after : List Ended) (long any : ℕ)
    → healthy_duration ≤ long
    → Unhealthy after
    → (run_forever limit attempt (before ++ lost long ∷ after) ≡ length after)
      × (run_forever limit attempt (before ++ clean any ∷ after) ≡ length after)
      × (reconnect limit (run_forever limit attempt before) (lost long) ≡ (0, pos second))
      × (reconnect limit (run_forever limit attempt before) (clean any) ≡ (0, pos (2 * second)))
unfolding run_forever
run_forever_counts limit attempt [] after long any h u =
    ground (arith, run_forever_from limit 0 after u, backoff-zero limit)
run_forever_counts limit attempt (e ∷ es) after long any h u =
    run_forever_counts limit (reconnect limit attempt e).0 es after long any h u
