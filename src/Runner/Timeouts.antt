-- ===== src/Runner/Timeouts.antt =====
-- runner/runner.go: the limit on the timeouts that commands ask for.
use vectrify_agent_runner.Base.{
  ℕ, ◌*◌, ◌≤◌, ◌≡◌, inl, inr, refl, true, false, Option, none, some, codes, lookup, insert,
  if◌then◌else◌, Bool-cases, arith, min, ℤ, pos, not_positive, int_lt, ltb, ◌==◌, seconds, to_int64,
  to_int64_small,
}
use vectrify_agent_runner.Protocol.{RawCommand, Value, number, int_of}

-- maxShellTimeout, in nanoseconds
abbrev pub max_shell_timeout : ℤ
max_shell_timeout = pos 600000000000

unfoldable pub cap_timeout : ℤ → ℤ
cap_timeout t = if int_lt max_shell_timeout (seconds t) then pos 600 else t

-- The timeout of `handleShell` in seconds.
unfoldable pub shell_timeout : ℤ → ℤ
unfolding cap_timeout
shell_timeout t = cap_timeout (if not_positive t then pos 60 else t)

clamp_found : RawCommand → Option Value → RawCommand
unfolding cap_timeout
clamp_found raw none = raw
clamp_found raw (some v) =
    if int_lt max_shell_timeout (seconds (int_of (some v)))
    then insert (codes "timeout_seconds") (number (pos 600)) raw
    else raw

-- The command that the actions of `handleBrowser` read.
unfoldable pub clamp_timeout : RawCommand → RawCommand
unfolding clamp_found
clamp_timeout raw = clamp_found raw (lookup (codes "timeout_seconds") raw)

-- The deadline that `Run` gets, in nanoseconds.
unfoldable pub shell_deadline : ℤ → ℤ
unfolding shell_timeout
shell_deadline t = seconds (shell_timeout t)

cap_timeout-bounded : (t : ℤ) → int_lt max_shell_timeout (seconds (cap_timeout t)) ≡ false
unfolding cap_timeout
cap_timeout-bounded t = elim (Bool-cases (int_lt max_shell_timeout (seconds t))) [
  | inl e ↦ rw e (ground arith)
  | inr e ↦ rw e e
]

int_lt_pos : (a b : ℕ) → int_lt (pos a) (pos b) ≡ ltb a b
int_lt_pos a b = ground arith

cap_timeout_small :
    (n : ℕ) → n ≤ 9223372036 → seconds (cap_timeout (pos n)) ≡ pos (min n 600 * 1000000000)
unfolding cap_timeout
cap_timeout_small n h =
    let q : to_int64 (n * 1000000000) ≡ pos (n * 1000000000) =
      to_int64_small (n * 1000000000) (omega (arith, h)) in
    elim (Bool-cases (ltb 600000000000 (n * 1000000000))) [
      | inl e ↦
          let m : min n 600 ≡ 600 = ground (arith, e) in
          rw (q, int_lt_pos 600000000000 (n * 1000000000), e, m) refl
      | inr e ↦
          let m : min n 600 ≡ n = ground (arith, e) in
          rw (q, int_lt_pos 600000000000 (n * 1000000000), e, m) q
    ]

-- Whatever timeout a shell command asks for, it runs for at most 600 s: no product that overflows gets
-- round the limit, since `Run` multiplies in the same way. Up to 9223372036 s, above which the product
-- overflows, the deadline is what was asked for, 60 s where nothing above 0 was, and at most 600 s.
pub shell_deadline-bounded :
    (t : ℤ)
    → (int_lt max_shell_timeout (shell_deadline t) ≡ false)
      × ((n : ℕ)
          → t ≡ pos n
          → 1 ≤ n
          → n ≤ 9223372036
          → shell_deadline t ≡ pos (min n 600 * 1000000000))
      × (not_positive t ≡ true → shell_deadline t ≡ pos 60000000000)
unfolding shell_deadline shell_timeout
shell_deadline-bounded t = (
  cap_timeout-bounded (if not_positive t then pos 60 else t),
  λ n e l h. (let z : (n == 0) ≡ false = ground (arith, l) in rw (e, z) (cap_timeout_small n h)),
  λ e. rw e (cap_timeout_small 60 (omega arith)),
)
