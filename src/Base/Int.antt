-- ===== src/Base/Int.antt =====
-- Go's `int` as an integer: the tests that the source makes of it.
use Prim.Native.Nat.{ℕ, suc, ◌+◌, ◌-◌, ◌*◌, ◌%◌, ◌<◌}
use mathlib.Core.Path.{◌≡◌}
use native.Mathlib.Omega.{arith}
use mathlib.Core.Bool.{Bool, true, false}
use vectrify_agent_runner.Base.Tests.{ltb, leb, if◌then◌else◌, ◌==◌}

-- `negsuc n` is -(n + 1).
pub data ℤ : Type 0 where
  pos : ℕ → ℤ
  negsuc : ℕ → ℤ

abbrev pub pos_part : ℤ → ℕ
pos_part (pos n) = n
pos_part (negsuc n) = 0

-- x <= 0
abbrev pub not_positive : ℤ → Bool
not_positive (pos n) = n == 0
not_positive (negsuc n) = true

-- x == 0
abbrev pub is_zero : ℤ → Bool
is_zero (pos n) = n == 0
is_zero (negsuc n) = false

-- The `int64` with the bits of `n`, and Go's product of two non-negative ones.
abbrev pub to_int64 : ℕ → ℤ
to_int64 n =
    let w = n % 18446744073709551616 in
    if ltb w 9223372036854775808 then pos w else negsuc (18446744073709551616 - w - 1)

pub to_int64_small : (n : ℕ) → n < 9223372036854775808 → to_int64 n ≡ pos n
to_int64_small n h = ground arith

abbrev pub neg_part : ℤ → ℕ
neg_part (pos n) = 0
neg_part (negsuc n) = suc n

-- a - b, as an integer.
abbrev pub sub_ℕ : ℕ → ℕ → ℤ
sub_ℕ a b = if leb b a then pos (a - b) else negsuc (b - a - 1)

abbrev pub int_lt : ℤ → ℤ → Bool
int_lt a b = ltb (pos_part a + neg_part b) (pos_part b + neg_part a)

abbrev pub int_le : ℤ → ℤ → Bool
int_le a b = leb (pos_part a + neg_part b) (pos_part b + neg_part a)

abbrev pub int_eq : ℤ → ℤ → Bool
int_eq a b = pos_part a + neg_part b == pos_part b + neg_part a

-- The integer with the 64 bits of `n` seconds in nanoseconds: `time.Duration(n) * time.Second`.
abbrev pub seconds : ℤ → ℤ
seconds (pos n) = to_int64 (n * 1000000000)
seconds (negsuc n) = to_int64 (18446744073709551616 - suc n * 1000000000 % 18446744073709551616)
