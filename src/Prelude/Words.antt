-- ===== src/Prelude/Words.antt =====
-- Machine integers of `w` bits, as the numbers below 2 ^ w that have their bits (two's complement).
use Prim.Native.Nat.{ℕ, ◌+◌, ◌-◌, ◌*◌, ◌/◌, ◌%◌, ◌^◌, ◌<◌}
use mathlib.Core.Bool.{Bool, true, false, not}
use rust_jvm.Prelude.Tests.{ltb, leb, if◌then◌else◌}

abbrev pub half : ℕ → ℕ
half w = 2 ^ (w - 1)

abbrev pub is_negative : ℕ → ℕ → Bool
is_negative w a = leb (half w) a

-- `as` from a signed integer of `v` bits to one of `w ≥ v` bits, and to any one of `w` bits or fewer.
abbrev pub sign_extend : ℕ → ℕ → ℕ → ℕ
sign_extend v w a = if is_negative v a then a + (2 ^ w - 2 ^ v) else a

abbrev pub truncate : ℕ → ℕ → ℕ
truncate w a = a % 2 ^ w

abbrev pub wrapping_add : ℕ → ℕ → ℕ → ℕ
wrapping_add w a b = (a + b) % 2 ^ w

abbrev pub wrapping_neg : ℕ → ℕ → ℕ
wrapping_neg w a = (2 ^ w - a) % 2 ^ w

abbrev pub wrapping_mul : ℕ → ℕ → ℕ → ℕ
wrapping_mul w a b = a * b % 2 ^ w

-- The absolute value, and a number with a sign.
abbrev pub magnitude : ℕ → ℕ → ℕ
magnitude w a = if is_negative w a then 2 ^ w - a else a

abbrev pub with_sign : ℕ → Bool → ℕ → ℕ
with_sign w negative m = if negative then wrapping_neg w m else m % 2 ^ w

abbrev pub differ : Bool → Bool → Bool
differ true b = not b
differ false b = b

-- Towards zero, for a divisor that is not zero; the least number over -1 wraps to itself.
abbrev pub wrapping_div : ℕ → ℕ → ℕ → ℕ
wrapping_div w a b =
    with_sign w (differ (is_negative w a) (is_negative w b)) (magnitude w a / magnitude w b)

-- With the sign of the dividend.
abbrev pub wrapping_rem : ℕ → ℕ → ℕ → ℕ
wrapping_rem w a b = with_sign w (is_negative w a) (magnitude w a % magnitude w b)

abbrev pub shift_left : ℕ → ℕ → ℕ → ℕ
shift_left w a k = a * 2 ^ k % 2 ^ w

-- `>>` of an unsigned, and of a signed integer by `k ≤ w`.
abbrev pub shift_right : ℕ → ℕ → ℕ
shift_right a k = a / 2 ^ k

abbrev pub shift_right_signed : ℕ → ℕ → ℕ → ℕ
shift_right_signed w a k = if is_negative w a then a / 2 ^ k + (2 ^ w - 2 ^ (w - k)) else a / 2 ^ k

-- The order of signed integers is that of their bits with the sign inverted.
abbrev pub flip_sign : ℕ → ℕ → ℕ
flip_sign w a = if is_negative w a then a - half w else a + half w

abbrev pub signed_lt : ℕ → ℕ → ℕ → Bool
signed_lt w a b = ltb (flip_sign w a) (flip_sign w b)

abbrev pub IsWord : ℕ → ℕ → Type 0
IsWord w a = a < 2 ^ w
