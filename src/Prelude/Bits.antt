-- ===== src/Prelude/Bits.antt =====
-- Bounds and masks of `bit_and`, `bit_or` and `bit_xor` at variables.
use Prim.Native.Nat.{
  ℕ, zero, suc, ◌+◌, ◌-◌, ◌*◌, ◌/◌, ◌%◌, ◌^◌, ◌≤◌, ◌<◌, min, max, bit_and, bit_or, bit_xor, digits,
  differ, bit_and-bitwise, bit_or-bitwise, bit_xor-bitwise,
}
use mathlib.Core.Path.{◌≡◌}
use native.Mathlib.Omega.{arith}
use native.Mathlib.Nat.{
  add-zero, add-suc, mul-one, mul-add, pow-zero, two-pow-succ, div-le_self, div-lt_iff_lt-mul,
  one-le-pow,
}
use rust_jvm.Prelude.Words.{IsWord, shift_right, shift_right_signed}

-- An operation on digits that gives digits, with the rest of the second number or nothing after
-- the first.
module _ (rest : ℕ → ℕ) (f : ℕ → ℕ → ℕ) (rest_le : (b : ℕ) → rest b ≤ b)
    (f_le : (p q : ℕ) → p < 2 → q < 2 → f p q ≤ 1) where
  digits-IsWord : (w n a b : ℕ) → IsWord w a → IsWord w b → IsWord w (digits rest f n a b)
  digits-IsWord w zero a b ha hb = omega (arith, rest_le b)
  digits-IsWord w (suc n) zero b ha hb = omega (arith, rest_le b)
  digits-IsWord zero (suc n) (suc a) b ha hb = absurd (omega arith)
  digits-IsWord (suc w) (suc n) (suc a) b ha hb =
      let upper =
        digits-IsWord w n (suc a / 2) (b / 2) (omega (arith, two-pow-succ w, ha))
          (omega (arith, two-pow-succ w, hb)) in
      omega (arith, two-pow-succ w, upper, f_le (suc a % 2) (b % 2) (omega arith) (omega arith))

differ_le : (p q : ℕ) → p < 2 → q < 2 → differ p q ≤ 1
differ_le zero q hp hq = omega arith
differ_le (suc zero) zero hp hq = omega arith
differ_le (suc zero) (suc q) hp hq = omega arith
differ_le (suc (suc p)) q hp hq = absurd (omega arith)

pub bit_and-IsWord : (w a b : ℕ) → IsWord w a → IsWord w b → IsWord w (bit_and a b)
bit_and-IsWord w a b ha hb =
    rw (bit_and-bitwise a b)
      (digits-IsWord (λ b. 0) min (λ b. omega arith) (λ p q hp hq. omega arith) w a a b ha hb)

pub bit_or-IsWord : (w a b : ℕ) → IsWord w a → IsWord w b → IsWord w (bit_or a b)
bit_or-IsWord w a b ha hb =
    rw (bit_or-bitwise a b)
      (digits-IsWord (λ b. b) max (λ b. omega arith) (λ p q hp hq. omega arith) w a a b ha hb)

pub bit_xor-IsWord : (w a b : ℕ) → IsWord w a → IsWord w b → IsWord w (bit_xor a b)
bit_xor-IsWord w a b ha hb =
    rw (bit_xor-bitwise a b)
      (digits-IsWord (λ b. b) differ (λ b. omega arith) (differ_le) w a a b ha hb)

pub shift_right-IsWord : (w a k : ℕ) → IsWord w a → IsWord w (shift_right a k)
shift_right-IsWord w a k h = omega (arith, div-le_self a (2 ^ k))

pow_split : (j k : ℕ) → 2 ^ j * 2 ^ k ≡ 2 ^ (j + k)
pow_split j zero = rw (pow-zero 2, add-zero j, mul-one (2 ^ j))
pow_split j (suc k) = rw (
  two-pow-succ k,
  add-suc j k,
  two-pow-succ (j + k),
  mul-add (2 ^ j) (2 ^ k) (2 ^ k),
  pow_split j k,
)

pub shift_right_signed-IsWord :
    (w a k : ℕ) → k ≤ w → IsWord w a → IsWord w (shift_right_signed w a k)
shift_right_signed-IsWord w a k le h =
    let same : w - k + k ≡ w = omega arith in
    let upper =
      (div-lt_iff_lt-mul {k = 2 ^ k} {x = a} {y = 2 ^ (w - k)} (one-le-pow k 2 (omega arith))).1
        (rw (pow_split (w - k) k, same) h) in
    ground (arith, upper, div-le_self a (2 ^ k))

and_digits_le : (n a b : ℕ) → digits (λ b. 0) min n a b ≤ b
and_digits_le zero a b = omega arith
and_digits_le (suc n) zero b = omega arith
and_digits_le (suc n) (suc a) b = omega (arith, and_digits_le n (suc a / 2) (b / 2))

pub bit_and-le_right : (a b : ℕ) → bit_and a b ≤ b
bit_and-le_right a b = rw (bit_and-bitwise a b) (and_digits_le a a b)
