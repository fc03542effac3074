-- ===== src/Prelude/Int.antt =====
-- The signed integers that machine words stand for.
use Prim.Native.Nat.{ℕ, ◌-◌, ◌^◌}
use mathlib.Core.Path.{◌≡◌}
use mathlib.Core.Bool.{Bool, true, false}
use native.Mathlib.Omega.{arith}
use rust_jvm.Prelude.Tests.{ltb, if◌then◌else◌}
use rust_jvm.Prelude.Words.{is_negative, signed_lt, IsWord}

-- `negsuc n` is -(n + 1).
pub data ℤ : Type 0 where
  pos : ℕ → ℤ
  negsuc : ℕ → ℤ

abbrev pub to_signed : ℕ → ℕ → ℤ
to_signed w a = if is_negative w a then negsuc (2 ^ w - a - 1) else pos a

-- Whether a < b, by the signs.
abbrev pub ltb_ℤ : ℤ → ℤ → Bool
ltb_ℤ (pos a) (pos b) = ltb a b
ltb_ℤ (pos a) (negsuc b) = false
ltb_ℤ (negsuc a) (pos b) = true
ltb_ℤ (negsuc a) (negsuc b) = ltb b a

pub signed_lt-to_signed :
    (a b : ℕ)
    → IsWord 32 a
    → IsWord 32 b
    → signed_lt 32 a b ≡ ltb_ℤ (to_signed 32 a) (to_signed 32 b)
signed_lt-to_signed a b ha hb = ground arith

pub signed_lt-to_signed_64 :
    (a b : ℕ)
    → IsWord 64 a
    → IsWord 64 b
    → signed_lt 64 a b ≡ ltb_ℤ (to_signed 64 a) (to_signed 64 b)
signed_lt-to_signed_64 a b ha hb = ground arith
