-- ===== src/Prelude/Masks.antt =====
-- Bytes, and facts about them that are proved by checking all values.
use Prim.Native.Nat.{ℕ, zero, suc, ◌*◌, ◌/◌, ◌%◌, ◌<◌, bit_and}
use mathlib.Core.Path.{◌≡◌, refl}
use mathlib.Core.Bool.{Bool, true, ◌&&◌, and-eq-true_iff}
use native.Mathlib.Decide.{dec_lt}
use mathlib.Core.List.{List}
use native.Mathlib.Omega.{arith}
use rust_jvm.Prelude.Tests.{◌==◌, ==_iff}

abbrev pub Byte : Type 0
Byte = ℕ

abbrev pub Bytes : Type 0
Bytes = List Byte

abbrev pub IsByte : ℕ → Type 0
IsByte b = b < 256

agrees : (ℕ → ℕ) → (ℕ → ℕ) → ℕ → Bool
agrees f g zero = true
agrees f g (suc last) = agrees f g last && (f last == g last)

agrees-eq : (f g : ℕ → ℕ) (bound : ℕ) → agrees f g bound ≡ true → (b : ℕ) → b < bound → f b ≡ g b
unfolding agrees
agrees-eq f g zero table b lt = elim lt [ ]
agrees-eq f g (suc last) table b lt =
    let (before, here) = (and-eq-true_iff (agrees f g last) (f last == g last)).0 table in
    elim (dec_lt b last) [
      | yes less ↦ agrees-eq f g last before b less
      | no not_less ↦
          (let same : b ≡ last = omega arith in rw same ((==_iff (f last) (g last)).0 here))
    ]

-- The masks of the source, as quotients and remainders.
pub and_0xc0 : (x : ℕ) → IsByte x → bit_and x 0xc0 ≡ x / 64 * 64
unfolding agrees
and_0xc0 = agrees-eq (λ x. bit_and x 0xc0) (λ x. x / 64 * 64) 256 refl

pub and_0x3f : (x : ℕ) → IsByte x → bit_and x 0x3f ≡ x % 64
unfolding agrees
and_0x3f = agrees-eq (λ x. bit_and x 0x3f) (λ x. x % 64) 256 refl

pub and_0x1f : (x : ℕ) → IsByte x → bit_and x 0x1f ≡ x % 32
unfolding agrees
and_0x1f = agrees-eq (λ x. bit_and x 0x1f) (λ x. x % 32) 256 refl

pub and_0x0f : (x : ℕ) → IsByte x → bit_and x 0x0f ≡ x % 16
unfolding agrees
and_0x0f = agrees-eq (λ x. bit_and x 0x0f) (λ x. x % 16) 256 refl
