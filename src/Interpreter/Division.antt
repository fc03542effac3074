-- ===== src/Interpreter/Division.antt =====
-- src/runtime/interpreter.rs: what IDIV and IREM of `execute` leave on the stack.
use rust_jvm.Prelude.{
  ℕ, zero, suc, ◌+◌, ◌-◌, ◌*◌, ◌/◌, ◌%◌, ◌^◌, ◌≤◌, ◌<◌, ◌≡◌, ◌≢◌, ◌⊎◌, refl, sym, ◌∙◌, ap, arith,
  Bool, true, false, List, ◌∷◌, ◌==◌, Bool-cases, inl, inr,
}
use native.Mathlib.Nat.{add-mul, mod-lt, div-add-mod, mul_comm, div-le_self}
use rust_jvm.Prelude.Words.{
  IsWord, wrapping_add, wrapping_neg, wrapping_mul, wrapping_div, wrapping_rem, with_sign, differ,
  magnitude, is_negative,
}
use rust_jvm.Prelude.Outcome.{ok}
use rust_jvm.Interpreter.{Variable, Env, pop, push, with_stack}
use rust_jvm.Interpreter.Instructions.{idiv, irem}
use rust_jvm.Interpreter.Arms.{advance, throw, arithmetic_exception, divide, run_arithmetic}

parts-mul : (c k w n : ℕ) → c + k ≡ w → c * n + k * n ≡ w * n
parts-mul c k w n e = sym (add-mul c k n) ∙ ap (λ x. x * n) e

wrapping_neg-mul :
    (m n : ℕ) → m ≤ 2 ^ 31 → wrapping_neg 32 m * n % 2 ^ 32 ≡ wrapping_neg 32 (m * n % 2 ^ 32)
wrapping_neg-mul zero n h = let none_of_n : 0 * n ≡ 0 = omega arith in rw none_of_n
wrapping_neg-mul (suc k) n h =
    let small : wrapping_neg 32 (suc k) ≡ 2 ^ 32 - suc k = omega arith in
    let total : (2 ^ 32 - suc k) * n + suc k * n ≡ 2 ^ 32 * n =
      parts-mul (2 ^ 32 - suc k) (suc k) (2 ^ 32) n (omega arith) in
    rw small (omega (arith, total))

wrapping_mul-with_sign :
    (s t : Bool) (m n : ℕ)
    → m ≤ 2 ^ 31
    → n ≤ 2 ^ 31
    → wrapping_mul 32 (with_sign 32 s m) (with_sign 32 t n)
      ≡ with_sign 32 (differ s t) (m * n % 2 ^ 32)
wrapping_mul-with_sign false false m n hm hn =
    let em : m % 2 ^ 32 ≡ m = omega arith in
    let en : n % 2 ^ 32 ≡ n = omega arith in rw (em, en) (omega arith)
wrapping_mul-with_sign true false m n hm hn =
    let en : n % 2 ^ 32 ≡ n = omega arith in rw en (wrapping_neg-mul m n hm)
wrapping_mul-with_sign false true m n hm hn =
    let em : m % 2 ^ 32 ≡ m = omega arith in
    rw (em, mul_comm m (wrapping_neg 32 n), mul_comm m n) (wrapping_neg-mul n m hn)
wrapping_mul-with_sign true true m n hm hn =
    let one = wrapping_neg-mul m (wrapping_neg 32 n) hm in
    let two = wrapping_neg-mul n m hn in
    rw (one, mul_comm m (wrapping_neg 32 n), two, mul_comm n m) (omega arith)

differ_twice : (s t : Bool) → differ (differ s t) t ≡ s
differ_twice true true = refl
differ_twice true false = refl
differ_twice false true = refl
differ_twice false false = refl

wrapping_add-with_sign :
    (s : Bool) (p r : ℕ)
    → p + r ≤ 2 ^ 31
    → wrapping_add 32 (with_sign 32 s (p % 2 ^ 32)) (with_sign 32 s r) ≡ with_sign 32 s (p + r)
wrapping_add-with_sign true p r h = omega arith
wrapping_add-with_sign false p r h = omega arith

with_sign-magnitude : (a : ℕ) → IsWord 32 a → with_sign 32 (is_negative 32 a) (magnitude 32 a) ≡ a
with_sign-magnitude a h = ground arith

magnitude_le : (a : ℕ) → IsWord 32 a → magnitude 32 a ≤ 2 ^ 31
magnitude_le a h = ground arith

magnitude_positive : (a : ℕ) → IsWord 32 a → a ≢ 0 → 0 < magnitude 32 a
magnitude_positive a h ne = ground arith

magnitude-with_sign : (s : Bool) (m : ℕ) → m < 2 ^ 31 → magnitude 32 (with_sign 32 s m) ≡ m
magnitude-with_sign true m h = ground arith
magnitude-with_sign false m h = ground arith

-- The words that divide `b` by `a`.
pub record Divides (a b q r : ℕ) : Type 0 where
  pub whole : wrapping_add 32 (wrapping_mul 32 q a) r ≡ b
  pub smaller : magnitude 32 r < magnitude 32 a
  pub sign : r ≢ 0 → is_negative 32 r ≡ is_negative 32 b
  pub towards_zero : magnitude 32 q * magnitude 32 a ≤ magnitude 32 b

remainder_sign :
    (s : Bool) (m : ℕ) → m < 2 ^ 31 → with_sign 32 s m ≢ 0 → is_negative 32 (with_sign 32 s m) ≡ s
remainder_sign true m h ne = ground arith
remainder_sign false m h ne = ground arith

magnitude-with_sign_le : (s : Bool) (m : ℕ) → m ≤ 2 ^ 31 → magnitude 32 (with_sign 32 s m) ≡ m
magnitude-with_sign_le true m h = ground arith
magnitude-with_sign_le false m h = ground arith

divides :
    (a b : ℕ)
    → IsWord 32 a
    → IsWord 32 b
    → a ≢ 0
    → Divides a b (wrapping_div 32 b a) (wrapping_rem 32 b a)
divides a b ha hb ne =
    let m = magnitude 32 a in
    let n = magnitude 32 b in
    let positive = magnitude_positive a ha ne in
    let split : m * (n / m) + n % m ≡ n = div-add-mod n m in
    let less : n % m < m = mod-lt n positive in
    let m_le = magnitude_le a ha in
    let n_le = magnitude_le b hb in
    let q_le : n / m ≤ n = div-le_self n m in
    let sum : n / m * m + n % m ≡ n = rw (mul_comm (n / m) m) split in
    let s = is_negative 32 b in
    let t = is_negative 32 a in
    let product : wrapping_mul 32 (wrapping_div 32 b a) a ≡ with_sign 32 s (n / m * m % 2 ^ 32) =
      ap (λ x. wrapping_mul 32 (wrapping_div 32 b a) x) (sym (with_sign-magnitude a ha))
      ∙ wrapping_mul-with_sign (differ s t) t (n / m) m (omega (arith, q_le, n_le)) m_le
      ∙ ap (λ x. with_sign 32 x (n / m * m % 2 ^ 32)) (differ_twice s t) in
    record {
      whole =
          ap (λ x. wrapping_add 32 x (wrapping_rem 32 b a)) product
          ∙ wrapping_add-with_sign s (n / m * m) (n % m) (omega (arith, sum, n_le))
          ∙ ap (with_sign 32 s) sum
          ∙ with_sign-magnitude b hb;
      smaller = rw (magnitude-with_sign s (n % m) (omega (arith, less, m_le))) less;
      sign = λ nonzero. remainder_sign s (n % m) (omega (arith, less, m_le)) nonzero;
      towards_zero =
          rw (magnitude-with_sign_le (differ s t) (n / m) (omega (arith, q_le, n_le)))
            (omega (arith, sum));
    }

-- IDIV and IREM on two words: where the divisor is zero both leave with an arithmetic exception,
-- else with one quotient and one remainder that make up the dividend modulo 2 ^ 32, the remainder
-- smaller than the divisor and with the sign of the dividend, the quotient rounded towards zero.
pub divide_lem :
    (env : Env) (a b : Variable) (stack : List Variable)
    → env.frame.stack ≡ a ∷ b ∷ stack
    → IsWord 32 a
    → IsWord 32 b
    → ((a ≡ 0)
        × (run_arithmetic idiv env ≡ throw arithmetic_exception (with_stack env stack))
        × (run_arithmetic irem env ≡ throw arithmetic_exception (with_stack env stack)))
      ⊎ ((a ≢ 0)
          × ((q : Variable) × (r : Variable) × (run_arithmetic idiv env
                ≡ ok (with_stack env (q ∷ stack), advance))
              × (run_arithmetic irem env ≡ ok (with_stack env (r ∷ stack), advance))
              × Divides a b q r))
unfolding run_arithmetic divide pop push
divide_lem env a b stack h ha hb = elim (Bool-cases (a == 0)) [
  | inl e ↦ inl (ground arith, rw (h, e), rw (h, e))
  | inr e ↦
      let ne : a ≢ 0 = ground arith in
      inr
        (ne, (wrapping_div 32 b a, wrapping_rem 32 b a, rw (h, e), rw (h, e), divides a b ha hb ne))
]
