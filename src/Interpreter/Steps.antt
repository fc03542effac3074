-- ===== src/Interpreter/Steps.antt =====
-- src/runtime/interpreter.rs, the loop of `execute` and single arms of it.
use rust_jvm.Prelude.{
  ℕ, zero, suc, ◌+◌, ◌^◌, ◌≤◌, ◌<◌, ◌≡◌, ◌≢◌, ◌⊎◌, refl, arith, true, false, not, ◌&&◌, some, List,
  ◌∷◌, length, get_elem?, set, leb, ◌==◌, Bool-cases, inl, inr, bit_and,
}
use native.Mathlib.Nat.{suc-add}
use rust_jvm.Prelude.Bits.{bit_and-le_right}
use rust_jvm.Prelude.Words.{IsWord, wrapping_add, wrapping_neg, half, is_negative}
use rust_jvm.Prelude.Outcome.{Outcome, ok, panic, out_of_fuel}
use rust_jvm.Interpreter.{
  Variable, Env, with_stack, with_locals, pop, push, local_at, code_at, get_u8_args,
}
use rust_jvm.Interpreter.Instructions.{dup2, pop2, swap, isub, iinc}
use rust_jvm.Interpreter.Arms.{
  Flow, advance, continue, outside, leave, run_stack, truncate_stack, run_arithmetic, subtract,
  increment, run_iinc,
}
use rust_jvm.Interpreter.Control.{skip_padding}
use rust_jvm.Interpreter.Execute.{Exit, step, finish, finish_step, execute}

finish_step_more :
    (loop loop' : Env → Outcome (Env × Exit)) (o : Outcome (Env × Flow)) (r : Env × Exit)
    → ((env : Env) → loop env ≡ ok r → loop' env ≡ ok r)
    → finish_step loop o ≡ ok r
    → finish_step loop' o ≡ ok r
unfolding finish_step finish
finish_step_more loop loop' (ok (env, advance)) r more h = more (record env { pc = env.pc + 1 }) h
finish_step_more loop loop' (ok (env, continue)) r more h = more env h
finish_step_more loop loop' (ok (env, outside)) r more h = h
finish_step_more loop loop' (ok (env, leave next)) r more h = h
finish_step_more loop loop' panic r more h = h
finish_step_more loop loop' out_of_fuel r more h = h

-- A run that ends with some number of turns ends in the same way with any larger number.
execute_more_fuel :
    (fuel more : ℕ) (env : Env) (r : Env × Exit)
    → execute fuel env ≡ ok r
    → execute (fuel + more) env ≡ ok r
unfolding execute
execute_more_fuel zero more env r h = absurd (cc h)
execute_more_fuel (suc fuel) more env r h = rw (suc-add fuel more) (
    finish_step_more (execute fuel) (execute (fuel + more)) (step env) r
      (λ env' h'. execute_more_fuel fuel more env' r h') h)

-- The pair that DUP2 puts on top has its words exchanged: dropping it leaves the stack of SWAP.
dup2_exchanges :
    (env : Env) (v1 v2 : Variable) (stack : List Variable)
    → env.frame.stack ≡ v1 ∷ v2 ∷ stack
    → (run_stack dup2 env ≡ ok (with_stack env (v2 ∷ v1 ∷ v2 ∷ v1 ∷ stack), advance))
      × (run_stack pop2 (with_stack env (v2 ∷ v1 ∷ v2 ∷ v1 ∷ stack)) ≡ run_stack swap env)
unfolding run_stack pop push truncate_stack
dup2_exchanges env v1 v2 stack h =
    let deep : leb 2 (length (v2 ∷ v1 ∷ v2 ∷ v1 ∷ stack)) ≡ true = ground arith in
    (rw h, rw (h, deep))

-- Subtraction of `int`s panics exactly where the subtrahend is the least `int`; otherwise it leaves the
-- difference modulo 2 ^ 32, which added to the subtrahend gives the minuend.
pub isub_lem :
    (env : Env) (a b : Variable) (stack : List Variable)
    → env.frame.stack ≡ a ∷ b ∷ stack
    → IsWord 32 a
    → IsWord 32 b
    → ((a ≡ 2 ^ 31) × (run_arithmetic isub env ≡ panic))
      ⊎ ((a ≢ 2 ^ 31)
          × ((d : Variable) × (run_arithmetic isub env ≡ ok (with_stack env (d ∷ stack), advance))
              × (wrapping_add 32 d a ≡ b)))
unfolding run_arithmetic subtract pop push
isub_lem env a b stack h ha hb = elim (Bool-cases (a == 2 ^ 31)) [
  | inl e ↦ inl (ground arith, rw (h, e))
  | inr e ↦ inr (ground arith, (wrapping_add 32 b (wrapping_neg 32 a), rw (h, e), omega arith))
]

-- IINC reads its constant as an unsigned byte: where the sum is an `int` it is the local variable
-- plus a number from 0 to 255, whatever the sign of the byte.
iinc_lem :
    (env : Env) (index con : ℕ) (v : Variable)
    → env.wide ≡ false
    → get_elem? env.frame.code (env.pc + 1) ≡ some index
    → get_elem? env.frame.code (env.pc + 1 + 1) ≡ some con
    → get_elem? env.frame.locals index ≡ some v
    → v + con < 2 ^ 31
    → run_arithmetic iinc env
      ≡ ok (
        with_locals
            (record env { pc = env.pc + 1 + 1; wide = false })
            (set env.frame.locals index (v + con)),
        advance,
      )
unfolding run_arithmetic run_iinc increment get_u8_args code_at local_at
iinc_lem env index con v narrow hi hc hv small =
    let fits : (not (is_negative 32 v) && leb (half 32) (v + con)) ≡ false = ground arith in
    let sum : wrapping_add 32 v con ≡ v + con = omega arith in rw (narrow, hi, hc, hv, fits, sum)

-- The padding of a switch leads below address 8 from anywhere: behind address 7 the arguments are not
-- read after the instruction.
skip_padding_lem :
    (env : Env)
    → (env' : Env) × (skip_padding env ≡ ok (env', tt))
      × (env'.pc ≤ 7)
      × (8 ≤ env.pc → env'.pc + 1 ≤ env.pc)
unfolding skip_padding
skip_padding_lem env =
    let low = bit_and-le_right env.pc 4 in
    (record env { pc = bit_and env.pc 4 + 3 }, refl, omega (arith, low), λ h. omega (arith, low, h))
