-- ===== src/Interpreter.antt =====
-- src/runtime/interpreter.rs: the frame that the loop of `execute` works on, and the helpers of its
-- arms. A `Variable` is its 32 bits; an `int` is two's complement. The stack has its top first.
-- Sums that overflow panic, as in a build that has the `debug_assert!`s.
pub mod Instructions
pub mod Opcodes
pub mod Arms
pub mod Control
pub mod Execute
pub mod Numbers
mod Tests
pub mod Locals
pub mod Steps
pub mod Division
pub mod Branches
use rust_jvm.Prelude.{
  ℕ, zero, suc, ◌+◌, ◌-◌, ◌*◌, ◌/◌, ◌%◌, ◌^◌, ◌≤◌, Bool, true, false, Option, none, some, List, [],
  ◌∷◌, ◌++◌, Byte, Bytes, length, get_elem?, set, replicate, ltb, leb, ◌==◌, if◌then◌else◌,
}
use rust_jvm.Prelude.Words.{sign_extend, truncate, wrapping_add, wrapping_neg, is_negative, half}
use rust_jvm.Prelude.Outcome.{Outcome, ok, panic, out_of_fuel, unwrap}

abbrev pub Variable : Type 0
Variable = ℕ

-- `Variable { void: () }`, whose bits are not specified.
abbrev pub void : Variable
void = 0

-- The lower word is sign-extended before the `|`, so all bits of the upper word are set where its
-- highest bit is.
unfoldable pub get_long : Variable → Variable → ℕ
get_long pre suf = if is_negative 32 suf then sign_extend 32 64 suf else pre * 2 ^ 32 + suf

unfoldable pub put_long : ℕ → Variable × Variable
put_long long = (truncate 32 (long / 2 ^ 32), truncate 32 long)

pub record Frame : Type 0 where
  pub code : Bytes
  pub locals : List Variable
  pub stack : List Variable

-- `InterpreterEnv`, with the local variable `wide` of `execute`.
pub record Env : Type 0 where
  pub pc : ℕ
  pub wide : Bool
  pub frame : Frame

-- An action on the frame.
abbrev pub M : Type 0 → Type 0
M A = Env → Outcome (Env × A)

abbrev pub pure : {A : Type 0} → A → M A
pure a env = ok (env, a)

abbrev pub fail : {A : Type 0} → M A
fail env = panic

abbrev pub and_then : {A B : Type 0} → Outcome (Env × A) → (A → M B) → Outcome (Env × B)
and_then (ok (env, a)) f = f a env
and_then panic f = panic
and_then out_of_fuel f = out_of_fuel

infixl 5 ◌>>=◌ ◌>>◌
abbrev pub ◌>>=◌ : {A B : Type 0} → M A → (A → M B) → M B
◌>>=◌ m f env = and_then (m env) f

abbrev pub ◌>>◌ : {A B : Type 0} → M A → M B → M B
◌>>◌ m k = m >>= λ _. k

abbrev pub with_stack : Env → List Variable → Env
with_stack env stack = record env { frame = record env.frame { stack = stack } }

abbrev pub with_locals : Env → List Variable → Env
with_locals env locals = record env { frame = record env.frame { locals = locals } }

abbrev pub set_pc : ℕ → M (Unit {0})
set_pc pc env = ok (record env { pc = pc }, tt)

abbrev pub get_pc : M ℕ
get_pc env = ok (env, env.pc)

-- `stack.pop().unwrap()`
abbrev pub pop_from : Env → List Variable → Outcome (Env × Variable)
pop_from env [] = panic
pop_from env (v ∷ stack) = ok (with_stack env stack, v)

unfoldable pub pop : M Variable
pop env = pop_from env env.frame.stack

unfoldable pub push : Variable → M (Unit {0})
push v env = ok (with_stack env (v ∷ env.frame.stack), tt)

-- `self.frame.code[i]` and `self.frame.locals[i]`
abbrev pub found : {A : Type 0} → Env → Option A → Outcome (Env × A)
found env none = panic
found env (some a) = ok (env, a)

unfoldable pub code_at : ℕ → M Byte
code_at i env = found env (get_elem? env.frame.code i)

unfoldable pub local_at : ℕ → M Variable
local_at i env = found env (get_elem? env.frame.locals i)

unfoldable pub load_n : ℕ → M (Unit {0})
load_n n = do v ← local_at n; push v

unfoldable pub load_n_long : ℕ → M (Unit {0})
load_n_long n = do v1 ← local_at n; push v1; v2 ← local_at (n + 1); push v2

-- `if locals.len() < n { locals.resize(n, void) }`
abbrev pub resize_locals : ℕ → List Variable → List Variable
resize_locals n locals =
    if ltb (length locals) n then locals ++ replicate (n - length locals) void else locals

unfoldable pub store_n : ℕ → M (Unit {0})
store_n n = do
  v ← pop
  λ env. ok (with_locals env (set (resize_locals (n + 1) env.frame.locals) n v), tt)

unfoldable pub store_n_long : ℕ → M (Unit {0})
store_n_long n = do
  v2 ← pop
  v1 ← pop
  λ env.
      ok (with_locals env (set (set (resize_locals (n + 2) env.frame.locals) n v1) (n + 1) v2), tt)

unfoldable pub get_u8_args : M ℕ
get_u8_args = do pc ← get_pc; byte ← code_at (pc + 1); set_pc (pc + 1); pure byte

-- `as i32` of the `i8`.
unfoldable pub get_i8_args : M ℕ
get_i8_args = do byte ← get_u8_args; pure (sign_extend 8 32 byte)

unfoldable pub get_u16_args : M ℕ
get_u16_args = do
  pc ← get_pc
  byte1 ← code_at (pc + 1)
  byte2 ← code_at (pc + 2)
  set_pc (pc + 2)
  pure (byte1 * 2 ^ 8 + byte2)

-- The 16 bits of the `i16`.
abbrev pub get_i16_args : M ℕ
get_i16_args = get_u16_args

unfoldable pub get_i32_args_from : ℕ → M ℕ
get_i32_args_from pc = do
  byte1 ← code_at (pc + 1)
  byte2 ← code_at (pc + 2)
  byte3 ← code_at (pc + 3)
  byte4 ← code_at (pc + 4)
  pure (byte1 * 2 ^ 24 + byte2 * 2 ^ 16 + byte3 * 2 ^ 8 + byte4)

unfoldable pub get_i32_args : M ℕ
get_i32_args = do pc ← get_pc; value ← get_i32_args_from pc; set_pc (pc + 4); pure value

-- The index of a local variable, with the bit that `wide` sets and this clears.
abbrev pub take_wide : M Bool
take_wide env = ok (record env { wide = false }, env.wide)

unfoldable pub get_index : M ℕ
get_index = do wide ← take_wide; if wide then get_u16_args else get_u8_args

unfoldable pub pop_return_addr : M ℕ
pop_return_addr = do lower ← pop; upper ← pop; pure (upper * 2 ^ 32 + lower)

unfoldable pub pop_long : M ℕ
pop_long = do i2 ← pop; i1 ← pop; pure (get_long i1 i2)

unfoldable pub push_long : ℕ → M (Unit {0})
push_long l = let (upper, lower) = put_long l in do push upper; push lower

-- `pc.wrapping_add_signed(offset)` for the 64 bits of the offset.
abbrev pub jump_by : ℕ → M (Unit {0})
jump_by offset env = ok (record env { pc = wrapping_add 64 env.pc offset }, tt)

-- `(offset - k) as isize` of a signed integer of `w` bits; below the least one it overflows.
unfoldable pub offset_less : ℕ → ℕ → ℕ → M ℕ
offset_less w k offset =
    if is_negative w offset
    then (if ltb offset (half w + k) then fail else pure (sign_extend w 64 (offset - k)))
    else if leb k offset
    then pure (offset - k)
    else pure (2 ^ 64 + offset - k)

unfoldable pub goto : Bool → M Bool
goto jump = do
  offset ← get_i16_args
  if jump then (offset_less 16 2 offset >>= jump_by >> pure true) else pure false

unfoldable pub goto_w : M (Unit {0})
goto_w = do offset ← get_i32_args; offset_less 32 4 offset >>= jump_by
