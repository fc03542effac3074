-- ===== src/Interpreter/Arms.antt =====
-- src/runtime/interpreter.rs: the arms of `execute` that need only the frame and go on to the next
-- instruction, and how any arm ends.
use rust_jvm.Prelude.{
  ℕ, ◌+◌, ◌-◌, ◌%◌, ◌^◌, not, ◌&&◌, length, set, drop, leb, ◌==◌, if◌then◌else◌, bit_and,
}
use Prim.Native.Nat.{bit_or, bit_xor}
use rust_jvm.Prelude.Outcome.{ok}
use rust_jvm.Prelude.Words.{
  sign_extend, truncate, wrapping_add, wrapping_neg, wrapping_mul, wrapping_div, wrapping_rem,
  shift_left, shift_right, shift_right_signed, signed_lt, is_negative, half,
}
use rust_jvm.Interpreter.{
  Variable, M, pure, fail, ◌>>=◌, ◌>>◌, pop, push, pop_long, push_long, local_at, load_n,
  load_n_long, store_n, store_n_long, get_u8_args, get_i8_args, get_u16_args, get_i16_args,
  get_index, take_wide, with_locals, with_stack,
}
use rust_jvm.Interpreter.Instructions.{
  Load, load, load_long, load_at, load_long_at, Store, store, store_long, store_at, store_long_at,
  Const, iconst_m1, iconst_0, iconst_1, iconst_2, iconst_3, iconst_4, iconst_5, lconst_0, lconst_1,
  aconst_null, bipush, sipush, StackOp, dup, dup_x1, dup_x2, dup2, dup2_x1, dup2_x2, pop_one, pop2,
  swap, Arithmetic, iadd, ladd, isub, lsub, imul, lmul, idiv, ldiv, irem, lrem, ineg, lneg, iinc,
  Bitwise, ishl, ishr, iushr, lshl, lshr, lushr, iand, land, ior, lor, ixor, lxor, Conversion, i2l,
  i2b, i2c, i2s, l2i, lcmp,
}

-- The classes of the exceptions that the arms make by `Exception::new_vm`.
pub data VmException : Type 0 where
  arithmetic_exception null_pointer_exception : VmException

pub data Exception : Type 0 where
  vm_exception : VmException → Exception
  user_exception : ℕ → Exception

-- `Next`, without the calls.
pub data Next : Type 0 where
  next_return : Variable → Variable → ℕ → Next
  next_exception : Exception → Next

-- How an arm ends: at `*self.pc += 1`, by `continue`, by `return`, or as an arm of `elsewhere`.
pub data Flow : Type 0 where
  advance continue outside : Flow
  leave : Next → Flow

abbrev pub throw : VmException → M Flow
throw e = pure (leave (next_exception (vm_exception e)))

unfoldable pub run_load : Load → M Flow
run_load load = do index ← get_index; load_n index; pure advance
run_load load_long = do index ← get_index; load_n_long index; pure advance
run_load (load_at n) = load_n n >> pure advance
run_load (load_long_at n) = load_n_long n >> pure advance

unfoldable pub run_store : Store → M Flow
run_store store = do index ← get_index; store_n index; pure advance
run_store store_long = do index ← get_index; store_n_long index; pure advance
run_store (store_at n) = store_n n >> pure advance
run_store (store_long_at n) = store_n_long n >> pure advance

unfoldable pub run_const : Const → M Flow
run_const iconst_m1 = push (2 ^ 32 - 1) >> pure advance
run_const iconst_0 = push 0 >> pure advance
run_const iconst_1 = push 1 >> pure advance
run_const iconst_2 = push 2 >> pure advance
run_const iconst_3 = push 3 >> pure advance
run_const iconst_4 = push 4 >> pure advance
run_const iconst_5 = push 5 >> pure advance
run_const lconst_0 = push 0 >> push 0 >> pure advance
run_const lconst_1 = push 0 >> push 1 >> pure advance
run_const aconst_null = push 0 >> pure advance
run_const bipush = do byte ← get_i8_args; push byte; pure advance
run_const sipush = do short ← get_i16_args; push (sign_extend 16 32 short); pure advance

-- `stack.truncate(stack.len() - n)`; the subtraction panics below zero.
unfoldable pub truncate_stack : ℕ → M (Unit {0})
truncate_stack n env =
    if leb n (length env.frame.stack)
    then ok (with_stack env (drop n env.frame.stack), tt)
    else fail env

unfoldable pub run_stack : StackOp → M Flow
run_stack dup = do v ← pop; push v >> push v >> pure advance
run_stack dup_x1 = do v1 ← pop; v2 ← pop; push v1 >> push v2 >> push v1 >> pure advance
run_stack dup_x2 = do
  v1 ← pop
  v2 ← pop
  v3 ← pop
  push v1 >> push v3 >> push v2 >> push v1 >> pure advance
run_stack dup2 = do v1 ← pop; v2 ← pop; push v1 >> push v2 >> push v1 >> push v2 >> pure advance
run_stack dup2_x1 = do
  v1 ← pop
  v2 ← pop
  v3 ← pop
  push v2 >> push v1 >> push v3 >> push v2 >> push v1 >> pure advance
run_stack dup2_x2 = do
  v1 ← pop
  v2 ← pop
  v3 ← pop
  v4 ← pop
  push v2 >> push v1 >> push v4 >> push v3 >> push v2 >> push v1 >> pure advance
run_stack pop_one = truncate_stack 1 >> pure advance
run_stack pop2 = truncate_stack 2 >> pure advance
run_stack swap = do v1 ← pop; v2 ← pop; push v1 >> push v2 >> pure advance

-- An `int` or a `long`: how it is popped and pushed, and its bits.
pub data Width : Type 0 where
  int_width long_width : Width

abbrev pub bits : Width → ℕ
bits int_width = 32
bits long_width = 64

abbrev pub pop_number : Width → M ℕ
pop_number int_width = pop
pop_number long_width = pop_long

abbrev pub push_number : Width → ℕ → M (Unit {0})
push_number int_width = push
push_number long_width = push_long

-- `a` is the top: `push(f(a, b))`.
unfoldable pub binary : Width → (ℕ → ℕ → ℕ) → M Flow
binary w f = do a ← pop_number w; b ← pop_number w; push_number w (f a b) >> pure advance

-- `b.wrapping_add(-a)`, whose negation overflows for the least number.
unfoldable pub subtract : Width → M Flow
subtract w = do
  a ← pop_number w
  b ← pop_number w
  if a == half (bits w)
      then fail
      else (push_number w (wrapping_add (bits w) b (wrapping_neg (bits w) a)) >> pure advance)

unfoldable pub divide : Width → (ℕ → ℕ → ℕ) → M Flow
divide w f = do
  a ← pop_number w
  b ← pop_number w
  if a == 0 then throw arithmetic_exception else (push_number w (f b a) >> pure advance)

unfoldable pub negate : Width → M Flow
negate w = do a ← pop_number w; push_number w (wrapping_neg (bits w) a) >> pure advance

-- `locals[index].int += con`, which panics on overflow; `con` is not negative.
unfoldable pub increment : ℕ → ℕ → M Flow
increment index con = do
  v ← local_at index
  if not (is_negative 32 v) && leb (half 32) (v + con) then fail else λ env.
      ok (with_locals env (set env.frame.locals index (wrapping_add 32 v con)), advance)

unfoldable pub run_iinc : M Flow
run_iinc = do
  wide ← take_wide
  index ← (if wide then get_u16_args else get_u8_args)
  con ← (if wide then get_u16_args else get_u8_args)
  increment index con

unfoldable pub run_arithmetic : Arithmetic → M Flow
run_arithmetic iadd = binary int_width (wrapping_add 32)
run_arithmetic ladd = binary long_width (wrapping_add 64)
run_arithmetic isub = subtract int_width
run_arithmetic lsub = subtract long_width
run_arithmetic imul = binary int_width (wrapping_mul 32)
run_arithmetic lmul = binary long_width (wrapping_mul 64)
run_arithmetic idiv = divide int_width (wrapping_div 32)
run_arithmetic ldiv = divide long_width (wrapping_div 64)
run_arithmetic irem = divide int_width (wrapping_rem 32)
run_arithmetic lrem = divide long_width (wrapping_rem 64)
run_arithmetic ineg = negate int_width
run_arithmetic lneg = negate long_width
run_arithmetic iinc = run_iinc

-- The distance is an `int` of which five bits count.
unfoldable pub shift : Width → (ℕ → ℕ → ℕ) → M Flow
shift w f = do v2 ← pop; v1 ← pop_number w; push_number w (f v1 (v2 % 32)) >> pure advance

unfoldable pub run_bitwise : Bitwise → M Flow
run_bitwise ishl = shift int_width (shift_left 32)
run_bitwise ishr = shift int_width (shift_right_signed 32)
run_bitwise iushr = shift int_width shift_right
run_bitwise lshl = shift long_width (shift_left 64)
run_bitwise lshr = shift long_width (shift_right_signed 64)
run_bitwise lushr = shift long_width shift_right
run_bitwise iand = binary int_width bit_and
run_bitwise land = binary long_width bit_and
run_bitwise ior = binary int_width bit_or
run_bitwise lor = binary long_width bit_or
run_bitwise ixor = binary int_width bit_xor
run_bitwise lxor = binary long_width bit_xor

-- The `match v1.cmp(&v2)` of LCMP.
unfoldable pub compare_long : ℕ → ℕ → ℕ
compare_long v1 v2 = if signed_lt 64 v1 v2 then 2 ^ 32 - 1 else if v1 == v2 then 0 else 1

unfoldable pub run_conversion : Conversion → M Flow
run_conversion i2l = do v ← pop; push_long (sign_extend 32 64 v) >> pure advance
run_conversion i2b = do v ← pop; push (sign_extend 8 32 (truncate 8 v)) >> pure advance
run_conversion i2c = do v ← pop; push (truncate 16 v) >> pure advance
run_conversion i2s = do v ← pop; push (sign_extend 16 32 (truncate 16 v)) >> pure advance
run_conversion l2i = do v ← pop_long; push (truncate 32 v) >> pure advance
run_conversion lcmp = do v2 ← pop_long; v1 ← pop_long; push (compare_long v1 v2) >> pure advance
