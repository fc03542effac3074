-- ===== src/Interpreter/Control.antt =====
-- src/runtime/interpreter.rs: the arms of `execute` that branch, jump or leave the method.
use rust_jvm.Prelude.{ℕ, zero, suc, ◌+◌, ◌*◌, Bool, true, not, ◌||◌, ◌==◌, if◌then◌else◌, bit_and}
use rust_jvm.Prelude.Words.{
  sign_extend, truncate, wrapping_add, wrapping_neg, signed_lt, is_negative,
}
use rust_jvm.Interpreter.{
  void, M, pure, fail, ◌>>=◌, ◌>>◌, pop, push, local_at, get_i16_args, get_i32_args,
  get_i32_args_from, get_index, get_pc, set_pc, jump_by, goto, goto_w, pop_return_addr,
}
use rust_jvm.Interpreter.Instructions.{
  Comparison, equal, not_equal, less, greater, less_equal, greater_equal, Branch, if_acmpeq,
  if_acmpne, ifnull, ifnonnull, if_icmp, if_zero, Jump, goto_near, goto_far, jsr, jsr_w, ret,
  lookupswitch, tableswitch, Leave, return_void, return_one, return_two, athrow,
}
use rust_jvm.Interpreter.Arms.{
  null_pointer_exception, user_exception, next_return, next_exception, Flow, advance, continue,
  leave, throw,
}

unfoldable pub holds : Comparison → ℕ → ℕ → Bool
holds equal v1 v2 = v1 == v2
holds not_equal v1 v2 = not (v1 == v2)
holds less v1 v2 = signed_lt 32 v1 v2
holds greater v1 v2 = signed_lt 32 v2 v1
holds less_equal v1 v2 = not (signed_lt 32 v2 v1)
holds greater_equal v1 v2 = not (signed_lt 32 v1 v2)

-- `if self.goto(jump) { continue; }`
unfoldable pub branch_if : Bool → M Flow
branch_if jump = do taken ← goto jump; if taken then pure continue else pure advance

unfoldable pub run_branch : Branch → M Flow
run_branch if_acmpeq = do a ← pop; b ← pop; branch_if (a == b)
run_branch if_acmpne = do a ← pop; b ← pop; branch_if (not (a == b))
run_branch (if_icmp c) = do v2 ← pop; v1 ← pop; branch_if (holds c v1 v2)
run_branch (if_zero c) = do v1 ← pop; branch_if (holds c v1 0)
run_branch ifnull = do a ← pop; branch_if (a == 0)
run_branch ifnonnull = do a ← pop; branch_if (not (a == 0))

-- `*self.pc = (*self.pc & 4) + 3`
unfoldable pub skip_padding : M (Unit {0})
skip_padding = do pc ← get_pc; set_pc (bit_and pc 4 + 3)

-- The `for` of `lookup_switch`, and the default after it.
unfoldable pub find_pair : ℕ → ℕ → ℕ → ℕ → M (Unit {0})
find_pair zero start_pc key default = set_pc (wrapping_add 64 start_pc (sign_extend 32 64 default))
find_pair (suc npairs) start_pc key default =
    let later = find_pair npairs start_pc key default in
    do
      mat ← get_i32_args
      offset ← get_i32_args
      if key == mat then set_pc (wrapping_add 64 start_pc (sign_extend 32 64 offset)) else later

unfoldable pub lookup_switch : M (Unit {0})
lookup_switch = do
  start_pc ← get_pc
  skip_padding
  default ← get_i32_args
  npairs ← get_i32_args
  key ← pop
  find_pair (if is_negative 32 npairs then 0 else npairs) start_pc key default

-- From `let pos = index - low`, which overflows from 2 ^ 31 on.
unfoldable pub table_entry : ℕ → ℕ → M (Unit {0})
table_entry start_pc pos = do
  pc ← get_pc
  offset ← get_i32_args_from (pc + 4 * pos)
  set_pc (wrapping_add 64 start_pc (sign_extend 32 64 offset))

unfoldable pub table_lookup : ℕ → ℕ → M (Unit {0})
table_lookup start_pc pos = if is_negative 32 pos then fail else table_entry start_pc pos

unfoldable pub table_switch : M (Unit {0})
table_switch = do
  start_pc ← get_pc
  skip_padding
  default ← get_i32_args
  low ← get_i32_args
  high ← get_i32_args
  index ← pop
  if signed_lt 32 index low || signed_lt 32 high index
      then set_pc (wrapping_add 64 start_pc (sign_extend 32 64 default))
      else table_lookup start_pc (wrapping_add 32 index (wrapping_neg 32 low))

unfoldable pub run_jump : Jump → M Flow
run_jump goto_near = goto true >> pure continue
run_jump goto_far = goto_w >> pure continue
run_jump jsr = do
  offset ← get_i16_args
  pc ← get_pc
  push (truncate 32 pc)
  jump_by (sign_extend 16 64 offset) >> pure advance
run_jump jsr_w = do
  offset ← get_i32_args
  pc ← get_pc
  push (truncate 32 pc)
  jump_by (sign_extend 32 64 offset) >> pure advance
run_jump ret = do index ← get_index; return_pc ← local_at index; set_pc return_pc >> pure advance
run_jump lookupswitch = lookup_switch >> pure continue
run_jump tableswitch = table_switch >> pure continue

unfoldable pub run_leave : Leave → M Flow
run_leave return_void = do
  return_pc ← pop_return_addr
  pure (leave (next_return void void return_pc))
run_leave return_one = do
  v1 ← pop
  return_pc ← pop_return_addr
  pure (leave (next_return v1 void return_pc))
run_leave return_two = do
  v2 ← pop
  v1 ← pop
  return_pc ← pop_return_addr
  pure (leave (next_return v1 v2 return_pc))
run_leave athrow = do
  obj_ref ← pop
  if obj_ref == 0
      then throw null_pointer_exception
      else pure (leave (next_exception (user_exception obj_ref)))
