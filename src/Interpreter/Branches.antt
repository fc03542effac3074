-- ===== src/Interpreter/Branches.antt =====
-- src/runtime/interpreter.rs, where the conditional branches and the jumps of `execute` lead.
use rust_jvm.Prelude.{
  ℕ, ◌+◌, ◌*◌, ◌/◌, ◌%◌, ◌^◌, ◌≤◌, ◌<◌, ◌≡◌, ◌⊎◌, refl, arith, Bool, true, false, not, ◌&&◌, ◌||◌,
  some, List, ◌∷◌, get_elem?, if◌then◌else◌,
}
use rust_jvm.Prelude.Int.{ℤ, pos, to_signed, ltb_ℤ, signed_lt-to_signed}
use rust_jvm.Prelude.Words.{IsWord, sign_extend, truncate, wrapping_add}
use rust_jvm.Prelude.Outcome.{ok}
use rust_jvm.Interpreter.{
  Variable, Env, with_stack, pop, push, code_at, get_u16_args, jump_by, offset_less, goto, and_then,
}
use rust_jvm.Interpreter.Instructions.{
  Comparison, equal, not_equal, less, greater, less_equal, greater_equal, if_icmp, if_zero, jsr,
}
use rust_jvm.Interpreter.Arms.{Flow, advance, continue}
use rust_jvm.Interpreter.Control.{holds, branch_if, run_branch, run_jump}

-- The comparison of two integers that a branch asks for.
abbrev pub compares : Comparison → ℤ → ℤ → Bool
compares equal a b = not (ltb_ℤ a b) && not (ltb_ℤ b a)
compares not_equal a b = ltb_ℤ a b || ltb_ℤ b a
compares less a b = ltb_ℤ a b
compares greater a b = ltb_ℤ b a
compares less_equal a b = not (ltb_ℤ b a)
compares greater_equal a b = not (ltb_ℤ a b)

-- Two bytes after `pc`, high byte first, are the offset.
pub record HasOffset (env : Env) (offset : ℕ) : Type 0 where
  pub high : get_elem? env.frame.code (env.pc + 1) ≡ some (offset / 256)
  pub low : get_elem? env.frame.code (env.pc + 2) ≡ some (offset % 256)
  pub pc_fits : env.pc + 2 < 2 ^ 64
  -- From here on `offset - 2` does not overflow.
  pub offset_fits : (offset < 2 ^ 15) ⊎ (2 ^ 15 + 2 ≤ offset)
  pub offset_word : offset < 2 ^ 16

-- The sum of an address and a signed offset of 16 bits.
abbrev pub target : ℕ → ℕ → ℕ
target pc offset = wrapping_add 64 pc (sign_extend 16 64 offset)

get_u16_args-HasOffset :
    (env : Env) (offset : ℕ)
    → HasOffset env offset
    → get_u16_args env ≡ ok (record env { pc = env.pc + 2 }, offset)
unfolding get_u16_args code_at
get_u16_args-HasOffset env offset h =
    let whole : offset / 256 * 2 ^ 8 + offset % 256 ≡ offset = omega arith in
    rw (h.high, h.low, whole)

jump_target :
    (env : Env) (offset : ℕ)
    → HasOffset env offset
    → and_then (offset_less 16 2 offset (record env { pc = env.pc + 2 })) jump_by
      ≡ ok (record env { pc = target env.pc offset }, tt)
unfolding offset_less
jump_target env offset h = ground (arith, h.pc_fits, h.offset_fits, h.offset_word)

-- Where a branch leads that is taken or not.
abbrev pub after_branch : Env → ℕ → Bool → Env
after_branch env offset jump = record env { pc = if jump then target env.pc offset else env.pc + 2 }

abbrev pub branch_flow : Bool → Flow
branch_flow jump = if jump then continue else advance

goto_lem :
    (env : Env) (offset : ℕ) (jump : Bool)
    → HasOffset env offset
    → goto jump env ≡ ok (after_branch env offset jump, jump)
unfolding goto
goto_lem env offset true h = rw (get_u16_args-HasOffset env offset h, jump_target env offset h)
goto_lem env offset false h = rw (get_u16_args-HasOffset env offset h)

branch_if_lem :
    (env : Env) (offset : ℕ) (jump : Bool)
    → HasOffset env offset
    → branch_if jump env ≡ ok (after_branch env offset jump, branch_flow jump)
unfolding branch_if
branch_if_lem env offset true h = rw (goto_lem env offset true h)
branch_if_lem env offset false h = rw (goto_lem env offset false h)

pub holds-compares :
    (c : Comparison) (v1 v2 : ℕ)
    → IsWord 32 v1
    → IsWord 32 v2
    → holds c v1 v2 ≡ compares c (to_signed 32 v1) (to_signed 32 v2)
unfolding holds
holds-compares equal v1 v2 h1 h2 = ground arith
holds-compares not_equal v1 v2 h1 h2 = ground arith
holds-compares less v1 v2 h1 h2 = signed_lt-to_signed v1 v2 h1 h2
holds-compares greater v1 v2 h1 h2 = signed_lt-to_signed v2 v1 h2 h1
holds-compares less_equal v1 v2 h1 h2 = rw (signed_lt-to_signed v2 v1 h2 h1)
holds-compares greater_equal v1 v2 h1 h2 = rw (signed_lt-to_signed v1 v2 h1 h2)

HasOffset-with_stack :
    (env : Env) (stack : List Variable) (offset : ℕ)
    → HasOffset env offset
    → HasOffset (with_stack env stack) offset
HasOffset-with_stack env stack offset h = record {
  high = h.high;
  low = h.low;
  pc_fits = h.pc_fits;
  offset_fits = h.offset_fits;
  offset_word = h.offset_word;
}

-- A comparing branch takes two words off the stack and compares them as signed integers: it leads to
-- its own address plus the signed offset where the comparison holds, else to the last byte of the
-- instruction, which the loop then steps over. The offset is not one of the two least ones.
pub if_icmp_lem :
    (c : Comparison) (env : Env) (v1 v2 : Variable) (stack : List Variable) (offset : ℕ)
    → env.frame.stack ≡ v2 ∷ v1 ∷ stack
    → IsWord 32 v1
    → IsWord 32 v2
    → HasOffset env offset
    → run_branch (if_icmp c) env
      ≡ ok (
        after_branch (with_stack env stack) offset (compares c (to_signed 32 v1) (to_signed 32 v2)),
        branch_flow (compares c (to_signed 32 v1) (to_signed 32 v2)),
      )
unfolding run_branch pop
if_icmp_lem c env v1 v2 stack offset e h1 h2 h = rw (
  e,
  holds-compares c v1 v2 h1 h2,
  branch_if_lem (with_stack env stack) offset (compares c (to_signed 32 v1) (to_signed 32 v2))
      (HasOffset-with_stack env stack offset h),
)

-- A branch that compares one word with zero takes it off the stack, and leads to its own address plus
-- the signed offset where the comparison holds, else to the last byte of the instruction. The offset
-- is not one of the two least ones.
if_zero_lem :
    (c : Comparison) (env : Env) (v1 : Variable) (stack : List Variable) (offset : ℕ)
    → env.frame.stack ≡ v1 ∷ stack
    → IsWord 32 v1
    → HasOffset env offset
    → run_branch (if_zero c) env
      ≡ ok (
        after_branch (with_stack env stack) offset (compares c (to_signed 32 v1) (pos 0)),
        branch_flow (compares c (to_signed 32 v1) (pos 0)),
      )
unfolding run_branch pop
if_zero_lem c env v1 stack offset e h1 h = rw (
  e,
  holds-compares c v1 0 h1 (omega arith),
  branch_if_lem (with_stack env stack) offset (compares c (to_signed 32 v1) (pos 0))
      (HasOffset-with_stack env stack offset h),
)

-- The subroutine jump lacks the `- 2` of `goto` and ends at `*self.pc += 1`: the next instruction is
-- the one three bytes after the address plus the signed offset.
jsr_lem :
    (env : Env) (offset : ℕ)
    → HasOffset env offset
    → (env' : Env) × (run_jump jsr env ≡ ok (env', advance))
      × (env'.frame.stack ≡ truncate 32 (env.pc + 2) ∷ env.frame.stack)
      × ((env'.pc + 1) % 2 ^ 64 ≡ (target env.pc offset + 3) % 2 ^ 64)
unfolding run_jump push
jsr_lem env offset h =
    let pushed : Env =
      with_stack (record env { pc = env.pc + 2 }) (truncate 32 (env.pc + 2) ∷ env.frame.stack) in
    (
      record pushed { pc = target (env.pc + 2) offset },
      rw (get_u16_args-HasOffset env offset h),
      refl,
      ground (arith, h.pc_fits, h.offset_word),
    )
