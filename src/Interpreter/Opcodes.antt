-- ===== src/Interpreter/Opcodes.antt =====
-- src/runtime/interpreter/instructions.rs: the opcodes, and the `match` of `execute` over them.
use rust_jvm.Prelude.{ℕ, List, [], ◌∷◌, ◌++◌, Option, none, some}
use rust_jvm.Prelude.Equality.{lookup, nat_eq}
use rust_jvm.Interpreter.Instructions.{
  Load, Store, Const, StackOp, Arithmetic, Bitwise, Conversion, Branch, Jump, Leave, Instruction,
  load, load_long, load_at, load_long_at, store, store_long, store_at, store_long_at, iconst_m1,
  iconst_0, iconst_1, iconst_2, iconst_3, iconst_4, iconst_5, lconst_0, lconst_1, aconst_null,
  bipush, sipush, dup, dup_x1, dup_x2, dup2, dup2_x1, dup2_x2, pop_one, pop2, swap, iadd, ladd,
  isub, lsub, imul, lmul, idiv, ldiv, irem, lrem, ineg, lneg, iinc, ishl, ishr, iushr, lshl, lshr,
  lushr, iand, land, ior, lor, ixor, lxor, i2l, i2b, i2c, i2s, l2i, lcmp, equal, not_equal, less,
  greater, less_equal, greater_equal, if_acmpeq, if_acmpne, ifnull, ifnonnull, if_icmp, if_zero,
  goto_near, goto_far, jsr, jsr_w, ret, lookupswitch, tableswitch, return_void, return_one,
  return_two, athrow, load_arm, store_arm, const_arm, stack_arm, arithmetic_arm, bitwise_arm,
  conversion_arm, branch_arm, jump_arm, leave_arm, wide_arm, nop, elsewhere, unknown,
}

-- aload iload fload lload dload, and these with the index in the opcode.
abbrev loads : List (ℕ × Load)
loads =
    (0x19, load)
    ∷ (0x15, load)
    ∷ (0x17, load)
    ∷ (0x16, load_long)
    ∷ (0x18, load_long)
    ∷ (0x2a, load_at 0)
    ∷ (0x1a, load_at 0)
    ∷ (0x22, load_at 0)
    ∷ (0x2b, load_at 1)
    ∷ (0x1b, load_at 1)
    ∷ (0x23, load_at 1)
    ∷ (0x2c, load_at 2)
    ∷ (0x1c, load_at 2)
    ∷ (0x24, load_at 2)
    ∷ (0x2d, load_at 3)
    ∷ (0x1d, load_at 3)
    ∷ (0x25, load_at 3)
    ∷ (0x1e, load_long_at 0)
    ∷ (0x26, load_long_at 0)
    ∷ (0x1f, load_long_at 1)
    ∷ (0x27, load_long_at 1)
    ∷ (0x20, load_long_at 2)
    ∷ (0x28, load_long_at 2)
    ∷ (0x21, load_long_at 3)
    ∷ (0x29, load_long_at 3)
    ∷ []

abbrev stores : List (ℕ × Store)
stores =
    (0x3a, store)
    ∷ (0x36, store)
    ∷ (0x38, store)
    ∷ (0x37, store_long)
    ∷ (0x39, store_long)
    ∷ (0x4b, store_at 0)
    ∷ (0x3b, store_at 0)
    ∷ (0x43, store_at 0)
    ∷ (0x4c, store_at 1)
    ∷ (0x3c, store_at 1)
    ∷ (0x44, store_at 1)
    ∷ (0x4d, store_at 2)
    ∷ (0x3d, store_at 2)
    ∷ (0x45, store_at 2)
    ∷ (0x4e, store_at 3)
    ∷ (0x3e, store_at 3)
    ∷ (0x46, store_at 3)
    ∷ (0x3f, store_long_at 0)
    ∷ (0x47, store_long_at 0)
    ∷ (0x40, store_long_at 1)
    ∷ (0x48, store_long_at 1)
    ∷ (0x41, store_long_at 2)
    ∷ (0x49, store_long_at 2)
    ∷ (0x42, store_long_at 3)
    ∷ (0x4a, store_long_at 3)
    ∷ []

abbrev consts : List (ℕ × Const)
consts =
    (0x01, aconst_null)
    ∷ (0x02, iconst_m1)
    ∷ (0x03, iconst_0)
    ∷ (0x04, iconst_1)
    ∷ (0x05, iconst_2)
    ∷ (0x06, iconst_3)
    ∷ (0x07, iconst_4)
    ∷ (0x08, iconst_5)
    ∷ (0x09, lconst_0)
    ∷ (0x0a, lconst_1)
    ∷ (0x10, bipush)
    ∷ (0x11, sipush)
    ∷ []

abbrev stack_ops : List (ℕ × StackOp)
stack_ops =
    (0x57, pop_one)
    ∷ (0x58, pop2)
    ∷ (0x59, dup)
    ∷ (0x5a, dup_x1)
    ∷ (0x5b, dup_x2)
    ∷ (0x5c, dup2)
    ∷ (0x5d, dup2_x1)
    ∷ (0x5e, dup2_x2)
    ∷ (0x5f, swap)
    ∷ []

abbrev arithmetics : List (ℕ × Arithmetic)
arithmetics =
    (0x60, iadd)
    ∷ (0x61, ladd)
    ∷ (0x64, isub)
    ∷ (0x65, lsub)
    ∷ (0x68, imul)
    ∷ (0x69, lmul)
    ∷ (0x6c, idiv)
    ∷ (0x6d, ldiv)
    ∷ (0x70, irem)
    ∷ (0x71, lrem)
    ∷ (0x74, ineg)
    ∷ (0x75, lneg)
    ∷ (0x84, iinc)
    ∷ []

abbrev bitwises : List (ℕ × Bitwise)
bitwises =
    (0x78, ishl)
    ∷ (0x79, lshl)
    ∷ (0x7a, ishr)
    ∷ (0x7b, lshr)
    ∷ (0x7c, iushr)
    ∷ (0x7d, lushr)
    ∷ (0x7e, iand)
    ∷ (0x7f, land)
    ∷ (0x80, ior)
    ∷ (0x81, lor)
    ∷ (0x82, ixor)
    ∷ (0x83, lxor)
    ∷ []

abbrev conversions : List (ℕ × Conversion)
conversions =
    (0x85, i2l) ∷ (0x88, l2i) ∷ (0x91, i2b) ∷ (0x92, i2c) ∷ (0x93, i2s) ∷ (0x94, lcmp) ∷ []

abbrev branches : List (ℕ × Branch)
branches =
    (0x99, if_zero equal)
    ∷ (0x9a, if_zero not_equal)
    ∷ (0x9b, if_zero less)
    ∷ (0x9c, if_zero greater_equal)
    ∷ (0x9d, if_zero greater)
    ∷ (0x9e, if_zero less_equal)
    ∷ (0x9f, if_icmp equal)
    ∷ (0xa0, if_icmp not_equal)
    ∷ (0xa1, if_icmp less)
    ∷ (0xa2, if_icmp greater_equal)
    ∷ (0xa3, if_icmp greater)
    ∷ (0xa4, if_icmp less_equal)
    ∷ (0xa5, if_acmpeq)
    ∷ (0xa6, if_acmpne)
    ∷ (0xc6, ifnull)
    ∷ (0xc7, ifnonnull)
    ∷ []

abbrev jumps : List (ℕ × Jump)
jumps =
    (0xa7, goto_near)
    ∷ (0xa8, jsr)
    ∷ (0xa9, ret)
    ∷ (0xaa, tableswitch)
    ∷ (0xab, lookupswitch)
    ∷ (0xc8, goto_far)
    ∷ (0xc9, jsr_w)
    ∷ []

abbrev leaves : List (ℕ × Leave)
leaves =
    (0xb1, return_void)
    ∷ (0xac, return_one)
    ∷ (0xb0, return_one)
    ∷ (0xae, return_one)
    ∷ (0xad, return_two)
    ∷ (0xaf, return_two)
    ∷ (0xbf, athrow)
    ∷ []

-- Array loads and stores, float and double, constants of the pool, fields, objects, calls, monitors.
abbrev elsewheres : List ℕ
elsewheres =
    0x0b ∷ 0x0c ∷ 0x0d ∷ 0x0e ∷ 0x0f ∷ 0x12 ∷ 0x13 ∷ 0x14 ∷ 0x2e ∷ 0x2f ∷ 0x30 ∷ 0x31 ∷ 0x32 ∷ 0x33
    ∷ 0x34 ∷ 0x35 ∷ 0x4f ∷ 0x50 ∷ 0x51 ∷ 0x52 ∷ 0x53 ∷ 0x54 ∷ 0x55 ∷ 0x56 ∷ 0x62 ∷ 0x63 ∷ 0x66
    ∷ 0x67 ∷ 0x6a ∷ 0x6b ∷ 0x6e ∷ 0x6f ∷ 0x72 ∷ 0x73 ∷ 0x76 ∷ 0x77 ∷ 0x86 ∷ 0x87 ∷ 0x89 ∷ 0x8a
    ∷ 0x8b ∷ 0x8c ∷ 0x8d ∷ 0x8e ∷ 0x8f ∷ 0x90 ∷ 0x95 ∷ 0x96 ∷ 0x97 ∷ 0x98 ∷ 0xb2 ∷ 0xb3 ∷ 0xb4
    ∷ 0xb5 ∷ 0xb6 ∷ 0xb7 ∷ 0xb8 ∷ 0xba ∷ 0xbb ∷ 0xbc ∷ 0xbd ∷ 0xbe ∷ 0xc0 ∷ 0xc1 ∷ 0xc2 ∷ 0xc3
    ∷ 0xc5 ∷ 0xfe ∷ []

each : {A : Type 0} → (A → Instruction) → List (ℕ × A) → List (ℕ × Instruction)
each f [] = []
each f ((op, a) ∷ rest) = (op, f a) ∷ each f rest

each_elsewhere : List ℕ → List (ℕ × Instruction)
each_elsewhere [] = []
each_elsewhere (op ∷ ops) = (op, elsewhere) ∷ each_elsewhere ops

unfoldable pub table : List (ℕ × Instruction)
unfolding each each_elsewhere
table =
    each load_arm loads
    ++ (each store_arm stores
        ++ (each const_arm consts
            ++ (each stack_arm stack_ops
                ++ (each arithmetic_arm arithmetics
                    ++ (each bitwise_arm bitwises
                        ++ (each conversion_arm conversions
                            ++ (each branch_arm branches
                                ++ (each jump_arm jumps
                                    ++ (each leave_arm leaves
                                        ++ ((0x00, nop)
                                            ∷ (0xc4, wide_arm)
                                            ∷ each_elsewhere elsewheres))))))))))

or_unknown : Option Instruction → Instruction
or_unknown none = unknown
or_unknown (some i) = i

-- The `match op` of `execute`.
unfoldable pub decode : ℕ → Instruction
unfolding or_unknown
decode op = or_unknown (lookup op table)
