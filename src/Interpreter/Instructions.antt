-- ===== src/Interpreter/Instructions.antt =====
-- src/runtime/interpreter/instructions.rs: the arms of `execute` that the opcodes run.
-- Opcodes that share an arm share a constructor.
use rust_jvm.Prelude.{ℕ}
use rust_jvm.Prelude.Equality.{nat_eq}

pub data Load : Type 0 where
  load load_long : Load
  load_at load_long_at : ℕ → Load

pub data Store : Type 0 where
  store store_long : Store
  store_at store_long_at : ℕ → Store

pub data Const : Type 0 where
  iconst_m1 iconst_0 iconst_1 iconst_2 iconst_3 iconst_4 iconst_5 lconst_0 lconst_1 aconst_null :
      Const
  bipush sipush : Const

pub data StackOp : Type 0 where
  dup dup_x1 dup_x2 dup2 dup2_x1 dup2_x2 pop_one pop2 swap : StackOp

pub data Arithmetic : Type 0 where
  iadd ladd isub lsub imul lmul idiv ldiv irem lrem ineg lneg iinc : Arithmetic

pub data Bitwise : Type 0 where
  ishl ishr iushr lshl lshr lushr iand land ior lor ixor lxor : Bitwise

pub data Conversion : Type 0 where
  i2l i2b i2c i2s l2i lcmp : Conversion

pub data Comparison : Type 0 where
  equal not_equal less greater less_equal greater_equal : Comparison

pub data Branch : Type 0 where
  if_acmpeq if_acmpne ifnull ifnonnull : Branch
  if_icmp if_zero : Comparison → Branch

pub data Jump : Type 0 where
  goto_near goto_far jsr jsr_w ret lookupswitch tableswitch : Jump

pub data Leave : Type 0 where
  return_void return_one return_two athrow : Leave

-- `elsewhere` are the arms that use the heap, a class or floating point numbers; `unknown` is the
-- arm `_`, which prints the opcode and goes on.
pub data Instruction : Type 0 where
  load_arm : Load → Instruction
  store_arm : Store → Instruction
  const_arm : Const → Instruction
  stack_arm : StackOp → Instruction
  arithmetic_arm : Arithmetic → Instruction
  bitwise_arm : Bitwise → Instruction
  conversion_arm : Conversion → Instruction
  branch_arm : Branch → Instruction
  jump_arm : Jump → Instruction
  leave_arm : Leave → Instruction
  wide_arm nop elsewhere unknown : Instruction
