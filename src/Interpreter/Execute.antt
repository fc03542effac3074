-- ===== src/Interpreter/Execute.antt =====
-- src/runtime/interpreter.rs: the loop of `execute`.
use rust_jvm.Prelude.{ℕ, zero, suc, ◌+◌, true}
use rust_jvm.Prelude.Outcome.{Outcome, ok, panic, out_of_fuel}
use rust_jvm.Interpreter.{Env, M, pure, ◌>>=◌, get_pc, code_at}
use rust_jvm.Interpreter.Instructions.{
  Instruction, load_arm, store_arm, const_arm, stack_arm, arithmetic_arm, bitwise_arm,
  conversion_arm, branch_arm, jump_arm, leave_arm, wide_arm, nop, elsewhere, unknown,
}
use rust_jvm.Interpreter.Opcodes.{decode}
use rust_jvm.Interpreter.Arms.{
  Next, Flow, advance, continue, outside, leave, run_load, run_store, run_const, run_stack,
  run_arithmetic, run_bitwise, run_conversion,
}
use rust_jvm.Interpreter.Control.{run_branch, run_jump, run_leave}

unfoldable pub run_arm : Instruction → M Flow
run_arm (load_arm i) = run_load i
run_arm (store_arm i) = run_store i
run_arm (const_arm i) = run_const i
run_arm (stack_arm i) = run_stack i
run_arm (arithmetic_arm i) = run_arithmetic i
run_arm (bitwise_arm i) = run_bitwise i
run_arm (conversion_arm i) = run_conversion i
run_arm (branch_arm i) = run_branch i
run_arm (jump_arm i) = run_jump i
run_arm (leave_arm i) = run_leave i
run_arm wide_arm = λ env. ok (record env { wide = true }, advance)
run_arm nop = pure advance
run_arm elsewhere = pure outside
run_arm unknown = pure advance

-- One turn of the loop.
unfoldable pub step : M Flow
step = do pc ← get_pc; op ← code_at pc; run_arm (decode op)

-- What `execute` gives back: a `Next`, or the frame before an arm that is not modelled.
pub data Exit : Type 0 where
  exit : Next → Exit
  stopped : Exit

unfoldable pub finish : (Env → Outcome (Env × Exit)) → Env → Flow → Outcome (Env × Exit)
finish loop env advance = loop (record env { pc = env.pc + 1 })
finish loop env continue = loop env
finish loop env outside = ok (env, stopped)
finish loop env (leave next) = ok (env, exit next)

unfoldable pub finish_step :
    (Env → Outcome (Env × Exit)) → Outcome (Env × Flow) → Outcome (Env × Exit)
finish_step loop (ok (env, flow)) = finish loop env flow
finish_step loop panic = panic
finish_step loop out_of_fuel = out_of_fuel

unfoldable pub execute : ℕ → Env → Outcome (Env × Exit)
execute zero env = out_of_fuel
execute (suc fuel) env = finish_step (execute fuel) (step env)
