-- ===== src/Interpreter/Tests.antt =====
-- Bytecode run by `execute`, and the theorems at concrete frames.
use rust_jvm.Prelude.{ℕ, ◌^◌, ◌≡◌, ◌≢◌, ◌⊎◌, inl, refl, true, arith, false, Bytes, [], ◌∷◌}
use rust_jvm.Prelude.Equality.{lookup, nat_eq}
use rust_jvm.Prelude.Outcome.{ok, panic}
use rust_jvm.Prelude.Words.{wrapping_add}
use rust_jvm.Interpreter.{
  with_stack, Env, Variable, pop, push, code_at, local_at, load_n, store_n, get_u16_args, get_index,
  pop_return_addr, offset_less, goto,
}
use rust_jvm.Interpreter.Instructions.{less, isub, idiv, irem, if_icmp}
use rust_jvm.Interpreter.Opcodes.{decode, table}
use rust_jvm.Interpreter.Arms.{
  next_return, advance, throw, arithmetic_exception, run_load, run_store, run_const, binary,
  subtract, divide, run_arithmetic,
}
use rust_jvm.Interpreter.Control.{holds, branch_if, run_branch, run_jump, run_leave}
use rust_jvm.Interpreter.Division.{Divides, divide_lem}
use rust_jvm.Interpreter.Locals.{Stores, store_n_lem}
use rust_jvm.Interpreter.Branches.{HasOffset, after_branch, branch_flow, if_icmp_lem}
use rust_jvm.Interpreter.Steps.{isub_lem}
use rust_jvm.Interpreter.Execute.{run_arm, step, exit, finish, finish_step, execute}

-- static int factorial(int n) { int r = 1; while (n > 0) { r = r * n; n = n - 1; } return r; }
abbrev factorial : Bytes
factorial =
    0x04 ∷ 0x3c ∷ 0x1a ∷ 0x9e ∷ 0x00 ∷ 0x0e ∷ 0x1b ∷ 0x1a ∷ 0x68 ∷ 0x3c ∷ 0x1a ∷ 0x04 ∷ 0x64 ∷ 0x3b
    ∷ 0xa7 ∷ 0xff ∷ 0xf4 ∷ 0x1b ∷ 0xac ∷ []

-- The two words below the operands are the return address.
abbrev factorial_of : ℕ → Env
factorial_of n = record {
  pc = 0;
  wide = false;
  frame = record { code = factorial; locals = n ∷ []; stack = 7 ∷ 0 ∷ [] };
}

factorial-result :
    execute 80 (factorial_of 5)
    ≡ ok (
      record {
        pc = 18;
        wide = false;
        frame = record { code = factorial; locals = 0 ∷ 120 ∷ []; stack = [] };
      },
      exit (next_return 120 0 7),
    )
unfolding execute finish_step finish step run_arm decode table run_load run_store run_const
    run_arithmetic binary subtract run_branch branch_if holds run_jump run_leave pop push code_at
    local_at load_n store_n get_u16_args get_index pop_return_addr offset_less goto lookup
factorial-result = refl

-- At address 3 of the method, with -1 on the stack.
abbrev at_branch : Env
at_branch = record {
  pc = 3;
  wide = false;
  frame = record { code = factorial; locals = 5 ∷ 1 ∷ []; stack = 0 ∷ 0xffffffff ∷ [] };
}

at_branch-HasOffset : HasOffset at_branch 14
at_branch-HasOffset = record {
  high = refl;
  low = refl;
  pc_fits = omega arith;
  offset_fits = inl (omega arith);
  offset_word = omega arith;
}

if_icmp_lem_example :
    run_branch (if_icmp less) at_branch
    ≡ ok (after_branch (with_stack at_branch []) 14 true, branch_flow true)
if_icmp_lem_example =
    if_icmp_lem less at_branch (0xffffffff) 0 [] 14 refl (omega arith) (omega arith)
      at_branch-HasOffset

isub_lem_example :
    ((0 ≡ 2 ^ 31) × (run_arithmetic isub at_branch ≡ panic))
    ⊎ ((0 ≢ 2 ^ 31)
        × ((d : Variable) × (run_arithmetic isub at_branch
              ≡ ok (with_stack at_branch (d ∷ []), advance))
            × (wrapping_add 32 d 0 ≡ 0xffffffff)))
isub_lem_example = isub_lem at_branch 0 (0xffffffff) [] refl (omega arith) (omega arith)

-- iinc 0, -1
abbrev at_iinc : Env
at_iinc = record {
  pc = 0;
  wide = false;
  frame = record { code = 0x84 ∷ 0 ∷ 0xff ∷ []; locals = 5 ∷ []; stack = [] };
}

store_n_lem_example :
    (env' : Env) × (store_n 3 at_branch ≡ ok (env', tt))
    × Stores at_branch env' 3 0 (0xffffffff ∷ [])
store_n_lem_example = store_n_lem at_branch 3 0 (0xffffffff ∷ []) refl

-- -7 over 2
abbrev at_division : Env
at_division = record {
  pc = 0;
  wide = false;
  frame = record { code = 0x6c ∷ []; locals = []; stack = 2 ∷ 0xfffffff9 ∷ [] };
}

quotient : run_arithmetic idiv at_division ≡ ok (with_stack at_division (0xfffffffd ∷ []), advance)
unfolding run_arithmetic divide pop push
quotient = refl

divide_lem_example :
    (◌≡◌ {A = ℕ} 2 0
      × (run_arithmetic idiv at_division ≡ throw arithmetic_exception (with_stack at_division []))
      × (run_arithmetic irem at_division ≡ throw arithmetic_exception (with_stack at_division [])))
    ⊎ (◌≢◌ {A = ℕ} 2 0
        × ((q : Variable) × (r : Variable) × (run_arithmetic idiv at_division
              ≡ ok (with_stack at_division (q ∷ []), advance))
            × (run_arithmetic irem at_division ≡ ok (with_stack at_division (r ∷ []), advance))
            × Divides 2 (0xfffffff9) q r))
divide_lem_example = divide_lem at_division 2 (0xfffffff9) [] refl (omega arith) (omega arith)
