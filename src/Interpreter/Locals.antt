-- ===== src/Interpreter/Locals.antt =====
-- src/runtime/interpreter.rs, loads and stores of local variables.
use rust_jvm.Prelude.{
  ℕ, ◌+◌, ◌-◌, ◌≤◌, ◌<◌, ◌≡◌, ◌≢◌, refl, ◌∙◌, arith, List, ◌∷◌, length, get_elem?, set, replicate,
  ltb, ltb→lt, length-append, length-replicate, length-set, get_elem?-set_self, get_elem?-set_ne,
  get_elem?-append_left, Bool-cases, inl, inr,
}
use rust_jvm.Prelude.Outcome.{ok}
use rust_jvm.Interpreter.{
  Variable, void, Env, with_stack, with_locals, resize_locals, store_n, store_n_long, load_n,
  load_n_long, pop, push, local_at,
}

pub length-resize_locals : (n : ℕ) (locals : List Variable) → n ≤ length (resize_locals n locals)
length-resize_locals n locals = elim (Bool-cases (ltb (length locals) n)) [
  | inl e ↦ rw e (
      omega (
        arith,
        ltb→lt (length locals) n e,
        length-append locals (replicate (n - length locals) void),
        length-replicate (n - length locals) void,
      ))
  | inr e ↦ rw e (ground arith)
]

-- Growing the locals keeps those that are there.
pub get_elem?-resize_locals :
    (n i : ℕ) (locals : List Variable)
    → i < length locals
    → get_elem? (resize_locals n locals) i ≡ get_elem? locals i
get_elem?-resize_locals n i locals h = elim (Bool-cases (ltb (length locals) n)) [
  | inl e ↦ rw e (get_elem?-append_left locals (replicate (n - length locals) void) i h)
  | inr e ↦ rw e
]

-- A local variable that was stored is loaded again, with whatever index, and the other locals that
-- there were are as before.
pub record Stores (env env' : Env) (n : ℕ) (v : Variable) (stack : List Variable) : Type 0 where
  pub stack_left : env'.frame.stack ≡ stack
  pub loaded : load_n n env' ≡ ok (with_stack env' (v ∷ stack), tt)
  pub others :
      (i : ℕ)
      → i ≢ n
      → i < length env.frame.locals
      → get_elem? env'.frame.locals i ≡ get_elem? env.frame.locals i
  pub code_kept : env'.frame.code ≡ env.frame.code
  pub pc_kept : env'.pc ≡ env.pc

-- `store_n` takes the top of the stack to the local variable `n`, also beyond the locals that there
-- are; `load_n` then pushes it again, and the other locals, the code and `pc` are as before.
pub store_n_lem :
    (env : Env) (n : ℕ) (v : Variable) (stack : List Variable)
    → env.frame.stack ≡ v ∷ stack
    → (env' : Env) × (store_n n env ≡ ok (env', tt)) × Stores env env' n v stack
unfolding store_n load_n pop push local_at
store_n_lem env n v stack h =
    let popped : Env = with_stack env stack in
    let grown = resize_locals (n + 1) env.frame.locals in
    let here =
      get_elem?-set_self grown n v (omega (arith, length-resize_locals (n + 1) env.frame.locals)) in
    (
      with_locals popped (set grown n v),
      rw h,
      record {
        stack_left = refl;
        loaded = rw here;
        others = λ i ne lt.
            get_elem?-set_ne grown n i v (λ e. ne (cc e))
            ∙ get_elem?-resize_locals (n + 1) i env.frame.locals lt;
        code_kept = refl;
        pc_kept = refl;
      },
    )

-- `store_n_long` takes two words from the stack to two locals; `load_n_long` then pushes them again,
-- and the other locals are as before.
store_n_long_lem :
    (env : Env) (n : ℕ) (v1 v2 : Variable) (stack : List Variable)
    → env.frame.stack ≡ v2 ∷ v1 ∷ stack
    → (env' : Env) × (store_n_long n env ≡ ok (env', tt))
      × (load_n_long n env' ≡ ok (with_stack env' (v2 ∷ v1 ∷ stack), tt))
      × ((i : ℕ)
          → i ≢ n
          → i ≢ n + 1
          → i < length env.frame.locals
          → get_elem? env'.frame.locals i ≡ get_elem? env.frame.locals i)
unfolding store_n_long load_n_long pop push local_at
store_n_long_lem env n v1 v2 stack h =
    let popped : Env = with_stack env stack in
    let grown = resize_locals (n + 2) env.frame.locals in
    let first = set grown n v1 in
    let room = length-resize_locals (n + 2) env.frame.locals in
    let second = get_elem?-set_self first (n + 1) v2 (omega (arith, room, length-set grown n v1)) in
    let below =
      get_elem?-set_ne first (n + 1) n v2 (λ e. absurd (omega (arith, e)))
      ∙ get_elem?-set_self grown n v1 (omega (arith, room)) in
    (
      with_locals popped (set first (n + 1) v2),
      rw h,
      rw (below, second),
      λ i ne ne' lt.
          get_elem?-set_ne first (n + 1) i v2 (λ e. ne' (cc e))
          ∙ get_elem?-set_ne grown n i v1 (λ e. ne (cc e))
          ∙ get_elem?-resize_locals (n + 2) i env.frame.locals lt,
    )
