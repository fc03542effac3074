-- ===== src/Interpreter/Numbers.antt =====
-- src/runtime/interpreter/frame.rs, `get_long` and `put_long`, and the arithmetic on numbers.
use rust_jvm.Prelude.{ℕ, ◌-◌, ◌%◌, ◌^◌, ◌≤◌, ◌<◌, ◌≡◌, ◌↔◌, ◌⊎◌, arith}
use rust_jvm.Prelude.Words.{IsWord}
use rust_jvm.Interpreter.{get_long, put_long}

-- A `long` that is taken apart and put together is the same exactly where the sign of the lower
-- word is clear or the upper word has all its bits set.
get_long-put_long :
    (l : ℕ)
    → IsWord 64 l
    → (get_long (put_long l).0 (put_long l).1 ≡ l) ↔ ((l % 2 ^ 32 < 2 ^ 31) ⊎ (2 ^ 64 - 2 ^ 32 ≤ l))
unfolding get_long put_long
get_long-put_long l h = ground arith
