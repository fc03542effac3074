-- ===== src/Heap/Slices.antt =====
-- The slices of bytes that `impl Object for Box<HeapObject>` in src/runtime/heap.rs reads and writes, and
-- the bytes of a `Variable`, the least significant one first.
use rust_jvm.Prelude.{
  ℕ, zero, suc, ◌+◌, ◌*◌, ◌/◌, ◌%◌, ◌^◌, ◌≤◌, ◌<◌, ◌≡◌, ◌≢◌, refl, ap, Bool, true, false, [], ◌∷◌,
  ◌++◌, arith, Bytes, length, take, drop, leb, if◌then◌else◌, length-append, length-take,
  length-drop, take-append,
}
use rust_jvm.Prelude.Outcome.{Outcome, ok, panic}
use native.Mathlib.Nat.{le-div_iff_mul-le, div-lt_iff_lt-mul}
use native.Mathlib.Decide.{dec_lt}

-- The 32 bits of a `Variable` as bytes, and back.
unfoldable pub var_bytes : ℕ → Bytes
var_bytes v = v % 256 ∷ v / 2 ^ 8 % 256 ∷ v / 2 ^ 16 % 256 ∷ v / 2 ^ 24 % 256 ∷ []

unfoldable pub of_bytes : Bytes → ℕ
of_bytes [] = 0
of_bytes (b ∷ bs) = b + 256 * of_bytes bs

-- `array[start..start + len]`, and `copy_from_slice` into it; both panic out of range.
unfoldable pub slice : Bytes → ℕ → ℕ → Outcome Bytes
slice array start len =
    if leb (start + len) (length array) then ok (take len (drop start array)) else panic

unfoldable pub write_slice : Bytes → ℕ → Bytes → Outcome Bytes
write_slice array start v =
    if leb (start + length v) (length array)
    then ok (take start array ++ (v ++ drop (length v) (drop start array)))
    else panic

pub of_bytes-var_bytes : (v : ℕ) → v < 2 ^ 32 → of_bytes (var_bytes v) ≡ v
unfolding of_bytes var_bytes
of_bytes-var_bytes v h = omega arith

-- The array after a write.
abbrev splice : Bytes → ℕ → Bytes → Bytes
splice array start v = take start array ++ (v ++ drop (length v) (drop start array))

splice_here :
    (array v : Bytes) (start : ℕ)
    → start ≤ length array
    → take (length v) (drop start (splice array start v)) ≡ v
splice_here array v zero h = take-append v _
splice_here [] v (suc start) h = elim h [ ]
splice_here (x ∷ array) v (suc start) h = splice_here array v start (omega arith)

take-splice :
    (array v : Bytes) (start n : ℕ)
    → start ≤ length array
    → n ≤ start
    → take n (splice array start v) ≡ take n array
take-splice array v start zero h le = refl
take-splice array v zero (suc n) h le = elim le [ ]
take-splice [] v (suc start) (suc n) h le = elim h [ ]
take-splice (x ∷ array) v (suc start) (suc n) h le =
    ap (λ t. x ∷ t) (take-splice array v start n (omega arith) (omega arith))

splice_before :
    (array v : Bytes) (start k n : ℕ)
    → start ≤ length array
    → k + n ≤ start
    → take n (drop k (splice array start v)) ≡ take n (drop k array)
splice_before array v start zero n h le = take-splice array v start n h (omega arith)
splice_before array v zero (suc k) n h le = absurd (omega arith)
splice_before [] v (suc start) (suc k) n h le = elim h [ ]
splice_before (x ∷ array) v (suc start) (suc k) n h le =
    splice_before array v start k n (omega arith) (omega arith)

drop-append_drop :
    (array v : Bytes) (k : ℕ) → length v ≤ k → drop k (v ++ drop (length v) array) ≡ drop k array
drop-append_drop array [] k h = refl
drop-append_drop array (x ∷ v) zero h = elim h [ ]
drop-append_drop [] (x ∷ v) (suc k) h = drop-past v k (omega arith)
  where
    drop-past : (v : Bytes) (k : ℕ) → length v ≤ k → drop k (v ++ []) ≡ []
    drop-past [] zero h = refl
    drop-past [] (suc k) h = refl
    drop-past (x ∷ v) zero h = elim h [ ]
    drop-past (x ∷ v) (suc k) h = drop-past v k (omega arith)
drop-append_drop (y ∷ array) (x ∷ v) (suc k) h = drop-append_drop array v k (omega arith)

splice_after :
    (array v : Bytes) (start k : ℕ)
    → start ≤ length array
    → start + length v ≤ k
    → drop k (splice array start v) ≡ drop k array
splice_after array v zero k h le = drop-append_drop array v k (omega arith)
splice_after array v (suc start) zero h le = absurd (omega arith)
splice_after [] v (suc start) (suc k) h le = elim h [ ]
splice_after (x ∷ array) v (suc start) (suc k) h le =
    splice_after array v start k (omega arith) (omega arith)

length-splice :
    (array v : Bytes) (start : ℕ)
    → start + length v ≤ length array
    → length (splice array start v) ≡ length array
length-splice array v start h = omega (
  arith,
  length-append (take start array) (v ++ drop (length v) (drop start array)),
  length-append v (drop (length v) (drop start array)),
  length-take start array,
  length-drop (length v) (drop start array),
  length-drop start array,
)

-- What a write of `v` at `start` has done to an array.
pub record Writes (array array' : Bytes) (start : ℕ) (v : Bytes) : Type 0 where
  pub here : slice array' start (length v) ≡ ok v
  pub before : (k n : ℕ) → k + n ≤ start → slice array' k n ≡ slice array k n
  pub after : (k n : ℕ) → start + length v ≤ k → slice array' k n ≡ slice array k n
  pub size : length array' ≡ length array

pub write_slice_lem :
    (array : Bytes) (start : ℕ) (v : Bytes)
    → start + length v ≤ length array
    → (array' : Bytes) × (write_slice array start v ≡ ok array') × Writes array array' start v
unfolding write_slice slice
write_slice_lem array start v h =
    let size = length-splice array v start h in
    let fits : leb (start + length v) (length array) ≡ true = ground arith in
    (
      splice array start v,
      rw fits,
      record {
        here = rw (size, fits, splice_here array v start (omega arith));
        before = λ k n le. rw (size, splice_before array v start k n (omega arith) le);
        after = λ k n le. rw (size, splice_after array v start k (omega arith) le);
        size = size;
      },
    )

-- The element at another index, where the written one is as long as an element.
pub slice_other :
    (array array' v : Bytes) (index j element_size : ℕ)
    → length v ≡ element_size
    → Writes array array' (index * element_size) v
    → j ≢ index
    → slice array' (j * element_size) element_size ≡ slice array (j * element_size) element_size
slice_other array array' v index j element_size e w ne = elim (dec_lt j index) [
  | yes lt ↦ w.before (j * element_size) element_size (grind arith)
  | no ge ↦
      let gt : index + 1 ≤ j = omega arith in
      let past : (index + 1) * element_size ≤ j * element_size = grind arith in
      w.after (j * element_size) element_size (omega (arith, e, past))
]

pub element_bound :
    (n index element_size : ℕ) → index < n / element_size → index * element_size + element_size ≤ n
element_bound n index zero h = omega arith
element_bound n index (suc k) h =
    let b : suc index * suc k ≤ n = (le-div_iff_mul-le (omega arith)).0 h in omega (arith, b)

pub element_past : (n index k : ℕ) → n / suc k ≤ index → n < index * suc k + suc k
element_past n index k h =
    let b : n < suc index * suc k = (div-lt_iff_lt-mul (omega arith)).0 (omega arith) in
    omega (arith, b)

pub either_panics : (b : Bool) → ◌≡◌ {A = Outcome Bytes} (if b then panic else panic) panic
either_panics true = refl
either_panics false = refl

pub length-var_bytes : (v : ℕ) → length (var_bytes v) ≡ 4
unfolding var_bytes
length-var_bytes v = refl
