-- ===== src/Parsing/Fits.antt =====
-- Rules for parsers that nest, on inputs of at most `n` bytes: what is left is no longer than that, and
-- the fuel does not run out.
use rust_jvm.Prelude.{
  ℕ, zero, suc, ◌+◌, ◌≤◌, ◌<◌, ◌≡◌, inl, inr, arith, Bool, true, false, ◌∷◌, Bytes, length,
  length-append, if◌then◌else◌,
}
use rust_jvm.Parsing.{
  Parsed, parsed, failed, panicked, out_of_fuel, Parser, and_then, ◌>>=◌, pure, error, IsBigEndian,
  Nom,
}
use rust_jvm.Parsing.Ends.{split}

abbrev pub Leaves : {A : Type 0} → (ℕ → Type 0) → Parsed A → Type 0
Leaves P (parsed rest a) = P (length rest)
Leaves P failed = Unit
Leaves P panicked = Unit
Leaves P out_of_fuel = ⊥

pub record Fits {A : Type 0} (n : ℕ) (p : Parser A) : Type 0 where
  pub fits : (input : Bytes) → length input ≤ n → Leaves (λ left. left ≤ n) (p input)

-- A parser that takes a byte at least.
pub record Eats {A : Type 0} (n : ℕ) (p : Parser A) : Type 0 where
  pub eats : (input : Bytes) → length input ≤ n → Leaves (λ left. left < n) (p input)

and_then-Leaves :
    {A B : Type 0} (n : ℕ) (P : ℕ → Type 0) (o : Parsed A) (f : A → Parser B)
    → Leaves P o
    → ((a : A) (m : ℕ) → P m → m ≤ n → Fits m (f a))
    → ((m : ℕ) → P m → m ≤ n)
    → Leaves (λ left. left ≤ n) (and_then o f)
and_then-Leaves n P (parsed rest a) f h next small =
    lift_le (f a rest) ((next a (length rest) h (small (length rest) h)).fits rest (omega arith))
      (small (length rest) h)
  where
    lift_le :
        {B : Type 0} {m : ℕ} (o : Parsed B)
        → Leaves (λ left. left ≤ m) o
        → m ≤ n
        → Leaves (λ left. left ≤ n) o
    lift_le (parsed r b) k le = omega arith
    lift_le failed k le = tt
    lift_le panicked k le = tt
    lift_le out_of_fuel k le = k
and_then-Leaves n P failed f h next small = tt
and_then-Leaves n P panicked f h next small = tt
and_then-Leaves n P out_of_fuel f h next small = h

module _ {n : ℕ} where
  pub chain :
      {A B : Type 0} {m : Parser A} {f : A → Parser B}
      → Fits n m
      → ((a : A) (k : ℕ) → k ≤ n → Fits k (f a))
      → Fits n (m >>= f)
  chain {m = m} {f = f} first next = record {
    fits = λ input le.
        and_then-Leaves n (λ left. left ≤ n) (m input) f (first.fits input le)
          (λ a k h h'. next a k h) (λ k h. h);
  }

  pub chain_eats :
      {A B : Type 0} {m : Parser A} {f : A → Parser B}
      → Eats n m
      → ((a : A) (k : ℕ) → k < n → Fits k (f a))
      → Fits n (m >>= f)
  chain_eats {m = m} {f = f} first next = record {
    fits = λ input le.
        and_then-Leaves n (λ left. left < n) (m input) f (first.eats input le)
          (λ a k h h'. next a k h) (λ k h. omega arith);
  }

  pub pure-Fits : {A : Type 0} (a : A) → Fits n (pure a)
  pure-Fits a = record { fits = λ input le. le }

  pub error-Fits : {A : Type 0} → Fits n (error {A = A})
  error-Fits = record { fits = λ input le. tt }

  pub choose :
      {A : Type 0} {m k : Parser A} (test : Bool)
      → Fits n m
      → Fits n k
      → Fits n (if test then m else k)
  choose true yes_case no_case = yes_case
  choose false yes_case no_case = no_case

  pub number-Eats : {size : ℕ} {p : Parser ℕ} → 0 < size → IsBigEndian size p → Eats n p
  number-Eats {size} {p} positive e = record {
    eats = λ input le. elim (split size input) [
      | inl few ↦ rw (e.short input few) tt
      | inr (word, rest, same, k) ↦
          rw (same, e.read word rest k)
            (let total : length input ≡ length word + length rest =
                rw same (length-append word rest) in
              omega (arith, total, le, k, positive))
    ];
  }

  pub number-Fits : {size : ℕ} {p : Parser ℕ} → IsBigEndian size p → Fits n p
  number-Fits {size} {p} e = record {
    fits = λ input le. elim (split size input) [
      | inl few ↦ rw (e.short input few) tt
      | inr (word, rest, same, k) ↦
          rw (same, e.read word rest k)
            (let total : length input ≡ length word + length rest =
                rw same (length-append word rest) in
              omega (arith, total, le))
    ];
  }

  module _ (nom : Nom) where
    pub take-Fits : (k : ℕ) → Fits n (nom.take k)
    take-Fits k = record {
      fits = λ input le. elim (split k input) [
        | inl few ↦ rw (nom.take-short k input few) tt
        | inr (word, rest, same, size) ↦
            rw (same, ← size, nom.take-append word rest)
              (let total : length input ≡ length word + length rest =
                  rw same (length-append word rest) in
                omega (arith, total, le))
      ];
    }

pub count-Fits :
    {A : Type 0} {p : Parser A} (nom : Nom) (k n : ℕ)
    → ((m : ℕ) → m ≤ n → Fits m p)
    → Fits n (nom.count A p k)
count-Fits {A} {p} nom zero n h = record { fits = λ input le. rw (nom.count-zero A p input) le }
count-Fits {A} {p} nom (suc k) n h = record {
  fits = λ input le. rw (nom.count-suc A p k input) (
      (chain (h n (omega arith)) (λ a m le'.
          chain (count-Fits nom k m (λ j lj. h j (omega arith)))
            (λ xs j lj. pure-Fits (a ∷ xs)))).fits
        input le);
}
