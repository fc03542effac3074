-- ===== src/Parsing/Ends.antt =====
-- Rules for what a parser over nom ends with on any input: it returns a value with a property, fails,
-- or panics where a condition holds, and its loops have fuel enough.
use rust_jvm.Prelude.{
  ℕ, zero, suc, ◌<◌, ◌≡◌, ◌⊎◌, inl, inr, refl, ap, arith, Bool, true, false, [], ◌∷◌, ◌++◌, Bytes,
  length, if◌then◌else◌,
}
use mathlib.Core.List.{List-discrete}
use native.Mathlib.Decide.{ℕ_discrete}
use rust_jvm.Parsing.{
  Parsed, parsed, failed, panicked, out_of_fuel, Parser, and_then, ◌>>=◌, pure, error, abort,
  IsBigEndian, Nom,
}

abbrev pub EndsWith : {A : Type 0} → Type 0 → (A → Type 0) → Parsed A → Type 0
EndsWith R P (parsed rest a) = P a
EndsWith R P failed = Unit
EndsWith R P panicked = R
EndsWith R P out_of_fuel = ⊥

-- `R` is where the parser may panic.
pub record Ends {A : Type 0} (R : Type 0) (p : Parser A) (P : A → Type 0) : Type 0 where
  pub ends : (input : Bytes) → EndsWith R P (p input)

abbrev pub Any : {A : Type 0} → A → Type 0
Any a = Unit

and_then-EndsWith :
    {A B : Type 0} (R : Type 0) (P : A → Type 0) (Q : B → Type 0) (o : Parsed A) (f : A → Parser B)
    → EndsWith R P o
    → ((a : A) → P a → Ends R (f a) Q)
    → EndsWith R Q (and_then o f)
and_then-EndsWith R P Q (parsed rest a) f h next = (next a h).ends rest
and_then-EndsWith R P Q failed f h next = tt
and_then-EndsWith R P Q panicked f h next = h
and_then-EndsWith R P Q out_of_fuel f h next = h

-- The bytes of a word, or too few of them.
pub split :
    (n : ℕ) (input : Bytes)
    → (length input < n)
      ⊎ ((word : Bytes) × (rest : Bytes) × (input ≡ word ++ rest) × (length word ≡ n))
split zero input = inr ([], input, refl, refl)
split (suc n) [] = inl (omega arith)
split (suc n) (b ∷ input) = elim (split n input) [
  | inl short ↦ inl (omega arith)
  | inr (word, rest, e, size) ↦ inr (b ∷ word, rest, ap (λ i. b ∷ i) e, omega (arith, size))
]

weaken-EndsWith :
    {A : Type 0} (R S : Type 0) (P Q : A → Type 0) (o : Parsed A)
    → (R → S)
    → ((a : A) → P a → Q a)
    → EndsWith R P o
    → EndsWith S Q o
weaken-EndsWith R S P Q (parsed rest a) f g h = g a h
weaken-EndsWith R S P Q failed f g h = tt
weaken-EndsWith R S P Q panicked f g h = f h
weaken-EndsWith R S P Q out_of_fuel f g h = h

pub weaken_panic :
    {A : Type 0} {R : Type 0} {P : A → Type 0} {p : Parser A} → Ends R p P → Ends Unit p Any
weaken_panic {A} {R} {P} {p} e = record {
  ends = λ input. weaken-EndsWith R Unit P Any (p input) (λ r. tt) (λ a h. tt) (e.ends input);
}

module _ {R : Type 0} where
  pub weaken : {A : Type 0} {P : A → Type 0} {p : Parser A} → Ends R p P → Ends R p Any
  weaken {A} {P} {p} e = record {
    ends = λ input. weaken-EndsWith R R P Any (p input) (λ r. r) (λ a h. tt) (e.ends input);
  }

  pub chain :
      {A B : Type 0} {P : A → Type 0} {Q : B → Type 0} {m : Parser A} {f : A → Parser B}
      → Ends R m P
      → ((a : A) → P a → Ends R (f a) Q)
      → Ends R (m >>= f) Q
  chain {P = P} {Q = Q} {m = m} {f = f} first next = record {
    ends = λ input. and_then-EndsWith R P Q (m input) f (first.ends input) next;
  }

  pub pure-Ends : {A : Type 0} {P : A → Type 0} (a : A) → P a → Ends R (pure a) P
  pure-Ends a h = record { ends = λ input. h }

  pub error-Ends : {A : Type 0} {P : A → Type 0} → Ends R (error {A = A}) P
  error-Ends = record { ends = λ input. tt }

  pub abort-Ends : {A : Type 0} {P : A → Type 0} → R → Ends R (abort {A = A}) P
  abort-Ends r = record { ends = λ input. r }

  pub choose :
      {A : Type 0} {P : A → Type 0} {m k : Parser A} (test : Bool)
      → Ends R m P
      → Ends R k P
      → Ends R (if test then m else k) P
  choose true yes_case no_case = yes_case
  choose false yes_case no_case = no_case

  pub number-Ends : {size : ℕ} {p : Parser ℕ} → IsBigEndian size p → Ends R p Any
  number-Ends {size} {p} e = record {
    ends = λ input. elim (split size input) [
      | inl few ↦ rw (e.short input few) tt
      | inr (word, rest, same, n) ↦ rw (same, e.read word rest n) tt
    ];
  }

  module _ (nom : Nom) where
    pub take-Ends : (n : ℕ) → Ends R (nom.take n) (λ word. length word ≡ n)
    take-Ends n = record {
      ends = λ input. elim (split n input) [
        | inl few ↦ rw (nom.take-short n input few) tt
        | inr (word, rest, same, size) ↦ rw (same, ← size, nom.take-append word rest) refl
      ];
    }

    pub tag-Ends : (t : Bytes) → Ends R (nom.tag t) Any
    tag-Ends t = record {
      ends = λ input. elim (split (length t) input) [
        | inl few ↦ rw (nom.tag-short t input few) tt
        | inr (word, rest, same, size) ↦ elim (List-discrete ℕ_discrete word t) [
          | yes e ↦ rw (same, e, nom.tag-append t rest) tt
          | no ne ↦ rw (same, nom.tag-other t word rest size ne) tt
        ]
      ];
    }

    pub eof-Ends : Ends R nom.eof Any
    eof-Ends = record { ends = λ input. eof_on input }
      where
        eof_on : (input : Bytes) → EndsWith R Any (nom.eof input)
        eof_on [] = rw nom.eof-nil tt
        eof_on (b ∷ input) = rw (nom.eof-cons b input) tt

    pub count-Ends :
        {A : Type 0} {P : A → Type 0} {p : Parser A} (n : ℕ)
        → Ends R p P
        → Ends R (nom.count A p n) (λ xs. length xs ≡ n)
    count-Ends {A} {P} {p} zero h = record { ends = λ input. rw (nom.count-zero A p input) refl }
    count-Ends {A} {P} {p} (suc n) h = record {
      ends = λ input. rw (nom.count-suc A p n input) (
          (chain h
              (λ a _. chain (count-Ends n h) (λ xs size. pure-Ends (a ∷ xs) (ap suc size)))).ends
            input);
    }
