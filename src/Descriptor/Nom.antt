-- ===== src/Descriptor/Nom.antt =====
-- What src/descriptor.rs uses of the crate nom, on text, with what nom documents of it. A parser
-- returns the rest of its input and a value, or fails with `Err::Error`, which is `none`.
use rust_jvm.Prelude.{
  ℕ, ◌<◌, ◌≡◌, Bool, true, false, Option, none, some, List, [], ◌∷◌, ◌++◌, length, All, ◌≢◌, ◌==◌,
  if◌then◌else◌,
}
use rust_jvm.Descriptor.{Text}

abbrev pub Parser : Type 0 → Type 0
Parser A = Text → Option (Text × A)

-- `alt` on the results: the second alternative runs where the first fails.
abbrev pub or_else {ℓ} : {A : Type ℓ} → Option A → Option A → Option A
or_else (some a) _ = some a
or_else none b = b

infixl 5 ◌>>=◌
abbrev pub ◌>>=◌ {ℓ κ} : {A : Type ℓ} {B : Type κ} → Option A → (A → Option B) → Option B
none >>= f = none
some a >>= f = f a

-- `[c₁, c₂, …]` has the character.
abbrev pub has_char : Text → ℕ → Bool
has_char [] d = false
has_char (c ∷ cs) d = if c == d then true else has_char cs d

pub record Nom : Type 1 where
  pub one_char : ℕ → Parser ℕ
  pub one_of : Text → Parser ℕ
  pub take_until : ℕ → Parser Text
  pub eof : Parser Text
  pub map : (A B : Type 0) → (A → B) → Parser A → Parser B
  pub alt2 : (A : Type 0) → Parser A → Parser A → Parser A
  pub alt3 : (A : Type 0) → Parser A → Parser A → Parser A → Parser A
  pub many0 : (A : Type 0) → Parser A → Parser (List A)
  pub delimited : (A B C : Type 0) → Parser A → Parser B → Parser C → Parser B
  -- `char(c)`: one character, which is `c`.
  pub one_char-nil : (c : ℕ) → one_char c [] ≡ none
  pub one_char-cons :
      (c d : ℕ) (i : Text) → one_char c (d ∷ i) ≡ (if c == d then some (i, c) else none)
  -- `one_of(list)`: one character of the list.
  pub one_of-nil : (list : Text) → one_of list [] ≡ none
  pub one_of-cons :
      (list : Text) (d : ℕ) (i : Text)
      → one_of list (d ∷ i) ≡ (if has_char list d then some (i, d) else none)
  -- `take_until(c)`: what stands before the first `c`, which is not consumed; fails without one.
  pub take_until-found :
      (c : ℕ) (xs i : Text) → All (λ x. x ≢ c) xs → take_until c (xs ++ c ∷ i) ≡ some (c ∷ i, xs)
  pub take_until-missing : (c : ℕ) (xs : Text) → All (λ x. x ≢ c) xs → take_until c xs ≡ none
  -- `eof`: succeeds at the end of the input.
  pub eof-nil : eof [] ≡ some ([], [])
  pub eof-cons : (d : ℕ) (i : Text) → eof (d ∷ i) ≡ none
  pub map-run :
      (A B : Type 0) (f : A → B) (p : Parser A) (i : Text)
      → map A B f p i ≡ (p i >>= λ (r : Text × A). some (r.0, f r.1))
  -- `alt`: the first alternative that succeeds.
  pub alt2-run : (A : Type 0) (p q : Parser A) (i : Text) → alt2 A p q i ≡ or_else (p i) (q i)
  pub alt3-run :
      (A : Type 0) (p q r : Parser A) (i : Text)
      → alt3 A p q r i ≡ or_else (p i) (or_else (q i) (r i))
  -- `many0`: repeats a parser that consumes until it fails.
  pub many0-stop : (A : Type 0) (p : Parser A) (i : Text) → p i ≡ none → many0 A p i ≡ some (i, [])
  pub many0-step :
      (A : Type 0) (p : Parser A) (i r : Text) (a : A)
      → p i ≡ some (r, a)
      → length r < length i
      → many0 A p i ≡ (many0 A p r >>= λ (s : Text × List A). some (s.0, a ∷ s.1))
  -- `delimited`: three parsers in a row, of which the second gives the value.
  pub delimited-run :
      (A B C : Type 0) (p : Parser A) (q : Parser B) (s : Parser C) (i : Text)
      → delimited A B C p q s i ≡ (
          p i >>= λ (x : Text × A).
          q x.0 >>= λ (y : Text × B). s y.0 >>= λ (z : Text × C). some (z.0, y.1))
