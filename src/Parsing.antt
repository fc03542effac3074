-- ===== src/Parsing.antt =====
-- What src/class/parser.rs and src/runtime/class_loader.rs use of the crate nom, on bytes, with what
-- nom documents of it. A parser that is given `input` returns what is left of it and a value, fails
-- with `Err::Error`, or panics; the chain of `let (input, x) = p(input)?` is a `do` block.
pub mod Reads
pub mod Ends
pub mod Fits
pub mod Run
use rust_jvm.Prelude.{ℕ, zero, suc, ◌+◌, ◌*◌, ◌<◌, ◌≡◌, ◌≢◌, List, [], ◌∷◌, ◌++◌, Bytes, length}

pub data Parsed {ℓ} (A : Type ℓ) : Type ℓ where
  parsed : Bytes → A → Parsed A
  failed : Parsed A
  panicked : Parsed A
  out_of_fuel : Parsed A

abbrev pub Parser : Type 0 → Type 0
Parser A = Bytes → Parsed A

abbrev pub and_then {ℓ κ} : {A : Type ℓ} {B : Type κ} → Parsed A → (A → Bytes → Parsed B) → Parsed B
and_then (parsed rest a) next = next a rest
and_then failed next = failed
and_then panicked next = panicked
and_then out_of_fuel next = out_of_fuel

infixl 5 ◌>>=◌ ◌>>◌
abbrev pub ◌>>=◌ : {A B : Type 0} → Parser A → (A → Parser B) → Parser B
◌>>=◌ p next input = and_then (p input) next

abbrev pub ◌>>◌ : {A B : Type 0} → Parser A → Parser B → Parser B
p >> q = p >>= λ _. q

abbrev pub pure : {A : Type 0} → A → Parser A
pure a input = parsed input a

-- `return Err(nom::Err::Error(…))`, and a panic.
abbrev pub error : {A : Type 0} → Parser A
error input = failed

abbrev pub abort : {A : Type 0} → Parser A
abort input = panicked

abbrev pub big_endian : ℕ → Bytes → ℕ
big_endian high [] = high
big_endian high (b ∷ low) = big_endian (high * 256 + b) low

-- A parser of `size` bytes as a number, the most significant one first.
pub record IsBigEndian (size : ℕ) (p : Parser ℕ) : Type 0 where
  pub read :
      (word rest : Bytes) → length word ≡ size → p (word ++ rest) ≡ parsed rest (big_endian 0 word)
  pub short : (input : Bytes) → length input < size → p input ≡ failed

-- The signed and the floating point numbers are given by their bits.
pub record Nom : Type 1 where
  pub u8 : Parser ℕ
  pub be_u16 : Parser ℕ
  pub be_u32 : Parser ℕ
  pub be_i32 : Parser ℕ
  pub be_f32 : Parser ℕ
  pub be_i64 : Parser ℕ
  pub be_f64 : Parser ℕ
  pub take : ℕ → Parser Bytes
  pub tag : Bytes → Parser Bytes
  pub eof : Parser Bytes
  pub count : (A : Type 0) → Parser A → ℕ → Parser (List A)
  pub u8-IsBigEndian : IsBigEndian 1 u8
  pub be_u16-IsBigEndian : IsBigEndian 2 be_u16
  pub be_u32-IsBigEndian : IsBigEndian 4 be_u32
  pub be_i32-IsBigEndian : IsBigEndian 4 be_i32
  pub be_f32-IsBigEndian : IsBigEndian 4 be_f32
  pub be_i64-IsBigEndian : IsBigEndian 8 be_i64
  pub be_f64-IsBigEndian : IsBigEndian 8 be_f64
  -- `take(n)`: the next n bytes, or an error where there are fewer.
  pub take-append : (word rest : Bytes) → take (length word) (word ++ rest) ≡ parsed rest word
  pub take-short : (n : ℕ) (input : Bytes) → length input < n → take n input ≡ failed
  -- `tag(t)`: the bytes of t.
  pub tag-append : (t rest : Bytes) → tag t (t ++ rest) ≡ parsed rest t
  pub tag-other :
      (t word rest : Bytes) → length word ≡ length t → word ≢ t → tag t (word ++ rest) ≡ failed
  pub tag-short : (t input : Bytes) → length input < length t → tag t input ≡ failed
  pub eof-nil : eof [] ≡ parsed [] []
  pub eof-cons : (b : ℕ) (input : Bytes) → eof (b ∷ input) ≡ failed
  -- `count(p, n)`: p, n times over.
  pub count-zero :
      (A : Type 0) (p : Parser A) (input : Bytes) → count A p zero input ≡ parsed input []
  pub count-suc :
      (A : Type 0) (p : Parser A) (n : ℕ) (input : Bytes)
      → count A p (suc n) input ≡ (p >>= λ a. count A p n >>= λ xs. pure (a ∷ xs)) input
