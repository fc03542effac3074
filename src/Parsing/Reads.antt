-- ===== src/Parsing/Reads.antt =====
-- Rules for round trips over nom: a parser that reads what encodes a value. A rule for a chain of two
-- parsers, and one for each primitive of nom.
use rust_jvm.Prelude.{
  ℕ, ◌/◌, ◌%◌, ◌^◌, ◌<◌, ◌≡◌, refl, ◌∙◌, ap, arith, List, [], ◌∷◌, ◌++◌, map, Bytes, length, All,
}
use mathlib.Core.List.{append_assoc}
use rust_jvm.Parsing.{parsed, Parser, and_then, ◌>>=◌, pure, IsBigEndian, Nom}

-- Whatever comes behind the bytes `word` is left.
pub record Reads {A : Type 0} (p : Parser A) (word : Bytes) (a : A) : Type 0 where
  pub run : (rest : Bytes) → p (word ++ rest) ≡ parsed rest a

pub pure-Reads : {A : Type 0} (a : A) → Reads (pure a) [] a
pure-Reads a = record { run = λ rest. refl }

pub chain :
    {A B : Type 0} {p : Parser A} {v w : Bytes} {a : A} {b : B} (f : A → Parser B)
    → Reads p v a
    → Reads (f a) w b
    → Reads (p >>= f) (v ++ w) b
chain {p = p} {v = v} {w = w} f first next = record {
  run = λ rest.
      ap (λ i. and_then (p i) f) (append_assoc v w rest)
      ∙ ap (λ o. and_then o f) (first.run (w ++ rest))
      ∙ next.run rest;
}

-- A chain whose last value is only wrapped.
pub last :
    {A B : Type 0} {p : Parser A} {w : Bytes} {a : A} (f : A → B)
    → Reads p w a
    → Reads (p >>= λ x. pure (f x)) w (f a)
last f only = record { run = λ rest. ap (λ o. and_then o (λ x. pure (f x))) (only.run rest) }

-- The big-endian bytes of a number.
abbrev pub u1 : ℕ → Bytes
u1 v = v % 256 ∷ []

abbrev pub u2 : ℕ → Bytes
u2 v = v / 2 ^ 8 % 256 ∷ v % 256 ∷ []

abbrev pub u4 : ℕ → Bytes
u4 v = v / 2 ^ 24 % 256 ∷ v / 2 ^ 16 % 256 ∷ u2 v

abbrev pub u8 : ℕ → Bytes
u8 v = v / 2 ^ 56 % 256 ∷ v / 2 ^ 48 % 256 ∷ v / 2 ^ 40 % 256 ∷ v / 2 ^ 32 % 256 ∷ u4 v

module _ {p : Parser ℕ} where
  pub u1-Reads : (v : ℕ) → v < 2 ^ 8 → IsBigEndian 1 p → Reads p (u1 v) v
  u1-Reads v h e = record { run = λ rest. e.read (u1 v) rest refl ∙ ap (parsed rest) (omega arith) }

  pub u2-Reads : (v : ℕ) → v < 2 ^ 16 → IsBigEndian 2 p → Reads p (u2 v) v
  u2-Reads v h e = record { run = λ rest. e.read (u2 v) rest refl ∙ ap (parsed rest) (omega arith) }

  pub u4-Reads : (v : ℕ) → v < 2 ^ 32 → IsBigEndian 4 p → Reads p (u4 v) v
  u4-Reads v h e = record { run = λ rest. e.read (u4 v) rest refl ∙ ap (parsed rest) (omega arith) }

  pub u8-Reads : (v : ℕ) → v < 2 ^ 64 → IsBigEndian 8 p → Reads p (u8 v) v
  u8-Reads v h e = record { run = λ rest. e.read (u8 v) rest refl ∙ ap (parsed rest) (omega arith) }

-- The encodings of a list's elements, one behind the other.
abbrev pub concat_map : {A : Type 0} → (A → Bytes) → List A → Bytes
concat_map encode [] = []
concat_map encode (a ∷ xs) = encode a ++ concat_map encode xs

module _ (nom : Nom) where
  pub take-Reads : (word : Bytes) → Reads (nom.take (length word)) word word
  take-Reads word = record { run = λ rest. nom.take-append word rest }

  pub tag-Reads : (t : Bytes) → Reads (nom.tag t) t t
  tag-Reads t = record { run = λ rest. nom.tag-append t rest }

  pub count-Reads :
      {A : Type 0} {p : Parser A} (encode : A → Bytes) (P : A → Type 0) (xs : List A)
      → ((a : A) → P a → Reads p (encode a) a)
      → All P xs
      → Reads (nom.count A p (length xs)) (concat_map encode xs) xs
  count-Reads {A} {p} encode P [] reads h = record { run = λ rest. nom.count-zero A p rest }
  count-Reads {A} {p} encode P (a ∷ xs) reads (ha, h) = record {
    run = λ rest.
        nom.count-suc A p (length xs) (concat_map encode (a ∷ xs) ++ rest)
        ∙ (chain _ (reads a ha) (last _ (count-Reads encode P xs reads h))).run rest;
  }

  -- The same where the values are not what is encoded.
  pub count_map-Reads :
      {S A : Type 0} {p : Parser A} (encode : S → Bytes) (value : S → A) (P : S → Type 0)
      (xs : List S)
      → ((s : S) → P s → Reads p (encode s) (value s))
      → All P xs
      → Reads (nom.count A p (length xs)) (concat_map encode xs) (map value xs)
  count_map-Reads {A = A} {p = p} encode value P [] reads h = record {
    run = λ rest. nom.count-zero A p rest;
  }
  count_map-Reads {A = A} {p = p} encode value P (x ∷ xs) reads (hx, h) = record {
    run = λ rest.
        nom.count-suc A p (length xs) (concat_map encode (x ∷ xs) ++ rest)
        ∙ (chain _ (reads x hx) (last _ (count_map-Reads encode value P xs reads h))).run rest;
  }
