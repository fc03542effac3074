-- ===== src/Parsing/Run.antt =====
-- The parsers of nom as functions, which satisfy what `Nom` asks of them.
use rust_jvm.Prelude.{
  ℕ, zero, suc, ◌<◌, ◌≡◌, ◌≢◌, refl, arith, false, List, [], ◌∷◌, ◌++◌, Bytes, length, take, drop,
  length-append, take-append, drop-append, ltb, lt→ltb, if◌then◌else◌,
}
use rust_jvm.Prelude.Equality.{same, nat_eq, list_eq, same_refl, same_ne}
use rust_jvm.Parsing.{parsed, failed, Parser, ◌>>=◌, pure, error, big_endian, IsBigEndian, Nom}

abbrev pub take_bytes : ℕ → Parser Bytes
take_bytes n input = if ltb (length input) n then failed else parsed (drop n input) (take n input)

abbrev pub number : ℕ → Parser ℕ
number size = do word ← take_bytes size; pure (big_endian 0 word)

abbrev pub tag : Bytes → Parser Bytes
tag t = do word ← take_bytes (length t); if same word t then pure word else error

abbrev pub eof : Parser Bytes
eof [] = parsed [] []
eof (b ∷ input) = failed

abbrev pub count : (A : Type 0) → Parser A → ℕ → Parser (List A)
count A p zero = pure []
count A p (suc n) = do a ← p; xs ← count A p n; pure (a ∷ xs)

pub take_bytes-append :
    (word rest : Bytes) → take_bytes (length word) (word ++ rest) ≡ parsed rest word
take_bytes-append word rest =
    let enough : ltb (length (word ++ rest)) (length word) ≡ false =
      ground (arith, length-append word rest) in
    rw (enough, drop-append word rest, take-append word rest)

pub take_bytes-short : (n : ℕ) (input : Bytes) → length input < n → take_bytes n input ≡ failed
take_bytes-short n input h = rw (lt→ltb _ _ h)

pub number-IsBigEndian : (size : ℕ) → IsBigEndian size (number size)
number-IsBigEndian size = record {
  read = λ word rest e. rw (← e, take_bytes-append word rest);
  short = λ input h. rw (take_bytes-short size input h);
}

pub tag-append : (t rest : Bytes) → tag t (t ++ rest) ≡ parsed rest t
tag-append t rest = rw (take_bytes-append t rest, same_refl t)

pub tag-other :
    (t word rest : Bytes) → length word ≡ length t → word ≢ t → tag t (word ++ rest) ≡ failed
tag-other t word rest e ne = rw (← e, take_bytes-append word rest, same_ne word t ne)

abbrev pub run : Nom
run = record {
  u8 = number 1;
  be_u16 = number 2;
  be_u32 = number 4;
  be_i32 = number 4;
  be_f32 = number 4;
  be_i64 = number 8;
  be_f64 = number 8;
  take = take_bytes;
  tag = tag;
  eof = eof;
  count = count;
  u8-IsBigEndian = number-IsBigEndian 1;
  be_u16-IsBigEndian = number-IsBigEndian 2;
  be_u32-IsBigEndian = number-IsBigEndian 4;
  be_i32-IsBigEndian = number-IsBigEndian 4;
  be_f32-IsBigEndian = number-IsBigEndian 4;
  be_i64-IsBigEndian = number-IsBigEndian 8;
  be_f64-IsBigEndian = number-IsBigEndian 8;
  take-append = take_bytes-append;
  take-short = take_bytes-short;
  tag-append = tag-append;
  tag-other = tag-other;
  tag-short = λ t input h. rw (take_bytes-short (length t) input h);
  eof-nil = refl;
  eof-cons = λ b input. refl;
  count-zero = λ A p input. refl;
  count-suc = λ A p n input. refl;
}
