-- ===== src/JavaStr/Convert.antt =====
-- `convert_to_unicode` and `to_java_string_bytes` on an encoded string.
use rust_jvm.Prelude.{
  ℕ, zero, suc, ◌+◌, ◌≤◌, ◌<◌, ◌≡◌, refl, ◌∙◌, ap, Bool, true, false, not, ◌&&◌, ◌⊎◌, inl, inr, ◌/◌,
  List, [], ◌∷◌, ◌++◌, arith, Byte, Bytes, length, drop, All, ltb, lt→ltb, if◌then◌else◌,
  length-append, drop-append, Bool-cases, sym,
}
use rust_jvm.Prelude.Outcome.{ok, ◌>>=◌}
use rust_jvm.JavaStr.{
  next_char, CharWidth, one_byte, two_bytes, try_into, ascii_loop, advance, multibyte_loop,
  convert_to_unicode, u16_bytes, to_java_string_bytes,
}
use rust_jvm.JavaStr.Encode.{
  IsChar, encode, encode_char-cons, length-encode-ge, next_char-encode_char, encode_char_one,
  encode_char_two, encode_char_three, char_form, one, two, three,
}
use rust_jvm.JavaStr.Info.{is_ascii, all_ascii, all_latin1, calculate_unicode_info-encode}
use mathlib.Core.Bool.{and-eq-true_iff}

-- The characters that the ASCII loop takes, and those that it leaves.
ascii_prefix : List ℕ → List ℕ
ascii_prefix [] = []
ascii_prefix (u ∷ us) = if is_ascii u then u ∷ ascii_prefix us else []

ascii_suffix : List ℕ → List ℕ
ascii_suffix [] = []
ascii_suffix (u ∷ us) = if is_ascii u then ascii_suffix us else u ∷ us

prefix-append-suffix : (us : List ℕ) → ascii_prefix us ++ ascii_suffix us ≡ us
unfolding ascii_prefix ascii_suffix
prefix-append-suffix [] = refl
prefix-append-suffix (u ∷ us) = ground (arith, prefix-append-suffix us)

and-false : (b : Bool) → (b && false) ≡ false
and-false true = refl
and-false false = refl

ascii_loop_stop :
    (ch : Byte) (rest : Bytes) (len max_len : ℕ)
    → 0x7f < ch
    → ascii_loop (ch ∷ rest) len max_len ≡ ([], ch ∷ rest)
unfolding ascii_loop
ascii_loop_stop ch rest len max_len h = rw (lt→ltb 0x7f ch h, and-false)

is_ascii_high : (u : ℕ) → (u ≡ 0) ⊎ (0x80 ≤ u) → is_ascii u ≡ false
is_ascii_high u h = ground arith

ascii_loop-encode :
    (us : List ℕ) (len max_len : ℕ)
    → len + length us ≤ max_len
    → ascii_loop (encode us) len max_len ≡ (ascii_prefix us, encode (ascii_suffix us))
unfolding ascii_loop encode ascii_prefix ascii_suffix
ascii_loop-encode [] len max_len h = refl
ascii_loop-encode (u ∷ us) len max_len h = elim (char_form u) [
  | one p l ↦
      rw (encode_char_one u p l)
        (ground (arith, ascii_loop-encode us (len + 1) max_len (omega arith)))
  | two p l ↦
      rw (is_ascii_high u p, encode_char_two u p l)
        (ascii_loop_stop (0xc0 + u / 64) _ len max_len (omega arith))
  | three l ↦
      rw (is_ascii_high u (inr (omega arith)), encode_char_three u l)
        (ascii_loop_stop (0xe0 + u / 4096) _ len max_len (omega arith))
]

-- `w` can hold the character.
abbrev Fits : CharWidth → ℕ → Type 0
Fits one_byte u = u < 0x100
Fits two_bytes u = IsChar u

Fits-IsChar : (w : CharWidth) (u : ℕ) → Fits w u → IsChar u
Fits-IsChar one_byte u h = omega arith
Fits-IsChar two_bytes u h = h

try_into-Fits : (w : CharWidth) (u : ℕ) → Fits w u → try_into w u ≡ ok u
unfolding try_into
try_into-Fits one_byte u h = ground arith
try_into-Fits two_bytes u h = refl

advance-suc : (n : ℕ) → advance (suc n) ≡ suc n
unfolding advance
advance-suc n = ground arith

multibyte_loop_step :
    (fuel : ℕ) (w : CharWidth) (c : Byte) (cs rest : Bytes) (len max_len u n : ℕ)
    → next_char (c ∷ cs) ≡ (u, suc n)
    → drop (suc n) (c ∷ cs) ≡ rest
    → len < max_len
    → Fits w u
    → multibyte_loop (suc fuel) w (c ∷ cs) len max_len
      ≡ (multibyte_loop fuel w rest (len + 1) max_len >>= λ out. ok (u ∷ out))
unfolding multibyte_loop
multibyte_loop_step fuel w c cs rest len max_len u n e d l f =
    rw (e, advance-suc n, lt→ltb len max_len l, try_into-Fits w u f)
      (ap (λ b. multibyte_loop fuel w b (len + 1) max_len >>= λ out. ok (u ∷ out)) d)

-- The loop, on an encoded string with enough fuel and room, writes the characters.
multibyte_loop-encode :
    (us : List ℕ) (fuel : ℕ) (w : CharWidth) (len max_len : ℕ)
    → length us < fuel
    → len + length us ≤ max_len
    → All (Fits w) us
    → multibyte_loop fuel w (encode us) len max_len ≡ ok us
unfolding encode
multibyte_loop-encode us zero w len max_len hf h fits = elim hf [ ]
multibyte_loop-encode [] (suc fuel) w len max_len hf h fits = unfold multibyte_loop in refl
multibyte_loop-encode (u ∷ us) (suc fuel) w len max_len hf h (fu, fs) =
    let ih = multibyte_loop-encode us fuel w (len + 1) max_len (omega arith) (omega arith) fs in
    let (c, cs, e) = encode_char-cons u in
    let next = rw e at (next_char-encode_char u (encode us) (Fits-IsChar w u fu)) in
    rw e (
      multibyte_loop_step fuel w c (cs ++ encode us) (encode us) len max_len u (length cs) next
        (drop-append cs (encode us)) (omega arith) fu
      ∙ ap (λ r. r >>= λ out. ok (u ∷ out)) ih)

All-suffix : (w : CharWidth) (us : List ℕ) → All (Fits w) us → All (Fits w) (ascii_suffix us)
unfolding ascii_suffix
All-suffix w [] h = tt
All-suffix w (u ∷ us) (hu, hs) = elim (Bool-cases (is_ascii u)) [
  | inl a ↦ rw a (All-suffix w us hs)
  | inr a ↦ rw a (hu, hs)
]

ascii_parts_length : (us : List ℕ) → length (ascii_prefix us) + length (ascii_suffix us) ≡ length us
ascii_parts_length us =
    sym (length-append (ascii_prefix us) (ascii_suffix us)) ∙ ap length (prefix-append-suffix us)

-- Converting the encoding of characters that fit the width gives the characters back: neither a
-- panic nor a failed length assertion, and the fuel of the loop is enough.
pub convert_to_unicode-encode :
    (w : CharWidth) (us : List ℕ)
    → All (Fits w) us
    → convert_to_unicode w (encode us) (length us) ≡ ok us
unfolding convert_to_unicode
convert_to_unicode-encode w us fits =
    rw
      (
        ascii_loop-encode us 0 (length us) (omega arith),
        multibyte_loop-encode (ascii_suffix us) (suc (length (encode (ascii_suffix us)))) w
            (length (ascii_prefix us)) (length us)
            (omega (arith, length-encode-ge (ascii_suffix us)))
            (omega (arith, ascii_parts_length us)) (All-suffix w us fits),
        prefix-append-suffix us,
      )
      (ground arith)

Fits-one_byte : (us : List ℕ) → all_latin1 us ≡ true → All (Fits one_byte) us
Fits-one_byte [] h = tt
Fits-one_byte (u ∷ us) h =
    let (a, b) = (and-eq-true_iff (ltb u 0x100) (all_latin1 us)).0 h in
    (ground arith, Fits-one_byte us b)

encode-all_ascii : (us : List ℕ) → all_ascii us ≡ true → encode us ≡ us
unfolding encode
encode-all_ascii [] h = refl
encode-all_ascii (u ∷ us) h =
    let (a, b) = (and-eq-true_iff (is_ascii u) (all_ascii us)).0 h in
    rw (encode_char_one u (ground arith) (ground arith), encode-all_ascii us b)

all_latin1-all_ascii : (us : List ℕ) → all_ascii us ≡ true → all_latin1 us ≡ true
all_latin1-all_ascii [] h = refl
all_latin1-all_ascii (u ∷ us) h =
    let (a, b) = (and-eq-true_iff (is_ascii u) (all_ascii us)).0 h in
    let low : ltb u 0x100 ≡ true = ground arith in rw (low, all_latin1-all_ascii us b)

-- The array of the Java string for any characters: one byte for each character if all are below
-- 256, else two; only where every character is one ASCII byte is the second component false.
pub to_java_string_bytes-encode :
    (us : List ℕ)
    → All IsChar us
    → to_java_string_bytes (encode us) true
      ≡ ok (if all_latin1 us then us else u16_bytes us, not (all_ascii us))
unfolding to_java_string_bytes
to_java_string_bytes-encode us h =
    rw (calculate_unicode_info-encode us h) (elim (Bool-cases (all_ascii us)) [
      | inl a ↦ rw (a, all_latin1-all_ascii us a, encode-all_ascii us a)
      | inr a ↦ elim (Bool-cases (all_latin1 us)) [
        | inl l ↦ rw (a, l, convert_to_unicode-encode one_byte us (Fits-one_byte us l))
        | inr l ↦ rw (a, l, convert_to_unicode-encode two_bytes us h)
      ]
    ])
