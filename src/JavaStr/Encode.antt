-- ===== src/JavaStr/Encode.antt =====
-- Modified UTF-8 as the class file format defines it: what `next_utf8_char` has to decode.
use rust_jvm.Prelude.{
  ℕ, ◌+◌, ◌/◌, ◌%◌, ◌≤◌, ◌<◌, ◌≡◌, ◌⊎◌, inl, inr, true, false, List, [], ◌∷◌, ◌++◌, arith, Byte,
  Bytes, IsByte, length, length-append, ltb, ◌==◌, if◌then◌else◌, Bool-cases, and_0xc0, and_0x3f,
  and_0x1f, and_0x0f,
}
use rust_jvm.JavaStr.{is_continuation, two_byte_char, three_byte_char, next_char}

-- A UTF-16 code unit.
abbrev pub IsChar : ℕ → Type 0
IsChar u = u < 0x10000

-- A character other than NUL below 0x80 is one byte, NUL and the others below 0x800 are two.
unfoldable pub encode_char : ℕ → Bytes
encode_char u =
    if u == 0
    then 0xc0 ∷ 0x80 ∷ []
    else if ltb u 0x80
    then u ∷ []
    else if ltb u 0x800
    then (0xc0 + u / 64) ∷ (0x80 + u % 64) ∷ []
    else (0xe0 + u / 4096) ∷ (0x80 + u / 64 % 64) ∷ (0x80 + u % 64) ∷ []

unfoldable pub encode : List ℕ → Bytes
encode [] = []
encode (u ∷ us) = encode_char u ++ encode us

pub is_continuation_low : (c : Byte) → c < 128 → is_continuation c ≡ false
unfolding is_continuation
is_continuation_low c h = ground (arith, and_0xc0 c (omega arith))

pub is_continuation_high : (c : Byte) → 192 ≤ c → IsByte c → is_continuation c ≡ false
unfolding is_continuation
is_continuation_high c h b = ground (arith, and_0xc0 c b)

pub is_continuation_mid : (x : ℕ) → x < 64 → is_continuation (128 + x) ≡ true
unfolding is_continuation
is_continuation_mid x h = ground (arith, and_0xc0 (128 + x) (omega arith))

-- The three forms of an encoded character.
pub encode_char_one : (u : ℕ) → 0 < u → u < 128 → encode_char u ≡ u ∷ []
unfolding encode_char
encode_char_one u p h = ground arith

pub encode_char_two :
    (u : ℕ)
    → (u ≡ 0) ⊎ (128 ≤ u)
    → u < 2048
    → encode_char u ≡ (0xc0 + u / 64) ∷ (0x80 + u % 64) ∷ []
unfolding encode_char
encode_char_two u p h = ground arith

pub encode_char_three :
    (u : ℕ)
    → 2048 ≤ u
    → encode_char u ≡ (0xe0 + u / 4096) ∷ (0x80 + u / 64 % 64) ∷ (0x80 + u % 64) ∷ []
unfolding encode_char
encode_char_three u h = ground arith

pub data CharForm (u : ℕ) : Type 0 where
  one : 0 < u → u < 128 → CharForm u
  two : (u ≡ 0) ⊎ (128 ≤ u) → u < 2048 → CharForm u
  three : 2048 ≤ u → CharForm u

pub char_form : (u : ℕ) → CharForm u
char_form u = elim (Bool-cases (u == 0)) [
  | inl z ↦ two (inl (ground arith)) (ground arith)
  | inr nz ↦ elim (Bool-cases (ltb u 128)) [
    | inl small ↦ one (ground arith) (ground arith)
    | inr big ↦ elim (Bool-cases (ltb u 2048)) [
      | inl mid ↦ two (inr (ground arith)) (ground arith)
      | inr high ↦ three (ground arith)
    ]
  ]
]

-- An encoding has a first byte.
pub encode_char-cons : (u : ℕ) → (c : Byte) × (cs : Bytes) × (encode_char u ≡ c ∷ cs)
encode_char-cons u = elim (char_form u) [
  | one p l ↦ (_, _, encode_char_one u p l)
  | two p l ↦ (_, _, encode_char_two u p l)
  | three l ↦ (_, _, encode_char_three u l)
]

pub length-encode-ge : (us : List ℕ) → length us ≤ length (encode us)
unfolding encode
length-encode-ge [] = omega arith
length-encode-ge (u ∷ us) =
    let (c, cs, e) = encode_char-cons u in
    rw e (omega (arith, length-append cs (encode us), length-encode-ge us))

next_char-two :
    (u : ℕ) (rest : Bytes)
    → u < 2048
    → next_char ((0xc0 + u / 64) ∷ (0x80 + u % 64) ∷ rest) ≡ (u, 2)
unfolding next_char two_byte_char
next_char-two u rest h = ground (
  arith,
  is_continuation_mid (u % 64) (omega arith),
  and_0x1f (0xc0 + u / 64) (omega arith),
  and_0x3f (0x80 + u % 64) (omega arith),
)

next_char-three :
    (u : ℕ) (rest : Bytes)
    → 2048 ≤ u
    → IsChar u
    → next_char ((0xe0 + u / 4096) ∷ (0x80 + u / 64 % 64) ∷ (0x80 + u % 64) ∷ rest) ≡ (u, 3)
unfolding next_char three_byte_char
next_char-three u rest l h = ground (
  arith,
  is_continuation_mid (u % 64) (omega arith),
  is_continuation_mid (u / 64 % 64) (omega arith),
  and_0x0f (0xe0 + u / 4096) (omega arith),
  and_0x3f (0x80 + u / 64 % 64) (omega arith),
  and_0x3f (0x80 + u % 64) (omega arith),
)

next_char-one : (u : ℕ) (rest : Bytes) → u < 128 → next_char (u ∷ rest) ≡ (u, 1)
unfolding next_char
next_char-one u rest h = ground arith

-- Decoding at an encoded character gives that character and the length of its encoding.
pub next_char-encode_char :
    (u : ℕ) (rest : Bytes)
    → IsChar u
    → next_char (encode_char u ++ rest) ≡ (u, length (encode_char u))
next_char-encode_char u rest h = elim (char_form u) [
  | one p l ↦ rw (encode_char_one u p l) (next_char-one u rest l)
  | two p l ↦ rw (encode_char_two u p l) (next_char-two u rest l)
  | three l ↦ rw (encode_char_three u l) (next_char-three u rest l h)
]
