-- ===== src/JavaStr/Info.antt =====
-- `calculate_unicode_info` on an encoded string.
use rust_jvm.Prelude.{
  ℕ, ◌+◌, ◌/◌, ◌%◌, ◌≤◌, ◌<◌, ◌≡◌, Bool, true, false, ◌&&◌, ◌||◌, not, List, [], ◌∷◌, ◌++◌, arith,
  ◌∙◌, Byte, Bytes, length, All, ltb, ◌==◌, if◌then◌else◌,
}
use rust_jvm.JavaStr.{UnicodeInfo, count_byte, scan_bytes, calculate_unicode_info}
use rust_jvm.JavaStr.Encode.{
  IsChar, encode_char, encode, is_continuation_low, is_continuation_mid, is_continuation_high,
  encode_char_one, encode_char_two, encode_char_three, char_form, one, two, three,
}

-- Written as one byte.
abbrev pub is_ascii : ℕ → Bool
is_ascii u = if u == 0 then false else ltb u 0x80

abbrev pub all_latin1 : List ℕ → Bool
all_latin1 [] = true
all_latin1 (u ∷ us) = ltb u 0x100 && all_latin1 us

abbrev pub all_ascii : List ℕ → Bool
all_ascii [] = true
all_ascii (u ∷ us) = is_ascii u && all_ascii us

abbrev add_char : ℕ → UnicodeInfo → UnicodeInfo
add_char u s = record {
  num_chars = s.num_chars + 1;
  is_latin1 = s.is_latin1 && ltb u 0x100;
  has_multibyte = s.has_multibyte || not (is_ascii u);
}

last_byte : ℕ → Byte
last_byte u = if is_ascii u then u else 0x80 + u % 64

module _ (prev : Byte) (s : UnicodeInfo) (u : ℕ) where
  count_one : 0 < u → u < 128 → count_byte prev u s ≡ add_char u s
  unfolding count_byte
  count_one p h = ground (arith, is_continuation_low u h)

  count_two :
      u < 2048
      → is_ascii u ≡ false
      → count_byte (0xc0 + u / 64) (0x80 + u % 64) (count_byte prev (0xc0 + u / 64) s)
        ≡ add_char u s
  unfolding count_byte
  count_two h a = ground (
    arith,
    is_continuation_mid (u % 64) (omega arith),
    is_continuation_high (0xc0 + u / 64) (omega arith) (omega arith),
  )

  count_three :
      2048 ≤ u
      → IsChar u
      → count_byte
          (0x80 + u / 64 % 64)
          (0x80 + u % 64)
          (count_byte (0xe0 + u / 4096) (0x80 + u / 64 % 64) (count_byte prev (0xe0 + u / 4096) s))
        ≡ add_char u s
  unfolding count_byte
  count_three l h = ground (
    arith,
    is_continuation_mid (u % 64) (omega arith),
    is_continuation_mid (u / 64 % 64) (omega arith),
    is_continuation_high (0xe0 + u / 4096) (omega arith) (omega arith),
  )

scan-encode_char :
    (u : ℕ) (rest : Bytes) (prev : Byte) (s : UnicodeInfo)
    → IsChar u
    → scan_bytes (encode_char u ++ rest) prev s ≡ scan_bytes rest (last_byte u) (add_char u s)
unfolding scan_bytes last_byte
scan-encode_char u rest prev s h = elim (char_form u) [
  | one p l ↦ rw (encode_char_one u p l) (ground (arith, count_one prev s u p l))
  | two p l ↦
      let a : is_ascii u ≡ false = ground arith in
      rw (encode_char_two u p l) (ground (arith, a, count_two prev s u l a))
  | three l ↦
      let a : is_ascii u ≡ false = ground arith in
      rw (encode_char_three u l) (ground (arith, a, count_three prev s u l h))
]

scan-encode :
    (us : List ℕ) (prev : Byte) (s : UnicodeInfo)
    → All IsChar us
    → scan_bytes (encode us) prev s ≡ record {
      num_chars = s.num_chars + length us;
      is_latin1 = s.is_latin1 && all_latin1 us;
      has_multibyte = s.has_multibyte || not (all_ascii us);
    }
unfolding scan_bytes encode
scan-encode [] prev s h = ground arith
scan-encode (u ∷ us) prev s (hu, hs) =
    scan-encode_char u (encode us) prev s hu
    ∙ scan-encode us (last_byte u) (add_char u s) hs
    ∙ ground arith

-- On the encoding of any characters `calculate_unicode_info` counts the characters, and finds
-- exactly whether all are below 256 and whether one is written with several bytes.
pub calculate_unicode_info-encode :
    (us : List ℕ)
    → All IsChar us
    → calculate_unicode_info (encode us) ≡ record {
      num_chars = length us;
      is_latin1 = all_latin1 us;
      has_multibyte = not (all_ascii us);
    }
unfolding calculate_unicode_info
calculate_unicode_info-encode us h = scan-encode us 0 _ h ∙ ground arith
