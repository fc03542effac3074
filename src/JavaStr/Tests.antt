-- ===== src/JavaStr/Tests.antt =====
-- The conversion on concrete strings.
use rust_jvm.Prelude.{ℕ, ◌≡◌, refl, true, List, [], ◌∷◌, arith}
use rust_jvm.Prelude.Outcome.{ok}
use rust_jvm.JavaStr.{
  is_continuation, next_char, two_bytes, convert_to_unicode, to_java_string_bytes, ascii_loop,
  multibyte_loop, try_into, two_byte_char, three_byte_char, advance,
}
use rust_jvm.JavaStr.Encode.{encode, encode_char}
use rust_jvm.JavaStr.Convert.{convert_to_unicode-encode, to_java_string_bytes-encode}

-- "hé", NUL, "€"
abbrev mixed : List ℕ
mixed = 0x68 ∷ 0xe9 ∷ 0 ∷ 0x20ac ∷ []

encode-mixed : encode mixed ≡ 0x68 ∷ 0xc3 ∷ 0xa9 ∷ 0xc0 ∷ 0x80 ∷ 0xe2 ∷ 0x82 ∷ 0xac ∷ []
unfolding encode encode_char
encode-mixed = refl

decode_mixed :
    convert_to_unicode two_bytes (0x68 ∷ 0xc3 ∷ 0xa9 ∷ 0xc0 ∷ 0x80 ∷ 0xe2 ∷ 0x82 ∷ 0xac ∷ []) 4
    ≡ ok mixed
unfolding convert_to_unicode ascii_loop multibyte_loop try_into next_char two_byte_char
    three_byte_char is_continuation advance
decode_mixed = refl

convert_to_unicode-encode_example : convert_to_unicode two_bytes (encode mixed) 4 ≡ ok mixed
convert_to_unicode-encode_example = convert_to_unicode-encode two_bytes mixed (omega arith)

to_java_string_bytes-encode_example :
    to_java_string_bytes (encode (0x68 ∷ 0xe9 ∷ [])) true ≡ ok (0x68 ∷ 0xe9 ∷ [], true)
to_java_string_bytes-encode_example = to_java_string_bytes-encode (0x68 ∷ 0xe9 ∷ []) (omega arith)
