-- ===== src/JavaStr.antt =====
-- src/class/structs/java_str.rs: strings in the modified UTF-8 of class files, and their
-- conversion to the one-byte and two-byte arrays of `java.lang.String`.
pub mod Encode
pub mod Info
pub mod Convert
mod Tests
use rust_jvm.Prelude.{
  ℕ, zero, suc, ◌+◌, ◌*◌, ◌/◌, ◌%◌, ◌^◌, bit_and, Bool, true, false, ◌&&◌, not, List, [], ◌∷◌, ◌++◌,
  Byte, Bytes, length, drop, ltb, leb, ◌==◌, if◌then◌else◌,
}
use rust_jvm.Prelude.Outcome.{Outcome, ok, panic, out_of_fuel, ◌>>=◌}

-- `(c & 0xC0) == 0x80`
pub is_continuation : Byte → Bool
is_continuation c = bit_and c 0xc0 == 0x80

-- What `calculate_unicode_info` returns, and the state of its loop.
pub record UnicodeInfo : Type 0 where
  pub num_chars : ℕ
  pub is_latin1 : Bool
  pub has_multibyte : Bool

-- The body of the loop, for the byte `c` after the byte `prev`.
pub count_byte : Byte → Byte → UnicodeInfo → UnicodeInfo
count_byte prev c s =
    if is_continuation c
    then record s { has_multibyte = true; is_latin1 = if ltb 0xc3 prev then false else s.is_latin1 }
    else record s { num_chars = s.num_chars + 1 }

pub scan_bytes : Bytes → Byte → UnicodeInfo → UnicodeInfo
scan_bytes [] prev s = s
scan_bytes (c ∷ cs) prev s = scan_bytes cs c (count_byte prev c s)

abbrev pub initial_info : UnicodeInfo
initial_info = record { num_chars = 0; is_latin1 = true; has_multibyte = false }

pub calculate_unicode_info : Bytes → UnicodeInfo
calculate_unicode_info inner = scan_bytes inner 0 initial_info

-- `x << k` of a `u16`.
abbrev pub shl16 : ℕ → ℕ → ℕ
shl16 x k = x * 2 ^ k % 2 ^ 16

-- The arms `0xC | 0xD` and `0xE` of `next_utf8_char`, for the first byte and what follows it.
pub two_byte_char : Byte → Bytes → ℕ × ℕ
two_byte_char ch [] = (ch, 1)
two_byte_char ch (ch2 ∷ _) =
    if is_continuation ch2 then (shl16 (bit_and ch 0x1f) 6 + bit_and ch2 0x3f, 2) else (ch, 1)

pub three_byte_char : Byte → Bytes → ℕ × ℕ
three_byte_char ch (ch2 ∷ ch3 ∷ _) =
    if is_continuation ch2 && is_continuation ch3
    then (shl16 (shl16 (bit_and ch 0x0f) 6 + bit_and ch2 0x3f) 6 + bit_and ch3 0x3f, 3)
    else (ch, 1)
three_byte_char ch _ = (ch, 1)

-- `next_utf8_char` on `bytes[start..]`; the empty rest is the case `start >= bytes.len()`.
pub next_char : Bytes → ℕ × ℕ
next_char [] = (0, 0)
next_char (ch ∷ rest) =
    if leb (ch / 16) 0x7
    then (ch, 1)
    else if ch / 16 == 0xc
    then two_byte_char ch rest
    else if ch / 16 == 0xd
    then two_byte_char ch rest
    else if ch / 16 == 0xe
    then three_byte_char ch rest
    else (ch, 1)

pub next_utf8_char : Bytes → ℕ → ℕ × ℕ
next_utf8_char bytes start = next_char (drop start bytes)

-- The type parameter `T` of `convert_to_unicode`: `u8` or `u16`.
pub data CharWidth : Type 0 where
  one_byte two_bytes : CharWidth

-- `unicode_char.try_into().expect(..)`
pub try_into : CharWidth → ℕ → Outcome ℕ
try_into one_byte c = if ltb c 0x100 then ok c else panic
try_into two_bytes c = ok c

-- The first loop of `convert_to_unicode`: what it writes, and `inner[index..]` after it.
pub ascii_loop : Bytes → ℕ → ℕ → List ℕ × Bytes
ascii_loop [] len max_len = ([], [])
ascii_loop (ch ∷ rest) len max_len =
    let (out, left) = ascii_loop rest (len + 1) max_len in
    if ltb len max_len && not (ltb 0x7f ch) then (ch ∷ out, left) else ([], ch ∷ rest)

-- `index += bytes_consumed`, and one more where that is 0.
pub advance : ℕ → ℕ
advance consumed = if consumed == 0 then 1 else consumed

-- The second loop, on `inner[index..]`: what it writes.
pub multibyte_loop : ℕ → CharWidth → Bytes → ℕ → ℕ → Outcome (List ℕ)
multibyte_loop zero w rest len max_len = out_of_fuel
multibyte_loop (suc fuel) w [] len max_len = ok []
multibyte_loop (suc fuel) w (ch ∷ rest) len max_len =
    let (unicode_char, consumed) = next_char (ch ∷ rest) in
    let later = multibyte_loop fuel w (drop (advance consumed) (ch ∷ rest)) (len + 1) max_len in
    if ltb len max_len
    then (do unit ← try_into w unicode_char; out ← later; ok (unit ∷ out))
    else ok []

-- The characters written to the buffer. The last test is the `debug_assert_eq!`.
pub convert_to_unicode : CharWidth → Bytes → ℕ → Outcome (List ℕ)
convert_to_unicode w inner max_len =
    let (ascii, rest) = ascii_loop inner 0 max_len in
    do
      out ← multibyte_loop (suc (length rest)) w rest (length ascii) max_len
      if length (ascii ++ out) == max_len then ok (ascii ++ out) else panic

-- A buffer of `u16` read as bytes, on a little-endian machine.
pub u16_bytes : List ℕ → Bytes
u16_bytes [] = []
u16_bytes (u ∷ us) = u % 256 ∷ u / 256 ∷ u16_bytes us

-- The bytes of the Java string, and `has_multibyte`.
pub to_java_string_bytes : Bytes → Bool → Outcome (Bytes × Bool)
to_java_string_bytes inner compact =
    let info = calculate_unicode_info inner in
    let has_multibyte = if compact then info.has_multibyte else true in
    let is_latin1 = if compact then info.is_latin1 else false in
    if not has_multibyte
    then ok (inner, false)
    else if is_latin1
    then (do chars ← convert_to_unicode one_byte inner info.num_chars; ok (chars, has_multibyte))
    else do
      chars ← convert_to_unicode two_bytes inner info.num_chars
      ok (u16_bytes chars, has_multibyte)
