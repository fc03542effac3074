-- ===== src/ClassFile/RoundTrip.antt =====
-- Reading back a class file: `class_file` of src/class/parser.rs.
use rust_jvm.Prelude.{ℕ, ◌≡◌, refl, sym, ◌∙◌, ap, List, [], ◌∷◌, ◌++◌, Bytes, length}
use mathlib.Core.List.{append_assoc, append-nil}
use rust_jvm.Parsing.{Parsed, parsed, failed, Parser, and_then, ◌>>=◌, pure, Nom}
use rust_jvm.Parsing.Reads.{
  Reads, chain, last, u2, u2-Reads, u4-Reads, take-Reads, tag-Reads, count-Reads,
}
use rust_jvm.ClassFile.{
  AttributeInfo, FieldInfo, MethodInfo, Class, parse_header, parse_interfaces, parse_attribute,
  parse_attributes, parse_field, parse_fields, parse_method, parse_methods, class_file,
}
use rust_jvm.ClassFile.Encode.{
  IsU16, encode_list, IsListOf, encode_attribute, IsAttribute, encode_field, IsField, encode_method,
  IsMethod, magic, encode_header, encode, IsClassFile,
}
use rust_jvm.ClassFile.Pool.{parse_constant_pool-Reads}

-- A parser on the bytes `word` with `tail` behind them.
record Runs {B : Type 0} (p : Parser B) (word tail : Bytes) (out : Parsed B) : Type 0 where
  run : p (word ++ tail) ≡ out

step :
    {A B : Type 0} {p : Parser A} {v w tail : Bytes} {a : A} {out : Parsed B} (f : A → Parser B)
    → Reads p v a
    → Runs (f a) w tail out
    → Runs (p >>= f) (v ++ w) tail out
step {p = p} {v = v} {w = w} {tail = tail} f first next = record {
  run =
      ap (λ i. and_then (p i) f) (append_assoc v w tail)
      ∙ ap (λ o. and_then o f) (first.run (w ++ tail))
      ∙ next.run;
}

final :
    {A B : Type 0} {p : Parser A} {v tail : Bytes} {a : A} {out : Parsed B} (f : A → Parser B)
    → Reads p v a
    → f a tail ≡ out
    → Runs (p >>= f) v tail out
final {tail = tail} f first next = record { run = ap (λ o. and_then o f) (first.run tail) ∙ next }

module _ (nom : Nom) where
  u2_read : (v : ℕ) → IsU16 v → Reads nom.be_u16 (u2 v) v
  u2_read v h = u2-Reads v h nom.be_u16-IsBigEndian

  list_read :
      {A : Type 0} {p : Parser A} (encode : A → Bytes) (P : A → Type 0) (xs : List A)
      → ((a : A) → P a → Reads p (encode a) a)
      → IsListOf P xs
      → Reads (nom.be_u16 >>= λ n. nom.count A p n) (encode_list encode xs) xs
  list_read encode P xs reads (size, h) =
      chain _ (u2_read (length xs) size) (count-Reads nom encode P xs reads h)

  parse_header-Reads :
      (minor major : ℕ)
      → IsU16 minor
      → IsU16 major
      → Reads (parse_header nom) (encode_header minor major) (minor, major)
  unfolding parse_header
  parse_header-Reads minor major h k =
      chain _ (tag-Reads nom magic)
        (chain _ (u2_read minor h) (last (λ (x : ℕ). (minor, x)) (u2_read major k)))

  parse_attribute-Reads :
      (a : AttributeInfo) → IsAttribute a → Reads (parse_attribute nom) (encode_attribute a) a
  unfolding parse_attribute
  parse_attribute-Reads a (name, size) = chain _ (u2_read a.attribute_name_index name) (
      chain _ (u4-Reads (length a.info) size nom.be_u32-IsBigEndian)
        (last _ (take-Reads nom a.info)))

  parse_attributes-Reads :
      (xs : List AttributeInfo)
      → IsListOf IsAttribute xs
      → Reads (parse_attributes nom) (encode_list encode_attribute xs) xs
  unfolding parse_attributes
  parse_attributes-Reads xs = list_read encode_attribute IsAttribute xs parse_attribute-Reads

  parse_field-Reads : (f : FieldInfo) → IsField f → Reads (parse_field nom) (encode_field f) f
  unfolding parse_field
  parse_field-Reads f (flags, name, descriptor, attributes) =
      chain _ (u2_read f.access_flags flags) (
        chain _ (u2_read f.name_index name) (
          chain _ (u2_read f.descriptor_index descriptor)
            (last _ (parse_attributes-Reads f.attributes attributes))))

  parse_method-Reads : (m : MethodInfo) → IsMethod m → Reads (parse_method nom) (encode_method m) m
  unfolding parse_method
  parse_method-Reads m (flags, name, descriptor, attributes) =
      chain _ (u2_read m.access_flags flags) (
        chain _ (u2_read m.name_index name) (
          chain _ (u2_read m.descriptor_index descriptor)
            (last _ (parse_attributes-Reads m.attributes attributes))))

  -- After the class the parser is at what stands behind it, and only the end of the input will do.
  class_file-encode-append :
      (c : Class) (tail : Bytes)
      → IsClassFile c
      → Runs (class_file nom) (encode c) tail ((nom.eof >>= λ _. pure c) tail)
  unfolding class_file parse_interfaces parse_fields parse_methods
  class_file-encode-append c tail h =
      step _ (parse_header-Reads c.minor_version c.major_version h.minor_version h.major_version) (
        step _ (parse_constant_pool-Reads nom c.constant_pool h.constant_pool h.pool_size) (
          step _ (u2_read c.access_flags h.access_flags) (
            step _ (u2_read c.this_class h.this_class) (
              step _ (u2_read c.super_class h.super_class) (
                step _ (list_read u2 IsU16 c.interfaces u2_read h.interfaces) (
                  step _ (list_read encode_field IsField c.fields parse_field-Reads h.fields) (
                    step _ (list_read encode_method IsMethod c.methods parse_method-Reads h.methods)
                      (final _ (parse_attributes-Reads c.attributes h.attributes) refl))))))))

  -- Parsing the bytes of a class gives the class back.
  pub class_file-encode : (c : Class) → IsClassFile c → class_file nom (encode c) ≡ parsed [] c
  class_file-encode c h =
      ap (class_file nom) (sym (append-nil (encode c)))
      ∙ (class_file-encode-append c [] h).run
      ∙ ap (λ o. and_then o (λ (_ : Bytes). pure c)) nom.eof-nil

  -- A class with anything behind its bytes is refused.
  pub class_file-encode_rest :
      (c : Class) (b : ℕ) (rest : Bytes)
      → IsClassFile c
      → class_file nom (encode c ++ b ∷ rest) ≡ failed
  class_file-encode_rest c b rest h =
      (class_file-encode-append c (b ∷ rest) h).run
      ∙ ap (λ o. and_then o (λ (_ : Bytes). pure c)) (nom.eof-cons b rest)
