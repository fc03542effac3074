-- ===== src/Descriptor/Parser.antt =====
-- The parsers of src/descriptor.rs, over nom. A field type nests with its `[`, so the recursion of
-- `parse_field_type` takes fuel; `RoundTrip` shows that one more than the input's length is enough.
use rust_jvm.Prelude.{ℕ, zero, suc, Option, none, some, List, [], ◌∷◌, length, ◌==◌, if◌then◌else◌}
use rust_jvm.Descriptor.{
  Text, FieldType, byte, char, double, float, int, long, short, boolean, object, array, ReturnType,
  MethodDescriptor,
}
use rust_jvm.Descriptor.Nom.{Nom, Parser, ◌>>=◌}

-- The `match ch` of `parse_base_type`; the last arm is its `todo!`, for no character of `one_of`.
unfoldable pub base_type : ℕ → Option FieldType
base_type ch =
    if ch == b'B'
    then some byte
    else if ch == b'C'
    then some char
    else if ch == b'D'
    then some double
    else if ch == b'F'
    then some float
    else if ch == b'I'
    then some int
    else if ch == b'J'
    then some long
    else if ch == b'S'
    then some short
    else if ch == b'Z'
    then some boolean
    else none

abbrev pub base_chars : Text
base_chars = b'B' ∷ b'C' ∷ b'D' ∷ b'F' ∷ b'I' ∷ b'J' ∷ b'S' ∷ b'Z' ∷ []

module _ (nom : Nom) where
  unfoldable pub parse_base_type : Parser FieldType
  parse_base_type input = do
    (input, ch) ← nom.one_of base_chars input
    field_type ← base_type ch
    some (input, field_type)

  unfoldable pub parse_object_type : Parser FieldType
  parse_object_type input = do
    (input, _) ← nom.one_char b'L' input
    (input, class_name) ← nom.take_until b';' input
    (input, _) ← nom.one_char b';' input
    some (input, object class_name)

  -- `parse_field_type` is the argument.
  unfoldable pub parse_array_type : Parser FieldType → Parser FieldType
  parse_array_type parse_field_type input = do
    (input, _) ← nom.one_char b'[' input
    (input, field_type) ← parse_field_type input
    some (input, array field_type)

  unfoldable pub parse_field_type : ℕ → Parser FieldType
  parse_field_type zero input = none
  parse_field_type (suc fuel) input =
      nom.alt3 FieldType parse_base_type parse_object_type
        (parse_array_type (parse_field_type fuel)) input

  -- More than the number of `[`.
  abbrev pub enough : Text → ℕ
  enough input = suc (length input)

  unfoldable pub parse_field_descriptor : Parser FieldType
  parse_field_descriptor input = do
    (input, field_type) ← parse_field_type (enough input) input
    _ ← nom.eof input
    some (input, field_type)

  unfoldable pub parse_void_type : Parser (Option FieldType)
  parse_void_type input = do (input, _) ← nom.one_char b'V' input; some (input, none)

  unfoldable pub parse_return_type_descriptor : Parser ReturnType
  parse_return_type_descriptor input =
      nom.alt2 ReturnType (nom.map FieldType ReturnType some (parse_field_type (enough input)))
        parse_void_type input

  unfoldable pub parse_method_descriptor : Parser MethodDescriptor
  parse_method_descriptor input = do
    (input, parameters) ←
        nom.delimited ℕ (List FieldType) ℕ (nom.one_char b'(')
          (nom.many0 FieldType (parse_field_type (enough input))) (nom.one_char b')') input
    (input, return_type) ← parse_return_type_descriptor input
    _ ← nom.eof input
    some (input, record { parameters = parameters; return_type = return_type })
