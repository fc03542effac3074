-- ===== src/Descriptor.antt =====
-- src/descriptor.rs: field and method descriptors. A `String` is the list of its code points.
pub mod Nom
pub mod Parser
pub mod RoundTrip
pub mod Methods
pub mod Run
mod Tests
use rust_jvm.Prelude.{
  ℕ, Bool, true, false, ◌&&◌, Option, none, some, List, [], ◌∷◌, ◌++◌, ◌≡◌, ◌↔◌, arith, refl, ap,
  ap,
}
use rust_jvm.Prelude.Equality.{
  Eq, same, nat_eq, list_eq, list_same, list_same_iff, same_refl, same→eq,
}

abbrev pub Text : Type 0
Text = List ℕ

pub data FieldType : Type 0 where
  byte char double float int long short boolean : FieldType
  object : Text → FieldType
  array : FieldType → FieldType

abbrev pub ReturnType : Type 0
ReturnType = Option FieldType

pub record MethodDescriptor : Type 0 where
  pub parameters : List FieldType
  pub return_type : ReturnType

unfoldable pub is_long : FieldType → Bool
is_long long = true
is_long double = true
is_long _ = false

unfoldable pub is_primitive : FieldType → Bool
is_primitive (object _) = false
is_primitive (array _) = false
is_primitive _ = true

unfoldable pub to_descriptor : FieldType → Text
to_descriptor byte = b'B' ∷ []
to_descriptor char = b'C' ∷ []
to_descriptor double = b'D' ∷ []
to_descriptor float = b'F' ∷ []
to_descriptor int = b'I' ∷ []
to_descriptor long = b'J' ∷ []
to_descriptor short = b'S' ∷ []
to_descriptor boolean = b'Z' ∷ []
to_descriptor (object class_name) = b'L' ∷ (class_name ++ b';' ∷ [])
to_descriptor (array element_type) = b'[' ∷ to_descriptor element_type

unfoldable pub get_field_type_size : FieldType → ℕ
get_field_type_size byte = 1
get_field_type_size char = 2
get_field_type_size double = 8
get_field_type_size float = 4
get_field_type_size int = 4
get_field_type_size long = 8
get_field_type_size (object _) = 4
get_field_type_size short = 2
get_field_type_size boolean = 1
get_field_type_size (array _) = 4
