-- ===== src/ClassLoader.antt =====
-- src/runtime/class_loader.rs and src/runtime/class_loader/bootstrap.rs: where the fields of a class
-- are put, and how a field is found; the fields of the superclass are a list, which is empty where
-- there is none. `Parse` has `parse_class`.
pub mod Parse
pub mod Vtable
pub mod Methods
pub mod Statics
pub mod Layout
pub mod Lookup
mod Tests
use rust_jvm.Prelude.{
  Bytes, ℕ, zero, suc, ◌+◌, Bool, true, false, ◌&&◌, Option, none, some, List, [], ◌∷◌, ◌++◌,
  length, if◌then◌else◌,
}
use rust_jvm.Prelude.Equality.{same, nat_eq, list_eq}
use rust_jvm.Descriptor.{FieldType, is_long}
use rust_jvm.Attributes.Data.{AttributeInfo}
use rust_jvm.Inheritance.{same_type}
use rust_jvm.Interpreter.{Variable, put_long}

pub record FieldInfo : Type 0 where
  pub access_flags : ℕ
  pub name : Bytes
  pub descriptor : FieldType
  pub attributes : List AttributeInfo
  pub index : ℕ

-- The words that a field takes.
abbrev pub words : FieldInfo → ℕ
words f = if is_long f.descriptor then 2 else 1

-- `1 + if f.descriptor.0.is_long() { f.index + 1 } else { f.index }` of the last field, else 0.
unfoldable pub next_index : List FieldInfo → ℕ
next_index [] = 0
next_index (f ∷ []) = 1 + (if is_long f.descriptor then f.index + 1 else f.index)
next_index (f ∷ g ∷ fs) = next_index (g ∷ fs)

-- The `for` that gives the indices, from `instance_field_num` on.
unfoldable pub assign_indices : ℕ → List FieldInfo → List FieldInfo
assign_indices n [] = []
assign_indices n (f ∷ fs) =
    record f { index = n } ∷ assign_indices (if is_long f.descriptor then n + 2 else n + 1) fs

-- The `instance_fields_info` that `resolve_this_class_field_ref` leaves: those of the superclass
-- first.
unfoldable pub layout : List FieldInfo → List FieldInfo → List FieldInfo
layout super own = super ++ assign_indices (next_index super) own

unfoldable pub has_key : Bytes → FieldType → FieldInfo → Bool
has_key name descriptor f = same f.name name && same_type f.descriptor descriptor

-- A later entry of a map replaces an earlier one of the same key.
unfoldable pub replaces : Option ℕ → Option ℕ → Option ℕ
replaces (some i) earlier = some i
replaces none earlier = earlier

-- A lookup in `field_map`.
unfoldable pub in_field_map : Bytes → FieldType → List FieldInfo → Option ℕ
in_field_map name descriptor [] = none
in_field_map name descriptor (f ∷ fs) =
    replaces (in_field_map name descriptor fs)
      (if has_key name descriptor f then some f.index else none)

-- The index that `resolve_this_class_field_ref` sets for a reference to a field of the class itself.
unfoldable pub resolve_in_this_class :
    Bytes → FieldType → List FieldInfo → List FieldInfo → Option ℕ
resolve_in_this_class name descriptor super own =
    in_field_map name descriptor (super ++ assign_indices (next_index super) own)

-- The index that `resolve_instance_field` finds for a reference from another class.
unfoldable pub resolve_instance_field : Bytes → FieldType → List FieldInfo → Option ℕ
resolve_instance_field name descriptor [] = none
resolve_instance_field name descriptor (f ∷ fs) =
    let later = resolve_instance_field name descriptor fs in
    if has_key name descriptor f then some f.index else later

-- The loop of `allocate_static_fields`, after `static_fields`: the fields with their indices, and the
-- variables.
unfoldable pub allocate_from : List Variable → List FieldInfo → List FieldInfo × List Variable
allocate_from static_fields [] = ([], static_fields)
allocate_from static_fields (f ∷ fs) =
    let (a, b) = put_long 0 in
    let pushed =
      if is_long f.descriptor then static_fields ++ a ∷ b ∷ [] else static_fields ++ 0 ∷ [] in
    let (rest, variables) = allocate_from pushed fs in
    (record f { index = length static_fields } ∷ rest, variables)

unfoldable pub allocate_static_fields : List FieldInfo → List FieldInfo × List Variable
allocate_static_fields fields = allocate_from [] fields

-- `fields_types.len()` of `new_object`, the words of an object.
unfoldable pub object_words : List FieldInfo → ℕ
object_words [] = 0
object_words (f ∷ fs) = (if is_long f.descriptor then 2 else 1) + object_words fs
