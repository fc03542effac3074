-- ===== src/Inheritance.antt =====
-- src/runtime/inheritance.rs, on the part of a class of src/runtime/structs.rs that it reads. A class
-- holds its superclass, its interfaces and its element class, so they are trees.
pub mod Relations
pub mod Types
pub mod Assign
mod Tests
use rust_jvm.Prelude.{
  ℕ, Bool, true, false, ◌&&◌, ◌||◌, Option, none, some, List, [], ◌∷◌, ◌==◌, if◌then◌else◌,
}
use rust_jvm.Prelude.Equality.{Eq, same, nat_eq, list_eq}
use rust_jvm.Prelude.Outcome.{Outcome, ok, panic, out_of_fuel, ◌>>=◌}
use rust_jvm.Descriptor.{
  Text, FieldType, byte, char, double, float, int, long, short, boolean, object, array,
  is_primitive,
}
use rust_jvm.Descriptor.Nom.{Nom}
use rust_jvm.Descriptor.Parser.{parse_field_descriptor}

mutual
  pub data Class : Type 0 where
    -- class_name, whether it is an interface, super_class, interfaces, array_element_type
    declare : Text → Bool → MaybeClass → Classes → MaybeClass → Class

  pub data MaybeClass : Type 0 where
    no_class : MaybeClass
    one_class : Class → MaybeClass

  pub data Classes : Type 0 where
    no_classes : Classes
    and_class : Class → Classes → Classes

abbrev pub class_name : Class → Text
class_name (declare n i s is e) = n

abbrev pub is_interface : Class → Bool
is_interface (declare n i s is e) = i

abbrev pub array_element_type : Class → MaybeClass
array_element_type (declare n i s is e) = e

unfoldable mutual
  pub is_same_or_sub_class_of : Class → Class → Bool
  is_same_or_sub_class_of (declare n i s is e) target =
      let of_super = super_is_same_or_sub_class_of s target in
      if same n (class_name target) then true else of_super

  pub super_is_same_or_sub_class_of : MaybeClass → Class → Bool
  super_is_same_or_sub_class_of no_class target = false
  super_is_same_or_sub_class_of (one_class c) target = is_same_or_sub_class_of c target

-- The `for` of `is_class_implements`.
unfoldable pub has_interface : Classes → Class → Bool
has_interface no_classes interface = false
has_interface (and_class c cs) interface =
    let later = has_interface cs interface in
    if same (class_name c) (class_name interface) then true else later

unfoldable mutual
  pub is_class_implements : Class → Class → Bool
  is_class_implements (declare n i s is e) interface =
      let of_super = super_implements s interface in
      if has_interface is interface then true else of_super

  pub super_implements : MaybeClass → Class → Bool
  super_implements no_class interface = false
  super_implements (one_class c) interface = is_class_implements c interface

-- `starts_with("[")`
unfoldable pub is_array : Class → Bool
is_array (declare [] i s is e) = false
is_array (declare (c ∷ cs) i s is e) = c == b'['

-- `==` of `FieldType`
unfoldable pub same_type : FieldType → FieldType → Bool
same_type byte byte = true
same_type char char = true
same_type double double = true
same_type float float = true
same_type int int = true
same_type long long = true
same_type short short = true
same_type boolean boolean = true
same_type (object n) (object m) = same n m
same_type (array t) (array u) = same_type t u
same_type _ _ = false

unfoldable pub element_of : Option (Text × FieldType) → Outcome (Option FieldType)
element_of none = panic
element_of (some (rest, array t)) = ok (some t)
element_of (some (rest, _)) = panic

module _ (nom : Nom) where
  unfoldable pub get_array_type : Class → Outcome (Option FieldType)
  get_array_type class =
      if is_array class then element_of (parse_field_descriptor nom (class_name class)) else ok none

  -- java/lang/Cloneable, java/io/Serializable and java/lang/Object
  abbrev pub cloneable : Text
  cloneable =
      b'j' ∷ b'a' ∷ b'v' ∷ b'a' ∷ b'/' ∷ b'l' ∷ b'a' ∷ b'n' ∷ b'g' ∷ b'/' ∷ b'C' ∷ b'l' ∷ b'o'
      ∷ b'n' ∷ b'e' ∷ b'a' ∷ b'b' ∷ b'l' ∷ b'e' ∷ []

  abbrev pub serializable : Text
  serializable =
      b'j' ∷ b'a' ∷ b'v' ∷ b'a' ∷ b'/' ∷ b'i' ∷ b'o' ∷ b'/' ∷ b'S' ∷ b'e' ∷ b'r' ∷ b'i' ∷ b'a'
      ∷ b'l' ∷ b'i' ∷ b'z' ∷ b'a' ∷ b'b' ∷ b'l' ∷ b'e' ∷ []

  abbrev pub object_name : Text
  object_name =
      b'j' ∷ b'a' ∷ b'v' ∷ b'a' ∷ b'/' ∷ b'l' ∷ b'a' ∷ b'n' ∷ b'g' ∷ b'/' ∷ b'O' ∷ b'b' ∷ b'j'
      ∷ b'e' ∷ b'c' ∷ b't' ∷ []

  -- An array as the source and another class as the target.
  unfoldable pub array_is_a : Class → Bool
  array_is_a target =
      if is_interface target
      then same (class_name target) cloneable || same (class_name target) serializable
      else same (class_name target) object_name

  -- `elements` is the answer for the element classes.
  unfoldable pub array_assignable :
      FieldType → Option FieldType → Class → Outcome Bool → Outcome Bool
  array_assignable source_type none target elements = ok (array_is_a target)
  array_assignable source_type (some target_type) target elements =
      if is_primitive source_type || is_primitive target_type
      then ok (same_type source_type target_type)
      else elements

  unfoldable pub assignable : Class → Option FieldType → Class → Outcome Bool → Outcome Bool
  assignable source (some source_type) target elements = do
    target_type ← get_array_type target
    array_assignable source_type target_type target elements
  assignable source none target elements = ok (
      if is_interface target
      then is_class_implements source target
      else is_same_or_sub_class_of source target)

  unfoldable mutual
    pub is_assignable_to : Class → Class → Outcome Bool
    is_assignable_to (declare n i s is e) target =
        let elements = elements_assignable e (array_element_type target) in
        get_array_type (declare n i s is e) >>= λ source_type.
        assignable (declare n i s is e) source_type target elements

    pub elements_assignable : MaybeClass → MaybeClass → Outcome Bool
    elements_assignable no_class target = panic
    elements_assignable (one_class source) no_class = panic
    elements_assignable (one_class source) (one_class target) = is_assignable_to source target
