-- ===== src/ClassLoader/Methods.antt =====
-- src/runtime/class_loader.rs: the resolution of fields and methods, from a class upwards, and
-- src/runtime/interpreter/frame.rs: the method that a virtual call finds. The fuel is a bound on the place of the class, since
-- its superclass and its interfaces stand before it.
pub mod Resolve
pub mod Virtual
pub mod Fields
use rust_jvm.Prelude.{
  ℕ, zero, suc, ◌+◌, Bool, true, false, not, ◌&&◌, ◌||◌, Option, none, some, List, [], ◌∷◌, ◌++◌,
  Bytes, get_elem?, if◌then◌else◌,
}
use rust_jvm.Prelude.Outcome.{Outcome, ok, panic, out_of_fuel, ◌>>=◌, unwrap}
use rust_jvm.Prelude.Equality.{same, nat_eq, list_eq}
use rust_jvm.Descriptor.{Text, FieldType, MethodDescriptor}
use rust_jvm.Prelude.Texts.{codes}
use rust_jvm.Constants.{NameAndType, Fieldref, Methodref}
use rust_jvm.ClassLoader.{FieldInfo, has_key, resolve_instance_field}
use rust_jvm.ClassLoader.Parse.{MethodInfo, static_flag}
use rust_jvm.ClassLoader.Vtable.{
  ClassRef, VtableIndex, VtableEntry, Class, Key, key, same_key, contains, private_flag, final_flag,
  interface_flag,
}
use rust_jvm.ClassLoader.Vtable

-- `MethodResolve`: a vtable index that is -1 is none.
pub data MethodResolve : Type 0 where
  in_this_class : ℕ → Option ℕ → MethodResolve
  other_class : ClassRef → ℕ → Option ℕ → MethodResolve

-- The `FieldResolve` of a field that is found: the class and the index.
abbrev pub FieldResolve : Type 0
FieldResolve = ClassRef × ℕ

abbrev pub signature : Methodref → Key
signature r = (r.name_and_type.name, r.name_and_type.descriptor)

-- The first entry of the list that satisfies a test, with its place from `i` on.
unfoldable pub find_from : {A : Type 0} → (A → Bool) → ℕ → List A → Option (ℕ × A)
find_from wanted i [] = none
find_from wanted i (a ∷ xs) =
    let later = find_from wanted (suc i) xs in if wanted a then some (i, a) else later

abbrev pub place_of : {A : Type 0} → Option (ℕ × A) → Option ℕ
place_of none = none
place_of (some (i, a)) = some i

-- The first of two searches that finds something.
unfoldable pub or_later : {A : Type 0} → Option A → Outcome (Option A) → Outcome (Option A)
or_later (some a) later = ok (some a)
or_later none later = later

abbrev pub is_entry_of : Key → VtableEntry → Bool
is_entry_of k e = same_key (e.name, e.descriptor) k

-- A search in the superclass, if there is one.
unfoldable pub in_super :
    {A : Type 0} → (ClassRef → Outcome (Option A)) → Option ClassRef → Outcome (Option A)
in_super search none = ok none
in_super search (some s) = search s

-- A search in the interfaces.
unfoldable pub in_interfaces :
    {A : Type 0} → (ClassRef → Outcome (Option A)) → List ClassRef → Outcome (Option A)
in_interfaces search [] = ok none
in_interfaces search (i ∷ is) = do found ← search i; or_later found (in_interfaces search is)

unfoldable pub static_found : ClassRef → Option (ℕ × MethodInfo) → Option MethodResolve
static_found c none = none
static_found c (some (i, m)) = some (other_class c i none)

-- The test of `resolve_static_method_inner` on a method.
unfoldable pub is_static_candidate : Key → MethodInfo → Bool
is_static_candidate k m = contains m.access_flags static_flag && same_key (key m) k

-- The test of `resolve_static_field` on a field.
abbrev pub is_field : Fieldref → FieldInfo → Bool
is_field r f = has_key r.name_and_type.name r.name_and_type.descriptor f

unfoldable pub field_found : ClassRef → Option (ℕ × FieldInfo) → Option FieldResolve
field_found c none = none
field_found c (some (i, f)) = some (c, f.index)

abbrev pub in_class : ClassRef → Option ℕ → Option FieldResolve
in_class c none = none
in_class c (some i) = some (c, i)

-- `to_str` gives the text of a name that is valid modified UTF-8; on other names the source panics.
module _ (to_str : Bytes → Text) where
  unfoldable pub resolve_from_vtable : Class → MethodInfo → Option ℕ
  resolve_from_vtable class method =
      let found = place_of (find_from (is_entry_of (key method)) 0 class.vtable) in
      if contains method.access_flags private_flag
        || contains method.access_flags final_flag
        || contains class.access_flags final_flag
        || same (to_str method.name) (codes "<init>")
      then none
      else found

  -- The test of `resolve_method_in_class_only` on a method.
  unfoldable pub is_candidate : Key → MethodInfo → Bool
  is_candidate k m = not (contains m.access_flags static_flag) && same_key k (key m)

  unfoldable pub found_in_class : ClassRef → Class → Option (ℕ × MethodInfo) → Option MethodResolve
  found_in_class c class none = none
  found_in_class c class (some (i, m)) = some (other_class c i (resolve_from_vtable class m))

  module _ (classes : List Class) where
    unfoldable pub resolve_method_in_class_only :
        ℕ → Key → ClassRef → Outcome (Option MethodResolve)
    resolve_method_in_class_only zero k c = out_of_fuel
    resolve_method_in_class_only (suc fuel) k c = do
      class ← unwrap (get_elem? classes c)
      let above = in_super (resolve_method_in_class_only fuel k) class.super_class
      or_later (found_in_class c class (find_from (is_candidate k) 0 class.methods)) above

    unfoldable pub resolve_method_statically_inner :
        ℕ → Methodref → Bool → ClassRef → Outcome (Option MethodResolve)
    resolve_method_statically_inner fuel method_ref skip_this c = do
      class ← unwrap (get_elem? classes c)
      let search = resolve_method_in_class_only fuel (signature method_ref)
      found ← (if skip_this then ok none else search c)
      or_later found (in_super search class.super_class)

    unfoldable pub resolve_method_statically :
        ℕ → Methodref → ClassRef → Outcome (Option MethodResolve)
    resolve_method_statically fuel method_ref c =
        resolve_method_statically_inner fuel method_ref false c

module _ (classes : List Class) where
  unfoldable pub resolve_static_method_inner :
      ℕ → Methodref → Bool → ClassRef → Outcome (Option MethodResolve)
  resolve_static_method_inner zero method_ref skip_this c = out_of_fuel
  resolve_static_method_inner (suc fuel) method_ref skip_this c = do
    class ← unwrap (get_elem? classes c)
    let here =
        static_found c (find_from (is_static_candidate (signature method_ref)) 0 class.methods)
    let above = in_super (resolve_static_method_inner fuel method_ref false) class.super_class
    or_later (if skip_this then none else here)
        (if contains class.access_flags interface_flag then ok none else above)

  unfoldable pub resolve_static_method : ℕ → Methodref → ClassRef → Outcome (Option MethodResolve)
  resolve_static_method fuel method_ref c = resolve_static_method_inner fuel method_ref false c

  unfoldable pub resolve_static_field :
      ℕ → Fieldref → Bool → ClassRef → Outcome (Option FieldResolve)
  resolve_static_field zero field_ref skip_this c = out_of_fuel
  resolve_static_field (suc fuel) field_ref skip_this c = do
    class ← unwrap (get_elem? classes c)
    let here = field_found c (find_from (is_field field_ref) 0 class.static_fields_info)
    let again = resolve_static_field fuel field_ref false
    of_interfaces ←
        (if skip_this
          then in_interfaces again class.interfaces
          else or_later here (in_interfaces again class.interfaces))
    or_later of_interfaces (in_super again class.super_class)

  unfoldable pub resolve_field : ℕ → Fieldref → Bool → ClassRef → Outcome (Option FieldResolve)
  resolve_field fuel field_ref is_static c = do
    class ← unwrap (get_elem? classes c)
    let found =
        resolve_instance_field field_ref.name_and_type.name field_ref.name_and_type.descriptor
          class.instance_fields_info
    let searched = resolve_static_field fuel field_ref false c
    if is_static then searched else ok (in_class c found)

-- `match &vtable_entry.index`: the class of the method, with the method.
unfoldable pub entry_method : List Class → ClassRef → VtableIndex → Outcome (ClassRef × MethodInfo)
entry_method classes this_class (Vtable.in_this_class index) = do
  class ← unwrap (get_elem? classes this_class)
  method ← unwrap (get_elem? class.methods index)
  ok (this_class, method)
entry_method classes this_class (Vtable.other_class c index) = do
  class ← unwrap (get_elem? classes c)
  method ← unwrap (get_elem? class.methods index)
  ok (c, method)
entry_method classes this_class (Vtable.other_interface c index) = do
  class ← unwrap (get_elem? classes c)
  method ← unwrap (get_elem? class.methods index)
  ok (c, method)

-- The method that a virtual call runs on an object of the class `this_class`.
unfoldable pub virtual_method : List Class → ClassRef → ℕ → Outcome (ClassRef × MethodInfo)
virtual_method classes this_class vtable_index = do
  class ← unwrap (get_elem? classes this_class)
  vtable_entry ← unwrap (get_elem? class.vtable vtable_index)
  entry_method classes this_class vtable_entry.index
