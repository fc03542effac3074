-- ===== src/ClassLoader/Vtable.antt =====
-- src/runtime/class_loader/bootstrap.rs: `build_vtable`. A class that is defined already is named by its
-- place among the defined classes, which stands for the `Arc<Class>`: the superclass and the interfaces
-- of a class are defined before it.
pub mod Equal
pub mod Select
pub mod Entries
pub mod Inherits
pub mod Linked
mod Tests
use rust_jvm.Prelude.{
  ℕ, zero, suc, ◌+◌, Bool, true, false, not, ◌&&◌, ◌||◌, Option, none, some, List, [], ◌∷◌, ◌++◌,
  Bytes, length, get_elem?, bit_and, ◌==◌, if◌then◌else◌,
}
use rust_jvm.Prelude.Outcome.{Outcome, ok, panic, out_of_fuel, ◌>>=◌, unwrap}
use rust_jvm.Prelude.Equality.{Eq, same, nat_eq, list_eq}
use rust_jvm.Descriptor.{Text, MethodDescriptor}
use rust_jvm.Prelude.Texts.{codes}
use rust_jvm.ClassLoader.{FieldInfo, replaces}
use rust_jvm.ClassLoader.Parse.{MethodInfo, static_flag}
use rust_jvm.ClassLoader.Vtable.Equal.{method_descriptor_eq}

-- `Arc<Class>`
abbrev pub ClassRef : Type 0
ClassRef = ℕ

pub data VtableIndex : Type 0 where
  in_this_class : ℕ → VtableIndex
  other_class other_interface : ClassRef → ℕ → VtableIndex

pub record VtableEntry : Type 0 where
  pub root_class : Option ClassRef
  pub name : Bytes
  pub descriptor : MethodDescriptor
  pub index : VtableIndex

-- What `build_vtable` and the resolution of fields and methods read of a class.
pub record Class : Type 0 where
  pub access_flags : ℕ
  pub class_name : Text
  pub super_class : Option ClassRef
  pub interfaces : List ClassRef
  pub static_fields_info : List FieldInfo
  pub instance_fields_info : List FieldInfo
  pub methods : List MethodInfo
  pub vtable : List VtableEntry

-- `contains`
abbrev pub contains : ℕ → ℕ → Bool
contains flags flag = bit_and flags flag == flag

abbrev pub public_flag : ℕ
public_flag = 0x0001

abbrev pub private_flag : ℕ
private_flag = 0x0002

abbrev pub protected_flag : ℕ
protected_flag = 0x0004

abbrev pub final_flag : ℕ
final_flag = 0x0010

abbrev pub interface_flag : ℕ
interface_flag = 0x0200

unfoldable pub or_here : ℕ → Option Text → Option Text
or_here x (some pkg) = some (x ∷ pkg)
or_here x none = if x == b'/' then some [] else none

-- `rsplit_once('/')`, the part before.
unfoldable pub before_last : Text → Option Text
before_last [] = none
before_last (x ∷ xs) = or_here x (before_last xs)

abbrev pub or_empty : Option Text → Text
or_empty none = []
or_empty (some pkg) = pkg

unfoldable pub package_name : Class → Text
package_name class = or_empty (before_last class.class_name)

abbrev pub Key : Type 0
Key = Bytes × MethodDescriptor

abbrev pub key : MethodInfo → Key
key method = (method.name, method.descriptor)

unfoldable pub same_key : Key → Key → Bool
same_key (n, d) (m, e) = same n m && same d e

-- `HashSet::contains`
unfoldable pub has_key_in : List Key → Key → Bool
has_key_in [] k = false
has_key_in (l ∷ ls) k = same_key l k || has_key_in ls k

abbrev pub is_some : {A : Type 0} → Option A → Bool
is_some none = false
is_some (some a) = true

-- The index of an entry as it is in a subclass, with the class of its method.
unfoldable pub in_subclass : Class → VtableIndex → Outcome (VtableIndex × (ClassRef × ℕ))
in_subclass class (in_this_class index) = do
  super_class ← unwrap class.super_class
  ok (other_class super_class index, (super_class, index))
in_subclass class (other_class c index) = ok (other_class c index, (c, index))
in_subclass class (other_interface c index) = ok (other_interface c index, (c, index))

-- `get_or_insert_with`
unfoldable pub root_or : Option ClassRef → ClassRef → Option ClassRef
root_or (some root) super_class = some root
root_or none super_class = some super_class

unfoldable pub override_index : Option ℕ → VtableIndex → VtableIndex
override_index (some self_index) index = in_this_class self_index
override_index none index = index

-- The methods that a subclass of the class in another package may not override.
unfoldable pub not_overridable : MethodInfo → Class → Class → Bool
not_overridable super_method super_class class =
    not (contains super_method.access_flags public_flag)
    && not (contains super_method.access_flags protected_flag)
    && not (same (package_name super_class) (package_name class))

-- `to_str` gives the text of a name that is valid modified UTF-8; on other names the source panics.
module _ (to_str : Bytes → Text) where
  -- The filters of `method_map`.
  unfoldable pub is_virtual : MethodInfo → Bool
  is_virtual m =
      not (contains m.access_flags static_flag)
      && not (contains m.access_flags private_flag)
      && not (same (to_str m.name) (codes "<init>"))

  -- A lookup in `method_map` of the methods from the number `i` on.
  unfoldable pub in_method_map : Key → ℕ → List MethodInfo → Option ℕ
  in_method_map k i [] = none
  in_method_map k i (m ∷ ms) =
      replaces (in_method_map k (suc i) ms)
        (if is_virtual m && same_key (key m) k then some i else none)

  -- The tests on a method of the class that put it at the end.
  unfoldable pub is_new : Class → List Key → MethodInfo → Bool
  is_new class overrode_methods method =
      not (contains method.access_flags final_flag)
      && is_some (in_method_map (key method) 0 class.methods)
      && not (
          has_key_in overrode_methods (key method)
          && (contains method.access_flags public_flag
              || contains method.access_flags protected_flag))

  unfoldable pub new_methods : Class → List Key → ℕ → List MethodInfo → List VtableEntry
  new_methods class overrode_methods i [] = []
  new_methods class overrode_methods i (m ∷ ms) =
      let rest = new_methods class overrode_methods (suc i) ms in
      let entry : VtableEntry = record {
        root_class = none;
        name = m.name;
        descriptor = m.descriptor;
        index = in_this_class i;
      } in
      if is_new class overrode_methods m then entry ∷ rest else rest

  -- The tests on a method of an interface.
  unfoldable pub is_inherited : Class → MethodInfo → Bool
  is_inherited class interface_method =
      not (contains interface_method.access_flags private_flag)
      && not (contains interface_method.access_flags static_flag)
      && not (is_some (in_method_map (key interface_method) 0 class.methods))

  unfoldable pub interface_methods : Class → ClassRef → ℕ → List MethodInfo → List VtableEntry
  interface_methods class interface i [] = []
  interface_methods class interface i (m ∷ ms) =
      let rest = interface_methods class interface (suc i) ms in
      let entry : VtableEntry = record {
        root_class = some interface;
        name = m.name;
        descriptor = m.descriptor;
        index = other_interface interface i;
      } in
      if is_inherited class m then entry ∷ rest else rest

  module _ (classes : List Class) where
    -- The body of the loop over the entries, with the key that it adds to `overrode_methods`.
    unfoldable pub update_entry : Class → VtableEntry → Outcome (VtableEntry × List Key)
    update_entry class entry = do
      (index, (super_class, place)) ← in_subclass class entry.index
      owner ← unwrap (get_elem? classes super_class)
      super_method ← unwrap (get_elem? owner.methods place)
      let root = root_or entry.root_class super_class
      let found : Option ℕ = in_method_map (key super_method) 0 class.methods
      ok (
          if not_overridable super_method owner class
          then (record entry { root_class = root; index = index }, [])
          else (
            record entry { root_class = root; index = override_index found index },
            key super_method ∷ [],
          ))

    unfoldable pub update_entries : Class → List VtableEntry → Outcome (List VtableEntry × List Key)
    update_entries class [] = ok ([], [])
    update_entries class (e ∷ es) = do
      (entry, overrode) ← update_entry class e
      (entries, overrode_methods) ← update_entries class es
      ok (entry ∷ entries, overrode ++ overrode_methods)

    unfoldable pub all_interface_methods : Class → List ClassRef → Outcome (List VtableEntry)
    all_interface_methods class [] = ok []
    all_interface_methods class (i ∷ is) = do
      interface ← unwrap (get_elem? classes i)
      rest ← all_interface_methods class is
      ok (interface_methods class i 0 interface.methods ++ rest)

    -- The table of the superclass, if there is one.
    unfoldable pub super_vtable : Option ClassRef → Outcome (List VtableEntry)
    super_vtable none = ok []
    super_vtable (some s) = do super_class ← unwrap (get_elem? classes s); ok super_class.vtable

    unfoldable pub build_vtable : Class → Outcome Class
    build_vtable class = do
      inherited ← super_vtable class.super_class
      let is_interface = contains class.access_flags interface_flag
      let built = (do
        (entries, overrode_methods) ← update_entries class (class.vtable ++ inherited)
        more ← all_interface_methods class class.interfaces
        let own =
            if contains class.access_flags final_flag
            then []
            else new_methods class overrode_methods 0 class.methods
        ok (record class { vtable = entries ++ (own ++ more) }))
      if is_interface then ok (record class { vtable = class.vtable ++ inherited }) else built

  -- The last steps of `define_class`: the class, with its table, is one more that is defined.
  unfoldable pub define : List Class → Class → Outcome (List Class)
  define classes class = do built ← build_vtable classes class; ok (classes ++ built ∷ [])
