-- ===== src/ClassLoader/Vtable/Tests.antt =====
-- A class `O` with a method `m`, and a class `A` below it that overrides it.
use rust_jvm.Prelude.{
  false, ℕ, zero, suc, ◌≡◌, refl, arith, Option, none, some, List, [], ◌∷◌, Bytes, get_elem?,
}
use rust_jvm.Prelude.Outcome.{ok}
use rust_jvm.Prelude.Equality.{list_same}
use rust_jvm.Descriptor.{Text, MethodDescriptor, int}
use rust_jvm.Constants.{Fieldref, Methodref}
use rust_jvm.ClassLoader.{replaces}
use rust_jvm.ClassLoader.Parse.{MethodInfo}
use rust_jvm.ClassLoader.Vtable.{
  ClassRef, VtableEntry, in_this_class, Class, key, package_name, before_last, or_here, same_key,
  has_key_in, in_subclass, root_or, override_index, not_overridable, is_virtual, in_method_map,
  update_entry, update_entries, is_new, new_methods, all_interface_methods, super_vtable,
  build_vtable,
}
use rust_jvm.ClassLoader.Vtable.Equal.{same_descriptor, same_return}
use rust_jvm.ClassLoader.Vtable.Select.{Overrides}
use rust_jvm.ClassLoader.Vtable.Inherits.{IsDefinable, IsLinkedClass, IsLinked}
use rust_jvm.ClassLoader.Vtable.Linked.{build_vtable_lem}
use rust_jvm.ClassLoader.Methods.{
  find_from, or_later, in_super, resolve_from_vtable, is_candidate, found_in_class,
  resolve_method_in_class_only, resolve_method_statically_inner, resolve_method_statically,
  other_class, virtual_method, signature, MethodResolve,
}
use rust_jvm.ClassLoader.Methods.Resolve.{Finds, resolve_method_statically_lem}
use rust_jvm.ClassLoader.Methods.{FieldResolve, resolve_static_field}
use rust_jvm.ClassLoader.Methods.Fields.{FindsField, resolve_static_field_lem}
use rust_jvm.ClassLoader.Methods.Virtual.{itself, extends, virtual_method_lem}

abbrev text_of : Bytes → Text
text_of bytes = bytes

abbrev no_parameters : MethodDescriptor
no_parameters = record { parameters = []; return_type = none }

abbrev method_m : MethodInfo
method_m = record {
  access_flags = 1;
  name = b'm' ∷ [];
  descriptor = no_parameters;
  attributes = [];
}

abbrev class_of : ℕ → Option ClassRef → List VtableEntry → Class
class_of name super_class vtable = record {
  access_flags = 0x21;
  class_name = name ∷ [];
  super_class = super_class;
  interfaces = [];
  static_fields_info = [];
  instance_fields_info = [];
  methods = method_m ∷ [];
  vtable = vtable;
}

abbrev entry_of : Option ClassRef → VtableEntry
entry_of root = record {
  root_class = root;
  name = b'm' ∷ [];
  descriptor = no_parameters;
  index = in_this_class 0;
}

abbrev class_o : Class
class_o = class_of b'O' none (entry_of none ∷ [])

abbrev class_a : Class
class_a = class_of b'A' (some 0) (entry_of (some 0) ∷ [])

a_built : build_vtable text_of (class_o ∷ []) (class_of b'A' (some 0) []) ≡ ok class_a
unfolding build_vtable super_vtable update_entries update_entry in_subclass root_or override_index
    not_overridable package_name before_last or_here in_method_map replaces is_virtual same_key
    list_same same_descriptor same_return is_new has_key_in new_methods all_interface_methods
a_built = refl

abbrev no_classes : List Class
no_classes = []

a-IsDefinable : IsDefinable (class_o ∷ []) (class_of b'A' (some 0) [])
a-IsDefinable = record {
  super_class = λ s e. let first : 0 ≡ s = cc e in rw (← first) (class_o, refl, refl);
  interfaces = tt;
  vtable = refl;
}

o-IsLinkedClass :
    (classes : List Class) → get_elem? classes 0 ≡ some class_o → IsLinkedClass classes 0 class_o
o-IsLinkedClass classes at = record {
  entries = λ _.
      (record { owner = class_o; method = method_m; owned = at; found = refl; named = refl }, tt);
  super_class = λ s e. absurd (cc e);
  interfaces = tt;
}

o-IsLinked : IsLinked (class_o ∷ [])
o-IsLinked zero c at =
    let same : class_o ≡ c = cc at in rw (← same) (o-IsLinkedClass (class_o ∷ []) refl)
o-IsLinked (suc p) c at = absurd (cc at)

build_vtable_lem_example :
    (built : Class) × (build_vtable text_of (class_o ∷ []) (class_of b'A' (some 0) []) ≡ ok built)
    × ((i : ℕ) (old : VtableEntry)
        → get_elem? class_o.vtable i ≡ some old
        → (new : VtableEntry) × (get_elem? built.vtable i ≡ some new)
          × Overrides text_of (class_o ∷ []) (class_of b'A' (some 0) []) 0 1 old new)
build_vtable_lem_example =
    build_vtable_lem text_of (class_o ∷ []) (class_of b'A' (some 0) []) class_o 0 o-IsLinked
      a-IsDefinable refl refl refl

abbrev both : List Class
both = class_o ∷ class_a ∷ []

a-IsLinkedClass : IsLinkedClass both 1 class_a
a-IsLinkedClass = record {
  entries = λ _.
      (record { owner = class_a; method = method_m; owned = refl; found = refl; named = refl }, tt);
  super_class = λ s e.
      let first : 0 ≡ s = cc e in rw (← first) (omega arith, (class_o, refl, refl, λ _. keeps));
  interfaces = tt;
}
  where
    keeps :
        (i : ℕ) (old : VtableEntry)
        → get_elem? class_o.vtable i ≡ some old
        → (new : VtableEntry) × (get_elem? class_a.vtable i ≡ some new)
          × (new.name ≡ old.name)
          × (new.descriptor ≡ old.descriptor)
    keeps zero old at =
        let same : entry_of none ≡ old = cc at in rw (← same) (entry_of (some 0), refl, refl, refl)
    keeps (suc i) old at = absurd (cc at)

both-IsLinked : IsLinked both
both-IsLinked zero c at = let same : class_o ≡ c = cc at in rw (← same) (o-IsLinkedClass both refl)
both-IsLinked (suc zero) c at = let same : class_a ≡ c = cc at in rw (← same) a-IsLinkedClass
both-IsLinked (suc (suc p)) c at = absurd (cc at)

abbrev reference_m : Methodref
reference_m = record {
  class_name = b'O' ∷ [];
  name_and_type = record { name = b'm' ∷ []; descriptor = no_parameters };
}

m_resolved :
    resolve_method_statically text_of both 1 reference_m 0 ≡ ok (some (other_class 0 0 (some 0)))
unfolding resolve_method_statically resolve_method_statically_inner resolve_method_in_class_only
    or_later in_super found_in_class find_from is_candidate resolve_from_vtable same_key list_same
    same_descriptor same_return
m_resolved = refl

resolve_method_statically_lem_example :
    (r : Option MethodResolve) × (resolve_method_statically text_of both 2 reference_m 1 ≡ ok r)
    × Finds text_of both (signature reference_m) 1 r
resolve_method_statically_lem_example =
    resolve_method_statically_lem text_of both 2 reference_m 1 class_a both-IsLinked refl
      (omega arith)

virtual_method_lem_example :
    (called : ClassRef × MethodInfo) × (virtual_method both 1 0 ≡ ok called)
    × (key called.1 ≡ signature reference_m)
virtual_method_lem_example =
    virtual_method_lem text_of both 1 reference_m 0 class_o 0 0 0 1 class_a both-IsLinked refl
      (omega arith) m_resolved (extends 1 0 class_a refl refl itself) refl refl

abbrev reference_f : Fieldref
reference_f = record {
  class_name = b'O' ∷ [];
  name_and_type = record { name = b'f' ∷ []; descriptor = int };
}

resolve_static_field_lem_example :
    (r : Option FieldResolve) × (resolve_static_field both 2 reference_f false 1 ≡ ok r)
    × FindsField both reference_f 1 r
resolve_static_field_lem_example =
    resolve_static_field_lem both reference_f 2 1 class_a both-IsLinked refl (omega arith)
