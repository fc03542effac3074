-- ===== src/Constants.antt =====
-- src/runtime/structs/constant_pool.rs and, of src/runtime/class_loader.rs, `parse_constant_pool` and the
-- functions `resolve_…` that read a pool. The conversion of a `JavaStr` to a `str` by the crate
-- cesu8_java and the combinators of nom are arguments. That a class or a field of an entry is resolved
-- later is not part of the entry.
pub mod Linked
pub mod Names
pub mod Pool
mod Tests
use rust_jvm.Prelude.{
  ℕ, zero, suc, ◌+◌, ◌-◌, Option, none, some, List, [], ◌∷◌, Bytes, length, get_elem?, ◌==◌,
  if◌then◌else◌,
}
use rust_jvm.Prelude.Outcome.{Outcome, ok, panic, ◌>>=◌, unwrap}
use rust_jvm.Prelude.Equality.{lookup, insert, nat_eq}
use rust_jvm.Descriptor.{Text, FieldType, MethodDescriptor}
use rust_jvm.Descriptor.Nom
use rust_jvm.Descriptor.Parser.{parse_field_descriptor, parse_method_descriptor}
use rust_jvm.ClassFile

-- `CpNameAndTypeInfo`
pub record NameAndType (T : Type 0) : Type 0 where
  pub name : Bytes
  pub descriptor : T

pub record Fieldref : Type 0 where
  pub class_name : Text
  pub name_and_type : NameAndType FieldType

pub record Methodref : Type 0 where
  pub class_name : Text
  pub name_and_type : NameAndType MethodDescriptor

pub data ReferenceKind : Type 0 where
  get_field get_static put_field put_static invoke_virtual invoke_static invoke_special
        new_invoke_special invoke_interface :
      ReferenceKind

pub record MethodHandle : Type 0 where
  pub reference_kind : ReferenceKind
  pub reference_index : ℕ

pub data ConstantPoolInfo : Type 0 where
  utf8 : Bytes → ConstantPoolInfo
  integer float long double : ℕ → ConstantPoolInfo
  -- the name of the class
  class : Text → ConstantPoolInfo
  string : Bytes → ConstantPoolInfo
  fieldref : Fieldref → ConstantPoolInfo
  methodref interface_methodref : Methodref → ConstantPoolInfo
  name_and_type : NameAndType Bytes → ConstantPoolInfo
  method_handle : MethodHandle → ConstantPoolInfo
  method_type : ConstantPoolInfo
  -- `bootstrap_method_attr_index`
  dynamic : ℕ → NameAndType FieldType → ConstantPoolInfo
  invoke_dynamic : ℕ → NameAndType MethodDescriptor → ConstantPoolInfo
  module_info package_info : Bytes → ConstantPoolInfo
  empty : ConstantPoolInfo

-- `constant_pool[index as usize - 1]`
unfoldable pub entry {ℓ} : {A : Type ℓ} → List A → ℕ → Outcome A
entry constant_pool index =
    if index == 0 then panic else unwrap (get_elem? constant_pool (index - 1))

unfoldable pub as_utf8 : ClassFile.ConstantPoolInfo → Outcome Bytes
as_utf8 (ClassFile.utf8 bytes) = ok bytes
as_utf8 _ = panic

unfoldable pub resolve_cp_utf8 : List ClassFile.ConstantPoolInfo → ℕ → Outcome Bytes
resolve_cp_utf8 constant_pool index = do info ← entry constant_pool index; as_utf8 info

unfoldable pub as_name_and_type : ClassFile.ConstantPoolInfo → Outcome (ℕ × ℕ)
as_name_and_type (ClassFile.name_and_type name_index descriptor_index) =
    ok (name_index, descriptor_index)
as_name_and_type _ = panic

unfoldable pub reference_kind_of : ℕ → Outcome ReferenceKind
reference_kind_of kind =
    if kind == 1
    then ok get_field
    else if kind == 2
    then ok get_static
    else if kind == 3
    then ok put_field
    else if kind == 4
    then ok put_static
    else if kind == 5
    then ok invoke_virtual
    else if kind == 6
    then ok invoke_static
    else if kind == 7
    then ok invoke_special
    else if kind == 8
    then ok new_invoke_special
    else if kind == 9
    then ok invoke_interface
    else panic

unfoldable pub resolve_cp_name_and_type :
    List ClassFile.ConstantPoolInfo → ℕ → ℕ → Outcome (NameAndType Bytes)
resolve_cp_name_and_type cp name_index descriptor_index = do
  name ← resolve_cp_utf8 cp name_index
  descriptor ← resolve_cp_utf8 cp descriptor_index
  ok (record { name = name; descriptor = descriptor })

module _ (nom : Nom.Nom) (to_str : Bytes → Option Text) where
  -- `parse_field_descriptor(…).expect(…)` and `parse_method_descriptor(…).expect(…)`
  unfoldable pub field_descriptor : Bytes → Outcome FieldType
  field_descriptor bytes = do
    text ← unwrap (to_str bytes)
    (_, descriptor) ← unwrap (parse_field_descriptor nom text)
    ok descriptor

  unfoldable pub method_descriptor : Bytes → Outcome MethodDescriptor
  method_descriptor bytes = do
    text ← unwrap (to_str bytes)
    (_, descriptor) ← unwrap (parse_method_descriptor nom text)
    ok descriptor

  unfoldable pub resolve_cp_name_and_type_field :
      List ClassFile.ConstantPoolInfo → ℕ → Outcome (NameAndType FieldType)
  resolve_cp_name_and_type_field cp index = do
    info ← entry cp index
    (name_index, descriptor_index) ← as_name_and_type info
    name ← resolve_cp_utf8 cp name_index
    descriptor ← resolve_cp_utf8 cp descriptor_index
    descriptor ← field_descriptor descriptor
    ok (record { name = name; descriptor = descriptor })

  unfoldable pub resolve_cp_name_and_type_method :
      List ClassFile.ConstantPoolInfo → ℕ → Outcome (NameAndType MethodDescriptor)
  resolve_cp_name_and_type_method cp index = do
    info ← entry cp index
    (name_index, descriptor_index) ← as_name_and_type info
    name ← resolve_cp_utf8 cp name_index
    descriptor ← resolve_cp_utf8 cp descriptor_index
    descriptor ← method_descriptor descriptor
    ok (record { name = name; descriptor = descriptor })

  abbrev pub ClassNames : Type 0
  ClassNames = List (ℕ × Text)

  -- The body of the first `for`, for the entry at `i`; `i as u16 + 1` is exact, since the parser gives
  -- at most 65535 entries.
  unfoldable pub add_class_name :
      List ClassFile.ConstantPoolInfo
      → ℕ
      → ClassFile.ConstantPoolInfo
      → ClassNames
      → Outcome ClassNames
  add_class_name cp i (ClassFile.class name_index) names = do
    name ← resolve_cp_utf8 cp name_index
    text ← unwrap (to_str name)
    ok (insert (i + 1) text names)
  add_class_name cp i _ names = ok names

  unfoldable pub class_info_map :
      List ClassFile.ConstantPoolInfo
      → ℕ
      → List ClassFile.ConstantPoolInfo
      → ClassNames
      → Outcome ClassNames
  class_info_map cp i [] names = ok names
  class_info_map cp i (info ∷ infos) names = do
    names ← add_class_name cp i info names
    class_info_map cp (suc i) infos names

  unfoldable pub convert_methodref :
      List ClassFile.ConstantPoolInfo → ClassNames → ℕ → ℕ → Outcome Methodref
  convert_methodref cp names class_index name_and_type_index = do
    class_name ← unwrap (lookup class_index names)
    signature ← resolve_cp_name_and_type_method cp name_and_type_index
    ok (record { class_name = class_name; name_and_type = signature })

  -- The `match cp_info` of the second `for`.
  unfoldable pub convert :
      List ClassFile.ConstantPoolInfo
      → ClassNames
      → ClassFile.ConstantPoolInfo
      → Outcome ConstantPoolInfo
  convert cp names (ClassFile.utf8 v) = ok (utf8 v)
  convert cp names (ClassFile.integer v) = ok (integer v)
  convert cp names (ClassFile.float v) = ok (float v)
  convert cp names (ClassFile.long v) = ok (long v)
  convert cp names (ClassFile.double v) = ok (double v)
  convert cp names (ClassFile.class name_index) = do
    name ← resolve_cp_utf8 cp name_index
    text ← unwrap (to_str name)
    ok (class text)
  convert cp names (ClassFile.string string_index) = do
    string_bytes ← resolve_cp_utf8 cp string_index
    ok (string string_bytes)
  convert cp names (ClassFile.fieldref class_index name_and_type_index) = do
    class_name ← unwrap (lookup class_index names)
    signature ← resolve_cp_name_and_type_field cp name_and_type_index
    ok (fieldref (record { class_name = class_name; name_and_type = signature }))
  convert cp names (ClassFile.methodref class_index name_and_type_index) = do
    r ← convert_methodref cp names class_index name_and_type_index
    ok (methodref r)
  convert cp names (ClassFile.interface_methodref class_index name_and_type_index) = do
    r ← convert_methodref cp names class_index name_and_type_index
    ok (interface_methodref r)
  convert cp names (ClassFile.name_and_type name_index descriptor_index) = do
    r ← resolve_cp_name_and_type cp name_index descriptor_index
    ok (name_and_type r)
  convert cp names (ClassFile.dynamic attr_index name_and_type_index) = do
    r ← resolve_cp_name_and_type_field cp name_and_type_index
    ok (dynamic attr_index r)
  convert cp names (ClassFile.invoke_dynamic attr_index name_and_type_index) = do
    r ← resolve_cp_name_and_type_method cp name_and_type_index
    ok (invoke_dynamic attr_index r)
  convert cp names (ClassFile.method_handle reference_kind reference_index) = do
    kind ← reference_kind_of reference_kind
    ok (method_handle (record { reference_kind = kind; reference_index = reference_index }))
  convert cp names (ClassFile.method_type _) = ok method_type
  convert cp names (ClassFile.module_info name_index) = do
    name ← resolve_cp_utf8 cp name_index
    ok (module_info name)
  convert cp names (ClassFile.package_info name_index) = do
    name ← resolve_cp_utf8 cp name_index
    ok (package_info name)
  convert cp names ClassFile.empty = ok empty

  unfoldable pub convert_all :
      List ClassFile.ConstantPoolInfo
      → ClassNames
      → List ClassFile.ConstantPoolInfo
      → Outcome (List ConstantPoolInfo)
  convert_all cp names [] = ok []
  convert_all cp names (info ∷ infos) = do
    c ← convert cp names info
    cs ← convert_all cp names infos
    ok (c ∷ cs)

  unfoldable pub parse_constant_pool :
      List ClassFile.ConstantPoolInfo → Outcome (List ConstantPoolInfo)
  parse_constant_pool cp = do names ← class_info_map cp 0 cp []; convert_all cp names cp
