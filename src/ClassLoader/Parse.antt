-- ===== src/ClassLoader/Parse.antt =====
-- src/runtime/class_loader.rs: `parse_class`, which makes the class of a class file. The superclass, the
-- interfaces and the table of virtual methods that it leaves empty are not fields of the record.
pub mod Members
use rust_jvm.Prelude.{
  ℕ, zero, suc, ◌+◌, ◌-◌, Bool, true, false, not, Option, none, some, List, [], ◌∷◌, ◌++◌, Bytes,
  length, bit_and, ◌==◌, if◌then◌else◌,
}
use rust_jvm.Prelude.Outcome.{Outcome, ok, panic, out_of_fuel, ◌>>=◌, unwrap}
use rust_jvm.Descriptor.{Text, FieldType, MethodDescriptor}
use rust_jvm.Descriptor.Nom
use rust_jvm.Parsing.{Parsed, parsed, failed, panicked}
use rust_jvm.Parsing
use rust_jvm.ClassFile
use rust_jvm.Interpreter.{Variable}
use rust_jvm.Constants.{ConstantPoolInfo, parse_constant_pool, field_descriptor, method_descriptor}
use rust_jvm.Attributes.Data.{AttributeInfo}
use rust_jvm.Attributes.Resolve.{Pool, resolve_runtime_cp_utf8, resolve_cp_class}
use rust_jvm.Attributes.{parse_attribute}
use rust_jvm.ClassLoader.{FieldInfo, allocate_static_fields}

pub record MethodInfo : Type 0 where
  pub access_flags : ℕ
  pub name : Bytes
  pub descriptor : MethodDescriptor
  pub attributes : List AttributeInfo

pub record Class : Type 0 where
  pub constant_pool : List ConstantPoolInfo
  pub access_flags : ℕ
  pub class_name : Text
  pub static_fields_info : List FieldInfo
  pub instance_fields_info : List FieldInfo
  pub methods : List MethodInfo
  pub attributes : List AttributeInfo
  pub static_fields : List Variable

-- `FieldAccessFlag::STATIC` and `MethodAccessFlag::STATIC`
abbrev pub static_flag : ℕ
static_flag = 0x0008

-- `flags.contains(FieldAccessFlag::STATIC)`
abbrev pub is_static : ℕ → Bool
is_static flags = bit_and flags static_flag == static_flag

-- `unwrap().1` of what a parser gives.
abbrev pub parsed_value : {A : Type 0} → Parsed A → Outcome A
parsed_value (parsed rest a) = ok a
parsed_value failed = panic
parsed_value panicked = panic
parsed_value Parsing.out_of_fuel = out_of_fuel

-- `xs.iter().map(f).collect()`
unfoldable pub map_all : {A B : Type 0} → (A → Outcome B) → List A → Outcome (List B)
map_all f [] = ok []
map_all f (a ∷ xs) = do b ← f a; bs ← map_all f xs; ok (b ∷ bs)

-- `partition`: the static fields, and the others.
unfoldable pub partition_static : List FieldInfo → List FieldInfo × List FieldInfo
partition_static [] = ([], [])
partition_static (f ∷ fs) =
    let (static_fields, instance_fields) = partition_static fs in
    if is_static f.access_flags
    then (f ∷ static_fields, instance_fields)
    else (static_fields, f ∷ instance_fields)

module _ (nom : Parsing.Nom) (chars : Nom.Nom) (to_str : Bytes → Option Text) where
  unfoldable pub convert_attribute : Pool → ClassFile.AttributeInfo → Outcome AttributeInfo
  convert_attribute cp a =
      parsed_value
        (parse_attribute nom chars to_str cp (suc (length a.info)) a.attribute_name_index a.info)

  unfoldable pub parse_field : Pool → ClassFile.FieldInfo → Outcome FieldInfo
  parse_field cp field = do
    descriptor ← resolve_runtime_cp_utf8 cp field.descriptor_index
    descriptor ← field_descriptor chars to_str descriptor
    name ← resolve_runtime_cp_utf8 cp field.name_index
    attributes ← map_all (convert_attribute cp) field.attributes
    ok (record {
      access_flags = field.access_flags;
      name = name;
      descriptor = descriptor;
      attributes = attributes;
      index = 0;
    })

  unfoldable pub parse_method : Pool → ClassFile.MethodInfo → Outcome MethodInfo
  parse_method cp method = do
    descriptor ← resolve_runtime_cp_utf8 cp method.descriptor_index
    descriptor ← method_descriptor chars to_str descriptor
    name ← resolve_runtime_cp_utf8 cp method.name_index
    attributes ← map_all (convert_attribute cp) method.attributes
    ok (record {
      access_flags = method.access_flags;
      name = name;
      descriptor = descriptor;
      attributes = attributes;
    })

  unfoldable pub parse_class : ClassFile.Class → Outcome Class
  parse_class class_file = do
    constant_pool ← parse_constant_pool chars to_str class_file.constant_pool
    fields ← map_all (parse_field constant_pool) class_file.fields
    methods ← map_all (parse_method constant_pool) class_file.methods
    attributes ← map_all (convert_attribute constant_pool) class_file.attributes
    class_name ← resolve_cp_class constant_pool class_file.this_class
    let (static_fields, instance_fields) = partition_static fields
    let (static_fields, static_fields_var) = allocate_static_fields static_fields
    ok (record {
      constant_pool = constant_pool;
      access_flags = class_file.access_flags;
      class_name = class_name;
      static_fields_info = static_fields;
      instance_fields_info = instance_fields;
      methods = methods;
      attributes = attributes;
      static_fields = static_fields_var;
    })
