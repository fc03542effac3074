-- ===== src/Attributes/Data.antt =====
-- src/runtime/structs/attributes.rs: the attributes of classes, fields, methods and code.
use rust_jvm.Prelude.{ℕ, List, [], ◌∷◌, Bytes}
use rust_jvm.Prelude.Outcome.{Outcome, ok, panic}
use rust_jvm.Descriptor.{FieldType, ReturnType}
use rust_jvm.Constants.{MethodHandle}
use rust_jvm.Thread.{ExceptionTableItem}

-- The numbers are their bits.
pub data Const : Type 0 where
  byte char double float int long short boolean : ℕ → Const
  string : Bytes → Const

unfoldable pub into_byte : Const → Outcome Const
into_byte (int v) = ok (byte v)
into_byte _ = panic

unfoldable pub into_char : Const → Outcome Const
into_char (int v) = ok (char v)
into_char _ = panic

unfoldable pub into_short : Const → Outcome Const
into_short (int v) = ok (short v)
into_short _ = panic

unfoldable pub into_boolean : Const → Outcome Const
into_boolean (int v) = ok (boolean v)
into_boolean _ = panic

mutual
  pub data ElementValue : Type 0 where
    const_value : Const → ElementValue
    -- `type_name` and `const_name`
    enum_value : Bytes → Bytes → ElementValue
    class_value : ReturnType → ElementValue
    annotation_value : Annotation → ElementValue
    array_value : ElementValues → ElementValue

  pub data ElementValues : Type 0 where
    no_values : ElementValues
    and_value : ElementValue → ElementValues → ElementValues

  pub data Annotation : Type 0 where
    annotation : FieldType → ElementValuePairs → Annotation

  pub data ElementValuePairs : Type 0 where
    no_pairs : ElementValuePairs
    and_pair : Bytes → ElementValue → ElementValuePairs → ElementValuePairs

pub record LineNumberTableItem : Type 0 where
  pub start_pc : ℕ
  pub line_number : ℕ

pub record LocalVariable : Type 0 where
  pub start_pc : ℕ
  pub length : ℕ
  pub name : Bytes
  pub descriptor : FieldType
  pub index : ℕ

pub record ModuleExport : Type 0 where
  pub exports : Bytes
  pub exports_flags : ℕ
  pub exports_to : List Bytes

pub record BootstrapMethod : Type 0 where
  pub bootstrap_method : MethodHandle
  pub bootstrap_arguments : List ℕ

mutual
  pub data AttributeInfo : Type 0 where
    code : CodeAttribute → AttributeInfo
    source_file : Bytes → AttributeInfo
    line_number_table : List LineNumberTableItem → AttributeInfo
    constant_value : Const → AttributeInfo
    runtime_visible_annotations : List Annotation → AttributeInfo
    local_variable_table : List LocalVariable → AttributeInfo
    stack_map_table deprecated_info exceptions module_hashes inner_classes : AttributeInfo
    signature : Bytes → AttributeInfo
    module_attribute : List ModuleExport → AttributeInfo
    module_packages : List Bytes → AttributeInfo
    module_target : Bytes → AttributeInfo
    bootstrap_methods : List BootstrapMethod → AttributeInfo
    unknown : Bytes → AttributeInfo

  -- `max_stack`, `max_locals`, `code`, `exception_table` and `attributes`
  pub data CodeAttribute : Type 0 where
    code_attribute : ℕ → ℕ → Bytes → List ExceptionTableItem → Attributes → CodeAttribute

  pub data Attributes : Type 0 where
    no_attributes : Attributes
    and_attribute : AttributeInfo → Attributes → Attributes

unfoldable pub attributes_of : List AttributeInfo → Attributes
attributes_of [] = no_attributes
attributes_of (a ∷ xs) = and_attribute a (attributes_of xs)

unfoldable pub values_of : List ElementValue → ElementValues
values_of [] = no_values
values_of (v ∷ vs) = and_value v (values_of vs)

unfoldable pub pairs_of : List (Bytes × ElementValue) → ElementValuePairs
pairs_of [] = no_pairs
pairs_of ((name, v) ∷ ps) = and_pair name v (pairs_of ps)
