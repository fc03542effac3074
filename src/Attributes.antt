-- ===== src/Attributes.antt =====
-- src/runtime/class_loader.rs, `parse_attribute` and what it calls. An attribute nests in a code
-- attribute and an element value in an element value, so these take fuel; every nesting consumes
-- bytes, so one more than the length of the input is enough.
pub mod Data
pub mod Resolve
pub mod Finite
pub mod Fuel
pub mod Nesting
pub mod Code
mod Tests
use rust_jvm.Prelude.{
  ℕ, zero, suc, Option, none, some, List, [], ◌∷◌, Bytes, length, take, drop, ltb, ◌==◌,
  if◌then◌else◌, Bool, true, false, ◌||◌,
}
use rust_jvm.Prelude.Texts.{codes}
use rust_jvm.Prelude.Outcome.{Outcome, ok, panic, out_of_fuel, unwrap}
use rust_jvm.Prelude.Equality.{same, nat_eq, list_eq}
use rust_jvm.Descriptor.{Text, FieldType, ReturnType}
use rust_jvm.Descriptor.Nom
use rust_jvm.Parsing.{
  Parsed, parsed, failed, panicked, Parser, and_then, ◌>>=◌, ◌>>◌, pure, error, abort,
}
use rust_jvm.Parsing
use rust_jvm.Constants.{MethodHandle, ConstantPoolInfo, field_descriptor}
use rust_jvm.Thread.{ExceptionTableItem}
use rust_jvm.Attributes.Data.{
  Const, into_byte, into_char, into_short, into_boolean, ElementValue, enum_value, const_value,
  class_value, annotation_value, array_value, Annotation, annotation, LineNumberTableItem,
  LocalVariable, ModuleExport, BootstrapMethod, AttributeInfo, source_file, line_number_table,
  constant_value, runtime_visible_annotations, local_variable_table, stack_map_table,
  deprecated_info, exceptions, module_hashes, inner_classes, signature, module_attribute,
  module_packages, module_target, bootstrap_methods, unknown, code_attribute, attributes_of,
  values_of, pairs_of,
}
use rust_jvm.Attributes.Data
use rust_jvm.Attributes.Resolve.{
  Pool, resolve_runtime_cp_utf8, resolve_cp_package, resolve_cp_module, resolve_cp_class,
  resolve_runtime_cp_method_handle, resolve_constant_value, resolve_each, return_type,
}

-- A call that may panic, on the way of a parser.
abbrev pub lift : {A : Type 0} → Outcome A → Parser A
lift (ok a) input = parsed input a
lift panic input = panicked
lift out_of_fuel input = Parsing.out_of_fuel

module _ (nom : Parsing.Nom) (chars : Nom.Nom) (to_str : Bytes → Option Text)
    (constant_pool : Pool) where
  abbrev pub utf8_at : ℕ → Parser Bytes
  utf8_at index = lift (resolve_runtime_cp_utf8 constant_pool index)

  unfoldable pub parse_exception_table : Parser ExceptionTableItem
  parse_exception_table = do
    start_pc ← nom.be_u16
    end_pc ← nom.be_u16
    handler_pc ← nom.be_u16
    catch_type ← nom.be_u16
    catch_type_info ←
        (if catch_type == 0
          then pure none
          else (do name ← lift (resolve_cp_class constant_pool catch_type); pure (some name)))
    pure (record {
      start_pc = start_pc;
      end_pc = end_pc;
      handler_pc = handler_pc;
      catch_type = catch_type_info;
    })

  unfoldable pub parse_constant_value : (Const → Outcome Const) → Parser Const
  parse_constant_value converter = do
    const_value_index ← nom.be_u16
    value ← lift (resolve_constant_value constant_pool const_value_index)
    lift (converter value)

  unfoldable pub parse_local_variable : Parser LocalVariable
  parse_local_variable = do
    start_pc ← nom.be_u16
    size ← nom.be_u16
    name_index ← nom.be_u16
    descriptor_index ← nom.be_u16
    bytes ← utf8_at descriptor_index
    descriptor ← lift (field_descriptor chars to_str bytes)
    index ← nom.be_u16
    name ← utf8_at name_index
    pure (record {
      start_pc = start_pc;
      length = size;
      name = name;
      descriptor = descriptor;
      index = index;
    })

  -- `parse_element_value` is the argument.
  unfoldable pub parse_element_value_pair : Parser ElementValue → Parser (Bytes × ElementValue)
  parse_element_value_pair element_value = do
    element_name_index ← nom.be_u16
    element_name ← utf8_at element_name_index
    value ← element_value
    pure (element_name, value)

  unfoldable pub parse_annotation_by : Parser ElementValue → Parser Annotation
  parse_annotation_by element_value = do
    type_index ← nom.be_u16
    type_str ← utf8_at type_index
    num_element_value_pairs ← nom.be_u16
    pairs ←
        nom.count (Bytes × ElementValue) (parse_element_value_pair element_value)
          num_element_value_pairs
    descriptor ← lift (field_descriptor chars to_str type_str)
    pure (annotation descriptor (pairs_of pairs))

  -- The constants of the tags `D`, `F`, `I`, `J` and `s`.
  unfoldable pub plain_constant : ℕ → Bool
  plain_constant tag = tag == b'D' || tag == b'F' || tag == b'I' || tag == b'J' || tag == b's'

  abbrev pub constant_element : (Const → Outcome Const) → Parser ElementValue
  constant_element converter = do c ← parse_constant_value converter; pure (const_value c)

  -- The `match tag`; the arguments are `parse_annotation` and the parser itself.
  unfoldable pub element_value_of :
      Parser Annotation → Parser ElementValue → ℕ → Parser ElementValue
  element_value_of parse_annotation element_value tag =
      if tag == b'B'
      then constant_element into_byte
      else if tag == b'C'
      then constant_element into_char
      else if tag == b'S'
      then constant_element into_short
      else if tag == b'Z'
      then constant_element into_boolean
      else if plain_constant tag
      then constant_element ok
      else if tag == b'e'
      then (do
        type_name_index ← nom.be_u16
        const_name_index ← nom.be_u16
        type_name ← utf8_at type_name_index
        const_name ← utf8_at const_name_index
        pure (enum_value type_name const_name))
      else if tag == b'c'
      then (do
        class_info_index ← nom.be_u16
        class_info ← utf8_at class_info_index
        class ← lift (return_type chars to_str class_info)
        pure (class_value class))
      else if tag == b'@'
      then (do a ← parse_annotation; pure (annotation_value a))
      else if tag == b'['
      then (do
        num_values ← nom.be_u16
        values ← nom.count ElementValue element_value num_values
        pure (array_value (values_of values)))
      else error

  unfoldable pub parse_element_value : ℕ → Parser ElementValue
  parse_element_value zero input = Parsing.out_of_fuel
  parse_element_value (suc fuel) input =
      (nom.u8
          >>= element_value_of (parse_annotation_by (parse_element_value fuel))
              (parse_element_value fuel))
        input

  unfoldable pub parse_annotation : ℕ → Parser Annotation
  parse_annotation fuel = parse_annotation_by (parse_element_value fuel)

  unfoldable pub parse_bootstrap_method : Parser BootstrapMethod
  parse_bootstrap_method = do
    bootstrap_method_ref ← nom.be_u16
    num_bootstrap_arguments ← nom.be_u16
    bootstrap_arguments ← nom.count ℕ nom.be_u16 num_bootstrap_arguments
    handle ← lift (resolve_runtime_cp_method_handle constant_pool bootstrap_method_ref)
    pure (record { bootstrap_method = handle; bootstrap_arguments = bootstrap_arguments })

  unfoldable pub parse_line_number : Parser LineNumberTableItem
  parse_line_number = do
    start_pc ← nom.be_u16
    line_number ← nom.be_u16
    pure (record { start_pc = start_pc; line_number = line_number })

  -- The closures in the arm `Module` for what a module requires, exports, opens and provides.
  unfoldable pub parse_requires : Parser (Unit {0})
  parse_requires = do
    requires_index ← nom.be_u16
    requires_flags ← nom.be_u16
    requires_version_index ← nom.be_u16
    pure tt

  unfoldable pub parse_exports : Parser ModuleExport
  parse_exports = do
    exports_index ← nom.be_u16
    exports_flags ← nom.be_u16
    exports_to_count ← nom.be_u16
    exports_to_index ← nom.count ℕ nom.be_u16 exports_to_count
    exports ← lift (resolve_cp_package constant_pool exports_index)
    exports_to ← lift (resolve_each (resolve_cp_module constant_pool) exports_to_index)
    pure (record { exports = exports; exports_flags = exports_flags; exports_to = exports_to })

  unfoldable pub parse_opens : Parser (Unit {0})
  parse_opens = do
    opens_index ← nom.be_u16
    opens_flags ← nom.be_u16
    opens_to_count ← nom.be_u16
    opens_to_index ← nom.count ℕ nom.be_u16 opens_to_count
    pure tt

  unfoldable pub parse_provides : Parser (Unit {0})
  parse_provides = do
    provides_index ← nom.be_u16
    provides_with_count ← nom.be_u16
    provides_with_index ← nom.count ℕ nom.be_u16 provides_with_count
    pure tt

  unfoldable pub parse_module : Parser AttributeInfo
  parse_module = do
    module_name_index ← nom.be_u16
    module_flags ← nom.be_u16
    module_version_index ← nom.be_u16
    requires_count ← nom.be_u16
    requires ← nom.count (Unit {0}) parse_requires requires_count
    exports_count ← nom.be_u16
    exports ← nom.count ModuleExport parse_exports exports_count
    opens_count ← nom.be_u16
    opens ← nom.count (Unit {0}) parse_opens opens_count
    uses_count ← nom.be_u16
    uses_index ← nom.count ℕ nom.be_u16 uses_count
    provides_count ← nom.be_u16
    provides ← nom.count (Unit {0}) parse_provides provides_count
    pure (module_attribute exports)

  -- `&input[..attribute_length as _]` and what is behind it; `parse_attribute` is the argument.
  unfoldable pub parse_slice : (ℕ → Parser AttributeInfo) → ℕ → ℕ → Parser AttributeInfo
  parse_slice parse_attribute attribute_name_index attribute_length input =
      if ltb (length input) attribute_length
      then panicked
      else and_then (parse_attribute attribute_name_index (take attribute_length input))
          (λ attribute rest. parsed (drop attribute_length input) attribute)

  unfoldable pub parse_attribute_raw : (ℕ → Parser AttributeInfo) → Parser AttributeInfo
  parse_attribute_raw parse_attribute = do
    attribute_name_index ← nom.be_u16
    attribute_length ← nom.be_u32
    parse_slice parse_attribute attribute_name_index attribute_length

  unfoldable pub parse_attributes : (ℕ → Parser AttributeInfo) → Parser (List AttributeInfo)
  parse_attributes parse_attribute = do
    attributes_count ← nom.be_u16
    nom.count AttributeInfo (parse_attribute_raw parse_attribute) attributes_count

  unfoldable pub parse_code_attribute : (ℕ → Parser AttributeInfo) → Parser AttributeInfo
  parse_code_attribute parse_attribute = do
    max_stack ← nom.be_u16
    max_locals ← nom.be_u16
    code_length ← nom.be_u32
    code ← nom.take code_length
    exception_table_length ← nom.be_u16
    exception_table ← nom.count ExceptionTableItem parse_exception_table exception_table_length
    attributes ← parse_attributes parse_attribute
    pure (
        Data.code
          (code_attribute max_stack max_locals code exception_table (attributes_of attributes)))

  -- `count(p, n as _)` of the number that stands before.
  abbrev pub counted : {A : Type 0} → Parser A → Parser (List A)
  counted {A} p = do n ← nom.be_u16; nom.count A p n

  abbrev pub utf8_attribute : (Bytes → AttributeInfo) → Parser AttributeInfo
  utf8_attribute make = do index ← nom.be_u16; s ← utf8_at index; pure (make s)

  -- The `match attribute_name`, for the name `attribute_name` with its text `text`.
  unfoldable pub attribute_of : ℕ → (ℕ → Parser AttributeInfo) → Bytes → Text → Parser AttributeInfo
  attribute_of fuel parse_attribute attribute_name text =
      if same text (codes "Code")
      then parse_code_attribute parse_attribute
      else if same text (codes "ConstantValue")
      then (do
        constantvalue_index ← nom.be_u16
        value ← lift (resolve_constant_value constant_pool constantvalue_index)
        pure (constant_value value))
      else if same text (codes "RuntimeVisibleAnnotations")
      then (do
        annotations ← counted (parse_annotation fuel)
        pure (runtime_visible_annotations annotations))
      else if same text (codes "LocalVariableTable")
      then (do table ← counted parse_local_variable; pure (local_variable_table table))
      else if same text (codes "Signature")
      then utf8_attribute signature
      else if same text (codes "Deprecated")
      then pure deprecated_info
      else if same text (codes "StackMapTable")
      then pure stack_map_table
      else if same text (codes "Exceptions")
      then pure exceptions
      else if same text (codes "SourceFile")
      then utf8_attribute source_file
      else if same text (codes "BootstrapMethods")
      then (do methods ← counted parse_bootstrap_method; pure (bootstrap_methods methods))
      else if same text (codes "LineNumberTable")
      then (do table ← counted parse_line_number; pure (line_number_table table))
      else if same text (codes "Module")
      then parse_module
      else if same text (codes "ModulePackages")
      then (do
        package_index ← counted nom.be_u16
        packages ← lift (resolve_each (resolve_cp_package constant_pool) package_index)
        pure (module_packages packages))
      else if same text (codes "ModuleHashes")
      then pure module_hashes
      else if same text (codes "ModuleTarget")
      then utf8_attribute module_target
      else if same text (codes "InnerClasses")
      then pure inner_classes
      else pure (unknown attribute_name)

  unfoldable pub parse_attribute : ℕ → ℕ → Parser AttributeInfo
  parse_attribute zero attribute_name_index input = Parsing.out_of_fuel
  parse_attribute (suc fuel) attribute_name_index input =
      (utf8_at attribute_name_index >>= λ attribute_name.
      lift (unwrap (to_str attribute_name)) >>= λ text.
      attribute_of fuel (parse_attribute fuel) attribute_name text)
        input
