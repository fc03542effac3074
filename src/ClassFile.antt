-- ===== src/ClassFile.antt =====
-- src/class/structs.rs, src/class/structs/constant_pool.rs and src/class/parser.rs: a class file and its
-- parser. Numbers of every kind are their bits, and a `JavaStr` is its bytes.
pub mod Encode
pub mod Pool
pub mod RoundTrip
pub mod Bounds
mod Tests
use rust_jvm.Prelude.{
  ℕ, zero, suc, ◌-◌, Bool, true, false, List, [], ◌∷◌, ◌++◌, Bytes, length, ltb, ◌==◌,
  if◌then◌else◌,
}
use rust_jvm.Parsing.{
  Parsed, failed, panicked, out_of_fuel, Parser, ◌>>=◌, ◌>>◌, pure, error, abort, Nom,
}

pub data ConstantPoolInfo : Type 0 where
  utf8 : Bytes → ConstantPoolInfo
  integer float long double : ℕ → ConstantPoolInfo
  -- `name_index`, `string_index`
  class string : ℕ → ConstantPoolInfo
  -- `class_index` and `name_and_type_index`
  fieldref methodref interface_methodref : ℕ → ℕ → ConstantPoolInfo
  -- `name_index` and `descriptor_index`
  name_and_type : ℕ → ℕ → ConstantPoolInfo
  -- `reference_kind` and `reference_index`
  method_handle : ℕ → ℕ → ConstantPoolInfo
  method_type : ℕ → ConstantPoolInfo
  -- `bootstrap_method_attr_index` and `name_and_type_index`
  dynamic invoke_dynamic : ℕ → ℕ → ConstantPoolInfo
  module_info package_info : ℕ → ConstantPoolInfo
  empty : ConstantPoolInfo

pub record AttributeInfo : Type 0 where
  pub attribute_name_index : ℕ
  pub info : Bytes

pub record FieldInfo : Type 0 where
  pub access_flags : ℕ
  pub name_index : ℕ
  pub descriptor_index : ℕ
  pub attributes : List AttributeInfo

pub record MethodInfo : Type 0 where
  pub access_flags : ℕ
  pub name_index : ℕ
  pub descriptor_index : ℕ
  pub attributes : List AttributeInfo

pub record Class : Type 0 where
  pub minor_version : ℕ
  pub major_version : ℕ
  pub constant_pool : List ConstantPoolInfo
  pub access_flags : ℕ
  pub this_class : ℕ
  pub super_class : ℕ
  pub interfaces : List ℕ
  pub fields : List FieldInfo
  pub methods : List MethodInfo
  pub attributes : List AttributeInfo

-- `need_empty`
unfoldable pub need_empty : ConstantPoolInfo → Bool
need_empty (long _) = true
need_empty (double _) = true
need_empty _ = false

-- `constant_pool.push(constant)`, and `Empty` behind a constant that takes two indices.
unfoldable pub push_constant : List ConstantPoolInfo → ConstantPoolInfo → List ConstantPoolInfo
push_constant constant_pool constant =
    if need_empty constant
    then constant_pool ++ constant ∷ empty ∷ []
    else constant_pool ++ constant ∷ []

module _ (nom : Nom) where
  -- Two `be_u16`.
  unfoldable pub two : (ℕ → ℕ → ConstantPoolInfo) → Parser ConstantPoolInfo
  two make = do a ← nom.be_u16; b ← nom.be_u16; pure (make a b)

  unfoldable pub one : (ℕ → ConstantPoolInfo) → Parser ℕ → Parser ConstantPoolInfo
  one make p = do a ← p; pure (make a)

  -- The `match tag`.
  unfoldable pub parse_constant_info : ℕ → Parser ConstantPoolInfo
  parse_constant_info tag =
      if tag == 1
      then (do length ← nom.be_u16; bytes ← nom.take length; pure (utf8 bytes))
      else if tag == 3
      then one integer nom.be_i32
      else if tag == 4
      then one float nom.be_f32
      else if tag == 5
      then one long nom.be_i64
      else if tag == 6
      then one double nom.be_f64
      else if tag == 7
      then one class nom.be_u16
      else if tag == 8
      then one string nom.be_u16
      else if tag == 9
      then two fieldref
      else if tag == 10
      then two methodref
      else if tag == 11
      then two interface_methodref
      else if tag == 12
      then two name_and_type
      else if tag == 15
      then (do kind ← nom.u8; index ← nom.be_u16; pure (method_handle kind index))
      else if tag == 16
      then one method_type nom.be_u16
      else if tag == 17
      then two dynamic
      else if tag == 18
      then two invoke_dynamic
      else if tag == 19
      then one module_info nom.be_u16
      else if tag == 20
      then one package_info nom.be_u16
      else error

  unfoldable pub parse_constant : Parser ConstantPoolInfo
  parse_constant = do tag ← nom.u8; parse_constant_info tag

  -- The `while constant_pool.len() < limit`.
  unfoldable pub constant_pool_loop : ℕ → ℕ → List ConstantPoolInfo → Parser (List ConstantPoolInfo)
  constant_pool_loop zero limit constant_pool input = out_of_fuel
  constant_pool_loop (suc fuel) limit constant_pool input =
      let again =
        (parse_constant >>= λ constant.
        constant_pool_loop fuel limit (push_constant constant_pool constant))
          input in
      if ltb (length constant_pool) limit then again else pure constant_pool input

  -- `constant_pool_count as usize - 1` panics for 0. Every round adds a constant at least, so one
  -- more than the count is fuel enough.
  unfoldable pub parse_constant_pool : Parser (List ConstantPoolInfo)
  parse_constant_pool = do
    constant_pool_count ← nom.be_u16
    if constant_pool_count == 0
        then abort
        else constant_pool_loop (suc constant_pool_count) (constant_pool_count - 1) []

  unfoldable pub parse_header : Parser (ℕ × ℕ)
  parse_header = do
    _ ← nom.tag (0xca ∷ 0xfe ∷ 0xba ∷ 0xbe ∷ [])
    minor ← nom.be_u16
    major ← nom.be_u16
    pure (minor, major)

  -- `count(p, n as _)` of the number that stands before.
  unfoldable pub parse_interfaces : Parser (List ℕ)
  parse_interfaces = do interface_count ← nom.be_u16; nom.count ℕ nom.be_u16 interface_count

  unfoldable pub parse_attribute : Parser AttributeInfo
  parse_attribute = do
    attribute_name_index ← nom.be_u16
    attribute_length ← nom.be_u32
    info ← nom.take attribute_length
    pure (record { attribute_name_index = attribute_name_index; info = info })

  unfoldable pub parse_attributes : Parser (List AttributeInfo)
  parse_attributes = do
    attributes_count ← nom.be_u16
    nom.count AttributeInfo parse_attribute attributes_count

  unfoldable pub parse_field : Parser FieldInfo
  parse_field = do
    access_flags ← nom.be_u16
    name_index ← nom.be_u16
    descriptor_index ← nom.be_u16
    attributes ← parse_attributes
    pure (record {
      access_flags = access_flags;
      name_index = name_index;
      descriptor_index = descriptor_index;
      attributes = attributes;
    })

  unfoldable pub parse_fields : Parser (List FieldInfo)
  parse_fields = do field_count ← nom.be_u16; nom.count FieldInfo parse_field field_count

  unfoldable pub parse_method : Parser MethodInfo
  parse_method = do
    access_flags ← nom.be_u16
    name_index ← nom.be_u16
    descriptor_index ← nom.be_u16
    attributes ← parse_attributes
    pure (record {
      access_flags = access_flags;
      name_index = name_index;
      descriptor_index = descriptor_index;
      attributes = attributes;
    })

  unfoldable pub parse_methods : Parser (List MethodInfo)
  parse_methods = do methods_count ← nom.be_u16; nom.count MethodInfo parse_method methods_count

  unfoldable pub class_file : Parser Class
  class_file = do
    (minor, major) ← parse_header
    constant_pool ← parse_constant_pool
    access_flags ← nom.be_u16
    this_class ← nom.be_u16
    super_class ← nom.be_u16
    interfaces ← parse_interfaces
    fields ← parse_fields
    methods ← parse_methods
    attributes ← parse_attributes
    _ ← nom.eof
    pure (record {
      minor_version = minor;
      major_version = major;
      constant_pool = constant_pool;
      access_flags = access_flags;
      this_class = this_class;
      super_class = super_class;
      interfaces = interfaces;
      fields = fields;
      methods = methods;
      attributes = attributes;
    })
