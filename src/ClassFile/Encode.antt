-- ===== src/ClassFile/Encode.antt =====
-- The bytes of a class file, as the Java virtual machine specification lays them out: what
-- src/class/parser.rs is to read back.
use rust_jvm.Prelude.{
  ℕ, suc, ◌^◌, ◌<◌, ◌≡◌, Bool, true, false, List, [], ◌∷◌, ◌++◌, Bytes, length, All,
}
use rust_jvm.Parsing.Reads.{u1, u2, u4, u8, concat_map}
use rust_jvm.ClassFile.{
  ConstantPoolInfo, utf8, integer, float, long, double, class, string, fieldref, methodref,
  interface_methodref, name_and_type, method_handle, method_type, dynamic, invoke_dynamic,
  module_info, package_info, empty, AttributeInfo, FieldInfo, MethodInfo, Class, need_empty,
}

-- The filler behind a `long` or a `double` has no bytes.
abbrev pub encode_constant : ConstantPoolInfo → Bytes
encode_constant (utf8 bytes) = u1 1 ++ (u2 (length bytes) ++ bytes)
encode_constant (integer v) = u1 3 ++ u4 v
encode_constant (float v) = u1 4 ++ u4 v
encode_constant (long v) = u1 5 ++ u8 v
encode_constant (double v) = u1 6 ++ u8 v
encode_constant (class a) = u1 7 ++ u2 a
encode_constant (string a) = u1 8 ++ u2 a
encode_constant (fieldref a b) = u1 9 ++ (u2 a ++ u2 b)
encode_constant (methodref a b) = u1 10 ++ (u2 a ++ u2 b)
encode_constant (interface_methodref a b) = u1 11 ++ (u2 a ++ u2 b)
encode_constant (name_and_type a b) = u1 12 ++ (u2 a ++ u2 b)
encode_constant (method_handle a b) = u1 15 ++ (u1 a ++ u2 b)
encode_constant (method_type a) = u1 16 ++ u2 a
encode_constant (dynamic a b) = u1 17 ++ (u2 a ++ u2 b)
encode_constant (invoke_dynamic a b) = u1 18 ++ (u2 a ++ u2 b)
encode_constant (module_info a) = u1 19 ++ u2 a
encode_constant (package_info a) = u1 20 ++ u2 a
encode_constant empty = []

abbrev pub IsU16 : ℕ → Type 0
IsU16 v = v < 2 ^ 16

-- The numbers of a constant have its bits; a filler is no constant.
abbrev pub IsConstant : ConstantPoolInfo → Type 0
IsConstant (utf8 bytes) = IsU16 (length bytes)
IsConstant (integer v) = v < 2 ^ 32
IsConstant (float v) = v < 2 ^ 32
IsConstant (long v) = v < 2 ^ 64
IsConstant (double v) = v < 2 ^ 64
IsConstant (class a) = IsU16 a
IsConstant (string a) = IsU16 a
IsConstant (fieldref a b) = IsU16 a × IsU16 b
IsConstant (methodref a b) = IsU16 a × IsU16 b
IsConstant (interface_methodref a b) = IsU16 a × IsU16 b
IsConstant (name_and_type a b) = IsU16 a × IsU16 b
IsConstant (method_handle a b) = (a < 2 ^ 8) × IsU16 b
IsConstant (method_type a) = IsU16 a
IsConstant (dynamic a b) = IsU16 a × IsU16 b
IsConstant (invoke_dynamic a b) = IsU16 a × IsU16 b
IsConstant (module_info a) = IsU16 a
IsConstant (package_info a) = IsU16 a
IsConstant empty = ⊥

-- Behind each `long` and `double`, and only there, stands a filler.
abbrev pub IsPoolFrom : Bool → List ConstantPoolInfo → Type 0
IsPoolFrom true [] = ⊥
IsPoolFrom true (c ∷ cs) = (c ≡ empty) × IsPoolFrom false cs
IsPoolFrom false [] = Unit
IsPoolFrom false (c ∷ cs) = IsConstant c × IsPoolFrom (need_empty c) cs

abbrev pub IsPool : List ConstantPoolInfo → Type 0
IsPool = IsPoolFrom false

abbrev pub encode_pool : List ConstantPoolInfo → Bytes
encode_pool cs = u2 (suc (length cs)) ++ concat_map encode_constant cs

-- A list with its length before it.
abbrev pub encode_list : {A : Type 0} → (A → Bytes) → List A → Bytes
encode_list encode xs = u2 (length xs) ++ concat_map encode xs

abbrev pub IsListOf : {A : Type 0} → (A → Type 0) → List A → Type 0
IsListOf P xs = IsU16 (length xs) × All P xs

abbrev pub encode_attribute : AttributeInfo → Bytes
encode_attribute a = u2 a.attribute_name_index ++ (u4 (length a.info) ++ a.info)

abbrev pub IsAttribute : AttributeInfo → Type 0
IsAttribute a = IsU16 a.attribute_name_index × (length a.info < 2 ^ 32)

-- A field and a method have one layout.
abbrev pub encode_member : ℕ → ℕ → ℕ → List AttributeInfo → Bytes
encode_member access_flags name_index descriptor_index attributes =
    u2 access_flags
    ++ (u2 name_index ++ (u2 descriptor_index ++ encode_list encode_attribute attributes))

abbrev pub IsMember : ℕ → ℕ → ℕ → List AttributeInfo → Type 0
IsMember access_flags name_index descriptor_index attributes =
    IsU16 access_flags × IsU16 name_index × IsU16 descriptor_index × IsListOf IsAttribute attributes

abbrev pub encode_field : FieldInfo → Bytes
encode_field f = encode_member f.access_flags f.name_index f.descriptor_index f.attributes

abbrev pub IsField : FieldInfo → Type 0
IsField f = IsMember f.access_flags f.name_index f.descriptor_index f.attributes

abbrev pub encode_method : MethodInfo → Bytes
encode_method m = encode_member m.access_flags m.name_index m.descriptor_index m.attributes

abbrev pub IsMethod : MethodInfo → Type 0
IsMethod m = IsMember m.access_flags m.name_index m.descriptor_index m.attributes

abbrev pub magic : Bytes
magic = 0xca ∷ 0xfe ∷ 0xba ∷ 0xbe ∷ []

abbrev pub encode_header : ℕ → ℕ → Bytes
encode_header minor major = magic ++ (u2 minor ++ u2 major)

abbrev pub encode : Class → Bytes
encode c =
    encode_header c.minor_version c.major_version
    ++ (encode_pool c.constant_pool
        ++ (u2 c.access_flags
            ++ (u2 c.this_class
                ++ (u2 c.super_class
                    ++ (encode_list u2 c.interfaces
                        ++ (encode_list encode_field c.fields
                            ++ (encode_list encode_method c.methods
                                ++ encode_list encode_attribute c.attributes)))))))

-- The numbers of the class fit their places, and the pool its count.
pub record IsClassFile (c : Class) : Type 0 where
  pub minor_version : IsU16 c.minor_version
  pub major_version : IsU16 c.major_version
  pub pool_size : IsU16 (suc (length c.constant_pool))
  pub constant_pool : IsPool c.constant_pool
  pub access_flags : IsU16 c.access_flags
  pub this_class : IsU16 c.this_class
  pub super_class : IsU16 c.super_class
  pub interfaces : IsListOf IsU16 c.interfaces
  pub fields : IsListOf IsField c.fields
  pub methods : IsListOf IsMethod c.methods
  pub attributes : IsListOf IsAttribute c.attributes
