-- ===== src/Attributes/Resolve.antt =====
-- The functions of src/runtime/class_loader.rs that read an entry of the pool of a class: each panics
-- where there is none or it is of another kind.
use rust_jvm.Prelude.{Option, ℕ, List, [], ◌∷◌, Bytes}
use rust_jvm.Prelude.Outcome.{Outcome, ok, panic, ◌>>=◌, unwrap}
use rust_jvm.Descriptor.{Text, ReturnType}
use rust_jvm.Descriptor.Nom
use rust_jvm.Descriptor.Parser.{parse_return_type_descriptor}
use rust_jvm.Constants.{
  MethodHandle, ConstantPoolInfo, utf8, integer, float, long, double, class, string, method_handle,
  module_info, package_info, entry,
}
use rust_jvm.Attributes.Data.{Const}
use rust_jvm.Attributes.Data

abbrev pub Pool : Type 0
Pool = List ConstantPoolInfo

unfoldable pub as_utf8 : ConstantPoolInfo → Outcome Bytes
as_utf8 (utf8 s) = ok s
as_utf8 _ = panic

unfoldable pub as_package : ConstantPoolInfo → Outcome Bytes
as_package (package_info name) = ok name
as_package _ = panic

unfoldable pub as_module : ConstantPoolInfo → Outcome Bytes
as_module (module_info name) = ok name
as_module _ = panic

unfoldable pub as_class : ConstantPoolInfo → Outcome Text
as_class (class name) = ok name
as_class _ = panic

unfoldable pub as_handle : ConstantPoolInfo → Outcome MethodHandle
as_handle (method_handle handle) = ok handle
as_handle _ = panic

unfoldable pub as_constant : ConstantPoolInfo → Outcome Const
as_constant (integer i) = ok (Data.int i)
as_constant (float f) = ok (Data.float f)
as_constant (long l) = ok (Data.long l)
as_constant (double d) = ok (Data.double d)
as_constant (string s) = ok (Data.string s)
as_constant (utf8 s) = ok (Data.string s)
as_constant _ = panic

unfoldable pub resolve_runtime_cp_utf8 : Pool → ℕ → Outcome Bytes
resolve_runtime_cp_utf8 constant_pool index = entry constant_pool index >>= as_utf8

unfoldable pub resolve_cp_package : Pool → ℕ → Outcome Bytes
resolve_cp_package constant_pool index = entry constant_pool index >>= as_package

unfoldable pub resolve_cp_module : Pool → ℕ → Outcome Bytes
resolve_cp_module constant_pool index = entry constant_pool index >>= as_module

unfoldable pub resolve_cp_class : Pool → ℕ → Outcome Text
resolve_cp_class constant_pool class_index = entry constant_pool class_index >>= as_class

unfoldable pub resolve_runtime_cp_method_handle : Pool → ℕ → Outcome MethodHandle
resolve_runtime_cp_method_handle constant_pool index = entry constant_pool index >>= as_handle

unfoldable pub resolve_constant_value : Pool → ℕ → Outcome Const
resolve_constant_value constant_pool index = entry constant_pool index >>= as_constant

-- `indices.iter().map(…).collect()`
unfoldable pub resolve_each : (ℕ → Outcome Bytes) → List ℕ → Outcome (List Bytes)
resolve_each resolve [] = ok []
resolve_each resolve (i ∷ is) = do s ← resolve i; rest ← resolve_each resolve is; ok (s ∷ rest)

module _ (nom : Nom.Nom) (to_str : Bytes → Option Text) where
  -- `parse_return_type_descriptor(…).unwrap().1`
  unfoldable pub return_type : Bytes → Outcome ReturnType
  return_type bytes = do
    text ← unwrap (to_str bytes)
    (_, descriptor) ← unwrap (parse_return_type_descriptor nom text)
    ok descriptor
