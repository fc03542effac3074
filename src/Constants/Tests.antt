-- ===== src/Constants/Tests.antt =====
-- The pool of a class `A` with a field `n` of the type `int`.
use rust_jvm.Prelude.{◌≡◌, ◌↔◌, refl, none, some, List, [], ◌∷◌}
use rust_jvm.Prelude.Outcome.{ok, panic}
use rust_jvm.Prelude.Equality.{lookup, insert}
use rust_jvm.Descriptor.{int}
use rust_jvm.Descriptor.Parser.{
  parse_field_descriptor, parse_field_type, parse_base_type, base_type,
}
use rust_jvm.Descriptor.Run.{run}
use rust_jvm.ClassFile
use rust_jvm.Constants.{
  ConstantPoolInfo, utf8, class, fieldref, name_and_type, entry, as_utf8, resolve_cp_utf8,
  as_name_and_type, resolve_cp_name_and_type, field_descriptor, resolve_cp_name_and_type_field,
  add_class_name, class_info_map, convert, convert_all, parse_constant_pool,
}
use rust_jvm.Constants.Linked.{Pool}
use rust_jvm.Constants.Pool.{AllLink, parse_constant_pool_iff}

abbrev in_file : Pool
in_file =
    ClassFile.utf8 (b'A' ∷ [])
    ∷ ClassFile.class 1
    ∷ ClassFile.utf8 (b'n' ∷ [])
    ∷ ClassFile.utf8 (b'I' ∷ [])
    ∷ ClassFile.name_and_type 3 4
    ∷ ClassFile.fieldref 2 5
    ∷ []

abbrev in_class : List ConstantPoolInfo
in_class =
    utf8 (b'A' ∷ [])
    ∷ class (b'A' ∷ [])
    ∷ utf8 (b'n' ∷ [])
    ∷ utf8 (b'I' ∷ [])
    ∷ name_and_type (record { name = b'n' ∷ []; descriptor = b'I' ∷ [] })
    ∷ fieldref (record {
      class_name = b'A' ∷ [];
      name_and_type = record { name = b'n' ∷ []; descriptor = int };
    })
    ∷ []

linked : parse_constant_pool run some in_file ≡ ok in_class
unfolding parse_constant_pool class_info_map add_class_name convert_all convert resolve_cp_utf8
    as_utf8 entry lookup insert resolve_cp_name_and_type as_name_and_type
    resolve_cp_name_and_type_field field_descriptor parse_field_descriptor parse_field_type
    parse_base_type base_type
linked = refl

-- A field reference to an entry that is no class.
not_linked : parse_constant_pool run some (ClassFile.fieldref 1 1 ∷ []) ≡ panic
unfolding parse_constant_pool class_info_map add_class_name convert_all convert lookup
not_linked = refl

-- A class whose name does not decode.
not_decoded :
    parse_constant_pool run (λ bytes. none) (ClassFile.utf8 (0xff ∷ []) ∷ ClassFile.class 1 ∷ [])
    ≡ panic
unfolding parse_constant_pool class_info_map add_class_name resolve_cp_utf8 as_utf8 entry
not_decoded = refl

parse_constant_pool_iff_example :
    (parse_constant_pool run some in_file ≡ ok in_class) ↔ AllLink run some in_file in_file in_class
parse_constant_pool_iff_example = parse_constant_pool_iff run some in_file in_class
