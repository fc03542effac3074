-- ===== src/ClassLoader/Tests.antt =====
-- The fields of concrete classes.
use rust_jvm.Prelude.{Option, ℕ, Bytes, ◌≤◌, ◌<◌, ◌≡◌, refl, some, [], ◌∷◌}
use rust_jvm.Prelude.Equality.{list_same, nat_eq, list_eq}
use rust_jvm.Descriptor.{Text, int, long, is_long}
use rust_jvm.Inheritance.{same_type}
use rust_jvm.ClassLoader.{
  FieldInfo, next_index, assign_indices, in_field_map, replaces, layout, has_key,
  resolve_in_this_class, resolve_instance_field, allocate_from, allocate_static_fields,
}
use rust_jvm.ClassLoader.Layout.{IsLaidOut, Separates, layout_lem}
use rust_jvm.Prelude.Outcome.{ok}
use rust_jvm.Descriptor.Parser.{
  parse_field_descriptor, parse_field_type, parse_base_type, base_type,
}
use rust_jvm.Descriptor.Run
use rust_jvm.Parsing.Run.{run}
use rust_jvm.ClassFile
use rust_jvm.Constants.{
  utf8, class, entry, resolve_cp_utf8, field_descriptor, method_descriptor, add_class_name,
  class_info_map, convert, convert_all, parse_constant_pool,
}
use rust_jvm.Constants
use rust_jvm.Attributes.Resolve.{as_utf8, as_class, resolve_runtime_cp_utf8, resolve_cp_class}
use rust_jvm.ClassLoader.Parse.{Class, map_all, partition_static, parse_field, parse_class}
use rust_jvm.ClassLoader.Parse.Members.{ParsesTo, parse_class_lem}
use rust_jvm.ClassLoader.Lookup.{IsIndexIn, hidden_field}

abbrev count : FieldInfo
count = record { access_flags = 0; attributes = []; name = b'n' ∷ []; descriptor = int; index = 0 }

abbrev time : FieldInfo
time = record { access_flags = 0; attributes = []; name = b't' ∷ []; descriptor = long; index = 1 }

laid : IsLaidOut 0 (count ∷ time ∷ [])
unfolding is_long
laid = (refl, (refl, tt))

layout_lem_example :
    IsLaidOut 0 (layout (count ∷ time ∷ []) (count ∷ []))
    × Separates (count ∷ time ∷ []) (layout (count ∷ time ∷ []) (count ∷ []))
layout_lem_example = layout_lem (count ∷ time ∷ []) (count ∷ []) laid

from_class : resolve_in_this_class (b'n' ∷ []) int (count ∷ time ∷ []) (count ∷ []) ≡ some 3
unfolding resolve_in_this_class in_field_map replaces next_index assign_indices is_long has_key
    list_same same_type
from_class = refl

from_elsewhere :
    resolve_instance_field (b'n' ∷ []) int (layout (count ∷ time ∷ []) (count ∷ [])) ≡ some 0
unfolding resolve_instance_field layout next_index assign_indices is_long has_key list_same
    same_type
from_elsewhere = refl

hidden_field_example :
    (a : ℕ) × (b : ℕ) × (resolve_in_this_class (b'n' ∷ []) int (count ∷ time ∷ []) (count ∷ [])
      ≡ some a)
    × (resolve_instance_field (b'n' ∷ []) int (layout (count ∷ time ∷ []) (count ∷ [])) ≡ some b)
    × IsIndexIn (b'n' ∷ []) int (assign_indices (next_index (count ∷ time ∷ [])) (count ∷ [])) a
    × IsIndexIn (b'n' ∷ []) int (count ∷ time ∷ []) b
    × (b < next_index (count ∷ time ∷ []))
    × (next_index (count ∷ time ∷ []) ≤ a)
hidden_field_example =
    hidden_field (b'n' ∷ []) int (count ∷ time ∷ []) (count ∷ []) laid
      (0, count, refl, (refl, refl)) (0, count, refl, (refl, refl))

abbrev text_of : Bytes → Option Text
text_of bytes = some bytes

-- A class `A` with an instance field `n` and a static field of the type `int`.
abbrev in_file : ClassFile.Class
in_file = record {
  minor_version = 0;
  major_version = 61;
  constant_pool =
      ClassFile.utf8 (b'A' ∷ [])
      ∷ ClassFile.class 1
      ∷ ClassFile.utf8 (b'n' ∷ [])
      ∷ ClassFile.utf8 (b'I' ∷ [])
      ∷ [];
  access_flags = 0x21;
  this_class = 2;
  super_class = 0;
  interfaces = [];
  fields =
      record { access_flags = 1; name_index = 3; descriptor_index = 4; attributes = [] }
      ∷ record { access_flags = 9; name_index = 1; descriptor_index = 4; attributes = [] }
      ∷ [];
  methods = [];
  attributes = [];
}

abbrev in_runtime : Class
in_runtime = record {
  constant_pool = utf8 (b'A' ∷ []) ∷ class (b'A' ∷ []) ∷ utf8 (b'n' ∷ []) ∷ utf8 (b'I' ∷ []) ∷ [];
  access_flags = 0x21;
  class_name = b'A' ∷ [];
  static_fields_info =
      record { access_flags = 9; name = b'A' ∷ []; descriptor = int; attributes = []; index = 0 }
      ∷ [];
  instance_fields_info =
      record { access_flags = 1; name = b'n' ∷ []; descriptor = int; attributes = []; index = 0 }
      ∷ [];
  methods = [];
  attributes = [];
  static_fields = 0 ∷ [];
}

in_file_parsed : parse_class run Run.run text_of in_file ≡ ok in_runtime
unfolding parse_class parse_constant_pool class_info_map add_class_name convert_all convert
    resolve_cp_utf8 Constants.as_utf8 as_utf8 as_class entry resolve_runtime_cp_utf8
    resolve_cp_class field_descriptor parse_field_descriptor parse_field_type parse_base_type
    base_type map_all partition_static parse_field allocate_static_fields allocate_from is_long
in_file_parsed = refl

parse_class_lem_example : ParsesTo run Run.run text_of in_file in_runtime
parse_class_lem_example = parse_class_lem run Run.run text_of in_file in_runtime in_file_parsed
