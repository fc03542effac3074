-- ===== src/ClassFile/Tests.antt =====
-- A small class file: two constants that are long, a field and a method with code.
use rust_jvm.Prelude.{◌-◌, ◌^◌, ◌≡◌, ◌≢◌, refl, arith, [], ◌∷◌, ◌++◌}
use rust_jvm.Prelude.Equality.{list_same}
use rust_jvm.Parsing.{parsed, failed, panicked, out_of_fuel, big_endian}
use rust_jvm.Parsing.Run.{run}
use rust_jvm.Parsing.Ends.{EndsWith}
use rust_jvm.ClassFile.{
  utf8, long, class, method_handle, empty, need_empty, Class, class_file, parse_header,
  parse_constant_pool, constant_pool_loop, parse_constant, parse_constant_info, push_constant, one,
}
use rust_jvm.ClassFile.Encode.{encode, IsPool, IsClassFile}
use rust_jvm.ClassFile.RoundTrip.{class_file-encode, class_file-encode_rest}
use rust_jvm.ClassFile.Bounds.{Sized, parse_constant_pool_bounds, class_file_terminates}

abbrev small : Class
small = record {
  minor_version = 0;
  major_version = 61;
  constant_pool = long (2 ^ 63) ∷ empty ∷ class 4 ∷ utf8 (b'A' ∷ []) ∷ method_handle 6 1 ∷ [];
  access_flags = 0x21;
  this_class = 3;
  super_class = 0;
  interfaces = 3 ∷ [];
  fields = record { access_flags = 0; name_index = 4; descriptor_index = 4; attributes = [] } ∷ [];
  methods =
      record {
        access_flags = 9;
        name_index = 4;
        descriptor_index = 4;
        attributes = record { attribute_name_index = 4; info = 0xb1 ∷ [] } ∷ [];
      }
      ∷ [];
  attributes = [];
}

small-IsPool : IsPool small.constant_pool
unfolding need_empty
small-IsPool = (omega arith, (refl, (omega arith, (omega arith, ((omega arith, omega arith), tt)))))

small-IsClassFile : IsClassFile small
small-IsClassFile = record {
  minor_version = omega arith;
  major_version = omega arith;
  pool_size = omega arith;
  constant_pool = small-IsPool;
  access_flags = omega arith;
  this_class = omega arith;
  super_class = omega arith;
  interfaces = omega arith;
  fields = omega arith;
  methods = omega arith;
  attributes = omega arith;
}

class_file-encode_example : class_file run (encode small) ≡ parsed [] small
class_file-encode_example = class_file-encode run small small-IsClassFile

class_file-encode_rest_example : class_file run (encode small ++ 0 ∷ []) ≡ failed
class_file-encode_rest_example = class_file-encode_rest run small 0 [] small-IsClassFile

parse_constant_pool_bounds_example :
    EndsWith
      (big_endian 0 (0 ∷ 2 ∷ []) ≡ 0)
      (Sized (big_endian 0 (0 ∷ 2 ∷ []) - 1))
      (parse_constant_pool run (0 ∷ 2 ∷ 5 ∷ 0 ∷ 0 ∷ 0 ∷ 0 ∷ 0 ∷ 0 ∷ 0 ∷ 7 ∷ []))
parse_constant_pool_bounds_example =
    parse_constant_pool_bounds run (0 ∷ 2 ∷ []) (5 ∷ 0 ∷ 0 ∷ 0 ∷ 0 ∷ 0 ∷ 0 ∷ 0 ∷ 7 ∷ []) refl

class_file_terminates_example : class_file run (encode small) ≢ out_of_fuel
class_file_terminates_example = class_file_terminates run (encode small)

-- The filler of a last `long` is beyond the count.
too_many :
    parse_constant_pool run (0 ∷ 2 ∷ 5 ∷ 0 ∷ 0 ∷ 0 ∷ 0 ∷ 0 ∷ 0 ∷ 0 ∷ 7 ∷ [])
    ≡ parsed [] (long 7 ∷ empty ∷ [])
unfolding parse_constant_pool constant_pool_loop parse_constant parse_constant_info push_constant
    need_empty one
too_many = refl

-- A class file with the count 0 makes the parser panic.
no_count : class_file run (0xca ∷ 0xfe ∷ 0xba ∷ 0xbe ∷ 0 ∷ 0 ∷ 0 ∷ 61 ∷ 0 ∷ 0 ∷ []) ≡ panicked
unfolding class_file parse_header parse_constant_pool list_same
no_count = refl
