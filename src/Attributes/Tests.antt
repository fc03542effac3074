-- ===== src/Attributes/Tests.antt =====
-- The code attribute of a method with a handler and a table of line numbers.
use rust_jvm.Prelude.{◌≡◌, ◌≢◌, refl, arith, Option, some, [], ◌∷◌, Bytes}
use rust_jvm.Prelude.Outcome.{ok}
use rust_jvm.Prelude.Equality.{list_same}
use rust_jvm.Descriptor.{Text}
use rust_jvm.Descriptor.Run
use rust_jvm.Parsing.{parsed, out_of_fuel}
use rust_jvm.Parsing.Run.{run}
use rust_jvm.Constants.{utf8, class, entry}
use rust_jvm.Attributes.Data.{line_number_table}
use rust_jvm.Attributes.Resolve.{Pool, resolve_runtime_cp_utf8, resolve_cp_class, as_utf8, as_class}
use rust_jvm.Prelude.Texts.{codes}
use rust_jvm.Attributes.{parse_attribute, attribute_of, parse_line_number}
use rust_jvm.Attributes.Nesting.{parse_attribute_terminates}
use rust_jvm.Attributes.Code.{
  Inner, CodeFile, encode_code, code_of, IsInner, IsCodeFile, parse_attribute-encode_code,
}

abbrev pool : Pool
pool = utf8 (codes "Code") ∷ utf8 (codes "LineNumberTable") ∷ class (b'E' ∷ []) ∷ []

abbrev lines : Inner
lines = record {
  name_index = 2;
  info = 0 ∷ 1 ∷ 0 ∷ 0 ∷ 0 ∷ 7 ∷ [];
  attribute = line_number_table (record { start_pc = 0; line_number = 7 } ∷ []);
}

abbrev method_code : CodeFile
method_code = record {
  max_stack = 1;
  max_locals = 2;
  code = 0x2a ∷ 0xbf ∷ [];
  exception_table =
      record {
        item = record { start_pc = 0; end_pc = 2; handler_pc = 0; catch_type = some (b'E' ∷ []) };
        catch_index = 3;
      }
      ∷ [];
  attributes = lines ∷ [];
}

abbrev chars_of : Bytes → Option Text
chars_of bytes = some bytes

lines-IsInner : IsInner run Run.run chars_of pool 1 lines
unfolding parse_attribute attribute_of parse_line_number resolve_runtime_cp_utf8 as_utf8 entry
    list_same
lines-IsInner = record { name_index = omega arith; size = omega arith; left = []; stands = refl }

class_found : resolve_cp_class pool 3 ≡ ok (b'E' ∷ [])
unfolding resolve_cp_class as_class entry
class_found = refl

name_found : resolve_runtime_cp_utf8 pool 1 ≡ ok (codes "Code")
unfolding resolve_runtime_cp_utf8 as_utf8 entry
name_found = refl

method_code-IsCodeFile : IsCodeFile run Run.run chars_of pool 1 method_code
method_code-IsCodeFile = record {
  max_stack = omega arith;
  max_locals = omega arith;
  code_size = omega arith;
  table_size = omega arith;
  exception_table = (
    record {
      start_pc = omega arith;
      end_pc = omega arith;
      handler_pc = omega arith;
      catch_index = omega arith;
      catch_type = (omega arith, class_found);
    },
    tt,
  );
  attributes_size = omega arith;
  attributes = (lines-IsInner, tt);
}

parse_attribute-encode_code_example :
    parse_attribute run Run.run chars_of pool 2 1 (encode_code method_code)
    ≡ parsed [] (code_of method_code)
parse_attribute-encode_code_example =
    parse_attribute-encode_code run Run.run chars_of pool 1 1 (codes "Code") method_code name_found
      refl method_code-IsCodeFile

parse_attribute_terminates_example :
    parse_attribute run Run.run chars_of pool 7 2 (0 ∷ 1 ∷ 0 ∷ 0 ∷ 0 ∷ 7 ∷ []) ≢ out_of_fuel
parse_attribute_terminates_example =
    parse_attribute_terminates run Run.run chars_of pool 7 2 (0 ∷ 1 ∷ 0 ∷ 0 ∷ 0 ∷ 7 ∷ [])
      (omega arith)
