-- ===== src/Descriptor/Tests.antt =====
-- The parsers on concrete descriptors.
use rust_jvm.Prelude.{ℕ, ◌≡◌, ◌≢◌, none, some, [], ◌∷◌, ◌++◌, arith, All}
use rust_jvm.Descriptor.{FieldType, long, object, array, MethodDescriptor, to_descriptor}
use rust_jvm.Descriptor.Run.{run}
use rust_jvm.Descriptor.Parser.{parse_field_descriptor, parse_method_descriptor}
use rust_jvm.Descriptor.RoundTrip.{parse_field_descriptor-to_descriptor}
use rust_jvm.Descriptor.Methods.{parse_method_descriptor-text, parameters_text, return_text}

-- `[La/B;`
abbrev boxes : FieldType
boxes = array (object (b'a' ∷ b'/' ∷ b'B' ∷ []))

boxes-NamesFit : All {A = ℕ} (λ c. c ≢ b';') (b'a' ∷ b'/' ∷ b'B' ∷ [])
boxes-NamesFit = (omega arith, (omega arith, (omega arith, tt)))

parse_field_descriptor-to_descriptor_example :
    parse_field_descriptor run (to_descriptor boxes) ≡ some ([], boxes)
parse_field_descriptor-to_descriptor_example =
    parse_field_descriptor-to_descriptor run boxes boxes-NamesFit

abbrev main_method : MethodDescriptor
main_method = record { parameters = boxes ∷ long ∷ []; return_type = none }

parse_method_descriptor-text_example :
    parse_method_descriptor run
      (b'(' ∷ (parameters_text (boxes ∷ long ∷ []) ++ b')' ∷ return_text none))
    ≡ some ([], main_method)
parse_method_descriptor-text_example =
    parse_method_descriptor-text run main_method (boxes-NamesFit, (tt, tt)) tt
