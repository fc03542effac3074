-- ===== src/Descriptor/Methods.antt =====
-- The parser of method descriptors undoes the printer.
use mathlib.Core.List.{append_assoc, append-nil}
use rust_jvm.Prelude.{
  ℕ, zero, suc, ◌<◌, ◌≡◌, refl, ◌∙◌, none, some, List, [], ◌∷◌, ◌++◌, arith, length, length-append,
  All,
}
use rust_jvm.Descriptor.{Text, FieldType, ReturnType, MethodDescriptor, to_descriptor}
use rust_jvm.Descriptor.Nom.{Nom}
use rust_jvm.Descriptor.Parser.{
  parse_field_type, enough, parse_void_type, parse_return_type_descriptor, parse_method_descriptor,
  base_chars,
}
use rust_jvm.Descriptor.RoundTrip.{
  NamesFit, depth-lt-length, base-fails, object-fails, array-fails, parse-to_descriptor,
}

-- The text of a method descriptor, as the class file format defines it.
pub parameters_text : List FieldType → Text
parameters_text [] = []
parameters_text (t ∷ ts) = to_descriptor t ++ parameters_text ts

pub return_text : ReturnType → Text
return_text none = b'V' ∷ []
return_text (some t) = to_descriptor t

abbrev pub ReturnFits : ReturnType → Type 0
ReturnFits none = Unit
ReturnFits (some t) = NamesFit t

module _ (nom : Nom) where
  -- A closing parenthesis starts no type.
  field_type-stop : (fuel : ℕ) (i : Text) → parse_field_type nom fuel (b')' ∷ i) ≡ none
  unfolding parse_field_type
  field_type-stop zero i = refl
  field_type-stop (suc fuel) i = rw (
    nom.alt3-run _ _ _ _ _,
    base-fails nom b')' i (nom.one_of-cons base_chars b')' _),
    object-fails nom b')' i refl,
    array-fails nom (parse_field_type nom fuel) b')' i refl,
  )

  many0-parameters :
      (ts : List FieldType) (fuel : ℕ) (rest : Text)
      → length (parameters_text ts) < fuel
      → All NamesFit ts
      → nom.many0 FieldType (parse_field_type nom fuel) (parameters_text ts ++ b')' ∷ rest)
        ≡ some (b')' ∷ rest, ts)
  unfolding parameters_text
  many0-parameters [] fuel rest h fit =
      nom.many0-stop FieldType (parse_field_type nom fuel) (b')' ∷ rest) (field_type-stop fuel rest)
  many0-parameters (t ∷ ts) fuel rest h (ft, fts) =
      let more = parameters_text ts ++ b')' ∷ rest in
      let split = length-append (to_descriptor t) (parameters_text ts) in
      let first =
        parse-to_descriptor nom t fuel more (omega (arith, split, depth-lt-length t)) ft in
      rw (append_assoc (to_descriptor t) (parameters_text ts) (b')' ∷ rest)) (
        nom.many0-step FieldType (parse_field_type nom fuel) (to_descriptor t ++ more) more t first
          (omega (arith, length-append (to_descriptor t) more, depth-lt-length t))
        ∙ rw (many0-parameters ts fuel rest (omega (arith, split)) fts))

  void-fails : (fuel : ℕ) → parse_field_type nom fuel (b'V' ∷ []) ≡ none
  unfolding parse_field_type
  void-fails zero = refl
  void-fails (suc fuel) = rw (
    nom.alt3-run _ _ _ _ _,
    base-fails nom b'V' [] (nom.one_of-cons base_chars b'V' _),
    object-fails nom b'V' [] refl,
    array-fails nom (parse_field_type nom fuel) b'V' [] refl,
  )

  return-text :
      (r : ReturnType)
      → ReturnFits r
      → parse_return_type_descriptor nom (return_text r) ≡ some ([], r)
  unfolding parse_return_type_descriptor return_text parse_void_type
  return-text none h = rw (
    nom.alt2-run _ _ _ _,
    nom.map-run _ _ _ _ _,
    void-fails (enough nom (b'V' ∷ [])),
    nom.one_char-cons b'V' b'V' [],
  )
  return-text (some t) h =
      let whole =
        parse-to_descriptor nom t (enough nom (to_descriptor t)) []
          (omega (arith, depth-lt-length t)) h in
      rw (nom.alt2-run _ _ _ _, nom.map-run _ _ _ _ _, rw append-nil at whole)

  -- `parse_method_descriptor` gives the parameters and the return type of a method descriptor back.
  pub parse_method_descriptor-text :
      (m : MethodDescriptor)
      → All NamesFit m.parameters
      → ReturnFits m.return_type
      → parse_method_descriptor nom
          (b'(' ∷ (parameters_text m.parameters ++ b')' ∷ return_text m.return_type))
        ≡ some ([], m)
  unfolding parse_method_descriptor
  parse_method_descriptor-text m fp fr =
      let ps = m.parameters in
      let rest = return_text m.return_type in
      rw (
        nom.delimited-run _ _ _ _ _ _ _,
        nom.one_char-cons b'(' b'(' _,
        many0-parameters ps (enough nom (b'(' ∷ (parameters_text ps ++ b')' ∷ rest))) rest
            (omega (arith, length-append (parameters_text ps) (b')' ∷ rest))) fp,
        nom.one_char-cons b')' b')' rest,
        return-text m.return_type fr,
        nom.eof-nil,
      )
