-- ===== src/Descriptor/RoundTrip.antt =====
-- The parsers of descriptors undo the printer, and their fuel is enough.
use mathlib.Core.List.{append_assoc, append-nil}
use rust_jvm.Prelude.{
  ℕ, zero, suc, ◌<◌, ◌≡◌, ◌≢◌, refl, false, none, some, [], ◌∷◌, ◌++◌, arith, length, length-append,
  All, ◌==◌, Bool-cases, inl, inr,
}
use rust_jvm.Descriptor.{Text, FieldType, byte, object, array, to_descriptor}
use rust_jvm.Descriptor.Nom.{Nom, Parser}
use rust_jvm.Descriptor.Parser.{
  base_type, parse_base_type, parse_object_type, parse_array_type, parse_field_type, enough,
  parse_field_descriptor, base_chars,
}

-- No class name in the type has a `;`.
abbrev pub NamesFit : FieldType → Type 0
NamesFit (object class_name) = All (λ c. c ≢ b';') class_name
NamesFit (array t) = NamesFit t
NamesFit _ = Unit

pub depth : FieldType → ℕ
depth (array t) = suc (depth t)
depth _ = 0

pub depth-lt-length : (t : FieldType) → depth t < length (to_descriptor t)
unfolding depth to_descriptor
depth-lt-length (array t) = omega (arith, depth-lt-length t)
depth-lt-length (object n) = omega arith
depth-lt-length _ = omega arith

module _ (nom : Nom) where
  -- One character that is not among those of the base types, nor `L`, nor `[`.
  pub base-fails :
      (c : ℕ) (i : Text) → nom.one_of base_chars (c ∷ i) ≡ none → parse_base_type nom (c ∷ i) ≡ none
  unfolding parse_base_type
  base-fails c i h = rw h

  pub object-fails : (c : ℕ) (i : Text) → (b'L' == c) ≡ false → parse_object_type nom (c ∷ i) ≡ none
  unfolding parse_object_type
  object-fails c i h = rw (nom.one_char-cons b'L' c i, h)

  pub array-fails :
      (p : Parser FieldType) (c : ℕ) (i : Text)
      → (b'[' == c) ≡ false
      → parse_array_type nom p (c ∷ i) ≡ none
  unfolding parse_array_type
  array-fails p c i h = rw (nom.one_char-cons b'[' c i, h)

  parse_base :
      (fuel c : ℕ) (rest : Text) (t : FieldType)
      → parse_base_type nom (c ∷ rest) ≡ some (rest, t)
      → parse_field_type nom (suc fuel) (c ∷ rest) ≡ some (rest, t)
  unfolding parse_field_type
  parse_base fuel c rest t h = rw (nom.alt3-run _ _ _ _ _, h)

  parse_object :
      (fuel : ℕ) (class_name rest : Text)
      → All (λ c. c ≢ b';') class_name
      → parse_field_type nom (suc fuel) (b'L' ∷ (class_name ++ b';' ∷ rest))
        ≡ some (rest, object class_name)
  unfolding parse_field_type parse_object_type
  parse_object fuel class_name rest h = rw (
    nom.alt3-run _ _ _ _ _,
    base-fails b'L' (class_name ++ b';' ∷ rest) (nom.one_of-cons base_chars b'L' _),
    nom.one_char-cons b'L' b'L' _,
    nom.take_until-found b';' class_name rest h,
    nom.one_char-cons b';' b';' rest,
  )

  parse_array :
      (fuel : ℕ) (input rest : Text) (t : FieldType)
      → parse_field_type nom fuel input ≡ some (rest, t)
      → parse_field_type nom (suc fuel) (b'[' ∷ input) ≡ some (rest, array t)
  unfolding parse_field_type parse_array_type
  parse_array fuel input rest t h = rw (
    nom.alt3-run _ _ _ _ _,
    base-fails b'[' input (nom.one_of-cons base_chars b'[' _),
    object-fails b'[' input refl,
    nom.one_char-cons b'[' b'[' input,
    h,
  )

  -- After a printed type the parser returns the type and what follows.
  pub parse-to_descriptor :
      (t : FieldType) (fuel : ℕ) (rest : Text)
      → depth t < fuel
      → NamesFit t
      → parse_field_type nom fuel (to_descriptor t ++ rest) ≡ some (rest, t)
  unfolding to_descriptor depth parse_base_type base_type
  parse-to_descriptor t zero rest d h = absurd (omega arith)
  parse-to_descriptor (array t) (suc fuel) rest d h =
      parse_array fuel (to_descriptor t ++ rest) rest t
        (parse-to_descriptor t fuel rest (omega arith) h)
  parse-to_descriptor (object n) (suc fuel) rest d h =
      rw (append_assoc n (b';' ∷ []) rest) (parse_object fuel n rest h)
  parse-to_descriptor byte (suc fuel) rest d h =
      parse_base fuel _ rest byte (rw (nom.one_of-cons base_chars _ _))
  parse-to_descriptor _ (suc fuel) rest d h =
      parse_base fuel _ rest _ (rw (nom.one_of-cons base_chars _ _))

  -- The parsers do not depend on the fuel once it exceeds the length of the input.
  parse_field_type_fuel :
      (fuel fuel' : ℕ) (input : Text)
      → length input < fuel
      → length input < fuel'
      → parse_field_type nom fuel input ≡ parse_field_type nom fuel' input
  unfolding parse_field_type parse_array_type
  parse_field_type_fuel zero fuel' input h h' = elim h [ ]
  parse_field_type_fuel (suc fuel) zero input h h' = elim h' [ ]
  parse_field_type_fuel (suc fuel) (suc fuel') [] h h' =
      rw (nom.alt3-run _ _ _ _ _, nom.alt3-run _ _ _ _ _, nom.one_char-nil b'[')
  parse_field_type_fuel (suc fuel) (suc fuel') (d ∷ i) h h' =
      rw
        (
          nom.alt3-run FieldType _ _ (parse_array_type nom (parse_field_type nom fuel)) (d ∷ i),
          nom.alt3-run FieldType _ _ (parse_array_type nom (parse_field_type nom fuel')) (d ∷ i),
          nom.one_char-cons b'[' d i,
        )
        (elim (Bool-cases (b'[' == d)) [
          | inl e ↦ rw (e, parse_field_type_fuel fuel fuel' i (omega arith) (omega arith))
          | inr e ↦ rw e
        ])

  -- `parse_field_descriptor` gives a printed type back and leaves nothing.
  pub parse_field_descriptor-to_descriptor :
      (t : FieldType) → NamesFit t → parse_field_descriptor nom (to_descriptor t) ≡ some ([], t)
  unfolding parse_field_descriptor
  parse_field_descriptor-to_descriptor t h =
      let whole =
        parse-to_descriptor t (enough nom (to_descriptor t)) [] (omega (arith, depth-lt-length t))
          h in
      rw (rw append-nil at whole, nom.eof-nil)

  -- A descriptor with anything behind its type is refused.
  parse_field_descriptor_rest :
      (t : FieldType) (c : ℕ) (rest : Text)
      → NamesFit t
      → parse_field_descriptor nom (to_descriptor t ++ c ∷ rest) ≡ none
  unfolding parse_field_descriptor
  parse_field_descriptor_rest t c rest h = rw (
    parse-to_descriptor t (enough nom (to_descriptor t ++ c ∷ rest)) (c ∷ rest)
        (omega (arith, depth-lt-length t, length-append (to_descriptor t) (c ∷ rest))) h,
    nom.eof-cons c rest,
  )
