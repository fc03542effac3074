-- ===== src/ClassLoader/Statics/Initial.antt =====
-- The static fields after `init_static_from_const_value` of src/runtime/class_loader.rs.
use rust_jvm.Prelude.{
  suc, ℕ, ◌+◌, ◌<◌, ◌≤◌, ◌≡◌, inl, inr, refl, sym, ◌∙◌, arith, Option, none, some, List, [], ◌∷◌,
  length, get_elem?, All, Option-cases,
}
use rust_jvm.Prelude.Outcome.{ok}
use rust_jvm.Prelude.Equality.{nat_eq, list_eq}
use rust_jvm.Attributes.Data.{Const}
use rust_jvm.Interpreter.{Variable}
use rust_jvm.ClassLoader.{FieldInfo, words, object_words}
use rust_jvm.ClassLoader.Layout.{IsLaidOut}
use rust_jvm.ClassLoader.Statics.{constant_of, init_field, init_static_from_const_value}
use rust_jvm.ClassLoader.Statics.Interning.{Strings, CanIntern, Follows, Follows-same}
use rust_jvm.ClassLoader.Statics.Writes.{Changes, Fits, HasValue, write_constant_lem, HasValue-kept}

-- A field whose attribute, if it has one, is a constant of its type.
abbrev pub ConstantFits : FieldInfo → Type 0
ConstantFits f = (c : Const) → constant_of f.attributes ≡ some c → Fits f.descriptor c

module _ {C : Type 0} where
  -- The variables of the field `f` among `new`, where they were `old`, in the state `s`.
  pub record IsInitial (s : Strings C) (old new : List Variable) (f : FieldInfo) : Type 0 where
    pub constant :
        (c : Const) → constant_of f.attributes ≡ some c → HasValue f.descriptor c f.index new s
    pub kept :
        constant_of f.attributes ≡ none
        → (j : ℕ) → f.index ≤ j
        → j < f.index + words f
        → get_elem? new j ≡ get_elem? old j

  abbrev Initialises : ℕ → List FieldInfo → List Variable → List Variable → Strings C → Type 0
  Initialises start fs base vs h =
      (r : List Variable × Strings C) × (init_static_from_const_value fs (vs, h) ≡ ok r)
      × Follows 0 h r.1
      × Changes start (object_words fs) vs r.0
      × All (IsInitial r.1 base r.0) fs

  first_field :
      (n start : ℕ) (f : FieldInfo) (vs : List Variable) (h : Strings C)
      → CanIntern (suc n) h
      → ConstantFits f
      → f.index ≡ start
      → start + words f ≤ length vs
      → (r : List Variable × Strings C) × (init_field f (constant_of f.attributes) (vs, h) ≡ ok r)
        × Follows n h r.1
        × Changes start (words f) vs r.0
        × IsInitial r.1 vs r.0 f
  unfolding init_field
  first_field n start f vs h can fits place fit = elim (Option-cases (constant_of f.attributes)) [
    | inl e ↦ (
      (vs, h),
      rw e refl,
      Follows-same n h can,
      record { size = refl; others = λ i far. refl },
      record {
        constant = λ c has.
            let wrong : ◌≡◌ {A = Option Const} none (some c) = sym e ∙ has in absurd (cc wrong);
        kept = λ _ j low high. refl;
      },
    )
    | inr (c, e) ↦
        let inside : f.index + words f ≤ length vs = rw (← place) at fit in
        let (r, run, later, changes, value) =
          write_constant_lem n f.descriptor c f.index vs h can (fits c e) inside in
        (
          r,
          rw e run,
          later,
          rw place at changes,
          record {
            constant = λ d has.
                let both : ◌≡◌ {A = Option Const} (some c) (some d) = sym e ∙ has in
                let same : c ≡ d = cc both in rw same at value;
            kept = λ absent.
                let wrong : ◌≡◌ {A = Option Const} (some c) none = sym e ∙ absent in
                absurd (cc wrong);
          },
        )
  ]

  init_from :
      (start : ℕ) (fs : List FieldInfo) (base vs : List Variable) (h : Strings C)
      → CanIntern (length fs) h
      → IsLaidOut start fs
      → All ConstantFits fs
      → start + object_words fs ≤ length vs
      → ((j : ℕ) → start ≤ j → get_elem? vs j ≡ get_elem? base j)
      → Initialises start fs base vs h
  unfolding init_static_from_const_value object_words
  init_from start [] base vs h can laid fits fit agree = (
    (vs, h),
    refl,
    record { can = can; grown = λ k e there. there },
    record { size = refl; others = λ i far. refl },
    tt,
  )
  init_from start (f ∷ fs) base vs h can (place, laid) (c, fits) fit agree =
      let ((middle, h'), first, next, changed, value) =
        first_field (length fs) start f vs h can c place (omega (arith, fit)) in
      let (r, rest, after, later, values) =
        init_from (start + words f) fs base middle h' next.can laid fits
          (omega (arith, fit, changed.size))
          (λ j from. changed.others j (inr from) ∙ agree j (omega (arith, from))) in
      let same : (j : ℕ) → j < f.index + words f → get_elem? r.0 j ≡ get_elem? middle j =
        λ j low. later.others j (inl (omega (arith, low, place))) in
      (
        r,
        rw first rest,
        record { can = after.can; grown = λ k e there. after.grown k e (next.grown k e there) },
        record {
          size = later.size ∙ changed.size;
          others = λ i far. elim far [
            | inl low ↦ later.others i (inl (omega (arith, low))) ∙ changed.others i (inl low)
            | inr high ↦
                later.others i (inr (omega (arith, high)))
                ∙ changed.others i (inr (omega (arith, high)))
          ];
        },
        (
          record {
            constant = λ d has.
                HasValue-kept 0 f.descriptor d f.index middle r.0 h' r.1 after same
                  (value.constant d has);
            kept = λ absent j low high.
                same j high ∙ (value.kept absent j low high ∙ agree j (omega (arith, low, place)));
          },
          values,
        ),
      )

  -- Where the static fields stand one behind the other in the variables, their constants are of their types,
  -- the strings among them in modified UTF-8, java/lang/String is initialised, the table of strings and the
  -- heap agree, and the heap has room for two objects for each field, `init_static_from_const_value` returns.
  -- Then each field with an attribute `ConstantValue` has the constant as its value, which for a string is
  -- the identifier that the table then has for its characters, with the objects of the string on the heap;
  -- the variables of the other fields are as they were, and the table has kept its entries.
  pub init_static_lem :
      (fields : List FieldInfo) (static_fields : List Variable) (heap : Strings C)
      → CanIntern (length fields) heap
      → IsLaidOut 0 fields
      → All ConstantFits fields
      → object_words fields ≤ length static_fields
      → (r : List Variable × Strings C) × (init_static_from_const_value fields (static_fields, heap)
          ≡ ok r)
        × (length r.0 ≡ length static_fields)
        × Follows 0 heap r.1
        × All (IsInitial r.1 static_fields r.0) fields
  init_static_lem fields static_fields heap can laid fits fit =
      let (r, run, later, changes, values) =
        init_from 0 fields static_fields static_fields heap can laid fits (omega (arith, fit))
          (λ j from. refl) in
      (r, run, changes.size, later, values)
