-- ===== src/ClassLoader/Layout.antt =====
-- The fields of a class do not overlap: src/runtime/class_loader/bootstrap.rs for the instance fields,
-- src/runtime/class_loader.rs for the static ones.
use rust_jvm.Prelude.{
  ℕ, zero, suc, ◌+◌, ◌≤◌, ◌<◌, ◌≡◌, refl, ap, arith, some, List, [], ◌∷◌, ◌++◌, length, get_elem?,
  length-append, get_elem?-append_left, Bool-cases, inl, inr,
}
use rust_jvm.Descriptor.{is_long}
use rust_jvm.Interpreter.{Variable, put_long}
use rust_jvm.ClassLoader.{
  FieldInfo, words, next_index, assign_indices, layout, allocate_from, allocate_static_fields,
  object_words,
}

-- The fields stand one behind the other from a word on.
abbrev pub IsLaidOut : ℕ → List FieldInfo → Type 0
IsLaidOut start [] = Unit
IsLaidOut start (f ∷ fs) = (f.index ≡ start) × IsLaidOut (start + words f) fs

assign_indices-IsLaidOut : (n : ℕ) (fs : List FieldInfo) → IsLaidOut n (assign_indices n fs)
unfolding assign_indices
assign_indices-IsLaidOut n [] = tt
assign_indices-IsLaidOut n (f ∷ fs) = elim (Bool-cases (is_long f.descriptor)) [
  | inl e ↦ (refl, rw e (assign_indices-IsLaidOut (n + 2) fs))
  | inr e ↦ (refl, rw e (assign_indices-IsLaidOut (n + 1) fs))
]

next_index-IsLaidOut :
    (start : ℕ) (f : FieldInfo) (fs : List FieldInfo)
    → IsLaidOut start (f ∷ fs)
    → next_index (f ∷ fs) ≡ start + object_words (f ∷ fs)
unfolding next_index object_words
next_index-IsLaidOut start f [] (e, h) = ground (arith, e)
next_index-IsLaidOut start f (g ∷ fs) (e, h) =
    omega (arith, next_index-IsLaidOut (start + words f) g fs h)

pub next_index_total : (fs : List FieldInfo) → IsLaidOut 0 fs → next_index fs ≡ object_words fs
unfolding next_index object_words
next_index_total [] h = refl
next_index_total (f ∷ fs) h = omega (arith, next_index-IsLaidOut 0 f fs h)

append-IsLaidOut :
    (start : ℕ) (fs gs : List FieldInfo)
    → IsLaidOut start fs
    → IsLaidOut (start + object_words fs) gs
    → IsLaidOut start (fs ++ gs)
unfolding object_words
append-IsLaidOut start [] gs h k = let same : start + 0 ≡ start = omega arith in rw same at k
append-IsLaidOut start (f ∷ fs) gs (e, h) k =
    let same : start + (words f + object_words fs) ≡ start + words f + object_words fs =
      omega arith in
    (e, append-IsLaidOut (start + words f) fs gs h (rw same at k))

pub layout-IsLaidOut :
    (super own : List FieldInfo) → IsLaidOut 0 super → IsLaidOut 0 (layout super own)
unfolding layout
layout-IsLaidOut super own h = append-IsLaidOut 0 super (assign_indices (next_index super) own) h (
    let same : 0 + object_words super ≡ next_index super =
      omega (arith, next_index_total super h) in
    rw same (assign_indices-IsLaidOut (next_index super) own))

-- Every field lies within the words.
pub field_bounds :
    (start i : ℕ) (f : FieldInfo) (fs : List FieldInfo)
    → IsLaidOut start fs
    → get_elem? fs i ≡ some f
    → (start ≤ f.index) × (f.index + words f ≤ start + object_words fs)
unfolding object_words
field_bounds start i f [] h at = absurd (cc at)
field_bounds start zero f (g ∷ fs) (e, h) at =
    let same : g ≡ f = cc at in
    let start_f : f.index ≡ start = rw same at e in
    let words_f : words g ≡ words f = ap (λ x. words x) same in
    (omega (arith, start_f), omega (arith, start_f, words_f))
field_bounds start (suc i) f (g ∷ fs) (e, h) at =
    let (low, high) = field_bounds (start + words g) i f fs h at in
    (omega (arith, low), omega (arith, high))

pub fields_apart :
    (start i j : ℕ) (f g : FieldInfo) (fs : List FieldInfo)
    → IsLaidOut start fs
    → get_elem? fs i ≡ some f
    → get_elem? fs j ≡ some g
    → i < j
    → f.index + words f ≤ g.index
fields_apart start i j f g [] h at at' lt = absurd (cc at)
fields_apart start zero zero f g (x ∷ fs) (e, h) at at' lt = absurd (omega arith)
fields_apart start zero (suc j) f g (x ∷ fs) (e, h) at at' lt =
    let same : x ≡ f = cc at in
    let start_f : f.index ≡ start = rw same at e in
    let words_f : words x ≡ words f = ap (λ y. words y) same in
    let (low, high) = field_bounds (start + words x) j g fs h at' in
    omega (arith, start_f, words_f, low)
fields_apart start (suc i) zero f g (x ∷ fs) (e, h) at at' lt = absurd (omega arith)
fields_apart start (suc i) (suc j) f g (x ∷ fs) (e, h) at at' lt =
    fields_apart (start + words x) i j f g fs h at at' (omega arith)

-- What a layout is good for.
pub record Separates (super fields : List FieldInfo) : Type 0 where
  pub inherited : (i : ℕ) → i < length super → get_elem? fields i ≡ get_elem? super i
  pub inside :
      (i : ℕ) (f : FieldInfo)
      → get_elem? fields i ≡ some f
      → f.index + words f ≤ object_words fields
  pub apart :
      (i j : ℕ) (f g : FieldInfo)
      → get_elem? fields i ≡ some f
      → get_elem? fields j ≡ some g
      → i < j
      → f.index + words f ≤ g.index

-- When the fields of the superclass stand one behind the other from 0 on, so do those of the class:
-- the inherited ones are where they were, every field lies within the words that `new_object`
-- allocates, and no two fields share a word.
pub layout_lem :
    (super own : List FieldInfo)
    → IsLaidOut 0 super
    → IsLaidOut 0 (layout super own) × Separates super (layout super own)
unfolding layout
layout_lem super own h =
    let whole = layout-IsLaidOut super own h in
    let fields = super ++ assign_indices (next_index super) own in
    (
      whole,
      record {
        inherited =
            λ i lt. get_elem?-append_left super (assign_indices (next_index super) own) i lt;
        inside = λ i f at. omega (arith, (field_bounds 0 i f fields whole at).1);
        apart = λ i j f g at at' lt. fields_apart 0 i j f g fields whole at at' lt;
      },
    )

allocate_from_lem :
    (vs : List Variable) (fs : List FieldInfo)
    → IsLaidOut (length vs) (allocate_from vs fs).0
      × (length (allocate_from vs fs).1 ≡ length vs + object_words fs)
unfolding allocate_from object_words put_long
allocate_from_lem vs [] = (tt, omega arith)
allocate_from_lem vs (f ∷ fs) = elim (Bool-cases (is_long f.descriptor)) [
  | inl e ↦
      (let (laid, size) = allocate_from_lem (vs ++ 0 ∷ 0 ∷ []) fs in
        let grown : length (vs ++ 0 ∷ 0 ∷ []) ≡ length vs + 2 =
          omega (arith, length-append vs (0 ∷ 0 ∷ [])) in
        rw e ((refl, rw grown at laid), omega (arith, size, grown)))
  | inr e ↦
      (let (laid, size) = allocate_from_lem (vs ++ 0 ∷ []) fs in
        let grown : length (vs ++ 0 ∷ []) ≡ length vs + 1 =
          omega (arith, length-append vs (0 ∷ [])) in
        rw e ((refl, rw grown at laid), omega (arith, size, grown)))
]

-- The static fields stand one behind the other from 0 on, and there are as many variables as their
-- words.
pub allocate_static_fields_lem :
    (fields : List FieldInfo)
    → IsLaidOut 0 (allocate_static_fields fields).0
      × (length (allocate_static_fields fields).1 ≡ object_words fields)
unfolding allocate_static_fields
allocate_static_fields_lem fields =
    let (laid, size) = allocate_from_lem [] fields in (laid, omega (arith, size))
