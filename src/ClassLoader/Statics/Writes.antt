-- ===== src/ClassLoader/Statics/Writes.antt =====
-- The writes of `init_static_from_const_value` of src/runtime/class_loader.rs.
use rust_jvm.Prelude.{
  ℕ, suc, All, ◌+◌, ◌<◌, ◌≤◌, ◌≡◌, ◌⊎◌, inl, inr, refl, ◌∙◌, arith, some, List, length, get_elem?,
  set, length-set, get_elem?-set_self, get_elem?-set_ne, lt→ltb, if◌then◌else◌,
}
use rust_jvm.Prelude.Outcome.{ok}
use rust_jvm.Prelude.Equality.{same, nat_eq, list_eq, same_refl}
use rust_jvm.Descriptor.{FieldType, double, float, long, object, array, is_long}
use rust_jvm.Prelude.Texts.{codes}
use rust_jvm.Attributes.Data.{Const}
use rust_jvm.Attributes.Data
use rust_jvm.Interpreter.{Variable, put_long}
use rust_jvm.JavaStr.Encode.{IsChar, encode}
use rust_jvm.ClassLoader.Statics.Interning.{
  Strings, CanIntern, IsString, Follows, Follows-same, IsString-kept, intern_encoded,
}
use rust_jvm.ClassLoader.Statics.{
  small_value, double_value, float_value, long_value, string_value, write_field, write_two,
  write_constant,
}

-- The variables `new` are those of `old` but for `words` ones from `index` on.
pub record Changes (index words : ℕ) (old new : List Variable) : Type 0 where
  pub size : length new ≡ length old
  pub others : (i : ℕ) → (i < index) ⊎ (index + words ≤ i) → get_elem? new i ≡ get_elem? old i

write_field_lem :
    (old : List Variable) (index : ℕ) (v : Variable)
    → index < length old
    → (new : List Variable) × (write_field old index v ≡ ok new)
      × Changes index 1 old new
      × (get_elem? new index ≡ some v)
unfolding write_field
write_field_lem old index v lt = (
  set old index v,
  rw (lt→ltb index (length old) lt) refl,
  record {
    size = length-set old index v;
    others = λ i far. get_elem?-set_ne old index i v (λ e. elim far [
      | inl low ↦ absurd (omega (arith, e, low))
      | inr high ↦ absurd (omega (arith, e, high))
    ]);
  },
  get_elem?-set_self old index v lt,
)

write_two_lem :
    (old : List Variable) (index : ℕ) (v : Variable × Variable)
    → index + 2 ≤ length old
    → (new : List Variable) × (write_two old index v ≡ ok new)
      × Changes index 2 old new
      × ((get_elem? new index ≡ some v.0) × (get_elem? new (index + 1) ≡ some v.1))
unfolding write_two
write_two_lem old index (a, b) fit =
    let (middle, first, m, at) = write_field_lem old index a (omega (arith, fit)) in
    let (new, second, n, at') = write_field_lem middle (index + 1) b (omega (arith, fit, m.size)) in
    (
      new,
      rw (first, second) refl,
      record {
        size = n.size ∙ m.size;
        others = λ i far. elim far [
          | inl low ↦ n.others i (inl (omega (arith, low))) ∙ m.others i (inl low)
          | inr high ↦
              n.others i (inr (omega (arith, high))) ∙ m.others i (inr (omega (arith, high)))
        ];
      },
      (n.others index (inl (omega arith)) ∙ at, at'),
    )

abbrev pub IsAt : List Variable → ℕ → Variable → Type 0
IsAt vs i v = get_elem? vs i ≡ some v

-- A constant that a field of the type can have.
abbrev pub Fits : FieldType → Const → Type 0
Fits double c = (a : ℕ) × (c ≡ Data.double a)
Fits float c = (a : ℕ) × (c ≡ Data.float a)
Fits long c = (a : ℕ) × (c ≡ Data.long a)
Fits (object name) c =
    (name ≡ codes "java/lang/String")
    × ((us : List ℕ) × All IsChar us × (c ≡ Data.string (encode us)))
Fits (array t) c = ⊥
Fits _ c = (a : ℕ) × (small_value c ≡ ok a)

module _ {C : Type 0} where
  -- The variables from `i` on have the constant as the value of a field of the type, a string as the
  -- object that it has in the state.
  abbrev pub HasValue : FieldType → Const → ℕ → List Variable → Strings C → Type 0
  HasValue double c i vs s =
      (a : ℕ) × (c ≡ Data.double a) × (IsAt vs i (put_long a).0 × IsAt vs (i + 1) (put_long a).1)
  HasValue float c i vs s = (a : ℕ) × (c ≡ Data.float a) × IsAt vs i a
  HasValue long c i vs s =
      (a : ℕ) × (c ≡ Data.long a) × (IsAt vs i (put_long a).0 × IsAt vs (i + 1) (put_long a).1)
  HasValue (object name) c i vs s =
      (us : List ℕ) × (c ≡ Data.string (encode us)) × ((id : ℕ) × IsString s us id × IsAt vs i id)
  HasValue (array t) c i vs s = ⊥
  HasValue _ c i vs s = (a : ℕ) × (small_value c ≡ ok a) × IsAt vs i a

  abbrev pub Writes : ℕ → FieldType → Const → ℕ → List Variable → Strings C → Type 0
  Writes n t c index vs h =
      (r : List Variable × Strings C) × (write_constant t c index (vs, h) ≡ ok r)
      × Follows n h r.1
      × Changes index (if is_long t then 2 else 1) vs r.0
      × HasValue t c index r.0 r.1

  pub write_constant_lem :
      (n : ℕ) (t : FieldType) (c : Const) (index : ℕ) (vs : List Variable) (h : Strings C)
      → CanIntern (suc n) h
      → Fits t c
      → index + (if is_long t then 2 else 1) ≤ length vs
      → Writes n t c index vs h
  unfolding write_constant is_long double_value float_value long_value string_value
  write_constant_lem n double c index vs h can (a, e) fit =
      let (new, run, changes, at) = write_two_lem vs index (put_long a) fit in
      ((new, h), rw (e, run) refl, Follows-same n h can, changes, (a, e, at))
  write_constant_lem n float c index vs h can (a, e) fit =
      let (new, run, changes, at) = write_field_lem vs index a (omega (arith, fit)) in
      ((new, h), rw (e, run) refl, Follows-same n h can, changes, (a, e, at))
  write_constant_lem n long c index vs h can (a, e) fit =
      let (new, run, changes, at) = write_two_lem vs index (put_long a) fit in
      ((new, h), rw (e, run) refl, Follows-same n h can, changes, (a, e, at))
  write_constant_lem n (object name) c index vs h can (named, (us, chars, e)) fit =
      let ((id, h'), interned, later, string) = intern_encoded n h us chars can in
      let (new, run, changes, at) = write_field_lem vs index id (omega (arith, fit)) in
      (
        (new, h'),
        rw (named, same_refl (codes "java/lang/String"), e, interned, run) refl,
        later,
        changes,
        (us, e, (id, string, at)),
      )
  write_constant_lem n (array t) c index vs h can fits fit = absurd fits
  write_constant_lem n _ c index vs h can (a, e) fit =
      let (new, run, changes, at) = write_field_lem vs index a (omega (arith, fit)) in
      ((new, h), rw (e, run) refl, Follows-same n h can, changes, (a, e, at))

  -- The words of a value are kept.
  pub HasValue-kept :
      (n : ℕ) (t : FieldType) (c : Const) (i : ℕ) (old new : List Variable) (s s' : Strings C)
      → Follows n s s'
      → ((j : ℕ) → j < i + (if is_long t then 2 else 1) → get_elem? new j ≡ get_elem? old j)
      → HasValue t c i old s
      → HasValue t c i new s'
  unfolding is_long
  HasValue-kept n double c i old new s s' later same (a, e, (at, at')) =
      (a, e, (same i (omega arith) ∙ at, same (i + 1) (omega arith) ∙ at'))
  HasValue-kept n float c i old new s s' later same (a, e, at) = (a, e, same i (omega arith) ∙ at)
  HasValue-kept n long c i old new s s' later same (a, e, (at, at')) =
      (a, e, (same i (omega arith) ∙ at, same (i + 1) (omega arith) ∙ at'))
  HasValue-kept n (object name) c i old new s s' later same (us, e, (id, string, at)) =
      (us, e, (id, IsString-kept n s s' us id later string, same i (omega arith) ∙ at))
  HasValue-kept n (array t) c i old new s s' later same value = absurd value
  HasValue-kept n _ c i old new s s' later same (a, e, at) = (a, e, same i (omega arith) ∙ at)
