-- ===== src/ClassLoader/Lookup.antt =====
-- How a field is found that hides one of the superclass: from its own class,
-- src/runtime/class_loader/bootstrap.rs, and from another, src/runtime/class_loader.rs.
use rust_jvm.Prelude.{
  Bytes, ℕ, zero, suc, ◌+◌, ◌≤◌, ◌<◌, ◌≡◌, ◌↔◌, refl, ◌∙◌, arith, true, some, List, [], ◌∷◌, ◌++◌,
  get_elem?, if◌then◌else◌, Bool-cases, Option-cases, inl, inr,
}
use mathlib.Core.Bool.{and-eq-true_iff}
use rust_jvm.Prelude.Equality.{same, nat_eq, list_eq, list_same_iff}
use rust_jvm.Inheritance.{same_type}
use rust_jvm.Inheritance.Types.{same_type_iff}
use rust_jvm.Descriptor.{FieldType, is_long}
use rust_jvm.ClassLoader.{
  FieldInfo, next_index, assign_indices, layout, has_key, replaces, in_field_map,
  resolve_in_this_class, resolve_instance_field,
}
use rust_jvm.ClassLoader.Layout.{IsLaidOut, next_index_total, field_bounds}

module _ (name : Bytes) (descriptor : FieldType) where
  -- The field has the name and the descriptor.
  abbrev pub IsNamed : FieldInfo → Type 0
  IsNamed f = (f.name ≡ name) × (f.descriptor ≡ descriptor)

  -- A field of the list has the name and the descriptor.
  abbrev pub Has : List FieldInfo → Type 0
  Has fs = (i : ℕ) × (f : FieldInfo) × (get_elem? fs i ≡ some f) × IsNamed f

  -- It is the index of such a field.
  abbrev pub IsIndexIn : List FieldInfo → ℕ → Type 0
  IsIndexIn fs a = (i : ℕ) × (f : FieldInfo) × (get_elem? fs i ≡ some f) × IsNamed f × (f.index ≡ a)

  has_key-IsNamed : (f : FieldInfo) → (has_key name descriptor f ≡ true) ↔ IsNamed f
  unfolding has_key
  has_key-IsNamed f = (
    λ h.
        let (n, d) = (and-eq-true_iff (same f.name name) (same_type f.descriptor descriptor)).0 h in
        ((list_same_iff f.name name).0 n, (same_type_iff f.descriptor descriptor).0 d),
    λ h.
        (and-eq-true_iff (same f.name name) (same_type f.descriptor descriptor)).1
          ((list_same_iff f.name name).1 h.0, (same_type_iff f.descriptor descriptor).1 h.1),
  )

  in_field_map_sound :
      (fs : List FieldInfo) (a : ℕ) → in_field_map name descriptor fs ≡ some a → IsIndexIn fs a
  unfolding in_field_map replaces
  in_field_map_sound [] a h = absurd (cc h)
  in_field_map_sound (x ∷ fs) a h = elim (Option-cases (in_field_map name descriptor fs)) [
    | inl none_later ↦ elim (Bool-cases (has_key name descriptor x)) [
      | inl e ↦
          (let here : x.index ≡ a = cc (rw (none_later, e) at h) in
            (0, x, refl, (has_key-IsNamed x).0 e, here))
      | inr e ↦ absurd (cc (rw (none_later, e) at h))
    ]
    | inr (c, later) ↦
        (let both : c ≡ a = cc (rw later at h) in
          let (i, f, at, named, index) = in_field_map_sound fs c later in
          (suc i, f, at, named, index ∙ both))
  ]

  first_found :
      (fs gs : List FieldInfo)
      → Has fs
      → (i : ℕ) × (f : FieldInfo) × (get_elem? fs i ≡ some f)
        × IsNamed f
        × (resolve_instance_field name descriptor (fs ++ gs) ≡ some f.index)
  unfolding resolve_instance_field
  first_found [] gs (i, f, at, key) = absurd (cc at)
  first_found (x ∷ fs) gs (zero, f, at, key) =
      let same : x ≡ f = cc at in
      let named : IsNamed x = rw (← same) at key in
      (0, x, refl, named, rw ((has_key-IsNamed x).1 named))
  first_found (x ∷ fs) gs (suc i, f, at, key) =
      let (j, g, at', named, found) = first_found fs gs (i, f, at, key) in
      elim (Bool-cases (has_key name descriptor x)) [
        | inl e ↦ (0, x, refl, (has_key-IsNamed x).0 e, rw e)
        | inr e ↦ (suc j, g, at', named, rw (e, found))
      ]

  in_field_map-append :
      (fs gs : List FieldInfo) (a : ℕ)
      → in_field_map name descriptor gs ≡ some a
      → in_field_map name descriptor (fs ++ gs) ≡ some a
  unfolding in_field_map replaces
  in_field_map-append [] gs a h = h
  in_field_map-append (x ∷ fs) gs a h = rw (in_field_map-append fs gs a h)

  in_field_map-ge :
      (n : ℕ) (fs : List FieldInfo) (b : ℕ)
      → in_field_map name descriptor (assign_indices n fs) ≡ some b
      → n ≤ b
  unfolding in_field_map replaces assign_indices has_key
  in_field_map-ge n [] b h = absurd (cc h)
  in_field_map-ge n (x ∷ fs) b h =
      let next = if is_long x.descriptor then n + 2 else n + 1 in
      let next_ge : n ≤ next = ground arith in
      elim (Option-cases (in_field_map name descriptor (assign_indices next fs))) [
        | inl none_later ↦ elim (Bool-cases (has_key name descriptor x)) [
          | inl own ↦
              (let same_index : n ≡ b = cc (rw (none_later, own) at h) in omega (arith, same_index))
          | inr other ↦ absurd (cc (rw (none_later, other) at h))
        ]
        | inr (c, later) ↦
            (let same_index : c ≡ b = cc (rw later at h) in
              omega (arith, same_index, next_ge, in_field_map-ge next fs c later))
      ]

  -- A field that has been given its index is found at or behind the first index.
  own_found :
      (n : ℕ) (fs : List FieldInfo)
      → Has fs
      → (a : ℕ) × (in_field_map name descriptor (assign_indices n fs) ≡ some a) × (n ≤ a)
  unfolding in_field_map replaces assign_indices has_key
  own_found n [] (i, f, at, key) = absurd (cc at)
  own_found n (x ∷ fs) (zero, f, at, key) =
      let same_field : x ≡ f = cc at in
      let named : IsNamed x = rw (← same_field) at key in
      let own : has_key name descriptor x ≡ true = (has_key-IsNamed x).1 named in
      elim (Option-cases (
        in_field_map name descriptor
          (assign_indices (if is_long x.descriptor then n + 2 else n + 1) fs))) [
            | inl none_later ↦ (n, rw (none_later, own), omega arith)
            | inr (b, later) ↦ (
              b,
              rw later,
              ground (
                arith,
                in_field_map-ge (if is_long x.descriptor then n + 2 else n + 1) fs b later,
              ),
            )
          ]
  own_found n (x ∷ fs) (suc i, f, at, key) =
      let (a, found, le) =
        own_found (if is_long x.descriptor then n + 2 else n + 1) fs (i, f, at, key) in
      (a, rw found, ground (arith, le))

  -- Where the class and its superclass have a field of one name and descriptor, a reference from the
  -- class itself leads to the index of its own field and one from another class to the index of the
  -- superclass's field, which is below all fields of the class itself.
  pub hidden_field :
      (super own : List FieldInfo)
      → IsLaidOut 0 super
      → Has super
      → Has own
      → (a : ℕ) × (b : ℕ) × (resolve_in_this_class name descriptor super own ≡ some a)
        × (resolve_instance_field name descriptor (layout super own) ≡ some b)
        × IsIndexIn (assign_indices (next_index super) own) a
        × IsIndexIn super b
        × (b < next_index super)
        × (next_index super ≤ a)
  unfolding resolve_in_this_class layout
  hidden_field super own laid in_super in_own =
      let (a, found, le) = own_found (next_index super) own in_own in
      let (i, f, at, named, first) =
        first_found super (assign_indices (next_index super) own) in_super in
      let (low, high) = field_bounds 0 i f super laid at in
      (
        a,
        f.index,
        in_field_map-append super (assign_indices (next_index super) own) a found,
        first,
        in_field_map_sound (assign_indices (next_index super) own) a found,
        (i, f, at, named, refl),
        ground (arith, high, next_index_total super laid),
        le,
      )
