-- ===== src/Inheritance/Assign.antt =====
-- What src/runtime/inheritance.rs says of assignments: from classes, and between arrays.
use rust_jvm.Prelude.{
  ◌≡◌, refl, sym, ◌∙◌, ap, ◌↔◌, ◌⊎◌, inl, inr, Bool, true, false, none, some, ◌||◌, if◌then◌else◌,
  Bool-cases,
}
use mathlib.Core.Bool.{true≢false}
use rust_jvm.Prelude.Outcome.{Outcome, ok}
use rust_jvm.Prelude.Equality.{same, nat_eq, list_eq, list_same_iff}
use rust_jvm.Prelude.Texts.{codes}
use rust_jvm.Inheritance.Types.{same_type_iff}
use rust_jvm.Descriptor.{FieldType, array, to_descriptor, is_primitive}
use rust_jvm.Descriptor.Nom.{Nom}
use rust_jvm.Descriptor.RoundTrip.{NamesFit, parse_field_descriptor-to_descriptor}
use rust_jvm.Inheritance.{
  Class, declare, MaybeClass, no_class, one_class, array_element_type, class_name, array_is_a,
  is_interface, is_array, element_of, get_array_type, is_same_or_sub_class_of, is_class_implements,
  array_assignable, assignable, is_assignable_to, elements_assignable, same_type,
}
use rust_jvm.Inheritance.Relations.{
  Extends, Implements, is_same_or_sub_class_of_iff, is_class_implements_iff,
}

module _ (nom : Nom) where
  class_assignable :
      (source target : Class)
      → is_array source ≡ false
      → is_assignable_to nom source target
        ≡ ok (
            if is_interface target
            then is_class_implements source target
            else is_same_or_sub_class_of source target)
  unfolding is_assignable_to get_array_type assignable
  class_assignable (declare n i s is e) target h = rw h

  -- A class that is no array is assignable to an interface exactly where it or a superclass names
  -- it directly, and to another class exactly where it or a superclass has its name.
  pub class_assignable_iff :
      (source target : Class)
      → is_array source ≡ false
      → (is_assignable_to nom source target ≡ ok true) ↔ (
          ((is_interface target ≡ true) × Implements source target)
          ⊎ ((is_interface target ≡ false) × Extends source target))
  class_assignable_iff source target h =
      let whole = class_assignable source target h in
      let imp = is_class_implements_iff source target in
      let ext = is_same_or_sub_class_of_iff source target in
      elim (Bool-cases (is_interface target)) [
        | inl e ↦ (
          λ p. inl (e, imp.0 (cc (p, rw e at whole))),
          λ q. elim q [
            | inl (e', x) ↦ cc (rw e at whole, imp.1 x)
            | inr (e', x) ↦ absurd (cc (e, e'))
          ],
        )
        | inr e ↦ (
          λ p. inr (e, ext.0 (cc (p, rw e at whole))),
          λ q. elim q [
            | inl (e', x) ↦ absurd (cc (e, e'))
            | inr (e', x) ↦ cc (rw e at whole, ext.1 x)
          ],
        )
      ]

  -- An interface is assignable to itself only where it or a superclass names it as one of its
  -- own interfaces.
  interface_itself :
      (c : Class)
      → is_array c ≡ false
      → is_interface c ≡ true
      → (is_assignable_to nom c c ≡ ok true) ↔ Implements c c
  interface_itself c h e =
      let both = class_assignable_iff c c h in
      (
        λ p. elim (both.0 p) [ inl (e', x) ↦ x | inr (e', x) ↦ absurd (cc (e, e')) ],
        λ x. both.1 (inl (e, x)),
      )

  -- The class of arrays of the type `t`.
  abbrev pub ArrayOf : Class → FieldType → Type 0
  ArrayOf c t = NamesFit t × (class_name c ≡ to_descriptor (array t))

  -- The interfaces java/lang/Cloneable and java/io/Serializable, and the class java/lang/Object.
  abbrev pub HasArrays : Class → Type 0
  HasArrays c =
      ((is_interface c ≡ true)
        × ((class_name c ≡ codes "java/lang/Cloneable")
            ⊎ (class_name c ≡ codes "java/io/Serializable")))
      ⊎ ((is_interface c ≡ false) × (class_name c ≡ codes "java/lang/Object"))

  -- The element classes that are there, of which the first is assignable to the second.
  abbrev pub ElementsAssign : MaybeClass → MaybeClass → Type 0
  ElementsAssign e f =
      (a : Class) × (b : Class) × (e ≡ one_class a)
      × (f ≡ one_class b)
      × (is_assignable_to nom a b ≡ ok true)

  -- What an array of the type `t` is assignable to, where its element class, if it has one, is `e`.
  abbrev pub ArrayAssigns : FieldType → MaybeClass → Class → Type 0
  ArrayAssigns t e target =
      ((is_array target ≡ false) × HasArrays target)
      ⊎ ((v : FieldType) × ArrayOf target v
          × ((((is_primitive t ≡ true) ⊎ (is_primitive v ≡ true)) × (t ≡ v))
              ⊎ ((is_primitive t ≡ false)
                  × (is_primitive v ≡ false)
                  × ElementsAssign e (array_element_type target))))

  get_array_type-array :
      (c : Class) (t : FieldType) → ArrayOf c t → get_array_type nom c ≡ ok (some t)
  unfolding get_array_type is_array element_of to_descriptor
  get_array_type-array (declare n i s is e) t (fits, eq) =
      rw (eq, parse_field_descriptor-to_descriptor nom (array t) fits)

  get_array_type-plain :
      (target : Class) → is_array target ≡ false → get_array_type nom target ≡ ok none
  unfolding get_array_type
  get_array_type-plain target plain = rw plain

  elements_assignable_iff :
      (e f : MaybeClass) → (elements_assignable nom e f ≡ ok true) ↔ ElementsAssign e f
  unfolding elements_assignable
  elements_assignable_iff no_class f = (λ h. cc h, λ h. let (a, b, x, y, z) = h in absurd (cc x))
  elements_assignable_iff (one_class a) no_class =
      (λ h. cc h, λ h. let (a, b, x, y, z) = h in absurd (cc y))
  elements_assignable_iff (one_class a) (one_class b) = (
    λ h. (a, b, refl, refl, h),
    λ h. let (a', b', x, y, z) = h in let p : a ≡ a' = cc x in let q : b ≡ b' = cc y in rw (p, q) z,
  )

  or_true : (a b : Bool) → (a ≡ true) ⊎ (b ≡ true) → (a || b) ≡ true
  or_true true b h = refl
  or_true false true h = refl
  or_true false false (inl e) = e
  or_true false false (inr e) = e

  true_or : (a b : Bool) → (a || b) ≡ true → (a ≡ true) ⊎ (b ≡ true)
  true_or true b h = inl refl
  true_or false b h = inr h

  array_is_a_iff : (target : Class) → (array_is_a nom target ≡ true) ↔ HasArrays target
  unfolding array_is_a
  array_is_a_iff target =
      let n = class_name target in
      let cloneable = codes "java/lang/Cloneable" in
      let serializable = codes "java/io/Serializable" in
      elim (Bool-cases (is_interface target)) [
        | inl e ↦ (
          λ h. inl (
            e,
            elim (true_or (same n cloneable) (same n serializable) (rw e at h)) [
              | inl x ↦ inl ((list_same_iff n cloneable).0 x)
              | inr x ↦ inr ((list_same_iff n serializable).0 x)
            ],
          ),
          λ h. rw e (
              or_true (same n cloneable) (same n serializable) (elim h [
                | inl (_, inl x) ↦ inl ((list_same_iff n cloneable).1 x)
                | inl (_, inr x) ↦ inr ((list_same_iff n serializable).1 x)
                | inr (e', x) ↦ absurd (true≢false (sym e ∙ e'))
              ])),
        )
        | inr e ↦ (
          λ h. inr (e, (list_same_iff n (codes "java/lang/Object")).0 (rw e at h)),
          λ h. rw e (elim h [
            | inl (e', x) ↦ absurd (true≢false (sym e' ∙ e))
            | inr (_, x) ↦ (list_same_iff n (codes "java/lang/Object")).1 x
          ]),
        )
      ]

  ok_true : (a : Bool) → (◌≡◌ {A = Outcome Bool} (ok a) (ok true)) ↔ (a ≡ true)
  ok_true a = (λ h. cc h, λ h. ap ok h)

  array_to_plain :
      (source target : Class) (t : FieldType)
      → ArrayOf source t
      → is_array target ≡ false
      → (is_assignable_to nom source target ≡ ok true) ↔ HasArrays target
  unfolding is_assignable_to assignable array_assignable
  array_to_plain (declare n i s is e) target t of plain =
      rw (get_array_type-array (declare n i s is e) t of, get_array_type-plain target plain)
        (
          λ h. (array_is_a_iff target).0 ((ok_true (array_is_a nom target)).0 h),
          λ h. (ok_true (array_is_a nom target)).1 ((array_is_a_iff target).1 h),
        )

  array_to_array :
      (source target : Class) (t v : FieldType)
      → ArrayOf source t
      → ArrayOf target v
      → is_assignable_to nom source target ≡ (
          if is_primitive t || is_primitive v
          then ok (same_type t v)
          else elements_assignable nom (array_element_type source) (array_element_type target))
  unfolding is_assignable_to assignable array_assignable
  array_to_array (declare n i s is e) target t v of ov =
      rw (get_array_type-array (declare n i s is e) t of, get_array_type-array target v ov) refl

  -- The class of arrays of a type, of which the name is the descriptor of that type of arrays, is
  -- assignable to a class that is no array exactly where this is the
  -- interface java/lang/Cloneable or java/io/Serializable, or the class java/lang/Object; and to the class
  -- of arrays of a type exactly where the two element types are the same, if one of them is primitive, and
  -- where the one element class is assignable to the other, if both are references.
  pub array_assignable_lem :
      (source target : Class) (t : FieldType)
      → ArrayOf source t
      → (is_array target ≡ false) ⊎ ((v : FieldType) × ArrayOf target v)
      → (is_assignable_to nom source target ≡ ok true)
        ↔ ArrayAssigns t (array_element_type source) target
  array_assignable_lem source target t of named = (
    λ h. elim named [
      | inl plain ↦ inl (plain, (array_to_plain source target t of plain).0 h)
      | inr (v, ov) ↦ inr (
        v,
        ov,
        (let h' = sym (array_to_array source target t v of ov) ∙ h in
            elim (Bool-cases (is_primitive t)) [
              | inl p ↦
                  inl (inl p, (same_type_iff t v).0 ((ok_true (same_type t v)).0 (rw p at h')))
              | inr p ↦ elim (Bool-cases (is_primitive v)) [
                | inl q ↦
                    inl
                      (inr q, (same_type_iff t v).0 ((ok_true (same_type t v)).0 (rw (p, q) at h')))
                | inr q ↦ inr (
                  p,
                  q,
                  (elements_assignable_iff (array_element_type source)
                        (array_element_type target)).0
                      (rw (p, q) at h'),
                )
              ]
            ]),
      )
    ],
    λ h. elim h [
      | inl (plain, x) ↦ (array_to_plain source target t of plain).1 x
      | inr (v, ov, inl (one, same)) ↦
          array_to_array source target t v of ov
          ∙ rw (or_true (is_primitive t) (is_primitive v) one)
              ((ok_true (same_type t v)).1 ((same_type_iff t v).1 same))
      | inr (v, ov, inr (p, q, x)) ↦
          array_to_array source target t v of ov
          ∙ rw (p, q)
              ((elements_assignable_iff (array_element_type source) (array_element_type target)).1
                x)
    ],
  )
