-- ===== src/ClassLoader/Methods/Fields.antt =====
-- `resolve_static_field` of src/runtime/class_loader.rs searches a class, its interfaces and its superclass.
use rust_jvm.Prelude.{
  ℕ, zero, suc, ◌<◌, ◌≡◌, inl, inr, refl, sym, ◌∙◌, arith, false, Option, none, some, List, [], ◌∷◌,
  get_elem?, get_elem?-lt, All, Option-cases,
}
use rust_jvm.Prelude.Outcome.{Outcome, ok}
use rust_jvm.Constants.{Fieldref}
use rust_jvm.ClassLoader.{FieldInfo}
use rust_jvm.ClassLoader.Vtable.{ClassRef, Class}
use rust_jvm.ClassLoader.Vtable.Entries.{found_at}
use rust_jvm.ClassLoader.Vtable.Inherits.{IsLinked}
use rust_jvm.ClassLoader.Methods.{
  FieldResolve, find_from, or_later, in_super, in_interfaces, is_field, field_found,
  resolve_static_field,
}
use rust_jvm.ClassLoader.Methods.Resolve.{IsFirst, HasNone, find_from-some, find_from-none}

module _ (classes : List Class) (field_ref : Fieldref) where
  -- The class `d` is `c`, or above it by superclasses and interfaces.
  pub data Reaches (d : ClassRef) : ClassRef → Type 0 where
    itself : Reaches d d
    by_super :
        (c s : ClassRef) (class : Class)
        → get_elem? classes c ≡ some class
        → class.super_class ≡ some s
        → Reaches d s
        → Reaches d c
    by_interface :
        (c i : ClassRef) (j : ℕ) (class : Class)
        → get_elem? classes c ≡ some class
        → get_elem? class.interfaces j ≡ some i
        → Reaches d i
        → Reaches d c

  -- What the search from the class `c` has found.
  abbrev pub FindsField : ClassRef → Option FieldResolve → Type 0
  FindsField c none =
      (d : ClassRef) (class : Class)
      → Reaches d c
      → get_elem? classes d ≡ some class
      → HasNone (is_field field_ref) class.static_fields_info
  FindsField c (some (d, index)) =
      Reaches d c
      × ((class : Class) × (get_elem? classes d ≡ some class)
          × ((o : ℕ) × (f : FieldInfo) × IsFirst (is_field field_ref) class.static_fields_info o f
              × (f.index ≡ index)))

  -- What the search in the interfaces `is` has found.
  abbrev FindsIn : List ClassRef → Option FieldResolve → Type 0
  FindsIn is none = (j : ℕ) (i : ClassRef) → get_elem? is j ≡ some i → FindsField i none
  FindsIn is (some x) = (j : ℕ) × (i : ClassRef) × (get_elem? is j ≡ some i) × FindsField i (some x)

  abbrev Returns : (ClassRef → Outcome (Option FieldResolve)) → ClassRef → Type 0
  Returns search c = (r : Option FieldResolve) × (search c ≡ ok r) × FindsField c r

  none_more :
      (i : ClassRef) (is : List ClassRef)
      → FindsField i none
      → FindsIn is none
      → (j : ℕ) (k : ClassRef) → get_elem? (i ∷ is) j ≡ some k
      → FindsField k none
  none_more i is missing later zero k at = let same : i ≡ k = cc at in rw (← same) missing
  none_more i is missing later (suc j) k at = later j k at

  shift :
      (i : ClassRef) (is : List ClassRef) (r : Option FieldResolve)
      → FindsField i none
      → FindsIn is r
      → FindsIn (i ∷ is) r
  shift i is none missing later = none_more i is missing later
  shift i is (some x) missing (j, k, at, found) = (suc j, k, at, found)

  in_interfaces_lem :
      (search : ClassRef → Outcome (Option FieldResolve)) (is : List ClassRef)
      → All (Returns search) is
      → (r : Option FieldResolve) × (in_interfaces search is ≡ ok r) × FindsIn is r
  unfolding in_interfaces or_later
  in_interfaces_lem search [] h = (none, refl, λ j i at. absurd (cc at))
  in_interfaces_lem search (i ∷ is) ((some x, run, found), h) =
      (some x, rw run refl, (0, i, refl, found))
  in_interfaces_lem search (i ∷ is) ((none, run, missing), h) =
      let (r, rest, later) = in_interfaces_lem search is h in
      (r, rw run rest, shift i is r missing later)

  same_class :
      (c : ClassRef) (a b : Class)
      → get_elem? classes c ≡ some a
      → get_elem? classes c ≡ some b
      → a ≡ b
  same_class c a b at there =
      let both : ◌≡◌ {A = Option Class} (some a) (some b) = sym at ∙ there in cc both

  -- A class without the field, given what its interfaces and its superclass have.
  missing_above :
      (c : ClassRef) (class : Class)
      → get_elem? classes c ≡ some class
      → HasNone (is_field field_ref) class.static_fields_info
      → FindsIn class.interfaces none
      → ((s : ClassRef) → class.super_class ≡ some s → FindsField s none)
      → FindsField c none
  missing_above c class at lacks others above _ owner itself there =
      let same = same_class c class owner at there in rw same at lacks
  missing_above c class at lacks others above d owner (by_super _ s own at_c super rest) there =
      let same = same_class c own class at_c at in above s (rw same at super) d owner rest there
  missing_above c class at lacks others above d owner (by_interface _ i j own at_c place rest)
        there =
      let same = same_class c own class at_c at in others j i (rw same at place) d owner rest there

  all_interfaces :
      (fuel c : ℕ) (is : List ClassRef)
      → All (λ i. i < c) is
      → ((i : ClassRef) → i < c → Returns (resolve_static_field classes fuel field_ref false) i)
      → All (Returns (resolve_static_field classes fuel field_ref false)) is
  all_interfaces fuel c [] h search = tt
  all_interfaces fuel c (i ∷ is) (lt, h) search = (search i lt, all_interfaces fuel c is h search)

  -- What the search in the class itself, then in its interfaces, then in the superclass has found.
  in_class_lem :
      (fuel : ℕ) (c : ClassRef) (class : Class) (q : Option FieldResolve)
      → get_elem? classes c ≡ some class
      → HasNone (is_field field_ref) class.static_fields_info
      → FindsIn class.interfaces q
      → ((s : ClassRef)
          → class.super_class ≡ some s
          → Returns (resolve_static_field classes fuel field_ref false) s)
      → (r : Option FieldResolve) × (or_later q
            (in_super (resolve_static_field classes fuel field_ref false) class.super_class)
          ≡ ok r)
        × FindsField c r
  unfolding or_later in_super
  in_class_lem fuel c class (some (d, index)) at lacks (j, i, place, (reached, owner)) above =
      (some (d, index), refl, (by_interface c i j class at place reached, owner))
  in_class_lem fuel c class none at lacks others above = elim (Option-cases class.super_class) [
    | inl top ↦ (
      none,
      rw top refl,
      missing_above c class at lacks others (λ s super.
          let wrong : ◌≡◌ {A = Option ClassRef} none (some s) = sym top ∙ super in
          absurd (cc wrong)),
    )
    | inr (s, super) ↦
        let (r, run, found) = above s super in
        (r, rw super run, lift_super r c s class at lacks others super found)
  ]
    where
      lift_super :
          (r : Option FieldResolve) (c s : ClassRef) (class : Class)
          → get_elem? classes c ≡ some class
          → HasNone (is_field field_ref) class.static_fields_info
          → FindsIn class.interfaces none
          → class.super_class ≡ some s
          → FindsField s r
          → FindsField c r
      lift_super none c s class at lacks others super found =
          missing_above c class at lacks others (λ t other.
            let both : ◌≡◌ {A = Option ClassRef} (some s) (some t) = sym super ∙ other in
            let same : s ≡ t = cc both in rw (← same) found)
      lift_super (some (d, index)) c s class at lacks others super (reached, owner) =
          (by_super c s class at super reached, owner)

  -- Where all classes are linked, the search for a static field from a defined class returns, with more fuel
  -- than the place of the class. What it finds is the index of the first field with the name and the type
  -- of the reference in a class that is this one or above it by superclasses and interfaces, and it finds
  -- nothing only if none of these has such a field.
  pub resolve_static_field_lem :
      (fuel : ℕ) (c : ClassRef) (class : Class)
      → IsLinked classes
      → get_elem? classes c ≡ some class
      → c < fuel
      → (r : Option FieldResolve) × (resolve_static_field classes fuel field_ref false c ≡ ok r)
        × FindsField c r
  unfolding resolve_static_field field_found or_later
  resolve_static_field_lem zero c class linked at lt = absurd (omega arith)
  resolve_static_field_lem (suc fuel) c class linked at lt =
      let known = linked c class at in
      let again : (i : ClassRef)
          → i < c
          → Returns (resolve_static_field classes fuel field_ref false) i =
        λ i before.
          let (d, there) =
            found_at classes i (omega (arith, before, get_elem?-lt classes c class at)) in
          resolve_static_field_lem fuel i d linked there (omega (arith, before, lt)) in
      elim (Option-cases (find_from (is_field field_ref) 0 class.static_fields_info)) [
        | inr ((j, f), found) ↦
            let (o, _, first) =
              find_from-some (is_field field_ref) 0 class.static_fields_info j f found in
            (some (c, f.index), rw (at, found) refl, (itself, (class, at, (o, f, first, refl))))
        | inl absent ↦
            let lacks = find_from-none (is_field field_ref) 0 class.static_fields_info absent in
            let (q, run, others) =
              in_interfaces_lem (resolve_static_field classes fuel field_ref false) class.interfaces
                (all_interfaces fuel c class.interfaces known.interfaces again) in
            let (r, rest, finds) =
              in_class_lem fuel c class q at lacks others
                (λ s super. again s (known.super_class s super).0) in
            (r, rw (at, absent, run) rest, finds)
      ]
