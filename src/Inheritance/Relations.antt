-- ===== src/Inheritance/Relations.antt =====
-- The tests of src/runtime/inheritance.rs against the relations that they decide.
use rust_jvm.Prelude.{ℕ, ◌≡◌, ◌↔◌, inl, inr, Bool, true, List, Bool-cases}
use rust_jvm.Prelude.Equality.{same, same_refl, same→eq, nat_eq, list_eq}
use rust_jvm.Inheritance.{
  Class, declare, MaybeClass, no_class, one_class, Classes, no_classes, and_class, class_name,
  is_same_or_sub_class_of, super_is_same_or_sub_class_of, has_interface, is_class_implements,
  super_implements,
}

-- A class and those that its `super_class` leads to.
pub data Ancestor : Class → Class → Type 0 where
  itself : (c : Class) → Ancestor c c
  of_super :
      {n : List ℕ} {i : Bool} (s : Class) {is : Classes} {e : MaybeClass} (c : Class)
      → Ancestor s c
      → Ancestor (declare n i (one_class s) is e) c

pub data Member : Class → Classes → Type 0 where
  here : (c : Class) (cs : Classes) → Member c (and_class c cs)
  there : (c d : Class) (cs : Classes) → Member c cs → Member c (and_class d cs)

abbrev pub interfaces : Class → Classes
interfaces (declare n i s is e) = is

-- A superclass, or the class, has the name of the target.
abbrev pub Extends : Class → Class → Type 0
Extends source target = (c : Class) × Ancestor source c × (class_name c ≡ class_name target)

abbrev SuperExtends : MaybeClass → Class → Type 0
SuperExtends no_class target = ⊥
SuperExtends (one_class c) target = Extends c target

lift-Extends :
    (n : List ℕ) (i : Bool) (s : MaybeClass) (is : Classes) (e : MaybeClass) (target : Class)
    → SuperExtends s target
    → Extends (declare n i s is e) target
lift-Extends n i no_class is e target x = absurd x
lift-Extends n i (one_class s) is e target (c, a, eq) = (c, of_super s c a, eq)

mutual
  unfolding is_same_or_sub_class_of

  sub-Extends :
      (source target : Class) → is_same_or_sub_class_of source target ≡ true → Extends source target
  sub-Extends (declare n i s is e) target h = elim (Bool-cases (same n (class_name target))) [
    | inl eq ↦ (declare n i s is e, itself _, same→eq n (class_name target) eq)
    | inr ne ↦ lift-Extends n i s is e target (super-Extends s target (rw ne at h))
  ]

  super-Extends :
      (s : MaybeClass) (target : Class)
      → super_is_same_or_sub_class_of s target ≡ true
      → SuperExtends s target
  super-Extends no_class target h = absurd (cc h)
  super-Extends (one_class c) target h = sub-Extends c target h

Extends-sub :
    (source c target : Class)
    → Ancestor source c
    → class_name c ≡ class_name target
    → is_same_or_sub_class_of source target ≡ true
unfolding is_same_or_sub_class_of
Extends-sub _ _ target (itself (declare n i s is e)) eq = rw (eq, same_refl (class_name target))
Extends-sub _ _ target (of_super {n} {i} s {is} {e} c a) eq =
    let rest = Extends-sub s c target a eq in
    elim (Bool-cases (same n (class_name target))) [ inl e ↦ rw e | inr e ↦ rw (e, rest) ]

-- The subclass test is true exactly where the class or one of its superclasses has the name of the
-- target.
pub is_same_or_sub_class_of_iff :
    (source target : Class) → (is_same_or_sub_class_of source target ≡ true) ↔ Extends source target
is_same_or_sub_class_of_iff source target =
    (sub-Extends source target, λ (c, a, eq). Extends-sub source c target a eq)

Ancestor-trans : (a b c : Class) → Ancestor a b → Ancestor b c → Ancestor a c
Ancestor-trans _ _ c (itself b) q = q
Ancestor-trans _ _ c (of_super s b p) q = of_super s c (Ancestor-trans s b c p q)

-- The subclass test is transitive where the name of the class in the middle names no other class
-- above the first.
is_same_or_sub_class_of_trans :
    (a b c : Class)
    → ((x : Class) → Ancestor a x → class_name x ≡ class_name b → x ≡ b)
    → is_same_or_sub_class_of a b ≡ true
    → is_same_or_sub_class_of b c ≡ true
    → is_same_or_sub_class_of a c ≡ true
is_same_or_sub_class_of_trans a b c unique p q =
    let (x, ax, ex) = sub-Extends a b p in
    let (y, by, ey) = sub-Extends b c q in
    let same_class : x ≡ b = unique x ax ex in
    Extends-sub a y c (Ancestor-trans a b y (rw same_class at ax) by) ey

-- One of the interfaces has the name.
abbrev pub HasNamed : Classes → Class → Type 0
HasNamed is interface = (d : Class) × Member d is × (class_name d ≡ class_name interface)

has_interface-HasNamed :
    (is : Classes) (interface : Class) → has_interface is interface ≡ true → HasNamed is interface
unfolding has_interface
has_interface-HasNamed no_classes interface h = absurd (cc h)
has_interface-HasNamed (and_class c cs) interface h =
    elim (Bool-cases (same (class_name c) (class_name interface))) [
      | inl e ↦ (c, here c cs, same→eq _ _ e)
      | inr e ↦
          (let (d, m, eq) = has_interface-HasNamed cs interface (rw e at h) in
            (d, there d c cs m, eq))
    ]

HasNamed-has_interface :
    (d : Class) (is : Classes) (interface : Class)
    → Member d is
    → class_name d ≡ class_name interface
    → has_interface is interface ≡ true
unfolding has_interface
HasNamed-has_interface _ _ interface (here c cs) eq = rw (eq, same_refl (class_name interface))
HasNamed-has_interface _ _ interface (there d c cs m) eq =
    let rest = HasNamed-has_interface d cs interface m eq in
    elim (Bool-cases (same (class_name c) (class_name interface))) [
      | inl e ↦ rw e
      | inr e ↦ rw (e, rest)
    ]

-- The class or one of its superclasses names the interface among its own ones.
abbrev pub Implements : Class → Class → Type 0
Implements class interface = (c : Class) × Ancestor class c × HasNamed (interfaces c) interface

abbrev SuperImplements : MaybeClass → Class → Type 0
SuperImplements no_class interface = ⊥
SuperImplements (one_class c) interface = Implements c interface

lift-Implements :
    (n : List ℕ) (i : Bool) (s : MaybeClass) (is : Classes) (e : MaybeClass) (interface : Class)
    → SuperImplements s interface
    → Implements (declare n i s is e) interface
lift-Implements n i no_class is e interface x = absurd x
lift-Implements n i (one_class s) is e interface (c, a, h) = (c, of_super s c a, h)

mutual
  unfolding is_class_implements

  class-Implements :
      (class interface : Class)
      → is_class_implements class interface ≡ true
      → Implements class interface
  class-Implements (declare n i s is e) interface h =
      elim (Bool-cases (has_interface is interface)) [
        | inl own ↦ (declare n i s is e, itself _, has_interface-HasNamed is interface own)
        | inr none_own ↦
            lift-Implements n i s is e interface (super-Implements s interface (rw none_own at h))
      ]

  super-Implements :
      (s : MaybeClass) (interface : Class)
      → super_implements s interface ≡ true
      → SuperImplements s interface
  super-Implements no_class interface h = absurd (cc h)
  super-Implements (one_class c) interface h = class-Implements c interface h

Implements-class :
    (class c interface : Class)
    → Ancestor class c
    → HasNamed (interfaces c) interface
    → is_class_implements class interface ≡ true
unfolding is_class_implements
Implements-class _ _ interface (itself (declare n i s is e)) (d, m, eq) =
    rw (HasNamed-has_interface d is interface m eq)
Implements-class _ _ interface (of_super {n} {i} s {is} {e} c a) named =
    let rest = Implements-class s c interface a named in
    elim (Bool-cases (has_interface is interface)) [
      | inl own ↦ rw own
      | inr none_own ↦ rw (none_own, rest)
    ]

-- The interface test is true exactly where the class or one of its superclasses names the interface
-- directly; what its interfaces extend is not looked at.
pub is_class_implements_iff :
    (class interface : Class)
    → (is_class_implements class interface ≡ true) ↔ Implements class interface
is_class_implements_iff class interface =
    (class-Implements class interface, λ (c, a, h). Implements-class class c interface a h)
