-- ===== src/ClassLoader/Methods/Virtual.antt =====
-- A virtual call: `resolve_method_statically` of src/runtime/class_loader.rs for the reference, and the
-- lookup in the table of the object's class in src/runtime/interpreter/frame.rs.
use rust_jvm.Prelude.{
  ℕ, ◌<◌, ◌≡◌, inl, inr, refl, sym, ◌∙◌, arith, true, false, not, ◌||◌, Option, none, some, List,
  Bytes, get_elem?, All-at, Bool-cases, Option-cases,
}
use mathlib.Core.Bool.{and-eq-true_iff}
use rust_jvm.Prelude.Outcome.{Outcome, ok}
use rust_jvm.Prelude.Equality.{same, nat_eq, list_eq}
use rust_jvm.Descriptor.{Text}
use rust_jvm.Prelude.Texts.{codes}
use rust_jvm.Constants.{Methodref}
use rust_jvm.ClassLoader.Parse.{MethodInfo, static_flag}
use rust_jvm.ClassLoader.Vtable.{
  ClassRef, Class, VtableEntry, VtableIndex, in_this_class, other_class, other_interface, Key, key,
  same_key, contains, private_flag, final_flag,
}
use rust_jvm.ClassLoader.Vtable.Select.{target, IsEntry, same_key-eq}
use rust_jvm.ClassLoader.Vtable.Entries.{is_interface}
use rust_jvm.ClassLoader.Vtable.Inherits.{IsLinked}
use rust_jvm.ClassLoader.Methods.{
  MethodResolve, signature, find_from, place_of, is_entry_of, resolve_from_vtable, is_candidate,
  resolve_method_statically, entry_method, virtual_method,
}
use rust_jvm.ClassLoader.Methods
use rust_jvm.ClassLoader.Methods.Resolve.{
  find_from-some, Nearest, here, above, resolve_method_statically_lem,
}

-- The class `d`, or a class below it.
pub data Descends (classes : List Class) (d : ClassRef) : ClassRef → Type 0 where
  itself : Descends classes d d
  extends :
      (c s : ClassRef) (class : Class)
      → get_elem? classes c ≡ some class
      → class.super_class ≡ some s
      → Descends classes d s
      → Descends classes d c

Descends-trans :
    (classes : List Class) (a b c : ClassRef)
    → Descends classes a b
    → Descends classes b c
    → Descends classes a c
Descends-trans classes a b _ low itself = low
Descends-trans classes a b _ low (extends c s class at super high) =
    extends c s class at super (Descends-trans classes a b s low high)

module _ (to_str : Bytes → Text) (classes : List Class) (k : Key) where
  Nearest-Descends :
      (d : ClassRef) (owner : Class) (i : ℕ) (m : MethodInfo) (c : ClassRef)
      → Nearest to_str classes k d owner i m c
      → Descends classes d c
  Nearest-Descends d owner i m _ (here at first) = itself
  Nearest-Descends d owner i m _ (above c s class at lacks super rest) =
      extends c s class at super (Nearest-Descends d owner i m s rest)

  Nearest-owner :
      (d : ClassRef) (owner : Class) (i : ℕ) (m : MethodInfo) (c : ClassRef)
      → Nearest to_str classes k d owner i m c
      → (get_elem? classes d ≡ some owner) × (is_candidate to_str k m ≡ true)
  Nearest-owner d owner i m _ (here at first) = (at, first.holds)
  Nearest-owner d owner i m _ (above c s class at lacks super rest) =
      Nearest-owner d owner i m s rest

candidate-key :
    (to_str : Bytes → Text) (k : Key) (m : MethodInfo) → is_candidate to_str k m ≡ true → k ≡ key m
unfolding is_candidate
candidate-key to_str k m h =
    same_key-eq k (key m)
      ((and-eq-true_iff (not (contains m.access_flags static_flag)) (same_key k (key m))).0 h).1

-- An entry is at the same place in the tables of the classes below.
entry_kept :
    (classes : List Class) (d : ClassRef) (dc : Class) (v : ℕ) (e : VtableEntry) (t : ClassRef)
    (tc : Class)
    → IsLinked classes
    → get_elem? classes d ≡ some dc
    → get_elem? dc.vtable v ≡ some e
    → Descends classes d t
    → get_elem? classes t ≡ some tc
    → is_interface tc ≡ false
    → (f : VtableEntry) × (get_elem? tc.vtable v ≡ some f)
      × (f.name ≡ e.name)
      × (f.descriptor ≡ e.descriptor)
entry_kept classes d dc v e _ tc linked own place itself at plain =
    let same : dc ≡ tc =
      (let both : ◌≡◌ {A = Option Class} (some dc) (some tc) = sym own ∙ at in cc both) in
    (e, rw same at place, refl, refl)
entry_kept classes d dc v e _ tc linked own place (extends c s class there super low) at plain =
    let same : class ≡ tc =
      (let both : ◌≡◌ {A = Option Class} (some class) (some tc) = sym there ∙ at in cc both) in
    let (_, (parent, at_s, simple, keeps)) = (linked c tc at).super_class s (rw same at super) in
    let (f, found, name, type) =
      entry_kept classes d dc v e s parent linked own place low at_s simple in
    let (g, there_too, name', type') = keeps plain v f found in
    (g, there_too, name' ∙ name, type' ∙ type)

entry_method_lem :
    (classes : List Class) (t : ClassRef) (e : VtableEntry)
    → (h : IsEntry classes t e)
    → entry_method classes t e.index ≡ ok ((target t e.index).0, h.method)
unfolding entry_method
entry_method_lem classes t e h = go e.index h.owned h.found
  where
    go :
        (i : VtableIndex)
        → get_elem? classes (target t i).0 ≡ some h.owner
        → get_elem? h.owner.methods (target t i).1 ≡ some h.method
        → entry_method classes t i ≡ ok ((target t i).0, h.method)
    go (in_this_class i) owned found = rw (owned, found) refl
    go (other_class c i) owned found = rw (owned, found) refl
    go (other_interface c i) owned found = rw (owned, found) refl

index_entry :
    (to_str : Bytes → Text) (owner : Class) (m : MethodInfo) (v : ℕ)
    → some v ≡ resolve_from_vtable to_str owner m
    → (e : VtableEntry) × (get_elem? owner.vtable v ≡ some e) × ((e.name, e.descriptor) ≡ key m)
unfolding resolve_from_vtable
index_entry to_str owner m v h =
    let fixed =
      contains m.access_flags private_flag
      || contains m.access_flags final_flag
      || contains owner.access_flags final_flag
      || same (to_str m.name) (codes "<init>") in
    elim (Bool-cases fixed) [
      | inl e ↦ let wrong : ◌≡◌ {A = Option ℕ} (some v) none = rw e at h in absurd (cc wrong)
      | inr e ↦ elim (Option-cases (find_from (is_entry_of (key m)) 0 owner.vtable)) [
        | inl absent ↦
            let wrong : ◌≡◌ {A = Option ℕ} (some v) none = rw (e, absent) at h in absurd (cc wrong)
        | inr ((j, entry), found) ↦
            let both : ◌≡◌ {A = Option ℕ} (some v) (some j) = rw (e, found) at h in
            let (o, place, first) =
              find_from-some (is_entry_of (key m)) 0 owner.vtable j entry found in
            let index : o ≡ v =
              (let same_place : v ≡ j = cc both in omega (arith, same_place, place)) in
            (
              entry,
              rw index at first.at,
              same_key-eq (entry.name, entry.descriptor) (key m) first.holds,
            )
      ]
    ]

-- Where all classes are linked, and the resolution of a method reference from the class `d` finds a method
-- with an index into the tables, a virtual call of it on an object of `d` or a class below, which is no
-- interface, runs a method with the name and the type of the reference: the entry exists and stands for
-- such a method.
pub virtual_method_lem :
    (to_str : Bytes → Text) (classes : List Class) (fuel : ℕ) (method_ref : Methodref)
    (d : ClassRef) (declared : Class) (o : ClassRef) (i v : ℕ) (t : ClassRef) (class : Class)
    → IsLinked classes
    → get_elem? classes d ≡ some declared
    → d < fuel
    → resolve_method_statically to_str classes fuel method_ref d
      ≡ ok (some (Methods.other_class o i (some v)))
    → Descends classes d t
    → get_elem? classes t ≡ some class
    → is_interface class ≡ false
    → (called : ClassRef × MethodInfo) × (virtual_method classes t v ≡ ok called)
      × (key called.1 ≡ signature method_ref)
unfolding virtual_method
virtual_method_lem to_str classes fuel method_ref d declared o i v t class linked at_d enough
      resolved low at plain =
    let (r, run, found) =
      resolve_method_statically_lem to_str classes fuel method_ref d declared linked at_d enough in
    let is_found : r ≡ some (Methods.other_class o i (some v)) =
      (let both : ◌≡◌ {A = Outcome (Option MethodResolve)} (ok r)
            (ok (some (Methods.other_class o i (some v)))) =
          sym run ∙ resolved in
        cc both) in
    let (owner, m, near, index) = rw is_found at found in
    let k = signature method_ref in
    let (own, candidate) = Nearest-owner to_str classes k o owner i m d near in
    let (e, place, named) = index_entry to_str owner m v index in
    let below =
      Descends-trans classes o d t (Nearest-Descends to_str classes k o owner i m d near) low in
    let (f, there, name, type) =
      entry_kept classes o owner v e t class linked own place below at plain in
    let valid =
      All-at (IsEntry classes t) class.vtable v f ((linked t class at).entries plain) there in
    let names : (f.name, f.descriptor) ≡ (e.name, e.descriptor) = cc (name, type) in
    (
      ((target t f.index).0, valid.method),
      rw (at, there) (entry_method_lem classes t f valid),
      valid.named ∙ (names ∙ (named ∙ sym (candidate-key to_str k m candidate))),
    )
