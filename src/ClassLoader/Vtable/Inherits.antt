-- ===== src/ClassLoader/Vtable/Inherits.antt =====
-- What a class has of the table of its superclass, in `build_vtable` of
-- src/runtime/class_loader/bootstrap.rs, where all classes are linked.
use rust_jvm.Prelude.{
  ℕ, ◌<◌, ◌≡◌, inl, inr, refl, sym, ◌∙◌, ap, false, Option, none, some, List, [], ◌∷◌, ◌++◌, Bytes,
  length, get_elem?, All, AllPairs, get_elem?-last, get_elem?-grow,
}
use rust_jvm.Prelude.Outcome.{ok}
use rust_jvm.Descriptor.{Text}
use rust_jvm.ClassLoader.Vtable.{ClassRef, VtableEntry, Class, Key, super_vtable, update_entries}
use rust_jvm.ClassLoader.Vtable.Select.{target, IsEntry, Overrides, update_entries_lem}
use rust_jvm.ClassLoader.Vtable.Entries.{is_interface}

-- A class to be defined: its superclass, which is no interface, and its interfaces are defined.
pub record IsDefinable (classes : List Class) (class : Class) : Type 0 where
  pub super_class :
      (s : ClassRef)
      → class.super_class ≡ some s
      → (c : Class) × (get_elem? classes s ≡ some c) × (is_interface c ≡ false)
  pub interfaces : All (λ i. i < length classes) class.interfaces
  pub vtable : class.vtable ≡ []

-- The entry of a class at the place of an entry of its superclass.
abbrev pub Keeps : Class → Class → Type 0
Keeps super class =
    (i : ℕ) (old : VtableEntry)
    → get_elem? super.vtable i ≡ some old
    → (new : VtableEntry) × (get_elem? class.vtable i ≡ some new)
      × (new.name ≡ old.name)
      × (new.descriptor ≡ old.descriptor)

-- What holds for the class `c` that is defined at the place `p`.
pub record IsLinkedClass (classes : List Class) (p : ClassRef) (c : Class) : Type 0 where
  -- Every entry of its table stands for a method with its name and type.
  pub entries : is_interface c ≡ false → All (IsEntry classes p) c.vtable
  -- Its superclass is no interface, it was defined before, and its entries are kept.
  pub super_class :
      (s : ClassRef)
      → c.super_class ≡ some s
      → (s < p)
        × ((d : Class) × (get_elem? classes s ≡ some d)
            × (is_interface d ≡ false)
            × (is_interface c ≡ false → Keeps d c))
  pub interfaces : All (λ i. i < p) c.interfaces

abbrev pub IsLinked : List Class → Type 0
IsLinked classes =
    (p : ClassRef) (c : Class) → get_elem? classes p ≡ some c → IsLinkedClass classes p c

module _ (to_str : Bytes → Text) where
  -- What a class has of the table of its superclass.
  pub record Inherits (classes : List Class) (class : Class) : Type 0 where
    pub vtable : List VtableEntry
    pub lookup : super_vtable to_str classes class.super_class ≡ ok vtable
    pub entries : List VtableEntry
    pub overrode : List Key
    pub updated : update_entries to_str classes class vtable ≡ ok (entries, overrode)
    pub overrides :
        (me s : ClassRef)
        → class.super_class ≡ some s
        → AllPairs (Overrides to_str classes class s me) vtable entries
    pub of_super :
        (s : ClassRef) (c : Class)
        → class.super_class ≡ some s
        → get_elem? classes s ≡ some c
        → c.vtable ≡ vtable
    pub alone : class.super_class ≡ none → entries ≡ []

  pub class-Inherits :
      (classes : List Class) (class : Class) (super : Option ClassRef)
      → class.super_class ≡ super
      → IsLinked classes
      → IsDefinable classes class
      → Inherits classes class
  unfolding super_vtable update_entries
  class-Inherits classes class none e linked def = record {
    vtable = [];
    lookup = rw e refl;
    entries = [];
    overrode = [];
    updated = refl;
    overrides = λ me s h. tt;
    of_super = λ s c h at.
        let wrong : ◌≡◌ {A = Option ClassRef} none (some s) = sym e ∙ h in absurd (cc wrong);
    alone = λ h. refl;
  }
  class-Inherits classes class (some s) e linked def =
      let (c, at, plain) = def.super_class s e in
      let valid = (linked s c at).entries plain in
      let (r, run, over) = update_entries_lem to_str classes class s c.vtable e valid in
      record {
        vtable = c.vtable;
        lookup = rw (e, at) refl;
        entries = r.0;
        overrode = r.1;
        updated = run;
        overrides = λ me t h.
            let same : s ≡ t =
              (let both : ◌≡◌ {A = Option ClassRef} (some s) (some t) = sym e ∙ h in cc both) in
            rw same at (over me);
        of_super = λ t d h there.
            let same : s ≡ t =
              (let both : ◌≡◌ {A = Option ClassRef} (some s) (some t) = sym e ∙ h in cc both) in
            let both : ◌≡◌ {A = Option Class} (some c) (some d) = sym (rw same at at) ∙ there in
            cc both;
        alone = λ h.
            let wrong : ◌≡◌ {A = Option ClassRef} (some s) none = sym e ∙ h in absurd (cc wrong);
      }

  -- An entry that takes the place of another is one of the class, as soon as this is defined.
  pub overridden-IsEntry :
      (classes : List Class) (class built : Class) (s : ClassRef) (old new : VtableEntry)
      → built.methods ≡ class.methods
      → Overrides to_str classes class s (length classes) old new
      → IsEntry (classes ++ built ∷ []) (length classes) new
  overridden-IsEntry classes class built s old new same o =
      let names : (old.name, old.descriptor) ≡ (new.name, new.descriptor) =
        cc (o.name, o.descriptor) in
      elim o.selects [
        | inl (may, (k, (m, at, virtual, equal), place)) ↦ record {
          owner = built;
          method = m;
          owned = rw (ap (λ x. x.0) place) (get_elem?-last classes built);
          found = rw (ap (λ x. x.1) place, same) at;
          named = equal ∙ (o.entry.named ∙ names);
        }
        | inr (kept, place) ↦ record {
          owner = o.entry.owner;
          method = o.entry.method;
          owned =
              get_elem?-grow classes (built ∷ []) (target (length classes) new.index).0
                o.entry.owner (rw (← ap (λ x. x.0) place) at o.entry.owned);
          found = rw (← ap (λ x. x.1) place) at o.entry.found;
          named = o.entry.named ∙ names;
        }
      ]
