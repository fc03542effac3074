-- ===== src/ClassLoader/Vtable/Linked.antt =====
-- The tables of all classes that are defined one after the other: `define_class` of
-- src/runtime/class_loader/bootstrap.rs, of which `build_vtable` is a part.
use rust_jvm.Prelude.{
  ℕ, ◌+◌, ◌≡◌, inl, inr, refl, sym, ◌∙◌, ap, arith, true, false, some, List, [], ◌∷◌, ◌++◌, Bytes,
  length, get_elem?, All, AllPairs, All-weaken, All-append, AllPairs-at, get_elem?-last,
  get_elem?-grow, if◌then◌else◌, Bool-cases, Option-cases,
}
use mathlib.Core.Bool.{true≢false}
use rust_jvm.Prelude.Outcome.{ok}
use rust_jvm.Descriptor.{Text}
use rust_jvm.ClassLoader.Vtable.{
  ClassRef, VtableEntry, Class, Key, contains, final_flag, new_methods, build_vtable,
}
use rust_jvm.ClassLoader.Vtable.Select.{IsEntry, Overrides}
use rust_jvm.ClassLoader.Vtable.Entries.{
  is_interface, grow-IsEntry, new_methods-IsEntry, all_interface_methods_lem,
}
use rust_jvm.ClassLoader.Vtable.Inherits.{
  IsDefinable, IsLinked, Inherits, class-Inherits, overridden-IsEntry,
}

module _ (to_str : Bytes → Text) where
  -- What `build_vtable` makes of a class that may be defined.
  pub record Builds (classes : List Class) (class built : Class) : Type 0 where
    pub run : build_vtable to_str classes class ≡ ok built
    pub kept : built ≡ record class { vtable = built.vtable }
    pub valid :
        is_interface class ≡ false
        → All (IsEntry (classes ++ built ∷ []) (length classes)) built.vtable
    pub overrides :
        is_interface class ≡ false
        → (s : ClassRef) (c : Class) → class.super_class ≡ some s
        → get_elem? classes s ≡ some c
        → (i : ℕ) (old : VtableEntry) → get_elem? c.vtable i ≡ some old
        → (new : VtableEntry) × (get_elem? built.vtable i ≡ some new)
          × Overrides to_str classes class s (length classes) old new

  all-IsEntry :
      (classes : List Class) (class built : Class) (s : ClassRef) (olds news : List VtableEntry)
      → built.methods ≡ class.methods
      → AllPairs (Overrides to_str classes class s (length classes)) olds news
      → All (IsEntry (classes ++ built ∷ []) (length classes)) news
  all-IsEntry classes class built s [] [] same h = tt
  all-IsEntry classes class built s [] (new ∷ news) same h = absurd h
  all-IsEntry classes class built s (old ∷ olds) [] same h = absurd h
  all-IsEntry classes class built s (old ∷ olds) (new ∷ news) same (o, h) = (
    overridden-IsEntry to_str classes class built s old new same o,
    all-IsEntry classes class built s olds news same h,
  )

  inherited-IsEntry :
      (classes : List Class) (class built : Class) (h : Inherits to_str classes class)
      → built.methods ≡ class.methods
      → All (IsEntry (classes ++ built ∷ []) (length classes)) h.entries
  inherited-IsEntry classes class built h same = elim (Option-cases class.super_class) [
    | inl e ↦ rw (h.alone e) tt
    | inr (s, e) ↦
        all-IsEntry classes class built s h.vtable h.entries same (h.overrides (length classes) s e)
  ]

  -- The methods of the class itself that are entries.
  abbrev own_entries : Class → List Key → List VtableEntry
  own_entries class overrode =
      if contains class.access_flags final_flag
      then []
      else new_methods to_str class overrode 0 class.methods

  own-IsEntry :
      (classes : List Class) (class built : Class) (overrode : List Key)
      → built.methods ≡ class.methods
      → All (IsEntry (classes ++ built ∷ []) (length classes)) (own_entries class overrode)
  own-IsEntry classes class built overrode same =
      elim (Bool-cases (contains class.access_flags final_flag)) [
        | inl e ↦ rw e tt
        | inr e ↦ rw e (
            new_methods-IsEntry to_str (classes ++ built ∷ []) class built (length classes) overrode
              0 class.methods (get_elem?-last classes built)
              (λ o m at. let z : 0 + o ≡ o = omega arith in rw (z, same) at))
      ]

  interface-Builds :
      (classes : List Class) (class : Class)
      → Inherits to_str classes class
      → class.vtable ≡ []
      → is_interface class ≡ true
      → (built : Class) × Builds classes class built
  unfolding build_vtable
  interface-Builds classes class h empty e = (
    record class { vtable = h.vtable },
    record {
      run = rw (h.lookup, e, empty) refl;
      kept = refl;
      valid = λ plain. absurd (true≢false (sym e ∙ plain));
      overrides = λ plain. absurd (true≢false (sym e ∙ plain));
    },
  )

  class-Builds :
      (classes : List Class) (class : Class)
      → Inherits to_str classes class
      → IsDefinable classes class
      → is_interface class ≡ false
      → (built : Class) × Builds classes class built
  unfolding build_vtable
  class-Builds classes class h def e =
      let me = length classes in
      let (more, all, valid) =
        all_interface_methods_lem to_str classes class me class.interfaces def.interfaces in
      let own = own_entries class h.overrode in
      let built : Class = record class { vtable = h.entries ++ (own ++ more) } in
      let table : class.vtable ++ h.vtable ≡ h.vtable = ap (λ x. x ++ h.vtable) def.vtable in
      let now : List Class = classes ++ built ∷ [] in
      (
        built,
        record {
          run = rw (h.lookup, e, table, h.updated, all) refl;
          kept = refl;
          valid = λ plain.
              All-append (IsEntry now me) h.entries (own ++ more)
                (inherited-IsEntry classes class built h refl)
                (All-append (IsEntry now me) own more
                  (own-IsEntry classes class built h.overrode refl)
                  (All-weaken more (λ x v. grow-IsEntry classes (built ∷ []) me x v) valid));
          overrides = λ plain s c super at i old place.
              let table = h.of_super s c super at in
              let (new, there, over) =
                AllPairs-at (Overrides to_str classes class s me) h.vtable h.entries i old
                  (h.overrides me s super) (rw table at place) in
              (new, get_elem?-grow h.entries (own ++ more) i new there, over);
        },
      )

  all-Builds :
      (classes : List Class) (class : Class)
      → IsLinked classes
      → IsDefinable classes class
      → (built : Class) × Builds classes class built
  all-Builds classes class linked def =
      let h = class-Inherits to_str classes class class.super_class refl linked def in
      elim (Bool-cases (is_interface class)) [
        | inl e ↦ interface-Builds classes class h def.vtable e
        | inr e ↦ class-Builds classes class h def e
      ]

  -- Where all classes are linked, the table that a class
  -- which is no interface gets has at each place of the superclass's table an entry with the same name and
  -- type. It stands for the class's own method of that name and type that is neither static nor private
  -- nor a constructor, if the class has one and may override the method of the superclass's entry, and for
  -- the method of the superclass's entry otherwise.
  pub build_vtable_lem :
      (classes : List Class) (class super : Class) (s : ClassRef)
      → IsLinked classes
      → IsDefinable classes class
      → is_interface class ≡ false
      → class.super_class ≡ some s
      → get_elem? classes s ≡ some super
      → (built : Class) × (build_vtable to_str classes class ≡ ok built)
        × ((i : ℕ) (old : VtableEntry)
            → get_elem? super.vtable i ≡ some old
            → (new : VtableEntry) × (get_elem? built.vtable i ≡ some new)
              × Overrides to_str classes class s (length classes) old new)
  build_vtable_lem classes class super s linked def plain above at =
      let (built, b) = all-Builds classes class linked def in
      (built, b.run, b.overrides plain s super above at)
