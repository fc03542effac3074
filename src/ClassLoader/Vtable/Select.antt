-- ===== src/ClassLoader/Vtable/Select.antt =====
-- Which method an entry of the table of a class stands for: `build_vtable` of
-- src/runtime/class_loader/bootstrap.rs.
use rust_jvm.Prelude.{
  ℕ, zero, suc, ◌+◌, ◌≡◌, ◌⊎◌, inl, inr, refl, sym, ◌∙◌, ap, arith, Bool, true, false, not, ◌&&◌,
  none, some, List, [], ◌∷◌, ◌++◌, Bytes, get_elem?, All, AllPairs, Bool-cases, Option-cases,
}
use mathlib.Core.Bool.{and-eq-true_iff, true≢false}
use rust_jvm.Prelude.Outcome.{ok}
use rust_jvm.Prelude.Equality.{same, nat_eq, list_eq, list_same_iff, same_refl, same→eq}
use rust_jvm.Descriptor.{Text}
use rust_jvm.ClassLoader.{replaces}
use rust_jvm.ClassLoader.Parse.{MethodInfo}
use rust_jvm.ClassLoader.Vtable.{
  ClassRef, VtableIndex, in_this_class, other_class, other_interface, VtableEntry, Class, Key, key,
  same_key, contains, public_flag, protected_flag, package_name, in_subclass, root_or,
  override_index, not_overridable, is_virtual, in_method_map, update_entry, update_entries,
}
use rust_jvm.ClassLoader.Vtable.Equal.{method_descriptor_eq, same_descriptor_iff}

pub same_key-eq : (k l : Key) → same_key k l ≡ true → k ≡ l
unfolding same_key
same_key-eq (n, d) (m, e) h =
    let (p, q) = (and-eq-true_iff (same n m) (same d e)).0 h in
    let names : n ≡ m = (list_same_iff n m).0 p in
    let types : d ≡ e = (same_descriptor_iff d e).0 q in cc (names, types)

same_key_refl : (k : Key) → same_key k k ≡ true
unfolding same_key
same_key_refl (n, d) =
    (and-eq-true_iff _ _).1 ((list_same_iff n n).1 refl, (same_descriptor_iff d d).1 refl)

module _ (to_str : Bytes → Text) where
  -- A method that is dispatched by the table, of a name and a type.
  abbrev pub Declares : List MethodInfo → Key → ℕ → Type 0
  Declares ms k o =
      (m : MethodInfo) × (get_elem? ms o ≡ some m) × (is_virtual to_str m ≡ true) × (key m ≡ k)

  fits :
      (m : MethodInfo) (k : Key)
      → (is_virtual to_str m && same_key (key m) k) ≡ true
      → (is_virtual to_str m ≡ true) × (key m ≡ k)
  fits m k h =
      let (p, q) = (and-eq-true_iff (is_virtual to_str m) (same_key (key m) k)).0 h in
      (p, same_key-eq (key m) k q)

  pub in_method_map_sound :
      (k : Key) (i : ℕ) (ms : List MethodInfo) (j : ℕ)
      → in_method_map to_str k i ms ≡ some j
      → (o : ℕ) × (j ≡ i + o) × Declares ms k o
  unfolding in_method_map replaces
  in_method_map_sound k i [] j h = cc h
  in_method_map_sound k i (m ∷ ms) j h = elim (Option-cases (in_method_map to_str k (suc i) ms)) [
    | inl none_later ↦ elim (Bool-cases (is_virtual to_str m && same_key (key m) k)) [
      | inl here ↦
          let (p, q) = fits m k here in
          let e : i ≡ j = cc (rw (none_later, here) at h) in (0, omega (arith, e), (m, refl, p, q))
      | inr there ↦ cc (rw (none_later, there) at h)
    ]
    | inr (l, later) ↦
        let e : l ≡ j = cc (rw later at h) in
        let (o, place, found) = in_method_map_sound k (suc i) ms l later in
        (suc o, omega (arith, e, place), found)
  ]

  lacks_both :
      (k : Key) (m : MethodInfo) (ms : List MethodInfo)
      → (is_virtual to_str m && same_key (key m) k) ≡ false
      → ((o : ℕ) → ¬ Declares ms k o)
      → (o : ℕ) → ¬ Declares (m ∷ ms) k o
  lacks_both k m ms there later zero (found, at, virtual, e) =
      let same : m ≡ found = cc at in
      let here : (is_virtual to_str m && same_key (key m) k) ≡ true =
        rw (same, virtual, e) (same_key_refl k) in
      absurd (true≢false (sym here ∙ there))
  lacks_both k m ms there later (suc o) declared = later o declared

  pub in_method_map_complete :
      (k : Key) (i : ℕ) (ms : List MethodInfo)
      → in_method_map to_str k i ms ≡ none
      → (o : ℕ) → ¬ Declares ms k o
  unfolding in_method_map replaces
  in_method_map_complete k i [] h o (m, at, _, _) = cc at
  in_method_map_complete k i (m ∷ ms) h o declared =
      elim (Option-cases (in_method_map to_str k (suc i) ms)) [
        | inl none_later ↦ elim (Bool-cases (is_virtual to_str m && same_key (key m) k)) [
          | inl here ↦ cc (rw (none_later, here) at h)
          | inr there ↦
              lacks_both k m ms there (in_method_map_complete k (suc i) ms none_later) o declared
        ]
        | inr (l, later) ↦ cc (rw later at h)
      ]

-- The class and the place of the method of an entry of the table of the class `me`.
abbrev pub target : ClassRef → VtableIndex → ClassRef × ℕ
target me (in_this_class i) = (me, i)
target me (other_class c i) = (c, i)
target me (other_interface c i) = (c, i)

-- The entry stands for a method with its name and type.
pub record IsEntry (classes : List Class) (me : ClassRef) (e : VtableEntry) : Type 0 where
  pub owner : Class
  pub method : MethodInfo
  pub owned : get_elem? classes (target me e.index).0 ≡ some owner
  pub found : get_elem? owner.methods (target me e.index).1 ≡ some method
  pub named : key method ≡ (e.name, e.descriptor)

-- A subclass may override the method.
abbrev pub IsAccessible : MethodInfo → Class → Class → Type 0
IsAccessible m owner class =
    (contains m.access_flags public_flag ≡ true)
    ⊎ ((contains m.access_flags protected_flag ≡ true) ⊎ (package_name owner ≡ package_name class))

one_of_three :
    (a b c : Bool)
    → (((a ≡ true) ⊎ ((b ≡ true) ⊎ (c ≡ true))) → (not a && not b && not c) ≡ false)
      × ((not a && not b && not c) ≡ false → (a ≡ true) ⊎ ((b ≡ true) ⊎ (c ≡ true)))
one_of_three true b c = (λ h. refl, λ h. inl refl)
one_of_three false true c = (λ h. refl, λ h. inr (inl refl))
one_of_three false false true = (λ h. refl, λ h. inr (inr refl))
one_of_three false false false =
    (λ h. elim h [ inl e ↦ cc e | inr k ↦ elim k [ inl e ↦ cc e | inr e ↦ cc e ] ], λ h. cc h)

IsAccessible-overridable :
    (m : MethodInfo) (owner class : Class)
    → IsAccessible m owner class
    → not_overridable m owner class ≡ false
unfolding not_overridable
IsAccessible-overridable m owner class h = (one_of_three _ _ _).0 (elim h [
  | inl p ↦ inl p
  | inr k ↦ elim k [
    | inl q ↦ inr (inl q)
    | inr r ↦ inr (inr (rw r (same_refl (package_name class))))
  ]
])

overridable-IsAccessible :
    (m : MethodInfo) (owner class : Class)
    → not_overridable m owner class ≡ false
    → IsAccessible m owner class
unfolding not_overridable
overridable-IsAccessible m owner class h = elim ((one_of_three _ _ _).1 h) [
  | inl p ↦ inl p
  | inr k ↦ elim k [
    | inl q ↦ inr (inl q)
    | inr r ↦ inr (inr (same→eq (package_name owner) (package_name class) r))
  ]
]

in_subclass_lem :
    (class : Class) (s : ClassRef) (index : VtableIndex)
    → class.super_class ≡ some s
    → (i : VtableIndex) × (in_subclass class index ≡ ok (i, target s index))
      × ((me : ClassRef) → target me i ≡ target s index)
unfolding in_subclass
in_subclass_lem class s (in_this_class i) h = (other_class s i, rw h refl, λ me. refl)
in_subclass_lem class s (other_class c i) h = (other_class c i, refl, λ me. refl)
in_subclass_lem class s (other_interface c i) h = (other_interface c i, refl, λ me. refl)

module _ (to_str : Bytes → Text) where
  -- Where a class is declared at the place `me` with the methods `class.methods`, the method `m` of
  -- `owner`, which is at `old`, gives way to the class's own method of the same name and type if the
  -- class may override it and has one.
  abbrev pub Selects : Class → ClassRef → Class → MethodInfo → ClassRef × ℕ → ClassRef × ℕ → Type 0
  Selects class me owner m old new =
      (IsAccessible m owner class
        × ((k : ℕ) × Declares to_str class.methods (key m) k × (new ≡ (me, k))))
      ⊎ ((IsAccessible m owner class → (k : ℕ) → ¬ Declares to_str class.methods (key m) k)
          × (new ≡ old))

  -- The entry `new` of the class takes the place of the entry `old` of its superclass.
  pub record Overrides (classes : List Class) (class : Class) (s me : ClassRef)
      (old new : VtableEntry) : Type 0 where
    pub name : new.name ≡ old.name
    pub descriptor : new.descriptor ≡ old.descriptor
    pub entry : IsEntry classes s old
    pub selects :
        Selects class me entry.owner entry.method (target s old.index) (target me new.index)

  update_entry_lem :
      (classes : List Class) (class : Class) (s : ClassRef) (old : VtableEntry)
      → class.super_class ≡ some s
      → IsEntry classes s old
      → (r : VtableEntry × List Key) × (update_entry to_str classes class old ≡ ok r)
        × ((me : ClassRef) → Overrides classes class s me old r.0)
  unfolding update_entry override_index
  update_entry_lem classes class s old super e =
      let (i, in_sub, moved) = in_subclass_lem class s old.index super in
      let root = root_or old.root_class (target s old.index).0 in
      let updated : VtableIndex → VtableEntry =
        λ index. record old { root_class = root; index = index } in
      elim (Bool-cases (not_overridable e.method e.owner class)) [
        | inl blocked ↦ (
          (updated i, []),
          rw (in_sub, e.owned, e.found, blocked) refl,
          λ me. record {
            name = refl;
            descriptor = refl;
            entry = e;
            selects = inr (
              λ may.
                  absurd (
                    true≢false (sym blocked ∙ IsAccessible-overridable e.method e.owner class may)),
              moved me,
            );
          },
        )
        | inr may ↦ elim (Option-cases (in_method_map to_str (key e.method) 0 class.methods)) [
          | inl absent ↦ (
            (updated i, key e.method ∷ []),
            rw (in_sub, e.owned, e.found, may, absent) refl,
            λ me. record {
              name = refl;
              descriptor = refl;
              entry = e;
              selects = inr (
                λ _. in_method_map_complete to_str (key e.method) 0 class.methods absent,
                moved me,
              );
            },
          )
          | inr (k, present) ↦
              let (o, place, declared) =
                in_method_map_sound to_str (key e.method) 0 class.methods k present in
              let same : k ≡ o = omega (arith, place) in
              (
                (updated (in_this_class k), key e.method ∷ []),
                rw (in_sub, e.owned, e.found, may, present) refl,
                λ me. record {
                  name = refl;
                  descriptor = refl;
                  entry = e;
                  selects = inl (
                    overridable-IsAccessible e.method e.owner class may,
                    (o, declared, ap (λ x. (me, x)) same),
                  );
                },
              )
        ]
      ]

  pub update_entries_lem :
      (classes : List Class) (class : Class) (s : ClassRef) (olds : List VtableEntry)
      → class.super_class ≡ some s
      → All (IsEntry classes s) olds
      → (r : List VtableEntry × List Key) × (update_entries to_str classes class olds ≡ ok r)
        × ((me : ClassRef) → AllPairs (Overrides classes class s me) olds r.0)
  unfolding update_entries
  update_entries_lem classes class s [] super h = (([], []), refl, λ me. tt)
  update_entries_lem classes class s (old ∷ olds) super (e, h) =
      let (r, first, over) = update_entry_lem classes class s old super e in
      let (rest, next, overs) = update_entries_lem classes class s olds super h in
      ((r.0 ∷ rest.0, r.1 ++ rest.1), rw (first, next) refl, λ me. (over me, overs me))
