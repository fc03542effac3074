-- ===== src/ClassLoader/Vtable/Entries.antt =====
-- The entries of the table of a class stand for methods with their names and types: those of the class
-- itself and of its interfaces, in `build_vtable` of src/runtime/class_loader/bootstrap.rs.
use rust_jvm.Prelude.{
  ℕ, zero, suc, ◌+◌, ◌<◌, ◌≡◌, inl, inr, refl, arith, Bool, some, List, [], ◌∷◌, ◌++◌, Bytes,
  length, get_elem?, All, All-append, get_elem?-grow, Bool-cases,
}
use rust_jvm.Prelude.Outcome.{ok}
use rust_jvm.Descriptor.{Text}
use rust_jvm.ClassLoader.Parse.{MethodInfo}
use rust_jvm.ClassLoader.Vtable.{
  ClassRef, VtableEntry, Class, Key, contains, interface_flag, is_new, new_methods, is_inherited,
  interface_methods, all_interface_methods,
}
use rust_jvm.ClassLoader.Vtable.Select.{target, IsEntry}

abbrev pub is_interface : Class → Bool
is_interface class = contains class.access_flags interface_flag

-- The class and the place of an entry are kept when a class is added.
pub grow-IsEntry :
    (classes more : List Class) (me : ClassRef) (e : VtableEntry)
    → IsEntry classes me e
    → IsEntry (classes ++ more) me e
grow-IsEntry classes more me e h = record {
  owner = h.owner;
  method = h.method;
  owned = get_elem?-grow classes more (target me e.index).0 h.owner h.owned;
  found = h.found;
  named = h.named;
}

pub found_at :
    (classes : List Class) (i : ClassRef)
    → i < length classes
    → (c : Class) × (get_elem? classes i ≡ some c)
found_at [] i lt = absurd (omega arith)
found_at (c ∷ cs) zero lt = (c, refl)
found_at (c ∷ cs) (suc i) lt = found_at cs i (omega arith)

module _ (to_str : Bytes → Text) where
  -- The methods `ms`, which stand from the place `i` on in the class at `me`, are entries.
  pub new_methods-IsEntry :
      (classes : List Class) (class owner : Class) (me : ClassRef) (overrode : List Key) (i : ℕ)
      (ms : List MethodInfo)
      → get_elem? classes me ≡ some owner
      → ((o : ℕ) (m : MethodInfo)
          → get_elem? ms o ≡ some m
          → get_elem? owner.methods (i + o) ≡ some m)
      → All (IsEntry classes me) (new_methods to_str class overrode i ms)
  unfolding new_methods
  new_methods-IsEntry classes class owner me overrode i [] owned placed = tt
  new_methods-IsEntry classes class owner me overrode i (m ∷ ms) owned placed =
      let rest =
        new_methods-IsEntry classes class owner me overrode (suc i) ms owned
          (λ o n at. let e : suc i + o ≡ i + suc o = omega arith in rw e (placed (suc o) n at)) in
      elim (Bool-cases (is_new to_str class overrode m)) [
        | inl taken ↦ rw taken (
          record {
            owner = owner;
            method = m;
            owned = owned;
            found = (let e : i + 0 ≡ i = omega arith in rw e at (placed 0 m refl));
            named = refl;
          },
          rest,
        )
        | inr left ↦ rw left rest
      ]

  interface_methods-IsEntry :
      (classes : List Class) (class owner : Class) (me interface : ClassRef) (i : ℕ)
      (ms : List MethodInfo)
      → get_elem? classes interface ≡ some owner
      → ((o : ℕ) (m : MethodInfo)
          → get_elem? ms o ≡ some m
          → get_elem? owner.methods (i + o) ≡ some m)
      → All (IsEntry classes me) (interface_methods to_str class interface i ms)
  unfolding interface_methods
  interface_methods-IsEntry classes class owner me interface i [] owned placed = tt
  interface_methods-IsEntry classes class owner me interface i (m ∷ ms) owned placed =
      let rest =
        interface_methods-IsEntry classes class owner me interface (suc i) ms owned
          (λ o n at. let e : suc i + o ≡ i + suc o = omega arith in rw e (placed (suc o) n at)) in
      elim (Bool-cases (is_inherited to_str class m)) [
        | inl taken ↦ rw taken (
          record {
            owner = owner;
            method = m;
            owned = owned;
            found = (let e : i + 0 ≡ i = omega arith in rw e at (placed 0 m refl));
            named = refl;
          },
          rest,
        )
        | inr left ↦ rw left rest
      ]

  pub all_interface_methods_lem :
      (classes : List Class) (class : Class) (me : ClassRef) (is : List ClassRef)
      → All (λ i. i < length classes) is
      → (more : List VtableEntry) × (all_interface_methods to_str classes class is ≡ ok more)
        × All (IsEntry classes me) more
  unfolding all_interface_methods
  all_interface_methods_lem classes class me [] h = ([], refl, tt)
  all_interface_methods_lem classes class me (i ∷ is) (lt, h) =
      let (interface, at) = found_at classes i lt in
      let (more, run, valid) = all_interface_methods_lem classes class me is h in
      let here = interface_methods to_str class i 0 interface.methods in
      (
        here ++ more,
        rw (at, run) refl,
        All-append (IsEntry classes me) here more
            (interface_methods-IsEntry classes class interface me i 0 interface.methods at
              (λ o m at. let e : 0 + o ≡ o = omega arith in rw e at))
            valid,
      )
