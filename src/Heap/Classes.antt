-- ===== src/Heap/Classes.antt =====
-- The class objects of `get_class_object` in src/runtime/heap.rs: the table and the special heap agree.
use rust_jvm.Prelude.{
  ℕ, ◌+◌, ◌-◌, ◌<◌, ◌≡◌, some, arith, Bytes, lt→ltb, Bool-cases, Option-cases, inl, inr,
}
use rust_jvm.Prelude.Outcome.{ok}
use rust_jvm.Prelude.Equality.{same, lookup, insert, lookup-insert, list_eq, nat_eq, same_refl}
use rust_jvm.Heap.SlotVec.{allocate_id_for_obj, allocate-IsPacked, IsPacked, IsPacked-free}
use rust_jvm.Heap.{
  Heap, class_object, AnyObject, special, get, max_object_id, set_mark, get_class_object,
  ClassTable,
}
use rust_jvm.Heap.Strings.{add_special, get_added, get_kept}

module _ {ℓ} {C : Type ℓ} where
  -- The class table and the special heap agree: every entry names a class object.
  pub record ClassesSound (h : Heap C) (table : ClassTable) : Type ℓ where
    pub packed : IsPacked h.special_heap
    pub entries :
        (name : Bytes) (id : ℕ)
        → lookup name table ≡ some id
        → (class : C) × (n : ℕ) × (p : ℕ) × (get h id ≡ ok (special (class_object class n p)))

  -- From a sound class table with room for one object `get_class_object` returns an identifier that
  -- the table then has for the class name, the table stays sound, what was there is kept, and a
  -- second call for a class of that name returns the same identifier and changes nothing.
  pub get_class_object_lem :
      (h : Heap C) (class : C) (name : Bytes) (table : ClassTable)
      → ClassesSound h table
      → h.special_heap.next_id < max_object_id - 1
      → (h' : Heap C) × (table' : ClassTable) × (id : ℕ) × (get_class_object h class name table
          ≡ ok (h', table', id))
        × ClassesSound h' table'
        × ((j : ℕ) (x : AnyObject C) → get h j ≡ ok x → get h' j ≡ ok x)
        × ((again : C) → get_class_object h' again name table' ≡ ok (h', table', id))
  unfolding get_class_object allocate_id_for_obj
  get_class_object_lem h class name table sound fits = elim (Option-cases (lookup name table)) [
    | inr (id, hit) ↦ (
      h,
      table,
      id,
      rw (hit, get_class_object),
      sound,
      λ j x there. there,
      λ again. rw (hit, get_class_object),
    )
    | inl missing ↦
        let h' = add_special h (class_object class 0 0) in
        let id = set_mark (h.special_heap.next_id + 1) in
        let free = IsPacked-free h.special_heap sound.packed in
        (
          h',
          insert name id table,
          id,
          rw (missing, get_class_object, lt→ltb _ _ fits),
          record {
            packed = allocate-IsPacked h.special_heap _ sound.packed;
            entries = λ k d hit. elim (Bool-cases (same k name)) [
              | inl p ↦
                  let hit' : some id ≡ some d = rw (lookup-insert name k id table, p) at hit in
                  let back : d ≡ id = cc hit' in
                  (class, 0, 0, rw back (get_added h (class_object class 0 0) (omega arith)))
              | inr p ↦
                  let (c, n, q, there) =
                    sound.entries k d (rw (lookup-insert name k id table, p) at hit) in
                  (c, n, q, get_kept h _ d free there)
            ];
          },
          λ j x there. get_kept h _ j free there,
          λ again. rw (lookup-insert name name id table, same_refl name, get_class_object),
        )
  ]
