-- ===== src/Heap/Allocation.antt =====
-- What an allocation does to the ordinary and to the special heap.
use rust_jvm.Prelude.{
  ℕ, zero, suc, ◌+◌, ◌-◌, ◌<◌, ◌≡◌, ◌≢◌, refl, ap, true, false, none, some, arith, Bytes, length,
  ◌==◌, if◌then◌else◌, Bool-cases, inl, inr, set, lt→ltb,
}
use rust_jvm.Prelude.Outcome.{ok, panic, unwrap}
use rust_jvm.Heap.SlotVec.{
  Slots, slot_at, allocate_id_for_obj, slot_at-allocate, allocate-free, deallocate, slot_at-set,
}
use rust_jvm.Heap.{
  Heap, HeapObject, ordinary, get_slot, get, allocate, init_elements, max_object_id, is_ordinary,
  clone, clone_object,
}

module _ {ℓ} {A : Type ℓ} where
  -- The slot that the next allocation writes holds nothing.
  abbrev pub NextIsFree : Slots A → Type ℓ
  NextIsFree s = slot_at s.slots s.next_id ≡ none

  pub get_slot-allocate :
      (s : Slots A) (o : A) (j : ℕ)
      → get_slot (allocate_id_for_obj s o).0 (suc j)
        ≡ (if s.next_id == j then ok o else get_slot s (suc j))
  unfolding get_slot
  get_slot-allocate s o j = rw (slot_at-allocate s o j) (ground arith)

  -- An object that was there stays.
  pub get_slot_kept :
      (s : Slots A) (o : A) (j : ℕ) {x : A}
      → NextIsFree s
      → get_slot s j ≡ ok x
      → get_slot (allocate_id_for_obj s o).0 j ≡ ok x
  unfolding get_slot
  get_slot_kept s o zero free h = cc h
  get_slot_kept s o (suc j) free h = elim (Bool-cases (s.next_id == j)) [
    | inl e ↦ let same : s.next_id ≡ j = ground arith in cc (h, ap unwrap (rw same at free))
    | inr e ↦ rw (slot_at-allocate s o j, e) h
  ]

  pub get_slot_other :
      (s : Slots A) (o : A) (j : ℕ)
      → j ≢ s.next_id + 1
      → get_slot (allocate_id_for_obj s o).0 j ≡ get_slot s j
  get_slot_other s o zero ne = unfold get_slot in refl
  get_slot_other s o (suc j) ne =
      let test : (s.next_id == j) ≡ false = ground arith in rw (get_slot-allocate s o j, test)

  -- The slot of the new identifier was empty.
  pub get_slot_fresh : (s : Slots A) → NextIsFree s → get_slot s (s.next_id + 1) ≡ panic
  unfolding get_slot
  get_slot_fresh s free = let one : s.next_id + 1 ≡ suc s.next_id = omega arith in rw (one, free)

module _ {ℓ} {C : Type ℓ} where
  -- What an allocation of `object` that returns `h'` and `id` has done to `h`.
  pub record Allocates (h h' : Heap C) (id : ℕ) (object : HeapObject C) : Type ℓ where
    pub fresh : get h id ≡ panic
    pub written : get h' id ≡ ok (ordinary object)
    pub others : (j : ℕ) → j ≢ id → get h' j ≡ get h j
    pub next_is_free : NextIsFree h'.heap

  put_ordinary :
      (h : Heap C) (object : HeapObject C)
      → NextIsFree h.heap
      → h.heap.next_id < max_object_id - 1
      → Allocates h
          (record h { heap = (allocate_id_for_obj h.heap object).0 })
          (h.heap.next_id + 1)
          object
  unfolding get
  put_ordinary h object free fits =
      let low : is_ordinary (h.heap.next_id + 1) ≡ true = ground arith in
      let one : h.heap.next_id + 1 ≡ suc h.heap.next_id = omega arith in
      record {
        fresh = rw (low, get_slot_fresh h.heap free);
        written = rw (low, one, get_slot-allocate h.heap object h.heap.next_id) (ground arith);
        others = λ j ne. rw (get_slot_other h.heap object j ne);
        next_is_free = (allocate-free h.heap object).1;
      }

  -- With a free slot next and room in the heap, `allocate` returns, gives an identifier that named
  -- nothing, puts the object there, changes what no other identifier names, and leaves a free slot
  -- next.
  pub allocate_lem :
      (h : Heap C) (size : ℕ) (class : C) (init : ℕ → Bytes)
      → NextIsFree h.heap
      → h.heap.next_id < max_object_id - 1
      → (h' : Heap C) × (id : ℕ) × (allocate h size class init ≡ ok (h', id))
        × Allocates h h' id (record { class = class; fields_or_array = init_elements init 0 size })
  unfolding allocate allocate_id_for_obj
  allocate_lem h size class init free fits =
      let object : HeapObject C = record {
        class = class;
        fields_or_array = init_elements init 0 size;
      } in
      (
        record h { heap = (allocate_id_for_obj h.heap object).0 },
        h.heap.next_id + 1,
        rw (lt→ltb _ _ fits),
        put_ordinary h object free fits,
      )

  -- A clone is a new object with the class and the bytes of the old one, and likewise leaves all
  -- other identifiers alone.
  clone_lem :
      (h : Heap C) (obj : HeapObject C)
      → NextIsFree h.heap
      → h.heap.next_id < max_object_id - 1
      → (h' : Heap C) × (id : ℕ) × (clone h (ordinary obj) ≡ ok (h', id)) × Allocates h h' id obj
  unfolding clone clone_object allocate_id_for_obj
  clone_lem h obj free fits = (
    record h { heap = (allocate_id_for_obj h.heap obj).0 },
    h.heap.next_id + 1,
    rw (lt→ltb _ _ fits),
    put_ordinary h obj free fits,
  )

module _ {ℓ} {A : Type ℓ} where
  -- `deallocate` sets `next_id` to the identifier and not to its index: the object allocated next
  -- takes the following identifier, also where that names a live object, which is lost.
  pub deallocate_reuses_following_id :
      (s : Slots A) (i : ℕ) (old new : A)
      → i < length s.slots
      → get_slot s (suc (suc i)) ≡ ok old
      → (t : Slots A) × (deallocate s (suc i) ≡ some t)
        × (get_slot t (suc (suc i)) ≡ ok old)
        × ((allocate_id_for_obj t new).1 ≡ suc (suc i))
        × (get_slot (allocate_id_for_obj t new).0 (suc (suc i)) ≡ ok new)
        × (get_slot (allocate_id_for_obj t new).0 (suc i) ≡ panic)
  unfolding deallocate get_slot allocate_id_for_obj
  deallocate_reuses_following_id s i old new fits live =
      let t : Slots A = record { slots = set s.slots i none; next_id = suc i } in
      (
        t,
        rw (lt→ltb _ _ fits),
        rw (slot_at-set s.slots i (suc i) none fits) (ground (arith, live)),
        omega arith,
        rw (slot_at-allocate t new (suc i)) (ground arith),
        rw (slot_at-allocate t new i, slot_at-set s.slots i i none fits) (ground arith),
      )
