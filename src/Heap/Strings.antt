-- ===== src/Heap/Strings.antt =====
-- `intern_string` of src/runtime/heap.rs on the table of src/runtime/heap/string_table.rs: the table and
-- the special heap agree.
use rust_jvm.Prelude.{
  ℕ, suc, ◌+◌, ◌-◌, ◌<◌, ◌≤◌, ◌≡◌, refl, ◌∙◌, Bool, true, false, none, some, arith, Bytes, lt→ltb,
  Bool-cases, Option-cases, inl, inr,
}
use rust_jvm.Prelude.Outcome.{ok, ◌>>=◌, >>=-eq-ok}
use rust_jvm.Prelude.Equality.{
  same, lookup, insert, lookup-insert, list_eq, nat_eq, same_refl, same→eq,
}
use rust_jvm.Heap.SlotVec.{
  allocate_id_for_obj, allocate-IsPacked, allocate-packed, IsPacked, IsPacked-free,
}
use rust_jvm.Heap.{
  Heap, SpecialObject, bytes, string, StringTable, StringTableEntry, AnyObject, special, get_slot,
  get, max_object_id, is_ordinary, set_mark, intern_string,
}
use rust_jvm.Heap.Allocation.{NextIsFree, get_slot-allocate, get_slot_kept}

-- `insert` at a key that the table does not have.
insert_grows :
    (table : StringTable) (k key : Bytes) (e d : StringTableEntry)
    → lookup key table ≡ none
    → lookup k table ≡ some d
    → lookup k (insert key e table) ≡ some d
insert_grows table k key e d missing hit = elim (Bool-cases (same k key)) [
  | inl p ↦ absurd (cc (rw (same→eq k key p) at hit, missing))
  | inr p ↦ rw (lookup-insert key k e table, p) hit
]

module _ {ℓ} {C : Type ℓ} where
  -- An identifier with the mark is looked up in the special heap.
  pub get-set_mark :
      (h : Heap C) (i : ℕ)
      → i < max_object_id
      → get h (set_mark i) ≡ (get_slot h.special_heap i >>= λ o. ok (special o))
  unfolding get
  get-set_mark h i fits =
      let low : is_ordinary i ≡ true = ground arith in
      let marked : is_ordinary (i + max_object_id) ≡ false = ground arith in
      let back : i + max_object_id - max_object_id ≡ i = omega arith in rw (low, marked, back)

  abbrev pub add_special : Heap C → SpecialObject C → Heap C
  add_special h o = record h { special_heap = (allocate_id_for_obj h.special_heap o).0 }

  -- Whatever was there stays when an object is added to the special heap.
  pub get_kept :
      (h : Heap C) (o : SpecialObject C) (j : ℕ) {x : AnyObject C}
      → NextIsFree h.special_heap
      → get h j ≡ ok x
      → get (add_special h o) j ≡ ok x
  unfolding get
  get_kept h o j free there = elim (Bool-cases (is_ordinary j)) [
    | inl e ↦ rw e (rw e at there)
    | inr e ↦
        let (y, slot, eq) =
          >>=-eq-ok (get_slot h.special_heap (j - max_object_id)) (λ o'. ok (special o'))
            (rw e at there) in
        rw (e, get_slot_kept h.special_heap o (j - max_object_id) free slot) eq
  ]

  pub get_added :
      (h : Heap C) (o : SpecialObject C)
      → h.special_heap.next_id + 1 < max_object_id
      → get (add_special h o) (set_mark (h.special_heap.next_id + 1)) ≡ ok (special o)
  get_added h o fits =
      let one : h.special_heap.next_id + 1 ≡ suc h.special_heap.next_id = omega arith in
      let here : get_slot (allocate_id_for_obj h.special_heap o).0 (suc h.special_heap.next_id)
          ≡ ok o =
        get_slot-allocate h.special_heap o h.special_heap.next_id ∙ ground arith in
      rw (get-set_mark (add_special h o) (h.special_heap.next_id + 1) fits, one, here)

  -- The two objects of an interned string.
  pub record IsInterned (h : Heap C) (key : Bytes) (e : StringTableEntry) : Type ℓ where
    pub has_multi_bytes : Bool
    pub text : get h e.string_id ≡ ok (special (string e.bytes_id key 0 has_multi_bytes))
    pub array : get h e.bytes_id ≡ ok (special (bytes key))

  -- Every entry of the table names the objects of its string, and the special heap is packed.
  pub record IsSound (h : Heap C) (table : StringTable) : Type ℓ where
    pub packed : IsPacked h.special_heap
    pub entries :
        (key : Bytes) (e : StringTableEntry) → lookup key table ≡ some e → IsInterned h key e

  IsInterned-add :
      (h : Heap C) (o : SpecialObject C) (key : Bytes) (e : StringTableEntry)
      → NextIsFree h.special_heap
      → IsInterned h key e
      → IsInterned (add_special h o) key e
  IsInterned-add h o key e free i = record {
    has_multi_bytes = i.has_multi_bytes;
    text = get_kept h o e.string_id free i.text;
    array = get_kept h o e.bytes_id free i.array;
  }

  -- Interning a string that the table has changes nothing, whatever flag comes with it.
  pub intern_string_again :
      (h : Heap C) (key : Bytes) (m : Bool) (table : StringTable) (e : StringTableEntry)
      → lookup key table ≡ some e
      → intern_string h key m table ≡ ok (h, table, e.string_id)
  unfolding intern_string
  intern_string_again h key m table e hit = rw (hit, intern_string)

  -- What a call of `intern_string` for `key` has done.
  pub record Interns (h h' : Heap C) (table table' : StringTable) (key : Bytes) (id : ℕ)
      : Type ℓ where
    pub sound : IsSound h' table'
    pub entry : StringTableEntry
    pub found : lookup key table' ≡ some entry
    pub named : entry.string_id ≡ id
    pub kept : (j : ℕ) (x : AnyObject C) → get h j ≡ ok x → get h' j ≡ ok x
    pub again : (m : Bool) → intern_string h' key m table' ≡ ok (h', table', id)
    pub grown :
        (k : Bytes) (d : StringTableEntry) → lookup k table ≡ some d → lookup k table' ≡ some d
    pub used : h'.special_heap.next_id ≤ h.special_heap.next_id + 2

  -- `insert` at the key of two objects that were just added.
  insert-IsSound :
      (h' : Heap C) (table : StringTable) (key : Bytes) (e : StringTableEntry)
      → IsPacked h'.special_heap
      → IsInterned h' key e
      → ((k : Bytes) (d : StringTableEntry) → lookup k table ≡ some d → IsInterned h' k d)
      → IsSound h' (insert key e table)
  insert-IsSound h' table key e packed new old = record {
    packed = packed;
    entries = λ k d hit. elim (Bool-cases (same k key)) [
      | inl p ↦
          let hit' : some e ≡ some d = rw (lookup-insert key k e table, p) at hit in
          let back : d ≡ e = cc hit' in rw (same→eq k key p, back) new
      | inr p ↦ old k d (rw (lookup-insert key k e table, p) at hit)
    ];
  }

  module _ (h : Heap C) (key : Bytes) (m : Bool) (packed : IsPacked h.special_heap) where
    with_bytes : Heap C
    with_bytes = add_special h (bytes key)

    new_entry : StringTableEntry
    unfolding with_bytes
    new_entry = record {
      string_id = set_mark (with_bytes.special_heap.next_id + 1);
      bytes_id = set_mark (h.special_heap.next_id + 1);
      hash = 0;
      has_multi_bytes = false;
    }

    with_string : Heap C
    unfolding with_bytes
    with_string = add_special with_bytes (string (set_mark (h.special_heap.next_id + 1)) key 0 m)

    with_bytes-IsPacked : IsPacked with_bytes.special_heap
    unfolding with_bytes
    with_bytes-IsPacked = allocate-IsPacked h.special_heap (bytes key) packed

    with_bytes-next : with_bytes.special_heap.next_id ≡ h.special_heap.next_id + 1
    unfolding with_bytes
    with_bytes-next = rw (allocate-packed h.special_heap (bytes key) packed)

    with_string-IsPacked : IsPacked with_string.special_heap
    unfolding with_string
    with_string-IsPacked = allocate-IsPacked with_bytes.special_heap _ with_bytes-IsPacked

    with_string-next : with_string.special_heap.next_id ≡ h.special_heap.next_id + 2
    unfolding with_string
    with_string-next =
        rw
          (allocate-packed with_bytes.special_heap
            (string (set_mark (h.special_heap.next_id + 1)) key 0 m) with_bytes-IsPacked)
          (omega (arith, with_bytes-next))

    with_string-kept : (j : ℕ) (x : AnyObject C) → get h j ≡ ok x → get with_string j ≡ ok x
    unfolding with_string
    with_string-kept j x there =
        get_kept with_bytes _ j (IsPacked-free with_bytes.special_heap with_bytes-IsPacked) (
          unfold with_bytes in get_kept h (bytes key) j (IsPacked-free h.special_heap packed) there)

    new_entry-IsInterned :
        h.special_heap.next_id + 1 < max_object_id - 1 → IsInterned with_string key new_entry
    unfolding with_string new_entry
    new_entry-IsInterned fits = record {
      has_multi_bytes = m;
      text = get_added with_bytes _ (omega (arith, with_bytes-next));
      array =
          get_kept with_bytes _ _ (IsPacked-free with_bytes.special_heap with_bytes-IsPacked)
            (get_added h (bytes key) (omega arith));
    }

    intern_new :
        (table : StringTable)
        → IsSound h table
        → h.special_heap.next_id + 1 < max_object_id - 1
        → lookup key table ≡ none
        → (intern_string h key m table
            ≡ ok (with_string, insert key new_entry table, new_entry.string_id))
          × Interns h with_string table (insert key new_entry table) key new_entry.string_id
    unfolding intern_string allocate_id_for_obj with_string new_entry
    intern_new table sound fits missing = (
      rw (missing, intern_string, lt→ltb _ _ fits),
      record {
        sound =
            insert-IsSound with_string table key new_entry with_string-IsPacked
              (new_entry-IsInterned fits)
              (λ k d hit.
                let i = sound.entries k d hit in
                record {
                  has_multi_bytes = i.has_multi_bytes;
                  text = with_string-kept d.string_id _ i.text;
                  array = with_string-kept d.bytes_id _ i.array;
                });
        entry = new_entry;
        found = rw (lookup-insert key key new_entry table, same_refl key);
        named = refl;
        kept = with_string-kept;
        again = λ m'.
            intern_string_again with_string key m' (insert key new_entry table) new_entry
              (rw (lookup-insert key key new_entry table, same_refl key));
        grown = λ k d hit. insert_grows table k key new_entry d missing hit;
        used = omega (arith, with_string-next);
      },
    )

  -- From a sound table and a packed special heap with room for two objects, `intern_string`
  -- returns; its identifier names the entry of the string in a table that is again sound, what any
  -- identifier named before it still names, and a second call for the string returns the same
  -- identifier and changes nothing. The table keeps the entries it had, and at most two objects are added.
  pub intern_string_lem :
      (h : Heap C) (key : Bytes) (m : Bool) (table : StringTable)
      → IsSound h table
      → h.special_heap.next_id + 1 < max_object_id - 1
      → (h' : Heap C) × (table' : StringTable) × (id : ℕ) × (intern_string h key m table
          ≡ ok (h', table', id))
        × Interns h h' table table' key id
  intern_string_lem h key m table sound fits = elim (Option-cases (lookup key table)) [
    | inl missing ↦
        let (run, spec) = intern_new h key m sound.packed table sound fits missing in
        (_, _, _, run, spec)
    | inr (e, hit) ↦ (
      h,
      table,
      e.string_id,
      unfold intern_string in rw (hit, intern_string),
      record {
        sound = sound;
        entry = e;
        found = hit;
        named = refl;
        kept = λ j x there. there;
        again = λ m'. intern_string_again h key m' table e hit;
        grown = λ k d there. there;
        used = omega arith;
      },
    )
  ]

  -- In a sound table different strings have different identifiers.
  pub interned_distinct :
      (h : Heap C) (table : StringTable) (j k : Bytes) (d e : StringTableEntry)
      → IsSound h table
      → lookup j table ≡ some d
      → lookup k table ≡ some e
      → d.string_id ≡ e.string_id
      → j ≡ k
  interned_distinct h table j k d e sound hd he same_id =
      cc (same_id, (sound.entries j d hd).text, (sound.entries k e he).text)
