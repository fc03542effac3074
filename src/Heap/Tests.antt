-- ===== src/Heap/Tests.antt =====
-- The heap on concrete states. A class is named by a number.
use rust_jvm.Prelude.{ℕ, ◌≡◌, ◌≢◌, refl, false, some, [], ◌∷◌, arith, length, replicate}
use rust_jvm.Prelude.Outcome.{ok, panic}
use rust_jvm.Prelude.Equality.{lookup, nat_eq, list_eq}
use rust_jvm.Heap.SlotVec.{Slots, allocate_id_for_obj, deallocate}
use rust_jvm.Heap.{
  Heap, HeapObject, AnyObject, new_heap, get_slot, get, allocate, init_elements, StringTable,
  intern_string, ClassTable, get_class_object,
}
use rust_jvm.Heap.Allocation.{Allocates, allocate_lem, deallocate_reuses_following_id}
use rust_jvm.Heap.Strings.{IsSound, Interns, intern_string_lem}
use rust_jvm.Heap.Classes.{ClassesSound, get_class_object_lem}
use rust_jvm.Heap.Objects.{
  put_field, get_field, put_array_index_raw, get_array_index_raw, get_array_size, element_size_fits,
  get_field-put_field, get_array_index_raw-put_array_index_raw,
}

abbrev empty : Heap ℕ
empty = new_heap

allocate_lem_example :
    (h' : Heap ℕ) × (id : ℕ) × (allocate empty 2 7 (λ i. replicate 4 0) ≡ ok (h', id))
    × Allocates empty h' id
        (record { class = 7; fields_or_array = init_elements (λ i. replicate 4 0) 0 2 })
allocate_lem_example = allocate_lem empty 2 7 (λ i. replicate 4 0) refl (omega arith)

abbrev point : HeapObject ℕ
point = record { class = 7; fields_or_array = replicate 8 1 }

-- Two live objects.
abbrev two : Slots ℕ
two = record { slots = some 10 ∷ some 20 ∷ []; next_id = 2 }

deallocate_reuses_following_id_example :
    (t : Slots ℕ) × (deallocate two 1 ≡ some t)
    × (get_slot t 2 ≡ ok 20)
    × ((allocate_id_for_obj t 30).1 ≡ 2)
    × (get_slot (allocate_id_for_obj t 30).0 2 ≡ ok 30)
    × (get_slot (allocate_id_for_obj t 30).0 1 ≡ panic)
unfolding get_slot
deallocate_reuses_following_id_example =
    deallocate_reuses_following_id two 0 20 30 (omega arith) refl

empty-IsSound : IsSound empty []
unfolding lookup
empty-IsSound = record { packed = refl; entries = λ key e h. cc h }

empty-ClassesSound : ClassesSound empty []
unfolding lookup
empty-ClassesSound = record { packed = refl; entries = λ key e h. cc h }

intern_string_lem_example :
    (h' : Heap ℕ) × (table' : StringTable) × (id : ℕ) × (intern_string empty (104 ∷ []) false []
      ≡ ok (h', table', id))
    × Interns empty h' [] table' (104 ∷ []) id
intern_string_lem_example = intern_string_lem empty (104 ∷ []) false [] empty-IsSound (omega arith)

get_class_object_lem_example :
    (h' : Heap ℕ) × (table' : ClassTable) × (id : ℕ) × (get_class_object empty 7 (65 ∷ []) []
      ≡ ok (h', table', id))
    × ClassesSound h' table'
    × ((j : ℕ) (x : AnyObject ℕ) → get empty j ≡ ok x → get h' j ≡ ok x)
    × ((again : ℕ) → get_class_object h' again (65 ∷ []) table' ≡ ok (h', table', id))
get_class_object_lem_example =
    get_class_object_lem empty 7 (65 ∷ []) [] empty-ClassesSound (omega arith)

get_field-put_field_example :
    (o' : HeapObject ℕ) × (put_field point 1 9 ≡ ok o')
    × (get_field o' 1 ≡ ok 9)
    × ((j : ℕ) → j ≢ 1 → get_field o' j ≡ get_field point j)
    × (o'.class ≡ 7)
    × (length o'.fields_or_array ≡ 8)
get_field-put_field_example = get_field-put_field point 1 9 (omega arith) (omega arith)

get_array_index_raw-put_array_index_raw_example :
    (o' : HeapObject ℕ) × (put_array_index_raw point 3 (5 ∷ 6 ∷ []) 2 ≡ ok o')
    × (get_array_index_raw o' 3 2 ≡ ok (5 ∷ 6 ∷ []))
    × ((j : ℕ) → j ≢ 3 → get_array_index_raw o' j 2 ≡ get_array_index_raw point j 2)
    × (get_array_size o' 2 ≡ get_array_size point 2)
unfolding element_size_fits
get_array_index_raw-put_array_index_raw_example =
    get_array_index_raw-put_array_index_raw point 3 (5 ∷ 6 ∷ []) 2 refl refl (omega arith)
