-- ===== src/Heap/Objects.antt =====
-- The contents of a heap object: `impl Object for Box<HeapObject>` in src/runtime/heap.rs, and
-- `put_array_index`, `get_array_index` of src/runtime/structs/object.rs. A `Variable` is its four
-- bytes.
use rust_jvm.Prelude.{
  ℕ, zero, suc, ◌+◌, ◌*◌, ◌/◌, ◌%◌, ◌^◌, ◌≤◌, ◌<◌, ◌≡◌, ◌≢◌, refl, Bool, true, false, ◌&&◌, arith,
  Bytes, length, ltb, leb, ◌==◌, if◌then◌else◌, lt→ltb,
}
use rust_jvm.Prelude.Outcome.{Outcome, ok, panic, ◌>>=◌}
use rust_jvm.Heap.{HeapObject}
use rust_jvm.Heap.Slices.{
  var_bytes, of_bytes, slice, write_slice, write_slice_lem, of_bytes-var_bytes, slice_other,
  element_bound, element_past, either_panics, length-var_bytes,
}

module _ {ℓ} {C : Type ℓ} where
  -- `debug_assert_eq!(self.get_u8_array_size() % element_size, 0)`; `x % 0` panics too.
  unfoldable pub element_size_fits : HeapObject C → ℕ → Bool
  element_size_fits o element_size =
      ltb 0 element_size && (length o.fields_or_array % element_size == 0)

  pub put_array_index_raw : HeapObject C → ℕ → Bytes → ℕ → Outcome (HeapObject C)
  put_array_index_raw o index v element_size =
      if element_size_fits o element_size && (length v == element_size)
      then (write_slice o.fields_or_array (index * element_size) v >>= λ array.
          ok (record o { fields_or_array = array }))
      else panic

  pub get_array_index_raw : HeapObject C → ℕ → ℕ → Outcome Bytes
  get_array_index_raw o index element_size =
      if element_size_fits o element_size
      then slice o.fields_or_array (index * element_size) element_size
      else panic

  pub get_array_size : HeapObject C → ℕ → Outcome ℕ
  get_array_size o element_size =
      if element_size_fits o element_size
      then ok (length o.fields_or_array / element_size)
      else panic

  -- `(*self.get_object_fields())[index]`: the fields are the whole `Variable`s in the bytes.
  pub put_field : HeapObject C → ℕ → ℕ → Outcome (HeapObject C)
  put_field o index v =
      if ltb index (length o.fields_or_array / 4)
      then (write_slice o.fields_or_array (index * 4) (var_bytes v) >>= λ array.
          ok (record o { fields_or_array = array }))
      else panic

  pub get_field : HeapObject C → ℕ → Outcome ℕ
  get_field o index =
      if ltb index (length o.fields_or_array / 4)
      then (slice o.fields_or_array (index * 4) 4 >>= λ bs. ok (of_bytes bs))
      else panic

  -- `put_array_index::<u32>` and `get_array_index::<u32>`, as for an array of references or `int`.
  pub put_array_index_u32 : HeapObject C → ℕ → ℕ → Outcome (HeapObject C)
  put_array_index_u32 o index v = put_array_index_raw o index (var_bytes v) 4

  pub get_array_index_u32 : HeapObject C → ℕ → Outcome ℕ
  get_array_index_u32 o index = get_array_index_raw o index 4 >>= λ bs. ok (of_bytes bs)

module _ {ℓ} {C : Type ℓ} (o : HeapObject C) (index : ℕ) where
  -- Within the object a field that is written is read back, and the other fields, the class and
  -- the size stay.
  pub get_field-put_field :
      (v : ℕ)
      → v < 2 ^ 32
      → index < length o.fields_or_array / 4
      → (o' : HeapObject C) × (put_field o index v ≡ ok o')
        × (get_field o' index ≡ ok v)
        × ((j : ℕ) → j ≢ index → get_field o' j ≡ get_field o j)
        × (o'.class ≡ o.class)
        × (length o'.fields_or_array ≡ length o.fields_or_array)
  unfolding put_field get_field
  get_field-put_field v hv fits =
      let n = length-var_bytes v in
      let (array, run, w) =
        write_slice_lem o.fields_or_array (index * 4) (var_bytes v) (omega (arith, n)) in
      (
        record o { fields_or_array = array },
        rw (lt→ltb _ _ fits, run),
        rw (w.size, lt→ltb _ _ fits, rw n at w.here, of_bytes-var_bytes v hv),
        λ j ne. rw (w.size, slice_other o.fields_or_array array (var_bytes v) index j 4 n w ne),
        refl,
        w.size,
      )

  -- Within an array whose size is a multiple of the element's, an element that is written as raw
  -- bytes of that size is read back, and the other elements and the number of elements stay.
  pub get_array_index_raw-put_array_index_raw :
      (v : Bytes) (element_size : ℕ)
      → element_size_fits o element_size ≡ true
      → length v ≡ element_size
      → index < length o.fields_or_array / element_size
      → (o' : HeapObject C) × (put_array_index_raw o index v element_size ≡ ok o')
        × (get_array_index_raw o' index element_size ≡ ok v)
        × ((j : ℕ)
            → j ≢ index
            → get_array_index_raw o' j element_size ≡ get_array_index_raw o j element_size)
        × (get_array_size o' element_size ≡ get_array_size o element_size)
  unfolding put_array_index_raw get_array_index_raw get_array_size element_size_fits
  get_array_index_raw-put_array_index_raw v element_size ok_size n fits =
      let bound : index * element_size + length v ≤ length o.fields_or_array =
        omega (arith, n, element_bound (length o.fields_or_array) index element_size fits) in
      let (array, run, w) = write_slice_lem o.fields_or_array (index * element_size) v bound in
      let eq : (length v == element_size) ≡ true = ground arith in
      (
        record o { fields_or_array = array },
        rw (ok_size, eq, run),
        rw (w.size, ok_size) (rw n at w.here),
        λ j ne. rw (w.size, slice_other o.fields_or_array array v index j element_size n w ne),
        rw w.size,
      )

  -- An access at or beyond the number of elements panics.
  pub get_array_index_raw_past :
      (element_size : ℕ)
      → length o.fields_or_array / element_size ≤ index
      → get_array_index_raw o index element_size ≡ panic
  unfolding get_array_index_raw slice element_size_fits
  get_array_index_raw_past zero past = refl
  get_array_index_raw_past (suc k) past =
      let over = element_past (length o.fields_or_array) index k past in
      let test : leb (index * suc k + suc k) (length o.fields_or_array) ≡ false = ground arith in
      rw test (either_panics _)
