-- ===== src/Heap.antt =====
-- src/runtime/heap.rs, src/runtime/heap/string_table.rs and src/runtime/heap/reflection.rs: the
-- two heaps and their objects. `C` stands for `Arc<Class>`; what is read of a class is an
-- argument. Monitors are not part of an object here.
pub mod SlotVec
pub mod Allocation
pub mod Strings
pub mod Classes
pub mod Slices
pub mod Objects
mod Tests
use rust_jvm.Prelude.{
  ℕ, zero, suc, ◌+◌, ◌-◌, ◌*◌, ◌/◌, ◌%◌, ◌^◌, Bool, true, false, not, Option, none, some, List, [],
  ◌∷◌, ◌++◌, Bytes, length, take, drop, replicate, get_elem?, set, ltb, leb, ◌==◌, if◌then◌else◌,
}
use rust_jvm.Prelude.Outcome.{Outcome, ok, panic, out_of_fuel, ◌>>=◌, unwrap}
use rust_jvm.Prelude.Equality.{Eq, lookup, insert, list_eq, nat_eq}
use rust_jvm.Heap.SlotVec.{Slots, slot_at, allocate_id_for_obj, deallocate}

pub record HeapObject {ℓ} (C : Type ℓ) : Type ℓ where
  pub class : C
  -- fields: [Variable]; array: [i8], [i16], etc.
  pub fields_or_array : Bytes

-- `SpecialStringObject` and `SpecialClassObject`, the two `SpecialObject`s.
pub data SpecialObject {ℓ} (C : Type ℓ) : Type ℓ where
  bytes : Bytes → SpecialObject C
  -- bytes_id, bytes, hash, has_multi_bytes
  string : ℕ → Bytes → ℕ → Bool → SpecialObject C
  -- class, name_str, package_name_str
  class_object : C → ℕ → ℕ → SpecialObject C

pub record Heap {ℓ} (C : Type ℓ) : Type ℓ where
  pub heap : Slots (HeapObject C)
  pub special_heap : Slots (SpecialObject C)

pub record StringTableEntry : Type 0 where
  pub string_id : ℕ
  pub bytes_id : ℕ
  pub hash : ℕ
  pub has_multi_bytes : Bool

abbrev pub StringTable : Type 0
StringTable = List (Bytes × StringTableEntry)

abbrev pub ClassTable : Type 0
ClassTable = List (Bytes × ℕ)

-- `MAX_OBJECT_ID`, the bit of a `u32` that marks the special objects.
abbrev pub max_object_id : ℕ
max_object_id = 2 ^ 31

-- `id & MAX_OBJECT_ID == 0`, `id & !MAX_OBJECT_ID` and `id | MAX_OBJECT_ID`.
abbrev pub is_ordinary : ℕ → Bool
is_ordinary id = id / max_object_id % 2 == 0

abbrev pub clear_mark : ℕ → ℕ
clear_mark id = if is_ordinary id then id else id - max_object_id

abbrev pub set_mark : ℕ → ℕ
set_mark id = if is_ordinary id then id + max_object_id else id

-- `Arc<dyn Object>`
pub data AnyObject {ℓ} (C : Type ℓ) : Type ℓ where
  ordinary : HeapObject C → AnyObject C
  special : SpecialObject C → AnyObject C

-- `v[(id - 1) as usize].as_ref().expect(..)`
unfoldable pub get_slot {ℓ} : {A : Type ℓ} → Slots A → ℕ → Outcome A
get_slot s zero = panic
get_slot s (suc i) = unwrap (slot_at s.slots i)

-- What `init_fields` writes, element after element, from element `i`.
pub init_elements : (ℕ → Bytes) → ℕ → ℕ → Bytes
init_elements init i zero = []
init_elements init i (suc size) = init i ++ init_elements init (i + 1) size

module _ {ℓ} {C : Type ℓ} where
  -- `Heap::new`
  abbrev pub new_heap : Heap C
  new_heap = record {
    heap = record { slots = []; next_id = 0 };
    special_heap = record { slots = []; next_id = 0 };
  }

  pub get : Heap C → ℕ → Outcome (AnyObject C)
  get h id =
      if is_ordinary id
      then (get_slot h.heap id >>= λ o. ok (ordinary o))
      else (get_slot h.special_heap (clear_mark id) >>= λ o. ok (special o))

  -- `allocate`, where `init i` are the bytes of the value that `init_fields` writes at `i`.
  pub allocate : Heap C → ℕ → C → (ℕ → Bytes) → Outcome (Heap C × ℕ)
  allocate h size class init =
      if ltb h.heap.next_id (max_object_id - 1)
      then (let object : HeapObject C = record {
        class = class;
        fields_or_array = init_elements init 0 size;
      } in
          let (slots, id) = allocate_id_for_obj h.heap object in ok (record h { heap = slots }, id))
      else panic

  -- `allocate_array::<T>`: `T::default()` is `element_size` zero bytes.
  pub allocate_array : Heap C → ℕ → ℕ → C → Outcome (Heap C × ℕ)
  allocate_array h element_size size class = allocate h size class (λ i. replicate element_size 0)

  pub clone_object : Heap C → HeapObject C → Outcome (Heap C × ℕ)
  clone_object h obj =
      if ltb h.heap.next_id (max_object_id - 1)
      then (let copy : HeapObject C = record {
        class = obj.class;
        fields_or_array = obj.fields_or_array;
      } in
          let (slots, id) = allocate_id_for_obj h.heap copy in ok (record h { heap = slots }, id))
      else panic

  pub clone : Heap C → AnyObject C → Outcome (Heap C × ℕ)
  clone h (ordinary obj) = clone_object h obj
  clone h (special obj) = panic

  pub intern_string : Heap C → Bytes → Bool → StringTable → Outcome (Heap C × StringTable × ℕ)
  intern_string h string_bytes has_multi_bytes table = elim (lookup string_bytes table) [
    | some entry ↦ ok (h, table, entry.string_id)
    | none ↦
        if ltb (h.special_heap.next_id + 1) (max_object_id - 1)
        then (let (slots1, id1) = allocate_id_for_obj h.special_heap (bytes string_bytes) in
            let bytes_id = set_mark id1 in
            let (slots2, id2) =
              allocate_id_for_obj slots1 (string bytes_id string_bytes 0 has_multi_bytes) in
            let string_id = set_mark id2 in
            let entry : StringTableEntry = record {
              string_id = string_id;
              bytes_id = bytes_id;
              hash = 0;
              has_multi_bytes = false;
            } in
            ok (record h { special_heap = slots2 }, insert string_bytes entry table, string_id))
        else panic
  ]

  -- `class_name` is the name of the class.
  pub get_class_object : Heap C → C → Bytes → ClassTable → Outcome (Heap C × ClassTable × ℕ)
  get_class_object h class class_name table = elim (lookup class_name table) [
    | some class_id ↦ ok (h, table, class_id)
    | none ↦
        if ltb h.special_heap.next_id (max_object_id - 1)
        then (let (slots, id) = allocate_id_for_obj h.special_heap (class_object class 0 0) in
            let class_id = set_mark id in
            ok (record h { special_heap = slots }, insert class_name class_id table, class_id))
        else panic
  ]
