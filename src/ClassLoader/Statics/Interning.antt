-- ===== src/ClassLoader/Statics/Interning.antt =====
-- src/runtime/class_loader.rs: `intern_string`, on the heap with its table of strings.
use rust_jvm.Prelude.{
  ℕ, suc, ◌+◌, ◌*◌, ◌<◌, ◌≡◌, refl, arith, Bool, true, Option, some, List, Bytes, not, All,
  if◌then◌else◌,
}
use rust_jvm.Prelude.Outcome.{Outcome, ok, panic, ◌>>=◌, unwrap}
use rust_jvm.Prelude.Equality.{lookup, nat_eq, list_eq}
use rust_jvm.JavaStr.{to_java_string_bytes, u16_bytes}
use rust_jvm.JavaStr.Encode.{IsChar, encode}
use rust_jvm.JavaStr.Info.{all_latin1, all_ascii}
use rust_jvm.JavaStr.Convert.{to_java_string_bytes-encode}
use rust_jvm.Heap.{Heap, StringTable, StringTableEntry, max_object_id}
use rust_jvm.Heap
use rust_jvm.Heap.Strings.{IsSound, IsInterned, intern_string_lem}

-- `HEAP`, `STRING_TABLE` and, once `STRING_CLASS` is defined, whether it is initialised.
pub record Strings (C : Type 0) : Type 0 where
  pub heap : Heap C
  pub string_table : StringTable
  pub string_class : Option Bool

-- The array of a Java string.
abbrev pub java_bytes : List ℕ → Bytes
java_bytes us = if all_latin1 us then us else u16_bytes us

module _ {C : Type 0} where
  unfoldable pub intern_string : Bytes → Strings C → Outcome (ℕ × Strings C)
  intern_string str state = unwrap state.string_class >>= λ initialised.
      if initialised
      then (do
        (bytes, has_multi_byte) ← to_java_string_bytes str true
        (heap, table, id) ← Heap.intern_string state.heap bytes has_multi_byte state.string_table
        ok (id, record state { heap = heap; string_table = table }))
      else panic

  -- The class of strings is initialised, the table and the heap agree, and there is room for `n`
  -- more strings.
  pub record CanIntern (n : ℕ) (s : Strings C) : Type 0 where
    pub ready : s.string_class ≡ some true
    pub sound : IsSound s.heap s.string_table
    pub room : s.heap.special_heap.next_id + 2 * n < max_object_id

  -- The string of these characters is in the table, as the object with this identifier.
  pub record IsString (s : Strings C) (us : List ℕ) (id : ℕ) : Type 0 where
    pub entry : StringTableEntry
    pub found : lookup (java_bytes us) s.string_table ≡ some entry
    pub named : entry.string_id ≡ id
    pub object : IsInterned s.heap (java_bytes us) entry

  -- What a state with room for `n` more strings has kept of an earlier one.
  pub record Follows (n : ℕ) (s s' : Strings C) : Type 0 where
    pub can : CanIntern n s'
    pub grown :
        (key : Bytes) (e : StringTableEntry)
        → lookup key s.string_table ≡ some e
        → lookup key s'.string_table ≡ some e

  pub Follows-same : (n : ℕ) (s : Strings C) → CanIntern (suc n) s → Follows n s s
  Follows-same n s can = record {
    can = record { ready = can.ready; sound = can.sound; room = omega (arith, can.room) };
    grown = λ key e h. h;
  }

  pub IsString-kept :
      (n : ℕ) (s s' : Strings C) (us : List ℕ) (id : ℕ)
      → Follows n s s'
      → IsString s us id
      → IsString s' us id
  IsString-kept n s s' us id later there =
      let found = later.grown (java_bytes us) there.entry there.found in
      record {
        entry = there.entry;
        found = found;
        named = there.named;
        object = later.can.sound.entries (java_bytes us) there.entry found;
      }

  pub intern_encoded :
      (n : ℕ) (s : Strings C) (us : List ℕ)
      → All IsChar us
      → CanIntern (suc n) s
      → (r : ℕ × Strings C) × (intern_string (encode us) s ≡ ok r)
        × Follows n s r.1
        × IsString r.1 us r.0
  unfolding intern_string
  intern_encoded n s us chars can =
      let (h, t, id, run, spec) =
        intern_string_lem s.heap (java_bytes us) (not (all_ascii us)) s.string_table can.sound
          (omega (arith, can.room)) in
      (
        (id, record s { heap = h; string_table = t }),
        rw (can.ready, to_java_string_bytes-encode us chars, run) refl,
        record {
          can = record {
            ready = can.ready;
            sound = spec.sound;
            room = omega (arith, can.room, spec.used);
          };
          grown = spec.grown;
        },
        record {
          entry = spec.entry;
          found = spec.found;
          named = spec.named;
          object = spec.sound.entries (java_bytes us) spec.entry spec.found;
        },
      )
