-- ===== src/Attributes/Code.antt =====
-- Reading back a code attribute: `parse_code_attribute` of src/runtime/class_loader.rs.
use rust_jvm.Prelude.{
  ℕ, suc, ◌^◌, ◌<◌, ◌≡◌, ◌≢◌, refl, arith, true, false, Option, none, some, List, [], ◌++◌, map,
  Bytes, length, All, length-append, take-append, drop-append, ltb, ◌==◌, if◌then◌else◌,
}
use mathlib.Core.List.{append-nil}
use rust_jvm.Prelude.Outcome.{ok}
use rust_jvm.Prelude.Equality.{nat_eq, list_eq, same_refl}
use rust_jvm.Descriptor.{Text}
use rust_jvm.Descriptor.Nom
use rust_jvm.Parsing.{Parsed, parsed, Parser, and_then, ◌>>=◌, pure}
use rust_jvm.Parsing
use rust_jvm.Parsing.Reads.{
  Reads, chain, last, pure-Reads, u2, u4, concat_map, u2-Reads, u4-Reads, take-Reads,
  count_map-Reads,
}
use rust_jvm.Thread.{ExceptionTableItem}
use rust_jvm.ClassFile.Encode.{IsU16}
use rust_jvm.Attributes.Data.{AttributeInfo, code, code_attribute, attributes_of}
use rust_jvm.Attributes.Resolve.{Pool, resolve_runtime_cp_utf8, resolve_cp_class}
use rust_jvm.Attributes.{
  codes, lift, parse_exception_table, parse_slice, parse_attribute_raw, parse_attributes,
  parse_code_attribute, attribute_of, parse_attribute,
}

-- An attribute within the code attribute: the number of its name, its bytes, and what they stand for.
pub record Inner : Type 0 where
  pub name_index : ℕ
  pub info : Bytes
  pub attribute : AttributeInfo

abbrev pub encode_inner : Inner → Bytes
encode_inner a = u2 a.name_index ++ (u4 (length a.info) ++ a.info)

-- An entry of the exception table, with the number of its class, or 0.
pub record Caught : Type 0 where
  pub item : ExceptionTableItem
  pub catch_index : ℕ

abbrev pub encode_caught : Caught → Bytes
encode_caught c =
    u2 c.item.start_pc ++ (u2 c.item.end_pc ++ (u2 c.item.handler_pc ++ u2 c.catch_index))

pub record CodeFile : Type 0 where
  pub max_stack : ℕ
  pub max_locals : ℕ
  pub code : Bytes
  pub exception_table : List Caught
  pub attributes : List Inner

abbrev pub encode_code : CodeFile → Bytes
encode_code c =
    u2 c.max_stack
    ++ (u2 c.max_locals
        ++ (u4 (length c.code)
            ++ (c.code
                ++ (u2 (length c.exception_table)
                    ++ (concat_map encode_caught c.exception_table
                        ++ (u2 (length c.attributes) ++ concat_map encode_inner c.attributes))))))

abbrev pub items : List Caught → List ExceptionTableItem
items = map (λ (c : Caught). c.item)

abbrev pub inner_attributes : List Inner → List AttributeInfo
inner_attributes = map (λ (a : Inner). a.attribute)

abbrev pub code_of : CodeFile → AttributeInfo
code_of c = code (
    code_attribute c.max_stack c.max_locals c.code (items c.exception_table)
      (attributes_of (inner_attributes c.attributes)))

module _ (nom : Parsing.Nom) (chars : Nom.Nom) (to_str : Bytes → Option Text) (pool : Pool) where
  abbrev pub CatchType : ℕ → Option Text → Type 0
  CatchType index none = index ≡ 0
  CatchType index (some name) = (index ≢ 0) × (resolve_cp_class pool index ≡ ok name)

  pub record IsCaught (c : Caught) : Type 0 where
    pub start_pc : IsU16 c.item.start_pc
    pub end_pc : IsU16 c.item.end_pc
    pub handler_pc : IsU16 c.item.handler_pc
    pub catch_index : IsU16 c.catch_index
    pub catch_type : CatchType c.catch_index c.item.catch_type

  -- The bytes of an inner attribute stand for it.
  pub record IsInner (fuel : ℕ) (a : Inner) : Type 0 where
    pub name_index : IsU16 a.name_index
    pub size : length a.info < 2 ^ 32
    pub left : Bytes
    pub stands :
        parse_attribute nom chars to_str pool fuel a.name_index a.info ≡ parsed left a.attribute

  pub record IsCodeFile (fuel : ℕ) (c : CodeFile) : Type 0 where
    pub max_stack : IsU16 c.max_stack
    pub max_locals : IsU16 c.max_locals
    pub code_size : length c.code < 2 ^ 32
    pub table_size : IsU16 (length c.exception_table)
    pub exception_table : All IsCaught c.exception_table
    pub attributes_size : IsU16 (length c.attributes)
    pub attributes : All (IsInner fuel) c.attributes

  u2_read : (v : ℕ) → IsU16 v → Reads nom.be_u16 (u2 v) v
  u2_read v h = u2-Reads v h nom.be_u16-IsBigEndian

  catch_read :
      (index : ℕ) (catch_type : Option Text)
      → CatchType index catch_type
      → Reads
          (if index == 0
            then pure none
            else (lift (resolve_cp_class pool index) >>= λ (name : Text). pure (some name)))
          []
          catch_type
  catch_read index none h =
      let zero : (index == 0) ≡ true = ground arith in rw zero (pure-Reads none)
  catch_read index (some name) (ne, found) =
      let other : (index == 0) ≡ false = ground arith in
      rw (other, found) (record { run = λ rest. refl })

  exception_table-Reads :
      (c : Caught)
      → IsCaught c
      → Reads (parse_exception_table nom chars to_str pool) (encode_caught c) c.item
  unfolding parse_exception_table
  exception_table-Reads c h = chain _ (u2_read c.item.start_pc h.start_pc) (
      chain _ (u2_read c.item.end_pc h.end_pc) (
        chain _ (u2_read c.item.handler_pc h.handler_pc) (
          rw (← append-nil (u2 c.catch_index)) (
            chain _ (u2_read c.catch_index h.catch_index)
              (last _ (catch_read c.catch_index c.item.catch_type h.catch_type))))))

  slice_read :
      (fuel : ℕ) (a : Inner)
      → IsInner fuel a
      → Reads
          (parse_slice nom chars to_str pool
            (parse_attribute nom chars to_str pool fuel)
            a.name_index
            (length a.info))
          a.info
          a.attribute
  unfolding parse_slice
  slice_read fuel a h = record {
    run = λ rest.
        let enough : ltb (length (a.info ++ rest)) (length a.info) ≡ false =
          ground (arith, length-append a.info rest) in
        rw (enough, take-append a.info rest, drop-append a.info rest, h.stands);
  }

  raw_read :
      (fuel : ℕ) (a : Inner)
      → IsInner fuel a
      → Reads
          (parse_attribute_raw nom chars to_str pool (parse_attribute nom chars to_str pool fuel))
          (encode_inner a)
          a.attribute
  unfolding parse_attribute_raw
  raw_read fuel a h =
      chain _ (u2_read a.name_index h.name_index)
        (chain _ (u4-Reads (length a.info) h.size nom.be_u32-IsBigEndian) (slice_read fuel a h))

  parse_code_attribute-Reads :
      (fuel : ℕ) (c : CodeFile)
      → IsCodeFile fuel c
      → Reads
          (parse_code_attribute nom chars to_str pool (parse_attribute nom chars to_str pool fuel))
          (encode_code c)
          (code_of c)
  unfolding parse_code_attribute parse_attributes
  parse_code_attribute-Reads fuel c h = chain _ (u2_read c.max_stack h.max_stack) (
      chain _ (u2_read c.max_locals h.max_locals) (
        chain _ (u4-Reads (length c.code) h.code_size nom.be_u32-IsBigEndian) (
          chain _ (take-Reads nom c.code) (
            chain _ (u2_read (length c.exception_table) h.table_size) (
              chain _
                (count_map-Reads nom encode_caught _ IsCaught c.exception_table
                  exception_table-Reads h.exception_table)
                (last _ (
                  chain _ (u2_read (length c.attributes) h.attributes_size) (
                    count_map-Reads nom encode_inner _ (IsInner fuel) c.attributes (raw_read fuel)
                      h.attributes))))))))

  -- Where the name of an attribute is the text `Code`, its bytes give back the sizes of the frame, the
  -- code, the exception table with the names of its classes, and the attributes within it.
  pub parse_attribute-encode_code :
      (fuel index : ℕ) (name : Bytes) (c : CodeFile)
      → resolve_runtime_cp_utf8 pool index ≡ ok name
      → to_str name ≡ some (codes "Code")
      → IsCodeFile fuel c
      → parse_attribute nom chars to_str pool (suc fuel) index (encode_code c)
        ≡ parsed [] (code_of c)
  unfolding parse_attribute attribute_of
  parse_attribute-encode_code fuel index name c found text h =
      let read = (parse_code_attribute-Reads fuel c h).run [] in
      rw (found, text, same_refl (codes "Code")) (rw (append-nil (encode_code c)) at read)
