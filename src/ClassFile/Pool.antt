-- ===== src/ClassFile/Pool.antt =====
-- The constant pool of src/class/parser.rs: it is read back, with its fillers.
use rust_jvm.Prelude.{
  ℕ, zero, suc, ◌+◌, ◌-◌, ◌^◌, ◌≤◌, ◌<◌, ◌≡◌, ◌∙◌, ap, arith, Bool, true, false, List, [], ◌∷◌,
  ◌++◌, Bytes, length, length-append, ltb, lt→ltb, ◌==◌, Bool-cases, inl, inr,
}
use mathlib.Core.List.{append_assoc, append-nil}
use rust_jvm.Parsing.{parsed, Parser, Nom}
use rust_jvm.Parsing.Reads.{
  Reads, chain, last, u1, u2, concat_map, u1-Reads, u2-Reads, u4-Reads, u8-Reads, take-Reads,
}
use rust_jvm.ClassFile.{
  ConstantPoolInfo, utf8, integer, float, long, double, class, string, fieldref, methodref,
  interface_methodref, name_and_type, method_handle, method_type, dynamic, invoke_dynamic,
  module_info, package_info, empty, need_empty, one, two, parse_constant_info, parse_constant,
  push_constant, constant_pool_loop, parse_constant_pool,
}
use rust_jvm.ClassFile.Encode.{encode_constant, IsU16, IsConstant, IsPoolFrom, IsPool, encode_pool}

module _ (nom : Nom) where
  u2_read : (v : ℕ) → IsU16 v → Reads nom.be_u16 (u2 v) v
  u2_read v h = u2-Reads v h nom.be_u16-IsBigEndian

  one_read :
      (make : ℕ → ConstantPoolInfo) (v : ℕ)
      → IsU16 v
      → Reads (one nom make nom.be_u16) (u2 v) (make v)
  unfolding one
  one_read make v h = last make (u2_read v h)

  one_number :
      {p : Parser ℕ} {w : Bytes} {v : ℕ} (make : ℕ → ConstantPoolInfo)
      → Reads p w v
      → Reads (one nom make p) w (make v)
  unfolding one
  one_number make reads = last make reads

  two_read :
      (make : ℕ → ℕ → ConstantPoolInfo) (a b : ℕ)
      → IsU16 a
      → IsU16 b
      → Reads (two nom make) (u2 a ++ u2 b) (make a b)
  unfolding two
  two_read make a b ha hb = chain _ (u2_read a ha) (last (make a) (u2_read b hb))

  tagged :
      {w : Bytes} {c : ConstantPoolInfo} (tag : ℕ)
      → tag < 2 ^ 8
      → Reads (parse_constant_info nom tag) w c
      → Reads (parse_constant nom) (u1 tag ++ w) c
  unfolding parse_constant
  tagged tag h reads = chain _ (u1-Reads tag h nom.u8-IsBigEndian) reads

  pub parse_constant-Reads :
      (c : ConstantPoolInfo) → IsConstant c → Reads (parse_constant nom) (encode_constant c) c
  unfolding parse_constant_info
  parse_constant-Reads (utf8 bytes) h =
      tagged 1 (omega arith) (chain _ (u2_read (length bytes) h) (last utf8 (take-Reads nom bytes)))
  parse_constant-Reads (integer v) h =
      tagged 3 (omega arith) (one_number integer (u4-Reads v h nom.be_i32-IsBigEndian))
  parse_constant-Reads (float v) h =
      tagged 4 (omega arith) (one_number float (u4-Reads v h nom.be_f32-IsBigEndian))
  parse_constant-Reads (long v) h =
      tagged 5 (omega arith) (one_number long (u8-Reads v h nom.be_i64-IsBigEndian))
  parse_constant-Reads (double v) h =
      tagged 6 (omega arith) (one_number double (u8-Reads v h nom.be_f64-IsBigEndian))
  parse_constant-Reads (class a) h = tagged 7 (omega arith) (one_read class a h)
  parse_constant-Reads (string a) h = tagged 8 (omega arith) (one_read string a h)
  parse_constant-Reads (fieldref a b) (h, k) = tagged 9 (omega arith) (two_read fieldref a b h k)
  parse_constant-Reads (methodref a b) (h, k) = tagged 10 (omega arith) (two_read methodref a b h k)
  parse_constant-Reads (interface_methodref a b) (h, k) =
      tagged 11 (omega arith) (two_read interface_methodref a b h k)
  parse_constant-Reads (name_and_type a b) (h, k) =
      tagged 12 (omega arith) (two_read name_and_type a b h k)
  parse_constant-Reads (method_handle a b) (h, k) =
      tagged 15 (omega arith)
        (chain _ (u1-Reads a h nom.u8-IsBigEndian) (last (method_handle a) (u2_read b k)))
  parse_constant-Reads (method_type a) h = tagged 16 (omega arith) (one_read method_type a h)
  parse_constant-Reads (dynamic a b) (h, k) = tagged 17 (omega arith) (two_read dynamic a b h k)
  parse_constant-Reads (invoke_dynamic a b) (h, k) =
      tagged 18 (omega arith) (two_read invoke_dynamic a b h k)
  parse_constant-Reads (module_info a) h = tagged 19 (omega arith) (one_read module_info a h)
  parse_constant-Reads (package_info a) h = tagged 20 (omega arith) (one_read package_info a h)
  parse_constant-Reads empty h = absurd h

  -- A round of the loop for a constant that is there.
  loop_step :
      (fuel limit : ℕ) (pool : List ConstantPoolInfo) (c : ConstantPoolInfo) (input : Bytes)
      → length pool < limit
      → IsConstant c
      → constant_pool_loop nom (suc fuel) limit pool (encode_constant c ++ input)
        ≡ constant_pool_loop nom fuel limit (push_constant pool c) input
  unfolding constant_pool_loop
  loop_step fuel limit pool c input lt h = rw (lt→ltb _ _ lt, (parse_constant-Reads c h).run input)

  -- What stands behind a constant that takes two indices.
  abbrev filler : Bool → List ConstantPoolInfo
  filler true = empty ∷ []
  filler false = []

  push_filler :
      (pool : List ConstantPoolInfo) (c : ConstantPoolInfo)
      → push_constant pool c ≡ (pool ++ c ∷ []) ++ filler (need_empty c)
  unfolding push_constant
  push_filler pool c = elim (Bool-cases (need_empty c)) [
    | inl wide ↦ rw (wide, append_assoc pool (c ∷ []) (empty ∷ []))
    | inr narrow ↦ rw (narrow, append-nil (pool ++ c ∷ []))
  ]

  loop_ends :
      (fuel limit : ℕ) (pool : List ConstantPoolInfo) (input : Bytes)
      → limit ≤ length pool
      → constant_pool_loop nom (suc fuel) limit pool input ≡ parsed input pool
  unfolding constant_pool_loop
  loop_ends fuel limit pool input le =
      let done : ltb (length pool) limit ≡ false = ground arith in rw done

  loop_reads :
      (wide : Bool) (fuel limit : ℕ) (pool cs : List ConstantPoolInfo) (rest : Bytes)
      → IsPoolFrom wide cs
      → length cs < fuel
      → limit ≡ length pool + length cs
      → constant_pool_loop nom fuel limit
          (pool ++ filler wide)
          (concat_map encode_constant cs ++ rest)
        ≡ parsed rest (pool ++ cs)
  loop_reads wide zero limit pool cs rest h lt e = absurd (omega arith)
  loop_reads true (suc fuel) limit pool [] rest h lt e = absurd h
  loop_reads true (suc fuel) limit pool (c ∷ cs) rest (filled, h) lt e =
      let size = length-append pool (empty ∷ []) in
      let later =
        loop_reads false (suc fuel) limit (pool ++ empty ∷ []) cs rest h (omega arith)
          (omega (arith, e, size)) in
      rw filled (
        rw (append-nil (pool ++ empty ∷ [])) at later
        ∙ ap (parsed rest) (append_assoc pool (empty ∷ []) cs))
  loop_reads false (suc fuel) limit pool [] rest h lt e =
      rw (append-nil pool) (loop_ends fuel limit pool rest (omega (arith, e)))
  loop_reads false (suc fuel) limit pool (c ∷ cs) rest (hc, h) lt e =
      let size = length-append pool (c ∷ []) in
      rw (append-nil pool, append_assoc (encode_constant c) (concat_map encode_constant cs) rest)
        (loop_step fuel limit pool c (concat_map encode_constant cs ++ rest) (omega (arith, e)) hc
          ∙ ap (λ p. constant_pool_loop nom fuel limit p (concat_map encode_constant cs ++ rest))
              (push_filler pool c)
          ∙ loop_reads (need_empty c) fuel limit (pool ++ c ∷ []) cs rest h (omega arith)
              (omega (arith, e, size))
          ∙ ap (parsed rest) (append_assoc pool (c ∷ []) cs))

  pub parse_constant_pool-Reads :
      (cs : List ConstantPoolInfo)
      → IsPool cs
      → IsU16 (suc (length cs))
      → Reads (parse_constant_pool nom) (encode_pool cs) cs
  unfolding parse_constant_pool
  parse_constant_pool-Reads cs h size = chain _ (u2_read (suc (length cs)) size) (record {
    run = λ rest.
        let counted : (suc (length cs) == 0) ≡ false = ground arith in
        let limit : suc (length cs) - 1 ≡ length cs = omega arith in
        rw (counted, limit)
          (loop_reads false (suc (suc (length cs))) (length cs) [] cs rest h (omega arith)
            (omega arith));
  })
