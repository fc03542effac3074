-- ===== src/ClassFile/Bounds.antt =====
-- What the parsers of src/class/parser.rs end with on any bytes.
use rust_jvm.Prelude.{
  ℕ, zero, suc, ◌+◌, ◌-◌, ◌≤◌, ◌<◌, ◌≡◌, ◌≢◌, arith, List, [], ◌∷◌, ◌++◌, Bytes, length,
  length-append, ltb, ltb→lt, ◌==◌, ==_iff, if◌then◌else◌, Bool-cases, inl, inr,
}
use rust_jvm.Parsing.{out_of_fuel, Parser, ◌>>=◌, abort, big_endian, Nom}
use rust_jvm.Parsing.Ends.{
  EndsWith, Ends, Any, chain, pure-Ends, error-Ends, abort-Ends, choose, number-Ends, take-Ends,
  tag-Ends, eof-Ends, count-Ends, weaken, weaken_panic,
}
use rust_jvm.ClassFile.{
  ConstantPoolInfo, empty, need_empty, one, two, parse_constant_info, parse_constant, push_constant,
  constant_pool_loop, parse_constant_pool, parse_header, parse_interfaces, parse_attribute,
  parse_attributes, parse_field, parse_fields, parse_method, parse_methods, class_file,
  method_handle, utf8,
}

push_constant_size :
    (pool : List ConstantPoolInfo) (c : ConstantPoolInfo)
    → (length pool + 1 ≤ length (push_constant pool c))
      × (length (push_constant pool c) ≤ length pool + 2)
unfolding push_constant
push_constant_size pool c = elim (Bool-cases (need_empty c)) [
  | inl wide ↦ rw wide (omega (arith, length-append pool (c ∷ empty ∷ [])))
  | inr narrow ↦ rw narrow (omega (arith, length-append pool (c ∷ [])))
]

-- As many constants as the count says, or a filler more.
abbrev pub Sized : ℕ → List ConstantPoolInfo → Type 0
Sized limit pool = (limit ≤ length pool) × (length pool ≤ limit + 1)

module _ (nom : Nom) {R : Type 0} where
  number : Ends R nom.be_u16 Any
  number = number-Ends nom.be_u16-IsBigEndian

  two-Ends : (make : ℕ → ℕ → ConstantPoolInfo) → Ends R (two nom make) Any
  unfolding two
  two-Ends make = chain number (λ a _. chain number (λ b _. pure-Ends (make a b) tt))

  one-Ends :
      {p : Parser ℕ} (make : ℕ → ConstantPoolInfo) → Ends R p Any → Ends R (one nom make p) Any
  unfolding one
  one-Ends make h = chain h (λ a _. pure-Ends (make a) tt)

  parse_constant_info-Ends : (tag : ℕ) → Ends R (parse_constant_info nom tag) Any
  unfolding parse_constant_info
  parse_constant_info-Ends tag =
      choose (tag == 1)
        (chain number (λ n _. chain (take-Ends nom n) (λ bytes _. pure-Ends (utf8 bytes) tt)))
        (choose (tag == 3) (one-Ends _ (number-Ends nom.be_i32-IsBigEndian)) (
          choose (tag == 4) (one-Ends _ (number-Ends nom.be_f32-IsBigEndian)) (
            choose (tag == 5) (one-Ends _ (number-Ends nom.be_i64-IsBigEndian)) (
              choose (tag == 6) (one-Ends _ (number-Ends nom.be_f64-IsBigEndian)) (
                choose (tag == 7) (one-Ends _ number) (
                  choose (tag == 8) (one-Ends _ number) (
                    choose (tag == 9) (two-Ends _) (
                      choose (tag == 10) (two-Ends _) (
                        choose (tag == 11) (two-Ends _) (
                          choose (tag == 12) (two-Ends _) (
                            choose (tag == 15)
                              (chain (number-Ends nom.u8-IsBigEndian)
                                (λ k _. chain number (λ i _. pure-Ends (method_handle k i) tt)))
                              (choose (tag == 16) (one-Ends _ number) (
                                choose (tag == 17) (two-Ends _) (
                                  choose (tag == 18) (two-Ends _) (
                                    choose (tag == 19) (one-Ends _ number) (
                                      choose (tag == 20) (one-Ends _ number)
                                        error-Ends))))))))))))))))

  parse_constant-Ends : Ends R (parse_constant nom) Any
  unfolding parse_constant
  parse_constant-Ends =
      chain (number-Ends nom.u8-IsBigEndian) (λ tag _. parse_constant_info-Ends tag)

  loop-Ends :
      (fuel limit : ℕ) (pool : List ConstantPoolInfo)
      → limit + 2 ≤ length pool + fuel
      → length pool ≤ limit + 1
      → Ends R (constant_pool_loop nom fuel limit pool) (Sized limit)
  unfolding constant_pool_loop
  loop-Ends zero limit pool enough high = absurd (omega arith)
  loop-Ends (suc fuel) limit pool enough high = elim (Bool-cases (ltb (length pool) limit)) [
    | inl more ↦ record {
      ends = λ input. rw more (
          (chain parse_constant-Ends (λ c _.
              let (grown, room) = push_constant_size pool c in
              let lt : length pool < limit = ltb→lt (length pool) limit more in
              loop-Ends fuel limit (push_constant pool c) (omega (arith, grown))
                (omega (arith, room, lt)))).ends
            input);
    }
    | inr done ↦ record { ends = λ input. rw done (ground (arith, done), omega (arith, high)) }
  ]

  attribute-Ends : Ends R (parse_attribute nom) Any
  unfolding parse_attribute
  attribute-Ends = chain number (λ name _.
      chain (number-Ends nom.be_u32-IsBigEndian)
        (λ n _. chain (take-Ends nom n) (λ info _. pure-Ends _ tt)))

  list-Ends :
      {A : Type 0} {p : Parser A} → Ends R p Any → Ends R (nom.be_u16 >>= λ n. nom.count A p n) Any
  list-Ends h = chain number (λ n _. weaken (count-Ends nom n h))

  attributes-Ends : Ends R (parse_attributes nom) Any
  unfolding parse_attributes
  attributes-Ends = list-Ends attribute-Ends

  field-Ends : Ends R (parse_field nom) Any
  unfolding parse_field
  field-Ends = chain number (λ a _.
      chain number (λ b _. chain number (λ c _. chain attributes-Ends (λ d _. pure-Ends _ tt))))

  method-Ends : Ends R (parse_method nom) Any
  unfolding parse_method
  method-Ends = chain number (λ a _.
      chain number (λ b _. chain number (λ c _. chain attributes-Ends (λ d _. pure-Ends _ tt))))

  header-Ends : Ends R (parse_header nom) Any
  unfolding parse_header
  header-Ends =
      chain (tag-Ends nom _)
        (λ t _. chain number (λ a _. chain number (λ b _. pure-Ends (a, b) tt)))

module _ (nom : Nom) where
  pool_of :
      (n : ℕ)
      → Ends
          (n ≡ 0)
          (if n == 0 then abort else constant_pool_loop nom (suc n) (n - 1) [])
          (Sized (n - 1))
  pool_of n = elim (Bool-cases (n == 0)) [
    | inl e ↦ rw e (abort-Ends ((==_iff n 0).0 e))
    | inr e ↦ rw e (loop-Ends nom (suc n) (n - 1) [] (ground (arith, e)) (omega arith))
  ]

  -- On any input that starts with the bytes of a count, `parse_constant_pool` returns a pool with as
  -- many constants as the count less one, or one filler more, or fails; it panics only for the count 0.
  pub parse_constant_pool_bounds :
      (count rest : Bytes)
      → length count ≡ 2
      → EndsWith
          (big_endian 0 count ≡ 0)
          (Sized (big_endian 0 count - 1))
          (parse_constant_pool nom (count ++ rest))
  unfolding parse_constant_pool
  parse_constant_pool_bounds count rest size =
      rw (nom.be_u16-IsBigEndian.read count rest size) ((pool_of (big_endian 0 count)).ends rest)

  pool-Ends : Ends Unit (parse_constant_pool nom) Any
  unfolding parse_constant_pool
  pool-Ends = chain (number nom) (λ n _. weaken_panic (pool_of n))

  file-Ends : Ends Unit (class_file nom) Any
  unfolding class_file parse_interfaces parse_fields parse_methods
  file-Ends = chain (header-Ends nom) (λ h _. chain pool-Ends (λ p _. chain (number nom) (λ a _.
      chain (number nom) (λ b _. chain (number nom) (λ c _.
        chain (list-Ends nom (number nom)) (λ i _. chain (list-Ends nom (field-Ends nom)) (λ f _.
          chain (list-Ends nom (method-Ends nom)) (λ m _.
            chain (attributes-Ends nom)
              (λ t _. chain (eof-Ends nom) (λ e _. pure-Ends _ tt))))))))))

  -- On no input does a loop of the parser run out of the fuel that the model gives it.
  pub class_file_terminates : (input : Bytes) → class_file nom input ≢ out_of_fuel
  class_file_terminates input stuck = rw stuck at (file-Ends.ends input)
