-- ===== src/Attributes/Fuel.antt =====
-- The parsers of attributes in src/runtime/class_loader.rs nest no deeper than their input is long.
use rust_jvm.Prelude.{Option, ℕ, zero, suc, ◌≤◌, ◌<◌, arith, none, some, Bytes, ◌==◌}
use rust_jvm.Prelude.Outcome.{Outcome, ok, panic, out_of_fuel}
use rust_jvm.Prelude.Equality.{nat_eq, list_eq}
use rust_jvm.Descriptor.{Text}
use rust_jvm.Descriptor.Nom
use rust_jvm.Parsing.{Parsed, parsed, failed, panicked, Parser, and_then, ◌>>=◌, pure, error}
use rust_jvm.Parsing
use rust_jvm.Parsing.Fits.{
  Fits, Eats, chain, chain_eats, pure-Fits, error-Fits, choose, number-Eats, number-Fits,
  count-Fits,
}
use rust_jvm.Attributes.Data.{
  Const, into_byte, into_char, into_short, into_boolean, ElementValue, Annotation,
}
use rust_jvm.Attributes.Resolve.{Pool, resolve_runtime_cp_utf8}
use rust_jvm.Attributes.{
  lift, parse_exception_table, parse_constant_value, parse_local_variable, parse_element_value_pair,
  parse_annotation_by, element_value_of, parse_element_value, plain_constant,
}
use rust_jvm.Attributes.Finite.{
  Finite, into-Finite, utf8-Finite, class-Finite, constant-Finite, field_descriptor-Finite,
  return_type-Finite,
}

pub lift-Fits : {n : ℕ} {A : Type 0} (o : Outcome A) → Finite o → Fits n (lift o)
lift-Fits (ok a) h = record { fits = λ input le. le }
lift-Fits panic h = record { fits = λ input le. tt }
lift-Fits out_of_fuel h = absurd h

module _ (nom : Parsing.Nom) (chars : Nom.Nom) (to_str : Bytes → Option Text) (pool : Pool) where
  module _ {n : ℕ} where
    pub number : Fits n nom.be_u16
    number = number-Fits nom.be_u16-IsBigEndian

    eaten : Eats n nom.be_u16
    eaten = number-Eats (omega arith) nom.be_u16-IsBigEndian

    pub utf8 : (index : ℕ) → Fits n (lift (resolve_runtime_cp_utf8 pool index))
    utf8 index = lift-Fits _ (utf8-Finite pool index)

  pub many :
      {n : ℕ} {A : Type 0} {p : Parser A}
      → ((m : ℕ) → m < n → Fits m p)
      → Fits n (nom.be_u16 >>= λ k. nom.count A p k)
  many h = chain_eats eaten (λ k m lt. count-Fits nom k m (λ j le. h j (omega arith)))

  pub exception_table-Fits : {n : ℕ} → Fits n (parse_exception_table nom chars to_str pool)
  unfolding parse_exception_table
  exception_table-Fits = chain number (λ a _ _. chain number (λ b _ _. chain number (λ c _ _.
      chain number (λ catch_type _ _.
        chain
          (choose (catch_type == 0) (pure-Fits none) (
            chain (lift-Fits _ (class-Finite pool catch_type)) (λ name _ _. pure-Fits (some name))))
          (λ t _ _. pure-Fits _)))))

  constant_value-Fits :
      {n : ℕ} (converter : Const → Outcome Const)
      → ((c : Const) → Finite (converter c))
      → Fits n (parse_constant_value nom chars to_str pool converter)
  unfolding parse_constant_value
  constant_value-Fits converter h =
      chain number
        (λ index _ _. chain (lift-Fits _ (constant-Finite pool index)) (λ c _ _. lift-Fits _ (h c)))

  pub local_variable-Fits : {n : ℕ} → Fits n (parse_local_variable nom chars to_str pool)
  unfolding parse_local_variable
  local_variable-Fits = chain number (λ a _ _. chain number (λ b _ _. chain number (λ c _ _.
      chain number (λ d _ _. chain (utf8 d) (λ bytes _ _.
        chain (lift-Fits _ (field_descriptor-Finite chars to_str bytes))
          (λ t _ _. chain number (λ e _ _. chain (utf8 c) (λ name _ _. pure-Fits _))))))))

  pub annotation-Fits :
      {n : ℕ} {p : Parser ElementValue}
      → ((m : ℕ) → m ≤ n → Fits m p)
      → Fits n (parse_annotation_by nom chars to_str pool p)
  unfolding parse_annotation_by parse_element_value_pair
  annotation-Fits h = chain number (λ a k lk. chain (utf8 a) (λ type_str l ll.
      chain number (λ c m lm.
        chain
          (count-Fits nom c m (λ j lj. chain number (λ e i li.
            chain (utf8 e)
              (λ name r lr. chain (h r (omega arith)) (λ v _ _. pure-Fits (name, v))))))
          (λ pairs _ _.
            chain (lift-Fits _ (field_descriptor-Finite chars to_str type_str))
              (λ t _ _. pure-Fits _)))))

  element-Fits :
      {n : ℕ} (a : Parser Annotation) (p : Parser ElementValue) (tag : ℕ)
      → Fits n a
      → ((m : ℕ) → m ≤ n → Fits m p)
      → Fits n (element_value_of nom chars to_str pool a p tag)
  unfolding element_value_of
  element-Fits a p tag fa fp = choose (tag == b'B') (constant into_byte (λ c. (into-Finite c).0)) (
      choose (tag == b'C') (constant into_char (λ c. (into-Finite c).1)) (
        choose (tag == b'S') (constant into_short (λ c. (into-Finite c).2)) (
          choose (tag == b'Z') (constant into_boolean (λ c. (into-Finite c).3)) (
            choose (plain_constant nom chars to_str pool tag) (constant ok (λ c. tt)) (
              choose (tag == b'e')
                (chain number (λ i _ _.
                  chain number
                    (λ j _ _. chain (utf8 i) (λ x _ _. chain (utf8 j) (λ y _ _. pure-Fits _)))))
                (choose (tag == b'c')
                  (chain number (λ i _ _. chain (utf8 i) (λ x _ _.
                    chain (lift-Fits _ (return_type-Finite chars to_str x))
                      (λ y _ _. pure-Fits _))))
                  (choose (tag == b'@') (chain fa (λ x _ _. pure-Fits _)) (
                    choose (tag == b'[')
                      (chain number (λ k m le.
                        chain (count-Fits nom k m (λ j lj. fp j (omega arith)))
                          (λ vs _ _. pure-Fits _)))
                      error-Fits))))))))
    where
      constant :
          {n : ℕ} (f : Const → Outcome Const)
          → ((c : Const) → Finite (f c))
          → Fits n (
              parse_constant_value nom chars to_str pool f >>= λ c.
              pure (ElementValue.const_value c))
      constant f h = chain (constant_value-Fits f h) (λ c _ _. pure-Fits _)

  pub element_value-Fits :
      (fuel n : ℕ) → n < fuel → Fits n (parse_element_value nom chars to_str pool fuel)
  unfolding parse_element_value
  element_value-Fits zero n h = elim h [ ]
  element_value-Fits (suc fuel) n h = record {
    fits = λ input le.
        (chain_eats (number-Eats (omega arith) nom.u8-IsBigEndian) (λ tag m lt.
            element-Fits _ _ tag (annotation-Fits (λ k lk. element_value-Fits fuel k (omega arith)))
              (λ k lk. element_value-Fits fuel k (omega arith)))).fits
          input le;
  }
