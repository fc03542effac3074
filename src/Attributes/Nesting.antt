-- ===== src/Attributes/Nesting.antt =====
-- `parse_attribute` of src/runtime/class_loader.rs with the code attribute, which nests it: it nests no
-- deeper than its input is long.
use rust_jvm.Prelude.{
  Option, ℕ, zero, suc, ◌≤◌, ◌<◌, ◌≢◌, arith, Bytes, length, take, drop, length-take, length-drop,
  ltb, Bool-cases, inl, inr,
}
use rust_jvm.Prelude.Equality.{same, nat_eq, list_eq}
use rust_jvm.Descriptor.{Text}
use rust_jvm.Descriptor.Nom
use rust_jvm.Parsing.{Parsed, parsed, failed, panicked, Parser, and_then, ◌>>=◌, pure, error}
use rust_jvm.Parsing
use rust_jvm.Parsing.Fits.{
  Leaves, Fits, chain, pure-Fits, choose, number-Fits, take-Fits, count-Fits,
}
use rust_jvm.Attributes.Data.{AttributeInfo}
use rust_jvm.Attributes.Resolve.{Pool}
use rust_jvm.Attributes.{
  utf8_attribute, codes, parse_annotation, parse_bootstrap_method, parse_line_number,
  parse_requires, parse_exports, parse_opens, parse_provides, parse_module, parse_slice,
  parse_attribute_raw, parse_attributes, parse_code_attribute, attribute_of, parse_attribute,
}
use rust_jvm.Attributes.Finite.{
  unwrap-Finite, resolve_each-Finite, package-Finite, module-Finite, handle-Finite, constant-Finite,
}
use rust_jvm.Attributes.Fuel.{
  lift-Fits, number, utf8, many, exception_table-Fits, local_variable-Fits, annotation-Fits,
  element_value-Fits,
}

module _ (nom : Parsing.Nom) (chars : Nom.Nom) (to_str : Bytes → Option Text) (pool : Pool) where
  abbrev P : Type 0
  P = ℕ → Parser AttributeInfo

  slice-Fits :
      {n : ℕ} (p : P) (name size : ℕ)
      → ((m : ℕ) → m ≤ n → Fits m (p name))
      → Fits n (parse_slice nom chars to_str pool p name size)
  unfolding parse_slice
  slice-Fits {n} p name size h = record {
    fits = λ input le. elim (Bool-cases (ltb (length input) size)) [
      | inl e ↦ rw e tt
      | inr e ↦ rw e (
          let shorter : length (take size input) ≤ n = omega (arith, le, length-take size input) in
          behind (p name (take size input)) (drop size input)
            ((h n (omega arith)).fits (take size input) shorter)
            (omega (arith, le, length-drop size input)))
    ];
  }
    where
      behind :
          {n : ℕ} (o : Parsed AttributeInfo) (left : Bytes)
          → Leaves (λ k. k ≤ n) o
          → length left ≤ n
          → Leaves (λ k. k ≤ n) (and_then o (λ a rest. parsed left a))
      behind (parsed rest a) left h le = le
      behind failed left h le = tt
      behind panicked left h le = tt
      behind Parsing.out_of_fuel left h le = h

  raw-Fits :
      {n : ℕ} (p : P)
      → ((m : ℕ) (name : ℕ) → m ≤ n → Fits m (p name))
      → Fits n (parse_attribute_raw nom chars to_str pool p)
  unfolding parse_attribute_raw
  raw-Fits p h = chain (number nom chars to_str pool) (λ name k lk.
      chain (number-Fits nom.be_u32-IsBigEndian)
        (λ size m lm. slice-Fits p name size (λ j lj. h j name (omega arith))))

  attributes-Fits :
      {n : ℕ} (p : P)
      → ((m : ℕ) (name : ℕ) → m < n → Fits m (p name))
      → Fits n (parse_attributes nom chars to_str pool p)
  unfolding parse_attributes
  attributes-Fits p h =
      many nom chars to_str pool (λ m lt. raw-Fits p (λ j name lj. h j name (omega arith)))

  code-Fits :
      {n : ℕ} (p : P)
      → ((m : ℕ) (name : ℕ) → m < n → Fits m (p name))
      → Fits n (parse_code_attribute nom chars to_str pool p)
  unfolding parse_code_attribute
  code-Fits p h = chain (number nom chars to_str pool) (λ a k1 l1.
      chain (number nom chars to_str pool) (λ b k2 l2.
        chain (number-Fits nom.be_u32-IsBigEndian) (λ c k3 l3.
          chain (take-Fits nom c) (λ code k4 l4. chain (number nom chars to_str pool) (λ d k5 l5.
            chain (count-Fits nom d k5 (λ j lj. exception_table-Fits nom chars to_str pool))
              (λ table k6 l6.
                chain (attributes-Fits p (λ m name lt. h m name (omega arith)))
                  (λ xs _ _. pure-Fits _)))))))

  numbers : {n : ℕ} (k : ℕ) → Fits n (nom.count ℕ nom.be_u16 k)
  numbers k = count-Fits nom k _ (λ j lj. number nom chars to_str pool)

  module-Fits : {n : ℕ} → Fits n (parse_module nom chars to_str pool)
  unfolding parse_module parse_requires parse_exports parse_opens parse_provides
  module-Fits = chain num (λ _ _ _. chain num (λ _ _ _. chain num (λ _ _ _. chain num (λ r _ _.
      chain
        (count-Fits nom r _
          (λ j lj. chain num (λ _ _ _. chain num (λ _ _ _. chain num (λ _ _ _. pure-Fits tt)))))
        (λ _ _ _. chain num (λ e _ _.
          chain
            (count-Fits nom e _ (λ j lj. chain num (λ i _ _. chain num (λ f _ _. chain num (λ k _ _.
              chain (numbers k) (λ is _ _. chain (lift-Fits _ (package-Finite pool i)) (λ x _ _.
                chain (lift-Fits _ (resolve_each-Finite _ is (module-Finite pool)))
                  (λ xs _ _. pure-Fits _))))))))
            (λ exports _ _. chain num (λ o _ _.
              chain
                (count-Fits nom o _ (λ j lj. chain num (λ _ _ _.
                  chain num
                    (λ _ _ _. chain num (λ k _ _. chain (numbers k) (λ is _ _. pure-Fits tt))))))
                (λ _ _ _. chain num (λ u _ _. chain (numbers u) (λ _ _ _. chain num (λ p _ _.
                  chain
                    (count-Fits nom p _ (λ j lj.
                      chain num
                        (λ _ _ _. chain num (λ k _ _. chain (numbers k) (λ is _ _. pure-Fits tt)))))
                    (λ _ _ _. pure-Fits _)))))))))))))
    where
      num : {n : ℕ} → Fits n nom.be_u16
      num = number nom chars to_str pool

  bootstrap_method-Fits : {n : ℕ} → Fits n (parse_bootstrap_method nom chars to_str pool)
  unfolding parse_bootstrap_method
  bootstrap_method-Fits = chain (number nom chars to_str pool) (λ h _ _.
      chain (number nom chars to_str pool) (λ k _ _.
        chain (numbers k)
          (λ xs _ _. chain (lift-Fits _ (handle-Finite pool h)) (λ handle _ _. pure-Fits _))))

  line_number-Fits : {n : ℕ} → Fits n (parse_line_number nom chars to_str pool)
  unfolding parse_line_number
  line_number-Fits =
      chain (number nom chars to_str pool)
        (λ a _ _. chain (number nom chars to_str pool) (λ b _ _. pure-Fits _))

  utf8_attribute-Fits :
      {n : ℕ} (make : Bytes → AttributeInfo) → Fits n (utf8_attribute nom chars to_str pool make)
  utf8_attribute-Fits make =
      chain (number nom chars to_str pool)
        (λ i _ _. chain (utf8 nom chars to_str pool i) (λ s _ _. pure-Fits (make s)))

  attribute_of-Fits :
      (fuel n : ℕ) (p : P) (name : Bytes) (text : Text)
      → n ≤ fuel
      → ((m : ℕ) (index : ℕ) → m < n → Fits m (p index))
      → Fits n (attribute_of nom chars to_str pool fuel p name text)
  unfolding attribute_of parse_annotation
  attribute_of-Fits fuel n p name text le h = choose (same text (codes "Code")) (code-Fits p h) (
      choose (same text (codes "ConstantValue"))
        (chain (number nom chars to_str pool)
          (λ i _ _. chain (lift-Fits _ (constant-Finite pool i)) (λ c _ _. pure-Fits _)))
        (choose (same text (codes "RuntimeVisibleAnnotations"))
          (chain
            (many nom chars to_str pool (λ m lt.
              annotation-Fits nom chars to_str pool
                (λ k lk. element_value-Fits nom chars to_str pool fuel k (omega arith))))
            (λ xs _ _. pure-Fits _))
          (choose (same text (codes "LocalVariableTable"))
            (chain (many nom chars to_str pool (λ m lt. local_variable-Fits nom chars to_str pool))
              (λ xs _ _. pure-Fits _))
            (choose (same text (codes "Signature")) (utf8_attribute-Fits _) (
              choose (same text (codes "Deprecated")) (pure-Fits _) (
                choose (same text (codes "StackMapTable")) (pure-Fits _) (
                  choose (same text (codes "Exceptions")) (pure-Fits _) (
                    choose (same text (codes "SourceFile")) (utf8_attribute-Fits _) (
                      choose (same text (codes "BootstrapMethods"))
                        (chain (many nom chars to_str pool (λ m lt. bootstrap_method-Fits))
                          (λ xs _ _. pure-Fits _))
                        (choose (same text (codes "LineNumberTable"))
                          (chain (many nom chars to_str pool (λ m lt. line_number-Fits))
                            (λ xs _ _. pure-Fits _))
                          (choose (same text (codes "Module")) module-Fits (
                            choose (same text (codes "ModulePackages"))
                              (chain
                                (many nom chars to_str pool (λ m lt. number nom chars to_str pool))
                                (λ is _ _.
                                  chain
                                    (lift-Fits _ (resolve_each-Finite _ is (package-Finite pool)))
                                    (λ xs _ _. pure-Fits _)))
                              (choose (same text (codes "ModuleHashes")) (pure-Fits _) (
                                choose (same text (codes "ModuleTarget")) (utf8_attribute-Fits _) (
                                  choose (same text (codes "InnerClasses")) (pure-Fits _)
                                    (pure-Fits _))))))))))))))))

  parse_attribute-Fits :
      (fuel n index : ℕ) → n < fuel → Fits n (parse_attribute nom chars to_str pool fuel index)
  unfolding parse_attribute
  parse_attribute-Fits zero n index h = elim h [ ]
  parse_attribute-Fits (suc fuel) n index h = record {
    fits = λ input le.
        (chain (utf8 nom chars to_str pool index) (λ name k lk.
            chain (lift-Fits _ (unwrap-Finite (to_str name))) (λ text l ll.
              attribute_of-Fits fuel l _ name text (omega arith)
                (λ m i lt. parse_attribute-Fits fuel m i (omega arith))))).fits
          input le;
  }

  -- With more fuel than the input has bytes, `parse_attribute` ends by itself, however attributes,
  -- annotations and element values nest.
  pub parse_attribute_terminates :
      (fuel index : ℕ) (input : Bytes)
      → length input < fuel
      → parse_attribute nom chars to_str pool fuel index input ≢ Parsing.out_of_fuel
  parse_attribute_terminates fuel index input h stuck =
      rw stuck at ((parse_attribute-Fits fuel (length input) index h).fits input (omega arith))
