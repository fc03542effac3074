-- ===== src/Attributes/Finite.antt =====
-- The functions of src/runtime/class_loader.rs that read the pool have no loop on fuel.
use rust_jvm.Prelude.{
  ℕ, ◌-◌, Option, none, some, List, [], ◌∷◌, Bytes, get_elem?, ◌==◌, Bool-cases, inl, inr,
}
use rust_jvm.Prelude.Outcome.{Outcome, ok, panic, out_of_fuel, unwrap}
use rust_jvm.Prelude.Outcome
use rust_jvm.Prelude.Equality.{nat_eq, list_eq}
use rust_jvm.Descriptor.{Text}
use rust_jvm.Descriptor.Nom
use rust_jvm.Descriptor.Parser.{parse_field_descriptor, parse_return_type_descriptor}
use rust_jvm.Constants.{ConstantPoolInfo, entry, field_descriptor}
use rust_jvm.Attributes.Data.{Const, into_byte, into_char, into_short, into_boolean}
use rust_jvm.Attributes.Resolve.{
  Pool, as_utf8, as_package, as_module, as_class, as_handle, as_constant, resolve_runtime_cp_utf8,
  resolve_cp_package, resolve_cp_module, resolve_cp_class, resolve_runtime_cp_method_handle,
  resolve_constant_value, resolve_each, return_type,
}

-- A call with no loop on fuel.
abbrev pub Finite : {A : Type 0} → Outcome A → Type 0
Finite (ok a) = Unit
Finite panic = Unit
Finite out_of_fuel = ⊥

pub bind-Finite :
    {A B : Type 0} (o : Outcome A) (f : A → Outcome B)
    → Finite o
    → ((a : A) → Finite (f a))
    → Finite (Outcome.◌>>=◌ o f)
bind-Finite (ok a) f h next = next a
bind-Finite panic f h next = tt
bind-Finite out_of_fuel f h next = h

pub unwrap-Finite : {A : Type 0} (o : Option A) → Finite (unwrap o)
unwrap-Finite none = tt
unwrap-Finite (some a) = tt

entry-Finite : {A : Type 0} (pool : List A) (index : ℕ) → Finite (entry pool index)
unfolding entry
entry-Finite pool index = elim (Bool-cases (index == 0)) [
  | inl e ↦ rw e tt
  | inr e ↦ rw e (unwrap-Finite (get_elem? pool (index - 1)))
]

as-Finite :
    (c : ConstantPoolInfo)
    → Finite (as_utf8 c)
      × Finite (as_package c)
      × Finite (as_module c)
      × Finite (as_class c)
      × Finite (as_handle c)
      × Finite (as_constant c)
unfolding as_utf8 as_package as_module as_class as_handle as_constant
as-Finite (ConstantPoolInfo.utf8 _) = (tt, tt, tt, tt, tt, tt)
as-Finite _ = (tt, tt, tt, tt, tt, tt)

pub into-Finite :
    (c : Const)
    → Finite (into_byte c) × Finite (into_char c) × Finite (into_short c) × Finite (into_boolean c)
unfolding into_byte into_char into_short into_boolean
into-Finite (Const.int _) = (tt, tt, tt, tt)
into-Finite _ = (tt, tt, tt, tt)

pub resolve_each-Finite :
    (f : ℕ → Outcome Bytes) (is : List ℕ) → ((i : ℕ) → Finite (f i)) → Finite (resolve_each f is)
unfolding resolve_each
resolve_each-Finite f [] h = tt
resolve_each-Finite f (i ∷ is) h =
    bind-Finite (f i) _ (h i)
      (λ s. bind-Finite (resolve_each f is) _ (resolve_each-Finite f is h) (λ rest. tt))

module _ (pool : Pool) (index : ℕ) where
  pub utf8-Finite : Finite (resolve_runtime_cp_utf8 pool index)
  unfolding resolve_runtime_cp_utf8
  utf8-Finite =
      bind-Finite (entry pool index) as_utf8 (entry-Finite pool index) (λ c. (as-Finite c).0)

  pub package-Finite : Finite (resolve_cp_package pool index)
  unfolding resolve_cp_package
  package-Finite =
      bind-Finite (entry pool index) as_package (entry-Finite pool index) (λ c. (as-Finite c).1)

  pub module-Finite : Finite (resolve_cp_module pool index)
  unfolding resolve_cp_module
  module-Finite =
      bind-Finite (entry pool index) as_module (entry-Finite pool index) (λ c. (as-Finite c).2)

  pub class-Finite : Finite (resolve_cp_class pool index)
  unfolding resolve_cp_class
  class-Finite =
      bind-Finite (entry pool index) as_class (entry-Finite pool index) (λ c. (as-Finite c).3)

  pub handle-Finite : Finite (resolve_runtime_cp_method_handle pool index)
  unfolding resolve_runtime_cp_method_handle
  handle-Finite =
      bind-Finite (entry pool index) as_handle (entry-Finite pool index) (λ c. (as-Finite c).4)

  pub constant-Finite : Finite (resolve_constant_value pool index)
  unfolding resolve_constant_value
  constant-Finite =
      bind-Finite (entry pool index) as_constant (entry-Finite pool index) (λ c. (as-Finite c).5)

module _ (chars : Nom.Nom) (to_str : Bytes → Option Text) (bytes : Bytes) where
  pub field_descriptor-Finite : Finite (field_descriptor chars to_str bytes)
  unfolding field_descriptor
  field_descriptor-Finite = bind-Finite (unwrap (to_str bytes)) _ (unwrap-Finite _) (λ text.
      bind-Finite (unwrap (parse_field_descriptor chars text)) _ (unwrap-Finite _) (λ p. tt))

  pub return_type-Finite : Finite (return_type chars to_str bytes)
  unfolding return_type
  return_type-Finite = bind-Finite (unwrap (to_str bytes)) _ (unwrap-Finite _) (λ text.
      bind-Finite (unwrap (parse_return_type_descriptor chars text)) _ (unwrap-Finite _) (λ p. tt))
