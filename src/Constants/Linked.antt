-- ===== src/Constants/Linked.antt =====
-- What the entries of a constant pool refer to, apart from the code of src/runtime/class_loader.rs, and
-- that the functions `resolve_…` find exactly that.
pub mod Entries
use rust_jvm.Prelude.{
  ℕ, zero, suc, ◌+◌, ◌-◌, ◌≤◌, ◌<◌, ◌≡◌, ◌≢◌, ◌↔◌, ◌⊎◌, inl, inr, refl, sym, ◌∙◌, ap, arith, Bool,
  true, false, Option, none, some, List, [], ◌∷◌, Bytes, length, get_elem?, ◌==◌, ==_iff,
  if◌then◌else◌, Bool-cases, Option-cases,
}
use rust_jvm.Prelude.Outcome.{Outcome, ok, panic, out_of_fuel, ◌>>=◌, unwrap, >>=-eq-ok}
use rust_jvm.Descriptor.{Text, FieldType, MethodDescriptor}
use rust_jvm.Descriptor.Nom
use rust_jvm.Descriptor.Parser.{parse_field_descriptor, parse_method_descriptor}
use rust_jvm.ClassFile
use rust_jvm.Constants.{
  NameAndType, Fieldref, Methodref, ReferenceKind, MethodHandle, ConstantPoolInfo, utf8, integer,
  float, long, double, class, string, fieldref, methodref, interface_methodref, name_and_type,
  method_handle, method_type, dynamic, invoke_dynamic, module_info, package_info, empty, entry,
  as_utf8, resolve_cp_utf8, as_name_and_type, reference_kind_of, resolve_cp_name_and_type,
  field_descriptor, method_descriptor, resolve_cp_name_and_type_field,
  resolve_cp_name_and_type_method,
}

-- The entry with the number `index`, where the first one is 1.
abbrev pub At : {A : Type 0} → List A → ℕ → A → Type 0
At pool zero a = ⊥
At pool (suc i) a = get_elem? pool i ≡ some a

abbrev pub Pool : Type 0
Pool = List ClassFile.ConstantPoolInfo

abbrev pub Utf8At : Pool → ℕ → Bytes → Type 0
Utf8At cp index bytes = At cp index (ClassFile.utf8 bytes)

-- What a chain of two calls returns.
pub bind_iff :
    {A B : Type 0} {m : Outcome A} {b : B} {P Q : A → Type 0} (f : A → Outcome B)
    → ((a : A) → (m ≡ ok a) ↔ P a)
    → ((a : A) → (f a ≡ ok b) ↔ Q a)
    → ((m >>= f) ≡ ok b) ↔ ((a : A) × P a × Q a)
bind_iff {m = m} f first next = (
  λ h. let (a, e, k) = >>=-eq-ok m f h in (a, (first a).0 e, (next a).0 k),
  λ h. let (a, p, q) = h in rw ((first a).1 p) ((next a).1 q),
)

pub ok_iff : {A : Type 0} (a b : A) → (◌≡◌ {A = Outcome A} (ok a) (ok b)) ↔ (b ≡ a)
ok_iff a b = (λ h. cc h, λ h. ap ok (sym h))

pub unwrap_iff : {A : Type 0} (o : Option A) (a : A) → (unwrap o ≡ ok a) ↔ (o ≡ some a)
unwrap_iff none a = (λ h. cc h, λ h. cc h)
unwrap_iff (some b) a = (λ h. cc h, λ h. cc h)

pub entry_iff :
    {A : Type 0} (pool : List A) (index : ℕ) (a : A) → (entry pool index ≡ ok a) ↔ At pool index a
unfolding entry
entry_iff pool zero a = (λ h. cc h, λ h. absurd h)
entry_iff pool (suc i) a =
    let counted : (suc i == 0) ≡ false = ground arith in
    let back : suc i - 1 ≡ i = omega arith in rw (counted, back) (unwrap_iff (get_elem? pool i) a)

as_utf8_iff :
    (c : ClassFile.ConstantPoolInfo) (bytes : Bytes)
    → (as_utf8 c ≡ ok bytes) ↔ (c ≡ ClassFile.utf8 bytes)
unfolding as_utf8
as_utf8_iff (ClassFile.utf8 b) bytes = (λ h. cc h, λ h. cc h)
as_utf8_iff _ bytes = (λ h. cc h, λ h. cc h)

-- An entry that is looked at by a partial function.
entry_as :
    {A B : Type 0} {f : A → Outcome B} (make : B → A) (pool : List A) (index : ℕ) (b : B)
    → ((c : A) → (f c ≡ ok b) ↔ (c ≡ make b))
    → ((entry pool index >>= f) ≡ ok b) ↔ At pool index (make b)
entry_as {f = f} make pool index b reads = (
  λ h.
      let (c, found, shape) = >>=-eq-ok (entry pool index) f h in
      (entry_iff pool index (make b)).0 (found ∙ ap ok ((reads c).0 shape)),
  λ h. rw ((entry_iff pool index (make b)).1 h) ((reads (make b)).1 refl),
)

pub resolve_cp_utf8_iff :
    (cp : Pool) (index : ℕ) (bytes : Bytes)
    → (resolve_cp_utf8 cp index ≡ ok bytes) ↔ Utf8At cp index bytes
unfolding resolve_cp_utf8
resolve_cp_utf8_iff cp index bytes =
    entry_as ClassFile.utf8 cp index bytes (λ c. as_utf8_iff c bytes)

pub as_name_and_type_iff :
    (c : ClassFile.ConstantPoolInfo) (p : ℕ × ℕ)
    → (as_name_and_type c ≡ ok p) ↔ (c ≡ ClassFile.name_and_type p.0 p.1)
unfolding as_name_and_type
as_name_and_type_iff (ClassFile.name_and_type a b) (x, y) = (λ h. cc h, λ h. cc h)
as_name_and_type_iff _ (x, y) = (λ h. cc h, λ h. cc h)

-- The texts that an entry for a name and a type refers to.
abbrev pub NameAndTypeAt : Pool → ℕ → ℕ → NameAndType Bytes → Type 0
NameAndTypeAt cp a b r =
    (name : Bytes) × Utf8At cp a name
    × ((d : Bytes) × Utf8At cp b d × (r ≡ record { name = name; descriptor = d }))

pub resolve_cp_name_and_type_iff :
    (cp : Pool) (a b : ℕ) (r : NameAndType Bytes)
    → (resolve_cp_name_and_type cp a b ≡ ok r) ↔ NameAndTypeAt cp a b r
unfolding resolve_cp_name_and_type
resolve_cp_name_and_type_iff cp a b r = bind_iff _ (resolve_cp_utf8_iff cp a) (λ name.
    bind_iff _ (resolve_cp_utf8_iff cp b) (λ d. ok_iff (record { name = name; descriptor = d }) r))
