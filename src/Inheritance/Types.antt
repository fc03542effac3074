-- ===== src/Inheritance/Types.antt =====
-- The equality of the types of fields, of src/class/descriptor.rs.
use rust_jvm.Prelude.{◌≡◌, ◌↔◌, refl, ap, true}
use rust_jvm.Prelude.Equality.{nat_eq, list_eq, list_same_iff, same_refl}
use rust_jvm.Descriptor.{
  FieldType, byte, char, double, float, int, long, short, boolean, object, array,
}
use rust_jvm.Inheritance.{same_type}

pub same_type-eq : (t u : FieldType) → same_type t u ≡ true → t ≡ u
unfolding same_type
same_type-eq byte byte h = refl
same_type-eq char char h = refl
same_type-eq double double h = refl
same_type-eq float float h = refl
same_type-eq int int h = refl
same_type-eq long long h = refl
same_type-eq short short h = refl
same_type-eq boolean boolean h = refl
same_type-eq (object n) (object m) h = ap (λ x. object x) ((list_same_iff n m).0 h)
same_type-eq (array t) (array u) h = ap (λ x. array x) (same_type-eq t u h)
same_type-eq _ _ h = cc h

pub same_type_refl : (t : FieldType) → same_type t t ≡ true
unfolding same_type
same_type_refl byte = refl
same_type_refl char = refl
same_type_refl double = refl
same_type_refl float = refl
same_type_refl int = refl
same_type_refl long = refl
same_type_refl short = refl
same_type_refl boolean = refl
same_type_refl (object n) = same_refl n
same_type_refl (array t) = same_type_refl t

pub same_type_iff : (t u : FieldType) → (same_type t u ≡ true) ↔ (t ≡ u)
same_type_iff t u = (same_type-eq t u, λ e. rw e (same_type_refl u))
