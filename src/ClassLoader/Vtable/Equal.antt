-- ===== src/ClassLoader/Vtable/Equal.antt =====
-- The equality of descriptors, which keys of the maps in src/runtime/class_loader/bootstrap.rs compare.
use rust_jvm.Prelude.{◌≡◌, ◌↔◌, refl, ap, Bool, true, false, ◌&&◌, none, some}
use mathlib.Core.Bool.{and-eq-true_iff}
use rust_jvm.Prelude.Equality.{Eq, nat_eq, list_eq, list_same, list_same_iff}
use rust_jvm.Descriptor.{FieldType, ReturnType, MethodDescriptor}
use rust_jvm.Inheritance.{same_type}
use rust_jvm.Inheritance.Types.{same_type-eq, same_type_refl, same_type_iff}

instance abbrev pub field_type_eq : Eq FieldType
field_type_eq = record { equals = same_type; equals_iff = same_type_iff }

unfoldable pub same_return : ReturnType → ReturnType → Bool
same_return none none = true
same_return (some t) (some u) = same_type t u
same_return _ _ = false

same_return_iff : (r s : ReturnType) → (same_return r s ≡ true) ↔ (r ≡ s)
unfolding same_return
same_return_iff none none = (λ h. refl, λ h. refl)
same_return_iff none (some u) = (λ h. cc h, λ h. cc h)
same_return_iff (some t) none = (λ h. cc h, λ h. cc h)
same_return_iff (some t) (some u) =
    (λ h. ap some (same_type-eq t u h), λ h. let e : t ≡ u = cc h in rw e (same_type_refl u))

-- `==` of `MethodDescriptor`
unfoldable pub same_descriptor : MethodDescriptor → MethodDescriptor → Bool
same_descriptor d e = list_same d.parameters e.parameters && same_return d.return_type e.return_type

pub same_descriptor_iff : (d e : MethodDescriptor) → (same_descriptor d e ≡ true) ↔ (d ≡ e)
unfolding same_descriptor
same_descriptor_iff d e = (
  λ h.
      let (p, r) =
        (and-eq-true_iff (list_same d.parameters e.parameters)
            (same_return d.return_type e.return_type)).0
          h in
      cc (
        (list_same_iff d.parameters e.parameters).0 p,
        (same_return_iff d.return_type e.return_type).0 r,
      ),
  λ h. rw h (
      (and-eq-true_iff _ _).1 (
        (list_same_iff e.parameters e.parameters).1 refl,
        (same_return_iff e.return_type e.return_type).1 refl,
      )),
)

instance abbrev pub method_descriptor_eq : Eq MethodDescriptor
method_descriptor_eq = record { equals = same_descriptor; equals_iff = same_descriptor_iff }
