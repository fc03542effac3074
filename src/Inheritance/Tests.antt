-- ===== src/Inheritance/Tests.antt =====
-- A small hierarchy. `A` extends `O` and names the interface `I`, which extends `J`; `C` extends `A`.
use rust_jvm.Prelude.{◌≡◌, ◌↔◌, ◌⊎◌, refl, arith, true, false, [], ◌∷◌, ◌++◌, inr}
use rust_jvm.Prelude.Equality.{list_same}
use rust_jvm.Prelude.Outcome.{ok}
use rust_jvm.Descriptor.{Text, object, to_descriptor}
use rust_jvm.Descriptor.Run.{run}
use rust_jvm.Inheritance.{
  Class, declare, no_class, one_class, no_classes, and_class, is_same_or_sub_class_of,
  is_class_implements, has_interface, is_array, is_assignable_to,
}
use rust_jvm.Inheritance.Relations.{
  Extends, Implements, is_same_or_sub_class_of_iff, is_class_implements_iff,
}
use rust_jvm.Inheritance.Assign.{class_assignable_iff, ArrayAssigns, array_assignable_lem}

abbrev class_o : Class
class_o = declare (b'O' ∷ []) false no_class no_classes no_class

abbrev class_j : Class
class_j = declare (b'J' ∷ []) true (one_class class_o) no_classes no_class

abbrev class_i : Class
class_i = declare (b'I' ∷ []) true (one_class class_o) (and_class class_j no_classes) no_class

abbrev class_a : Class
class_a = declare (b'A' ∷ []) false (one_class class_o) (and_class class_i no_classes) no_class

abbrev class_c : Class
class_c = declare (b'C' ∷ []) false (one_class class_a) no_classes no_class

-- The interface that an interface extends is not found.
implements_direct : is_class_implements class_c class_i ≡ true
unfolding is_class_implements has_interface list_same
implements_direct = refl

implements_indirect : is_class_implements class_c class_j ≡ false
unfolding is_class_implements has_interface list_same
implements_indirect = refl

c_extends_a : is_same_or_sub_class_of class_c class_a ≡ true
unfolding is_same_or_sub_class_of list_same
c_extends_a = refl

a_extends_o : is_same_or_sub_class_of class_a class_o ≡ true
unfolding is_same_or_sub_class_of list_same
a_extends_o = refl

a_is_no_array : is_array class_a ≡ false
unfolding is_array
a_is_no_array = refl

i_is_no_array : is_array class_i ≡ false
unfolding is_array
i_is_no_array = refl

is_same_or_sub_class_of_iff_example :
    (is_same_or_sub_class_of class_c class_o ≡ true) ↔ Extends class_c class_o
is_same_or_sub_class_of_iff_example = is_same_or_sub_class_of_iff class_c class_o

is_class_implements_iff_example :
    (is_class_implements class_c class_j ≡ true) ↔ Implements class_c class_j
is_class_implements_iff_example = is_class_implements_iff class_c class_j

class_assignable_iff_example :
    (is_assignable_to run class_a class_i ≡ ok true)
    ↔ (((true ≡ true) × Implements class_a class_i) ⊎ ((true ≡ false) × Extends class_a class_i))
class_assignable_iff_example = class_assignable_iff run class_a class_i a_is_no_array

-- `[LC;` and `[LA;`
abbrev array_of : Text → Class → Class
array_of n c =
    declare (b'[' ∷ b'L' ∷ n ++ b';' ∷ []) false (one_class class_o) no_classes (one_class c)

array_assignable_lem_example :
    (is_assignable_to run (array_of (b'C' ∷ []) class_c) (array_of (b'A' ∷ []) class_a) ≡ ok true)
    ↔ ArrayAssigns run (object (b'C' ∷ [])) (one_class class_c) (array_of (b'A' ∷ []) class_a)
unfolding to_descriptor
array_assignable_lem_example =
    array_assignable_lem run (array_of (b'C' ∷ []) class_c) (array_of (b'A' ∷ []) class_a)
      (object (b'C' ∷ [])) ((omega arith, tt), refl)
      (inr (object (b'A' ∷ []), ((omega arith, tt), refl)))
