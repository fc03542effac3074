-- ===== src/Prelude/Equality.antt =====
-- Equality tests, as `PartialEq` gives them: `same a b` for any type with an instance.
use Prim.Native.Nat.{ℕ}
use mathlib.Core.Path.{◌≡◌, refl}
use mathlib.Core.Logic.{◌↔◌, ◌≢◌}
use mathlib.Core.Bool.{Bool, true, false, ◌&&◌, and-eq-true_iff}
use mathlib.Core.List.{List, [], ◌∷◌}
use mathlib.Core.Option.{Option, none, some}
use rust_jvm.Prelude.Tests.{◌==◌, ==_iff, if◌then◌else◌}

pub record Eq {ℓ} (A : Type ℓ) : Type ℓ where
  pub equals : A → A → Bool
  pub equals_iff : (a b : A) → (equals a b ≡ true) ↔ (a ≡ b)

abbrev pub same {ℓ} : {A : Type ℓ} ⦃e : Eq A⦄ → A → A → Bool
same ⦃e⦄ = e.equals

module _ {ℓ} {A : Type ℓ} ⦃e : Eq A⦄ where
  pub same_refl : (a : A) → same a a ≡ true
  same_refl a = (e.equals_iff a a).1 refl

  pub same→eq : (a b : A) → same a b ≡ true → a ≡ b
  same→eq a b = (e.equals_iff a b).0

  pub same_ne : (a b : A) → a ≢ b → same a b ≡ false
  same_ne a b h = go (same a b) refl
    where
      go : (t : Bool) → same a b ≡ t → t ≡ false
      go true p = absurd (h ((e.equals_iff a b).0 p))
      go false p = refl

instance abbrev pub nat_eq : Eq ℕ
nat_eq = record { equals = λ a b. a == b; equals_iff = ==_iff }

module _ {ℓ} {A : Type ℓ} ⦃e : Eq A⦄ where
  unfoldable pub list_same : List A → List A → Bool
  list_same [] [] = true
  list_same [] (y ∷ ys) = false
  list_same (x ∷ xs) [] = false
  list_same (x ∷ xs) (y ∷ ys) = e.equals x y && list_same xs ys

  list_same-eq : (xs ys : List A) → list_same xs ys ≡ true → xs ≡ ys
  unfolding list_same
  list_same-eq [] [] h = refl
  list_same-eq [] (y ∷ ys) h = cc h
  list_same-eq (x ∷ xs) [] h = cc h
  list_same-eq (x ∷ xs) (y ∷ ys) h =
      let (a, b) = (and-eq-true_iff (e.equals x y) (list_same xs ys)).0 h in
      cc ((e.equals_iff x y).0 a, list_same-eq xs ys b)

  list_same_refl : (xs : List A) → list_same xs xs ≡ true
  unfolding list_same
  list_same_refl [] = refl
  list_same_refl (x ∷ xs) = (and-eq-true_iff _ _).1 ((e.equals_iff x x).1 refl, list_same_refl xs)

  pub list_same_iff : (xs ys : List A) → (list_same xs ys ≡ true) ↔ (xs ≡ ys)
  list_same_iff xs ys = (list_same-eq xs ys, λ p. rw p (list_same_refl ys))

  instance abbrev pub list_eq : Eq (List A)
  list_eq = record { equals = list_same; equals_iff = list_same_iff }

-- A `HashMap`, as a list of its entries: the program never iterates over one of these.
module _ {ℓ κ} {K : Type ℓ} {V : Type κ} ⦃e : Eq K⦄ where
  unfoldable pub lookup : K → List (K × V) → Option V
  lookup k [] = none
  lookup k ((j, v) ∷ m) = if same k j then some v else lookup k m

  -- A new entry hides an older one of the same key.
  unfoldable pub insert : K → V → List (K × V) → List (K × V)
  insert k v m = (k, v) ∷ m

  unfoldable pub lookup-insert :
      (k j : K) (v : V) (m : List (K × V))
      → lookup j (insert k v m) ≡ (if same j k then some v else lookup j m)
  unfolding lookup insert
  lookup-insert k j v m = refl
