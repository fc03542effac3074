-- ===== src/ClassLoader/Methods/Resolve.antt =====
-- `resolve_method_in_class_only` and `resolve_method_statically` of src/runtime/class_loader.rs find the
-- method of the nearest class.
use rust_jvm.Prelude.{
  ℕ, zero, suc, ◌+◌, ◌<◌, ◌≡◌, inl, inr, refl, sym, ◌∙◌, ap, arith, Bool, true, false, Option, none,
  some, List, [], ◌∷◌, Bytes, get_elem?, Bool-cases, Option-cases,
}
use mathlib.Core.Bool.{true≢false}
use rust_jvm.Prelude.Outcome.{Outcome, ok, unwrap, >>=-eq-ok}
use rust_jvm.Descriptor.{Text}
use rust_jvm.Constants.{Methodref}
use rust_jvm.ClassLoader.Parse.{MethodInfo}
use rust_jvm.ClassLoader.Vtable.{ClassRef, Class, Key}
use rust_jvm.ClassLoader.Vtable.Inherits.{IsLinked}
use rust_jvm.ClassLoader.Methods.{
  MethodResolve, in_this_class, other_class, signature, find_from, or_later, in_super,
  resolve_from_vtable, is_candidate, found_in_class, resolve_method_in_class_only,
  resolve_method_statically_inner, resolve_method_statically,
}

module _ {A : Type 0} (wanted : A → Bool) where
  -- The first entry that satisfies the test.
  pub record IsFirst (xs : List A) (o : ℕ) (a : A) : Type 0 where
    pub at : get_elem? xs o ≡ some a
    pub holds : wanted a ≡ true
    pub earlier : (j : ℕ) (b : A) → j < o → get_elem? xs j ≡ some b → wanted b ≡ false

  abbrev pub HasNone : List A → Type 0
  HasNone xs = (j : ℕ) (b : A) → get_elem? xs j ≡ some b → wanted b ≡ false

  pub find_from-some :
      (i : ℕ) (xs : List A) (j : ℕ) (a : A)
      → find_from wanted i xs ≡ some (j, a)
      → (o : ℕ) × (j ≡ i + o) × IsFirst xs o a
  unfolding find_from
  find_from-some i [] j a h = absurd (cc h)
  find_from-some i (x ∷ xs) j a h = elim (Bool-cases (wanted x)) [
    | inl e ↦
        let both : ◌≡◌ {A = Option (ℕ × A)} (some (i, x)) (some (j, a)) = rw e at h in
        let place : i ≡ j = cc both in
        let same : x ≡ a = cc both in
        (
          0,
          omega (arith, place),
          record {
            at = ap some same;
            holds = rw (← same) e;
            earlier = λ k b lt at. absurd (omega arith);
          },
        )
    | inr e ↦
        let (o, place, first) = find_from-some (suc i) xs j a (rw e at h) in
        (
          suc o,
          omega (arith, place),
          record {
            at = first.at;
            holds = first.holds;
            earlier = λ k b lt at. before x xs o b e k lt first.earlier at;
          },
        )
  ]
    where
      before :
          (x : A) (xs : List A) (o : ℕ) (b : A)
          → wanted x ≡ false
          → (k : ℕ) → k < suc o
          → ((j : ℕ) (c : A) → j < o → get_elem? xs j ≡ some c → wanted c ≡ false)
          → get_elem? (x ∷ xs) k ≡ some b
          → wanted b ≡ false
      before x xs o b e zero lt earlier at = let same : x ≡ b = cc at in rw (← same) e
      before x xs o b e (suc k) lt earlier at = earlier k b (omega arith) at

  pub find_from-none : (i : ℕ) (xs : List A) → find_from wanted i xs ≡ none → HasNone xs
  unfolding find_from
  find_from-none i [] h j b at = absurd (cc at)
  find_from-none i (x ∷ xs) h zero b at = elim (Bool-cases (wanted x)) [
    | inl e ↦
        let wrong : ◌≡◌ {A = Option (ℕ × A)} (some (i, x)) none = rw e at h in absurd (cc wrong)
    | inr e ↦ let same : x ≡ b = cc at in rw (← same) e
  ]
  find_from-none i (x ∷ xs) h (suc j) b at = elim (Bool-cases (wanted x)) [
    | inl e ↦
        let wrong : ◌≡◌ {A = Option (ℕ × A)} (some (i, x)) none = rw e at h in absurd (cc wrong)
    | inr e ↦ find_from-none (suc i) xs (rw e at h) j b at
  ]

module _ (to_str : Bytes → Text) (classes : List Class) (k : Key) where
  -- The method `m`, at the place `i` of the class `d`, which is `owner`, is what a search from a class
  -- upwards comes to first.
  pub data Nearest (d : ClassRef) (owner : Class) (i : ℕ) (m : MethodInfo) : ClassRef → Type 0 where
    here :
        get_elem? classes d ≡ some owner
        → IsFirst (is_candidate to_str k) owner.methods i m
        → Nearest d owner i m d
    above :
        (c s : ClassRef) (class : Class)
        → get_elem? classes c ≡ some class
        → HasNone (is_candidate to_str k) class.methods
        → class.super_class ≡ some s
        → Nearest d owner i m s
        → Nearest d owner i m c

  -- What a search from the class `c` has found.
  abbrev pub Finds : ClassRef → Option MethodResolve → Type 0
  Finds c none = (d : ClassRef) (owner : Class) (i : ℕ) (m : MethodInfo) → ¬ Nearest d owner i m c
  Finds c (some (in_this_class i v)) = ⊥
  Finds c (some (other_class d i v)) =
      (owner : Class) × (m : MethodInfo) × Nearest d owner i m c
      × (v ≡ resolve_from_vtable to_str owner m)

  Nearest-next :
      (d : ClassRef) (owner : Class) (i : ℕ) (m : MethodInfo) (c : ClassRef) (class : Class)
      → get_elem? classes c ≡ some class
      → HasNone (is_candidate to_str k) class.methods
      → Nearest d owner i m c
      → (s : ClassRef) × (class.super_class ≡ some s) × Nearest d owner i m s
  Nearest-next d owner i m _ class at lacks (here own first) =
      let same : owner ≡ class =
        (let both : ◌≡◌ {A = Option Class} (some owner) (some class) = sym own ∙ at in cc both) in
      let found : get_elem? class.methods i ≡ some m = rw same at first.at in
      absurd (true≢false (sym first.holds ∙ lacks i m found))
  Nearest-next d owner i m _ class at lacks (above _ s own there _ super rest) =
      let same : own ≡ class =
        (let both : ◌≡◌ {A = Option Class} (some own) (some class) = sym there ∙ at in cc both) in
      (s, rw same at super, rest)

  -- What the superclass has is what the class has, if it has none itself.
  pub Finds-above :
      (c s : ClassRef) (class : Class) (r : Option MethodResolve)
      → get_elem? classes c ≡ some class
      → HasNone (is_candidate to_str k) class.methods
      → class.super_class ≡ some s
      → Finds s r
      → Finds c r
  Finds-above c s class none at lacks super h = λ d owner i m near.
      let (t, other, rest) = Nearest-next d owner i m c class at lacks near in
      let same : t ≡ s =
        (let both : ◌≡◌ {A = Option ClassRef} (some t) (some s) = sym other ∙ super in cc both) in
      h d owner i m (rw same at rest)
  Finds-above c s class (some (in_this_class i v)) at lacks super h = h
  Finds-above c s class (some (other_class d i v)) at lacks super (owner, m, near, e) =
      (owner, m, above c s class at lacks super near, e)

  unwrap-some : {A : Type 0} (o : Option A) (a : A) → unwrap o ≡ ok a → o ≡ some a
  unwrap-some none a h = absurd (cc h)
  unwrap-some (some b) a h = cc h

  pub only_found :
      (fuel : ℕ) (c : ClassRef) (r : Option MethodResolve)
      → resolve_method_in_class_only to_str classes fuel k c ≡ ok r
      → Finds c r
  unfolding resolve_method_in_class_only or_later in_super found_in_class
  only_found zero c r run = absurd (cc run)
  only_found (suc fuel) c r run =
      let (class, got, next) = >>=-eq-ok (unwrap (get_elem? classes c)) _ run in
      let at = unwrap-some (get_elem? classes c) class got in
      elim (Option-cases (find_from (is_candidate to_str k) 0 class.methods)) [
        | inr ((j, m), found) ↦
            let v = resolve_from_vtable to_str class m in
            let e : some (other_class c j v) ≡ r = cc (rw found at next) in
            let (o, place, first) =
              find_from-some (is_candidate to_str k) 0 class.methods j m found in
            let same : j ≡ o = omega (arith, place) in
            rw (← e) (class, m, here at (rw (← same) at first), refl)
        | inl absent ↦
            let lacks = find_from-none (is_candidate to_str k) 0 class.methods absent in
            elim (Option-cases class.super_class) [
              | inl top ↦
                  let e : none ≡ r = cc (rw (absent, top) at next) in
                  rw (← e) (λ d owner i m near.
                    let (s, super, _) = Nearest-next d owner i m c class at lacks near in
                    let wrong : ◌≡◌ {A = Option ClassRef} none (some s) = sym top ∙ super in
                    absurd (cc wrong))
              | inr (s, super) ↦
                  Finds-above c s class r at lacks super
                    (only_found fuel s r (rw (absent, super) at next))
            ]
      ]

  -- The search returns, since the superclass of a class stands before it.
  pub only_returns :
      (fuel : ℕ) (c : ClassRef) (class : Class)
      → IsLinked classes
      → get_elem? classes c ≡ some class
      → c < fuel
      → (r : Option MethodResolve) × (resolve_method_in_class_only to_str classes fuel k c ≡ ok r)
  unfolding resolve_method_in_class_only or_later in_super found_in_class
  only_returns zero c class linked at lt = absurd (omega arith)
  only_returns (suc fuel) c class linked at lt =
      elim (Option-cases (find_from (is_candidate to_str k) 0 class.methods)) [
        | inr ((j, m), found) ↦
            (some (other_class c j (resolve_from_vtable to_str class m)), rw (at, found) refl)
        | inl absent ↦ elim (Option-cases class.super_class) [
          | inl top ↦ (none, rw (at, absent, top) refl)
          | inr (s, super) ↦
              let (before, (d, there, _, _)) = (linked c class at).super_class s super in
              let (r, run) = only_returns fuel s d linked there (omega (arith, before, lt)) in
              (r, rw (at, absent, super) run)
        ]
      ]

module _ (to_str : Bytes → Text) (classes : List Class) (k : Key) where
  only_none :
      (fuel : ℕ) (c : ClassRef) (class : Class)
      → get_elem? classes c ≡ some class
      → resolve_method_in_class_only to_str classes fuel k c ≡ ok none
      → HasNone (is_candidate to_str k) class.methods
  unfolding resolve_method_in_class_only or_later found_in_class
  only_none zero c class at run = absurd (cc run)
  only_none (suc fuel) c class at run =
      elim (Option-cases (find_from (is_candidate to_str k) 0 class.methods)) [
        | inl absent ↦ find_from-none (is_candidate to_str k) 0 class.methods absent
        | inr ((j, m), found) ↦
            let wrong : ◌≡◌ {A = Outcome (Option MethodResolve)}
                (ok (some (other_class c j (resolve_from_vtable to_str class m)))) (ok none) =
              rw (at, found) at run in
            absurd (cc wrong)
      ]

  -- The two searches of `resolve_method_statically_inner`: what the second finds the first has found.
  both_searches :
      (fuel : ℕ) (c : ClassRef) (class : Class) (r : Option MethodResolve)
      → IsLinked classes
      → get_elem? classes c ≡ some class
      → c < fuel
      → resolve_method_in_class_only to_str classes fuel k c ≡ ok r
      → (q : Option MethodResolve) × (or_later r
            (in_super (resolve_method_in_class_only to_str classes fuel k) class.super_class)
          ≡ ok q)
        × Finds to_str classes k c q
  unfolding or_later in_super
  both_searches fuel c class (some x) linked at lt run =
      (some x, refl, only_found to_str classes k fuel c (some x) run)
  both_searches fuel c class none linked at lt run = elim (Option-cases class.super_class) [
    | inl top ↦ (none, rw top refl, only_found to_str classes k fuel c none run)
    | inr (s, super) ↦
        let (before, (d, there, _, _)) = (linked c class at).super_class s super in
        let (q, again) =
          only_returns to_str classes k fuel s d linked there (omega (arith, before, lt)) in
        (
          q,
          rw super again,
          Finds-above to_str classes k c s class q at (only_none fuel c class at run) super
              (only_found to_str classes k fuel s q again),
        )
  ]

-- Where all classes are linked, the resolution of a method from a defined class returns, with more fuel
-- than the place of the class. What it finds is the first method of the nearest class, from this class
-- upwards, that is not static and has the name and the type of the reference, with the index that
-- `resolve_from_vtable` has for it; and it finds nothing only if there is no such method.
pub resolve_method_statically_lem :
    (to_str : Bytes → Text) (classes : List Class) (fuel : ℕ) (method_ref : Methodref)
    (c : ClassRef) (class : Class)
    → IsLinked classes
    → get_elem? classes c ≡ some class
    → c < fuel
    → (r : Option MethodResolve) × (resolve_method_statically to_str classes fuel method_ref c
        ≡ ok r)
      × Finds to_str classes (signature method_ref) c r
unfolding resolve_method_statically resolve_method_statically_inner or_later in_super
resolve_method_statically_lem to_str classes fuel method_ref c class linked at lt =
    let k = signature method_ref in
    let (r, run) = only_returns to_str classes k fuel c class linked at lt in
    let (q, both, finds) = both_searches to_str classes k fuel c class r linked at lt run in
    (q, rw (at, run) both, finds)
