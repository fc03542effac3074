-- ===== src/Heap/SlotVec.antt =====
-- The slot vectors of src/runtime/heap.rs: `allocate_id_for_obj` and `deallocate`.
use native.Mathlib.Nat.{add-zero}
use rust_jvm.Prelude.{
  ℕ, zero, suc, ◌+◌, ◌-◌, ◌<◌, ◌≡◌, ◌≢◌, refl, ◌∙◌, true, Option, none, some, List, [], ◌∷◌, ◌++◌,
  arith, length, get_elem?, set, drop, replicate, leb, ltb, ap, sym, inl, inr, length-append,
  length-replicate, drop-append, get_elem?-ge, ◌==◌, if◌then◌else◌, Bool-cases,
}

-- `Vec<Option<Arc<T>>>` with its `next_id`.
pub record Slots {ℓ} (A : Type ℓ) : Type ℓ where
  pub slots : List (Option A)
  pub next_id : ℕ

module _ {ℓ} {A : Type ℓ} where
  abbrev pub join : Option (Option A) → Option A
  join none = none
  join (some o) = o

  -- What the vector holds at an index: nothing beyond its end.
  abbrev pub slot_at : List (Option A) → ℕ → Option A
  slot_at v i = join (get_elem? v i)

  -- `heap.resize_with(n, || None)` where `n` is larger than the length.
  unfoldable pub resize_with : List (Option A) → ℕ → List (Option A)
  resize_with v n = v ++ replicate (n - length v) none

  -- `if heap.len() <= id { heap.resize_with(id + 1, || None) }`
  unfoldable pub grow : List (Option A) → ℕ → List (Option A)
  grow v id = if leb (length v) id then resize_with v (id + 1) else v

  -- The `while` loop, on `heap[next_id..]`.
  unfoldable pub skip_used : List (Option A) → ℕ → ℕ
  skip_used [] n = n
  skip_used (none ∷ rest) n = n
  skip_used (some a ∷ rest) n = skip_used rest (n + 1)

  unfoldable pub allocate_id_for_obj : Slots A → A → Slots A × ℕ
  allocate_id_for_obj s object =
      let id = s.next_id in
      let written = set (grow s.slots id) id (some object) in
      (record { slots = written; next_id = skip_used (drop id written) id }, id + 1)

  -- `heap[(id - 1)].take(); next_id = id`; none where the index is out of range.
  unfoldable pub deallocate : Slots A → ℕ → Option (Slots A)
  deallocate s zero = none
  deallocate s (suc i) =
      if ltb i (length s.slots)
      then some (record { slots = set s.slots i none; next_id = suc i })
      else none

  pub slot_at-set :
      (v : List (Option A)) (i j : ℕ) (o : Option A)
      → i < length v
      → slot_at (set v i o) j ≡ (if i == j then o else slot_at v j)
  slot_at-set [] i j o h = elim h [ ]
  slot_at-set (x ∷ v) zero zero o h = ground arith
  slot_at-set (x ∷ v) zero (suc j) o h = ground arith
  slot_at-set (x ∷ v) (suc i) zero o h = ground arith
  slot_at-set (x ∷ v) (suc i) (suc j) o h = slot_at-set v i j o (omega arith) ∙ ground arith

  slot_at-replicate : (n j : ℕ) → slot_at (replicate n none) j ≡ none
  slot_at-replicate zero j = refl
  slot_at-replicate (suc n) zero = refl
  slot_at-replicate (suc n) (suc j) = slot_at-replicate n j

  slot_at-append_none :
      (v : List (Option A)) (n j : ℕ) → slot_at (v ++ replicate n none) j ≡ slot_at v j
  slot_at-append_none [] n j = slot_at-replicate n j
  slot_at-append_none (x ∷ v) n zero = refl
  slot_at-append_none (x ∷ v) n (suc j) = slot_at-append_none v n j

  slot_at-drop : (v : List (Option A)) (n k : ℕ) → slot_at (drop n v) k ≡ slot_at v (n + k)
  slot_at-drop v zero k = ap (slot_at v) (omega arith)
  slot_at-drop [] (suc n) k = refl
  slot_at-drop (x ∷ v) (suc n) k =
      slot_at-drop v n k ∙ ap (slot_at (x ∷ v)) {x = suc (n + k)} (omega arith)

  -- The loop stops at a slot that holds nothing.
  skip_used-free :
      (v : List (Option A)) (n : ℕ) → (k : ℕ) × (skip_used v n ≡ n + k) × (slot_at v k ≡ none)
  unfolding skip_used
  skip_used-free [] n = (0, omega arith, refl)
  skip_used-free (none ∷ v) n = (0, omega arith, refl)
  skip_used-free (some a ∷ v) n =
      let (k, at, free) = skip_used-free v (n + 1) in (suc k, omega (arith, at), free)

  slot_at-grow : (v : List (Option A)) (id j : ℕ) → slot_at (grow v id) j ≡ slot_at v j
  unfolding grow resize_with
  slot_at-grow v id j = elim (Bool-cases (leb (length v) id)) [
    | inl e ↦ rw e (slot_at-append_none v _ j)
    | inr e ↦ rw e
  ]

  length-grow : (v : List (Option A)) (id : ℕ) → id < length (grow v id)
  unfolding grow resize_with
  length-grow v id = elim (Bool-cases (leb (length v) id)) [
    | inl e ↦ rw e (
        omega (
          arith,
          length-append v (replicate (id + 1 - length v) none),
          length-replicate {A = Option A} (id + 1 - length v) none,
        ))
    | inr e ↦ rw e (ground arith)
  ]

  -- `allocate_id_for_obj` puts the object at `next_id` and leaves every other slot as it was.
  pub slot_at-allocate :
      (s : Slots A) (o : A) (j : ℕ)
      → slot_at (allocate_id_for_obj s o).0.slots j
        ≡ (if s.next_id == j then some o else slot_at s.slots j)
  unfolding allocate_id_for_obj
  slot_at-allocate s o j =
      slot_at-set (grow s.slots s.next_id) s.next_id j (some o) (length-grow s.slots s.next_id)
      ∙ rw (slot_at-grow s.slots s.next_id j)

  -- After it, `next_id` has grown and is the index of a slot that holds nothing.
  pub allocate-free :
      (s : Slots A) (o : A)
      → let t : Slots A = (allocate_id_for_obj s o).0 in
        (s.next_id < t.next_id) × (slot_at t.slots t.next_id ≡ none)
  unfolding allocate_id_for_obj
  allocate-free s o =
      let written = set (grow s.slots s.next_id) s.next_id (some o) in
      let (k, at, free) = skip_used-free (drop s.next_id written) s.next_id in
      let filled : slot_at written s.next_id ≡ some o =
        slot_at-set (grow s.slots s.next_id) s.next_id s.next_id (some o)
          (length-grow s.slots s.next_id)
        ∙ ground arith in
      let here : slot_at written (s.next_id + k) ≡ none =
        sym (slot_at-drop written s.next_id k) ∙ free in
      let moved : k ≢ 0 = λ z. cc (filled, rw (z, add-zero) at here) in rw at (omega arith, here)

  -- No slot is empty below `next_id`, which is the length: so it is while nothing is deallocated.
  abbrev pub IsPacked : Slots A → Type 0
  IsPacked s = s.next_id ≡ length s.slots

  pub IsPacked-free : (s : Slots A) → IsPacked s → slot_at s.slots s.next_id ≡ none
  IsPacked-free s h = rw (get_elem?-ge s.slots s.next_id (omega arith))

  set-append : (v : List (Option A)) (x y : Option A) → set (v ++ x ∷ []) (length v) y ≡ v ++ y ∷ []
  set-append [] x y = refl
  set-append (z ∷ v) x y = ap (λ t. z ∷ t) (set-append v x y)

  grow-packed : (v : List (Option A)) → grow v (length v) ≡ v ++ none ∷ []
  unfolding grow resize_with
  grow-packed v =
      let one : length v + 1 - length v ≡ suc zero = omega arith in
      let test : leb (length v) (length v) ≡ true = ground arith in rw (test, one)

  -- In a packed vector the new object goes to the end.
  pub allocate-packed :
      (s : Slots A) (o : A)
      → IsPacked s
      → allocate_id_for_obj s o
        ≡ (record { slots = s.slots ++ some o ∷ []; next_id = s.next_id + 1 }, s.next_id + 1)
  unfolding allocate_id_for_obj skip_used
  allocate-packed s o h =
      rw (
        h,
        grow-packed s.slots,
        set-append s.slots none (some o),
        drop-append s.slots (some o ∷ []),
      )

  pub allocate-IsPacked : (s : Slots A) (o : A) → IsPacked s → IsPacked (allocate_id_for_obj s o).0
  allocate-IsPacked s o h =
      rw (allocate-packed s o h) (omega (arith, h, length-append s.slots (some o ∷ [])))
