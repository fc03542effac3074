-- ===== src/Constants/Names.antt =====
-- The map of class names that the first loop of `parse_constant_pool` in src/runtime/class_loader.rs
-- makes: it has the classes of the pool under their numbers.
use rust_jvm.Prelude.{
  ℕ, zero, suc, ◌+◌, ◌≤◌, ◌≡◌, ◌↔◌, ◌⊎◌, inl, inr, refl, sym, ◌∙◌, ap, arith, true, false, Option,
  some, List, [], ◌∷◌, Bytes, get_elem?, Bool-cases,
}
use rust_jvm.Prelude.Outcome.{Outcome, ok, >>=-eq-ok}
use rust_jvm.Prelude.Equality.{same, lookup, insert, nat_eq, lookup-insert}
use rust_jvm.Descriptor.{Text}
use rust_jvm.Descriptor.Nom
use rust_jvm.ClassFile
use rust_jvm.Constants.{ClassNames, add_class_name, class_info_map}
use rust_jvm.Constants.Linked.{Pool, Utf8At, resolve_cp_utf8_iff, bind_iff, unwrap_iff, ok_iff}
use rust_jvm.Constants.Linked.Entries.{ClassAt, Names}

module _ (nom : Nom.Nom) (to_str : Bytes → Option Text) (cp : Pool) where
  -- The text of the class entry `info`.
  abbrev Named : ClassFile.ConstantPoolInfo → Text → Type 0
  Named info t =
      (n : ℕ) × (info ≡ ClassFile.class n) × ((b : Bytes) × Utf8At cp n b × (to_str b ≡ some t))

  abbrev NamedAt : List ClassFile.ConstantPoolInfo → ℕ → Text → Type 0
  NamedAt infos k t =
      (n : ℕ) × (get_elem? infos k ≡ some (ClassFile.class n))
      × ((b : Bytes) × Utf8At cp n b × (to_str b ≡ some t))

  abbrev M : Type 0
  M = ClassNames nom to_str

  ok_injective : (b b' : Bytes) → (◌≡◌ {A = Outcome Bytes} (ok b) (ok b')) → b ≡ b'
  ok_injective b b' e = cc e

  add_class_iff :
      (i n : ℕ) (names names' : M)
      → (add_class_name nom to_str cp i (ClassFile.class n) names ≡ ok names') ↔ (
          (b : Bytes) × Utf8At cp n b
          × ((t : Text) × (to_str b ≡ some t) × (names' ≡ insert (i + 1) t names)))
  unfolding add_class_name
  add_class_iff i n names names' =
      bind_iff _ (resolve_cp_utf8_iff cp n)
        (λ b. bind_iff _ (unwrap_iff (to_str b)) (λ t. ok_iff (insert (i + 1) t names) names'))

  add_sound :
      (i : ℕ) (info : ClassFile.ConstantPoolInfo) (names names' : M) (j : ℕ) (t : Text)
      → add_class_name nom to_str cp i info names ≡ ok names'
      → lookup j names' ≡ some t
      → (lookup j names ≡ some t) ⊎ ((j ≡ suc i) × Named info t)
  unfolding add_class_name
  add_sound i (ClassFile.class n) names names' j t run found =
      let (b, at, (u, text, e)) = (add_class_iff i n names names').0 run in
      elim (Bool-cases (same j (i + 1))) [
        | inl eq ↦
            let here : some u ≡ some t = rw (e, lookup-insert (i + 1) j u names, eq) at found in
            inr (ground arith, (n, refl, (b, at, text ∙ here)))
        | inr ne ↦ inl (rw (e, lookup-insert (i + 1) j u names, ne) at found)
      ]
  add_sound i _ names names' j t run found = inl (let e : names ≡ names' = cc run in rw e found)

  add_kept :
      (i : ℕ) (info : ClassFile.ConstantPoolInfo) (names names' : M) (j : ℕ) (t : Text)
      → add_class_name nom to_str cp i info names ≡ ok names'
      → j ≤ i
      → lookup j names ≡ some t
      → lookup j names' ≡ some t
  unfolding add_class_name
  add_kept i (ClassFile.class n) names names' j t run le found =
      let (b, at, (u, text, e)) = (add_class_iff i n names names').0 run in
      let other : same j (i + 1) ≡ false = ground arith in
      rw (e, lookup-insert (i + 1) j u names, other, found)
  add_kept i _ names names' j t run le found = let e : names ≡ names' = cc run in rw (← e) found

  add_new :
      (i : ℕ) (info : ClassFile.ConstantPoolInfo) (names names' : M) (t : Text)
      → add_class_name nom to_str cp i info names ≡ ok names'
      → Named info t
      → lookup (suc i) names' ≡ some t
  add_new i info names names' t run (n, shape, (b, at, text)) =
      let (b', at', (u, text', e)) = (add_class_iff i n names names').0 (rw shape at run) in
      let one : b ≡ b' =
        ok_injective b b'
          (sym ((resolve_cp_utf8_iff cp n b).1 at) ∙ (resolve_cp_utf8_iff cp n b').1 at') in
      let eq : same (suc i) (i + 1) ≡ true = ground arith in
      rw (e, lookup-insert (i + 1) (suc i) u names, eq) (sym text' ∙ (ap to_str (sym one) ∙ text))

  map_sound :
      (i : ℕ) (infos : List ClassFile.ConstantPoolInfo) (names names' : M) (j : ℕ) (t : Text)
      → class_info_map nom to_str cp i infos names ≡ ok names'
      → lookup j names' ≡ some t
      → (lookup j names ≡ some t) ⊎ ((k : ℕ) × (j ≡ suc (i + k)) × NamedAt infos k t)
  unfolding class_info_map
  map_sound i [] names names' j t run found = inl (let e : names ≡ names' = cc run in rw e found)
  map_sound i (info ∷ infos) names names' j t run found =
      let (middle, first, rest) =
        >>=-eq-ok (add_class_name nom to_str cp i info names)
          (λ ns. class_info_map nom to_str cp (suc i) infos ns) run in
      elim (map_sound (suc i) infos middle names' j t rest found) [
        | inl earlier ↦ elim (add_sound i info names middle j t first earlier) [
          | inl old ↦ inl old
          | inr (e, (n, shape, named)) ↦ inr (0, omega (arith, e), (n, ap some shape, named))
        ]
        | inr (k, e, later) ↦ inr (suc k, omega (arith, e), later)
      ]

  map_kept :
      (i : ℕ) (infos : List ClassFile.ConstantPoolInfo) (names names' : M) (j : ℕ) (t : Text)
      → class_info_map nom to_str cp i infos names ≡ ok names'
      → j ≤ i
      → lookup j names ≡ some t
      → lookup j names' ≡ some t
  unfolding class_info_map
  map_kept i [] names names' j t run le found = let e : names ≡ names' = cc run in rw (← e) found
  map_kept i (info ∷ infos) names names' j t run le found =
      let (middle, first, rest) =
        >>=-eq-ok (add_class_name nom to_str cp i info names)
          (λ ns. class_info_map nom to_str cp (suc i) infos ns) run in
      map_kept (suc i) infos middle names' j t rest (omega arith)
        (add_kept i info names middle j t first le found)

  map_new :
      (i : ℕ) (infos : List ClassFile.ConstantPoolInfo) (names names' : M) (k : ℕ) (t : Text)
      → class_info_map nom to_str cp i infos names ≡ ok names'
      → NamedAt infos k t
      → lookup (suc (i + k)) names' ≡ some t
  unfolding class_info_map
  map_new i [] names names' k t run (n, at, named) = absurd (cc at)
  map_new i (info ∷ infos) names names' zero t run (n, at, named) =
      let (middle, first, rest) =
        >>=-eq-ok (add_class_name nom to_str cp i info names)
          (λ ns. class_info_map nom to_str cp (suc i) infos ns) run in
      let here : suc (i + 0) ≡ suc i = omega arith in
      rw here (
        map_kept (suc i) infos middle names' (suc i) t rest (omega arith)
          (add_new i info names middle t first (n, cc at, named)))
  map_new i (info ∷ infos) names names' (suc k) t run (n, at, named) =
      let (middle, first, rest) =
        >>=-eq-ok (add_class_name nom to_str cp i info names)
          (λ ns. class_info_map nom to_str cp (suc i) infos ns) run in
      let next : suc (i + suc k) ≡ suc (suc i + k) = omega arith in
      rw next (map_new (suc i) infos middle names' k t rest (n, at, named))

  pub class_info_map-Names :
      (names : M) → class_info_map nom to_str cp 0 cp [] ≡ ok names → Names nom to_str cp names
  unfolding lookup
  class_info_map-Names names run j t = (
    λ found. elim (map_sound 0 cp [] names j t run found) [
      | inl old ↦ absurd (cc old)
      | inr (k, e, (n, at, named)) ↦ (n, (let e' : j ≡ suc k = omega (arith, e) in rw e' at), named)
    ],
    λ class_at. present j t class_at,
  )
    where
      present : (j : ℕ) (t : Text) → ClassAt nom to_str cp j t → lookup j names ≡ some t
      present zero t (n, at, named) = absurd at
      present (suc k) t (n, at, named) =
          let e : suc (0 + k) ≡ suc k = omega arith in
          rw e at (map_new 0 cp [] names k t run (n, at, named))
