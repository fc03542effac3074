-- ===== src/Constants/Pool.antt =====
-- `parse_constant_pool` of src/runtime/class_loader.rs, both of its loops.
use rust_jvm.Prelude.{Option, ℕ, suc, ◌+◌, ◌≡◌, ◌↔◌, refl, List, [], ◌∷◌, Bytes}
use rust_jvm.Prelude.Outcome.{ok, ◌>>=◌, >>=-eq-ok}
use rust_jvm.Prelude.Equality.{insert, nat_eq}
use rust_jvm.Descriptor.{Text}
use rust_jvm.Descriptor.Nom
use rust_jvm.ClassFile
use rust_jvm.Constants.{
  ConstantPoolInfo, ClassNames, add_class_name, class_info_map, convert, convert_all,
  parse_constant_pool,
}
use rust_jvm.Constants.Linked.{Pool, resolve_cp_utf8_iff}
use rust_jvm.Constants.Linked.Entries.{Links, Names, convert_iff}
use rust_jvm.Constants.Names.{class_info_map-Names}

module _ (nom : Nom.Nom) (to_str : Bytes → Option Text) where
  -- Each entry of `infos` links to that of the pool at its place, and there are no others.
  abbrev pub AllLink : Pool → List ClassFile.ConstantPoolInfo → List ConstantPoolInfo → Type 0
  AllLink cp [] [] = Unit
  AllLink cp [] (c ∷ cs) = ⊥
  AllLink cp (info ∷ infos) [] = ⊥
  AllLink cp (info ∷ infos) (c ∷ cs) = Links nom to_str cp info c × AllLink cp infos cs

  module _ (cp : Pool) (names : ClassNames nom to_str) (right : Names nom to_str cp names) where
    convert_all_sound :
        (infos : List ClassFile.ConstantPoolInfo) (pool : List ConstantPoolInfo)
        → convert_all nom to_str cp names infos ≡ ok pool
        → AllLink cp infos pool
    unfolding convert_all
    convert_all_sound [] pool run = let e : [] ≡ pool = cc run in rw (← e) tt
    convert_all_sound (info ∷ infos) pool run =
        let (c, first, more) =
          >>=-eq-ok (convert nom to_str cp names info)
            (λ c. convert_all nom to_str cp names infos >>= λ cs. ok (c ∷ cs)) run in
        let (cs, rest, whole) =
          >>=-eq-ok (convert_all nom to_str cp names infos) (λ cs. ok (c ∷ cs)) more in
        let e : c ∷ cs ≡ pool = cc whole in
        rw (← e)
          ((convert_iff nom to_str cp names right info c).0 first, convert_all_sound infos cs rest)

    convert_all_complete :
        (infos : List ClassFile.ConstantPoolInfo) (pool : List ConstantPoolInfo)
        → AllLink cp infos pool
        → convert_all nom to_str cp names infos ≡ ok pool
    unfolding convert_all
    convert_all_complete [] [] h = refl
    convert_all_complete [] (c ∷ cs) h = absurd h
    convert_all_complete (info ∷ infos) [] h = absurd h
    convert_all_complete (info ∷ infos) (c ∷ cs) (link, h) =
        rw ((convert_iff nom to_str cp names right info c).1 link, convert_all_complete infos cs h)

  add_returns :
      (cp : Pool) (i : ℕ) (info : ClassFile.ConstantPoolInfo) (c : ConstantPoolInfo)
      (names : ClassNames nom to_str)
      → Links nom to_str cp info c
      → (names' : ClassNames nom to_str) × (add_class_name nom to_str cp i info names ≡ ok names')
  unfolding add_class_name
  add_returns cp i (ClassFile.class n) c names (b, at, (text, decoded, e)) =
      (insert (i + 1) text names, rw ((resolve_cp_utf8_iff cp n b).1 at, decoded))
  add_returns cp i _ c names h = (names, refl)

  map_returns :
      (cp : Pool) (i : ℕ) (infos : List ClassFile.ConstantPoolInfo) (pool : List ConstantPoolInfo)
      (names : ClassNames nom to_str)
      → AllLink cp infos pool
      → (names' : ClassNames nom to_str) × (class_info_map nom to_str cp i infos names ≡ ok names')
  unfolding class_info_map
  map_returns cp i [] pool names h = (names, refl)
  map_returns cp i (info ∷ infos) [] names h = absurd h
  map_returns cp i (info ∷ infos) (c ∷ cs) names (link, h) =
      let (middle, first) = add_returns cp i info c names link in
      let (names', rest) = map_returns cp (suc i) infos cs middle h in (names', rw (first, rest))

  -- `parse_constant_pool` returns a pool exactly where every entry of the file links to the entry of
  -- the pool at its place: the references of the file lead to entries of the right kinds, through them
  -- to names, the bytes of a class name or a descriptor decode, a descriptor has the form of its kind, and
  -- these are what the pool has.
  pub parse_constant_pool_iff :
      (cp : Pool) (pool : List ConstantPoolInfo)
      → (parse_constant_pool nom to_str cp ≡ ok pool) ↔ AllLink cp cp pool
  unfolding parse_constant_pool
  parse_constant_pool_iff cp pool = (
    λ run.
        let (names, first, rest) =
          >>=-eq-ok (class_info_map nom to_str cp 0 cp [])
            (λ names. convert_all nom to_str cp names cp) run in
        convert_all_sound cp names (class_info_map-Names nom to_str cp names first) cp pool rest,
    λ h.
        let (names, first) = map_returns cp 0 cp pool [] h in
        rw first (
          convert_all_complete cp names (class_info_map-Names nom to_str cp names first) cp pool h),
  )
