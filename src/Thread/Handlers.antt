-- ===== src/Thread/Handlers.antt =====
-- src/runtime/interpreter/frame.rs, `handle_exception`: which handler runs, and in which state.
use rust_jvm.Prelude.{
  ℕ, zero, suc, ◌<◌, sym, false, ◌≡◌, ◌≢◌, ◌⊎◌, inl, inr, refl, ◌∙◌, ap, arith, true, Option, none,
  some, List, [], ◌∷◌, get_elem?, Bool-cases, Option-cases,
}
use mathlib.Core.Bool.{true≢false}
use rust_jvm.Prelude.Outcome.{ok}
use rust_jvm.Descriptor.{Text}
use rust_jvm.Inheritance.{Class, is_same_or_sub_class_of}
use rust_jvm.Thread.{
  ExceptionTableItem, CallFrame, Search, handler, load_error, covers, find_handler, resumed,
  uncaught, go_on, handle_in_frame, handle_in_top, handle_exception, on_exception,
}

Search-cases :
    (s : Search) → (s ≡ handler none) ⊎ (((h : ℕ) × (s ≡ handler (some h))) ⊎ (s ≡ load_error))
Search-cases (handler none) = inl refl
Search-cases (handler (some h)) = inr (inl (h, refl))
Search-cases load_error = inr (inr refl)

module _ (resolve_class : Text → Option Class) where
  -- The entry is for all exceptions, or for a class that the exception's class extends.
  abbrev pub Catches : Class → ExceptionTableItem → Type 0
  Catches exp_class item =
      (item.catch_type ≡ none)
      ⊎ ((name : Text) × (c : Class) × (item.catch_type ≡ some name)
          × (resolve_class name ≡ some c)
          × (is_same_or_sub_class_of exp_class c ≡ true))

  -- An entry of the table is for the address and the exception, and has this handler.
  abbrev pub Handles : Class → ℕ → List ExceptionTableItem → ℕ → Type 0
  Handles exp_class pc items h =
      (i : ℕ) × (item : ExceptionTableItem) × (get_elem? items i ≡ some item)
      × (covers item pc ≡ true)
      × Catches exp_class item
      × (item.handler_pc ≡ h)

  -- No entry of the table is for the address and the exception.
  abbrev pub NoneHandles : Class → ℕ → List ExceptionTableItem → Type 0
  NoneHandles exp_class pc items =
      (i : ℕ) (item : ExceptionTableItem)
      → get_elem? items i ≡ some item
      → covers item pc ≡ true
      → Catches exp_class item
      → ⊥

  -- The entry at the place `i` is for the address and the exception and has this handler; no entry before
  -- it is for the address and all exceptions; and it is for all exceptions itself, or no entry
  -- behind it is for the address and the exception.
  pub record Chosen (exp_class : Class) (pc : ℕ) (items : List ExceptionTableItem) (h : ℕ)
      : Type 0 where
    pub place : ℕ
    pub item : ExceptionTableItem
    pub at : get_elem? items place ≡ some item
    pub covered : covers item pc ≡ true
    pub catches : Catches exp_class item
    pub to_handler : item.handler_pc ≡ h
    pub before :
        (j : ℕ) (other : ExceptionTableItem)
        → j < place
        → get_elem? items j ≡ some other
        → covers other pc ≡ true
        → other.catch_type ≢ none
    pub last :
        (item.catch_type ≡ none)
        ⊎ ((j : ℕ) (other : ExceptionTableItem)
            → place < j
            → get_elem? items j ≡ some other
            → covers other pc ≡ true
            → Catches exp_class other
            → ⊥)

  -- An entry in front that is not for the address and all exceptions changes nothing.
  later_Chosen :
      (exp_class : Class) (pc : ℕ) (item : ExceptionTableItem) (items : List ExceptionTableItem)
      (h : ℕ)
      → (covers item pc ≡ true → item.catch_type ≢ none)
      → Chosen exp_class pc items h
      → Chosen exp_class pc (item ∷ items) h
  later_Chosen exp_class pc item items h some_class c = record {
    place = suc c.place;
    item = c.item;
    at = c.at;
    covered = c.covered;
    catches = c.catches;
    to_handler = c.to_handler;
    before = λ j other lt at covered. earlier j other lt at covered;
    last = elim c.last [
      | inl any ↦ inl any
      | inr none_later ↦
          inr (λ j other lt at covered catches. behind none_later j other lt at covered catches)
    ];
  }
    where
      earlier :
          (j : ℕ) (other : ExceptionTableItem)
          → j < suc c.place
          → get_elem? (item ∷ items) j ≡ some other
          → covers other pc ≡ true
          → other.catch_type ≢ none
      earlier zero other lt at covered =
          let same : item ≡ other = cc at in
          λ any. some_class (rw (← same) at covered) (rw (← same) at any)
      earlier (suc j) other lt at covered = c.before j other (omega (arith, lt)) at covered

      behind :
          ((j : ℕ) (other : ExceptionTableItem)
            → c.place < j
            → get_elem? items j ≡ some other
            → covers other pc ≡ true
            → Catches exp_class other
            → ⊥)
          → (j : ℕ) (other : ExceptionTableItem) → suc c.place < j
          → get_elem? (item ∷ items) j ≡ some other
          → covers other pc ≡ true
          → Catches exp_class other
          → ⊥
      behind none_later zero other lt at covered catches = absurd (omega (arith, lt))
      behind none_later (suc j) other lt at covered catches =
          none_later j other (omega (arith, lt)) at covered catches

  -- An entry for a class, with no other behind it.
  first_Chosen :
      (exp_class : Class) (pc : ℕ) (item : ExceptionTableItem) (items : List ExceptionTableItem)
      → covers item pc ≡ true
      → Catches exp_class item
      → (item.catch_type ≡ none) ⊎ NoneHandles exp_class pc items
      → (h : ℕ) → item.handler_pc ≡ h
      → Chosen exp_class pc (item ∷ items) h
  first_Chosen exp_class pc item items covered catches alone h to_h = record {
    place = 0;
    item = item;
    at = refl;
    covered = covered;
    catches = catches;
    to_handler = to_h;
    before = λ j other lt at. absurd (omega (arith, lt));
    last = elim alone [
      | inl any ↦ inl any
      | inr none_later ↦ inr (λ j other lt at. behind none_later j other lt at)
    ];
  }
    where
      behind :
          NoneHandles exp_class pc items
          → (j : ℕ) (other : ExceptionTableItem) → 0 < j
          → get_elem? (item ∷ items) j ≡ some other
          → covers other pc ≡ true
          → Catches exp_class other
          → ⊥
      behind none_later zero other lt at covered catches = absurd (omega (arith, lt))
      behind none_later (suc j) other lt at covered catches = none_later j other at covered catches

  none_more :
      (exp_class : Class) (pc : ℕ) (item : ExceptionTableItem) (items : List ExceptionTableItem)
      → (covers item pc ≡ true → Catches exp_class item → ⊥)
      → NoneHandles exp_class pc items
      → NoneHandles exp_class pc (item ∷ items)
  none_more exp_class pc item items misses rest zero other at covered catches =
      let same : item ≡ other = cc at in misses (rw (← same) at covered) (rw (← same) at catches)
  none_more exp_class pc item items misses rest (suc j) other at covered catches =
      rest j other at covered catches

  -- An entry for a class that is not one of the exception's.
  other_class :
      (exp_class : Class) (item : ExceptionTableItem) (name : Text) (c : Class)
      → item.catch_type ≡ some name
      → resolve_class name ≡ some c
      → is_same_or_sub_class_of exp_class c ≡ false
      → Catches exp_class item
      → ⊥
  other_class exp_class item name c typed found other (inl any) =
      let wrong : ◌≡◌ {A = Option Text} none (some name) = sym any ∙ typed in cc wrong
  other_class exp_class item name c typed found other (inr (name', c', typed', found', matching)) =
      let names : ◌≡◌ {A = Option Text} (some name) (some name') = sym typed ∙ typed' in
      let same_name : name ≡ name' = cc names in
      let classes : ◌≡◌ {A = Option Class} (some c) (some c') =
        sym found ∙ (ap resolve_class same_name ∙ found') in
      let same_class : c ≡ c' = cc classes in
      true≢false
        (sym matching ∙ (ap (λ x. is_same_or_sub_class_of exp_class x) (sym same_class) ∙ other))

  find_handler-Chosen :
      (exp_class : Class) (pc : ℕ) (items : List ExceptionTableItem) (best : Option ℕ) (h : ℕ)
      → find_handler resolve_class exp_class pc items best ≡ handler (some h)
      → ((best ≡ some h) × NoneHandles exp_class pc items) ⊎ Chosen exp_class pc items h
  unfolding find_handler
  find_handler-Chosen exp_class pc [] best h e = inl (cc e, λ i item at. absurd (cc at))
  find_handler-Chosen exp_class pc (item ∷ items) best h e =
      let skip = find_handler-Chosen exp_class pc items best h in
      let take_it = find_handler-Chosen exp_class pc items (some item.handler_pc) h in
      elim (Bool-cases (covers item pc)) [
        | inr out ↦
            let outside : covers item pc ≡ true → ⊥ = λ inside. true≢false (sym inside ∙ out) in
            elim (skip (rw out at e)) [
              | inl (b, rest) ↦
                  inl (b, none_more exp_class pc item items (λ inside _. outside inside) rest)
              | inr x ↦
                  inr (later_Chosen exp_class pc item items h (λ inside. absurd (outside inside)) x)
            ]
        | inl covered ↦ elim (Option-cases item.catch_type) [
          | inl any ↦
              let to_h : item.handler_pc ≡ h = cc (rw (covered, any) at e) in
              inr (first_Chosen exp_class pc item items covered (inl any) (inl any) h to_h)
          | inr (name, typed) ↦
              let classed : covers item pc ≡ true → item.catch_type ≢ none = λ _ any.
                (let wrong : ◌≡◌ {A = Option Text} none (some name) = sym any ∙ typed in
                  cc wrong) in
              elim (Option-cases (resolve_class name)) [
                | inl missing ↦ absurd (cc (rw (covered, typed, missing) at e))
                | inr (c, found) ↦ elim (Bool-cases (is_same_or_sub_class_of exp_class c)) [
                  | inr other ↦ elim (skip (rw (covered, typed, found, other) at e)) [
                    | inl (b, rest) ↦ inl (
                      b,
                      none_more exp_class pc item items
                          (λ _. other_class exp_class item name c typed found other) rest,
                    )
                    | inr x ↦ inr (later_Chosen exp_class pc item items h classed x)
                  ]
                  | inl matching ↦ elim (take_it (rw (covered, typed, found, matching) at e)) [
                    | inl (b, rest) ↦
                        let to_h : item.handler_pc ≡ h = cc b in
                        inr (
                          first_Chosen exp_class pc item items covered
                            (inr (name, c, typed, found, matching)) (inr rest) h to_h)
                    | inr x ↦ inr (later_Chosen exp_class pc item items h classed x)
                  ]
                ]
              ]
        ]
      ]

  resumed_by :
      (exp_class : Class) (obj_ref : ℕ) (f : CallFrame) (previous frames : List CallFrame)
      (pc pc' : ℕ)
      → on_exception resolve_class exp_class obj_ref f previous pc ≡ ok (resumed frames pc')
      → Chosen exp_class pc f.exception_table pc'
        × (frames ≡ record f { frame = record f.frame { stack = obj_ref ∷ [] } } ∷ previous)
  unfolding on_exception handle_exception handle_in_frame handle_in_top go_on
  resumed_by exp_class obj_ref f previous frames pc pc' e =
      elim (Search-cases (find_handler resolve_class exp_class pc f.exception_table none)) [
        | inl nothing ↦ absurd (cc (rw nothing at e))
        | inr (inl (h, found)) ↦
            (let at_h = rw found at e in
              elim (find_handler-Chosen exp_class pc f.exception_table none pc' (found ∙ cc at_h)) [
                | inl (b, _) ↦ absurd (cc b)
                | inr x ↦ (x, cc at_h)
              ])
        | inr (inr bad) ↦ absurd (cc (rw bad at e))
      ]

  -- Where the thread goes on after an exception, an entry of the frame's own table is for the address
  -- and the exception, `pc` is its handler, and the frame is as before with only the exception
  -- on its stack.
  pub on_exception_resumed :
      (exp_class : Class) (obj_ref : ℕ) (f : CallFrame) (previous frames : List CallFrame)
      (pc pc' : ℕ)
      → on_exception resolve_class exp_class obj_ref f previous pc ≡ ok (resumed frames pc')
      → Handles exp_class pc f.exception_table pc'
        × (frames ≡ record f { frame = record f.frame { stack = obj_ref ∷ [] } } ∷ previous)
  on_exception_resumed exp_class obj_ref f previous frames pc pc' e =
      let (c, state) = resumed_by exp_class obj_ref f previous frames pc pc' e in
      ((c.place, c.item, c.at, c.covered, c.catches, c.to_handler), state)

  -- Where the thread goes on after an exception, the entry whose handler runs is for the address and the
  -- exception, no entry before it is for the address and all exceptions, and unless it is for all
  -- exceptions itself, no entry behind it is for the address and the exception: among entries for
  -- classes the last one wins, where the first one should.
  pub later_handler_wins :
      (exp_class : Class) (obj_ref : ℕ) (f : CallFrame) (previous frames : List CallFrame)
      (pc pc' : ℕ)
      → on_exception resolve_class exp_class obj_ref f previous pc ≡ ok (resumed frames pc')
      → Chosen exp_class pc f.exception_table pc'
  later_handler_wins exp_class obj_ref f previous frames pc pc' e =
      (resumed_by exp_class obj_ref f previous frames pc pc' e).0

  -- The classes of the entries that are for the address load.
  abbrev pub Loads : ℕ → List ExceptionTableItem → Type 0
  Loads pc items =
      (i : ℕ) (item : ExceptionTableItem) (name : Text)
      → get_elem? items i ≡ some item
      → covers item pc ≡ true
      → item.catch_type ≡ some name
      → resolve_class name ≢ none

  -- No entry of a table catches: the search ends as it began, when its classes load.
  find_handler-none :
      (exp_class : Class) (pc : ℕ) (items : List ExceptionTableItem) (best : Option ℕ)
      → Loads pc items
      → NoneHandles exp_class pc items
      → find_handler resolve_class exp_class pc items best ≡ handler best
  unfolding find_handler
  find_handler-none exp_class pc [] best loads misses = refl
  find_handler-none exp_class pc (item ∷ items) best loads misses =
      let rest =
        find_handler-none exp_class pc items best (λ i x n at. loads (suc i) x n at)
          (λ i x at. misses (suc i) x at) in
      elim (Bool-cases (covers item pc)) [
        | inr out ↦ rw (out, rest)
        | inl covered ↦ elim (Option-cases item.catch_type) [
          | inl any ↦ absurd (misses 0 item refl covered (inl any))
          | inr (name, typed) ↦ elim (Option-cases (resolve_class name)) [
            | inl missing ↦ absurd (loads 0 item name refl covered typed missing)
            | inr (c, found) ↦ elim (Bool-cases (is_same_or_sub_class_of exp_class c)) [
              | inr other ↦ rw (covered, typed, found, other, rest)
              | inl matching ↦
                  absurd (misses 0 item refl covered (inr (name, c, typed, found, matching)))
            ]
          ]
        ]
      ]

  -- An exception that no entry of the frame's own table catches ends the thread's run, whatever
  -- handlers the frames below have, when the classes of the table's entries for the address load.
  pub on_exception_uncaught :
      (exp_class : Class) (obj_ref : ℕ) (f : CallFrame) (previous : List CallFrame) (pc : ℕ)
      → Loads pc f.exception_table
      → NoneHandles exp_class pc f.exception_table
      → on_exception resolve_class exp_class obj_ref f previous pc ≡ ok uncaught
  unfolding on_exception handle_exception handle_in_frame handle_in_top go_on
  on_exception_uncaught exp_class obj_ref f previous pc loads misses =
      rw (find_handler-none exp_class pc f.exception_table none loads misses)
