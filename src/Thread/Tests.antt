-- ===== src/Thread/Tests.antt =====
-- Calls and exceptions on concrete frames. `R` extends `E`, and both load by their names.
use rust_jvm.Prelude.{
  zero, suc, sym, ◌∙◌, ap, ◌≡◌, inl, inr, refl, false, Option, none, some, List, [], ◌∷◌,
  if◌then◌else◌,
}
use mathlib.Core.Bool.{true≢false}
use rust_jvm.Prelude.Equality.{same, list_same, nat_eq, list_eq}
use rust_jvm.Prelude.Outcome.{ok}
use rust_jvm.Descriptor.{Text, int, long}
use rust_jvm.Inheritance.{Class, declare, no_class, one_class, no_classes, is_same_or_sub_class_of}
use rust_jvm.Thread.{
  CallFrame, CodeAttribute, MethodInfo, ExceptionTableItem, covers, find_handler, go_on,
  handle_in_frame, handle_exception, on_exception, resumed, uncaught,
}
use rust_jvm.Thread.Calls.{Calls, on_stack}
use rust_jvm.Thread.Handlers.{
  Handles, Loads, NoneHandles, Chosen, on_exception_resumed, on_exception_uncaught,
  later_handler_wins,
}

abbrev class_e : Class
class_e = declare (b'E' ∷ []) false no_class no_classes no_class

abbrev class_r : Class
class_r = declare (b'R' ∷ []) false (one_class class_e) no_classes no_class

abbrev load : Text → Option Class
load name = if same name (b'R' ∷ []) then some class_r else some class_e

abbrev for_r : ExceptionTableItem
for_r = record { start_pc = 0; end_pc = 9; handler_pc = 20; catch_type = some (b'R' ∷ []) }

abbrev for_e : ExceptionTableItem
for_e = record { start_pc = 0; end_pc = 9; handler_pc = 30; catch_type = some (b'E' ∷ []) }

abbrev frame_with : List ExceptionTableItem → CallFrame
frame_with table = record {
  frame = record { code = 0 ∷ []; locals = 5 ∷ []; stack = 9 ∷ 8 ∷ 7 ∷ 0 ∷ [] };
  return_type = some int;
  exception_table = table;
}

both_resume :
    on_exception load class_r 77 (frame_with (for_r ∷ for_e ∷ [])) [] 4
    ≡ ok (resumed (on_stack (frame_with (for_r ∷ for_e ∷ [])) (77 ∷ []) ∷ []) 30)
unfolding on_exception handle_exception handle_in_frame go_on find_handler covers list_same
    is_same_or_sub_class_of
both_resume = refl

on_exception_resumed_example :
    Handles load class_r 4 (for_r ∷ for_e ∷ []) 30
    × (on_stack (frame_with (for_r ∷ for_e ∷ [])) (77 ∷ []) ∷ []
        ≡ on_stack (frame_with (for_r ∷ for_e ∷ [])) (77 ∷ []) ∷ [])
on_exception_resumed_example =
    on_exception_resumed load class_r 77 (frame_with (for_r ∷ for_e ∷ [])) [] _ 4 30 both_resume

-- The entry for `E` stands behind the one for `R`.
later_handler_wins_example : Chosen load class_r 4 (for_r ∷ for_e ∷ []) 30
later_handler_wins_example =
    later_handler_wins load class_r 77 (frame_with (for_r ∷ for_e ∷ [])) [] _ 4 30 both_resume

r_is_not_e : is_same_or_sub_class_of class_e class_r ≡ false
unfolding is_same_or_sub_class_of list_same
r_is_not_e = refl

load_r : load (b'R' ∷ []) ≡ some class_r
unfolding list_same
load_r = refl

-- The table of the frame has an entry for the address, whose class loads and is not the exception's.
r-Loads : Loads load 4 (for_r ∷ [])
r-Loads zero item name at covered typed =
    let same_item : for_r ≡ item = cc at in
    let same_name : b'R' ∷ [] ≡ name = cc (rw (← same_item) at typed) in
    λ missing.
      let wrong : ◌≡◌ {A = Option Class} (some class_r) none =
        sym load_r ∙ (ap load same_name ∙ missing) in
      cc wrong
r-Loads (suc i) item name at covered typed = absurd (cc at)

r_misses : NoneHandles load class_e 4 (for_r ∷ [])
r_misses zero item at covered (inl any) =
    let same_item : for_r ≡ item = cc at in absurd (cc (rw (← same_item) at any))
r_misses zero item at covered (inr (name, c, typed, found, matching)) =
    let same_item : for_r ≡ item = cc at in
    let same_name : b'R' ∷ [] ≡ name = cc (rw (← same_item) at typed) in
    let both : ◌≡◌ {A = Option Class} (some class_r) (some c) =
      sym load_r ∙ (ap load same_name ∙ found) in
    let same_class : class_r ≡ c = cc both in
    true≢false
      (sym matching ∙ (ap (λ x. is_same_or_sub_class_of class_e x) (sym same_class) ∙ r_is_not_e))
r_misses (suc i) item at covered catches = absurd (cc at)

-- The frame below would catch.
on_exception_uncaught_example :
    on_exception load class_e 77 (frame_with (for_r ∷ [])) (frame_with (for_e ∷ []) ∷ []) 4
    ≡ ok uncaught
on_exception_uncaught_example =
    on_exception_uncaught load class_e 77 (frame_with (for_r ∷ [])) (frame_with (for_e ∷ []) ∷ []) 4
      r-Loads r_misses

abbrev add_code : CodeAttribute
add_code = record { code = 0xac ∷ []; exception_table = [] }

-- long add(int, long)
abbrev add_method : MethodInfo
add_method = record {
  is_native = false;
  parameters = int ∷ long ∷ [];
  return_type = some long;
  code = some add_code;
}
