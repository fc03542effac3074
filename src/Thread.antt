-- ===== src/Thread.antt =====
-- src/runtime/interpreter/frame.rs: the frames of a thread. `top_frame`, with the frames that
-- `previous_frame` leads to, is a list with the top first. A class of an exception table is resolved
-- by the class loader, which is an argument.
pub mod Calls
pub mod Handlers
mod Tests
use rust_jvm.Prelude.{
  ℕ, zero, suc, ◌+◌, ◌-◌, ◌*◌, ◌/◌, ◌%◌, ◌^◌, ◌≤◌, Bool, true, false, not, ◌&&◌, Option, none, some,
  List, [], ◌∷◌, ◌++◌, Bytes, length, get_elem?, take, drop, ltb, leb, if◌then◌else◌,
}
use rust_jvm.Prelude.Outcome.{Outcome, ok, panic, out_of_fuel, ◌>>=◌, unwrap}
use rust_jvm.Descriptor.{
  Text, FieldType, byte, char, double, float, int, long, short, boolean, object, array, ReturnType,
  is_long,
}
use rust_jvm.Inheritance.{Class, is_same_or_sub_class_of}
use rust_jvm.Interpreter.{Variable, Frame}

-- `catch_type` is the name of a class, or none for all exceptions.
pub record ExceptionTableItem : Type 0 where
  pub start_pc : ℕ
  pub end_pc : ℕ
  pub handler_pc : ℕ
  pub catch_type : Option Text

-- `Frame`: what the instructions work on, and what calls and exceptions need.
pub record CallFrame : Type 0 where
  pub frame : Frame
  pub return_type : ReturnType
  pub exception_table : List ExceptionTableItem

unfoldable pub is_dummy : CallFrame → Bool
is_dummy f = leb (length f.frame.code) 0

pub record CodeAttribute : Type 0 where
  pub code : Bytes
  pub exception_table : List ExceptionTableItem

pub record MethodInfo : Type 0 where
  pub is_native : Bool
  pub parameters : List FieldType
  pub return_type : ReturnType
  pub code : Option CodeAttribute

-- The opcode of the return instruction of a native method.
unfoldable pub return_inst : ReturnType → ℕ
return_inst none = 0xb1
return_inst (some long) = 0xad
return_inst (some double) = 0xaf
return_inst (some float) = 0xae
return_inst (some (object n)) = 0xb0
return_inst (some (array t)) = 0xb0
return_inst (some _) = 0xac

unfoldable pub code_attribute : MethodInfo → Outcome CodeAttribute
code_attribute m =
    if m.is_native
    then ok (record { code = 0xfe ∷ return_inst m.return_type ∷ []; exception_table = [] })
    else unwrap m.code

unfoldable pub param_size : List FieldType → ℕ
param_size [] = 0
param_size (t ∷ ts) = (if is_long t then 2 else 1) + param_size ts

unfoldable pub param_words : MethodInfo → Bool → ℕ
param_words m need_this = param_size m.parameters + (if need_this then 1 else 0)

-- What `drain` moves to the locals: the lowest word first.
unfoldable pub drained : ℕ → List Variable → List Variable
drained zero stack = []
drained (suc n) [] = []
drained (suc n) (v ∷ stack) = drained n stack ++ v ∷ []

-- The locals of the new frame, and the frames below it.
unfoldable pub take_arguments : ℕ → List CallFrame → Outcome (List Variable × List CallFrame)
take_arguments n [] = ok ([], [])
take_arguments n (previous ∷ rest) =
    let stack = previous.frame.stack in
    if leb n (length stack)
    then ok (
      drained n stack,
      record previous { frame = record previous.frame { stack = drop n stack } } ∷ rest,
    )
    else panic

unfoldable pub new_frame_with_method_info :
    List CallFrame → MethodInfo → ℕ → Bool → Outcome (List CallFrame)
new_frame_with_method_info frames m return_address need_this = do
  code ← code_attribute m
  (locals, below) ← take_arguments (param_words m need_this) frames
  let lower = return_address % 2 ^ 32
  let upper = return_address / 2 ^ 32 % 2 ^ 32
  let frame : Frame = record { code = code.code; locals = locals; stack = lower ∷ upper ∷ [] }
  let top : CallFrame = record {
    frame = frame;
    return_type = m.return_type;
    exception_table = code.exception_table;
  }
  ok (top ∷ below)

-- What `Next::Return` pushes on the frame below, by the return type.
unfoldable pub push_result : ReturnType → Variable → Variable → List Variable → List Variable
push_result none v1 v2 stack = stack
push_result (some t) v1 v2 stack = if is_long t then v2 ∷ v1 ∷ stack else v1 ∷ stack

-- The arm `Next::Return` of `Thread::execute`, for the frame that returns and those below.
unfoldable pub return_to : CallFrame → List CallFrame → Variable → Variable → List CallFrame
return_to f [] v1 v2 = []
return_to f (previous ∷ rest) v1 v2 =
    record previous {
      frame = record previous.frame {
        stack = push_result f.return_type v1 v2 previous.frame.stack;
      };
    }
    ∷ rest

-- The handler that the `for` of `handle_exception` ends with, or the error of the class loader.
pub data Search : Type 0 where
  handler : Option ℕ → Search
  load_error : Search

unfoldable pub covers : ExceptionTableItem → ℕ → Bool
covers item pc = leb item.start_pc pc && ltb pc item.end_pc

pub data Handled : Type 0 where
  -- `top_frame` and `pc` from which the thread goes on.
  resumed : List CallFrame → ℕ → Handled
  -- `Err(exception)`
  uncaught : Handled
  failed : Handled

-- `stack[i]`
unfoldable pub from_bottom : List Variable → ℕ → Option Variable
from_bottom stack i = if ltb i (length stack) then get_elem? stack (length stack - 1 - i) else none

-- What `handle_exception` does with the handler, in the frame `f` above `previous`; `up` is what comes
-- of none.
unfoldable pub go_on : ℕ → CallFrame → List CallFrame → Outcome Handled → Search → Outcome Handled
go_on obj_ref f previous up (handler none) = up
go_on obj_ref f previous up (handler (some handler_pc)) =
    ok
      (resumed (record f { frame = record f.frame { stack = obj_ref ∷ [] } } ∷ previous) handler_pc)
go_on obj_ref f previous up load_error = ok failed

module _ (resolve_class : Text → Option Class) where
  unfoldable pub find_handler : Class → ℕ → List ExceptionTableItem → Option ℕ → Search
  find_handler exp_class pc [] best = handler best
  find_handler exp_class pc (item ∷ items) best =
      let skip = find_handler exp_class pc items best in
      let take_it = find_handler exp_class pc items (some item.handler_pc) in
      if covers item pc
      then (elim item.catch_type [
        | none ↦ handler (some item.handler_pc)
        | some name ↦ elim (resolve_class name) [
          | none ↦ load_error
          | some handler_class ↦
              if is_same_or_sub_class_of exp_class handler_class then take_it else skip
        ]
      ])
      else skip

  unfoldable pub handle_in_frame :
      Class → ℕ → CallFrame → List CallFrame → ℕ → Outcome Handled → Outcome Handled
  handle_in_frame exp_class obj_ref f previous pc up =
      go_on obj_ref f previous up (find_handler exp_class pc f.exception_table none)

  -- The call of itself, for the frame that `self.top_frame.take()` gives and leaves none behind.
  unfoldable pub handle_in_top : Class → ℕ → List CallFrame → Outcome Handled
  handle_in_top exp_class obj_ref [] = ok uncaught
  handle_in_top exp_class obj_ref (f ∷ previous) = if is_dummy f then ok uncaught else do
    upper ← unwrap (from_bottom f.frame.stack 0)
    lower ← unwrap (from_bottom f.frame.stack 1)
    handle_in_frame exp_class obj_ref f previous (upper * 2 ^ 32 + lower) (ok uncaught)

  unfoldable pub handle_exception :
      Class → ℕ → List CallFrame → CallFrame → List CallFrame → ℕ → Outcome Handled
  handle_exception exp_class obj_ref top f previous pc =
      handle_in_frame exp_class obj_ref f previous pc (handle_in_top exp_class obj_ref top)

  -- The arm `Next::Exception` of `Thread::execute`, which has taken the top frame.
  unfoldable pub on_exception : Class → ℕ → CallFrame → List CallFrame → ℕ → Outcome Handled
  on_exception exp_class obj_ref f previous pc = handle_exception exp_class obj_ref [] f previous pc
