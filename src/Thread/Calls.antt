-- ===== src/Thread/Calls.antt =====
-- src/runtime/interpreter/frame.rs, a call and the return from it.
use rust_jvm.Descriptor.{FieldType, double, long}
use rust_jvm.Prelude.{ℕ, ◌≢◌, ◌⊎◌, false, none, some, ◌≡◌, Bool, true, List, [], ◌∷◌}
use rust_jvm.Prelude.Outcome.{ok}
use rust_jvm.Interpreter.{Variable, void}
use rust_jvm.Interpreter.Instructions.{return_one, return_two}
use rust_jvm.Interpreter.Arms.{leave, next_return}
use rust_jvm.Interpreter.Control.{run_leave}
use rust_jvm.Thread.{CallFrame, CodeAttribute, MethodInfo, return_to}

-- The words of arguments of the types, in order: a long and a double are two words.
abbrev pub AreArguments : List FieldType → List Variable → Type 0
AreArguments [] values = values ≡ []
AreArguments (long ∷ types) values =
    (a : Variable) × (b : Variable) × (rest : List Variable) × (values ≡ a ∷ b ∷ rest)
    × AreArguments types rest
AreArguments (double ∷ types) values =
    (a : Variable) × (b : Variable) × (rest : List Variable) × (values ≡ a ∷ b ∷ rest)
    × AreArguments types rest
AreArguments (_ ∷ types) values =
    (a : Variable) × (rest : List Variable) × (values ≡ a ∷ rest) × AreArguments types rest

-- The words of the receiver, if the method has one, and of the arguments.
abbrev pub IsCallOf : MethodInfo → Bool → List Variable → Type 0
IsCallOf m true values =
    (this : Variable) × (rest : List Variable) × (values ≡ this ∷ rest)
    × AreArguments m.parameters rest
IsCallOf m false values = AreArguments m.parameters values

-- The frame with another stack.
abbrev pub on_stack : CallFrame → List Variable → CallFrame
on_stack f stack = record f { frame = record f.frame { stack = stack } }

-- What a call has made of the frames `previous ∷ rest`, for arguments `values` above `under`.
pub record Calls (m : MethodInfo) (c : CodeAttribute) (previous top : CallFrame)
    (values under : List Variable) (return_address : ℕ) : Type 0 where
  -- The arguments are the first locals, in the order in which they were pushed.
  pub locals : top.frame.locals ≡ values
  pub code : top.frame.code ≡ c.code
  -- With a result above what the call put on the new stack, a return leads to the address.
  pub returns :
      (pc : ℕ) (wide : Bool) (v : Variable)
      → run_leave return_one (record {
        pc = pc;
        wide = wide;
        frame = record top.frame { stack = v ∷ top.frame.stack };
      })
        ≡ ok (
          record { pc = pc; wide = wide; frame = record top.frame { stack = [] } },
          leave (next_return v void return_address),
        )
  pub returns_long :
      (pc : ℕ) (wide : Bool) (v1 v2 : Variable)
      → run_leave return_two (record {
        pc = pc;
        wide = wide;
        frame = record top.frame { stack = v2 ∷ v1 ∷ top.frame.stack };
      })
        ≡ ok (
          record { pc = pc; wide = wide; frame = record top.frame { stack = [] } },
          leave (next_return v1 v2 return_address),
        )
  -- The frame below then has the result in place of the arguments, with the second word of a long or
  -- a double on top.
  pub resumes_void :
      m.return_type ≡ none
      → (v1 v2 : Variable) (rest : List CallFrame)
      → return_to top (on_stack previous under ∷ rest) v1 v2 ≡ on_stack previous under ∷ rest
  pub resumes_one :
      (t : FieldType)
      → m.return_type ≡ some t
      → t ≢ long
      → t ≢ double
      → (v1 v2 : Variable) (rest : List CallFrame)
      → return_to top (on_stack previous under ∷ rest) v1 v2 ≡ on_stack previous (v1 ∷ under) ∷ rest
  pub resumes_two :
      (t : FieldType)
      → m.return_type ≡ some t
      → (t ≡ long) ⊎ (t ≡ double)
      → (v1 v2 : Variable) (rest : List CallFrame)
      → return_to top (on_stack previous under ∷ rest) v1 v2
        ≡ on_stack previous (v2 ∷ v1 ∷ under) ∷ rest
