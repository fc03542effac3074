-- ===== src/ClassLoader/Statics.antt =====
-- src/runtime/class_loader.rs: `init_static_from_const_value`, which gives the static fields of a class
-- the values of their attributes `ConstantValue`, on the static fields and the state that strings are
-- interned in.
pub mod Interning
pub mod Writes
pub mod Initial
mod Tests
use rust_jvm.Prelude.{
  ℕ, zero, suc, ◌+◌, Bool, true, false, Option, none, some, List, [], ◌∷◌, Bytes, length, set, ltb,
  if◌then◌else◌,
}
use rust_jvm.Prelude.Outcome.{Outcome, ok, panic, ◌>>=◌}
use rust_jvm.Prelude.Equality.{same, nat_eq, list_eq}
use rust_jvm.Descriptor.{
  Text, FieldType, byte, char, double, float, int, long, short, boolean, object, array,
}
use rust_jvm.Prelude.Texts.{codes}
use rust_jvm.Attributes.Data.{Const, AttributeInfo, constant_value}
use rust_jvm.Attributes.Data
use rust_jvm.Interpreter.{Variable, put_long}
use rust_jvm.ClassLoader.{FieldInfo}
use rust_jvm.ClassLoader.Statics.Interning.{Strings, intern_string}

-- `find_map`
unfoldable pub constant_of : List AttributeInfo → Option Const
constant_of [] = none
constant_of (constant_value c ∷ attributes) = some c
constant_of (_ ∷ attributes) = constant_of attributes

-- `Byte(a) | Char(a) | Int(a) | Short(a) | Boolean(a)`
unfoldable pub small_value : Const → Outcome ℕ
small_value (Data.byte a) = ok a
small_value (Data.char a) = ok a
small_value (Data.int a) = ok a
small_value (Data.short a) = ok a
small_value (Data.boolean a) = ok a
small_value _ = panic

unfoldable pub double_value : Const → Outcome ℕ
double_value (Data.double a) = ok a
double_value _ = panic

unfoldable pub float_value : Const → Outcome ℕ
float_value (Data.float a) = ok a
float_value _ = panic

unfoldable pub long_value : Const → Outcome ℕ
long_value (Data.long a) = ok a
long_value _ = panic

unfoldable pub string_value : Const → Outcome Bytes
string_value (Data.string a) = ok a
string_value _ = panic

-- `class.static_fields[index]`, and a write to it.
unfoldable pub write_field : List Variable → ℕ → Variable → Outcome (List Variable)
write_field static_fields index v =
    if ltb index (length static_fields) then ok (set static_fields index v) else panic

unfoldable pub write_two : List Variable → ℕ → Variable × Variable → Outcome (List Variable)
write_two static_fields index (a, b) = do
  static_fields ← write_field static_fields index a
  write_field static_fields (index + 1) b

module _ {C : Type 0} where
  -- The `match` on the type of the field.
  unfoldable pub write_constant :
      FieldType → Const → ℕ → List Variable × Strings C → Outcome (List Variable × Strings C)
  write_constant double c index (static_fields, heap) = do
    a ← double_value c
    static_fields ← write_two static_fields index (put_long a)
    ok (static_fields, heap)
  write_constant float c index (static_fields, heap) = do
    a ← float_value c
    static_fields ← write_field static_fields index a
    ok (static_fields, heap)
  write_constant long c index (static_fields, heap) = do
    a ← long_value c
    static_fields ← write_two static_fields index (put_long a)
    ok (static_fields, heap)
  write_constant (object class_name) c index (static_fields, heap) =
      if same class_name (codes "java/lang/String")
      then (do
        a ← string_value c
        (id, heap) ← intern_string a heap
        static_fields ← write_field static_fields index id
        ok (static_fields, heap))
      else panic
  write_constant (array t) c index (static_fields, heap) = panic
  write_constant _ c index (static_fields, heap) = do
    a ← small_value c
    static_fields ← write_field static_fields index a
    ok (static_fields, heap)

  unfoldable pub init_field :
      FieldInfo → Option Const → List Variable × Strings C → Outcome (List Variable × Strings C)
  init_field field none state = ok state
  init_field field (some c) state = write_constant field.descriptor c field.index state

  unfoldable pub init_static_from_const_value :
      List FieldInfo → List Variable × Strings C → Outcome (List Variable × Strings C)
  init_static_from_const_value [] state = ok state
  init_static_from_const_value (f ∷ fs) state = do
    state ← init_field f (constant_of f.attributes) state
    init_static_from_const_value fs state
