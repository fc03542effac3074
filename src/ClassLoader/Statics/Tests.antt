-- ===== src/ClassLoader/Statics/Tests.antt =====
-- A class with a constant of the type `int`, one that is a string, and a field without a constant.
use rust_jvm.Prelude.{some, true, false, ℕ, ◌≡◌, ◌≤◌, refl, arith, List, [], ◌∷◌, length, All}
use rust_jvm.Prelude.Outcome.{ok, panic, ◌>>=◌}
use rust_jvm.Prelude.Equality.{lookup, nat_eq, list_eq}
use rust_jvm.Descriptor.{int, long, object, is_long}
use rust_jvm.Prelude.Texts.{codes}
use rust_jvm.Attributes.Data.{constant_value, signature}
use rust_jvm.Attributes.Data
use rust_jvm.Interpreter.{Variable}
use rust_jvm.ClassLoader.{FieldInfo, object_words}
use rust_jvm.ClassLoader.Layout.{IsLaidOut}
use rust_jvm.JavaStr.Encode.{encode, encode_char}
use rust_jvm.Heap.{new_heap}
use rust_jvm.ClassLoader.Statics.Interning.{Strings, intern_string, CanIntern, Follows}
use rust_jvm.ClassLoader.Statics.{
  constant_of, small_value, write_field, write_constant, init_field, init_static_from_const_value,
}
use rust_jvm.ClassLoader.Statics.Initial.{ConstantFits, IsInitial, init_static_lem}

-- java/lang/String is initialised, and no string was interned.
abbrev no_strings : Strings ℕ
no_strings = record { heap = new_heap; string_table = []; string_class = some true }

abbrev seven : FieldInfo
seven = record {
  access_flags = 8;
  name = b'n' ∷ [];
  descriptor = int;
  attributes = signature [] ∷ constant_value (Data.int 7) ∷ [];
  index = 0;
}

abbrev time : FieldInfo
time = record { access_flags = 8; name = b't' ∷ []; descriptor = long; attributes = []; index = 1 }

abbrev word : FieldInfo
word = record {
  access_flags = 8;
  name = b'w' ∷ [];
  descriptor = object (codes "java/lang/String");
  attributes = constant_value (Data.string (b'a' ∷ [])) ∷ [];
  index = 3;
}

abbrev statics : List FieldInfo
statics = seven ∷ time ∷ word ∷ []

abbrev before : List Variable
before = 0 ∷ 0 ∷ 0 ∷ 0 ∷ []

initialised :
    (init_static_from_const_value (seven ∷ time ∷ []) (before, no_strings) >>= λ r. ok r.0)
    ≡ ok (7 ∷ 0 ∷ 0 ∷ 0 ∷ [])
unfolding init_static_from_const_value init_field constant_of write_constant small_value write_field
initialised = refl

-- Before java/lang/String is initialised a string cannot be interned.
too_early : intern_string (b'a' ∷ []) (record no_strings { string_class = some false }) ≡ panic
unfolding intern_string
too_early = refl

laid : IsLaidOut 0 statics
unfolding is_long
laid = (refl, (refl, (refl, tt)))

fits : All (ConstantFits) statics
unfolding constant_of small_value
fits = (
  λ c e. let same : Data.int 7 ≡ c = cc e in rw (← same) (7, refl),
  (
    λ c e. absurd (cc e),
    (
      λ c e.
          let same : Data.string (b'a' ∷ []) ≡ c = cc e in
          rw (← same) (refl, (b'a' ∷ [], (omega arith, tt), unfold encode encode_char in refl)),
      tt,
    ),
  ),
)

room : object_words statics ≤ length before
unfolding object_words is_long
room = omega arith

can_intern : CanIntern 3 no_strings
unfolding lookup
can_intern = record {
  ready = refl;
  sound = record { packed = refl; entries = λ key e h. cc h };
  room = omega arith;
}

init_static_lem_example :
    (r : List Variable × Strings ℕ) × (init_static_from_const_value statics (before, no_strings)
      ≡ ok r)
    × (length r.0 ≡ length before)
    × Follows 0 no_strings r.1
    × All (IsInitial r.1 before r.0) statics
init_static_lem_example = init_static_lem statics before no_strings can_intern laid fits room
