-- ===== src/ClassLoader/Parse/Members.antt =====
-- What `parse_class` of src/runtime/class_loader.rs makes of a class file: each member has its name and
-- its descriptor, and the static fields have their variables.
use rust_jvm.Prelude.{
  Option, AllPairs, ℕ, ◌≡◌, refl, ◌∙◌, ap, Bool, not, List, [], ◌∷◌, Bytes, length, if◌then◌else◌,
  Bool-cases, inl, inr,
}
use rust_jvm.Prelude.Outcome.{Outcome, ok, ◌>>=◌, >>=-eq-ok}
use rust_jvm.Descriptor.{Text}
use rust_jvm.Descriptor.Nom
use rust_jvm.Parsing
use rust_jvm.ClassFile
use rust_jvm.Constants.{
  ConstantPoolInfo, utf8, class, entry, parse_constant_pool, field_descriptor, method_descriptor,
}
use rust_jvm.Constants.Linked.{At, entry_iff}
use rust_jvm.Constants.Linked.Entries.{
  FieldText, MethodText, field_descriptor_iff, method_descriptor_iff,
}
use rust_jvm.Constants.Pool.{AllLink, parse_constant_pool_iff}
use rust_jvm.Attributes.Resolve.{Pool, as_utf8, as_class, resolve_runtime_cp_utf8, resolve_cp_class}
use rust_jvm.ClassLoader.{FieldInfo, allocate_static_fields, object_words}
use rust_jvm.ClassLoader.Layout.{IsLaidOut, allocate_static_fields_lem}
use rust_jvm.ClassLoader.Parse.{
  MethodInfo, Class, is_static, map_all, partition_static, convert_attribute, parse_field,
  parse_method, parse_class,
}

map_all_sound :
    {A B : Type 0} (R : A → B → Type 0) (f : A → Outcome B) (xs : List A) (ys : List B)
    → ((a : A) (b : B) → f a ≡ ok b → R a b)
    → map_all f xs ≡ ok ys
    → AllPairs R xs ys
unfolding map_all
map_all_sound R f [] ys means run = let e : [] ≡ ys = cc run in rw (← e) tt
map_all_sound R f (x ∷ xs) ys means run =
    let (b, first, more) = >>=-eq-ok (f x) (λ b. map_all f xs >>= λ bs. ok (b ∷ bs)) run in
    let (bs, rest, whole) = >>=-eq-ok (map_all f xs) (λ bs. ok (b ∷ bs)) more in
    let e : b ∷ bs ≡ ys = cc whole in rw (← e) (means x b first, map_all_sound R f xs bs means rest)

as_utf8-eq : (c : ConstantPoolInfo) (s : Bytes) → as_utf8 c ≡ ok s → c ≡ utf8 s
unfolding as_utf8
as_utf8-eq (utf8 b) s h = cc h
as_utf8-eq _ s h = cc h

as_class-eq : (c : ConstantPoolInfo) (name : Text) → as_class c ≡ ok name → c ≡ class name
unfolding as_class
as_class-eq (class b) s h = cc h
as_class-eq _ s h = cc h

utf8-At :
    (cp : Pool) (index : ℕ) (s : Bytes)
    → resolve_runtime_cp_utf8 cp index ≡ ok s
    → At cp index (utf8 s)
unfolding resolve_runtime_cp_utf8
utf8-At cp index s run =
    let (c, found, shape) = >>=-eq-ok (entry cp index) as_utf8 run in
    (entry_iff cp index (utf8 s)).0 (found ∙ ap ok (as_utf8-eq c s shape))

class-At :
    (cp : Pool) (index : ℕ) (name : Text)
    → resolve_cp_class cp index ≡ ok name
    → At cp index (class name)
unfolding resolve_cp_class
class-At cp index name run =
    let (c, found, shape) = >>=-eq-ok (entry cp index) as_class run in
    (entry_iff cp index (class name)).0 (found ∙ ap ok (as_class-eq c name shape))

-- The fields whose flags satisfy a test.
abbrev pub only : (ℕ → Bool) → List FieldInfo → List FieldInfo
only chosen [] = []
only chosen (f ∷ fs) = if chosen f.access_flags then f ∷ only chosen fs else only chosen fs

partition_static-only :
    (fs : List FieldInfo)
    → (partition_static fs).0 ≡ only is_static fs
      × ((partition_static fs).1 ≡ only (λ flags. not (is_static flags)) fs)
unfolding partition_static
partition_static-only [] = (refl, refl)
partition_static-only (f ∷ fs) =
    let (a, b) = partition_static-only fs in
    elim (Bool-cases (is_static f.access_flags)) [
      | inl e ↦ rw e (ap (λ x. f ∷ x) a, b)
      | inr e ↦ rw e (a, ap (λ x. f ∷ x) b)
    ]

module _ (nom : Parsing.Nom) (chars : Nom.Nom) (to_str : Bytes → Option Text) where
  -- A field of the class is the declared one, with its name and type.
  pub record IsField (cp : Pool) (declared : ClassFile.FieldInfo) (f : FieldInfo) : Type 0 where
    pub flags : f.access_flags ≡ declared.access_flags
    pub named : At cp declared.name_index (utf8 f.name)
    pub text : Bytes
    pub described : At cp declared.descriptor_index (utf8 text)
    pub typed : FieldText chars to_str text f.descriptor

  pub record IsMethod (cp : Pool) (declared : ClassFile.MethodInfo) (m : MethodInfo) : Type 0 where
    pub flags : m.access_flags ≡ declared.access_flags
    pub named : At cp declared.name_index (utf8 m.name)
    pub text : Bytes
    pub described : At cp declared.descriptor_index (utf8 text)
    pub typed : MethodText chars to_str text m.descriptor

  parse_field_sound :
      (cp : Pool) (declared : ClassFile.FieldInfo) (f : FieldInfo)
      → parse_field nom chars to_str cp declared ≡ ok f
      → IsField cp declared f
  unfolding parse_field
  parse_field_sound cp declared f run =
      let (text, described, next) =
        >>=-eq-ok (resolve_runtime_cp_utf8 cp declared.descriptor_index) _ run in
      let (type, typed, next) = >>=-eq-ok (field_descriptor chars to_str text) _ next in
      let (name, named, next) = >>=-eq-ok (resolve_runtime_cp_utf8 cp declared.name_index) _ next in
      let (attributes, _, whole) =
        >>=-eq-ok (map_all (convert_attribute nom chars to_str cp) declared.attributes) _ next in
      let e : record {
        access_flags = declared.access_flags;
        name = name;
        descriptor = type;
        attributes = attributes;
        index = 0;
      }
          ≡ f =
        cc whole in
      rw (← e) (record {
        flags = refl;
        named = utf8-At cp declared.name_index name named;
        text = text;
        described = utf8-At cp declared.descriptor_index text described;
        typed = (field_descriptor_iff chars to_str text type).0 typed;
      })

  parse_method_sound :
      (cp : Pool) (declared : ClassFile.MethodInfo) (m : MethodInfo)
      → parse_method nom chars to_str cp declared ≡ ok m
      → IsMethod cp declared m
  unfolding parse_method
  parse_method_sound cp declared m run =
      let (text, described, next) =
        >>=-eq-ok (resolve_runtime_cp_utf8 cp declared.descriptor_index) _ run in
      let (type, typed, next) = >>=-eq-ok (method_descriptor chars to_str text) _ next in
      let (name, named, next) = >>=-eq-ok (resolve_runtime_cp_utf8 cp declared.name_index) _ next in
      let (attributes, _, whole) =
        >>=-eq-ok (map_all (convert_attribute nom chars to_str cp) declared.attributes) _ next in
      let e : record {
        access_flags = declared.access_flags;
        name = name;
        descriptor = type;
        attributes = attributes;
      }
          ≡ m =
        cc whole in
      rw (← e) (record {
        flags = refl;
        named = utf8-At cp declared.name_index name named;
        text = text;
        described = utf8-At cp declared.descriptor_index text described;
        typed = (method_descriptor_iff chars to_str text type).0 typed;
      })

  -- What the class has of the class file.
  pub record ParsesTo (class_file : ClassFile.Class) (c : Class) : Type 0 where
    pub pool :
        AllLink chars to_str class_file.constant_pool class_file.constant_pool c.constant_pool
    pub access_flags : c.access_flags ≡ class_file.access_flags
    pub named : At c.constant_pool class_file.this_class (class c.class_name)
    pub methods : AllPairs (IsMethod c.constant_pool) class_file.methods c.methods
    pub fields : List FieldInfo
    pub declared : AllPairs (IsField c.constant_pool) class_file.fields fields
    pub instance_fields : c.instance_fields_info ≡ only (λ flags. not (is_static flags)) fields
    pub static_fields : c.static_fields_info ≡ (allocate_static_fields (only is_static fields)).0
    pub laid_out : IsLaidOut 0 c.static_fields_info
    pub size : length c.static_fields ≡ object_words (only is_static fields)

  -- Where `parse_class` returns a class, its constant pool is what the one of the file links to; its name
  -- is the entry for `this_class`; each method and each field is the declared one at its place, with the
  -- name and the type that its numbers refer to; and the fields are split into the instance fields and
  -- the static ones, which stand one behind the other from 0 on, with as many variables as their words.
  pub parse_class_lem :
      (class_file : ClassFile.Class) (c : Class)
      → parse_class nom chars to_str class_file ≡ ok c
      → ParsesTo class_file c
  unfolding parse_class
  parse_class_lem class_file c run =
      let (cp, linked, next) =
        >>=-eq-ok (parse_constant_pool chars to_str class_file.constant_pool) _ run in
      let (fs, fields, next) =
        >>=-eq-ok (map_all (parse_field nom chars to_str cp) class_file.fields) _ next in
      let (ms, methods, next) =
        >>=-eq-ok (map_all (parse_method nom chars to_str cp) class_file.methods) _ next in
      let (attributes, _, next) =
        >>=-eq-ok (map_all (convert_attribute nom chars to_str cp) class_file.attributes) _ next in
      let (name, named, whole) = >>=-eq-ok (resolve_cp_class cp class_file.this_class) _ next in
      let (statics, others) = partition_static-only fs in
      let (laid, size) = allocate_static_fields_lem (partition_static fs).0 in
      let e : record {
        constant_pool = cp;
        access_flags = class_file.access_flags;
        class_name = name;
        static_fields_info = (allocate_static_fields (partition_static fs).0).0;
        instance_fields_info = (partition_static fs).1;
        methods = ms;
        attributes = attributes;
        static_fields = (allocate_static_fields (partition_static fs).0).1;
      }
          ≡ c =
        cc whole in
      rw (← e) (record {
        pool = (parse_constant_pool_iff chars to_str class_file.constant_pool cp).0 linked;
        access_flags = refl;
        named = class-At cp class_file.this_class name named;
        methods =
            map_all_sound (IsMethod cp) _ class_file.methods ms (parse_method_sound cp) methods;
        fields = fs;
        declared = map_all_sound (IsField cp) _ class_file.fields fs (parse_field_sound cp) fields;
        instance_fields = others;
        static_fields = ap (λ x. (allocate_static_fields x).0) statics;
        laid_out = laid;
        size = size ∙ ap (λ x. object_words x) statics;
      })
