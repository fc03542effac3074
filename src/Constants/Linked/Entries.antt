-- ===== src/Constants/Linked/Entries.antt =====
-- What each entry of a pool links to, and `convert`, the body of the second loop of
-- `parse_constant_pool` in src/runtime/class_loader.rs.
use rust_jvm.Prelude.{Option, ℕ, ◌≡◌, ◌↔◌, refl, arith, some, Bytes}
use rust_jvm.Prelude.Outcome.{ok, unwrap}
use rust_jvm.Prelude.Equality.{lookup, nat_eq}
use rust_jvm.Descriptor.{Text, FieldType, MethodDescriptor}
use rust_jvm.Descriptor.Nom
use rust_jvm.Descriptor.Parser.{parse_field_descriptor, parse_method_descriptor}
use rust_jvm.ClassFile
use rust_jvm.Constants.{
  NameAndType, Methodref, ReferenceKind, get_field, get_static, put_field, put_static,
  invoke_virtual, invoke_static, invoke_special, new_invoke_special, invoke_interface,
  ConstantPoolInfo, utf8, integer, float, long, double, class, string, fieldref, methodref,
  interface_methodref, name_and_type, method_handle, method_type, dynamic, invoke_dynamic,
  module_info, package_info, empty, reference_kind_of, field_descriptor, method_descriptor,
  convert_methodref, convert, ClassNames, resolve_cp_name_and_type_field,
  resolve_cp_name_and_type_method,
}
use rust_jvm.Constants.Linked.{
  At, Pool, Utf8At, bind_iff, ok_iff, unwrap_iff, entry_iff, as_name_and_type_iff,
  resolve_cp_utf8_iff, NameAndTypeAt, resolve_cp_name_and_type_iff,
}

-- The numbers of the kinds of references.
abbrev pub kind_number : ReferenceKind → ℕ
kind_number get_field = 1
kind_number get_static = 2
kind_number put_field = 3
kind_number put_static = 4
kind_number invoke_virtual = 5
kind_number invoke_static = 6
kind_number invoke_special = 7
kind_number new_invoke_special = 8
kind_number invoke_interface = 9

reference_kind_of_iff :
    (n : ℕ) (k : ReferenceKind) → (reference_kind_of n ≡ ok k) ↔ (n ≡ kind_number k)
unfolding reference_kind_of
reference_kind_of_iff n k = (λ h. to n k h, λ h. rw h (from k))
  where
    to : (n : ℕ) (k : ReferenceKind) → reference_kind_of n ≡ ok k → n ≡ kind_number k
    to n k h = ground arith

    from : (k : ReferenceKind) → reference_kind_of (kind_number k) ≡ ok k
    from get_field = refl
    from get_static = refl
    from put_field = refl
    from put_static = refl
    from invoke_virtual = refl
    from invoke_static = refl
    from invoke_special = refl
    from new_invoke_special = refl
    from invoke_interface = refl

module _ (nom : Nom.Nom) (to_str : Bytes → Option Text) where
  abbrev pub FieldText : Bytes → FieldType → Type 0
  FieldText bytes t =
      (text : Text) × (to_str bytes ≡ some text)
      × ((p : Text × FieldType) × (parse_field_descriptor nom text ≡ some p) × (t ≡ p.1))

  abbrev pub MethodText : Bytes → MethodDescriptor → Type 0
  MethodText bytes t =
      (text : Text) × (to_str bytes ≡ some text)
      × ((p : Text × MethodDescriptor) × (parse_method_descriptor nom text ≡ some p) × (t ≡ p.1))

  pub field_descriptor_iff :
      (bytes : Bytes) (t : FieldType)
      → (field_descriptor nom to_str bytes ≡ ok t) ↔ FieldText bytes t
  unfolding field_descriptor
  field_descriptor_iff bytes t =
      bind_iff _ (unwrap_iff (to_str bytes)) (λ text. bind_iff _ (unwrap_iff _) (λ p. ok_iff p.1 t))

  pub method_descriptor_iff :
      (bytes : Bytes) (t : MethodDescriptor)
      → (method_descriptor nom to_str bytes ≡ ok t) ↔ MethodText bytes t
  unfolding method_descriptor
  method_descriptor_iff bytes t =
      bind_iff _ (unwrap_iff (to_str bytes)) (λ text. bind_iff _ (unwrap_iff _) (λ p. ok_iff p.1 t))

  -- A name and a type, of which the type is a descriptor of the kind `Reads`.
  abbrev pub SignatureAt : {T : Type 0} → (Bytes → T → Type 0) → Pool → ℕ → NameAndType T → Type 0
  SignatureAt {T} Reads cp index r =
      (c : ClassFile.ConstantPoolInfo) × At cp index c
      × ((p : ℕ × ℕ) × (c ≡ ClassFile.name_and_type p.0 p.1)
          × ((name : Bytes) × Utf8At cp p.0 name
              × ((d : Bytes) × Utf8At cp p.1 d
                  × ((t : T) × Reads d t × (r ≡ record { name = name; descriptor = t })))))

  pub field_signature_iff :
      (cp : Pool) (index : ℕ) (r : NameAndType FieldType)
      → (resolve_cp_name_and_type_field nom to_str cp index ≡ ok r)
        ↔ SignatureAt FieldText cp index r
  unfolding resolve_cp_name_and_type_field
  field_signature_iff cp index r = bind_iff _ (entry_iff cp index) (λ c.
      bind_iff _ (as_name_and_type_iff c) (λ p. bind_iff _ (resolve_cp_utf8_iff cp p.0) (λ name.
        bind_iff _ (resolve_cp_utf8_iff cp p.1) (λ d.
          bind_iff _ (field_descriptor_iff d)
            (λ t. ok_iff (record { name = name; descriptor = t }) r)))))

  pub method_signature_iff :
      (cp : Pool) (index : ℕ) (r : NameAndType MethodDescriptor)
      → (resolve_cp_name_and_type_method nom to_str cp index ≡ ok r)
        ↔ SignatureAt MethodText cp index r
  unfolding resolve_cp_name_and_type_method
  method_signature_iff cp index r = bind_iff _ (entry_iff cp index) (λ c.
      bind_iff _ (as_name_and_type_iff c) (λ p. bind_iff _ (resolve_cp_utf8_iff cp p.0) (λ name.
        bind_iff _ (resolve_cp_utf8_iff cp p.1) (λ d.
          bind_iff _ (method_descriptor_iff d)
            (λ t. ok_iff (record { name = name; descriptor = t }) r)))))

  -- The name of the class at an index.
  abbrev pub ClassAt : Pool → ℕ → Text → Type 0
  ClassAt cp index name =
      (n : ℕ) × At cp index (ClassFile.class n)
      × ((b : Bytes) × Utf8At cp n b × (to_str b ≡ some name))

  abbrev pub MethodrefAt : Pool → ℕ → ℕ → Methodref → Type 0
  MethodrefAt cp class_index index r =
      (name : Text) × ClassAt cp class_index name
      × ((s : NameAndType MethodDescriptor) × SignatureAt MethodText cp index s
          × (r ≡ record { class_name = name; name_and_type = s }))

  -- What an entry of the file becomes in the pool.
  abbrev pub Links : Pool → ClassFile.ConstantPoolInfo → ConstantPoolInfo → Type 0
  Links cp (ClassFile.utf8 v) c = c ≡ utf8 v
  Links cp (ClassFile.integer v) c = c ≡ integer v
  Links cp (ClassFile.float v) c = c ≡ float v
  Links cp (ClassFile.long v) c = c ≡ long v
  Links cp (ClassFile.double v) c = c ≡ double v
  Links cp (ClassFile.class n) c =
      (b : Bytes) × Utf8At cp n b × ((text : Text) × (to_str b ≡ some text) × (c ≡ class text))
  Links cp (ClassFile.string n) c = (b : Bytes) × Utf8At cp n b × (c ≡ string b)
  Links cp (ClassFile.fieldref k n) c =
      (name : Text) × ClassAt cp k name
      × ((s : NameAndType FieldType) × SignatureAt FieldText cp n s
          × (c ≡ fieldref (record { class_name = name; name_and_type = s })))
  Links cp (ClassFile.methodref k n) c = (r : Methodref) × MethodrefAt cp k n r × (c ≡ methodref r)
  Links cp (ClassFile.interface_methodref k n) c =
      (r : Methodref) × MethodrefAt cp k n r × (c ≡ interface_methodref r)
  Links cp (ClassFile.name_and_type a b) c =
      (r : NameAndType Bytes) × NameAndTypeAt cp a b r × (c ≡ name_and_type r)
  Links cp (ClassFile.dynamic a n) c =
      (s : NameAndType FieldType) × SignatureAt FieldText cp n s × (c ≡ dynamic a s)
  Links cp (ClassFile.invoke_dynamic a n) c =
      (s : NameAndType MethodDescriptor) × SignatureAt MethodText cp n s × (c ≡ invoke_dynamic a s)
  Links cp (ClassFile.method_handle kind index) c =
      (k : ReferenceKind) × (kind ≡ kind_number k)
      × (c ≡ method_handle (record { reference_kind = k; reference_index = index }))
  Links cp (ClassFile.method_type n) c = c ≡ method_type
  Links cp (ClassFile.module_info n) c = (b : Bytes) × Utf8At cp n b × (c ≡ module_info b)
  Links cp (ClassFile.package_info n) c = (b : Bytes) × Utf8At cp n b × (c ≡ package_info b)
  Links cp ClassFile.empty c = c ≡ empty

  -- The map of the class names is right.
  abbrev pub Names : Pool → ClassNames nom to_str → Type 0
  Names cp names = (j : ℕ) (name : Text) → (lookup j names ≡ some name) ↔ ClassAt cp j name

  module _ (cp : Pool) (names : ClassNames nom to_str) (right : Names cp names) where
    class_iff : (k : ℕ) (name : Text) → (unwrap (lookup k names) ≡ ok name) ↔ ClassAt cp k name
    class_iff k name = (
      λ h. (right k name).0 ((unwrap_iff (lookup k names) name).0 h),
      λ h. (unwrap_iff (lookup k names) name).1 ((right k name).1 h),
    )

    methodref_iff :
        (k n : ℕ) (r : Methodref)
        → (convert_methodref nom to_str cp names k n ≡ ok r) ↔ MethodrefAt cp k n r
    unfolding convert_methodref
    methodref_iff k n r = bind_iff _ (class_iff k) (λ name.
        bind_iff _ (method_signature_iff cp n)
          (λ s. ok_iff (record { class_name = name; name_and_type = s }) r))

    pub convert_iff :
        (info : ClassFile.ConstantPoolInfo) (c : ConstantPoolInfo)
        → (convert nom to_str cp names info ≡ ok c) ↔ Links cp info c
    unfolding convert
    convert_iff (ClassFile.utf8 v) c = ok_iff (utf8 v) c
    convert_iff (ClassFile.integer v) c = ok_iff (integer v) c
    convert_iff (ClassFile.float v) c = ok_iff (float v) c
    convert_iff (ClassFile.long v) c = ok_iff (long v) c
    convert_iff (ClassFile.double v) c = ok_iff (double v) c
    convert_iff (ClassFile.class n) c =
        bind_iff _ (resolve_cp_utf8_iff cp n)
          (λ b. bind_iff _ (unwrap_iff (to_str b)) (λ text. ok_iff (class text) c))
    convert_iff (ClassFile.string n) c =
        bind_iff _ (resolve_cp_utf8_iff cp n) (λ b. ok_iff (string b) c)
    convert_iff (ClassFile.fieldref k n) c = bind_iff _ (class_iff k) (λ name.
        bind_iff _ (field_signature_iff cp n)
          (λ s. ok_iff (fieldref (record { class_name = name; name_and_type = s })) c))
    convert_iff (ClassFile.methodref k n) c =
        bind_iff _ (methodref_iff k n) (λ r. ok_iff (methodref r) c)
    convert_iff (ClassFile.interface_methodref k n) c =
        bind_iff _ (methodref_iff k n) (λ r. ok_iff (interface_methodref r) c)
    convert_iff (ClassFile.name_and_type a b) c =
        bind_iff _ (resolve_cp_name_and_type_iff cp a b) (λ r. ok_iff (name_and_type r) c)
    convert_iff (ClassFile.dynamic a n) c =
        bind_iff _ (field_signature_iff cp n) (λ s. ok_iff (dynamic a s) c)
    convert_iff (ClassFile.invoke_dynamic a n) c =
        bind_iff _ (method_signature_iff cp n) (λ s. ok_iff (invoke_dynamic a s) c)
    convert_iff (ClassFile.method_handle kind index) c =
        bind_iff _ (reference_kind_of_iff kind)
          (λ k. ok_iff (method_handle (record { reference_kind = k; reference_index = index })) c)
    convert_iff (ClassFile.method_type n) c = ok_iff method_type c
    convert_iff (ClassFile.module_info n) c =
        bind_iff _ (resolve_cp_utf8_iff cp n) (λ b. ok_iff (module_info b) c)
    convert_iff (ClassFile.package_info n) c =
        bind_iff _ (resolve_cp_utf8_iff cp n) (λ b. ok_iff (package_info b) c)
    convert_iff ClassFile.empty c = ok_iff empty c
