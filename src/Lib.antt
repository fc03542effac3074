-- ===== src/Lib.antt =====
-- rust-jvm, a Java virtual machine in Rust: the parts of it that compute on their own data,
-- translated to functions, with the theorems that make them correct.
--
-- A class file is parsed, its strings are in modified UTF-8 and its types are descriptors; the
-- interpreter runs methods in frames on objects of the heap, which also interns strings and class
-- objects.
--
-- JavaStr: src/class/structs/java_str.rs. `convert_to_unicode` is its two loops one after the
--   other, each on what is left of the input; the second takes as fuel one more than the bytes that
--   are left, and every step consumes a byte.
-- Heap: src/runtime/heap.rs with src/runtime/heap/string_table.rs, src/runtime/heap/reflection.rs
--   and src/runtime/structs/object.rs. A heap is its vector of slots and `next_id`; an operation
--   takes the heap and returns the next. A failed assertion, index or `expect` is `panic`. A class
--   is any type, and the bytes of an object are a list.
-- Descriptor: src/descriptor.rs. The combinators of the crate nom are the record `Nom`, with what
--   nom documents of them, and `Descriptor.Run` has functions that satisfy it. A type nests as deep
--   as it has `[`, so one more than the length of the input is fuel enough.
-- Interpreter: src/runtime/interpreter.rs, src/runtime/interpreter/instructions.rs and, of
--   src/runtime/interpreter/frame.rs, the words of a frame. `Env` is the frame with `pc` and the
--   flag `wide`; an arm of `execute` is a function of it, in `Interpreter.Arms` or
--   `Interpreter.Control`, and ends as a `Flow`. Words are numbers with 32 or 64 bits. `execute`
--   takes the number of turns as fuel, since bytecode may loop for ever.
-- Inheritance: src/runtime/inheritance.rs, over trees of classes, which are finite because a
--   class is made after its superclass and interfaces.
-- Thread: the calls, returns and exception handlers of src/runtime/interpreter/frame.rs, over a
--   list of frames with the top first. What loads a class is an argument.
-- Parsing: the byte parsers of the crate nom, as the record `Nom` with what nom documents of
--   them; `Parsing.Run` has functions that satisfy it. A parser returns what is left and a value,
--   fails, panics, or runs out of fuel.
-- ClassFile: src/class/parser.rs with src/class/structs.rs and
--   src/class/structs/constant_pool.rs. A round of the loop over the constant pool adds an entry at
--   least, so one more than the count is fuel enough.
-- Constants: the entries of src/runtime/structs/constant_pool.rs and parse_constant_pool of
--   src/runtime/class_loader.rs, which links them. The decoder `to_str` of the crate cesu8_java is
--   an argument; where it refuses bytes, the program panics. The texts that `to_str` gives for the
--   names of methods are taken to be valid.
-- Attributes: src/runtime/structs/attributes.rs and parse_attribute of
--   src/runtime/class_loader.rs. Attributes and element values nest, and every level consumes a
--   byte, so one more than the length of the input is fuel enough.
-- ClassLoader: `ClassLoader.Parse` is parse_class of src/runtime/class_loader.rs; then the words
--   given to instance fields by resolve_this_class_field_ref of
--   src/runtime/class_loader/bootstrap.rs and to static fields by allocate_static_fields of
--   src/runtime/class_loader.rs, and the index that a reference to an instance field is resolved
--   to.
-- ClassLoader.Vtable: build_vtable of src/runtime/class_loader/bootstrap.rs. A defined class is
--   named by its place among the defined ones.
-- ClassLoader.Methods: the resolution of fields and methods in src/runtime/class_loader.rs, and
--   the lookup of a virtual call in src/runtime/interpreter/frame.rs. A class stands behind its
--   superclass and interfaces, so its place is a bound on the fuel.
-- ClassLoader.Statics: init_static_from_const_value and intern_string of
--   src/runtime/class_loader.rs, on the static fields, the heap and the table of strings.
-- Prelude: lists, bytes, Boolean tests, outcomes and association lists, which the parts share.
--
-- Not modelled: raw allocation and transmutes, monitors and locks, the reading of archives and
-- modules, floating point, the cells that keep what a reference was resolved to, the order in
-- which classes are initialised, array classes, the arms of the interpreter on objects and calls,
-- the native methods and the start of the process.
pub mod Prelude
pub mod JavaStr
pub mod Heap
pub mod Descriptor
pub mod Interpreter
pub mod Inheritance
pub mod Thread
pub mod Parsing
pub mod ClassFile
pub mod Constants
pub mod Attributes
pub mod ClassLoader
