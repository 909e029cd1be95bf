-- ===== src/Message/Write/Again/Arguments.antt =====
-- `Message.append` of _dbus_bindings/message-append.c on the objects that stand for values.
use mathlib.Core.List.{append_assoc, append-nil}
use python_dbus.Message.Append.{Interpreter}
use python_dbus.Message.Guess.Lookup.{get_object_path}
use python_dbus.Message.Objects.Described.{describe_item, typed_lem, items_lem}
use python_dbus.Message.Objects.{object_of, objects_of, Fits, FitAll}
use python_dbus.Message.Signature.{SignatureIters}
use python_dbus.Message.Types.{print, print_all}
use python_dbus.Message.Values.{
  Value, Values, nil, cons, types_of, calls_all, size_all, type_of, calls, Call,
}
use python_dbus.Message.Guess.{
  get_variant_level, is_bool, describe, typed_signature, signature_string, new_signature,
  guess_signature,
}
use python_dbus.Message.Write.{Iteration, Memory, append_under, message_append}
use python_dbus.Prelude.{
  ℕ, ◌≤◌, Bool, true, false, not, ◌==◌, Option, none, some, List, [], ◌∷◌, ◌++◌, ◌≡◌, refl, ◌⊎◌,
  inl, inr, ltb, length, length-append, ap, arith, Bytes,
}
use python_dbus.Python.Integer.{ℤ, pos}
use python_dbus.Python.Object.{Object, tuple, IntType, int_object}
use python_dbus.Python.{ok, err}
use python_dbus.Message.Write.Again.{args_lem}
use python_dbus.Message.Write.Again.Shape.{is_empty-print_all}
use python_dbus.Message.Guess.Arguments.{inner}

module _ (lib : SignatureIters) (python : Interpreter) (iteration : Iteration) (memory : Memory)
    (plenty : (w : List Call) (c : Call) → memory.for_call w c ≡ true)
    (signatures : (w : List Call) → memory.for_signature w ≡ true)
    (validate validate_single : Bytes → Bool)
    (plain : (obj : Object) → get_object_path (python.attribute obj) ≡ ok none)
    (truth : (n : ℕ) (level : ℤ)
      → python.truth (int_object IntType.boolean (pos n) level) ≡ ok (not (n == 0))) where
  append_under-calls :
      (n : ℕ) (vs : Values) (w : List Call)
      → size_all vs ≤ n
      → FitAll python.validate_utf8 validate validate_single vs
      → validate (print_all (types_of vs)) ≡ true
      → append_under lib python iteration memory n validate
          (print_all (types_of vs))
          (objects_of vs)
          w
        ≡ (some (w ++ calls_all vs), ok tt)
  unfolding append_under type_of print calls
  append_under-calls n nil w s f h = rw (h, append-nil w)
  append_under-calls n (cons v vs) w s f h =
      let sig = print_all (types_of (cons v vs)) in
      rw (h, is_empty-print_all (type_of v) (types_of vs), append_under)
        (ap (λ r. elim r.1 [ ok _ ↦ (some r.0, ok tt) | err e ↦ (none, err e) ])
          (args_lem lib python iteration memory plenty signatures validate validate_single
            (λ l v. plain (object_of l v)) truth n (cons v vs) (lib.init sig) true w s f
            (lib.at_init (type_of v) (types_of vs)) refl))

  tuple_lem :
      (v : Value) (vs : Values)
      → FitAll python.validate_utf8 validate validate_single (cons v vs)
      → signature_string python.attribute false (tuple (objects_of (cons v vs)))
        ≡ ok (b'(' ∷ (print_all (types_of (cons v vs)) ++ (b')' ∷ [])))
  unfolding signature_string describe get_variant_level is_bool typed_signature type_of print
      objects_of Fits
  tuple_lem v vs f =
      let at_paths = λ (l : ℕ) (u : Value). plain (object_of l u) in
      rw
        (
          plain (tuple (objects_of (cons v vs))),
          describe_item python.validate_utf8 validate validate_single python.attribute at_paths v
              f.0
              (typed_lem python.validate_utf8 validate validate_single python.attribute at_paths 0 v
                f.0),
          items_lem python.validate_utf8 validate validate_single python.attribute at_paths vs f.1,
        )
        (simp append_assoc)

  guess_signature-objects_of :
      (vs : Values)
      → FitAll python.validate_utf8 validate validate_single vs
      → validate (print_all (types_of vs)) ≡ true
      → guess_signature python.attribute validate (objects_of vs) ≡ ok (print_all (types_of vs))
  unfolding guess_signature new_signature type_of print objects_of
  guess_signature-objects_of nil f h = rw h
  guess_signature-objects_of (cons v vs) f h =
      let s = print_all (types_of (cons v vs)) in
      let long : ltb (length (b'(' ∷ (s ++ (b')' ∷ [])))) 2 ≡ false =
        ground (arith, length-append s (b')' ∷ [])) in
      rw (tuple_lem v vs f, long, inner s, h)

  -- `Message.append` of the objects that stand for values writes the values, in as many levels of
  -- recursion as they have parts: under their own signature, and with none, since that is what is
  -- guessed for them. There are no file descriptors; libdbus has memory and accepts the signature,
  -- no object has a `__dbus_object_path__`, and a dbus.Boolean is true unless it is 0.
  pub message_append-calls :
      (n : ℕ) (vs : Values) (signature : Option Bytes) (w : List Call)
      → size_all vs ≤ n
      → FitAll python.validate_utf8 validate validate_single vs
      → validate (print_all (types_of vs)) ≡ true
      → (signature ≡ none) ⊎ (signature ≡ some (print_all (types_of vs)))
      → message_append lib python iteration memory n validate signature (objects_of vs) (some w)
        ≡ (some (w ++ calls_all vs), ok tt)
  unfolding message_append
  message_append-calls n vs signature w s f h (inr e) = rw (e, append_under-calls n vs w s f h)
  message_append-calls n vs signature w s f h (inl e) =
      rw (e, guess_signature-objects_of vs f h, message_append) (append_under-calls n vs w s f h)
