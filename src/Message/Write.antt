-- ===== src/Message/Write.antt =====
-- `Message.append` of _dbus_bindings/message-append.c: the containers, and the loop over the arguments.
-- What is kept of libdbus is the list of calls that a message has seen; whether a call finds memory
-- may depend on all of them. The recursion takes fuel, and raises `out_of_fuel` without it; that goes
-- through the code like any other exception.
mod Trace
pub mod Steps
pub mod Balanced
pub mod Again
unfoldable pub use Trace.*
use python_dbus.Message.Append.{Interpreter, append_basic}
use python_dbus.Message.Guess.{get_variant_level, signature_string, guess_signature}
use python_dbus.Message.Signature.{SignatureIters}
use python_dbus.Message.Values.{
  Call, open_container, put_basic, put_bytes, close_container, abandon_container,
}
use python_dbus.Numbers.{byte_new}
use python_dbus.Prelude.{
  ℕ, zero, suc, ◌+◌, Bool, true, false, not, ◌&&◌, Option, none, some, List, [], ◌∷◌, ◌++◌, ◌≡◌,
  ◌==◌, if◌then◌else◌, Bytes, is_empty,
}
use python_dbus.Python.Integer.{ℤ, pos, negsuc}
use python_dbus.Python.Object.{
  Object, BytesType, bytes, byte_array, bytes_object, array, tuple, list, struct, dict, dictionary,
  Objects, nil, cons, Entries, end, entry,
}
use python_dbus.Python.{
  Exception, type_error, value_error, memory_error, dbus_exception, unset, out_of_fuel, Result, ok,
  err,
}

module _ (lib : SignatureIters) (python : Interpreter) (iteration : Iteration)
    (memory : Memory) where
  -- A call that raises MemoryError when it finds none.
  unfoldable pub call : Call → Writer (Unit {0})
  call c w = if memory.for_call w c then (w ++ (c ∷ []), ok tt) else (w, err memory_error)

  -- `dbuspy_message_iter_close_container`, by what came before.
  unfoldable pub close_or_abandon : {A : Type 0} → Result A → Writer A
  close_or_abandon (ok a) w = (call close_container then_do λ _. return (ok a)) w
  close_or_abandon (err e) w = (w ++ (abandon_container ∷ []), err e)

  -- The body of a container between its opening and its closing.
  unfoldable pub within : {A : Type 0} → ℕ → Option Bytes → Writer A → Writer A
  within c sig body =
      call (open_container c sig) then_do λ _. λ w. let (w', r) = body w in close_or_abandon r w'

  -- `_message_iter_append_string_as_byte_array`, which closes its container in any case.
  unfoldable pub append_string_as_byte_array : Bytes → Writer (Unit {0})
  append_string_as_byte_array s = call (open_container (b'a') (some (b'y' ∷ []))) then_do λ _.
      λ w. let (w', r) = call (put_bytes s) w in (call close_container then_do λ _. return r) w'

  -- The loop that opens the variants: so many, the last of which has this signature.
  unfoldable pub open_variants : ℕ → Bytes → Writer (Unit {0})
  open_variants zero sig = return (ok tt)
  open_variants (suc zero) sig = call (open_container (b'v') (some sig))
  open_variants (suc (suc n)) sig =
      call (open_container (b'v') (some (b'v' ∷ []))) then_do λ _. open_variants (suc n) sig

  -- The loop that closes them.
  unfoldable pub close_variants : ℕ → Writer (Unit {0})
  close_variants zero = return (ok tt)
  close_variants (suc n) = call close_container then_do λ _. close_variants n

  -- The functions that `_message_iter_append_pyobject` calls back are given it, as `append`.
  abbrev pub Append : Type 0
  Append = lib.Iter → Object → Writer (lib.Iter × Bool)

  -- `_message_iter_append_variant`
  unfoldable pub append_variant : Append → Object → Writer (Unit {0})
  append_variant append obj w =
      let n = variants (get_variant_level obj) in
      elim (signature_string python.attribute true obj) [
        | err e ↦ (w, err e)
        | ok obj_sig ↦
            (open_variants n obj_sig then_do λ _. λ w1.
                let (w2, r) = append (lib.init obj_sig) obj w1 in
                (close_variants n then_do λ _. return (elim r [ ok _ ↦ ok tt | err e ↦ err e ])) w2)
              w
      ]

  -- `_message_iter_append_dictentry`, with the value that subscripting the dict gave.
  unfoldable pub append_dictentry : Append → lib.Iter → Object → Result Object → Writer (Unit {0})
  append_dictentry append sig_iter key (err e) = return (err e)
  append_dictentry append sig_iter key (ok value) =
      within (b'e') none (
        append (lib.recurse sig_iter) key then_do λ r. append r.0 value then_do λ _. return (ok tt))

  -- The loops of `_message_iter_append_multi`: for an array,
  unfoldable pub append_items : Append → lib.Iter → Objects → Option Exception → Writer Bool
  append_items append sig_iter nil ends = return (end_of ends true)
  append_items append sig_iter (cons x xs) ends =
      append (lib.recurse sig_iter) x then_do λ _. append_items append sig_iter xs ends

  -- for an array of variants that is given a dbus.ByteArray,
  unfoldable pub append_bytes : Append → Objects → Option Exception → Writer Bool
  append_bytes append nil ends = return (end_of ends true)
  append_bytes append (cons x xs) ends = return (byte_new python.platform x (pos 0)) then_do λ byte.
      append_variant append byte then_do λ _. append_bytes append xs ends

  -- for a dict,
  unfoldable pub append_entries : Append → lib.Iter → Subscripts → Option Exception → Writer Bool
  append_entries append sig_iter no_more ends = return (end_of ends true)
  append_entries append sig_iter (item k v xs) ends =
      append_dictentry append (lib.recurse sig_iter) k v then_do λ _.
      append_entries append sig_iter xs ends

  -- and for a structure, whose iterator goes on; the flag is `more`.
  unfoldable pub append_members :
      Append → lib.Iter → Bool → Objects → Option Exception → Writer Bool
  append_members append sub_sig_iter more nil ends = return (end_of ends more)
  append_members append sub_sig_iter false (cons x xs) ends = return (err type_error)
  append_members append sub_sig_iter true (cons x xs) ends =
      append sub_sig_iter x then_do λ r. append_members append r.0 r.1 xs ends

  -- `_message_iter_append_multi` for an array or a dict: the signature of its items, and the rest.
  unfoldable pub append_array : lib.Iter → Writer Bool → Writer (Unit {0})
  append_array sig_iter loop w =
      if memory.for_signature w
      then within (b'a') (some (lib.get_signature (lib.recurse sig_iter)))
          (λ w1. let (w2, r) = loop w1 in (w2, finish_multi false r)) w
      else (w, err memory_error)

  -- `_message_iter_append_multi`, for its three modes.
  unfoldable pub append_multi_array : Append → lib.Iter → Object → Writer (Unit {0})
  append_multi_array append sig_iter obj w = elim (iteration.items obj) [
    | err e ↦ (w, err e)
    | ok (xs, ends) ↦
        append_array sig_iter
          (if is_byte_array obj && (lib.current_type (lib.recurse sig_iter) == b'v')
            then append_bytes append xs ends
            else append_items append sig_iter xs ends)
          w
  ]

  unfoldable pub append_multi_dict : Append → lib.Iter → Object → Writer (Unit {0})
  append_multi_dict append sig_iter obj w = elim (iteration.subscripts obj) [
    | err e ↦ (w, err e)
    | ok (xs, ends) ↦ append_array sig_iter (append_entries append sig_iter xs ends) w
  ]

  unfoldable pub append_multi_struct : Append → lib.Iter → Object → Writer (Unit {0})
  append_multi_struct append sig_iter obj w = elim (iteration.items obj) [
    | err e ↦ (w, err e)
    | ok (xs, ends) ↦
        within (b'r') none
          (λ w1.
            let (w2, r) = append_members append (lib.recurse sig_iter) true xs ends w1 in
            (w2, finish_multi true r))
          w
  ]

  -- The branch of `_message_iter_append_pyobject` for an array.
  unfoldable pub append_array_object : Append → lib.Iter → Object → Writer (Unit {0})
  append_array_object append sig_iter obj w =
      if lib.element_type sig_iter == b'e'
      then append_multi_dict append sig_iter obj w
      else elim (bytes_of obj) [
        | none ↦ append_multi_array append sig_iter obj w
        | some s ↦
            if lib.element_type sig_iter == b'y'
            then append_string_as_byte_array s w
            else append_multi_array append sig_iter obj w
      ]

  -- The branches for basic types, and for anything else.
  unfoldable pub append_basic_object : ℕ → Object → Writer (Unit {0})
  append_basic_object sig_type obj =
      return (append_basic python sig_type obj) then_do λ b. call (put_basic sig_type b)

  unfoldable pub append_by_type : Append → ℕ → lib.Iter → Object → Writer (Unit {0})
  append_by_type append sig_type sig_iter obj w =
      if sig_type == b'a'
      then append_array_object append sig_iter obj w
      else if sig_type == b'r'
      then append_multi_struct append sig_iter obj w
      else if sig_type == b'v'
      then append_variant append obj w
      else append_basic_object sig_type obj w

  -- `_message_iter_append_pyobject`: the iterator behind the type, and `more`.
  unfoldable pub append_pyobject : ℕ → Append
  append_pyobject zero sig_iter obj = return (err out_of_fuel)
  append_pyobject (suc n) sig_iter obj =
      append_by_type (append_pyobject n) (lib.current_type sig_iter) sig_iter obj then_do λ _.
      return (ok (lib.next sig_iter))

  -- The loop of `dbus_py_Message_append` over the arguments; the flag is `more`.
  unfoldable pub append_args : ℕ → lib.Iter → Bool → Objects → Writer (Unit {0})
  append_args n sig_iter true nil = return (err type_error)
  append_args n sig_iter true (cons x xs) =
      append_pyobject n sig_iter x then_do λ r. append_args n r.0 r.1 xs
  append_args n sig_iter false nil = return (ok tt)
  append_args n sig_iter false (cons x xs) = return (err type_error)

  -- What follows in `dbus_py_Message_append` once the signature is known: `self->msg`, which a failure
  -- to append throws away, and the result. The message is the calls that it has seen.
  unfoldable pub append_under :
      ℕ → (Bytes → Bool) → Bytes → Objects → List Call → Option (List Call) × Result (Unit {0})
  append_under n validate signature args w =
      if not (validate signature)
      then (some w, err value_error)
      else if is_empty signature
      then (some w, ok tt)
      else let (w', r) = append_args n (lib.init signature) true args w in
        elim r [ ok _ ↦ (some w', ok tt) | err e ↦ (none, err e) ]

  -- `dbus_py_Message_append`. Without a signature one is guessed.
  unfoldable pub message_append :
      ℕ
      → (Bytes → Bool)
      → Option Bytes
      → Objects
      → Option (List Call)
      → Option (List Call) × Result (Unit {0})
  message_append n validate signature args none = (none, err dbus_exception)
  message_append n validate (some signature) args (some w) =
      append_under n validate signature args w
  message_append n validate none args (some w) =
      elim (guess_signature python.attribute validate args) [
        | err e ↦ (some w, err e)
        | ok signature ↦ append_under n validate signature args w
      ]
