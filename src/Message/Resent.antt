-- ===== src/Message/Resent.antt =====
-- Reading a message and writing another from what was read: `Message.get_args_list` of
-- _dbus_bindings/message-get-args.c, then `Message.append` of message-append.c.
use python_dbus.Message.Append.{Interpreter}
use python_dbus.Message.Guess.Lookup.{get_object_path}
use python_dbus.Message.Objects.{objects_of, FitAll}
use python_dbus.Message.Read.Faithful.Keys.{add, hashable, missing, HaveKeys}
use python_dbus.Message.Read.Faithful.{get_args_list-objects_of}
use python_dbus.Message.Read.Received.{Received}
use python_dbus.Message.Read.{Source, Host, get_args_list}
use python_dbus.Message.Signature.{SignatureIters}
use python_dbus.Message.Types.{print_all}
use python_dbus.Message.Values.{Values, types_of, size_all, calls_all, is_text, Call}
use python_dbus.Message.Write.Again.Arguments.{message_append-calls}
use python_dbus.Message.Write.{Iteration, Memory, message_append}
use python_dbus.Prelude.{
  ℕ, ◌<◌, Bool, true, false, not, ◌==◌, some, none, List, ◌++◌, ◌≡◌, refl, inl, arith, Bytes,
}
use python_dbus.Python.Integer.{ℤ, pos}
use python_dbus.Python.Object.{Object, Objects, Entries, IntType, int_object}
use python_dbus.Python.{ok}

-- The arguments of a message survive: what `Message.get_args_list` reads of them can be given to
-- `Message.append` of another message as it is, with no signature, and that writes the same values.
-- There are no file descriptors, and no dict has two keys that Python takes for equal; libdbus has
-- memory and accepts the signature, Python decodes the text that libdbus lets pass, no object has a
-- `__dbus_object_path__`, a dbus.Boolean is true unless it is 0, and storing under a new key adds an
-- entry. The fuel is more than the number of parts of the values.
pub get_args_list-append :
    (source : Source) (host : Host) (lib : SignatureIters) (python : Interpreter)
    (iteration : Iteration) (memory : Memory) (validate validate_single : Bytes → Bool)
    (same : Object → Object → Bool) (received : Received source) (n : ℕ) (vs : Values)
    (it : source.Iter) (w : List Call)
    → ((c : List Call) (d : Call) → memory.for_call c d ≡ true)
    → ((c : List Call) → memory.for_signature c ≡ true)
    → ((obj : Object) → get_object_path (python.attribute obj) ≡ ok none)
    → ((m : ℕ) (level : ℤ)
        → python.truth (int_object IntType.boolean (pos m) level) ≡ ok (not (m == 0)))
    → ((s : Bytes) → is_text python.validate_utf8 s ≡ true → host.decode_utf8 s ≡ ok s)
    → ((at : source.Iter) → (s : Bytes) × (source.get_signature at ≡ some s))
    → ((es : Entries) (k v : Object)
        → hashable k ≡ true
        → missing same k es ≡ true
        → host.set_item es k v ≡ ok (add es k v))
    → size_all vs < n
    → FitAll python.validate_utf8 validate validate_single vs
    → HaveKeys same vs
    → validate (print_all (types_of vs)) ≡ true
    → received.Before it vs
    → (args : Objects) × (get_args_list source host validate validate_single false n
          (some (some it))
        ≡ ok args)
      × (message_append lib python iteration memory n validate none args (some w)
          ≡ (some (w ++ calls_all vs), ok tt))
get_args_list-append source host lib python iteration memory validate validate_single same received
      n vs it w calls signatures plain truth decodes plenty stores s f k v a =
    (
      objects_of vs,
      get_args_list-objects_of source host validate validate_single received python.validate_utf8
          decodes plenty same stores n vs it s f k a,
      message_append-calls lib python iteration memory calls signatures validate validate_single
          plain truth n vs none w (omega arith) f v (inl refl),
    )
