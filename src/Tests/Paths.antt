-- ===== src/Tests/Paths.antt =====
-- Object paths, message filters and handlers of a connection.
use python_dbus.Connection.Filters.{Callable, add_message_filter, add_failed_drops_equal}
use python_dbus.Connection.Handle.{Returned}
use python_dbus.Connection.Paths.Race.{Shared, Reach, race_loses_entry}
use python_dbus.Connection.Paths.Refines.{
  Registered, Removed, register-Registered, unregister-Removed,
}
use python_dbus.Connection.Paths.Sync.{InStep, has_no_nul, register_InStep, unregister_InStep}
use python_dbus.Connection.Paths.{
  Libdbus, c_string, Entry, placeholder, handlers, put, has_handlers, path_argument, require_conn,
  require_main_loop, Connection, check_path, begin_register, end_register, guard_unregister,
  begin_unregister, end_unregister, register_object_path, unregister_object_path, crashed,
  object_path_message,
}
use python_dbus.Prelude.{
  ℕ, Bool, true, false, none, some, [], ◌∷◌, ◌≡◌, refl, arith, Bytes, same, same_iff, if◌then◌else◌,
}
use python_dbus.Python.Integer.{pos}
use python_dbus.Python.Object.{Object, str_object, str}
use python_dbus.Python.{ok, err, key_error}
use python_dbus.Validation.{validate_object_path, passes, object_path_from}

-- libdbus with memory for whatever it is asked to do.
abbrev library : Libdbus
library = record {
  State = Bytes → Bool;
  handles = λ s q. s q;
  register = λ s fallback p. (λ q. if same p q then true else s q, true);
  unregister = λ s p. (λ q. if same p q then false else s q, true);
  register_handles = λ s fallback p q. refl;
  unregister_handles = λ s p q. refl;
}

abbrev path : Bytes
path = b'/' ∷ []

abbrev path_object : Object
path_object = str_object str path (pos 0)

abbrev empty : Connection
empty = record { has_conn = true; has_mainloop = true; object_paths = λ q. none }

abbrev entry : Entry
entry = handlers (some 1) (some 2)

-- The path is registered.
abbrev taken : Connection
taken = record {
  has_conn = true;
  has_mainloop = true;
  object_paths = λ q. if same path q then some entry else none;
}

abbrev path_only : Bytes → Bool
path_only q = same path q

taken-InStep : InStep library taken path_only
unfolding has_handlers
taken-InStep q = (ground arith, ground (arith, same_iff path q))

register_ok :
    (register_object_path library path_object false true (some 1) (some 2) empty (λ q. false)).2
    ≡ ok tt
unfolding register_object_path begin_register end_register require_conn require_main_loop
    path_argument check_path c_string has_handlers validate_object_path object_path_from passes
register_ok = refl

register-Registered_example :
    (p : Bytes) × Registered path_object
      (some 1)
      (some 2)
      empty
      (register_object_path library path_object false true (some 1) (some 2) empty (λ q. false)).0
      p
register-Registered_example =
    register-Registered library path_object false true (some 1) (some 2) empty (λ q. false)
      register_ok

register_taken :
    (register_object_path library path_object false true (some 1) (some 2) taken path_only).2
    ≡ err key_error
unfolding register_object_path begin_register require_conn require_main_loop path_argument
    check_path c_string has_handlers validate_object_path object_path_from passes same
register_taken = refl

unregister_ok : (unregister_object_path library path_object taken path_only).2 ≡ ok tt
unfolding unregister_object_path begin_unregister guard_unregister end_unregister require_conn
    path_argument same
unregister_ok = refl

unregister-Removed_example :
    (p : Bytes) × Removed path_object taken
      (unregister_object_path library path_object taken path_only).0
      p
unregister-Removed_example = unregister-Removed library path_object taken path_only unregister_ok

path_clean : (p : Bytes) → path_argument path_object ≡ ok p → has_no_nul p ≡ true
unfolding path_argument
path_clean p e = grind (arith, e)

register_InStep_example :
    InStep library
      (register_object_path library path_object true true none none taken path_only).0
      (register_object_path library path_object true true none none taken path_only).1
register_InStep_example =
    register_InStep library path_object true true none none taken path_only path_clean (λ p. refl)
      taken-InStep

unregister_InStep_example :
    InStep library
      (unregister_object_path library path_object taken path_only).0
      (unregister_object_path library path_object taken path_only).1
unregister_InStep_example = unregister_InStep library path_object taken path_only taken-InStep

path_handled : path_only path ≡ true
unfolding same
path_handled = refl

abbrev guarded : Connection
guarded = record taken { object_paths = put taken.object_paths path (some placeholder) }

begun : begin_unregister path_object taken ≡ ok (path, entry, guarded)
unfolding begin_unregister guard_unregister require_conn path_argument same
begun = refl

path-passes : passes (validate_object_path (c_string path)) ≡ true
unfolding validate_object_path object_path_from passes c_string
path-passes = refl

race_loses_entry_example :
    (w : Shared library) × Reach library (record { conn = taken; lib = path_only; ops = [] }) w
    × (w.ops ≡ [])
    × (library.handles w.lib (c_string path) ≡ true)
    × ((returns : ℕ → Returned) → object_path_message true true returns w.conn path ≡ crashed)
race_loses_entry_example =
    race_loses_entry library path_object taken path_only path entry guarded false (some 3) (some 4)
      begun refl path-passes refl refl

-- Two bound methods that are equal, and another callable.
abbrev first_method : Callable
first_method = record { id = 1; equals = 5 }

abbrev second_method : Callable
second_method = record { id = 2; equals = 5 }

abbrev other_filter : Callable
other_filter = record { id = 3; equals = 6 }

add_failed_drops_equal_example :
    (add_message_filter true false second_method (other_filter ∷ first_method ∷ [])).0
    ≡ other_filter ∷ second_method ∷ []
add_failed_drops_equal_example =
    add_failed_drops_equal second_method first_method (other_filter ∷ []) [] refl refl (omega arith)
