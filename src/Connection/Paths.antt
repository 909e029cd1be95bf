-- ===== src/Connection/Paths.antt =====
-- The object paths of a connection: `_register_object_path`, `_unregister_object_path`,
-- `_object_path_message` and `_object_path_unregister` of _dbus_bindings/conn-methods.c, and
-- `DBusPyConnection_GetObjectPathHandlers` of conn.c.
--
-- libdbus keeps its own table of handled paths. Its functions are a parameter, the record `Libdbus`.
-- A method runs in three steps, because it releases the GIL round its call of libdbus: a part in
-- front, which leaves None in the dict, the call, and a part behind.
pub mod Sync
pub mod Refines
pub mod Race
use python_dbus.Connection.Handle.{
  HandlerResult, not_yet_handled, need_memory, Returned, handle_message,
}
use python_dbus.Prelude.{
  ℕ, Bool, true, false, not, ◌&&◌, Option, none, some, [], ◌∷◌, ◌≡◌, ◌==◌, Bytes, same,
  if◌then◌else◌,
}
use python_dbus.Python.Object.{Object, str_object, bytes_object, bytes, byte_array}
use python_dbus.Python.{
  Exception, type_error, value_error, key_error, runtime_error, assertion_error, memory_error,
  Result, ok, err, ◌>>=◌,
}
use python_dbus.Validation.{validate_object_path, passes}

-- libdbus' table of object paths. `register` is both `dbus_connection_register_object_path` and
-- `dbus_connection_register_fallback`, by the flag. Each returns the new state, and FALSE if it did
-- nothing.
pub record Libdbus : Type 1 where
  pub State : Type 0
  pub handles : State → Bytes → Bool
  pub register : State → Bool → Bytes → State × Bool
  pub unregister : State → Bytes → State × Bool
  pub register_handles :
      (s : State) (fallback : Bool) (p q : Bytes)
      → handles (register s fallback p).0 q
        ≡ (if (register s fallback p).1 && same p q then true else handles s q)
  pub unregister_handles :
      (s : State) (p q : Bytes)
      → handles (unregister s p).0 q
        ≡ (if (unregister s p).1 && same p q then false else handles s q)

-- A value of the dict: None, or the tuple of the unregisterer and the message callback, where each
-- may be None again.
pub data Entry : Type 0 where
  placeholder : Entry
  handlers : Option ℕ → Option ℕ → Entry

-- `self->object_paths`
abbrev pub Dict : Type 0
Dict = Bytes → Option Entry

-- `PyDict_SetItem` and `PyDict_DelItem`
unfoldable pub put : Dict → Bytes → Option Entry → Dict
put d p e q = if same p q then e else d q

-- The dict has handlers for the path.
unfoldable pub has_handlers : Option Entry → Bool
has_handlers (some (handlers u m)) = true
has_handlers _ = false

-- What C sees of the bytes behind `PyBytes_AS_STRING`: those in front of the first NUL.
unfoldable pub c_string : Bytes → Bytes
c_string [] = []
c_string (c ∷ cs) = let rest = c_string cs in if c == 0 then [] else c ∷ rest

-- The path argument as bytes: `PyBytes_CheckExact(path)` and the branches behind it. An object of a
-- subclass is made anew, by `PyBytes_FromString`.
unfoldable pub path_argument : Object → Result Bytes
path_argument (bytes_object bytes s l) = ok s
path_argument (bytes_object byte_array s l) = ok (c_string s)
path_argument (str_object t s l) = ok s
path_argument _ = err type_error

-- `DBUS_PY_RAISE_VIA_NULL_IF_FAIL(self->conn)`
unfoldable pub require_conn : Bool → Result (Unit {0})
require_conn true = ok tt
require_conn false = err assertion_error

-- `Connection__require_main_loop`
unfoldable pub require_main_loop : Bool → Result (Unit {0})
require_main_loop true = ok tt
require_main_loop false = err runtime_error

-- The fields of a Connection that these methods read: `self->conn` is not NULL, `has_mainloop`, and
-- the dict.
pub record Connection : Type 0 where
  pub has_conn : Bool
  pub has_mainloop : Bool
  pub object_paths : Dict

-- `dbus_py_validate_object_path(path_bytes)`, as a call that may raise.
unfoldable pub check_path : Bytes → Result (Unit {0})
check_path path = if passes (validate_object_path (c_string path)) then ok tt else err value_error

-- `_register_object_path` in front of its call of libdbus: the key of the dict, and the connection with
-- None under it. Python has the memory for the tuple and for that entry.
unfoldable pub begin_register : Object → Connection → Result (Bytes × Connection)
begin_register arg c = do
  _ ← require_conn c.has_conn
  _ ← require_main_loop c.has_mainloop
  path ← path_argument arg
  _ ← check_path path
  if has_handlers (c.object_paths path)
      then err key_error
      else ok (path, record c { object_paths = put c.object_paths path (some placeholder) })

-- The part behind the call, by what libdbus returned and by whether the second `PyDict_SetItem` works.
unfoldable pub end_register :
    Bytes → Entry → Bool → Bool → Connection → Connection × Result (Unit {0})
end_register path entry true true c =
    (record c { object_paths = put c.object_paths path (some entry) }, ok tt)
end_register path entry true false c = (c, err memory_error)
end_register path entry false entered c =
    (record c { object_paths = put c.object_paths path none }, err memory_error)

-- `_unregister_object_path` in front of its call of libdbus: the path, the callbacks that it hangs
-- on to, and the connection with None in the dict.
unfoldable pub guard_unregister :
    Bytes → Connection → Option Entry → Result (Bytes × Entry × Connection)
guard_unregister path c (some (handlers u m)) =
    ok (path, handlers u m, record c { object_paths = put c.object_paths path (some placeholder) })
guard_unregister path c _ = err key_error

unfoldable pub begin_unregister : Object → Connection → Result (Bytes × Entry × Connection)
unfolding guard_unregister
begin_unregister arg c = do
  _ ← require_conn c.has_conn
  path ← path_argument arg
  guard_unregister path c (c.object_paths path)

-- The part behind the call.
unfoldable pub end_unregister : Bytes → Entry → Bool → Connection → Connection × Result (Unit {0})
end_unregister path callbacks true c =
    (record c { object_paths = put c.object_paths path none }, ok tt)
end_unregister path callbacks false c =
    (record c { object_paths = put c.object_paths path (some callbacks) }, err memory_error)

-- `DBusPyConnection_GetObjectPathHandlers`. `PyDict_GetItem` sets no KeyError for a missing key, so
-- the function goes on to take a reference to NULL.
pub data Handlers : Type 0 where
  null_dereference : Handlers
  no_handlers : Handlers
  callbacks : Option ℕ → Option ℕ → Handlers

unfoldable pub get_handlers : Connection → Bytes → Handlers
get_handlers c path = elim (c.object_paths path) [
  | none ↦ null_dereference
  | some placeholder ↦ no_handlers
  | some (handlers u m) ↦ callbacks u m
]

-- What `_object_path_message` does: it crashes, or returns a result, perhaps after a call of the
-- message callback.
pub data Dispatched : Type 0 where
  crashed : Dispatched
  answered : HandlerResult → Dispatched
  called : ℕ → HandlerResult → Dispatched

unfoldable pub dispatch : (ℕ → Returned) → Handlers → Dispatched
dispatch returns null_dereference = crashed
dispatch returns no_handlers = answered not_yet_handled
dispatch returns (callbacks u none) = answered not_yet_handled
dispatch returns (callbacks u (some callable)) =
    called callable (handle_message (returns callable)).0

-- `_object_path_message`. The flags: the message object can be allocated, and the weak reference
-- still leads to the Connection.
unfoldable pub object_path_message : Bool → Bool → (ℕ → Returned) → Connection → Bytes → Dispatched
object_path_message has_memory alive returns c path =
    if not has_memory
    then answered need_memory
    else if not alive
    then answered not_yet_handled
    else dispatch returns (get_handlers c path)

-- `_object_path_unregister`, which libdbus calls when it drops a path: the unregisterer that is
-- called.
pub data Unregistered : Type 0 where
  crash : Unregistered
  nothing_called : Unregistered
  unregisterer_called : ℕ → Unregistered

unfoldable pub call_unregisterer : Handlers → Unregistered
call_unregisterer null_dereference = crash
call_unregisterer no_handlers = nothing_called
call_unregisterer (callbacks none m) = nothing_called
call_unregisterer (callbacks (some callable) m) = unregisterer_called callable

unfoldable pub object_path_unregister : Bool → Connection → Bytes → Unregistered
object_path_unregister alive c path =
    if alive then call_unregisterer (get_handlers c path) else nothing_called

module _ (l : Libdbus) where
  -- `dbus_connection_unregister_object_path` where the second `PyDict_SetItem` has failed. Its result is
  -- not looked at.
  unfoldable pub undo : Bool → Bytes → l.State → l.State
  undo true path_bytes s = (l.unregister s path_bytes).0
  undo false path_bytes s = s

  -- `_register_object_path` with no other thread in between; `entered` says that the second
  -- `PyDict_SetItem` works.
  unfoldable pub register_object_path :
      Object
      → Bool
      → Bool
      → Option ℕ
      → Option ℕ
      → Connection
      → l.State
      → Connection × l.State × Result (Unit {0})
  register_object_path arg fallback entered on_unregister on_message c s =
      elim (begin_register arg c) [
        | err e ↦ (c, s, err e)
        | ok (path, c') ↦
            let (s', done) = l.register s fallback (c_string path) in
            let (c'', r) = end_register path (handlers on_unregister on_message) done entered c' in
            (c'', undo (done && not entered) (c_string path) s', r)
      ]

  -- `_unregister_object_path` with no other thread in between.
  unfoldable pub unregister_object_path :
      Object → Connection → l.State → Connection × l.State × Result (Unit {0})
  unregister_object_path arg c s = elim (begin_unregister arg c) [
    | err e ↦ (c, s, err e)
    | ok (path, saved, c') ↦
        let (s', done) = l.unregister s (c_string path) in
        let (c'', r) = end_unregister path saved done c' in (c'', s', r)
  ]
