-- ===== src/MainLoop.antt =====
-- Main loops: the NativeMainLoop object of _dbus_bindings/mainloop.c, the default main loop of
-- _dbus_bindings/module.c, and the functions that set a connection or a server up with one. A main loop is
-- the identity of a NativeMainLoop, and the references to it are counted.
pub mod Counted
pub mod Connects
pub mod Glib
use python_dbus.Connection.Life.{Outcomes}
use python_dbus.Prelude.{
  ℕ, ◌+◌, ◌-◌, Bool, true, false, not, ◌&&◌, Option, none, some, ◌==◌, if◌then◌else◌,
}
use python_dbus.Python.{type_error, runtime_error, memory_error, Result, ok, err, ◌>>=◌}

-- A NativeMainLoop. Its callbacks take the connection or server and the data, and set an exception where
-- they fail.
pub record NativeMainLoop : Type 0 where
  pub set_up_connection_cb : ℕ → Option ℕ → Result (Unit {0})
  pub set_up_server_cb : ℕ → Option ℕ → Result (Unit {0})
  pub has_free_cb : Bool
  pub user_data : Option ℕ

-- `DBusPyNativeMainLoop_New4`
unfoldable pub new4 :
    (ℕ → Option ℕ → Result (Unit {0}))
    → (ℕ → Option ℕ → Result (Unit {0}))
    → Bool
    → Option ℕ
    → NativeMainLoop
new4 conn_cb server_cb has_free_cb user_data = record {
  set_up_connection_cb = conn_cb;
  set_up_server_cb = server_cb;
  has_free_cb = has_free_cb;
  user_data = user_data;
}

-- `noop_main_loop_cb`
unfoldable pub noop_main_loop_cb : ℕ → Option ℕ → Result (Unit {0})
noop_main_loop_cb conn_or_server user_data = ok tt

-- NULL_MAIN_LOOP, as `dbus_py_insert_mainloop_types` makes it.
unfoldable pub null_main_loop : NativeMainLoop
null_main_loop = new4 noop_main_loop_cb noop_main_loop_cb false none

-- An object that is given for a main loop.
pub data Loop : Type 0 where
  none_object : Loop
  native : ℕ → Loop
  other_object : Loop

-- The main loops by identity, the default one, if any has been set, the references to each, and how often
-- its `free_cb` has been called.
pub record Loops : Type 0 where
  pub loop : ℕ → NativeMainLoop
  pub default : Option Loop
  pub refs : ℕ → ℕ
  pub frees : ℕ → ℕ

-- `self->data && self->free_cb`
unfoldable pub calls_free : NativeMainLoop → Bool
calls_free l = elim l.user_data [ none ↦ false | some _ ↦ l.has_free_cb ]

-- `NativeMainLoop_tp_dealloc`
unfoldable pub loop_dealloc : ℕ → Loops → Loops
loop_dealloc i w =
    if calls_free (w.loop i)
    then record w { frees = λ j. if j == i then w.frees j + 1 else w.frees j }
    else w

-- `Py_INCREF` and `Py_XDECREF`. References to None and to objects that are no main loops are left out.
unfoldable pub incref : Loop → Loops → Loops
incref (native i) w = record w { refs = λ j. if j == i then w.refs j + 1 else w.refs j }
incref _ w = w

unfoldable pub decref : Loop → Loops → Loops
decref (native i) w =
    let w' : Loops = record w { refs = λ j. if j == i then w.refs j - 1 else w.refs j } in
    if w.refs i == 1 then loop_dealloc i w' else w'
decref _ w = w

unfoldable pub xdecref : Option Loop → Loops → Loops
xdecref none w = w
xdecref (some l) w = decref l w

-- `dbus_py_check_mainloop_sanity`
unfoldable pub check_mainloop_sanity : Loop → Result (Unit {0})
check_mainloop_sanity (native i) = ok tt
check_mainloop_sanity _ = err type_error

-- `set_default_main_loop`
unfoldable pub set_default_main_loop : Loop → Loops → Loops × Result (Unit {0})
set_default_main_loop new_loop w = elim (check_mainloop_sanity new_loop) [
  | err e ↦ (w, err e)
  | ok _ ↦
      let w' = incref new_loop w in
      (xdecref w.default (record w' { default = some new_loop }), ok tt)
]

-- `dbus_py_get_default_main_loop`, which gives a new reference.
unfoldable pub get_default_main_loop : Loops → Loops × Loop
get_default_main_loop w = elim w.default [ none ↦ (w, none_object) | some l ↦ (incref l w, l) ]

-- An object that is given for a connection or a server, with its `conn` or `server`.
pub data Owner : Type 0 where
  owner : Option ℕ → Owner
  not_owner : Owner

-- `DBusPyConnection_BorrowDBusConnection` and `DBusPyServer_BorrowDBusServer`
unfoldable pub borrow_connection : Owner → Result ℕ
borrow_connection not_owner = err type_error
borrow_connection (owner none) = err runtime_error
borrow_connection (owner (some conn)) = ok conn

unfoldable pub borrow_server : Owner → Result ℕ
borrow_server not_owner = err type_error
borrow_server (owner none) = err runtime_error
borrow_server (owner (some server)) = ok server

-- `dbus_py_set_up_connection`
unfoldable pub set_up_connection : Loops → Owner → Loop → Result (Unit {0})
set_up_connection w conn (native i) =
    borrow_connection conn >>= λ dbc. (w.loop i).set_up_connection_cb dbc (w.loop i).user_data
set_up_connection w conn _ = err type_error

-- `dbus_py_set_up_server`
unfoldable pub set_up_server : Loops → Owner → Loop → Result (Unit {0})
set_up_server w server (native i) =
    borrow_server server >>= λ dbs. (w.loop i).set_up_server_cb dbs (w.loop i).user_data
set_up_server w server _ = err type_error

-- The main loop that a constructor works with: the one that is given, or the default.
unfoldable pub chosen : Loops → Option Loop → Loops × Loop
chosen w none = get_default_main_loop w
chosen w (some none_object) = get_default_main_loop w
chosen w (some l) = (incref l w, l)

unfoldable pub is_loop : Loop → Bool
is_loop none_object = false
is_loop _ = true

-- What a Connection's constructor meets with a main loop, when the allocations come out as given.
unfoldable pub outcomes_with : Loops → Bool → Bool → Bool → ℕ → Loop → Outcomes
outcomes_with w has_object has_members has_slot conn l = record {
  main_loop = ok (is_loop l);
  has_object = has_object;
  has_members = has_members;
  has_slot = has_slot;
  set_up = set_up_connection w (owner (some conn)) l;
}

-- The same for the main loop that it chooses.
unfoldable pub connection_outcomes : Loops → Option Loop → Bool → Bool → Bool → ℕ → Outcomes
connection_outcomes w mainloop has_object has_members has_slot conn =
    outcomes_with w has_object has_members has_slot conn (chosen w mainloop).1
