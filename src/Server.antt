-- ===== src/Server.antt =====
-- dbus.Server's base class: `DBusPyServer_NewConsumingDBusServer`, `Server_tp_new`, `Server_tp_dealloc`,
-- `DBusPyServer_ExistingFromDBusServer` and `DBusPyServer_new_connection_cb` of
-- _dbus_bindings/server.c. The state is that of one DBusServer.
pub mod Faults
pub mod Accepts
pub mod Mechanisms
use python_dbus.Connection.Life
use python_dbus.Connection.Life.{DBusConnection, Outcomes}
use python_dbus.Prelude.{
  ℕ, ◌+◌, ◌-◌, Bool, true, false, not, ◌&&◌, Option, none, some, ◌==◌, if◌then◌else◌,
}
use python_dbus.Python.{
  Exception, assertion_error, memory_error, runtime_error, type_error, dbus_exception, Result, ok,
  err,
}

-- The DBusServer, its reference count and whether it has been disconnected; the Server to which the weak
-- reference in its data slot was made; the Server that is alive, and whether its `weaklist` has that
-- weak reference. Then the references that Servers have taken to the main loop and to the class of
-- connections, and whether the weak reference points to an object that has been freed.
pub record DBusServer : Type 0 where
  pub refs : ℕ
  pub disconnected : Bool
  pub slot : Option ℕ
  pub alive : Option ℕ
  pub listed : Bool
  pub mainloop_refs : ℕ
  pub class_refs : ℕ
  pub dangling : Bool

-- `PyWeakref_GetObject` on the data of the slot, unless the weak reference is one that dangles: what
-- that gives is undefined.
unfoldable pub referent : DBusServer → Option ℕ
referent s = elim s.slot [
  | none ↦ none
  | some i ↦ elim s.alive [ none ↦ none | some j ↦ if i == j then some i else none ]
]

-- `DBusPyServer_ExistingFromDBusServer`
unfoldable pub existing : DBusServer → Result ℕ
existing s = elim (referent s) [ some self ↦ ok self | none ↦ err assertion_error ]

-- `dbus_server_disconnect` and `dbus_server_unref`.
unfoldable pub disconnect_and_unref : DBusServer → DBusServer
disconnect_and_unref s = record s { refs = s.refs - 1; disconnected = true }

-- `Server_tp_dealloc` of a Server that has its `server`. The weak references in `weaklist` die.
unfoldable pub dealloc : DBusServer → DBusServer
dealloc s =
    disconnect_and_unref
      (record s { alive = none; dangling = not s.listed; mainloop_refs = s.mainloop_refs - 1 })

-- What succeeds on the way: there is a main loop, the object and its weak reference can be made, the
-- data slot be set, the main loop be attached, and the mechanisms be set that are asked for.
pub record ServerOutcomes : Type 0 where
  pub has_loop : Bool
  pub has_object : Bool
  pub has_weakref : Bool
  pub has_slot : Bool
  pub set_up : Result (Unit {0})
  pub mechanisms : Option (Result (Unit {0}))

-- `auth_mechanisms && auth_mechanisms != Py_None && !DBusPyServer_set_auth_mechanisms(...)`
unfoldable pub set_mechanisms : Option (Result (Unit {0})) → Result (Unit {0})
set_mechanisms none = ok tt
set_mechanisms (some r) = r

-- `DBusPyServer_NewConsumingDBusServer` once the data slot is set.
unfoldable pub attach : ServerOutcomes → ℕ → DBusServer → DBusServer × Result ℕ
attach o self s =
    let s' : DBusServer = record s {
      slot = some self;
      alive = some self;
      listed = true;
      mainloop_refs = s.mainloop_refs + 1;
      class_refs = s.class_refs + 1;
    } in
    elim o.set_up [
      | err e ↦ (dealloc s', err e)
      | ok _ ↦ elim (set_mechanisms o.mechanisms) [
        | err e ↦ (dealloc s', err e)
        | ok _ ↦ (s', ok self)
      ]
    ]

-- `DBusPyServer_NewConsumingDBusServer`, which takes over a reference.
unfoldable pub new_consuming : ServerOutcomes → ℕ → DBusServer → DBusServer × Result ℕ
new_consuming o self s = elim (referent s) [
  | some _ ↦ (s, err assertion_error)
  | none ↦
      if not o.has_loop
      then (disconnect_and_unref s, err runtime_error)
      else if not o.has_object
      then (disconnect_and_unref s, err memory_error)
      else if not (o.has_weakref && o.has_slot)
      then (disconnect_and_unref (record s { class_refs = s.class_refs + 1 }), err memory_error)
      else attach o self s
]

-- What `Server_tp_new` ends in: an object, an exception, or a write through a NULL pointer.
pub data New : Type 0 where
  returned : ℕ → New
  raises : Exception → New
  crashes : New

-- `((Server *)self)->weaklist = NULL;` on what the call has returned.
unfoldable pub reset_weaklist : DBusServer × Result ℕ → DBusServer × New
reset_weaklist (s, ok self) = (record s { listed = false }, returned self)
reset_weaklist (s, err e) = (s, crashes)

-- `Server_tp_new`, by whether the class is one of connections and whether libdbus listens.
unfoldable pub new : ServerOutcomes → Bool → Bool → ℕ → DBusServer → DBusServer × New
new o class_ok listens self s =
    if not class_ok
    then (s, raises type_error)
    else if not listens
    then (s, raises dbus_exception)
    else reset_weaklist (new_consuming o self s)

-- `DBusPyServer_new_connection_cb` on the connection, by the Server for the callback, whether it has
-- the method, whether the wrapper can be made, what constructing a Connection of this identity comes
-- to, and whether the method keeps it.
unfoldable pub new_connection :
    Result ℕ → Bool → Bool → Outcomes → ℕ → Bool → DBusConnection → DBusConnection
new_connection (err e) has_method has_wrapper o i kept c = c
new_connection (ok self) has_method has_wrapper o i kept c =
    if not (has_method && has_wrapper)
    then c
    else let (c', r) = Life.new o i Life.wrapper (Life.wrap c) in
      let c'' = Life.unwrap c' in
      elim r [ err e ↦ c'' | ok j ↦ if kept then c'' else Life.dealloc j c'' ]
