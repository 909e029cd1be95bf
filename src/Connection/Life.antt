-- ===== src/Connection/Life.antt =====
-- The life of a Connection: `DBusPyConnection_NewConsumingDBusConnection`, `Connection_tp_new`,
-- `Connection_tp_dealloc`, `Connection_close` and `DBusPyConnection_ExistingFromDBusConnection` of
-- _dbus_bindings/conn.c and conn-methods.c, and libdbusconn.c. The state is that of one DBusConnection.
-- The calls of libdbus are taken to run one after the other.
pub mod Owned
use python_dbus.Prelude.{
  ℕ, zero, suc, ◌+◌, ◌-◌, Bool, true, false, not, ◌&&◌, Option, none, some, List, [], ◌∷◌, ◌==◌,
  if◌then◌else◌,
}
use python_dbus.Python.{
  Exception, assertion_error, memory_error, type_error, dbus_exception, Result, ok, err,
}

-- A DBusConnection: its reference count, whether it has been closed, and the Connection to which the
-- weak reference in its data slot was made. Then those who hold a reference: the Connections that are
-- alive, by identity, the number of LibDBusConnection objects, and that of the holders elsewhere, in
-- libdbus and its callbacks.
pub record DBusConnection : Type 0 where
  pub refs : ℕ
  pub closed : Bool
  pub slot : Option ℕ
  pub connections : List ℕ
  pub wrappers : ℕ
  pub others : ℕ

abbrev pub alive : ℕ → List ℕ → Bool
alive i [] = false
alive i (j ∷ js) = if i == j then true else alive i js

abbrev pub without : ℕ → List ℕ → List ℕ
without i [] = []
without i (j ∷ js) = if i == j then js else j ∷ without i js

-- `PyWeakref_GetObject` on the data of the slot: the object, unless there is none or it is dead.
unfoldable pub referent : DBusConnection → Option ℕ
referent c = elim c.slot [ none ↦ none | some i ↦ if alive i c.connections then some i else none ]

-- `DBusPyConnection_ExistingFromDBusConnection`
unfoldable pub existing : DBusConnection → Result ℕ
existing c = elim (referent c) [ some self ↦ ok self | none ↦ err assertion_error ]

-- `dbus_connection_close` and `dbus_connection_unref`.
unfoldable pub close_and_unref : DBusConnection → DBusConnection
close_and_unref c = record c { refs = c.refs - 1; closed = true }

-- `Connection_tp_dealloc` of a Connection that has its `conn`. The weak references die first.
unfoldable pub dealloc : ℕ → DBusConnection → DBusConnection
dealloc self c = close_and_unref (record c { connections = without self c.connections })

-- What succeeds on the way: the main loop that is asked for or the default one, and whether it is
-- one; the object, its members and the weak reference; the data slot; and the set-up with the main loop.
pub record Outcomes : Type 0 where
  pub main_loop : Result Bool
  pub has_object : Bool
  pub has_members : Bool
  pub has_slot : Bool
  pub set_up : Result (Unit {0})

-- The part of `DBusPyConnection_NewConsumingDBusConnection` behind the set-up of the object `self`.
unfoldable pub attach : Outcomes → Bool → ℕ → DBusConnection → DBusConnection × Result ℕ
attach o has_mainloop self c =
    let c' : DBusConnection = record c { slot = some self; connections = self ∷ c.connections } in
    if has_mainloop
    then (elim o.set_up [ ok _ ↦ (c', ok self) | err e ↦ (dealloc self c', err e) ])
    else (c', ok self)

-- `DBusPyConnection_NewConsumingDBusConnection`, which takes over a reference. The object that it
-- makes is one that is not alive.
unfoldable pub new_consuming : Outcomes → ℕ → DBusConnection → DBusConnection × Result ℕ
new_consuming o self c = elim (referent c) [
  | some _ ↦ (c, err assertion_error)
  | none ↦ elim o.main_loop [
    | err e ↦ (close_and_unref c, err e)
    | ok has_mainloop ↦
        if not (o.has_object && o.has_members && o.has_slot)
        then (close_and_unref c, err memory_error)
        else attach o has_mainloop self c
  ]
]

-- The argument of the constructor: a LibDBusConnection, an address that libdbus opens or not, or
-- anything else.
pub data Address : Type 0 where
  wrapper : Address
  address : Bool → Address
  no_address : Address

-- A connection that libdbus has just opened.
abbrev pub opened : DBusConnection
opened = record {
  refs = 1;
  closed = false;
  slot = none;
  connections = [];
  wrappers = 0;
  others = 0;
}

-- `Connection_tp_new`: the connection that it is about afterwards, and the result.
unfoldable pub new : Outcomes → ℕ → Address → DBusConnection → DBusConnection × Result ℕ
new o self wrapper c = new_consuming o self (record c { refs = c.refs + 1 })
new o self (address true) c = new_consuming o self opened
new o self (address false) c = (c, err dbus_exception)
new o self no_address c = (c, err type_error)

-- `Connection_close`
unfoldable pub close : DBusConnection → DBusConnection
close c = record c { closed = true }

-- `DBusPyLibDBusConnection_New`
unfoldable pub wrap : DBusConnection → DBusConnection
wrap c = record c { refs = c.refs + 1; wrappers = c.wrappers + 1 }

-- `DBusPyLibDBusConnection_tp_dealloc`
unfoldable pub unwrap : DBusConnection → DBusConnection
unwrap c = record c { refs = c.refs - 1; wrappers = c.wrappers - 1 }
