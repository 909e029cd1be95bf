-- ===== src/Connection/Bus.antt =====
-- Connections to a message bus: `DBusPyConnection_NewForBus` and the unique name of a connection, in
-- _dbus_bindings/bus.c, on top of the constructor of a Connection.
pub mod Released
use python_dbus.Connection.Life
use python_dbus.Connection.Life.{
  DBusConnection, Outcomes, referent, new_consuming, attach, dealloc, close_and_unref, new, wrapper,
  address, opened, wrap, unwrap, without,
}
use python_dbus.Connection.Sending.{Sender, raise_if_fail}
use python_dbus.Prelude.{
  ℕ, ◌+◌, ◌-◌, Bool, true, false, not, ◌&&◌, Option, none, some, List, [], ◌∷◌, ◌≡◌, ◌⊎◌, inl, inr,
  refl, sym, ap, ◌∙◌, arith, Bytes, ◌==◌, if◌then◌else◌, Bool-cases,
}
use python_dbus.Python.Integer.{ℤ, pos, negsuc}
use python_dbus.Python.{
  Exception, value_error, type_error, memory_error, dbus_exception, Result, ok, err, ◌>>=◌,
  Result-cases,
}

-- `first`: left out, a text, which is an address that libdbus opens or not, an integer, with what
-- `PyLong_AsLong` reads from it, or another object.
pub data BusArgument : Type 0 where
  default_bus : BusArgument
  bus_address : Bool → BusArgument
  bus_type : Result ℤ → BusArgument
  no_bus : BusArgument

-- `type != DBUS_BUS_SESSION && ...`, by the values of libdbus.
unfoldable pub known_bus : ℤ → Bool
known_bus (pos n) = if n == 0 then true else if n == 1 then true else n == 2
known_bus (negsuc n) = false

-- What succeeds on the way: `dbus_bus_register`, `dbus_bus_get_private`, and the allocation of the
-- LibDBusConnection and of the arguments for the constructor.
pub record BusOutcomes : Type 0 where
  pub registers : Bool
  pub has_private : Bool
  pub has_wrapper : Bool
  pub has_arguments : Bool

-- `dbus_connection_unref`
unfoldable pub unref_connection : DBusConnection → DBusConnection
unref_connection c = record c { refs = c.refs - 1 }

-- The branch for an address: connect to it, then register.
unfoldable pub new_for_address :
    BusOutcomes → Outcomes → ℕ → Bool → DBusConnection → DBusConnection × Result ℕ
new_for_address b o self opens c =
    let (c', made) = new o self (address opens) c in
    elim made [
      | err e ↦ (c', err e)
      | ok conn ↦ if b.registers then (c', ok conn) else (dealloc conn c', err dbus_exception)
    ]

-- The branch for a well-known bus, behind the check of its type. The reference that libdbus gives is given up
-- once the LibDBusConnection has its own.
unfoldable pub new_for_type :
    BusOutcomes → Outcomes → ℕ → DBusConnection → DBusConnection × Result ℕ
new_for_type b o self c =
    if not b.has_private
    then (c, err dbus_exception)
    else if not b.has_wrapper
    then (unref_connection opened, err memory_error)
    else if not b.has_arguments
    then (unwrap (unref_connection (wrap opened)), err memory_error)
    else let (c', made) = new o self wrapper (unref_connection (wrap opened)) in (unwrap c', made)

-- `DBusPyConnection_NewForBus`: the connection that it is about, and the result.
unfoldable pub new_for_bus :
    BusOutcomes → Outcomes → ℕ → BusArgument → DBusConnection → DBusConnection × Result ℕ
new_for_bus b o self default_bus c = new_for_type b o self c
new_for_bus b o self (bus_address opens) c = new_for_address b o self opens c
new_for_bus b o self (bus_type (err e)) c = (c, err e)
new_for_bus b o self (bus_type (ok type)) c =
    if known_bus type then new_for_type b o self c else (c, err value_error)
new_for_bus b o self no_bus c = (c, err type_error)

-- `DBusPyConnection_GetUniqueName`, with the name that libdbus has.
unfoldable pub get_unique_name : Sender → Option Bytes → Result Bytes
get_unique_name c name = do
  _ ← raise_if_fail c
  elim name [ none ↦ err dbus_exception | some n ↦ ok n ]

-- `DBusPyConnection_SetUniqueName`
unfoldable pub set_unique_name :
    Sender → Result Bytes → Option Bytes → Option Bytes × Result (Unit {0})
set_unique_name c args old_name = elim (args >>= λ name. raise_if_fail c >>= λ _. ok name) [
  | err e ↦ (old_name, err e)
  | ok new_name ↦ elim old_name [
    | some n ↦ (some n, err value_error)
    | none ↦ (some new_name, ok tt)
  ]
]
