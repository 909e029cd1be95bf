-- ===== src/Connection/Handle.antt =====
-- `DBusPyConnection_HandleMessage` of _dbus_bindings/conn.c: what a Python message handler returns
-- or raises, as the result that libdbus asks for.
use python_dbus.Prelude.{
  Bool, true, false, Option, none, some, ◌≡◌, ◌↔◌, ◌⊎◌, arith, ◌==◌, if◌then◌else◌,
}
use python_dbus.Python.Integer.{ℤ, pos, negsuc}
use python_dbus.Python.{Exception, type_error, value_error, memory_error}

-- `DBusHandlerResult`
pub data HandlerResult : Type 0 where
  handled not_yet_handled need_memory : HandlerResult

-- What the call of the handler gives: None, NotImplemented, an exception, or another object, with
-- the number that `PyLong_AsLong` reads from it, if it can.
pub data Returned : Type 0 where
  none_returned : Returned
  not_implemented : Returned
  raised : Exception → Returned
  object : Option ℤ → Returned

-- `i == DBUS_HANDLER_RESULT_HANDLED || ...`, by the values of libdbus' enumeration.
unfoldable pub handler_result : ℤ → Option HandlerResult
handler_result (pos n) =
    if n == 0
    then some handled
    else if n == 1
    then some not_yet_handled
    else if n == 2
    then some need_memory
    else none
handler_result (negsuc n) = none

unfoldable pub is_memory_error : Exception → Bool
is_memory_error memory_error = true
is_memory_error _ = false

-- `DBusPyConnection_HandleMessage`: the result, and the exception that is left set.
unfoldable pub handle_message : Returned → HandlerResult × Option Exception
handle_message none_returned = (handled, none)
handle_message not_implemented = (not_yet_handled, none)
handle_message (raised e) =
    if is_memory_error e then (need_memory, none) else (not_yet_handled, some e)
handle_message (object none) = (not_yet_handled, some type_error)
handle_message (object (some i)) = elim (handler_result i) [
  | some r ↦ (r, none)
  | none ↦ (not_yet_handled, some value_error)
]

-- A message counts as handled exactly when its handler returns None or 0, and then no exception is
-- left set.
pub handled_iff :
    (r : Returned)
    → (handle_message r ≡ (handled, none)) ↔ ((r ≡ none_returned) ⊎ (r ≡ object (some (pos 0))))
unfolding handle_message handler_result is_memory_error
handled_iff none_returned = ground arith
handled_iff not_implemented = ground arith
handled_iff (raised e) = ground arith
handled_iff (object none) = ground arith
handled_iff (object (some (pos n))) = ground arith
handled_iff (object (some (negsuc n))) = ground arith
