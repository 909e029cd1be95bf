-- ===== src/Message/Guess/Lookup.antt =====
-- `get_object_path` of _dbus_bindings/message-append.c. What an attribute lookup gives is up to the
-- object, and is a parameter of the functions that look up.
use python_dbus.Prelude.{Option, none, some}
use python_dbus.Python.Object.{Object, str_object, bytes_object}
use python_dbus.Python.{Exception, system_exit, keyboard_interrupt, type_error, Result, ok, err}

-- The outcome of `PyObject_GetAttr(obj, "__dbus_object_path__")`.
pub data Attribute : Type 0 where
  found : Object → Attribute
  raised : Exception → Attribute

-- `get_object_path`; `none` is Python's None.
unfoldable pub get_object_path : Attribute → Result (Option Object)
get_object_path (found (str_object t s l)) = ok (some (str_object t s l))
get_object_path (found (bytes_object t s l)) = ok (some (bytes_object t s l))
get_object_path (found _) = err type_error
get_object_path (raised system_exit) = err system_exit
get_object_path (raised keyboard_interrupt) = err keyboard_interrupt
get_object_path (raised _) = ok none
