-- ===== src/Exceptions.antt =====
-- _dbus_bindings/exceptions.c: the import of dbus.exceptions.DBusException, which is kept once it has
-- been found, and the two functions that raise it.
pub mod Counted
use python_dbus.Prelude.{
  ℕ, ◌+◌, ◌-◌, Bool, true, false, not, ◌&&◌, Option, none, some, [], Bytes, if◌then◌else◌,
}

-- The exception that is set: one of Python, or a DBusException with its message and the name of the
-- D-Bus error, where it has one.
pub data Raised : Type 0 where
  by_python : Raised
  dbus_raised : Bytes → Option Bytes → Raised

pub record DbusError : Type 0 where
  pub message : Option Bytes
  pub name : Option Bytes

-- What the calls of Python come to: the name of the module, the module and its class; the exception
-- object, and its attribute.
pub record Replies : Type 0 where
  pub name_made : Bool
  pub module_found : Bool
  pub has_class : Bool
  pub value_made : Bool
  pub text_made : Bool
  pub attribute_set : Bool

pub record Thread : Type 0 where
  -- `imported_dbus_exception != NULL`
  pub imported : Bool
  -- How often the class has been found in the module.
  pub lookups : ℕ
  pub raised : Option Raised
  -- The references to exception objects that `DBusPyException_ConsumeError` has made.
  pub value_refs : ℕ
  -- The calls of `dbus_error_free`.
  pub freed : ℕ

unfoldable pub failed : Thread → Thread
failed s = record s { raised = some by_python }

-- `import_exception`
unfoldable pub import_exception : Replies → Thread → Bool × Thread
import_exception a s =
    if s.imported
    then (true, s)
    else if not a.name_made
    then (false, failed s)
    else if not a.module_found
    then (false, failed s)
    else if not a.has_class
    then (false, failed s)
    else (true, record s { imported = true; lookups = s.lookups + 1 })

-- `imported_dbus_exception != NULL || import_exception()`
unfoldable pub find_exception : Replies → Thread → Bool × Thread
find_exception a s = if s.imported then (true, s) else import_exception a s

-- `DBusPyException_SetString`
unfoldable pub set_string : Replies → Bytes → Thread → Thread
set_string a msg s =
    let (found, s') = find_exception a s in
    if found then record s' { raised = some (dbus_raised msg none) } else s'

-- `error->message ? error->message : ""`
unfoldable pub message_or_empty : DbusError → Bytes
message_or_empty e = elim e.message [ none ↦ [] | some msg ↦ msg ]

-- `if (error->name)` and its block: whether the attribute could be set.
unfoldable pub named : Replies → Option Bytes → Bool
named a none = true
named a (some name) = a.text_made && a.attribute_set

-- `finally:`, with `exc_value` NULL or not.
unfoldable pub at_finally : Bool → Thread → Thread
at_finally made s = record s {
  value_refs = if made then s.value_refs - 1 else s.value_refs;
  freed = s.freed + 1;
}

-- `PyErr_SetObject`, which takes a reference of its own.
unfoldable pub set_object : Raised → Thread → Thread
set_object e s = record s { raised = some e; value_refs = s.value_refs + 1 }

-- `DBusPyException_ConsumeError`
unfoldable pub consume_error : Replies → DbusError → Thread → Thread
consume_error a e s =
    let (found, s') = find_exception a s in
    if not found
    then at_finally false s'
    else if not a.value_made
    then at_finally false (failed s')
    else let made = record s' { value_refs = s'.value_refs + 1 } in
      if not (named a e.name)
      then at_finally true (failed made)
      else at_finally true (set_object (dbus_raised (message_or_empty e) e.name) made)
