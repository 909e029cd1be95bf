-- ===== src/Connection/Children.antt =====
-- `Connection_list_exported_child_objects` of _dbus_bindings/conn-methods.c.
pub mod Paths
use python_dbus.Connection.Sending.{Sender, raise_if_fail}
use python_dbus.Prelude.{
  Bool, true, false, not, Option, none, some, List, [], ◌∷◌, ◌++◌, Bytes, if◌then◌else◌,
}
use python_dbus.Python.{value_error, memory_error, Result, ok, err, ◌>>=◌}
use python_dbus.Validation.{passes, validate_object_path}

-- What happens to the array of libdbus.
pub data Array : Type 0 where
  never_given freed leaked : Array

-- What Python has the memory for: the list, each string, and each longer list.
pub record Room : Type 0 where
  pub has_list : Bool
  pub makes : Bytes → Bool
  pub grows : List Bytes → Bool

-- The loop: the list, and whether the array is freed behind it.
unfoldable pub kids_loop : Room → List Bytes → List Bytes → Result (List Bytes) × Array
kids_loop room [] ret = (ok ret, freed)
kids_loop room (kid ∷ kids) ret =
    let rest = kids_loop room kids (ret ++ (kid ∷ [])) in
    if not (room.makes kid)
    then (err memory_error, leaked)
    else if not (room.grows ret)
    then (err memory_error, leaked)
    else rest

-- The checks, up to the call of libdbus.
unfoldable pub check_children : Sender → Result Bytes → Result Bytes
check_children c args = do
  _ ← raise_if_fail c
  path ← args
  if passes (validate_object_path path) then ok path else err value_error

-- `Connection_list_exported_child_objects`. `registered` is what `dbus_connection_list_registered` gives for a
-- path, if it has memory.
unfoldable pub list_exported_child_objects :
    Sender → Result Bytes → (Bytes → Option (List Bytes)) → Room → Result (List Bytes) × Array
list_exported_child_objects c args registered room = elim (check_children c args) [
  | err e ↦ (err e, never_given)
  | ok path ↦ elim (registered path) [
    | none ↦ (err memory_error, never_given)
    | some kids ↦
        let looped = kids_loop room kids [] in
        if room.has_list then looped else (err memory_error, leaked)
  ]
]
