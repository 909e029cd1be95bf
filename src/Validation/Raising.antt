-- ===== src/Validation/Raising.antt =====
-- The functions of _dbus_bindings/module.c that Python calls to validate a name. `args` is what parsing
-- the arguments gives.
use python_dbus.Message.Accessors.{truth}
use python_dbus.Prelude.{refl, ◌≡◌, ◌↔◌, arith, Bytes, if◌then◌else◌}
use python_dbus.Python.Integer.{ℤ}
use python_dbus.Python.{Result, ok, err, value_error, ◌>>=◌}
use python_dbus.Validation.BusName.{validate_bus_name_iff}
use python_dbus.Validation.Grammar.{IsBusName, IsInterfaceName, IsMemberName, IsObjectPath}
use python_dbus.Validation.Interface.{validate_interface_name_iff, validate_member_name_iff}
use python_dbus.Validation.ObjectPath.{validate_object_path_iff}
use python_dbus.Validation.{
  Verdict, valid, invalid, passes, validate_bus_name, validate_member_name, validate_interface_name,
  validate_object_path,
}

-- None, or the ValueError of the validator.
unfoldable pub none_or_raise : Verdict → Result (Unit {0})
none_or_raise v = if passes v then ok tt else err value_error

-- `validate_bus_name`, with 1 for the flags that are left out.
unfoldable pub call_bus_name : Result (Bytes × ℤ × ℤ) → Result (Unit {0})
call_bus_name args = do
  (name, allow_unique, allow_well_known) ← args
  none_or_raise (validate_bus_name name (truth allow_unique) (truth allow_well_known))

-- `validate_member_name`
unfoldable pub call_member_name : Result Bytes → Result (Unit {0})
call_member_name args = do name ← args; none_or_raise (validate_member_name name)

-- `validate_interface_name`, which is `validate_error_name` too.
unfoldable pub call_interface_name : Result Bytes → Result (Unit {0})
call_interface_name args = do name ← args; none_or_raise (validate_interface_name name)

-- `validate_object_path`
unfoldable pub call_object_path : Result Bytes → Result (Unit {0})
call_object_path args = do name ← args; none_or_raise (validate_object_path name)

none_or_raise-ok {ℓ} : {P : Type ℓ} (v : Verdict) → (v ≡ valid) ↔ P → (none_or_raise v ≡ ok tt) ↔ P
unfolding none_or_raise passes
none_or_raise-ok valid h = (λ _. h.0 refl, λ _. refl)
none_or_raise-ok (invalid r) h =
    (λ e. absurd (ground (arith, e)), λ x. absurd (ground (arith, h.1 x)))

-- Each of the functions, given a text, returns None exactly for a name of its grammar; `validate_bus_name`
-- for one of a kind that its two flags allow, as integers that are not 0. The names of at most 255 bytes
-- are words joined by dots; an object path is `/` or words that each follow a slash.
pub calls_iff :
    (s : Bytes) (u w : ℤ)
    → ((call_bus_name (ok (s, u, w)) ≡ ok tt) ↔ IsBusName (truth u) (truth w) s)
      × ((call_member_name (ok s) ≡ ok tt) ↔ IsMemberName s)
      × ((call_interface_name (ok s) ≡ ok tt) ↔ IsInterfaceName s)
      × ((call_object_path (ok s) ≡ ok tt) ↔ IsObjectPath s)
unfolding call_bus_name call_member_name call_interface_name call_object_path
calls_iff s u w = (
  none_or_raise-ok _ (validate_bus_name_iff s (truth u) (truth w)),
  none_or_raise-ok _ (validate_member_name_iff s),
  none_or_raise-ok _ (validate_interface_name_iff s),
  none_or_raise-ok _ (validate_object_path_iff s),
)
