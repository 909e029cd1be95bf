-- ===== src/Tests/Names.antt =====
-- Names and paths, as validation.c sees them.
use python_dbus.Exceptions.Counted.{consume_error_lem}
use python_dbus.Exceptions.{by_python, DbusError, Replies, Thread, consume_error}
use python_dbus.Python.Integer.{pos}
use python_dbus.Python.{ok}
use python_dbus.Validation.Raising.{none_or_raise, call_object_path, calls_iff}
use python_dbus.Prelude.{true, false, none, some, [], ◌∷◌, ◌≡◌, refl, Bytes}
use python_dbus.Validation.BusName.{validate_bus_name_iff}
use python_dbus.Validation.Grammar.{IsBusName, IsObjectPath}
use python_dbus.Validation.{
  valid, passes, validate_bus_name, bus_name_from, bus_name_loop, bus_name_char, dotted_end,
  validate_interface_name, interface_loop, interface_char, validate_member_name, member_loop,
  member_char, validate_object_path, object_path_from, path_loop, path_char, is_digit, not_letter,
}

-- "a.B2"
abbrev dotted : Bytes
dotted = b'a' ∷ b'.' ∷ b'B' ∷ b'2' ∷ []

-- ":1.2"
abbrev unique : Bytes
unique = b':' ∷ b'1' ∷ b'.' ∷ b'2' ∷ []

-- "/a/b"
abbrev path : Bytes
path = b'/' ∷ b'a' ∷ b'/' ∷ b'b' ∷ []

unique_accepted : validate_bus_name unique true false ≡ valid
unfolding validate_bus_name bus_name_from bus_name_loop bus_name_char dotted_end is_digit not_letter
unique_accepted = refl

unique_refused : passes (validate_bus_name unique false true) ≡ false
unfolding validate_bus_name bus_name_from passes is_digit not_letter
unique_refused = refl

trailing_slash_refused : passes (validate_object_path (b'/' ∷ b'a' ∷ b'/' ∷ [])) ≡ false
unfolding validate_object_path object_path_from path_loop path_char passes is_digit not_letter
trailing_slash_refused = refl

validate_bus_name_example : IsBusName true false unique
validate_bus_name_example = (validate_bus_name_iff unique true false).0 unique_accepted

interface_accepted : validate_interface_name dotted ≡ valid
unfolding validate_interface_name interface_loop interface_char dotted_end is_digit not_letter
interface_accepted = refl

member_accepted : validate_member_name (b'B' ∷ b'2' ∷ []) ≡ valid
unfolding validate_member_name member_loop member_char is_digit not_letter
member_accepted = refl

path_accepted : validate_object_path path ≡ valid
unfolding validate_object_path object_path_from path_loop path_char is_digit not_letter
path_accepted = refl

path_returns : call_object_path (ok path) ≡ ok tt
unfolding call_object_path none_or_raise passes validate_object_path object_path_from path_loop
    path_char is_digit not_letter
path_returns = refl

calls_iff_example : IsObjectPath path
calls_iff_example = (calls_iff path (pos 1) (pos 1)).3.0 path_returns

-- "no.X"
abbrev no_reply : DbusError
no_reply = record { message = none; name = some (b'n' ∷ b'o' ∷ b'.' ∷ b'X' ∷ []) }

abbrev no_class : Replies
no_class = record {
  name_made = true;
  module_found = true;
  has_class = false;
  value_made = true;
  text_made = true;
  attribute_set = true;
}

abbrev at_start : Thread
at_start = record { imported = false; lookups = 0; raised = none; value_refs = 0; freed = 0 }

consume_error_example :
    ((consume_error no_class no_reply at_start).freed ≡ 1)
    × ((consume_error no_class no_reply at_start).raised ≡ some by_python)
    × ((consume_error no_class no_reply at_start).value_refs ≡ 0)
consume_error_example = consume_error_lem no_class no_reply at_start
