-- ===== src/Validation.antt =====
-- The name validators of _dbus_bindings/validation.c. A C string is its list of bytes, without the
-- terminating NUL. A validator returns TRUE, or sets a ValueError and returns FALSE: the result
-- carries which of the messages was set.
pub mod Grammar
pub mod Chars
pub mod BusName
pub mod Interface
pub mod ObjectPath
pub mod Relations
pub mod Raising
use python_dbus.Prelude.{
  ℕ, zero, suc, ◌<◌, Bool, true, false, not, ◌&&◌, ◌||◌, Option, none, some, List, [], ◌∷◌, ltb,
  leb, ◌==◌, if◌then◌else◌, Bytes, length,
}

-- Why a name is refused: one constructor for each message.
pub data Reason : Type 0 where
  may_not_be_empty : Reason
  only_unique_may_start_with_colon : Reason
  unique_must_start_with_colon : Reason
  too_long : Reason
  contains_dot_dot : Reason
  must_not_start_with_dot : Reason
  digit_after_dot : Reason
  must_not_start_with_digit : Reason
  invalid_character : ℕ → Reason
  must_not_end_with_dot : Reason
  must_contain_dot : Reason
  does_not_start_with_slash : Reason
  contains_slash_slash : Reason
  ends_with_slash : Reason

-- The outcome of a validator.
pub data Verdict : Type 0 where
  valid : Verdict
  invalid : Reason → Verdict

unfoldable pub passes : Verdict → Bool
passes valid = true
passes (invalid r) = false

-- `*ptr >= '0' && *ptr <= '9'`
unfoldable pub is_digit : ℕ → Bool
is_digit c = leb b'0' c && leb c b'9'

-- `(*ptr < 'a' || *ptr > 'z') && (*ptr < 'A' || *ptr > 'Z')`
unfoldable pub not_letter : ℕ → Bool
not_letter c = (ltb c b'a' || ltb b'z' c) && (ltb c b'A' || ltb b'Z' c)

abbrev max_name_length : ℕ
max_name_length = 255

-- The body of the loop of `dbus_py_validate_bus_name`: `none` means that the loop goes on.
unfoldable pub bus_name_char : Bool → ℕ → ℕ → Option Reason
bus_name_char unique last c =
    if c == b'.'
    then (if last == b'.'
        then some contains_dot_dot
        else if last == 0
        then some must_not_start_with_dot
        else none)
    else if is_digit c
    then (if not unique
        then (if last == b'.'
            then some digit_after_dot
            else if last == 0
            then some must_not_start_with_digit
            else none)
        else none)
    else if not_letter c && not (c == b'_') && not (c == b'-')
    then some (invalid_character c)
    else none

-- What follows the loops of the bus name and the interface name validators.
unfoldable pub dotted_end : Bool → ℕ → Verdict
dotted_end dot last =
    if last == b'.'
    then invalid must_not_end_with_dot
    else if not dot
    then invalid must_contain_dot
    else valid

-- The loop, over `dot`, `last` and the bytes from `ptr` on.
unfoldable pub bus_name_loop : Bool → Bool → ℕ → Bytes → Verdict
bus_name_loop unique dot last [] = dotted_end dot last
bus_name_loop unique dot last (c ∷ cs) = elim (bus_name_char unique last c) [
  | some why ↦ invalid why
  | none ↦ bus_name_loop unique (if c == b'.' then true else dot) c cs
]

-- `dbus_py_validate_bus_name` behind the test of `name[0]` for NUL. `rest` is `name + 1`.
unfoldable pub bus_name_from : Bool → Bool → ℕ → Bytes → Verdict
bus_name_from may_be_unique may_be_not_unique c rest =
    let unique = c == b':' in
    if unique && not may_be_unique
    then invalid only_unique_may_start_with_colon
    else if not unique && not may_be_not_unique
    then invalid unique_must_start_with_colon
    else if ltb max_name_length (suc (length rest))
    then invalid too_long
    else bus_name_loop unique false 0 (if unique then rest else c ∷ rest)

-- `dbus_py_validate_bus_name`
unfoldable pub validate_bus_name : Bytes → Bool → Bool → Verdict
validate_bus_name [] may_be_unique may_be_not_unique = invalid may_not_be_empty
validate_bus_name (c ∷ rest) may_be_unique may_be_not_unique =
    bus_name_from may_be_unique may_be_not_unique c rest

-- The body of the loop of `dbus_py_validate_member_name`; the flag is `ptr == name`.
unfoldable pub member_char : Bool → ℕ → Option Reason
member_char first c =
    if is_digit c
    then (if first then some must_not_start_with_digit else none)
    else if not_letter c && not (c == b'_')
    then some (invalid_character c)
    else none

unfoldable pub member_loop : Bool → Bytes → Verdict
member_loop first [] = valid
member_loop first (c ∷ cs) = elim (member_char first c) [
  | some why ↦ invalid why
  | none ↦ member_loop false cs
]

-- `dbus_py_validate_member_name`
unfoldable pub validate_member_name : Bytes → Verdict
validate_member_name [] = invalid may_not_be_empty
validate_member_name (c ∷ cs) =
    if ltb max_name_length (length (c ∷ cs)) then invalid too_long else member_loop true (c ∷ cs)

-- The body of the loop of `dbus_py_validate_interface_name`.
unfoldable pub interface_char : ℕ → ℕ → Option Reason
interface_char last c =
    if c == b'.'
    then (if last == b'.'
        then some contains_dot_dot
        else if last == 0
        then some must_not_start_with_dot
        else none)
    else if is_digit c
    then (if last == b'.'
        then some digit_after_dot
        else if last == 0
        then some must_not_start_with_digit
        else none)
    else if not_letter c && not (c == b'_')
    then some (invalid_character c)
    else none

unfoldable pub interface_loop : Bool → ℕ → Bytes → Verdict
interface_loop dot last [] = dotted_end dot last
interface_loop dot last (c ∷ cs) = elim (interface_char last c) [
  | some why ↦ invalid why
  | none ↦ interface_loop (if c == b'.' then true else dot) c cs
]

-- `dbus_py_validate_interface_name`, also used for error names.
unfoldable pub validate_interface_name : Bytes → Verdict
validate_interface_name [] = invalid may_not_be_empty
validate_interface_name (c ∷ cs) =
    if ltb max_name_length (length (c ∷ cs))
    then invalid too_long
    else interface_loop false 0 (c ∷ cs)

-- The body of the loop of `dbus_py_validate_object_path`; `last` is `ptr[-1]`.
unfoldable pub path_char : ℕ → ℕ → Option Reason
path_char last c =
    if c == b'/'
    then (if last == b'/' then some contains_slash_slash else none)
    else if not_letter c && not (is_digit c) && not (c == b'_')
    then some (invalid_character c)
    else none

unfoldable pub path_loop : ℕ → Bytes → Verdict
path_loop last [] = if last == b'/' then invalid ends_with_slash else valid
path_loop last (c ∷ cs) = elim (path_char last c) [ some why ↦ invalid why | none ↦ path_loop c cs ]

-- `dbus_py_validate_object_path` behind the test of `path[0]`. `rest` is `path + 1`.
unfoldable pub object_path_from : Bytes → Verdict
object_path_from [] = valid
object_path_from (c ∷ cs) = path_loop b'/' (c ∷ cs)

-- `dbus_py_validate_object_path`
unfoldable pub validate_object_path : Bytes → Verdict
validate_object_path [] = invalid does_not_start_with_slash
validate_object_path (c ∷ rest) =
    if not (c == b'/') then invalid does_not_start_with_slash else object_path_from rest
