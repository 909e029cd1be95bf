-- ===== src/Containers.antt =====
-- The constructors of dbus.Array, dbus.Dictionary and dbus.Struct in _dbus_bindings/containers.c.
-- The tests of libdbus on signatures are parameters: `dbus_signature_validate` and
-- `dbus_signature_validate_single`. The items are what list(), dict() or tuple() makes of the
-- argument.
pub mod Signed
pub mod Faults
use python_dbus.Message.Guess.{new_signature}
use python_dbus.Prelude.{
  ℕ, Bool, true, false, ◌||◌, Option, none, some, [], ◌∷◌, ◌==◌, if◌then◌else◌, Bytes,
}
use python_dbus.Python.Integer.{ℤ, pos, ltb_ℤ}
use python_dbus.Python.Object.{Object, struct, array, dictionary, Objects, nil, cons, Entries}
use python_dbus.Python.{Exception, value_error, Result, ok, err, ◌>>=◌}

-- The `signature` argument: missing or None, a dbus.Signature, or an object that the constructor of
-- dbus.Signature reads as a text or refuses.
pub data SignatureArgument : Type 0 where
  absent : SignatureArgument
  a_signature : Bytes → SignatureArgument
  convertible : Result Bytes → SignatureArgument

-- "convert signature from a borrowed ref of unknown type to an owned ref of type Signature (or
-- None)", the same in the three constructors.
unfoldable pub convert_signature : (Bytes → Bool) → SignatureArgument → Result (Option Bytes)
convert_signature validate absent = ok none
convert_signature validate (a_signature s) = ok (some s)
convert_signature validate (convertible text) = do
  t ← text
  s ← new_signature validate t
  ok (some s)

-- `variant_level` in `Array_tp_new` and `Dict_tp_new`: missing, or what `PyLong_AsLong` makes of it.
unfoldable pub container_level : Option (Result ℤ) → Result ℤ
container_level none = ok (pos 0)
container_level (some level) = level

-- The test of `Array_tp_init` on its signature.
unfoldable pub check_element : (Bytes → Bool) → Option Bytes → Result (Unit {0})
check_element validate_single none = ok tt
check_element validate_single (some s) = if validate_single s then ok tt else err value_error

-- `switch (c_str[0])` in `Dict_tp_init`.
unfoldable pub is_key_type : ℕ → Bool
is_key_type c =
    c == b'y'
    || c == b'b'
    || c == b'n'
    || c == b'q'
    || c == b'i'
    || c == b'u'
    || c == b'x'
    || c == b't'
    || c == b'd'
    || c == b'h'
    || c == b's'
    || c == b'o'
    || c == b'g'

-- The tests of `Dict_tp_init` on its signature. The terminating NUL of an empty one is no key type.
unfoldable pub check_key_value : (Bytes → Bool) → Option Bytes → Result (Unit {0})
check_key_value validate_single none = ok tt
check_key_value validate_single (some []) = err value_error
check_key_value validate_single (some (c ∷ cs)) =
    if is_key_type c
    then (if validate_single cs then ok tt else err value_error)
    else err value_error

module _ (validate validate_single : Bytes → Bool) where
  -- `Array_tp_new`, then `Array_tp_init`, which reads the items last.
  unfoldable pub array_new : Result Objects → SignatureArgument → Option (Result ℤ) → Result Object
  array_new items signature variant_level = do
    level ← container_level variant_level
    sig ← convert_signature validate signature
    _ ← check_element validate_single sig
    xs ← items
    ok (array xs sig level)

  -- `Dict_tp_new`, then `Dict_tp_init`.
  unfoldable pub dict_new : Result Entries → SignatureArgument → Option (Result ℤ) → Result Object
  dict_new entries signature variant_level = do
    level ← container_level variant_level
    sig ← convert_signature validate signature
    _ ← check_key_value validate_single sig
    es ← entries
    ok (dictionary es sig level)

-- "D-Bus structs may not be empty"
unfoldable pub not_empty : Objects → Result (Unit {0})
not_empty nil = err value_error
not_empty (cons x xs) = ok tt

-- "variant_level must be non-negative"
unfoldable pub not_negative : ℤ → Result (Unit {0})
not_negative level = if ltb_ℤ level (pos 0) then err value_error else ok tt

-- `Struct_tp_new`, on one positional argument. The result is the struct and the signature that goes
-- into `struct_signatures` for it.
unfoldable pub struct_new :
    (Bytes → Bool)
    → Result Objects
    → SignatureArgument
    → Option (Result ℤ)
    → Result (Object × Option Bytes)
struct_new validate items signature variant_level = do
  variantness ← container_level variant_level
  _ ← not_negative variantness
  xs ← items
  _ ← not_empty xs
  sig ← convert_signature validate signature
  ok (struct xs variantness, sig)
