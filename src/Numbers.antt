-- ===== src/Numbers.antt =====
-- The integer types of _dbus_bindings/int.c and bytes.c: range checks and constructors, and the base
-- class' constructor in abstract.c.
pub mod Range
pub mod New
use python_dbus.Prelude.{
  ℕ, ◌+◌, ◌-◌, ◌^◌, ◌≤◌, Bool, true, false, not, ◌&&◌, ◌||◌, Option, none, some, [], ◌∷◌, ◌≡◌, ◌==◌,
  if◌then◌else◌, Bytes,
}
use python_dbus.Python.Integer.{ℤ, pos, negsuc, ltb_ℤ}
use python_dbus.Python.Object.{
  IntType, int, byte, boolean, int16, uint16, int32, uint32, int64, uint64, Object, true_object,
  false_object, int_object, bytes_object,
}
use python_dbus.Python.{Exception, value_error, type_error, overflow_error, Result, ok, err, ◌>>=◌}

abbrev pub in_range : ℤ → ℤ → ℤ → Bool
in_range lowest highest n = not (ltb_ℤ n lowest) && not (ltb_ℤ highest n)

-- The conversions of CPython's C API, from an exact integer. Each raises OverflowError for what its
-- C type cannot hold. The sizes of `long` are those of the platform, and at least 32 bits.
pub record Platform : Type 0 where
  pub long_max : ℕ
  pub ulong_max : ℕ
  pub long_wide : 2 ^ 31 - 1 ≤ long_max
  pub ulong_wide : 2 ^ 32 - 1 ≤ ulong_max
  pub as_long : ℤ → Result ℤ
  pub as_unsigned_long : ℤ → Result ℤ
  pub as_long_long : ℤ → Result ℤ
  pub as_unsigned_long_long : ℤ → Result ℤ
  pub as_long_lem :
      (n : ℤ)
      → as_long n
        ≡ (if in_range (negsuc long_max) (pos long_max) n then ok n else err overflow_error)
  pub as_unsigned_long_lem :
      (n : ℤ)
      → as_unsigned_long n
        ≡ (if in_range (pos 0) (pos ulong_max) n then ok n else err overflow_error)
  pub as_long_long_lem :
      (n : ℤ)
      → as_long_long n
        ≡ (if in_range (negsuc (2 ^ 63 - 1)) (pos (2 ^ 63 - 1)) n then ok n else err overflow_error)
  pub as_unsigned_long_long_lem :
      (n : ℤ)
      → as_unsigned_long_long n
        ≡ (if in_range (pos 0) (pos (2 ^ 64 - 1)) n then ok n else err overflow_error)

module _ (p : Platform) where
  -- `dbus_py_int16_range_check`. The object is the integer that it converts to, or the exception
  -- that the conversion raises.
  unfoldable pub int16_range_check : Result ℤ → Result ℤ
  int16_range_check obj = do
    n ← obj
    i ← p.as_long n
    if ltb_ℤ i (negsuc 0x7fff) || ltb_ℤ (pos 0x7fff) i then err overflow_error else ok i

  -- `dbus_py_uint16_range_check`
  unfoldable pub uint16_range_check : Result ℤ → Result ℤ
  uint16_range_check obj = do
    n ← obj
    i ← p.as_long n
    if ltb_ℤ i (pos 0) || ltb_ℤ (pos 0xffff) i then err overflow_error else ok i

  -- `dbus_py_int32_range_check`
  unfoldable pub int32_range_check : Result ℤ → Result ℤ
  int32_range_check obj = do
    n ← obj
    i ← p.as_long n
    if ltb_ℤ i (negsuc 0x7fff_ffff) || ltb_ℤ (pos 0x7fff_ffff) i then err overflow_error else ok i

  -- `dbus_py_uint32_range_check`
  unfoldable pub uint32_range_check : Result ℤ → Result ℤ
  uint32_range_check obj = do
    long_obj ← obj
    i ← p.as_unsigned_long long_obj
    if ltb_ℤ (pos 0xffff_ffff) i then err overflow_error else ok i

  -- `dbus_py_int64_range_check`
  unfoldable pub int64_range_check : Result ℤ → Result ℤ
  int64_range_check obj = do
    long_obj ← obj
    i ← p.as_long_long long_obj
    if ltb_ℤ i (negsuc (2 ^ 63 - 1)) || ltb_ℤ (pos (2 ^ 63 - 1)) i then err overflow_error else ok i

  -- `dbus_py_uint64_range_check`
  unfoldable pub uint64_range_check : Result ℤ → Result ℤ
  uint64_range_check obj = do
    long_obj ← obj
    i ← p.as_unsigned_long_long long_obj
    if ltb_ℤ (pos (2 ^ 64 - 1)) i then err overflow_error else ok i

-- `DBusPythonLong_tp_new`: what `int` makes of the positional argument, and the variant level.
unfoldable pub long_base_new : IntType → Result ℤ → ℤ → Result Object
long_base_new type value level =
    if ltb_ℤ level (pos 0) then err value_error else (do v ← value; ok (int_object type v level))

-- The integer that an object converts to, for those that are integers.
unfoldable pub number_of : Object → Option ℤ
number_of true_object = some (pos 1)
number_of false_object = some (pos 0)
number_of (int_object type v level) = some v
number_of _ = none

-- The constructors run a range check on the object that the base class' constructor returns.
abbrev checked : (Result ℤ → Result ℤ) → IntType → Result ℤ → ℤ → Result Object
checked range_check type value level = do
  self ← long_base_new type value level
  _ ← range_check (elim (number_of self) [ some v ↦ ok v | none ↦ err type_error ])
  ok self

module _ (p : Platform) where
  -- `Int16_tp_new`
  unfoldable pub int16_new : Result ℤ → ℤ → Result Object
  int16_new = checked (int16_range_check p) int16

  -- `UInt16_tp_new`
  unfoldable pub uint16_new : Result ℤ → ℤ → Result Object
  uint16_new = checked (uint16_range_check p) uint16

  -- `Int32_tp_new`
  unfoldable pub int32_new : Result ℤ → ℤ → Result Object
  int32_new = checked (int32_range_check p) int32

  -- `UInt32_tp_new`
  unfoldable pub uint32_new : Result ℤ → ℤ → Result Object
  uint32_new = checked (uint32_range_check p) uint32

  -- `Int64_tp_new`
  unfoldable pub int64_new : Result ℤ → ℤ → Result Object
  int64_new = checked (int64_range_check p) int64

  -- `UInt64_tp_new`
  unfoldable pub uint64_new : Result ℤ → ℤ → Result Object
  uint64_new = checked (uint64_range_check p) uint64

-- `Boolean_tp_new`, by the truth value of the argument.
unfoldable pub boolean_new : Bool → ℤ → Result Object
boolean_new truth level =
    if ltb_ℤ level (pos 0)
    then err value_error
    else long_base_new boolean (ok (if truth then pos 1 else pos 0)) level

-- The branch of `Byte_new` for a `bytes`.
unfoldable pub byte_of_bytes : Bytes → ℤ → Result Object
byte_of_bytes (c ∷ []) level = long_base_new byte (ok (pos c)) level
byte_of_bytes _ level = err type_error

-- The object is a dbus.Byte of this variant level.
unfoldable pub is_byte_at : Object → ℤ → Bool
is_byte_at (int_object byte v l) level = not (ltb_ℤ l level) && not (ltb_ℤ level l)
is_byte_at _ level = false

-- The branch for an integer; a dbus.Byte of the wanted variant level is returned as it is.
unfoldable pub byte_of_int : Platform → Object → ℤ → ℤ → Result Object
byte_of_int p obj v level = elim (p.as_long v) [
  | err e ↦ err type_error
  | ok i ↦
      if is_byte_at obj level
      then ok obj
      else if ltb_ℤ i (pos 0) || ltb_ℤ (pos 255) i
      then err value_error
      else long_base_new byte (ok v) level
]

-- The branches of `Byte_new` behind the check of the variant level.
unfoldable pub byte_from : Platform → Object → ℤ → Result Object
byte_from p (bytes_object type s l) level = byte_of_bytes s level
byte_from p obj level = elim (number_of obj) [
  | some v ↦ byte_of_int p obj v level
  | none ↦ err type_error
]

-- `Byte_new`, with one positional argument.
unfoldable pub byte_new : Platform → Object → ℤ → Result Object
byte_new p obj level = if ltb_ℤ level (pos 0) then err value_error else byte_from p obj level
