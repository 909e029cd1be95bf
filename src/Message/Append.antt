-- ===== src/Message/Append.antt =====
-- The basic types in `Message.append`: `_message_iter_append_string`, `_message_iter_append_byte`,
-- `_message_iter_append_unixfd` and the numeric branches of `_message_iter_append_pyobject` of
-- _dbus_bindings/message-append.c. The result is the value that goes to
-- `dbus_message_iter_append_basic`, which is taken to have memory.
pub mod Sendable
pub mod Guessed
use python_dbus.Message.Guess.Lookup.{Attribute, get_object_path}
use python_dbus.Numbers.{
  Platform, int16_range_check, uint16_range_check, int32_range_check, uint32_range_check,
  int64_range_check, uint64_range_check,
}
use python_dbus.Prelude.{
  ℕ, ◌-◌, ◌^◌, Bool, true, false, not, ◌||◌, Option, none, some, List, [], ◌∷◌, ◌≡◌, ◌==◌,
  if◌then◌else◌, Bytes, all,
}
use python_dbus.Python.Integer.{ℤ, pos, negsuc, ltb_ℤ}
use python_dbus.Python.Object.{
  IntType, FloatType, Object, int_object, str_object, bytes_object, float_object, true_object,
  false_object, unix_fd,
}
use python_dbus.Python.{
  Exception, value_error, type_error, unicode_error, unset, Result, ok, err, ◌>>=◌,
}

-- What the code asks of an object: its attribute, its truth, for which Python calls `__bool__`, and the
-- integer and the float that it converts to. The last argument is `dbus_validate_utf8`.
pub record Interpreter : Type 0 where
  pub platform : Platform
  pub attribute : Object → Attribute
  pub truth : Object → Result Bool
  pub integer : Object → Result ℤ
  pub real : Object → Result ℕ
  pub validate_utf8 : Bytes → Bool
  pub integer_int : (type : IntType) (v level : ℤ) → integer (int_object type v level) ≡ ok v
  pub real_float : (type : FloatType) (x : ℕ) (level : ℤ) → real (float_object type x level) ≡ ok x

-- `PyObject_IsTrue(obj) ? 1 : 0`, as it stands in the code: the -1 of a failure is not 0.
unfoldable pub is_true : Result Bool → ℕ
is_true (ok true) = 1
is_true (ok false) = 0
is_true (err e) = 1

-- A value of a basic type.
pub data Basic : Type 0 where
  number : ℤ → Basic
  double : ℕ → Basic
  text : Bytes → Basic

-- The text is one that can be sent: it holds no NUL, and is valid UTF-8.
unfoldable pub check_text : (Bytes → Bool) → Bytes → Result Basic
check_text validate_utf8 s =
    if not (all (λ c. not (c == 0)) s)
    then err value_error
    else if not (validate_utf8 s)
    then err unicode_error
    else ok (text s)

-- `_message_iter_append_string` behind its look at the attribute.
unfoldable pub append_text : (Bytes → Bool) → Object → Result Basic
append_text validate_utf8 (bytes_object t s l) = check_text validate_utf8 s
append_text validate_utf8 (str_object t s l) = check_text validate_utf8 s
append_text validate_utf8 _ = err type_error

module _ (python : Interpreter) where
  -- `_message_iter_append_string`
  unfoldable pub append_string : ℕ → Object → Result Basic
  append_string sig_type obj =
      if sig_type == b'o'
      then (do
        object_path ← get_object_path (python.attribute obj)
        elim object_path [
          | some p ↦ append_text python.validate_utf8 p
          | none ↦ append_text python.validate_utf8 obj
        ])
      else append_text python.validate_utf8 obj

  -- The branch of `_message_iter_append_byte` for what is no `bytes`.
  unfoldable pub append_byte_number : Object → Result Basic
  append_byte_number obj = do
    n ← python.integer obj
    i ← python.platform.as_long n
    if ltb_ℤ i (pos 0) || ltb_ℤ (pos 0xff) i then err value_error else ok (number i)

  -- `_message_iter_append_byte`
  unfoldable pub append_byte : Object → Result Basic
  append_byte (bytes_object t (c ∷ []) l) = ok (number (pos c))
  append_byte (bytes_object t s l) = err value_error
  append_byte obj = append_byte_number obj

  -- The branch of `_message_iter_append_unixfd` for an integer.
  unfoldable pub append_fd_number : ℤ → Result Basic
  append_fd_number n = do
    original_fd ← python.platform.as_long n
    if ltb_ℤ original_fd (negsuc (2 ^ 31 - 1)) || ltb_ℤ (pos (2 ^ 31 - 1)) original_fd
        then err value_error
        else ok (number original_fd)

  -- `_message_iter_append_unixfd`
  unfoldable pub append_unixfd : Object → Result Basic
  append_unixfd true_object = append_fd_number (pos 1)
  append_unixfd false_object = append_fd_number (pos 0)
  append_unixfd (int_object t v l) = append_fd_number v
  append_unixfd (unix_fd fd) = ok (number fd)
  append_unixfd _ = err unset

  -- `PROCESS_INTEGER`
  unfoldable pub process_integer : (Result ℤ → Result ℤ) → Object → Result Basic
  process_integer range_check obj = do i ← range_check (python.integer obj); ok (number i)

  -- The branches of `_message_iter_append_pyobject` for basic types, by the letter of the signature. Where
  -- the truth of an object raises, 1 is appended and the function goes on, with the exception still set;
  -- what later calls and the interpreter make of that exception is left out.
  unfoldable pub append_basic : ℕ → Object → Result Basic
  append_basic sig_type obj =
      let p = python.platform in
      if sig_type == b'b'
      then ok (number (pos (is_true (python.truth obj))))
      else if sig_type == b'd'
      then (do x ← python.real obj; ok (double x))
      else if sig_type == b'n'
      then process_integer (int16_range_check p) obj
      else if sig_type == b'q'
      then process_integer (uint16_range_check p) obj
      else if sig_type == b'i'
      then process_integer (int32_range_check p) obj
      else if sig_type == b'u'
      then process_integer (uint32_range_check p) obj
      else if sig_type == b'x'
      then process_integer (int64_range_check p) obj
      else if sig_type == b't'
      then process_integer (uint64_range_check p) obj
      else if (sig_type == b's' || sig_type == b'g') || sig_type == b'o'
      then append_string sig_type obj
      else if sig_type == b'y'
      then append_byte obj
      else if sig_type == b'h'
      then append_unixfd obj
      else err type_error
