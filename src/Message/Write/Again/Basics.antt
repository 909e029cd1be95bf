-- ===== src/Message/Write/Again/Basics.antt =====
-- The basic values that `_message_iter_append_pyobject` of _dbus_bindings/message-append.c writes for the
-- objects that stand for them.
use python_dbus.Message.Append.{
  Interpreter, Basic, number, double, text, append_basic, process_integer, append_byte, is_true,
  append_byte_number, append_string, append_text, check_text,
}
use python_dbus.Message.Guess.Lookup.{get_object_path}
use python_dbus.Message.Objects.{basic_object}
use python_dbus.Message.Types.{Ty}
use python_dbus.Message.Values.{code, basic_fits}
use python_dbus.Numbers.Range.{Width, range_check-fits}
use python_dbus.Prelude.{ℕ, zero, suc, Bool, true, not, none, ◌==◌, ◌≡◌, arith, Bytes}
use python_dbus.Python.Integer.{ℤ, pos}
use python_dbus.Python.Object.{IntType, FloatType, int_object}
use python_dbus.Python.{ok}

module _ (python : Interpreter) (validate : Bytes → Bool)
    (truth : (n : ℕ) (level : ℤ)
      → python.truth (int_object IntType.boolean (pos n) level) ≡ ok (not (n == 0))) where
  pub append_basic-basic_object :
      (l : ℕ) (t : Ty) (b : Basic)
      → basic_fits python.validate_utf8 validate t b ≡ true
      → get_object_path (python.attribute (basic_object l t b)) ≡ ok none
      → append_basic python (code t) (basic_object l t b) ≡ ok b
  unfolding basic_fits basic_object code append_basic process_integer append_byte append_byte_number
      append_string append_text check_text is_true
  append_basic-basic_object l Ty.byte (number n) h a = ground (
    arith,
    python.integer_int IntType.byte n (pos l),
    python.platform.as_long_lem n,
    python.platform.long_wide,
  )
  append_basic-basic_object l Ty.boolean (number (pos zero)) h a = ground (arith, truth 0 (pos l))
  append_basic-basic_object l Ty.boolean (number (pos (suc zero))) h a =
      ground (arith, truth 1 (pos l))
  append_basic-basic_object l Ty.boolean (number n) h a = absurd (ground arith)
  append_basic-basic_object l Ty.int16 (number n) h a = ground (
    arith,
    python.integer_int IntType.int16 n (pos l),
    range_check-fits python.platform Width.int16 n,
  )
  append_basic-basic_object l Ty.uint16 (number n) h a = ground (
    arith,
    python.integer_int IntType.uint16 n (pos l),
    range_check-fits python.platform Width.uint16 n,
  )
  append_basic-basic_object l Ty.int32 (number n) h a = ground (
    arith,
    python.integer_int IntType.int32 n (pos l),
    range_check-fits python.platform Width.int32 n,
  )
  append_basic-basic_object l Ty.uint32 (number n) h a = ground (
    arith,
    python.integer_int IntType.uint32 n (pos l),
    range_check-fits python.platform Width.uint32 n,
  )
  append_basic-basic_object l Ty.int64 (number n) h a = ground (
    arith,
    python.integer_int IntType.int64 n (pos l),
    range_check-fits python.platform Width.int64 n,
  )
  append_basic-basic_object l Ty.uint64 (number n) h a = ground (
    arith,
    python.integer_int IntType.uint64 n (pos l),
    range_check-fits python.platform Width.uint64 n,
  )
  append_basic-basic_object l Ty.double (double x) h a =
      ground (arith, python.real_float FloatType.double x (pos l))
  append_basic-basic_object l Ty.string (text s) h a = ground arith
  append_basic-basic_object l Ty.object_path (text s) h a = ground arith
  append_basic-basic_object l Ty.signature (text s) h a = ground arith
  append_basic-basic_object l _ _ h a = absurd (cc h)
