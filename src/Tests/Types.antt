-- ===== src/Tests/Types.antt =====
-- The constructors of the numeric types.
use python_dbus.Numbers.New.{new, new-fits}
use python_dbus.Numbers.Range.{int16}
use python_dbus.Numbers.{Platform, in_range, byte_new, byte_from, byte_of_bytes, long_base_new}
use python_dbus.Prelude.{◌-◌, ◌^◌, [], ◌∷◌, ◌≡◌, refl, arith, if◌then◌else◌}
use python_dbus.Python.Integer.{pos, negsuc}
use python_dbus.Python.Object
use python_dbus.Python.Object.{Object, int_object, bytes_object, bytes}
use python_dbus.Python.{overflow_error, ok, err}

-- A `long` of 64 bits.
abbrev pub wide : Platform
wide = record {
  long_max = 2 ^ 63 - 1;
  ulong_max = 2 ^ 64 - 1;
  long_wide = omega arith;
  ulong_wide = omega arith;
  as_long =
      λ n. if in_range (negsuc (2 ^ 63 - 1)) (pos (2 ^ 63 - 1)) n then ok n else err overflow_error;
  as_unsigned_long =
      λ n. if in_range (pos 0) (pos (2 ^ 64 - 1)) n then ok n else err overflow_error;
  as_long_long =
      λ n. if in_range (negsuc (2 ^ 63 - 1)) (pos (2 ^ 63 - 1)) n then ok n else err overflow_error;
  as_unsigned_long_long =
      λ n. if in_range (pos 0) (pos (2 ^ 64 - 1)) n then ok n else err overflow_error;
  as_long_lem = λ n. refl;
  as_unsigned_long_lem = λ n. refl;
  as_long_long_lem = λ n. refl;
  as_unsigned_long_long_lem = λ n. refl;
}

new-fits_example :
    new wide int16 (ok (negsuc 0x7fff)) (pos 2)
    ≡ ok (int_object Object.int16 (negsuc 0x7fff) (pos 2))
new-fits_example = new-fits wide int16 (negsuc 0x7fff) (pos 2)

abbrev one_byte : Object
one_byte = bytes_object bytes (b'x' ∷ []) (pos 0)

one_byte_new : byte_new wide one_byte (pos 1) ≡ ok (int_object Object.byte (pos (b'x')) (pos 1))
unfolding byte_new byte_from byte_of_bytes long_base_new
one_byte_new = refl
