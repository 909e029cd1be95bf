-- ===== src/Numbers/Range.antt =====
-- Each range check of _dbus_bindings/int.c passes exactly the integers of its D-Bus type.
use python_dbus.Numbers.{
  Platform, in_range, int16_range_check, uint16_range_check, int32_range_check, uint32_range_check,
  int64_range_check, uint64_range_check,
}
use python_dbus.Prelude.{◌-◌, ◌^◌, Bool, ◌≡◌, arith, if◌then◌else◌}
use python_dbus.Python.Integer.{ℤ, pos, negsuc}
use python_dbus.Python.{overflow_error, Result, ok, err}

-- The D-Bus integer types behind the range checks.
pub data Width : Type 0 where
  int16 uint16 int32 uint32 int64 uint64 : Width

abbrev pub lowest : Width → ℤ
lowest int16 = negsuc (2 ^ 15 - 1)
lowest int32 = negsuc (2 ^ 31 - 1)
lowest int64 = negsuc (2 ^ 63 - 1)
lowest _ = pos 0

abbrev pub highest : Width → ℤ
highest int16 = pos (2 ^ 15 - 1)
highest uint16 = pos (2 ^ 16 - 1)
highest int32 = pos (2 ^ 31 - 1)
highest uint32 = pos (2 ^ 32 - 1)
highest int64 = pos (2 ^ 63 - 1)
highest uint64 = pos (2 ^ 64 - 1)

abbrev pub fits : Width → ℤ → Bool
fits w n = in_range (lowest w) (highest w) n

abbrev pub range_check : Platform → Width → Result ℤ → Result ℤ
range_check p int16 = int16_range_check p
range_check p uint16 = uint16_range_check p
range_check p int32 = int32_range_check p
range_check p uint32 = uint32_range_check p
range_check p int64 = int64_range_check p
range_check p uint64 = uint64_range_check p

-- On every platform, a range check returns the integer itself exactly when it lies in the range of
-- the D-Bus type, and raises OverflowError for any other integer.
pub range_check-fits :
    (p : Platform) (w : Width) (n : ℤ)
    → range_check p w (ok n) ≡ (if fits w n then ok n else err overflow_error)
unfolding int16_range_check uint16_range_check int32_range_check uint32_range_check
    int64_range_check uint64_range_check
range_check-fits p int16 n = ground (arith, p.as_long_lem n, p.long_wide)
range_check-fits p uint16 n = ground (arith, p.as_long_lem n, p.long_wide)
range_check-fits p int32 n = ground (arith, p.as_long_lem n, p.long_wide)
range_check-fits p uint32 n = ground (arith, p.as_unsigned_long_lem n, p.ulong_wide)
range_check-fits p int64 n = ground (arith, p.as_long_long_lem n)
range_check-fits p uint64 n = ground (arith, p.as_unsigned_long_long_lem n)
