-- ===== src/Numbers/New.antt =====
-- The constructors of _dbus_bindings/int.c and bytes.c make values of their D-Bus type.
use python_dbus.Numbers.Range.{
  Width, int16, uint16, int32, uint32, int64, uint64, fits, range_check-fits,
}
use python_dbus.Numbers.{
  Platform, in_range, long_base_new, number_of, int16_new, uint16_new, int32_new, uint32_new,
  int64_new, uint64_new, byte_of_bytes, is_byte_at, byte_of_int, byte_from, byte_new,
}
use python_dbus.Prelude.{
  ℕ, ◌≤◌, true, false, [], ◌∷◌, ◌≡◌, refl, arith, Bool-cases, inl, inr, if◌then◌else◌, Bytes, All,
}
use python_dbus.Python.Integer.{ℤ, pos, negsuc, ltb_ℤ}
use python_dbus.Python.Object
use python_dbus.Python.Object.{
  Object, IntType, byte, boolean, int_object, bytes_object, true_object, false_object,
}
use python_dbus.Python.{value_error, overflow_error, Result, ok, err}

abbrev pub new : Platform → Width → Result ℤ → ℤ → Result Object
new p int16 = int16_new p
new p uint16 = uint16_new p
new p int32 = int32_new p
new p uint32 = uint32_new p
new p int64 = int64_new p
new p uint64 = uint64_new p

abbrev pub type_of : Width → IntType
type_of int16 = Object.int16
type_of uint16 = Object.uint16
type_of int32 = Object.int32
type_of uint32 = Object.uint32
type_of int64 = Object.int64
type_of uint64 = Object.uint64

-- The constructor of an integer type refuses a negative variant level with ValueError and a number
-- outside the range with OverflowError, and otherwise makes the object with both.
pub new-fits :
    (p : Platform) (w : Width) (n level : ℤ)
    → new p w (ok n) level ≡ (
        if ltb_ℤ level (pos 0)
        then err value_error
        else if fits w n
        then ok (int_object (type_of w) n level)
        else err overflow_error)
unfolding int16_new uint16_new int32_new uint32_new int64_new uint64_new long_base_new number_of
new-fits p int16 n level = ground (arith, range_check-fits p int16 n)
new-fits p uint16 n level = ground (arith, range_check-fits p uint16 n)
new-fits p int32 n level = ground (arith, range_check-fits p int32 n)
new-fits p uint32 n level = ground (arith, range_check-fits p uint32 n)
new-fits p int64 n level = ground (arith, range_check-fits p int64 n)
new-fits p uint64 n level = ground (arith, range_check-fits p uint64 n)

-- The bytes of a `bytes` are below 256, and so is the value of a dbus.Byte.
abbrev pub IsByteSource : Object → Type 0
IsByteSource (bytes_object type s l) = All (λ c. c ≤ 255) s
IsByteSource (int_object byte v l) = in_range (pos 0) (pos 255) v ≡ true
IsByteSource _ = Unit

-- A dbus.Byte of this variant level.
abbrev pub IsByte : ℤ → Object → Type 0
IsByte level r = (b : ℕ) × (r ≡ int_object byte (pos b) level) × (b ≤ 255)

byte_of_bytes-IsByte :
    (s : Bytes) (level : ℤ) {r : Object}
    → All (λ c. c ≤ 255) s
    → byte_of_bytes s level ≡ ok r
    → IsByte level r
unfolding byte_of_bytes long_base_new
byte_of_bytes-IsByte [] level h e = cc
byte_of_bytes-IsByte (c ∷ []) level h e = (c, ground arith, h.0)
byte_of_bytes-IsByte (c ∷ d ∷ s) level h e = cc

level_eq : (a b : ℤ) → ltb_ℤ a b ≡ false → ltb_ℤ b a ≡ false → a ≡ b
level_eq (pos a) (pos b) h k = ground arith
level_eq (pos a) (negsuc b) h k = ground arith
level_eq (negsuc a) (pos b) h k = ground arith
level_eq (negsuc a) (negsuc b) h k = ground arith

byte_value :
    (v level : ℤ) → in_range (pos 0) (pos 255) v ≡ true → IsByte level (int_object byte v level)
byte_value (pos b) level h = (b, refl, ground arith)
byte_value (negsuc b) level h = absurd (ground arith)

-- A dbus.Byte that is returned as it is.
kept-IsByte :
    (obj : Object) (level : ℤ) → IsByteSource obj → is_byte_at obj level ≡ true → IsByte level obj
unfolding is_byte_at
kept-IsByte (int_object byte v l) level h e =
    rw (level_eq l level (ground arith) (ground arith)) (byte_value v level h)
kept-IsByte _ level h e = cc

-- A new dbus.Byte from an integer.
made_byte :
    (v level : ℤ) {r : Object}
    → in_range (pos 0) (pos 255) v ≡ true
    → long_base_new byte (ok v) level ≡ ok r
    → IsByte level r
unfolding long_base_new
made_byte (pos b) level h e = (b, ground arith, ground arith)
made_byte (negsuc b) level h e = absurd (ground arith)

byte_of_int-IsByte :
    (p : Platform) (obj : Object) (v level : ℤ) {r : Object}
    → IsByteSource obj
    → byte_of_int p obj v level ≡ ok r
    → IsByte level r
unfolding byte_of_int
byte_of_int-IsByte p obj v level {r} h e = elim (Bool-cases (is_byte_at obj level)) [
  | inl same ↦
      let kept : r ≡ obj = ground (arith, p.as_long_lem v) in rw kept (kept-IsByte obj level h same)
  | inr other ↦
      made_byte v level (ground (arith, p.as_long_lem v)) (ground (arith, p.as_long_lem v))
]

byte_from-IsByte :
    (p : Platform) (obj : Object) (level : ℤ) {r : Object}
    → IsByteSource obj
    → byte_from p obj level ≡ ok r
    → IsByte level r
unfolding byte_from number_of
byte_from-IsByte p (bytes_object type s l) level h e = byte_of_bytes-IsByte s level h e
byte_from-IsByte p (int_object type v l) level h e =
    byte_of_int-IsByte p (int_object type v l) v level h e
byte_from-IsByte p true_object level h e = byte_of_int-IsByte p true_object (pos 1) level h e
byte_from-IsByte p false_object level h e = byte_of_int-IsByte p false_object (pos 0) level h e
byte_from-IsByte p _ level h e = cc

-- Whatever the constructor of dbus.Byte returns is a dbus.Byte from 0 to 255, of the variant level
-- asked for, given that the bytes of a `bytes` and the value of a dbus.Byte are in that range.
pub byte_new-IsByte :
    (p : Platform) (obj : Object) (level : ℤ) {r : Object}
    → IsByteSource obj
    → byte_new p obj level ≡ ok r
    → IsByte level r
unfolding byte_new
byte_new-IsByte p obj level h e = byte_from-IsByte p obj level h (ground arith)
