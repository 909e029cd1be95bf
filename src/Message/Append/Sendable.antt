-- ===== src/Message/Append/Sendable.antt =====
-- What message-append.c of _dbus_bindings appends for objects of each basic type by itself.
use python_dbus.Message.Append.{
  Interpreter, Basic, check_text, append_text, append_string, append_byte, append_byte_number,
  process_integer, append_basic,
}
use python_dbus.Message.Guess.Lookup.{Attribute, found, raised, get_object_path}
use python_dbus.Message.Guess.{
  int_signature, str_signature, bytes_signature, dict_signature, join_entry,
}
use python_dbus.Numbers.Range.{range_check-fits, Width, fits}
use python_dbus.Numbers.{in_range}
use python_dbus.Prelude.{
  ℕ, Bool, true, false, not, ◌&&◌, none, some, [], ◌∷◌, ◌++◌, ◌≡◌, ◌≢◌, subst, refl, arith, ◌==◌,
  Bytes, all,
}
use python_dbus.Python.Integer.{ℤ, pos}
use python_dbus.Python.Object.{
  IntType, int, byte, boolean, int16, uint16, int32, uint32, int64, uint64, BytesType, StrType,
  FloatType, Object, int_object, str_object, bytes_object, float_object, bytes, byte_array, str,
  string, object_path, signature,
}
use python_dbus.Python.{unset, system_exit, keyboard_interrupt, Result, ok, err, ◌>>=◌}

-- The value of an integer type is one of its D-Bus type.
abbrev pub fits_type : IntType → ℤ → Bool
fits_type int v = fits Width.int32 v
fits_type int32 v = fits Width.int32 v
fits_type uint32 v = fits Width.uint32 v
fits_type int16 v = fits Width.int16 v
fits_type uint16 v = fits Width.uint16 v
fits_type int64 v = fits Width.int64 v
fits_type uint64 v = fits Width.uint64 v
fits_type byte v = in_range (pos 0) (pos 255) v
fits_type boolean v = true

-- What an object needs to be sent by itself.
abbrev pub sendable : (Bytes → Bool) → Object → Bool
sendable utf8 (int_object type v level) = fits_type type v
sendable utf8 (str_object type s level) = all (λ c. not (c == 0)) s && utf8 s
sendable utf8 (bytes_object type s level) = all (λ c. not (c == 0)) s && utf8 s
sendable utf8 _ = true

abbrev pub succeeds : Result Basic → Bool
succeeds (ok b) = true
succeeds (err e) = false

pub append_text-sendable :
    (utf8 : Bytes → Bool) (type : StrType) (s : Bytes) (level : ℤ)
    → sendable utf8 (str_object type s level) ≡ true
    → succeeds (append_text utf8 (str_object type s level)) ≡ true
unfolding append_text check_text
append_text-sendable utf8 type s level h = ground arith

abbrev pub letter : IntType → ℕ
letter uint64 = b't'
letter int64 = b'x'
letter uint32 = b'u'
letter int32 = b'i'
letter uint16 = b'q'
letter int16 = b'n'
letter byte = b'y'
letter boolean = b'b'
letter int = b'i'

pub int_signature-letter : (type : IntType) → int_signature type ≡ letter type ∷ []
unfolding int_signature
int_signature-letter int = refl
int_signature-letter _ = refl

pub not_bracket :
    (m k : Result Bytes) (c : ℕ)
    → (m >>= λ a. k >>= λ b. ok (b'(' ∷ (a ++ (b ++ (b')' ∷ []))))) ≡ ok (c ∷ [])
    → (c == b'(') ≢ false
not_bracket (ok a) (ok b) c h x = ground arith
not_bracket (ok a) (err e) c h x = cc
not_bracket (err e) k c h x = cc

pub not_array :
    (m : Result Bytes) (c : ℕ) → (m >>= λ a. ok (b'a' ∷ a)) ≡ ok (c ∷ []) → (c == b'a') ≢ false
not_array (ok a) c h x = ground arith
not_array (err e) c h x = cc

pub not_entry :
    (attribute : Object → Attribute) (v : Object) (k w : Result Bytes) (c : ℕ)
    → join_entry attribute v k w ≡ ok (c ∷ [])
    → (c == b'a') ≢ false
unfolding join_entry dict_signature
not_entry attribute v (ok a) (ok b) c h x = ground arith
not_entry attribute v (ok a) (err e) c h x = cc
not_entry attribute v (err d) (ok b) c h x = cc
not_entry attribute v (err d) (err unset) c h x = cc
not_entry attribute v (err d) (err e) c h x = ground arith

pub append_text_bytes :
    (utf8 : Bytes → Bool) (type : BytesType) (s : Bytes) (level : ℤ)
    → sendable utf8 (bytes_object type s level) ≡ true
    → succeeds (append_text utf8 (bytes_object type s level)) ≡ true
unfolding append_text check_text
append_text_bytes utf8 type s level h = ground arith

abbrev pub is_text : Object → Bool
is_text (str_object t s l) = true
is_text (bytes_object t s l) = true
is_text _ = false

pub get_object_path-is_text :
    (attribute : Attribute) (p : Object)
    → get_object_path attribute ≡ ok (some p)
    → is_text p ≡ true
unfolding get_object_path
get_object_path-is_text (found (str_object t s l)) p h =
    subst (λ q. is_text q ≡ true) {x = str_object t s l} {y = p} (cc) refl
get_object_path-is_text (found (bytes_object t s l)) p h =
    subst (λ q. is_text q ≡ true) {x = bytes_object t s l} {y = p} (cc) refl
get_object_path-is_text (raised system_exit) p h = cc
get_object_path-is_text (raised keyboard_interrupt) p h = cc
get_object_path-is_text (raised _) p h = cc
get_object_path-is_text _ p h = cc

pub append_text-is_text :
    (utf8 : Bytes → Bool) (p : Object)
    → is_text p ≡ true
    → sendable utf8 p ≡ true
    → succeeds (append_text utf8 p) ≡ true
append_text-is_text utf8 (str_object t s l) i h = append_text-sendable utf8 t s l h
append_text-is_text utf8 (bytes_object t s l) i h = append_text_bytes utf8 t s l h
append_text-is_text utf8 _ i h = cc

module _ (python : Interpreter) where
  -- An integer of a dbus type goes through the range check of its own signature.
  pub append_int :
      (type : IntType) (v level : ℤ)
      → fits_type type v ≡ true
      → succeeds (append_basic python (letter type) (int_object type v level)) ≡ true
  unfolding append_basic process_integer append_byte append_byte_number
  append_int boolean v level f = refl
  append_int byte v level f = ground (
    arith,
    python.integer_int byte v level,
    python.platform.as_long_lem v,
    python.platform.long_wide,
  )
  append_int int v level f =
      ground (arith, python.integer_int int v level, range_check-fits python.platform Width.int32 v)
  append_int int32 v level f =
      ground
        (arith, python.integer_int int32 v level, range_check-fits python.platform Width.int32 v)
  append_int uint32 v level f =
      ground
        (arith, python.integer_int uint32 v level, range_check-fits python.platform Width.uint32 v)
  append_int int16 v level f =
      ground
        (arith, python.integer_int int16 v level, range_check-fits python.platform Width.int16 v)
  append_int uint16 v level f =
      ground
        (arith, python.integer_int uint16 v level, range_check-fits python.platform Width.uint16 v)
  append_int int64 v level f =
      ground
        (arith, python.integer_int int64 v level, range_check-fits python.platform Width.int64 v)
  append_int uint64 v level f =
      ground
        (arith, python.integer_int uint64 v level, range_check-fits python.platform Width.uint64 v)

  pub append_str :
      (type : StrType) (t : Bytes) (level : ℤ) (c : ℕ)
      → str_signature type ≡ c ∷ []
      → get_object_path (python.attribute (str_object type t level)) ≡ ok none
      → sendable python.validate_utf8 (str_object type t level) ≡ true
      → succeeds (append_basic python c (str_object type t level)) ≡ true
  unfolding str_signature append_basic append_string
  append_str str t level c h a s =
      ground (arith, append_text-sendable python.validate_utf8 str t level s)
  append_str string t level c h a s =
      ground (arith, append_text-sendable python.validate_utf8 string t level s)
  append_str object_path t level c h a s =
      ground (arith, append_text-sendable python.validate_utf8 object_path t level s)
  append_str signature t level c h a s =
      ground (arith, append_text-sendable python.validate_utf8 signature t level s)

  pub append_bytes :
      (type : BytesType) (t : Bytes) (level : ℤ) (c : ℕ)
      → bytes_signature type ≡ c ∷ []
      → sendable python.validate_utf8 (bytes_object type t level) ≡ true
      → succeeds (append_basic python c (bytes_object type t level)) ≡ true
  unfolding bytes_signature append_basic append_string
  append_bytes bytes t level c h s =
      ground (arith, append_text_bytes python.validate_utf8 bytes t level s)
  append_bytes byte_array t level c h s = cc

  pub append_float :
      (type : FloatType) (r : ℕ) (level : ℤ)
      → succeeds (append_basic python (b'd') (float_object type r level)) ≡ true
  unfolding append_basic
  append_float type r level = ground (arith, python.real_float type r level)
