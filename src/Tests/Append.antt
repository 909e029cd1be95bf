-- ===== src/Tests/Append.antt =====
-- Values that are appended to a message.
use python_dbus.Message.Append.Sendable.{sendable}
use python_dbus.Message.Append.{Interpreter}
use python_dbus.Message.Guess.Lookup.{raised, get_object_path}
use python_dbus.Message.Guess.{
  signature_string, describe, get_variant_level, is_bool, typed_signature, int_signature,
}
use python_dbus.Prelude.{ℕ, true, some, [], ◌∷◌, ◌≡◌, refl}
use python_dbus.Python.Integer.{ℤ, pos, negsuc}
use python_dbus.Python.Object.{Object, int_object, int16, float_object}
use python_dbus.Python.{Result, ok, err, other_exception, type_error}
use python_dbus.Tests.Types.{wide}

abbrev pub integer_of : Object → Result ℤ
integer_of (int_object type v level) = ok v
integer_of _ = err type_error

abbrev pub real_of : Object → Result ℕ
real_of (float_object type x level) = ok x
real_of _ = err type_error

-- An interpreter in which no object has the attribute, and every text is valid UTF-8.
abbrev simple : Interpreter
simple = record {
  platform = wide;
  attribute = λ obj. raised other_exception;
  truth = λ obj. ok true;
  integer = integer_of;
  real = real_of;
  validate_utf8 = λ s. true;
  integer_int = λ type v level. refl;
  real_float = λ type x level. refl;
}

abbrev smallest : Object
smallest = int_object int16 (negsuc 0x7fff) (pos 1)

smallest_signature : signature_string simple.attribute true smallest ≡ ok (b'n' ∷ [])
unfolding signature_string describe get_variant_level is_bool typed_signature int_signature
    get_object_path
smallest_signature = refl

no_path :
    (p : Object)
    → get_object_path (simple.attribute smallest) ≡ ok (some p)
    → sendable simple.validate_utf8 p ≡ true
unfolding get_object_path
no_path p h = cc
