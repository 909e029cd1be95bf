-- ===== src/Containers/Faults.antt =====
-- The variant level that the constructors of dbus.Array and dbus.Dictionary let through.
use python_dbus.Containers.{
  absent, convert_signature, container_level, check_element, check_key_value, array_new, dict_new,
}
use python_dbus.Message.Guess.Lookup.{Attribute}
use python_dbus.Message.Guess.{get_variant_level, describe, signature_string}
use python_dbus.Prelude.{Bool, true, none, some, ◌≡◌, refl, arith, Bytes}
use python_dbus.Python.Integer.{ℤ, pos, ltb_ℤ}
use python_dbus.Python.Object.{Object, Objects, Entries, array, dictionary}
use python_dbus.Python.{ok, err, unset}

-- A negative variant level is accepted by the constructors of dbus.Array and of dbus.Dictionary, for
-- any items that can be read. Asked for the signature of what they return,
-- `_signature_string_from_pyobject` fails and sets no exception.
pub negative_level_accepted :
    (validate validate_single : Bytes → Bool) (xs : Objects) (es : Entries) (level : ℤ)
    (attribute : Object → Attribute) (wants_level : Bool)
    → ltb_ℤ level (pos 0) ≡ true
    → (array_new validate validate_single (ok xs) absent (some (ok level))
        ≡ ok (array xs none level))
      × (signature_string attribute wants_level (array xs none level) ≡ err unset)
      × (dict_new validate validate_single (ok es) absent (some (ok level))
          ≡ ok (dictionary es none level))
      × (signature_string attribute wants_level (dictionary es none level) ≡ err unset)
unfolding array_new dict_new signature_string describe get_variant_level container_level
    convert_signature check_element check_key_value
negative_level_accepted validate validate_single xs es level attribute w h =
    (refl, ground arith, refl, ground arith)
