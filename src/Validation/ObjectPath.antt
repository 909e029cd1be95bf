-- ===== src/Validation/ObjectPath.antt =====
-- `dbus_py_validate_object_path` of _dbus_bindings/validation.c accepts the paths of the grammar.
use python_dbus.Prelude.{
  ℕ, true, not, ◌&&◌, [], ◌∷◌, ◌≡◌, ◌↔◌, arith, ◌==◌, if◌then◌else◌, Bytes, all, words,
}
use python_dbus.Validation.Chars.{accepts, is_digit-digit, not_letter-letter, passes_iff}
use python_dbus.Validation.Grammar.{word_char, is_word, IsObjectPath}
use python_dbus.Validation.{
  valid, passes, path_char, path_loop, object_path_from, validate_object_path,
}

path_char_lem :
    (last c : ℕ)
    → accepts (path_char last c) ≡ (if c == b'/' then not (last == b'/') else word_char c)
unfolding path_char word_char
path_char_lem last c = ground (arith, is_digit-digit c, not_letter-letter c)

path_loop_lem :
    (last : ℕ) (s : Bytes)
    → passes (path_loop last s) ≡ (
        (if last == b'/'
          then is_word word_char true (words b'/' s).0
          else all word_char (words b'/' s).0)
        && all (is_word word_char true) (words b'/' s).1)
unfolding path_loop passes
path_loop_lem last [] = ground arith
path_loop_lem last (c ∷ cs) = ground (arith, path_char_lem last c, path_loop_lem c cs)

object_path_from_lem : (s : Bytes) → (object_path_from s ≡ valid) ↔ IsObjectPath (b'/' ∷ s)
unfolding object_path_from
object_path_from_lem [] = ground arith
object_path_from_lem (c ∷ cs) =
    ground (arith, path_loop_lem b'/' (c ∷ cs), passes_iff (path_loop b'/' (c ∷ cs)))

-- `dbus_py_validate_object_path` accepts exactly `/` and the paths of words of letters, digits and
-- underscores that each follow a slash.
pub validate_object_path_iff : (s : Bytes) → (validate_object_path s ≡ valid) ↔ IsObjectPath s
unfolding validate_object_path
validate_object_path_iff [] = ground arith
validate_object_path_iff (c ∷ rest) = ground (arith, object_path_from_lem rest)
