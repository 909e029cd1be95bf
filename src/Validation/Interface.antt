-- ===== src/Validation/Interface.antt =====
-- `dbus_py_validate_interface_name` and `dbus_py_validate_member_name` of
-- _dbus_bindings/validation.c accept the names of the grammar.
use python_dbus.Prelude.{
  ℕ, Bool, true, false, not, ◌&&◌, [], ◌∷◌, ◌≡◌, ◌↔◌, refl, arith, ◌==◌, if◌then◌else◌, Bytes, all,
}
use python_dbus.Validation.Chars.{
  accepts, at_start, is_digit-digit, not_letter-letter, zero_refused, word_char-bus_char, round,
  continues, has_dot, passes_iff,
}
use python_dbus.Validation.Grammar.{digit, word_char, IsDotted, IsMemberName, IsInterfaceName}
use python_dbus.Validation.{
  valid, passes, interface_char, dotted_end, interface_loop, validate_interface_name, member_char,
  member_loop, validate_member_name,
}

interface_char-round : (last c : ℕ) → accepts (interface_char last c) ≡ round word_char false last c
unfolding interface_char word_char
interface_char-round last c = ground (arith, is_digit-digit c, not_letter-letter c)

interface_loop-continues :
    (dot : Bool) (last : ℕ) (s : Bytes)
    → (last == 0 && dot) ≡ false
    → passes (interface_loop dot last s)
      ≡ (continues word_char false (at_start last) s && has_dot word_char false dot s)
unfolding interface_loop passes dotted_end
interface_loop-continues dot last [] h = ground arith
interface_loop-continues dot last (c ∷ cs) h = ground (
  arith,
  interface_char-round last c,
  zero_refused c,
  word_char-bus_char c,
  interface_loop-continues (if c == b'.' then true else dot) c cs,
)

interface_loop_iff : (s : Bytes) → (interface_loop false 0 s ≡ valid) ↔ IsDotted word_char false s
interface_loop_iff s =
    ground (arith, interface_loop-continues false 0 s refl, passes_iff (interface_loop false 0 s))

-- `dbus_py_validate_interface_name` accepts exactly the names of at most 255 bytes that are two or
-- more words joined by dots, each of letters, digits and underscores and with no digit in front.
pub validate_interface_name_iff :
    (s : Bytes) → (validate_interface_name s ≡ valid) ↔ IsInterfaceName s
unfolding validate_interface_name
validate_interface_name_iff [] = ground arith
validate_interface_name_iff (c ∷ cs) = ground (arith, interface_loop_iff (c ∷ cs))

member_char_lem :
    (first : Bool) (c : ℕ) → accepts (member_char first c) ≡ (word_char c && not (first && digit c))
unfolding member_char word_char
member_char_lem first c = ground (arith, is_digit-digit c, not_letter-letter c)

member_loop_lem : (s : Bytes) → passes (member_loop false s) ≡ all word_char s
unfolding member_loop passes
member_loop_lem [] = refl
member_loop_lem (c ∷ cs) = ground (arith, member_char_lem false c, member_loop_lem cs)

-- `dbus_py_validate_member_name` accepts exactly the words of at most 255 letters, digits and
-- underscores with no digit in front.
pub validate_member_name_iff : (s : Bytes) → (validate_member_name s ≡ valid) ↔ IsMemberName s
unfolding validate_member_name member_loop passes
validate_member_name_iff [] = ground arith
validate_member_name_iff (c ∷ cs) =
    ground
      (arith, member_char_lem true c, member_loop_lem cs, passes_iff (member_loop true (c ∷ cs)))
