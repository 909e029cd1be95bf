-- ===== src/Validation/BusName.antt =====
-- `dbus_py_validate_bus_name` of _dbus_bindings/validation.c accepts the bus names of the grammar.
use python_dbus.Prelude.{
  ℕ, Bool, true, false, ◌&&◌, [], ◌∷◌, ◌≡◌, ◌↔◌, refl, arith, ◌==◌, if◌then◌else◌, Bytes,
}
use python_dbus.Validation.Chars.{
  accepts, at_start, is_digit-digit, not_letter-letter, zero_refused, round, continues, has_dot,
  passes_iff,
}
use python_dbus.Validation.Grammar.{bus_char, word_char, IsDotted, IsBusName}
use python_dbus.Validation.{
  valid, passes, bus_name_char, dotted_end, bus_name_loop, bus_name_from, validate_bus_name,
}

bus_name_char-round :
    (u : Bool) (last c : ℕ) → accepts (bus_name_char u last c) ≡ round bus_char u last c
unfolding bus_name_char bus_char word_char
bus_name_char-round u last c = ground (arith, is_digit-digit c, not_letter-letter c)

bus_name_loop-continues :
    (u dot : Bool) (last : ℕ) (s : Bytes)
    → (last == 0 && dot) ≡ false
    → passes (bus_name_loop u dot last s)
      ≡ (continues bus_char u (at_start last) s && has_dot bus_char u dot s)
unfolding bus_name_loop passes dotted_end
bus_name_loop-continues u dot last [] h = ground arith
bus_name_loop-continues u dot last (c ∷ cs) h = ground (
  arith,
  bus_name_char-round u last c,
  zero_refused c,
  bus_name_loop-continues u (if c == b'.' then true else dot) c cs,
)

bus_name_loop_iff :
    (u : Bool) (s : Bytes) → (bus_name_loop u false 0 s ≡ valid) ↔ IsDotted bus_char u s
bus_name_loop_iff u s =
    ground (arith, bus_name_loop-continues u false 0 s refl, passes_iff (bus_name_loop u false 0 s))

bus_name_from_lem :
    (a b : Bool) (c : ℕ) (rest : Bytes)
    → (bus_name_from a b c rest ≡ valid) ↔ IsBusName a b (c ∷ rest)
unfolding bus_name_from
bus_name_from_lem a b c rest =
    ground (arith, bus_name_loop_iff (c == b':') (if c == b':' then rest else c ∷ rest))

-- `dbus_py_validate_bus_name` accepts exactly the bus names of the grammar of a kind that the two
-- flags allow.
pub validate_bus_name_iff :
    (s : Bytes) (a b : Bool) → (validate_bus_name s a b ≡ valid) ↔ IsBusName a b s
unfolding validate_bus_name
validate_bus_name_iff [] a b = ground arith
validate_bus_name_iff (c ∷ rest) a b = bus_name_from_lem a b c rest
