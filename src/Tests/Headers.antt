-- ===== src/Tests/Headers.antt =====
-- Messages that are made and changed.
use python_dbus.Message.Headers.Checked.{Allowed, set_header_lem}
use python_dbus.Message.Headers.{
  member_field, Library, returned, set_header, Heap, optional, require, check_method_call,
  method_call_init, adopt,
}
use python_dbus.Prelude.{
  true, false, Option, none, some, [], ◌∷◌, ◌≡◌, ◌⊎◌, refl, arith, Bytes, same, same_iff,
  if◌then◌else◌, ◌==◌,
}
use python_dbus.Python.{value_error, memory_error, ok, err}
use python_dbus.Validation.{
  passes, validate_object_path, object_path_from, validate_member_name, member_loop, member_char,
  is_digit, not_letter,
}

-- A message that has one header and a path.
abbrev small : Library
small = record {
  Msg = Option Bytes × Bytes;
  get = λ h m. m.0;
  get_path = λ m. some m.1;
  set = λ h m n. ((some n, m.1), true);
  has_path = λ m p. elim p [ none ↦ false | some q ↦ same m.1 q ];
  has_path_lem = λ m p. ground (arith, same_iff m.1 p);
  set_own = λ h m n e. refl;
  set_failed = λ h m n e. cc;
}

abbrev root : Bytes
root = b'/' ∷ []

abbrev method : Bytes
method = b'M' ∷ []

abbrev message : Option Bytes × Bytes
message = (none, root)

set_header_example :
    ((((set_header small member_field (some message) (some method)).1 ≡ returned (ok tt))
        × Allowed member_field method
        × ((m : small.Msg) × ((set_header small member_field (some message) (some method)).0
              ≡ some m)
            × (m.0 ≡ some method)))
      ⊎ ((((set_header small member_field (some message) (some method)).1
              ≡ returned (err value_error))
            ⊎ ((set_header small member_field (some message) (some method)).1
                ≡ returned (err memory_error)))
          × ((set_header small member_field (some message) (some method)).0 ≡ some message)))
set_header_example = set_header_lem small member_field message method

-- Object 1 has message 4.
abbrev one_message : Heap
one_message = record {
  msg = λ i. if i == 1 then some 4 else none;
  refs = λ i. if i == 4 then 1 else 0;
}

call_accepted : (method_call_init one_message 1 none root none method (some 5)).1 ≡ ok tt
unfolding method_call_init check_method_call adopt optional require validate_object_path
    object_path_from passes validate_member_name member_loop member_char is_digit not_letter
call_accepted = refl
