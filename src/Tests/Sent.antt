-- ===== src/Tests/Sent.antt =====
-- Messages that are sent, with numbers of milliseconds for the floating-point numbers.
use python_dbus.Connection.Children.Paths.{child_path, list_exported_child_objects-joined}
use python_dbus.Connection.Children.{Room, freed, list_exported_child_objects}
use python_dbus.Connection.Bus.Released.{Ends, handed_over, new_for_bus-Ends}
use python_dbus.Connection.Bus.{BusOutcomes, bus_type, new_for_bus}
use python_dbus.Connection.Life.{Outcomes, opened}
use python_dbus.Connection.Sending.Outcomes.{
  timeout_ms_bounds, send_message_with_reply_outcomes, Refuses, Awaits, Timed, given_or_default,
}
use python_dbus.Connection.Sending.{
  int_max, Doubles, Sender, send_with_reply, pending, SendArguments, timeout_ms,
  send_message_with_reply,
}
use python_dbus.Message.Accessors.{message}
use python_dbus.PendingCall.{World, Answers}
use python_dbus.Prelude.{
  ℕ, ◌≤◌, Bool, true, false, not, ◌&&◌, Option, none, some, List, [], ◌∷◌, ◌≡◌, Bytes, all, ◌⊎◌,
  refl, arith, leb, if◌then◌else◌,
}
use python_dbus.Python.Integer.{ℤ, pos, negsuc, ltb_ℤ}
use python_dbus.Validation.{
  passes, validate_object_path, object_path_from, path_loop, path_char, is_digit, not_letter,
}
use python_dbus.Validation.Grammar.{word_char, letter, digit}
use python_dbus.Python.{Exception, value_error, ok, err}

-- A number of milliseconds, or a NaN.
abbrev Millis : Type 0
Millis = Option ℤ

abbrev below : Millis → Millis → Bool
below (some a) (some b) = ltb_ℤ a b
below _ _ = false

abbrev is_none : Millis → Bool
is_none none = true
is_none (some a) = false

abbrev as_int : Millis → Option ℤ
as_int none = none
as_int (some (pos n)) = if leb n int_max then some (pos n) else none
as_int (some (negsuc n)) = some (negsuc n)

nan_below : (x y : Millis) → is_none x ≡ true → below x y ≡ false
nan_below none y h = refl
nan_below (some a) y h = cc

below_nan : (x y : Millis) → is_none y ≡ true → below x y ≡ false
below_nan none none h = refl
below_nan (some a) none h = refl
below_nan none (some b) h = refl
below_nan (some a) (some b) h = cc

as_int-between :
    (x y z : Millis) (i k : ℕ)
    → is_none y ≡ false
    → below y x ≡ false
    → below z y ≡ false
    → as_int x ≡ some (pos i)
    → as_int z ≡ some (pos k)
    → (j : ℕ) × (as_int y ≡ some (pos j)) × (i ≤ j) × (j ≤ k)
as_int-between (some (pos x)) (some (pos y)) (some (pos z)) i k r p q e f =
    (y, ground arith, ground arith, ground arith)
as_int-between (some (pos x)) (some (negsuc y)) z i k r p q e f = absurd (ground arith)
as_int-between (some (negsuc x)) y z i k r p q e f = absurd (ground arith)
as_int-between none y z i k r p q e f = absurd (ground arith)
as_int-between x none z i k r p q e f = absurd (ground arith)
as_int-between x y none i k r p q e f = absurd (ground arith)
as_int-between x y (some (negsuc z)) i k r p q e f = absurd (ground arith)

abbrev millis : Doubles
millis = record {
  Double = Millis;
  is_nan = is_none;
  less = below;
  zero_s = some (pos 0);
  default = some (negsuc 999);
  limit = some (pos int_max);
  times_1000 = λ x. x;
  to_int = as_int;
  less_nan = nan_below;
  nan_less = below_nan;
  times_mono = λ x y r s h. h;
  times_nan = λ x. refl;
  zero_s_real = refl;
  limit_real = refl;
  to_int-zero = refl;
  to_int-limit = refl;
  to_int-nan = λ x h. ground arith;
  to_int-between = as_int-between;
}

timeout_ms_bounds_example :
    ((is_none (some (pos 5)) ≡ true) × (timeout_ms millis (some (pos 5)) ≡ ok none))
    ⊎ ((is_none (some (pos 5)) ≡ false)
        × (((below (some (pos 5)) (some (pos 0)) ≡ true)
              × (timeout_ms millis (some (pos 5)) ≡ ok (some (negsuc 0))))
            ⊎ ((below (some (pos 5)) (some (pos 0)) ≡ false)
                × (((below (some (pos int_max)) (some (pos 5)) ≡ true)
                      × (timeout_ms millis (some (pos 5)) ≡ err value_error))
                    ⊎ ((below (some (pos int_max)) (some (pos 5)) ≡ false)
                        × ((n : ℕ) × (as_int (some (pos 5)) ≡ some (pos n))
                            × (timeout_ms millis (some (pos 5)) ≡ ok (some (pos n)))
                            × (n ≤ int_max)))))))
timeout_ms_bounds_example = timeout_ms_bounds millis (some (pos 5))

-- A pending call as libdbus gives it, and an object with a message and a main loop.
abbrev queued : World
queued = record {
  call = record {
    slot = none;
    reply = none;
    calls = [];
    warnings = 0;
    handler_refs = 1;
    none_refs = 1;
  };
  pc_refs = 1;
  cancelled = false;
  list_refs = 0;
  wild_reads = 0;
}

abbrev sender : Sender
sender = record { has_conn = true; has_mainloop = true }

abbrev answers : Answers
answers = record {
  list_ok = true;
  self_ok = true;
  notify_ok = true;
  completed = false;
  consumed = true;
}

abbrev call_arguments : SendArguments Millis
call_arguments = record {
  msg = message (some 4);
  reply_handler = 9;
  timeout_s = some (some (pos 250));
  needs_main_loop = true;
}

send_message_with_reply_outcomes_example :
    let r = send_message_with_reply millis sender (ok call_arguments) (pending queued) answers in
    ((e : Exception) × (r.0 ≡ [])
      × (r.1 ≡ none)
      × (r.2 ≡ err e)
      × Refuses millis sender (ok call_arguments) e)
    ⊎ ((args : SendArguments Millis) × (m : ℕ) × (t : Option ℤ) × (ok call_arguments ≡ ok args)
        × (◌≡◌ {A = Bool} true true)
        × (args.msg ≡ message (some m))
        × Timed millis (given_or_default millis args.timeout_s) t
        × ((args.needs_main_loop && not true) ≡ false)
        × (r.0 ≡ send_with_reply m t ∷ [])
        × Awaits answers args.reply_handler (pending queued) (r.1, r.2))
send_message_with_reply_outcomes_example =
    send_message_with_reply_outcomes millis sender (ok call_arguments) (pending queued) answers refl

-- The bus with everything at hand, but for a set-up that raises.
abbrev all_there : BusOutcomes
all_there = record {
  registers = true;
  has_private = true;
  has_wrapper = true;
  has_arguments = true;
}

abbrev no_set_up : Outcomes
no_set_up = record {
  main_loop = ok true;
  has_object = true;
  has_members = true;
  has_slot = true;
  set_up = err value_error;
}

new_for_bus-Ends_example :
    Ends
      (handed_over all_there (bus_type (ok (pos 1))))
      3
      opened
      (new_for_bus all_there no_set_up 3 (bus_type (ok (pos 1))) opened)
new_for_bus-Ends_example = new_for_bus-Ends all_there no_set_up 3 (bus_type (ok (pos 1))) opened

abbrev plenty : Room
plenty = record { has_list = true; makes = λ s. true; grows = λ l. true }

abbrev child_names : List Bytes
child_names = (b'o' ∷ b'r' ∷ b'g' ∷ []) ∷ (b'x' ∷ b'1' ∷ []) ∷ []

list_exported_child_objects-joined_example :
    (list_exported_child_objects
        (record { has_conn = true; has_mainloop = false })
        (ok (b'/' ∷ b'a' ∷ []))
        (λ path. some child_names)
        plenty
      ≡ (ok child_names, freed))
    × (all (λ name. passes (validate_object_path (child_path (b'/' ∷ b'a' ∷ []) name))) child_names
        ≡ true)
unfolding passes validate_object_path object_path_from path_loop path_char is_digit not_letter
    word_char letter digit
list_exported_child_objects-joined_example =
    list_exported_child_objects-joined (record { has_conn = true; has_mainloop = false }) refl
      (b'/' ∷ b'a' ∷ []) refl (λ path. some child_names) child_names refl refl plenty
