-- ===== src/Tests/Methods.antt =====
-- Methods of messages at a concrete libdbus.
use python_dbus.Message.Accessors
use python_dbus.Message.Accessors.Decomposed.{joined, get_path_decomposed-get_path}
use python_dbus.Message.Accessors.Guarded.{Method, answered, crashed, invoke, invoke_ends, get-set}
use python_dbus.Message.Accessors.{Queries, components, truth, reply_serial_argument}
use python_dbus.Message.Copies.{class_of, message_copy, message_copy-owns}
use python_dbus.Message.Headers.{Library, Heap, message_dealloc}
use python_dbus.Prelude.{
  ℕ, ◌+◌, ◌<◌, ◌%◌, ◌^◌, Bool, true, false, Option, none, some, List, [], ◌∷◌, ◌≡◌, ◌≢◌, ◌↔◌, ◌⊎◌,
  inr, refl, arith, Bytes, same, same_iff, if◌then◌else◌, ◌==◌,
}
use python_dbus.Python.Integer.{pos, negsuc, pos_part, neg_part}
use python_dbus.Python.Object.{str_object, object_path}
use python_dbus.Python.{dbus_exception, memory_error, ok, err}
use python_dbus.Validation.{
  passes, validate_object_path, object_path_from, path_loop, path_char, not_letter, is_digit,
}

-- A message with one header, two flags and a serial number.
record Stored : Type 0 where
  header : Option Bytes
  auto : Bool
  quiet : Bool
  replies_to : ℕ

abbrev here : Bytes
here = b'/' ∷ b'a' ∷ []

abbrev boxes : Library
boxes = record {
  Msg = Stored;
  get = λ h m. m.header;
  get_path = λ m. some here;
  set = λ h m n. (record m { header = some n }, true);
  has_path = λ m p. elim p [ none ↦ false | some q ↦ same here q ];
  has_path_lem = λ m p. ground (arith, same_iff here p);
  set_own = λ h m n e. refl;
  set_failed = λ h m n e. cc;
}

here_valid : passes (validate_object_path here) ≡ true
unfolding passes validate_object_path object_path_from path_loop path_char not_letter is_digit
here_valid = refl

abbrev queries : Queries boxes
queries = record {
  type_of = λ m. 1;
  serial = λ m. 0;
  auto_start = λ m. m.auto;
  set_auto_start = λ m b. record m { auto = b };
  auto_start-set = λ m b. refl;
  no_reply = λ m. m.quiet;
  set_no_reply = λ m b. record m { quiet = b };
  no_reply-set = λ m b. refl;
  reply_serial = λ m. m.replies_to;
  set_reply_serial = λ m n. (record m { replies_to = n }, true);
  reply_serial-set = λ m n e. refl;
  set_reply_serial_failed = λ m n e. cc;
  has = λ h m n. false;
  is_method_call = λ m i n. true;
  is_signal = λ m i n. false;
  is_error = λ m n. false;
  signature = λ m. none;
  has_signature = λ m s. false;
  valid_signature = λ s. true;
  path_decomposed = λ m. some (some ((b'a' ∷ []) ∷ []));
  path_decomposed_lem = λ m p e. inr cc;
  path_valid = λ m p e. ground (arith, here_valid);
}

abbrev blank : Stored
blank = record { header = none; auto = true; quiet = false; replies_to = 0 }

invoke_ends_example :
    (((invoke boxes queries (Method.set_member none) (some blank)).1
        ≡ answered (err dbus_exception))
      ↔ (◌≡◌ {A = Option Stored} (some blank) none))
    × (((invoke boxes queries (Method.set_member none) (some blank)).1 ≡ crashed)
        ↔ ((◌≢◌ {A = Option Stored} (some blank) none) × (◌≡◌ {A = Bool} true true)))
invoke_ends_example = invoke_ends boxes queries (Method.set_member none) (some blank) refl

-- -1 becomes 2 ^ 32 - 1.
minus_one_wraps : reply_serial_argument (negsuc 0) ≡ 4294967295
unfolding reply_serial_argument
minus_one_wraps = refl

get-set_example :
    ((b : Bool) × (Accessors.get_auto_start boxes queries
          (Accessors.set_auto_start boxes queries (some blank) (ok (negsuc 0))).0
        ≡ ok b)
      × (Accessors.get_no_reply boxes queries
            (Accessors.set_no_reply boxes queries (some blank) (ok (negsuc 0))).0
          ≡ ok b)
      × ((b ≡ false) ↔ (negsuc 0 ≡ pos 0)))
    × (((n : ℕ) × ((Accessors.set_reply_serial boxes queries (some blank) (ok (negsuc 0))).1
            ≡ ok tt)
          × (Accessors.get_reply_serial boxes queries
                (Accessors.set_reply_serial boxes queries (some blank) (ok (negsuc 0))).0
              ≡ ok n)
          × (n < 2 ^ 32)
          × ((n + neg_part (negsuc 0)) % 2 ^ 32 ≡ pos_part (negsuc 0) % 2 ^ 32))
        ⊎ (((Accessors.set_reply_serial boxes queries (some blank) (ok (negsuc 0))).1
              ≡ err memory_error)
            × ((Accessors.set_reply_serial boxes queries (some blank) (ok (negsuc 0))).0
                ≡ some blank)))
get-set_example = get-set boxes queries blank (negsuc 0)

get_path_decomposed-get_path_example :
    (Accessors.get_path boxes queries (some blank)
      ≡ ok (some (str_object object_path here (pos 0))))
    × ((parts : List Bytes) × (Accessors.get_path_decomposed boxes queries
            (λ s. true)
            (λ s. true)
            true
            (some blank)
          ≡ (ok (some parts), 0))
        × (joined parts ≡ here))
get_path_decomposed-get_path_example =
    get_path_decomposed-get_path boxes queries (λ s. true) (λ s. true) blank here refl (λ e. cc)
      (λ s. refl) (λ s. refl)

-- Object 0 holds message 7.
abbrev one_message : Heap
one_message = record {
  msg = λ i. if i == 0 then some 7 else none;
  refs = λ i. if i == 7 then 1 else 0;
}

message_copy-owns_example :
    let r = message_copy one_message 0 1 (some 8) (some 1) in
    (r.0.msg 0 ≡ some 7)
    × (r.0.refs 7 ≡ one_message.refs 7)
    × (((new : ℕ) × (r.1 ≡ ok (class_of 1, new))
          × (r.0.msg new ≡ some 8)
          × (r.0.refs 8 ≡ 1)
          × ((message_dealloc r.0 new).refs 8 ≡ 0)
          × ((message_dealloc r.0 new).refs 7 ≡ one_message.refs 7))
        ⊎ ((r.1 ≡ err memory_error) × (r.0.refs 8 ≡ 0)))
message_copy-owns_example =
    message_copy-owns one_message 0 1 7 8 (some 1) refl (omega arith) (λ e. cc)
