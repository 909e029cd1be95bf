-- ===== src/Message/Accessors/Guarded.antt =====
-- The methods of a message as the table `Message_tp_methods` of _dbus_bindings/message.c lists them, but
-- for copy, append, get_args_list and guess_signature; and what all of them promise.
use python_dbus.Message.Accessors
use python_dbus.Message.Accessors.{Queries, truth, reply_serial_argument}
use python_dbus.Message.Headers
use python_dbus.Message.Headers.{
  Header, sender_field, destination_field, interface_field, error_name_field, member_field, Library,
  Outcome, check_header, returned, null_dereference,
}
use python_dbus.Message.Guess.{new_signature}
use python_dbus.Message.Read.{object_path_new, signature_new, str_base_new}
use python_dbus.Prelude.{
  ℕ, ◌+◌, ◌<◌, ◌%◌, ◌^◌, Bool, true, false, Option, none, some, List, [], ◌≡◌, ◌≢◌, ◌↔◌, ◌⊎◌, inl,
  inr, refl, arith, Bytes, Bool-cases, Option-cases,
}
use python_dbus.Python.Integer.{ℤ, pos, negsuc, pos_part, neg_part}
use python_dbus.Python.Object.{Object}
use python_dbus.Validation.{passes}
use python_dbus.Python.{memory_error, dbus_exception, Result, ok, err, ◌>>=◌}

-- A call of a method, with what its arguments are parsed to.
pub data Method : Type 0 where
  is_method_call is_signal : Bytes → Bytes → Method
  is_error : Bytes → Method
  get_auto_start get_no_reply get_reply_serial get_serial get_type : Method
  set_auto_start set_no_reply set_reply_serial : ℤ → Method
  get_destination get_error_name get_interface get_member get_sender : Method
  set_destination set_error_name set_interface set_member set_sender : Option Bytes → Method
  has_interface has_member has_path : Option Bytes → Method
  has_destination has_sender has_signature : Bytes → Method
  get_path get_signature : Method
  set_path : Option Bytes → Method
  -- With the allocations of its list and its strings.
  get_path_decomposed : Bool → (Bytes → Bool) → (List Bytes → Bool) → Method

-- What a method gives back.
pub data Answer : Type 0 where
  nothing : Answer
  yes_or_no : Bool → Answer
  number : ℕ → Answer
  text : Option Bytes → Answer
  object : Option Object → Answer
  texts : Option (List Bytes) → Answer

-- A call returns or raises, or follows a NULL.
pub data Ending : Type 0 where
  answered : Result Answer → Ending
  crashed : Ending

abbrev as_ending : Outcome → Ending
as_ending (returned r) = answered (r >>= λ _. ok nothing)
as_ending null_dereference = crashed

-- Whether the list that `get_path_decomposed` makes before anything else can be made.
abbrev pub list_made : Method → Bool
list_made (Method.get_path_decomposed has_list makes grows) = has_list
list_made _ = true

-- The setters that pass their argument to a validator, given None.
abbrev pub sets_none : Method → Bool
sets_none (Method.set_destination none) = true
sets_none (Method.set_error_name none) = true
sets_none (Method.set_interface none) = true
sets_none (Method.set_member none) = true
sets_none (Method.set_sender none) = true
sets_none _ = false

truth_iff : (value : ℤ) → (truth value ≡ false) ↔ (value ≡ pos 0)
unfolding truth
truth_iff (pos n) = ground arith
truth_iff (negsuc n) = ground arith

reply_serial_argument_lem :
    (value : ℤ)
    → (reply_serial_argument value < 2 ^ 32)
      × ((reply_serial_argument value + neg_part value) % 2 ^ 32 ≡ pos_part value % 2 ^ 32)
unfolding reply_serial_argument
reply_serial_argument_lem (pos n) = omega arith
reply_serial_argument_lem (negsuc n) = omega arith

module _ (l : Library) (a : Queries l) where
  -- A method that does not change the message.
  abbrev reads : {T : Type 0} → Option l.Msg → (T → Answer) → Result T → Option l.Msg × Ending
  reads self f r = (self, answered (r >>= λ x. ok (f x)))

  abbrev writes : Option l.Msg × Result (Unit {0}) → Option l.Msg × Ending
  writes r = (r.0, answered (r.1 >>= λ _. ok nothing))

  abbrev checks : Option l.Msg × Outcome → Option l.Msg × Ending
  checks r = (r.0, as_ending r.1)

  -- A method of the table: the message afterwards, and how the call ends.
  unfoldable pub invoke : Method → Option l.Msg → Option l.Msg × Ending
  unfolding Accessors.usable Accessors.is_method_call Accessors.is_signal Accessors.is_error
      Accessors.get_auto_start Accessors.get_no_reply Accessors.get_reply_serial
      Accessors.get_serial Accessors.get_type Accessors.set_auto_start Accessors.set_no_reply
      Accessors.set_reply_serial Accessors.get_destination Accessors.get_error_name
      Accessors.get_interface Accessors.get_member Accessors.get_sender Accessors.set_destination
      Accessors.set_error_name Accessors.set_interface Accessors.set_member Accessors.set_sender
      Accessors.has_interface Accessors.has_member Accessors.has_path Accessors.has_destination
      Accessors.has_sender Accessors.has_signature Accessors.get_path Accessors.get_signature
      Accessors.get_path_decomposed Headers.set_header Headers.set_path
  invoke (Method.is_method_call i n) self =
      reads self yes_or_no (Accessors.is_method_call l a self (ok (i, n)))
  invoke (Method.is_signal i n) self =
      reads self yes_or_no (Accessors.is_signal l a self (ok (i, n)))
  invoke (Method.is_error n) self = reads self yes_or_no (Accessors.is_error l a self (ok n))
  invoke Method.get_auto_start self = reads self yes_or_no (Accessors.get_auto_start l a self)
  invoke Method.get_no_reply self = reads self yes_or_no (Accessors.get_no_reply l a self)
  invoke Method.get_reply_serial self = reads self number (Accessors.get_reply_serial l a self)
  invoke Method.get_serial self = reads self number (Accessors.get_serial l a self)
  invoke Method.get_type self = reads self number (Accessors.get_type l a self)
  invoke (Method.set_auto_start v) self = writes (Accessors.set_auto_start l a self (ok v))
  invoke (Method.set_no_reply v) self = writes (Accessors.set_no_reply l a self (ok v))
  invoke (Method.set_reply_serial v) self = writes (Accessors.set_reply_serial l a self (ok v))
  invoke Method.get_destination self = reads self text (Accessors.get_destination l a self)
  invoke Method.get_error_name self = reads self text (Accessors.get_error_name l a self)
  invoke Method.get_interface self = reads self text (Accessors.get_interface l a self)
  invoke Method.get_member self = reads self text (Accessors.get_member l a self)
  invoke Method.get_sender self = reads self text (Accessors.get_sender l a self)
  invoke (Method.set_destination n) self = checks (Accessors.set_destination l a self n)
  invoke (Method.set_error_name n) self = checks (Accessors.set_error_name l a self n)
  invoke (Method.set_interface n) self = checks (Accessors.set_interface l a self n)
  invoke (Method.set_member n) self = checks (Accessors.set_member l a self n)
  invoke (Method.set_sender n) self = checks (Accessors.set_sender l a self n)
  invoke (Method.has_interface n) self =
      reads self yes_or_no (Accessors.has_interface l a self (ok n))
  invoke (Method.has_member n) self = reads self yes_or_no (Accessors.has_member l a self (ok n))
  invoke (Method.has_path n) self = reads self yes_or_no (Accessors.has_path l a self (ok n))
  invoke (Method.has_destination n) self =
      reads self yes_or_no (Accessors.has_destination l a self (ok n))
  invoke (Method.has_sender n) self = reads self yes_or_no (Accessors.has_sender l a self (ok n))
  invoke (Method.has_signature n) self =
      reads self yes_or_no (Accessors.has_signature l a self (ok n))
  invoke Method.get_path self = reads self object (Accessors.get_path l a self)
  invoke Method.get_signature self =
      reads self (λ o. object (some o)) (Accessors.get_signature l a self)
  invoke (Method.set_path n) self = checks (Headers.set_path l self n)
  invoke (Method.get_path_decomposed has_list makes grows) self =
      reads self texts (Accessors.get_path_decomposed l a makes grows has_list self).0

  unusable_raises :
      (k : Method) → list_made k ≡ true → invoke k none ≡ (none, answered (err dbus_exception))
  unfolding invoke
  unusable_raises (Method.get_path_decomposed has_list makes grows) h = rw h refl
  unusable_raises (Method.is_error n) h = refl
  unusable_raises k h = refl

  get_path_usable : (m : l.Msg) → Accessors.get_path l a (some m) ≢ err dbus_exception
  unfolding Accessors.get_path Accessors.usable object_path_new str_base_new
  get_path_usable m e = elim (Option-cases (l.get_path m)) [
    | inl none_left ↦ ground arith
    | inr (p, found) ↦ ground arith
  ]

  get_signature_usable : (m : l.Msg) → Accessors.get_signature l a (some m) ≢ err dbus_exception
  unfolding Accessors.get_signature Accessors.usable signature_new str_base_new new_signature
  get_signature_usable m e =
      elim (Bool-cases (a.valid_signature (Accessors.text_or [] (a.signature m)))) [
        | inl good ↦ ground arith
        | inr bad ↦ ground arith
      ]

  decomposed_usable :
      (makes : Bytes → Bool) (grows : List Bytes → Bool) (has_list : Bool) (m : l.Msg)
      → (Accessors.get_path_decomposed l a makes grows has_list (some m)).0 ≢ err dbus_exception
  unfolding Accessors.get_path_decomposed
  decomposed_usable makes grows false m = ground arith
  decomposed_usable makes grows true m = ground arith

  -- How a call on a message that can be used ends.
  abbrev Ends : Method → l.Msg → Type 0
  Ends k m =
      ((invoke k (some m)).1 ≢ answered (err dbus_exception))
      × (((invoke k (some m)).1 ≡ crashed) ↔ (sets_none k ≡ true))

  reads_ends :
      {T : Type 0} (m : l.Msg) (f : T → Answer) (r : Result T)
      → r ≢ err dbus_exception
      → ((reads (some m) f r).1 ≢ answered (err dbus_exception))
        × ((reads (some m) f r).1 ≢ crashed)
  reads_ends m f (ok x) h = ground arith
  reads_ends m f (err e) h = ground arith

  checks_ends :
      (h : Header) (m : l.Msg) (n : Option Bytes)
      → ((checks (Headers.set_header l h (some m) n)).1 ≢ answered (err dbus_exception))
        × (((checks (Headers.set_header l h (some m) n)).1 ≡ crashed) ↔ (n ≡ none))
  unfolding Headers.set_header
  checks_ends h m none = ground arith
  checks_ends h m (some n) =
      ground (arith, Bool-cases (passes (check_header h n)), Bool-cases (l.set h m n).1)

  usable-Ends : (k : Method) (m : l.Msg) → Ends k m
  unfolding invoke
  usable-Ends Method.get_path m =
      ground (arith, reads_ends m object (Accessors.get_path l a (some m)) (get_path_usable m))
  usable-Ends Method.get_signature m =
      let r = Accessors.get_signature l a (some m) in
      ground (arith, reads_ends m (λ o. object (some o)) r (get_signature_usable m))
  usable-Ends (Method.get_path_decomposed has_list makes grows) m =
      let r = (Accessors.get_path_decomposed l a makes grows has_list (some m)).0 in
      ground (arith, reads_ends m texts r (decomposed_usable makes grows has_list m))
  usable-Ends (Method.set_sender none) m = ground arith
  usable-Ends (Method.set_sender (some n)) m = ground (arith, checks_ends sender_field m (some n))
  usable-Ends (Method.set_destination none) m = ground arith
  usable-Ends (Method.set_destination (some n)) m =
      ground (arith, checks_ends destination_field m (some n))
  usable-Ends (Method.set_interface none) m = ground arith
  usable-Ends (Method.set_interface (some n)) m =
      ground (arith, checks_ends interface_field m (some n))
  usable-Ends (Method.set_error_name none) m = ground arith
  usable-Ends (Method.set_error_name (some n)) m =
      ground (arith, checks_ends error_name_field m (some n))
  usable-Ends (Method.set_member none) m = ground arith
  usable-Ends (Method.set_member (some n)) m = ground (arith, checks_ends member_field m (some n))
  usable-Ends (Method.is_error n) m = ground arith
  usable-Ends k m = ground arith

  -- For every method of the table but copy and those that append and read arguments, with arguments that
  -- parse and a list for `get_path_decomposed`: it raises DBusException exactly where the object has no
  -- message, and follows a NULL exactly where there is a message and a setter that validates is given
  -- None.
  pub invoke_ends :
      (k : Method) (self : Option l.Msg)
      → list_made k ≡ true
      → (((invoke k self).1 ≡ answered (err dbus_exception)) ↔ (self ≡ none))
        × (((invoke k self).1 ≡ crashed) ↔ ((self ≢ none) × (sets_none k ≡ true)))
  invoke_ends k none h = ground (arith, unusable_raises k)
  invoke_ends k (some m) h = ground (arith, usable-Ends k m)

  -- The flags and the serial number that are set are those that are read afterwards: a flag is on unless
  -- it was set to 0; and whatever the number that the serial was set to, where libdbus has memory for it,
  -- the one that is read lies below 2 ^ 32 and differs from it by a multiple of that. Without memory
  -- MemoryError is raised, and the message is as it was.
  pub get-set :
      (m : l.Msg) (value : ℤ)
      → let auto =
          Accessors.get_auto_start l a (Accessors.set_auto_start l a (some m) (ok value)).0 in
        let quiet = Accessors.get_no_reply l a (Accessors.set_no_reply l a (some m) (ok value)).0 in
        let r = Accessors.set_reply_serial l a (some m) (ok value) in
        ((b : Bool) × (auto ≡ ok b) × (quiet ≡ ok b) × ((b ≡ false) ↔ (value ≡ pos 0)))
        × (((n : ℕ) × (r.1 ≡ ok tt)
              × (Accessors.get_reply_serial l a r.0 ≡ ok n)
              × (n < 2 ^ 32)
              × ((n + neg_part value) % 2 ^ 32 ≡ pos_part value % 2 ^ 32))
            ⊎ ((r.1 ≡ err memory_error) × (r.0 ≡ some m)))
  unfolding invoke
  get-set m value = (
    (
      truth value,
      rw (a.auto_start-set m (truth value)) refl,
      rw (a.no_reply-set m (truth value)) refl,
      truth_iff value,
    ),
    elim (Bool-cases (a.set_reply_serial m (reply_serial_argument value)).1) [
      | inl done ↦ inl (
        reply_serial_argument value,
        rw done refl,
        rw (a.reply_serial-set m (reply_serial_argument value) done) refl,
        (reply_serial_argument_lem value).0,
        (reply_serial_argument_lem value).1,
      )
      | inr full ↦
          inr
            (rw full refl, rw (a.set_reply_serial_failed m (reply_serial_argument value) full) refl)
    ],
  )
