-- ===== src/Message/Accessors.antt =====
-- The methods of a message that read it or set its flags, in _dbus_bindings/message.c, with
-- `DBusPyMessage_BorrowDBusMessage`. What `PyArg_ParseTuple` makes of the arguments comes first, as a
-- `Result`.
pub mod Decomposed
pub mod Guarded
use python_dbus.Message.Headers.{
  Header, sender_field, destination_field, interface_field, error_name_field, member_field, Library,
  Outcome, set_header,
}
use python_dbus.Message.Read.{object_path_new, signature_new}
use python_dbus.Python.Object.{Object}
use python_dbus.Prelude.{
  ℕ, ◌%◌, ◌*◌, ◌-◌, ◌^◌, Bool, true, false, not, Option, none, some, List, [], ◌∷◌, ◌++◌, ◌≡◌, ◌⊎◌,
  Bytes, if◌then◌else◌, ◌==◌, split,
}
use python_dbus.Python.Integer.{ℤ, pos, negsuc}
use python_dbus.Python.{
  Exception, type_error, value_error, memory_error, dbus_exception, Result, ok, err, ◌>>=◌,
}
use python_dbus.Validation.{passes, validate_object_path}

-- The components of a path, as libdbus gives them.
abbrev pub components : Bytes → List Bytes
components [] = []
components (c ∷ []) = []
components (c ∷ d ∷ rest) = split b'/' (d ∷ rest)

-- The functions of libdbus on a message that the methods call. A path is given in its components, and a
-- setter that fails for want of memory sets nothing.
pub record Queries (l : Library) : Type 0 where
  pub type_of : l.Msg → ℕ
  pub serial : l.Msg → ℕ
  pub auto_start : l.Msg → Bool
  pub set_auto_start : l.Msg → Bool → l.Msg
  pub auto_start-set : (m : l.Msg) (b : Bool) → auto_start (set_auto_start m b) ≡ b
  pub no_reply : l.Msg → Bool
  pub set_no_reply : l.Msg → Bool → l.Msg
  pub no_reply-set : (m : l.Msg) (b : Bool) → no_reply (set_no_reply m b) ≡ b
  pub reply_serial : l.Msg → ℕ
  pub set_reply_serial : l.Msg → ℕ → l.Msg × Bool
  pub reply_serial-set :
      (m : l.Msg) (n : ℕ)
      → (set_reply_serial m n).1 ≡ true
      → reply_serial (set_reply_serial m n).0 ≡ n
  pub set_reply_serial_failed :
      (m : l.Msg) (n : ℕ) → (set_reply_serial m n).1 ≡ false → (set_reply_serial m n).0 ≡ m
  pub has : Header → l.Msg → Option Bytes → Bool
  pub is_method_call : l.Msg → Bytes → Bytes → Bool
  pub is_signal : l.Msg → Bytes → Bytes → Bool
  pub is_error : l.Msg → Bytes → Bool
  pub signature : l.Msg → Option Bytes
  pub has_signature : l.Msg → Bytes → Bool
  -- What the constructor of `dbus.Signature` accepts.
  pub valid_signature : Bytes → Bool
  -- `dbus_message_get_path_decomposed`: nothing where there is no memory, and a NULL for no path.
  pub path_decomposed : l.Msg → Option (Option (List Bytes))
  pub path_decomposed_lem :
      (m : l.Msg) (p : Bytes)
      → l.get_path m ≡ some p
      → (path_decomposed m ≡ none) ⊎ (path_decomposed m ≡ some (some (components p)))
  pub path_valid :
      (m : l.Msg) (p : Bytes) → l.get_path m ≡ some p → passes (validate_object_path p) ≡ true

-- `if (!self->msg) return DBusPy_RaiseUnusableMessage();`
unfoldable pub usable : {M : Type 0} → Option M → Result M
usable none = err dbus_exception
usable (some m) = ok m

-- An object that is given where a message is wanted.
pub data Argument (M : Type 0) : Type 0 where
  message : Option M → Argument M
  not_message : Argument M

-- `DBusPyMessage_BorrowDBusMessage`
unfoldable pub borrow : {M : Type 0} → Argument M → Result M
borrow not_message = err type_error
borrow (message self) = usable self

-- `"n/a"`, and `"(broadcast)"`.
abbrev pub not_available : Bytes
not_available = b'n' ∷ b'/' ∷ b'a' ∷ []

abbrev pub broadcast : Bytes
broadcast = b'(' ∷ b'b' ∷ b'r' ∷ b'o' ∷ b'a' ∷ b'd' ∷ b'c' ∷ b'a' ∷ b's' ∷ b't' ∷ b')' ∷ []

unfoldable pub text_or : Bytes → Option Bytes → Bytes
text_or default none = default
text_or default (some s) = s

-- What `PyUnicode_FromFormat` is given by the two functions for repr(), besides the name of the type.
pub record Shown : Type 0 where
  pub path : Bytes
  pub iface : Bytes
  pub member : Bytes
  pub dest : Bytes

-- `value ? TRUE : FALSE`
unfoldable pub truth : ℤ → Bool
truth (pos n) = not (n == 0)
truth (negsuc n) = true

-- `PyArg_ParseTuple(args, "k", &value)` with its `value` of 32 bits: Python's "k" checks no range, and
-- the lower half of the unsigned long is what the variable holds on a little-endian machine. The bytes
-- that "k" writes behind the variable are left out.
unfoldable pub reply_serial_argument : ℤ → ℕ
reply_serial_argument (pos n) = n % 2 ^ 32
reply_serial_argument (negsuc n) = 2 ^ 32 - 1 - n % 2 ^ 32

module _ (l : Library) (a : Queries l) where
  -- `Message_get_auto_start`
  unfoldable pub get_auto_start : Option l.Msg → Result Bool
  get_auto_start self = do m ← usable self; ok (a.auto_start m)

  -- `Message_set_auto_start`
  unfoldable pub set_auto_start : Option l.Msg → Result ℤ → Option l.Msg × Result (Unit {0})
  set_auto_start self (err e) = (self, err e)
  set_auto_start none (ok value) = (none, err dbus_exception)
  set_auto_start (some m) (ok value) = (some (a.set_auto_start m (truth value)), ok tt)

  -- `Message_get_no_reply`
  unfoldable pub get_no_reply : Option l.Msg → Result Bool
  get_no_reply self = do m ← usable self; ok (a.no_reply m)

  -- `Message_set_no_reply`
  unfoldable pub set_no_reply : Option l.Msg → Result ℤ → Option l.Msg × Result (Unit {0})
  set_no_reply self (err e) = (self, err e)
  set_no_reply none (ok value) = (none, err dbus_exception)
  set_no_reply (some m) (ok value) = (some (a.set_no_reply m (truth value)), ok tt)

  -- `Message_get_reply_serial`
  unfoldable pub get_reply_serial : Option l.Msg → Result ℕ
  get_reply_serial self = do m ← usable self; ok (a.reply_serial m)

  -- `Message_set_reply_serial`
  unfoldable pub set_reply_serial : Option l.Msg → Result ℤ → Option l.Msg × Result (Unit {0})
  set_reply_serial self (err e) = (self, err e)
  set_reply_serial none (ok value) = (none, err dbus_exception)
  set_reply_serial (some m) (ok value) =
      let r = a.set_reply_serial m (reply_serial_argument value) in
      (some r.0, if r.1 then ok tt else err memory_error)

  -- `Message_get_type`
  unfoldable pub get_type : Option l.Msg → Result ℕ
  get_type self = do m ← usable self; ok (a.type_of m)

  -- `Message_get_serial`
  unfoldable pub get_serial : Option l.Msg → Result ℕ
  get_serial self = do m ← usable self; ok (a.serial m)

  -- `Message_is_method_call`
  unfoldable pub is_method_call : Option l.Msg → Result (Bytes × Bytes) → Result Bool
  is_method_call self args = do
    names ← args
    m ← usable self
    ok (a.is_method_call m names.0 names.1)

  -- `Message_is_error`
  unfoldable pub is_error : Option l.Msg → Result Bytes → Result Bool
  is_error self args = do name ← args; m ← usable self; ok (a.is_error m name)

  -- `Message_is_signal`
  unfoldable pub is_signal : Option l.Msg → Result (Bytes × Bytes) → Result Bool
  is_signal self args = do names ← args; m ← usable self; ok (a.is_signal m names.0 names.1)

  -- `Message_get_member`
  unfoldable pub get_member : Option l.Msg → Result (Option Bytes)
  get_member self = do m ← usable self; ok (l.get member_field m)

  -- `Message_has_member`
  unfoldable pub has_member : Option l.Msg → Result (Option Bytes) → Result Bool
  has_member self args = do name ← args; m ← usable self; ok (a.has member_field m name)

  -- `Message_set_member`
  unfoldable pub set_member : Option l.Msg → Option Bytes → Option l.Msg × Outcome
  set_member self name = set_header l member_field self name

  -- `Message_get_path`
  unfoldable pub get_path : Option l.Msg → Result (Option Object)
  get_path self = do
    m ← usable self
    elim (l.get_path m) [
      | none ↦ ok none
      | some c_str ↦ object_path_new c_str (pos 0) >>= λ p. ok (some p)
    ]

  -- `Message_has_path`
  unfoldable pub has_path : Option l.Msg → Result (Option Bytes) → Result Bool
  has_path self args = do name ← args; m ← usable self; ok (l.has_path m name)

  -- `Message_get_signature`. A NULL becomes the empty signature.
  unfoldable pub get_signature : Option l.Msg → Result Object
  get_signature self = do
    m ← usable self
    signature_new a.valid_signature (text_or [] (a.signature m)) (pos 0)

  -- `Message_has_signature`
  unfoldable pub has_signature : Option l.Msg → Result Bytes → Result Bool
  has_signature self args = do name ← args; m ← usable self; ok (a.has_signature m name)

  -- `Message_get_sender`
  unfoldable pub get_sender : Option l.Msg → Result (Option Bytes)
  get_sender self = do m ← usable self; ok (l.get sender_field m)

  -- `Message_has_sender`, which takes no None.
  unfoldable pub has_sender : Option l.Msg → Result Bytes → Result Bool
  has_sender self args = do name ← args; m ← usable self; ok (a.has sender_field m (some name))

  -- `Message_set_sender`
  unfoldable pub set_sender : Option l.Msg → Option Bytes → Option l.Msg × Outcome
  set_sender self name = set_header l sender_field self name

  -- `Message_get_destination`
  unfoldable pub get_destination : Option l.Msg → Result (Option Bytes)
  get_destination self = do m ← usable self; ok (l.get destination_field m)

  -- `Message_has_destination`, which takes no None.
  unfoldable pub has_destination : Option l.Msg → Result Bytes → Result Bool
  has_destination self args = do
    name ← args
    m ← usable self
    ok (a.has destination_field m (some name))

  -- `Message_set_destination`
  unfoldable pub set_destination : Option l.Msg → Option Bytes → Option l.Msg × Outcome
  set_destination self name = set_header l destination_field self name

  -- `Message_get_interface`
  unfoldable pub get_interface : Option l.Msg → Result (Option Bytes)
  get_interface self = do m ← usable self; ok (l.get interface_field m)

  -- `Message_has_interface`
  unfoldable pub has_interface : Option l.Msg → Result (Option Bytes) → Result Bool
  has_interface self args = do name ← args; m ← usable self; ok (a.has interface_field m name)

  -- `Message_set_interface`
  unfoldable pub set_interface : Option l.Msg → Option Bytes → Option l.Msg × Outcome
  set_interface self name = set_header l interface_field self name

  -- `Message_get_error_name`
  unfoldable pub get_error_name : Option l.Msg → Result (Option Bytes)
  get_error_name self = do m ← usable self; ok (l.get error_name_field m)

  -- `Message_set_error_name`
  unfoldable pub set_error_name : Option l.Msg → Option Bytes → Option l.Msg × Outcome
  set_error_name self name = set_header l error_name_field self name

  -- `MethodCallMessage_tp_repr` and `SignalMessage_tp_repr`. They do not test `self->msg`; what libdbus
  -- makes of a NULL is not modelled, so none stands for a call with one.
  unfoldable pub method_call_repr : Option l.Msg → Option Shown
  method_call_repr none = none
  method_call_repr (some m) = some (record {
    path = text_or not_available (l.get_path m);
    iface = text_or not_available (l.get interface_field m);
    member = text_or not_available (l.get member_field m);
    dest = text_or not_available (l.get destination_field m);
  })

  unfoldable pub signal_repr : Option l.Msg → Option Shown
  signal_repr none = none
  signal_repr (some m) = some (record {
    path = text_or not_available (l.get_path m);
    iface = text_or not_available (l.get interface_field m);
    member = text_or not_available (l.get member_field m);
    dest = text_or broadcast (l.get destination_field m);
  })

  -- What the loop of `Message_get_path_decomposed` meets in Python: which strings can be made, and which
  -- lists can grow.
  module _ (makes : Bytes → Bool) (grows : List Bytes → Bool) where
    -- The list, or none for NULL, and the number of strings that nothing will release.
    unfoldable pub decompose_loop : List Bytes → List Bytes → Option (List Bytes) × ℕ
    decompose_loop [] ret = (some ret, 0)
    decompose_loop (p ∷ ps) ret =
        let rest = decompose_loop ps (ret ++ (p ∷ [])) in
        if not (makes p) then (none, 0) else if not (grows ret) then (none, 1) else rest

    -- `Message_get_path_decomposed`. The flag says that the list can be made.
    unfoldable pub get_path_decomposed : Bool → Option l.Msg → Result (Option (List Bytes)) × ℕ
    get_path_decomposed false self = (err memory_error, 0)
    get_path_decomposed true none = (err dbus_exception, 0)
    get_path_decomposed true (some m) = elim (a.path_decomposed m) [
      | none ↦ (err memory_error, 0)
      | some none ↦ (ok none, 0)
      | some (some paths) ↦
          let (ret, leaked) = decompose_loop paths [] in
          (elim ret [ none ↦ err memory_error | some l ↦ ok (some l) ], leaked)
    ]
