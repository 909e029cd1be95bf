-- ===== src/Message/Headers.antt =====
-- The headers of a message, in _dbus_bindings/message.c: the constructors of the four types of
-- message, and the setters. libdbus is the record `Library`. `self->msg` is an option: a message
-- that is not initialised, or has become unusable, has none.
pub mod Checked
use python_dbus.Prelude.{
  Bool, true, false, Option, none, some, ◌≡◌, ◌↔◌, Bytes, if◌then◌else◌, ℕ, ◌-◌, ◌==◌,
}
use python_dbus.Python.{
  Exception, value_error, memory_error, dbus_exception, Result, ok, err, ◌>>=◌,
}
use python_dbus.Validation.{
  Verdict, passes, validate_bus_name, validate_object_path, validate_interface_name,
  validate_member_name,
}

-- The headers with a setter that validates.
pub data Header : Type 0 where
  sender_field destination_field interface_field error_name_field member_field : Header

-- Each header is at most one text. A setter of libdbus returns FALSE, and sets nothing, when it has
-- no memory.
pub record Library : Type 1 where
  pub Msg : Type 0
  pub get : Header → Msg → Option Bytes
  pub get_path : Msg → Option Bytes
  pub set : Header → Msg → Bytes → Msg × Bool
  pub has_path : Msg → Option Bytes → Bool
  pub has_path_lem : (m : Msg) (p : Bytes) → (has_path m (some p) ≡ true) ↔ (get_path m ≡ some p)
  pub set_own :
      (h : Header) (m : Msg) (n : Bytes) → (set h m n).1 ≡ true → get h (set h m n).0 ≡ some n
  pub set_failed : (h : Header) (m : Msg) (n : Bytes) → (set h m n).1 ≡ false → (set h m n).0 ≡ m

-- The check that the setter makes.
unfoldable pub check_header : Header → Bytes → Verdict
check_header sender_field name = validate_bus_name name true true
check_header destination_field name = validate_bus_name name true true
check_header interface_field name = validate_interface_name name
check_header error_name_field name = validate_interface_name name
check_header member_field name = validate_member_name name

-- What a call ends in: it returns, or follows a NULL.
pub data Outcome : Type 0 where
  returned : Result (Unit {0}) → Outcome
  null_dereference : Outcome

module _ (l : Library) where
  -- `Message_set_sender`, `Message_set_destination`, `Message_set_interface`,
  -- `Message_set_error_name` and `Message_set_member`. None becomes a NULL, which the validators
  -- read.
  unfoldable pub set_header : Header → Option l.Msg → Option Bytes → Option l.Msg × Outcome
  set_header h none name = (none, returned (err dbus_exception))
  set_header h (some m) none = (some m, null_dereference)
  set_header h (some m) (some name) =
      if passes (check_header h name)
      then (
        some (l.set h m name).0,
        returned (if (l.set h m name).1 then ok tt else err memory_error),
      )
      else (some m, returned (err value_error))

  -- `Message_set_path`, which calls `dbus_message_has_path`.
  unfoldable pub set_path : Option l.Msg → Option Bytes → Option l.Msg × Outcome
  set_path none name = (none, returned (err dbus_exception))
  set_path (some m) name =
      (some m, returned (if l.has_path m name then ok tt else err memory_error))

-- The objects' `self->msg`, and how many references each message has.
pub record Heap : Type 0 where
  pub msg : ℕ → Option ℕ
  pub refs : ℕ → ℕ

unfoldable pub store : Heap → ℕ → Option ℕ → Heap
store h self m = record h { msg = λ i. if i == self then m else h.msg i }

-- `if (self->msg) { dbus_message_unref(self->msg); self->msg = NULL; }`
unfoldable pub release : Heap → ℕ → Heap
release h self = elim (h.msg self) [
  | none ↦ h
  | some m ↦ store (record h { refs = λ i. if i == m then h.refs i - 1 else h.refs i }) self none
]

-- The new message of libdbus goes into the object, with the one reference that it is made with.
-- `none` is a lack of memory.
unfoldable pub adopt : Heap → ℕ → Option ℕ → Heap × Result (Unit {0})
adopt h self none = (h, err memory_error)
adopt h self (some m) =
    (store (record h { refs = λ i. if i == m then 1 else h.refs i }) self (some m), ok tt)

-- A check that is skipped for NULL.
unfoldable pub optional : (Bytes → Verdict) → Option Bytes → Bool
optional validate none = true
optional validate (some name) = passes (validate name)

unfoldable pub require : Bool → Result (Unit {0})
require b = if b then ok tt else err value_error

-- The checks of `MethodCallMessage_tp_init`, in their order.
unfoldable pub check_method_call : Option Bytes → Bytes → Option Bytes → Bytes → Result (Unit {0})
check_method_call destination path interface method = do
  _ ← require (optional (λ n. validate_bus_name n true true) destination)
  _ ← require (passes (validate_object_path path))
  _ ← require (optional validate_interface_name interface)
  require (passes (validate_member_name method))

-- `MethodCallMessage_tp_init`. The last argument is what libdbus returns.
unfoldable pub method_call_init :
    Heap → ℕ → Option Bytes → Bytes → Option Bytes → Bytes → Option ℕ → Heap × Result (Unit {0})
method_call_init h self destination path interface method new =
    elim (check_method_call destination path interface method) [
      | err e ↦ (h, err e)
      | ok _ ↦ adopt (release h self) self new
    ]

-- The checks of `SignalMessage_tp_init`.
unfoldable pub check_signal : Bytes → Bytes → Bytes → Result (Unit {0})
check_signal path interface name = do
  _ ← require (passes (validate_object_path path))
  _ ← require (passes (validate_interface_name interface))
  require (passes (validate_member_name name))

-- `SignalMessage_tp_init`
unfoldable pub signal_init : Heap → ℕ → Bytes → Bytes → Bytes → Option ℕ → Heap × Result (Unit {0})
signal_init h self path interface name new = elim (check_signal path interface name) [
  | err e ↦ (h, err e)
  | ok _ ↦ adopt (release h self) self new
]

-- The argument that libdbus is given for the message that is replied to, once the object's own
-- message is released.
unfoldable pub reply_argument : Heap → ℕ → ℕ → Option ℕ
reply_argument h self other = (release h self).msg other

-- `MethodReturnMessage_tp_init`. `new_for` is what libdbus returns for that argument.
unfoldable pub method_return_init : Heap → ℕ → ℕ → (Option ℕ → Option ℕ) → Heap × Result (Unit {0})
method_return_init h self other new_for =
    adopt (release h self) self (new_for (reply_argument h self other))

-- `ErrorMessage_tp_init`
unfoldable pub error_init : Heap → ℕ → ℕ → Bytes → (Option ℕ → Option ℕ) → Heap × Result (Unit {0})
error_init h self other error_name new_for =
    if passes (validate_interface_name error_name)
    then adopt (release h self) self (new_for (reply_argument h self other))
    else (h, err value_error)

-- `Message_tp_dealloc`
unfoldable pub message_dealloc : Heap → ℕ → Heap
message_dealloc h self = release h self
