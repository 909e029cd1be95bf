-- ===== src/Message/Headers/Checked.antt =====
-- What the constructors and setters of _dbus_bindings/message.c promise of names.
use python_dbus.Message.Headers.{
  Header, sender_field, destination_field, interface_field, error_name_field, member_field, Library,
  check_header, returned, set_header, set_path, Heap, store, release, adopt, optional, require,
  check_method_call, method_call_init, reply_argument,
}
use python_dbus.Prelude.{
  true, Option, none, some, ◌≡◌, ◌↔◌, ◌≢◌, ◌⊎◌, refl, arith, Bytes, ℕ, ◌==◌, if◌then◌else◌,
  Bool-cases, inl, inr,
}
use python_dbus.Python.{value_error, memory_error, ok, err}
use python_dbus.Validation.BusName.{validate_bus_name_iff}
use python_dbus.Validation.Chars.{passes_iff}
use python_dbus.Validation.Grammar.{IsBusName, IsInterfaceName, IsMemberName, IsObjectPath}
use python_dbus.Validation.Interface.{validate_interface_name_iff, validate_member_name_iff}
use python_dbus.Validation.ObjectPath.{validate_object_path_iff}
use python_dbus.Validation.{
  Verdict, passes, validate_bus_name, validate_object_path, validate_interface_name,
  validate_member_name,
}

-- A header that may be left out.
abbrev pub IfGiven : (Bytes → Type 0) → Option Bytes → Type 0
IfGiven P none = Unit
IfGiven P (some name) = P name

-- What each header may hold.
abbrev pub Allowed : Header → Bytes → Type 0
Allowed sender_field n = IsBusName true true n
Allowed destination_field n = IsBusName true true n
Allowed interface_field n = IsInterfaceName n
Allowed error_name_field n = IsInterfaceName n
Allowed member_field n = IsMemberName n

check_header_iff : (h : Header) (n : Bytes) → (passes (check_header h n) ≡ true) ↔ Allowed h n
unfolding check_header
check_header_iff sender_field n =
    ground (arith, passes_iff (validate_bus_name n true true), validate_bus_name_iff n true true)
check_header_iff destination_field n =
    ground (arith, passes_iff (validate_bus_name n true true), validate_bus_name_iff n true true)
check_header_iff interface_field n =
    ground (arith, passes_iff (validate_interface_name n), validate_interface_name_iff n)
check_header_iff error_name_field n =
    ground (arith, passes_iff (validate_interface_name n), validate_interface_name_iff n)
check_header_iff member_field n =
    ground (arith, passes_iff (validate_member_name n), validate_member_name_iff n)

module _ (l : Library) where
  -- A setter that returns without raising was given a text that the header may hold, and libdbus
  -- then holds it. One that raises, ValueError or MemoryError, leaves the message as it was.
  pub set_header_lem :
      (h : Header) (m : l.Msg) (name : Bytes)
      → let r = set_header l h (some m) (some name) in
        ((r.1 ≡ returned (ok tt))
          × Allowed h name
          × ((m' : l.Msg) × (r.0 ≡ some m') × (l.get h m' ≡ some name)))
        ⊎ (((r.1 ≡ returned (err value_error)) ⊎ (r.1 ≡ returned (err memory_error)))
            × (r.0 ≡ some m))
  unfolding set_header
  set_header_lem h m name = elim (Bool-cases (passes (check_header h name))) [
    | inr bad ↦ inr (inl (ground arith), ground arith)
    | inl good ↦ elim (Bool-cases (l.set h m name).1) [
      | inl done ↦ inl (
        ground arith,
        (check_header_iff h name).0 good,
        ((l.set h m name).0, ground arith, l.set_own h m name done),
      )
      | inr full ↦ inr (inr (ground arith), ground (arith, l.set_failed h m name full))
    ]
  ]

  -- `Message_set_path` never changes a message. It returns without raising exactly where the message
  -- has that path already, and raises MemoryError for any other path.
  pub set_path_keeps :
      (m : l.Msg) (path : Bytes)
      → let r = set_path l (some m) (some path) in
        (r.0 ≡ some m)
        × ((r.1 ≡ returned (ok tt)) ↔ (l.get_path m ≡ some path))
        × ((r.1 ≡ returned (err memory_error)) ↔ (l.get_path m ≢ some path))
  unfolding set_path
  set_path_keeps m path = ground (arith, l.has_path_lem m path)

optional_iff :
    (P : Bytes → Type 0) (validate : Bytes → Verdict) (name : Option Bytes)
    → ((n : Bytes) → (passes (validate n) ≡ true) ↔ P n)
    → (optional validate name ≡ true) ↔ IfGiven P name
unfolding optional
optional_iff P validate none h = ground arith
optional_iff P validate (some n) h = h n

check_method_call-ok :
    (d : Option Bytes) (p : Bytes) (i : Option Bytes) (m : Bytes)
    → (check_method_call d p i m ≡ ok tt) ↔ (
        (optional (λ n. validate_bus_name n true true) d ≡ true)
        × (passes (validate_object_path p) ≡ true)
        × (optional validate_interface_name i ≡ true)
        × (passes (validate_member_name m) ≡ true))
unfolding check_method_call require
check_method_call-ok d p i m = ground arith

path_iff : (p : Bytes) → (passes (validate_object_path p) ≡ true) ↔ IsObjectPath p
path_iff p = ground (arith, passes_iff (validate_object_path p), validate_object_path_iff p)

-- The names of a method call are as D-Bus wants them.
abbrev pub AllowedCall : Option Bytes → Bytes → Option Bytes → Bytes → Type 0
AllowedCall d p i m =
    IfGiven (IsBusName true true) d × IsObjectPath p × IfGiven IsInterfaceName i × IsMemberName m

-- `MethodCallMessage_tp_init` accepts exactly the names that D-Bus allows, where libdbus has memory.
pub method_call_init_iff :
    (h : Heap) (self : ℕ) (d : Option Bytes) (p : Bytes) (i : Option Bytes) (m : Bytes) (new : ℕ)
    → ((method_call_init h self d p i m (some new)).1 ≡ ok tt) ↔ AllowedCall d p i m
unfolding method_call_init adopt check_header
method_call_init_iff h self d p i m new =
    let bus =
      optional_iff (IsBusName true true) (λ n. validate_bus_name n true true) d
        (check_header_iff destination_field) in
    let face =
      optional_iff IsInterfaceName validate_interface_name i (check_header_iff interface_field) in
    ground
      (arith, check_method_call-ok d p i m, bus, path_iff p, face, check_header_iff member_field m)

check_method_call-cases :
    (d : Option Bytes) (p : Bytes) (i : Option Bytes) (m : Bytes)
    → (check_method_call d p i m ≡ ok tt) ⊎ (check_method_call d p i m ≡ err value_error)
unfolding check_method_call require
check_method_call-cases d p i m = ground arith

adopt_lem :
    (h : Heap) (self : ℕ) (new : Option ℕ)
    → let r = adopt (release h self) self new in
      (((n : ℕ) × (new ≡ some n) × (r.1 ≡ ok tt) × (r.0.msg self ≡ some n) × (r.0.refs n ≡ 1))
        ⊎ ((new ≡ none) × (r.1 ≡ err memory_error) × (r.0.msg self ≡ none)))
unfolding adopt release store
adopt_lem h self none = inr (refl, refl, ground arith)
adopt_lem h self (some n) = inl (n, refl, refl, ground arith, ground arith)

-- Whatever `MethodCallMessage_tp_init` is given: it succeeds, and the object holds the new message
-- with one reference; or it raises ValueError and nothing has changed; or libdbus had no memory, and
-- the object is left without a message.
pub method_call_init_lem :
    (h : Heap) (self : ℕ) (d : Option Bytes) (p : Bytes) (i : Option Bytes) (m : Bytes)
    (new : Option ℕ)
    → let r = method_call_init h self d p i m new in
      ((n : ℕ) × (new ≡ some n) × (r.1 ≡ ok tt) × (r.0.msg self ≡ some n) × (r.0.refs n ≡ 1))
      ⊎ ((r.1 ≡ err value_error) × (r.0 ≡ h))
      ⊎ ((new ≡ none) × (r.1 ≡ err memory_error) × (r.0.msg self ≡ none))
unfolding method_call_init
method_call_init_lem h self d p i m new = elim (check_method_call-cases d p i m) [
  | inr e ↦ inr (inl (rw (e, method_call_init), rw (e, method_call_init)))
  | inl e ↦
      rw (e, method_call_init) (elim (adopt_lem h self new) [ inl a ↦ inl a | inr b ↦ inr (inr b) ])
]

-- The message that libdbus is asked to reply to is that of the argument, except where a message is
-- initialised again as a reply to itself: its own message has been released by then, and libdbus is
-- given NULL.
pub reply_argument_lem :
    (h : Heap) (self other : ℕ)
    → reply_argument h self other ≡ (if other == self then none else h.msg other)
unfolding reply_argument release store
reply_argument_lem h self other = ground arith
