-- ===== src/Message/Copies.antt =====
-- Message objects that are made for messages of libdbus, in _dbus_bindings/message.c: `Message_tp_new`,
-- `DBusPyMessage_ConsumeDBusMessage` and `Message_copy`, on the heap of the constructors.
use python_dbus.Message.Headers.{Heap, store, message_dealloc, release}
use python_dbus.Prelude.{
  ℕ, ◌-◌, Option, none, some, ◌≡◌, ◌≢◌, ◌⊎◌, inl, inr, refl, ap, arith, ◌==◌, if◌then◌else◌,
}
use python_dbus.Python.{memory_error, dbus_exception, Result, ok, err}

-- `MessageType` and its subclasses.
pub data MessageClass : Type 0 where
  plain_message method_call_message method_return_message error_message signal_message :
      MessageClass

-- The switch on `dbus_message_get_type`, by the values of libdbus.
unfoldable pub class_of : ℕ → MessageClass
class_of type =
    if type == 1
    then method_call_message
    else if type == 2
    then method_return_message
    else if type == 3
    then error_message
    else if type == 4
    then signal_message
    else plain_message

-- `Message_tp_new`. The second argument is the object that is allocated.
unfoldable pub message_new : Heap → Option ℕ → Heap × Option ℕ
message_new h none = (h, none)
message_new h (some self) = (store h self none, some self)

unfoldable pub unref : Heap → ℕ → Heap
unref h m = record h { refs = λ i. if i == m then h.refs i - 1 else h.refs i }

-- `DBusPyMessage_ConsumeDBusMessage` on the message `m` of a type, whose reference it takes over.
unfoldable pub consume_message : Heap → ℕ → ℕ → Option ℕ → Heap × Result (MessageClass × ℕ)
consume_message h type m allocated =
    let (h', new) = message_new h allocated in
    elim new [
      | none ↦ (unref h' m, err memory_error)
      | some self ↦ (store h' self (some m), ok (class_of type, self))
    ]

-- `dbus_message_copy`: the new message has one reference.
unfoldable pub made : Heap → ℕ → Heap
made h m = record h { refs = λ i. if i == m then 1 else h.refs i }

-- `Message_copy`. `copied` is what `dbus_message_copy` gives, if it has memory, and `type` the type of the
-- message.
unfoldable pub message_copy : Heap → ℕ → ℕ → Option ℕ → Option ℕ → Heap × Result (MessageClass × ℕ)
message_copy h self type copied allocated = elim (h.msg self) [
  | none ↦ (h, err dbus_exception)
  | some _ ↦ elim copied [
    | none ↦ (h, err memory_error)
    | some m ↦ consume_message (made h m) type m allocated
  ]
]

-- A copy of a usable message whose copying libdbus has the memory for, into an object other than the
-- message's own: either the new object is allocated, holds the new message with its one reference, and
-- its destructor gives that up; or MemoryError is raised and the new message has no reference left.
-- Either way the old object holds its message, and that has the references it had.
pub message_copy-owns :
    (h : Heap) (self type m c : ℕ) (allocated : Option ℕ)
    → h.msg self ≡ some m
    → m ≢ c
    → allocated ≢ some self
    → let (h', r) = message_copy h self type (some c) allocated in
      (h'.msg self ≡ some m)
      × (h'.refs m ≡ h.refs m)
      × (((new : ℕ) × (r ≡ ok (class_of type, new))
            × (h'.msg new ≡ some c)
            × (h'.refs c ≡ 1)
            × ((message_dealloc h' new).refs c ≡ 0)
            × ((message_dealloc h' new).refs m ≡ h.refs m))
          ⊎ ((r ≡ err memory_error) × (h'.refs c ≡ 0)))
unfolding message_copy consume_message message_new made unref store message_dealloc release
message_copy-owns h self type m c none e d f =
    rw (e, message_copy) (e, ground arith, inr (refl, ground arith))
message_copy-owns h self type m c (some new) e d f =
    let other : new ≢ self = λ s. f (ap some s) in
    rw (e, message_copy)
      (
        ground arith,
        ground arith,
        inl (new, refl, ground arith, ground arith, ground arith, ground arith),
      )
