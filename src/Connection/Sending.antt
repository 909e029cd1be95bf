-- ===== src/Connection/Sending.antt =====
-- Sending over a Connection, in _dbus_bindings/conn-methods.c: `Connection_send_message`,
-- `Connection_send_message_with_reply` and `Connection_send_message_with_reply_and_block`; and the
-- methods that only ask libdbus. Floating-point numbers are a parameter.
pub mod Outcomes
use python_dbus.Message.Accessors.{Argument, borrow}
use python_dbus.Message.Copies.{MessageClass, consume_message}
use python_dbus.Message.Headers.{Heap}
use python_dbus.PendingCall.{PcField, World, Answers, consume_pending_call}
use python_dbus.Prelude.{
  ℕ, ◌≤◌, Bool, true, false, not, ◌&&◌, Option, none, some, List, [], ◌∷◌, ◌≡◌, ◌≢◌, ◌==◌,
  if◌then◌else◌,
}
use python_dbus.Python.Integer.{ℤ, pos, negsuc}
use python_dbus.Python.{
  assertion_error, runtime_error, value_error, memory_error, dbus_exception, Result, ok, err, ◌>>=◌,
}

abbrev pub int_max : ℕ
int_max = 2147483647

-- The doubles of C, where `limit` is `((double)INT_MAX) / 1000.0` and `default` is -1. No comparison with
-- a NaN holds; between other numbers the order is total, and multiplication by 1000 and the conversion to
-- int respect it. C gives the conversion no meaning for a number that int does not hold, or for a NaN.
pub record Doubles : Type 1 where
  pub Double : Type 0
  pub is_nan : Double → Bool
  pub less : Double → Double → Bool
  pub zero_s : Double
  pub default : Double
  pub limit : Double
  pub times_1000 : Double → Double
  pub to_int : Double → Option ℤ
  pub less_nan : (x y : Double) → is_nan x ≡ true → less x y ≡ false
  pub nan_less : (x y : Double) → is_nan y ≡ true → less x y ≡ false
  pub times_mono :
      (x y : Double)
      → is_nan x ≡ false
      → is_nan y ≡ false
      → less y x ≡ false
      → less (times_1000 y) (times_1000 x) ≡ false
  pub times_nan : (x : Double) → is_nan (times_1000 x) ≡ is_nan x
  pub zero_s_real : is_nan zero_s ≡ false
  pub limit_real : is_nan limit ≡ false
  pub to_int-zero : to_int (times_1000 zero_s) ≡ some (pos 0)
  pub to_int-limit : to_int (times_1000 limit) ≡ some (pos int_max)
  pub to_int-nan : (x : Double) → is_nan x ≡ true → to_int x ≡ none
  pub to_int-between :
      (x y z : Double) (i k : ℕ)
      → is_nan y ≡ false
      → less y x ≡ false
      → less z y ≡ false
      → to_int x ≡ some (pos i)
      → to_int z ≡ some (pos k)
      → (j : ℕ) × (to_int y ≡ some (pos j)) × (i ≤ j) × (j ≤ k)

-- `self->conn`, as far as it is there, and `self->has_mainloop`.
pub record Sender : Type 0 where
  pub has_conn : Bool
  pub has_mainloop : Bool

-- `DBUS_PY_RAISE_VIA_NULL_IF_FAIL(self->conn)`
unfoldable pub raise_if_fail : Sender → Result (Unit {0})
raise_if_fail c = if c.has_conn then ok tt else err assertion_error

-- `Connection__require_main_loop`
unfoldable pub require_main_loop : Sender → Result (Unit {0})
require_main_loop c = if c.has_mainloop then ok tt else err runtime_error

-- What libdbus is asked to send: the message, and the timeout in milliseconds, unless C gives the number
-- no meaning.
pub data Request : Type 0 where
  send : ℕ → Request
  send_with_reply : ℕ → Option ℤ → Request

-- The checks of `Connection_send_message`.
unfoldable pub check_send : Sender → Result (Argument ℕ) → Result ℕ
check_send c args = do _ ← raise_if_fail c; obj ← args; borrow obj

-- `Connection_send_message`. The arguments are parsed to an object; the last one is the serial number that
-- `dbus_connection_send` gives, if it has memory.
unfoldable pub send_message : Sender → Result (Argument ℕ) → Option ℕ → List Request × Result ℕ
send_message c args serial = elim (check_send c args) [
  | err e ↦ ([], err e)
  | ok msg ↦ (send msg ∷ [], elim serial [ none ↦ err memory_error | some n ↦ ok n ])
]

-- What `dbus_connection_send_with_reply` comes to: FALSE, no pending call, or one.
pub data Queued : Type 0 where
  no_memory disconnected : Queued
  pending : World → Queued

-- What follows the call of libdbus in `Connection_send_message_with_reply`, with the pending call
-- afterwards if there is one. A failure of the constructor has set MemoryError.
unfoldable pub await_reply : Answers → ℕ → Queued → Option World × Result PcField
await_reply a callable no_memory = (none, err memory_error)
await_reply a callable disconnected = (none, err dbus_exception)
await_reply a callable (pending w) =
    let (pc, w') = consume_pending_call a callable w in
    (some w', elim pc [ none ↦ err memory_error | some self ↦ ok self ])

-- What `dbus_connection_send_with_reply_and_block` gives: a message of a type, or an error.
pub data Received : Type 0 where
  reply : ℕ → ℕ → Received
  failed : Received

-- What `Connection_send_message_with_reply_and_block` makes of it.
unfoldable pub receive : Heap → Received → Option ℕ → Heap × Result (MessageClass × ℕ)
receive h failed allocated = (h, err dbus_exception)
receive h (reply type m) allocated = consume_message h type m allocated

-- The arguments of `send_message_with_reply`; `timeout_s` may be left out.
pub record SendArguments (D : Type 0) : Type 0 where
  pub msg : Argument ℕ
  pub reply_handler : ℕ
  pub timeout_s : Option D
  pub needs_main_loop : Bool

module _ (d : Doubles) where
  -- `double timeout_s = -1.0`, unless the argument is given.
  unfoldable pub seconds : Option d.Double → d.Double
  seconds none = d.default
  seconds (some timeout_s) = timeout_s

  -- The conversion of `timeout_s` to `timeout_ms`.
  unfoldable pub timeout_ms : d.Double → Result (Option ℤ)
  timeout_ms timeout_s =
      if d.less timeout_s d.zero_s
      then ok (some (negsuc 0))
      else if d.less d.limit timeout_s
      then err value_error
      else ok (d.to_int (d.times_1000 timeout_s))

  -- The checks of `Connection_send_message_with_reply`, in their order.
  unfoldable pub check_send_with_reply : Sender → SendArguments d.Double → Result (ℕ × Option ℤ)
  check_send_with_reply c args = do
    _ ← if args.needs_main_loop then require_main_loop c else ok tt
    msg ← borrow args.msg
    timeout ← timeout_ms (seconds args.timeout_s)
    ok (msg, timeout)

  -- `Connection_send_message_with_reply`: what libdbus is asked, the pending call, and the result.
  unfoldable pub send_message_with_reply :
      Sender
      → Result (SendArguments d.Double)
      → Queued
      → Answers
      → List Request × Option World × Result PcField
  send_message_with_reply c parsed queued a = elim (raise_if_fail c >>= λ _. parsed) [
    | err e ↦ ([], none, err e)
    | ok args ↦ elim (check_send_with_reply c args) [
      | err e ↦ ([], none, err e)
      | ok sent ↦
          let (w, result) = await_reply a args.reply_handler queued in
          (send_with_reply sent.0 sent.1 ∷ [], w, result)
    ]
  ]

  -- The checks of `Connection_send_message_with_reply_and_block`.
  unfoldable pub check_send_and_block :
      Sender → Result (Argument ℕ × Option d.Double) → Result (ℕ × Option ℤ)
  check_send_and_block c parsed = do
    _ ← raise_if_fail c
    args ← parsed
    msg ← borrow args.0
    timeout ← timeout_ms (seconds args.1)
    ok (msg, timeout)

  -- `Connection_send_message_with_reply_and_block`, with the heap of message objects and the object that
  -- is allocated for the reply. An error of libdbus becomes a DBusException.
  unfoldable pub send_message_with_reply_and_block :
      Sender
      → Result (Argument ℕ × Option d.Double)
      → Heap
      → Received
      → Option ℕ
      → List Request × Heap × Result (MessageClass × ℕ)
  send_message_with_reply_and_block c parsed h received allocated =
      elim (check_send_and_block c parsed) [
        | err e ↦ ([], h, err e)
        | ok sent ↦
            let after = receive h received allocated in
            (send_with_reply sent.0 sent.1 ∷ [], after.0, after.1)
      ]
