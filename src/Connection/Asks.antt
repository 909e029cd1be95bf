-- ===== src/Connection/Asks.antt =====
-- The methods of a Connection that ask libdbus or set a flag there, in _dbus_bindings/conn-methods.c, with what
-- libdbus answers.
use python_dbus.Connection.Sending.{Sender, raise_if_fail}
use python_dbus.Message.Accessors.{truth}
use python_dbus.Prelude.{ℕ, ◌+◌, Bool, Option}
use python_dbus.Python.Integer.{ℤ}
use python_dbus.Python.{Result, ok, err, ◌>>=◌}

-- The flags that libdbus keeps for a connection, and how often its outgoing queue has been flushed.
pub record Flags : Type 0 where
  pub exit_on_disconnect : Bool
  pub allow_anonymous : Bool
  pub flushed : ℕ

-- `Connection_get_is_connected`
unfoldable pub get_is_connected : Sender → Bool → Result Bool
get_is_connected c ret = do _ ← raise_if_fail c; ok ret

-- `Connection_get_is_authenticated`
unfoldable pub get_is_authenticated : Sender → Bool → Result Bool
get_is_authenticated c ret = do _ ← raise_if_fail c; ok ret

-- `Connection_set_exit_on_disconnect`
unfoldable pub set_exit_on_disconnect : Sender → Result ℤ → Flags → Flags × Result (Unit {0})
set_exit_on_disconnect c args f = elim (raise_if_fail c >>= λ _. args) [
  | err e ↦ (f, err e)
  | ok value ↦ (record f { exit_on_disconnect = truth value }, ok tt)
]

-- `Connection_set_allow_anonymous`
unfoldable pub set_allow_anonymous : Sender → Result ℤ → Flags → Flags × Result (Unit {0})
set_allow_anonymous c args f = elim (raise_if_fail c >>= λ _. args) [
  | err e ↦ (f, err e)
  | ok t ↦ (record f { allow_anonymous = truth t }, ok tt)
]

-- `Connection_flush`
unfoldable pub flush : Sender → Flags → Flags × Result (Unit {0})
flush c f = elim (raise_if_fail c) [
  | err e ↦ (f, err e)
  | ok _ ↦ (record f { flushed = f.flushed + 1 }, ok tt)
]

-- `Connection_get_unix_fd`: none stands for None.
unfoldable pub get_unix_fd : Sender → Option ℤ → Result (Option ℤ)
get_unix_fd c answer = do _ ← raise_if_fail c; ok answer

-- `Connection_get_peer_unix_user`
unfoldable pub get_peer_unix_user : Sender → Option ℕ → Result (Option ℕ)
get_peer_unix_user c answer = do _ ← raise_if_fail c; ok answer

-- `Connection_get_peer_unix_process_id`
unfoldable pub get_peer_unix_process_id : Sender → Option ℕ → Result (Option ℕ)
get_peer_unix_process_id c answer = do _ ← raise_if_fail c; ok answer
