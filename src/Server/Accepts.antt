-- ===== src/Server/Accepts.antt =====
-- The references to a connection that a Server of _dbus_bindings/server.c has accepted.
use python_dbus.Connection.Life
use python_dbus.Connection.Life.Owned.{IsOwned, Step-IsOwned, constructs, wraps, unwraps, destroys}
use python_dbus.Connection.Life.{DBusConnection, Outcomes, referent, alive}
use python_dbus.Prelude.{ℕ, ◌<◌, Bool, true, refl, ◌&&◌, Bool-cases, none, ◌≡◌, inl, inr, arith}
use python_dbus.Python.{Result, Result-cases, ok, err}
use python_dbus.Server.{new_connection}

new_wrappers :
    (o : Outcomes) (i : ℕ) (c : DBusConnection)
    → (Life.new o i Life.wrapper c).0.wrappers ≡ c.wrappers
unfolding Life.new Life.new_consuming Life.attach Life.dealloc Life.close_and_unref Life.referent
new_wrappers o i c = ground arith

new_alive :
    (o : Outcomes) (i j : ℕ) (c : DBusConnection)
    → (Life.new o i Life.wrapper c).1 ≡ ok j
    → alive j (Life.new o i Life.wrapper c).0.connections ≡ true
unfolding Life.new Life.new_consuming Life.attach Life.dealloc Life.close_and_unref Life.referent
new_alive o i j c h = ground arith

unwrapped :
    (o : Outcomes) (i j : ℕ) (c : DBusConnection)
    → let made = (Life.new o i Life.wrapper (Life.wrap c)).0 in
      (((Life.unwrap made).wrappers ≡ c.wrappers) × ((Life.unwrap made).others ≡ c.others))
      × (((Life.dealloc j (Life.unwrap made)).wrappers ≡ c.wrappers)
          × ((Life.dealloc j (Life.unwrap made)).others ≡ c.others))
unfolding Life.new Life.new_consuming Life.attach Life.dealloc Life.close_and_unref Life.referent
    Life.wrap Life.unwrap
unwrapped o i j c = ground arith

-- The callback leaves no LibDBusConnection and no other reference behind.
new_connection-others :
    (server : Result ℕ) (has_method has_wrapper : Bool) (o : Outcomes) (i : ℕ) (kept : Bool)
    (c : DBusConnection)
    → let c' = new_connection server has_method has_wrapper o i kept c in
      (c'.wrappers ≡ c.wrappers) × (c'.others ≡ c.others)
unfolding new_connection
new_connection-others (err e) has_method has_wrapper o i kept c = (refl, refl)
new_connection-others (ok self) has_method has_wrapper o i kept c =
    elim (Bool-cases (has_method && has_wrapper)) [
      | inr f ↦ rw (f, new_connection) (refl, refl)
      | inl t ↦ elim (Result-cases (Life.new o i Life.wrapper (Life.wrap c)).1) [
        | inr (e, m) ↦ rw (t, m, new_connection) (unwrapped o i i c).0
        | inl (j, m) ↦ elim (Bool-cases kept) [
          | inl k ↦ rw (t, m, k, new_connection) (unwrapped o i j c).0
          | inr k ↦ rw (t, m, k, new_connection) (unwrapped o i j c).1
        ]
      ]
    ]

callback_references :
    (server : Result ℕ) (has_method has_wrapper : Bool) (o : Outcomes) (i lost : ℕ) (kept : Bool)
    (c : DBusConnection)
    → 0 < c.refs
    → referent c ≡ none
    → IsOwned lost c
    → IsOwned lost (new_connection server has_method has_wrapper o i kept c)
unfolding new_connection Life.wrap Life.unwrap Life.referent
callback_references (err e) has_method has_wrapper o i lost kept c r n h = h
callback_references (ok self) has_method has_wrapper o i lost kept c r n h =
    let c1 = Life.wrap c in
    let n1 : referent c1 ≡ none = n in
    let made = Life.new o i Life.wrapper c1 in
    let h2 : IsOwned lost made.0 =
      Step-IsOwned {c = c1} (constructs o i (omega arith) n1) (Step-IsOwned (wraps {c = c} r) h) in
    let h3 : IsOwned lost (Life.unwrap made.0) =
      Step-IsOwned {c = made.0} (unwraps (omega (arith, new_wrappers o i c1))) h2 in
    elim (Bool-cases (has_method && has_wrapper)) [
      | inr f ↦ rw (f, new_connection) h
      | inl t ↦ elim (Result-cases made.1) [
        | inr (e, m) ↦ rw (t, m, new_connection) h3
        | inl (j, m) ↦ elim (Bool-cases kept) [
          | inl k ↦ rw (t, m, k, new_connection) h3
          | inr k ↦
              rw (t, m, k, new_connection) (Step-IsOwned (destroys j (new_alive o i j c1 m)) h3)
        ]
      ]
    ]

-- Whatever the callback for a new connection comes to, where no Connection was alive: the connection has
-- one reference for each holder afterwards if it had before, and no LibDBusConnection and no other holder
-- is left that was not there before.
pub new_connection-IsOwned :
    (server : Result ℕ) (has_method has_wrapper : Bool) (o : Outcomes) (i lost : ℕ) (kept : Bool)
    (c : DBusConnection)
    → 0 < c.refs
    → referent c ≡ none
    → IsOwned lost c
    → let c' = new_connection server has_method has_wrapper o i kept c in
      IsOwned lost c' × ((c'.wrappers ≡ c.wrappers) × (c'.others ≡ c.others))
new_connection-IsOwned server has_method has_wrapper o i lost kept c r n h = (
  callback_references server has_method has_wrapper o i lost kept c r n h,
  new_connection-others server has_method has_wrapper o i kept c,
)
