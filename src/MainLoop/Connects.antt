-- ===== src/MainLoop/Connects.antt =====
-- Connections that are constructed with a main loop: _dbus_bindings/mainloop.c under the constructor of
-- _dbus_bindings/conn.c.
use python_dbus.Connection.Life
use python_dbus.Connection.Life.{DBusConnection, Outcomes}
use python_dbus.MainLoop.{
  Loop, none_object, native, other_object, Loops, borrow_connection, set_up_connection, chosen,
  get_default_main_loop, is_loop, outcomes_with, connection_outcomes,
}
use python_dbus.Prelude.{
  ℕ, ◌-◌, true, Option, none, some, sym, ◌≡◌, ◌⊎◌, inl, inr, refl, arith, List, ◌∷◌,
}
use python_dbus.Python.{type_error, Result, ok, err, Exception, Result-cases}

-- The connection is closed, and the reference to it given up.
abbrev pub Closes : DBusConnection → Exception → DBusConnection × Result ℕ → Type 0
Closes c e r =
    (r.1 ≡ err e)
    × (r.0.closed ≡ true)
    × (r.0.refs ≡ c.refs - 1)
    × (r.0.connections ≡ c.connections)

abbrev pub Opens : ℕ → DBusConnection → DBusConnection × Result ℕ → Type 0
Opens self c r =
    (r.1 ≡ ok self)
    × (r.0.closed ≡ c.closed)
    × (r.0.refs ≡ c.refs)
    × (r.0.connections ≡ self ∷ c.connections)

-- What the main loop that is chosen makes of the constructor of a Connection.
abbrev pub Connects : Loops → Loop → ℕ → ℕ → DBusConnection → DBusConnection × Result ℕ → Type 0
Connects w none_object self conn c r = Opens self c r
Connects w other_object self conn c r = Closes c type_error r
Connects w (native i) self conn c r =
    let called = (w.loop i).set_up_connection_cb conn (w.loop i).user_data in
    ((called ≡ ok tt) × Opens self c r) ⊎ ((e : Exception) × (called ≡ err e) × Closes c e r)

-- The main loop that a constructor uses, by what it is given and the default: a loop that is given, or
-- else the default.
abbrev pub used : Option Loop → Option Loop → Loop
used (some (native i)) default = native i
used (some other_object) default = other_object
used (some none_object) none = none_object
used none none = none_object
used (some none_object) (some l) = l
used none (some l) = l

chosen-used : (w : Loops) (mainloop : Option Loop) → (chosen w mainloop).1 ≡ used mainloop w.default
unfolding chosen get_default_main_loop
chosen-used w none = ground arith
chosen-used w (some none_object) = ground arith
chosen-used w (some (native i)) = refl
chosen-used w (some other_object) = refl

without_self : (self : ℕ) (is : List ℕ) → Life.without self (self ∷ is) ≡ is
without_self self is = ground arith

attach-Opens :
    (o : Outcomes) (self : ℕ) (c : DBusConnection)
    → o.set_up ≡ ok tt
    → Opens self c (Life.attach o true self c)
unfolding Life.attach
attach-Opens o self c e = rw (e, Life.attach) (refl, refl, refl, refl)

attach-Closes :
    (o : Outcomes) (self : ℕ) (c : DBusConnection) (why : Exception)
    → o.set_up ≡ err why
    → Closes c why (Life.attach o true self c)
unfolding Life.attach Life.dealloc Life.close_and_unref
attach-Closes o self c why e =
    rw (e, Life.attach) (refl, refl, refl, without_self self c.connections)

with_loop :
    (w : Loops) (self conn : ℕ) (c : DBusConnection)
    → Life.referent c ≡ none
    → (l : Loop)
    → Connects w l self conn c (Life.new_consuming (outcomes_with w true true true conn l) self c)
unfolding Life.new_consuming Life.attach Life.dealloc Life.close_and_unref outcomes_with
    set_up_connection borrow_connection is_loop
with_loop w self conn c h none_object = rw (h, Life.new_consuming) (refl, refl, refl, refl)
with_loop w self conn c h other_object =
    rw (h, Life.new_consuming) (refl, refl, refl, without_self self c.connections)
with_loop w self conn c h (native i) =
    let o = outcomes_with w true true true conn (native i) in
    rw (h, Life.new_consuming)
      (elim (Result-cases ((w.loop i).set_up_connection_cb conn (w.loop i).user_data)) [
        | inl (_, e) ↦ inl (e, attach-Opens o self c e)
        | inr (why, e) ↦ inr (why, e, attach-Closes o self c why e)
      ])

-- Where no Connection is alive for a connection, and objects and the data slot can be allocated. The main
-- loop is the one that is given, and the default one where that is None or left out. Where there is none
-- either, the Connection is made. With a NativeMainLoop, it is made if the callback for connections, given
-- the data of that loop, succeeds; if not, the constructor raises what the callback raised, closes the
-- connection and gives up its reference. With any other object it does so with TypeError.
pub new_consuming-Connects :
    (w : Loops) (mainloop : Option Loop) (self conn : ℕ) (c : DBusConnection)
    → Life.referent c ≡ none
    → Connects w
        (used mainloop w.default)
        self
        conn
        c
        (Life.new_consuming (connection_outcomes w mainloop true true true conn) self c)
unfolding connection_outcomes
new_consuming-Connects w mainloop self conn c h =
    rw (sym (chosen-used w mainloop)) (with_loop w self conn c h (chosen w mainloop).1)
