-- ===== src/Connection/Bus/Released.antt =====
-- Who holds a connection to a message bus, and what is left of it when its constructor fails;
-- _dbus_bindings/bus.c.
use python_dbus.Connection.Life.{
  DBusConnection, Outcomes, referent, new_consuming, attach, dealloc, close_and_unref, new, wrapper,
  opened, wrap, unwrap, without,
}
use python_dbus.Prelude.{
  ℕ, ◌+◌, ◌-◌, Bool, true, false, ◌&&◌, none, List, [], ◌∷◌, ◌≡◌, ◌⊎◌, inl, inr, refl, arith,
  Bool-cases,
}
use python_dbus.Python.{
  Exception, value_error, type_error, memory_error, dbus_exception, Result, ok, err, Result-cases,
}
use python_dbus.Connection.Bus.{
  BusArgument, default_bus, bus_address, bus_type, no_bus, known_bus, BusOutcomes, unref_connection,
  new_for_address, new_for_type, new_for_bus,
}

-- What the constructor of a Connection makes of a connection with a reference for it.
abbrev Takes : ℕ → DBusConnection → DBusConnection × Result ℕ → Type 0
Takes self c r =
    (r.1 ≡ ok self)
    × (r.0.refs ≡ c.refs)
    × (r.0.connections ≡ self ∷ c.connections)
    × (r.0.wrappers ≡ c.wrappers)
    × (r.0.closed ≡ c.closed)

abbrev Drops : DBusConnection → Exception → DBusConnection × Result ℕ → Type 0
Drops c e r =
    (r.1 ≡ err e)
    × (r.0.refs ≡ c.refs - 1)
    × (r.0.connections ≡ c.connections)
    × (r.0.wrappers ≡ c.wrappers)
    × (r.0.closed ≡ true)

abbrev Constructs : ℕ → DBusConnection → DBusConnection × Result ℕ → Type 0
Constructs self c r = Takes self c r ⊎ ((e : Exception) × Drops c e r)

without_self : (i : ℕ) (is : List ℕ) → without i (i ∷ is) ≡ is
without_self i is = ground arith

attach-Constructs :
    (o : Outcomes) (m : Bool) (self : ℕ) (c : DBusConnection)
    → Constructs self c (attach o m self c)
unfolding attach dealloc close_and_unref
attach-Constructs o false self c = inl (refl, refl, refl, refl, refl)
attach-Constructs o true self c = elim (Result-cases o.set_up) [
  | inl (_, e) ↦ inl (rw (e, attach) (refl, refl, refl, refl, refl))
  | inr (why, e) ↦
      inr (why, rw (e, attach) (refl, refl, without_self self c.connections, refl, refl))
]

new_consuming-Constructs :
    (o : Outcomes) (self : ℕ) (c : DBusConnection)
    → referent c ≡ none
    → Constructs self c (new_consuming o self c)
unfolding close_and_unref new_consuming attach
new_consuming-Constructs o self c r = elim (Result-cases o.main_loop) [
  | inr (x, m) ↦ inr (x, rw (r, m, new_consuming) (refl, refl, refl, refl, refl))
  | inl (has, m) ↦ elim (Bool-cases (o.has_object && o.has_members && o.has_slot)) [
    | inr f ↦ inr (memory_error, rw (r, m, f, new_consuming) (refl, refl, refl, refl, refl))
    | inl t ↦
        let eq : new_consuming o self c ≡ attach o has self c = rw (r, m, t, new_consuming) refl in
        rw eq (attach-Constructs o has self c)
  ]
]

-- What `NewForBus` may end in, from the connection that there was before: the Connection, which holds the
-- only reference to an open connection; or an exception, with the connection of before untouched, or no
-- reference left to the new one. That has been closed, except where there is no memory to hand it over.
abbrev pub Made : ℕ → DBusConnection × Result ℕ → Type 0
Made self r =
    (r.1 ≡ ok self)
    × (r.0.refs ≡ 1)
    × (r.0.connections ≡ self ∷ [])
    × (r.0.wrappers ≡ 0)
    × (r.0.closed ≡ false)

abbrev pub Released : Bool → Exception → DBusConnection × Result ℕ → Type 0
Released handed e r =
    (r.1 ≡ err e)
    × (r.0.refs ≡ 0)
    × (r.0.connections ≡ [])
    × (r.0.wrappers ≡ 0)
    × (r.0.closed ≡ handed)

abbrev pub Ends : Bool → ℕ → DBusConnection → DBusConnection × Result ℕ → Type 0
Ends handed self c r =
    Made self r
    ⊎ ((e : Exception) × (r.1 ≡ err e) × (r.0 ≡ c))
    ⊎ ((e : Exception) × Released handed e r)

nobody_alive : (c : DBusConnection) → c.slot ≡ none → referent c ≡ none
unfolding referent
nobody_alive c e = ground arith

handed_over-Ends :
    (o : Outcomes) (self : ℕ) (c : DBusConnection)
    → let (c', made) = new o self wrapper (unref_connection (wrap opened)) in
      Ends true self c (unwrap c', made)
unfolding new unwrap wrap unref_connection
handed_over-Ends o self c =
    let w : DBusConnection = record (unref_connection (wrap opened)) {
      refs = (unref_connection (wrap opened)).refs + 1;
    } in
    elim (new_consuming-Constructs o self w (nobody_alive w refl)) [
      | inl (made, refs, connections, wrappers, closed) ↦
          inl (made, omega (arith, refs), connections, omega (arith, wrappers), closed)
      | inr (e, dropped) ↦ inr (
          inr (
            e,
            (dropped.0, omega (arith, dropped.1), dropped.2, omega (arith, dropped.3), dropped.4),
          ))
    ]

new_for_type-Ends :
    (b : BusOutcomes) (o : Outcomes) (self : ℕ) (c : DBusConnection)
    → Ends (b.has_wrapper && b.has_arguments) self c (new_for_type b o self c)
unfolding new_for_type unref_connection wrap unwrap new referent
new_for_type-Ends b o self c = elim (Bool-cases b.has_private) [
  | inr missing ↦ inr (inl (dbus_exception, ground arith, ground arith))
  | inl private ↦ elim (Bool-cases b.has_wrapper) [
    | inr missing ↦
        inr (
          inr
            (memory_error, (ground arith, ground arith, ground arith, ground arith, ground arith)))
    | inl wrapped ↦ elim (Bool-cases b.has_arguments) [
      | inr missing ↦ inr (
          inr
            (memory_error, (ground arith, ground arith, ground arith, ground arith, ground arith)))
      | inl packed ↦
          let (c', made) = new o self wrapper (unref_connection (wrap opened)) in
          let eq : new_for_type b o self c ≡ (unwrap c', made) = ground arith in
          rw eq (rw (wrapped, packed) (handed_over-Ends o self c))
    ]
  ]
]

new_for_address-Ends :
    (b : BusOutcomes) (o : Outcomes) (self : ℕ) (opens : Bool) (c : DBusConnection)
    → Ends true self c (new_for_address b o self opens c)
unfolding new_for_address new dealloc close_and_unref
new_for_address-Ends b o self false c = inr (inl (dbus_exception, refl, refl))
new_for_address-Ends b o self true c =
    elim (new_consuming-Constructs o self opened (nobody_alive opened refl)) [
      | inl (made, refs, connections, wrappers, closed) ↦ elim (Bool-cases b.registers) [
        | inl registered ↦
            inl (
              rw (made, new_for_address)
                (rw registered (refl, refs, connections, wrappers, closed)))
        | inr refused ↦ inr (
            inr (
              dbus_exception,
              rw (made, new_for_address)
                  (rw refused
                    (refl, rw refs refl, rw connections (without_self self []), wrappers, refl)),
            ))
      ]
      | inr (e, dropped) ↦ inr (
          inr
            (e, rw (dropped.0, new_for_address) (refl, dropped.1, dropped.2, dropped.3, dropped.4)))
    ]

-- Whether the LibDBusConnection and the arguments that a well-known bus takes can be allocated.
abbrev pub handed_over : BusOutcomes → BusArgument → Bool
handed_over b (bus_address opens) = true
handed_over b _ = b.has_wrapper && b.has_arguments

-- Whatever `NewForBus` is given and however its parts come out: it makes a Connection that holds the only
-- reference to an open connection, with no LibDBusConnection left; or it raises an exception without having
-- opened a connection; or it raises one, and no reference is left to the connection that it opened. That
-- connection has been closed then, unless a LibDBusConnection or its tuple could not be allocated: then it
-- is left open.
pub new_for_bus-Ends :
    (b : BusOutcomes) (o : Outcomes) (self : ℕ) (first : BusArgument) (c : DBusConnection)
    → Ends (handed_over b first) self c (new_for_bus b o self first c)
unfolding new_for_bus
new_for_bus-Ends b o self default_bus c = new_for_type-Ends b o self c
new_for_bus-Ends b o self (bus_address opens) c = new_for_address-Ends b o self opens c
new_for_bus-Ends b o self (bus_type (err e)) c = inr (inl (e, refl, refl))
new_for_bus-Ends b o self (bus_type (ok type)) c = elim (Bool-cases (known_bus type)) [
  | inl known ↦ rw known (new_for_type-Ends b o self c)
  | inr unknown ↦ rw unknown (inr (inl (value_error, refl, refl)))
]
new_for_bus-Ends b o self no_bus c = inr (inl (type_error, refl, refl))
