-- ===== src/Connection/Life/Owned.antt =====
-- Who owns a DBusConnection, in _dbus_bindings/conn.c and libdbusconn.c.
use python_dbus.Connection.Life.{
  DBusConnection, alive, without, referent, existing, close_and_unref, dealloc, Outcomes, attach,
  new_consuming, wrapper, address, opened, new, close, wrap, unwrap,
}
use python_dbus.Prelude.{
  ℕ, suc, ◌+◌, ◌-◌, ◌<◌, ◌≤◌, Bool, true, false, ◌&&◌, Option, none, some, List, [], ◌∷◌, ◌≡◌, refl,
  ap, sym, ◌∙◌, subst, inl, inr, Bool-cases, arith, length, if◌then◌else◌,
}
use python_dbus.Python.{Exception, Result-cases, ok, err}

-- No Connection is alive, or only the one that the weak reference leads to.
abbrev pub IsSingle : Option ℕ → List ℕ → Type 0
IsSingle slot [] = Unit
IsSingle none (i ∷ is) = ⊥
IsSingle (some j) (i ∷ is) = (j ≡ i) × (is ≡ [])

-- The references are those of the holders, and of so many that nobody holds any more.
abbrev pub IsOwned : ℕ → DBusConnection → Type 0
IsOwned lost c =
    (c.refs ≡ length c.connections + c.wrappers + c.others + lost) × IsSingle c.slot c.connections

-- What a program does with the connection. A LibDBusConnection that is given to the constructor is alive.
pub data Step : ℕ → DBusConnection → ℕ → DBusConnection → Type 0 where
  constructs :
      {n : ℕ} {c : DBusConnection} (o : Outcomes) (self : ℕ)
      → 0 < c.wrappers
      → referent c ≡ none
      → Step n c n (new o self wrapper c).0
  constructs_again :
      {n : ℕ} {c : DBusConnection} (o : Outcomes) (self i : ℕ)
      → 0 < c.wrappers
      → referent c ≡ some i
      → Step n c (suc n) (new o self wrapper c).0
  destroys :
      {n : ℕ} {c : DBusConnection} (self : ℕ)
      → alive self c.connections ≡ true
      → Step n c n (dealloc self c)
  closes : {n : ℕ} {c : DBusConnection} → Step n c n (close c)
  wraps : {n : ℕ} {c : DBusConnection} → 0 < c.refs → Step n c n (wrap c)
  unwraps : {n : ℕ} {c : DBusConnection} → 0 < c.wrappers → Step n c n (unwrap c)
  refers :
      {n : ℕ} {c : DBusConnection}
      → 0 < c.refs
      → Step n c n (record c { refs = c.refs + 1; others = c.others + 1 })
  unrefers :
      {n : ℕ} {c : DBusConnection}
      → 0 < c.others
      → Step n c n (record c { refs = c.refs - 1; others = c.others - 1 })

-- The connection was opened for a Connection, which the constructor returned.
pub data Reach : ℕ → DBusConnection → Type 0 where
  made :
      {c : DBusConnection} (o : Outcomes) (self i : ℕ)
      → new o self (address true) opened ≡ (c, ok i)
      → Reach 0 c
  next : {n m : ℕ} {c d : DBusConnection} → Reach n c → Step n c m d → Reach m d

referent-none :
    (c : DBusConnection) → IsSingle c.slot c.connections → referent c ≡ none → c.connections ≡ []
unfolding referent
referent-none c s h = none_alive c.slot c.connections s h
  where
    none_alive :
        (slot : Option ℕ) (is : List ℕ)
        → IsSingle slot is
        → (elim slot [ none ↦ none | some i ↦ if alive i is then some i else none ]) ≡ none
        → is ≡ []
    none_alive slot [] s h = refl
    none_alive none (i ∷ is) s h = absurd s
    none_alive (some j) (i ∷ is) s h = ground arith

-- A reference more than the holders have.
abbrev IsOwnedMore : ℕ → DBusConnection → Type 0
IsOwnedMore lost c =
    (c.refs ≡ length c.connections + c.wrappers + c.others + lost + 1)
    × IsSingle c.slot c.connections

close_and_unref-IsOwned :
    (lost : ℕ) (c : DBusConnection) → IsOwnedMore lost c → IsOwned lost (close_and_unref c)
unfolding close_and_unref
close_and_unref-IsOwned lost c h = (omega (arith, h.0), h.1)

without_self : (i : ℕ) (is : List ℕ) → without i (i ∷ is) ≡ is
without_self i is = ground arith

-- The destruction of the only Connection.
dealloc_made :
    (lost : ℕ) (self : ℕ) (c : DBusConnection)
    → IsOwnedMore lost c
    → c.connections ≡ []
    → IsOwned lost
        (dealloc self (record c { slot = some self; connections = self ∷ c.connections }))
unfolding dealloc close_and_unref
dealloc_made lost self c h e =
    rw (without_self self c.connections, e) (ground (arith, ap length e, h.0), tt)

attach-IsOwned :
    (o : Outcomes) (m : Bool) (self lost : ℕ) (c : DBusConnection)
    → IsOwnedMore lost c
    → c.connections ≡ []
    → IsOwned lost (attach o m self c).0
unfolding attach
attach-IsOwned o true self lost c h e = elim (Result-cases o.set_up) [
  | inl (x, u) ↦ rw u (omega (arith, h.0), (refl, e))
  | inr (x, u) ↦ rw u (dealloc_made lost self c h e)
]
attach-IsOwned o false self lost c h e = (omega (arith, h.0), (refl, e))

new_consuming-IsOwned :
    (o : Outcomes) (self lost : ℕ) (c : DBusConnection)
    → IsOwnedMore lost c
    → referent c ≡ none
    → IsOwned lost (new_consuming o self c).0
unfolding new_consuming
new_consuming-IsOwned o self lost c h none_alive = elim (Result-cases o.main_loop) [
  | inr (e, m) ↦ rw (none_alive, m, new_consuming) (close_and_unref-IsOwned lost c h)
  | inl (has, m) ↦ elim (Bool-cases (o.has_object && o.has_members && o.has_slot)) [
    | inr f ↦ rw (none_alive, m, f, new_consuming) (close_and_unref-IsOwned lost c h)
    | inl t ↦
        rw (none_alive, m, t, new_consuming)
          (attach-IsOwned o has self lost c h (referent-none c h.1 none_alive))
  ]
]

single_alive :
    (self : ℕ) (slot : Option ℕ) (is : List ℕ)
    → IsSingle slot is
    → alive self is ≡ true
    → is ≡ self ∷ []
single_alive self slot [] s a = absurd (cc a)
single_alive self none (i ∷ is) s a = absurd s
single_alive self (some j) (i ∷ []) s a = ground arith
single_alive self (some j) (i ∷ k ∷ is) s a = absurd (cc s.1)

dealloc-IsOwned :
    (lost self : ℕ) (c : DBusConnection)
    → IsOwned lost c
    → alive self c.connections ≡ true
    → IsOwned lost (dealloc self c)
unfolding dealloc close_and_unref
dealloc-IsOwned lost self c h a =
    let e = single_alive self c.slot c.connections h.1 a in
    rw (e, without_self self []) (ground (arith, ap length e, h.0), tt)

pub Step-IsOwned : {n m : ℕ} {c d : DBusConnection} → Step n c m d → IsOwned n c → IsOwned m d
unfolding new close wrap unwrap referent new_consuming
Step-IsOwned {n} {m} {c} (constructs o self w r) h =
    new_consuming-IsOwned o self n (record c { refs = c.refs + 1 }) (omega (arith, h.0), h.1) r
Step-IsOwned {n} {m} {c} (constructs_again o self i w r) h =
    rw (r, new_consuming) (omega (arith, h.0), h.1)
Step-IsOwned {n} {m} {c} (destroys self a) h = dealloc-IsOwned n self c h a
Step-IsOwned closes h = h
Step-IsOwned (wraps p) h = (omega (arith, h.0), h.1)
Step-IsOwned (unwraps p) h = (omega (arith, h.0), h.1)
Step-IsOwned (refers p) h = (omega (arith, h.0), h.1)
Step-IsOwned (unrefers p) h = (omega (arith, h.0), h.1)

Reach-IsOwned : {n : ℕ} {c : DBusConnection} → Reach n c → IsOwned n c
unfolding new referent
Reach-IsOwned (made {c} o self i e) =
    subst (IsOwned 0) {x = (new_consuming o self opened).0} {y = c} (ap (λ r. r.0) e)
      (new_consuming-IsOwned o self 0 opened (omega arith, tt) refl)
Reach-IsOwned (next r st) = Step-IsOwned st (Reach-IsOwned r)

alive-referent :
    (c : DBusConnection) (self : ℕ)
    → IsSingle c.slot c.connections
    → alive self c.connections ≡ true
    → referent c ≡ some self
unfolding referent
alive-referent c self s a = found c.slot c.connections s a
  where
    found :
        (slot : Option ℕ) (is : List ℕ)
        → IsSingle slot is
        → alive self is ≡ true
        → (elim slot [ none ↦ none | some i ↦ if alive i is then some i else none ]) ≡ some self
    found slot [] s a = absurd (cc a)
    found none (i ∷ is) s a = absurd s
    found (some j) (i ∷ []) s a = ground arith
    found (some j) (i ∷ k ∷ is) s a = absurd (cc s.1)

-- Whatever a program does with the connection that was opened for a Connection: it has one reference
-- for each holder, and one more for each call of the constructor that was refused because a Connection
-- was alive; and at most one Connection is alive, which is the one that the callbacks find.
pub references_owned :
    {lost : ℕ} {c : DBusConnection}
    → Reach lost c
    → (c.refs ≡ length c.connections + c.wrappers + c.others + lost)
      × (length c.connections ≤ 1)
      × ((self : ℕ) → alive self c.connections ≡ true → existing c ≡ ok self)
unfolding existing
references_owned {lost} {c} r =
    let h : IsOwned lost c = Reach-IsOwned r in
    (
      h.0,
      at_most_one c.slot c.connections h.1,
      λ self a. rw (alive-referent c self h.1 a, existing),
    )
  where
    at_most_one : (slot : Option ℕ) (is : List ℕ) → IsSingle slot is → length is ≤ 1
    at_most_one slot [] s = omega arith
    at_most_one none (i ∷ is) s = absurd s
    at_most_one (some j) (i ∷ is) s = ground (arith, ap length s.1)

failed_attach :
    (o : Outcomes) (m : Bool) (self : ℕ) (c : DBusConnection) (e : Exception)
    → (attach o m self c).1 ≡ err e
    → ((attach o m self c).0.closed ≡ true) × ((attach o m self c).0.refs ≡ c.refs - 1)
unfolding attach dealloc close_and_unref
failed_attach o true self c e h = ground arith
failed_attach o false self c e h = cc

failed_new_consuming :
    (o : Outcomes) (self : ℕ) (c : DBusConnection) (e : Exception)
    → referent c ≡ none
    → (new_consuming o self c).1 ≡ err e
    → ((new_consuming o self c).0.closed ≡ true) × ((new_consuming o self c).0.refs ≡ c.refs - 1)
unfolding new_consuming close_and_unref attach
failed_new_consuming o self c e r h = elim (Result-cases o.main_loop) [
  | inr (x, m) ↦ rw (r, m, new_consuming) (refl, refl)
  | inl (has, m) ↦ elim (Bool-cases (o.has_object && o.has_members && o.has_slot)) [
    | inr f ↦ rw (r, m, f, new_consuming) (refl, refl)
    | inl t ↦
        let eq : new_consuming o self c ≡ attach o has self c = rw (r, m, t, new_consuming) refl in
        rw eq (failed_attach o has self c e (ap (λ x. x.1) (sym eq) ∙ h))
  ]
]

-- A constructor call on a LibDBusConnection whose connection has no Connection alive, and which
-- raises, gives up the reference that it took, and closes the connection for all who hold it.
pub failed_closes :
    (o : Outcomes) (self : ℕ) (c : DBusConnection) (e : Exception)
    → referent c ≡ none
    → (new o self wrapper c).1 ≡ err e
    → ((new o self wrapper c).0.closed ≡ true) × ((new o self wrapper c).0.refs ≡ c.refs)
unfolding new referent
failed_closes o self c e r h =
    let (closed, refs) = failed_new_consuming o self (record c { refs = c.refs + 1 }) e r h in
    (closed, omega (arith, refs))
