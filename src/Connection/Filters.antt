-- ===== src/Connection/Filters.antt =====
-- Message filters: `add_message_filter`, `remove_message_filter` and `_filter_message` of
-- _dbus_bindings/conn-methods.c. libdbus holds a pointer to a callable and no reference; the list
-- `filters` of the Connection holds the reference.
use mathlib.Core.List.{append_assoc}
use python_dbus.Connection.Handle.{
  HandlerResult, not_yet_handled, need_memory, Returned, handle_message,
}
use python_dbus.Prelude.{
  ℕ, ◌+◌, ◌<◌, Bool, true, false, not, ◌&&◌, Option, none, some, List, [], ◌∷◌, ◌++◌, ◌≡◌, ◌≢◌, ◌↔◌,
  arith, All, Option-cases, inl, inr, ◌⊎◌, ◌==◌, if◌then◌else◌,
}
use python_dbus.Python.{assertion_error, value_error, memory_error, Result, ok, err}

-- A callable has an identity, and a class of objects that Python's `==` takes for equal to it (two
-- bound methods of one object are equal and need not be identical).
pub record Callable : Type 0 where
  pub id : ℕ
  pub equals : ℕ

-- The callables that are this very object.
abbrev pub count_id : ℕ → List Callable → ℕ
count_id i [] = 0
count_id i (x ∷ xs) = (if x.id == i then 1 else 0) + count_id i xs

-- The callables that are equal to one of this class.
abbrev pub count_equal : ℕ → List Callable → ℕ
count_equal e [] = 0
count_equal e (x ∷ xs) = (if x.equals == e then 1 else 0) + count_equal e xs

-- `list.remove`: the first equal item goes; `none` is a ValueError.
unfoldable pub remove : Callable → List Callable → Option (List Callable)
remove c [] = none
remove c (x ∷ xs) =
    let rest = remove c xs in
    if x.equals == c.equals then some xs else elim rest [ none ↦ none | some ys ↦ some (x ∷ ys) ]

-- What is left of the list when the outcome of `remove` is ignored.
unfoldable pub remove_quietly : Callable → List Callable → List Callable
remove_quietly c xs = elim (remove c xs) [ none ↦ xs | some ys ↦ ys ]

-- `Connection_add_message_filter`. The flags: `self->conn` is not NULL, and
-- `dbus_connection_add_filter` has the memory.
unfoldable pub add_message_filter :
    Bool → Bool → Callable → List Callable → List Callable × Result (Unit {0})
add_message_filter has_conn added c filters =
    if not has_conn
    then (filters, err assertion_error)
    else let filters' = filters ++ (c ∷ []) in
      if added then (filters', ok tt) else (remove_quietly c filters', err memory_error)

-- `Connection_remove_message_filter`; with `ok` libdbus has been told to remove this callable.
unfoldable pub remove_message_filter :
    Bool → Callable → List Callable → List Callable × Result (Unit {0})
remove_message_filter has_conn c filters =
    if not has_conn
    then (filters, err assertion_error)
    else elim (remove c filters) [ none ↦ (filters, err value_error) | some ys ↦ (ys, ok tt) ]

-- The loop of `_filter_message` over `filters`, for the pointer that libdbus hands back.
unfoldable pub find_filter : ℕ → List Callable → Option Callable
find_filter user_data [] = none
find_filter user_data (x ∷ xs) =
    let rest = find_filter user_data xs in if x.id == user_data then some x else rest

-- `_filter_message`: the result, and the callable that was called. The flags: the message object can
-- be allocated, and the weak reference still leads to the Connection.
unfoldable pub filter_message :
    Bool → Bool → (Callable → Returned) → List Callable → ℕ → HandlerResult × Option Callable
filter_message has_memory alive returns filters user_data =
    if not has_memory
    then (need_memory, none)
    else if not alive
    then (not_yet_handled, none)
    else elim (find_filter user_data filters) [
      | none ↦ (not_yet_handled, none)
      | some c ↦ ((handle_message (returns c)).0, some c)
    ]

find_filter_held :
    (i : ℕ) (xs : List Callable) (c : Callable)
    → find_filter i xs ≡ some c
    → (c.id ≡ i) × (0 < count_id i xs)
unfolding find_filter
find_filter_held i [] c h = cc
find_filter_held i (x ∷ xs) c h = ground (arith, find_filter_held i xs c)

find_filter_finds : (i : ℕ) (xs : List Callable) → 0 < count_id i xs → find_filter i xs ≢ none
unfolding find_filter
find_filter_finds i [] h = absurd (omega arith)
find_filter_finds i (x ∷ xs) h = ground (arith, find_filter_finds i xs)

-- Whatever pointer libdbus hands back, only the very object that the pointer stands for is called,
-- and only while the list of filters holds it.
pub filter_message_held :
    (has_memory alive : Bool) (returns : Callable → Returned) (filters : List Callable)
    (user_data : ℕ) (c : Callable)
    → (filter_message has_memory alive returns filters user_data).1 ≡ some c
    → (c.id ≡ user_data) × (0 < count_id user_data filters)
unfolding filter_message
filter_message_held m a returns filters i c h = ground (arith, find_filter_held i filters c)

remove-none :
    (c : Callable) (xs : List Callable) → (remove c xs ≡ none) ↔ (count_equal c.equals xs ≡ 0)
unfolding remove
remove-none c [] = ground arith
remove-none c (x ∷ xs) = ground (arith, remove-none c xs)

-- A filter that is held is called, and its return decides the result.
pub filter_message_calls :
    (returns : Callable → Returned) (filters : List Callable) (user_data : ℕ)
    → 0 < count_id user_data filters
    → (c : Callable) × (c.id ≡ user_data)
      × (filter_message true true returns filters user_data
          ≡ ((handle_message (returns c)).0, some c))
unfolding filter_message
filter_message_calls returns filters i h = elim (Option-cases (find_filter i filters)) [
  | inl e ↦ absurd (find_filter_finds i filters h e)
  | inr (c, e) ↦ (c, (find_filter_held i filters c e).0, rw e)
]

remove_first :
    (c x : Callable) (before after : List Callable)
    → count_equal c.equals before ≡ 0
    → x.equals ≡ c.equals
    → remove c (before ++ (x ∷ after)) ≡ some (before ++ after)
unfolding remove
remove_first c x [] after n e = ground arith
remove_first c x (y ∷ before) after n e = ground (arith, remove_first c x before after)

-- In a list, an object that is equal to this one is this very object.
abbrev pub OnlyItself : Callable → List Callable → Type 0
OnlyItself c = All (λ x. ((x.equals == c.equals) && not (x.id == c.id)) ≡ false)

count_id-append :
    (i : ℕ) (xs ys : List Callable) → count_id i (xs ++ ys) ≡ count_id i xs + count_id i ys
count_id-append i [] ys = omega arith
count_id-append i (x ∷ xs) ys = omega (arith, count_id-append i xs ys)

count_id-remove :
    (c : Callable) (i : ℕ) (xs ys : List Callable)
    → OnlyItself c xs
    → remove c xs ≡ some ys
    → count_id i ys + (if c.id == i then 1 else 0) ≡ count_id i xs
unfolding remove
count_id-remove c i [] ys o h = cc
count_id-remove c i (x ∷ xs) ys o h = elim (Option-cases (remove c xs)) [
  | inl e ↦ ground arith
  | inr (zs, e) ↦ ground (arith, count_id-remove c i xs zs o.1 e)
]

count_equal-remove :
    (c : Callable) (xs ys : List Callable)
    → remove c xs ≡ some ys
    → count_equal c.equals ys + 1 ≡ count_equal c.equals xs
unfolding remove
count_equal-remove c [] ys h = cc
count_equal-remove c (x ∷ xs) ys h = elim (Option-cases (remove c xs)) [
  | inl e ↦ ground arith
  | inr (zs, e) ↦ ground (arith, count_equal-remove c xs zs e)
]

OnlyItself-concat :
    (c : Callable) (xs : List Callable) → OnlyItself c xs → OnlyItself c (xs ++ c ∷ [])
OnlyItself-concat c [] o = ground arith
OnlyItself-concat c (x ∷ xs) o = (o.0, OnlyItself-concat c xs o.1)

count_equal-concat : (c : Callable) (xs : List Callable) → 0 < count_equal c.equals (xs ++ c ∷ [])
count_equal-concat c [] = ground arith
count_equal-concat c (x ∷ xs) = omega (arith, count_equal-concat c xs)

-- Adding a filter that libdbus has no memory for leaves every object in the list as often as before,
-- where no other object in it is equal to the new one.
pub add_failed-count_id :
    (c : Callable) (i : ℕ) (filters : List Callable)
    → OnlyItself c filters
    → count_id i (add_message_filter true false c filters).0 ≡ count_id i filters
unfolding add_message_filter remove_quietly
add_failed-count_id c i filters o =
    let longer = filters ++ (c ∷ []) in
    elim (Option-cases (remove c longer)) [
      | inl e ↦ absurd (omega (arith, (remove-none c longer).0 e, count_equal-concat c filters))
      | inr (ys, e) ↦
          rw (e, remove_quietly)
            (omega (
              arith,
              count_id-remove c i longer ys (OnlyItself-concat c filters o) e,
              count_id-append i filters (c ∷ []),
            ))
    ]

-- Where the list holds an object that is equal to the new one and is another, the first such object
-- is taken out instead, although libdbus still has a pointer to it.
pub add_failed_drops_equal :
    (c x : Callable) (before after : List Callable)
    → count_equal c.equals before ≡ 0
    → x.equals ≡ c.equals
    → x.id ≢ c.id
    → (add_message_filter true false c (before ++ (x ∷ after))).0 ≡ before ++ (after ++ (c ∷ []))
unfolding add_message_filter remove_quietly
add_failed_drops_equal c x before after n e ne =
    let gone : remove c ((before ++ (x ∷ after)) ++ (c ∷ []))
        ≡ some (before ++ (after ++ (c ∷ []))) =
      rw append_assoc (remove_first c x before (after ++ c ∷ []) n e) in
    rw (gone, remove_quietly)

-- Removing a filter takes out one callable that is equal to it, or raises where there is none and
-- changes nothing.
pub remove_message_filter_counts :
    (c : Callable) (filters : List Callable)
    → let r = remove_message_filter true c filters in
      ((r.1 ≡ ok tt) × (count_equal c.equals r.0 + 1 ≡ count_equal c.equals filters))
      ⊎ ((r.1 ≡ err value_error) × (r.0 ≡ filters) × (count_equal c.equals filters ≡ 0))
unfolding remove_message_filter
remove_message_filter_counts c filters = elim (Option-cases (remove c filters)) [
  | inl e ↦
      inr
        (rw (e, remove_message_filter), rw (e, remove_message_filter), (remove-none c filters).0 e)
  | inr (ys, e) ↦ inl (
    rw (e, remove_message_filter),
    rw (e, remove_message_filter) (count_equal-remove c filters ys e),
  )
]
