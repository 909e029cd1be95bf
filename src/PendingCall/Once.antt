-- ===== src/PendingCall/Once.antt =====
-- The handler of a pending call is called at most once, in whatever order threads run the notify
-- function of _dbus_bindings/pending-call.c.
use python_dbus.PendingCall.{Call, claim, deliver, finish, notify}
use python_dbus.Prelude.{
  ℕ, ◌+◌, ◌≤◌, ◌<◌, Bool, true, Option, none, some, List, [], ◌∷◌, ◌++◌, ◌≡◌, refl, ap, Bool-cases,
  Option-cases, inl, inr, arith, length, length-append,
}

-- Threads inside the notify function, past the critical section, each with what it took.
pub record Threads : Type 0 where
  pub call : Call
  pub running : List (Option ℕ)

-- The GIL makes the critical section one step. Behind it a handler may release the GIL, so the
-- rest is another step; the reply may come at any time.
pub data Step : Threads → Threads → Type 0 where
  enter :
      (w : Threads)
      → Step w (record w { call = (claim w.call).1; running = (claim w.call).0 ∷ w.running })
  leave :
      (w : Threads) (consumed : Bool) (before after : List (Option ℕ)) (taken : Option ℕ)
      → w.running ≡ before ++ (taken ∷ after)
      → Step w (record w { call = finish consumed taken w.call; running = before ++ after })
  complete :
      (w : Threads) (msg : ℕ) → Step w (record w { call = record (w.call) { reply = some msg } })

pub data Reach (w : Threads) : Threads → Type 0 where
  start : Reach w w
  next : {u v : Threads} → Reach w u → Step u v → Reach w v

abbrev pub holds_handler : Option ℕ → ℕ
holds_handler none = 0
holds_handler (some h) = 1

abbrev pub count_handlers : List (Option ℕ) → ℕ
count_handlers [] = 0
count_handlers (t ∷ ts) = holds_handler t + count_handlers ts

pub count_handlers-append :
    (xs ys : List (Option ℕ)) → count_handlers (xs ++ ys) ≡ count_handlers xs + count_handlers ys
count_handlers-append [] ys = omega arith
count_handlers-append (x ∷ xs) ys = omega (arith, count_handlers-append xs ys)

-- The handler is in one place at most: in the list, with one thread, or called.
pub record IsOnce (others : ℕ) (w : Threads) : Type 0 where
  pub once : holds_handler w.call.slot + count_handlers w.running + length w.call.calls ≤ 1
  -- The references to it are those of the list and of the threads, and `others` from outside.
  pub counted : w.call.handler_refs ≡ others + holds_handler w.call.slot + count_handlers w.running

pub one_more : {A : Type 0} (xs : List A) (x : A) → length (xs ++ x ∷ []) ≡ length xs + 1
one_more xs x = length-append xs (x ∷ [])

deliver_adds :
    (consumed : Bool) (h : ℕ) (s : Call)
    → (length (deliver consumed h s).calls ≤ length s.calls + 1)
      × ((deliver consumed h s).slot ≡ s.slot)
      × ((deliver consumed h s).handler_refs ≡ s.handler_refs)
unfolding deliver
deliver_adds consumed h s = elim (Option-cases s.reply) [
  | inl e ↦ rw e (omega arith, refl, refl)
  | inr (m, e) ↦ elim (Bool-cases consumed) [
    | inl c ↦ rw (e, c) (omega (arith, one_more s.calls (h, m)), refl, refl)
    | inr c ↦ rw (e, c) (omega arith, refl, refl)
  ]
]

Step-IsOnce : {others : ℕ} {u v : Threads} → Step u v → IsOnce others u → IsOnce others v
unfolding claim finish
Step-IsOnce (enter w) i = ground arith
Step-IsOnce (leave w consumed before after none e) i = ground (
  arith,
  ap count_handlers e,
  count_handlers-append before (none ∷ after),
  count_handlers-append before after,
)
Step-IsOnce (leave w consumed before after (some h) e) i = ground (
  arith,
  ap count_handlers e,
  count_handlers-append before (some h ∷ after),
  count_handlers-append before after,
  deliver_adds consumed h w.call,
)
Step-IsOnce (complete w msg) i = record { once = i.once; counted = i.counted }

Reach-IsOnce : {others : ℕ} {u v : Threads} → Reach u v → IsOnce others u → IsOnce others v
Reach-IsOnce start i = i
Reach-IsOnce (next r s) i = Step-IsOnce s (Reach-IsOnce r i)

-- Before the first notification: the list holds the handler, and no thread is inside.
abbrev pub IsFresh : ℕ → Threads → Type 0
IsFresh others w =
    (w.call.calls ≡ [])
    × (w.running ≡ [])
    × (w.call.handler_refs ≡ others + holds_handler w.call.slot)

IsFresh-IsOnce : (others : ℕ) (w : Threads) → IsFresh others w → IsOnce others w
IsFresh-IsOnce others w f = ground arith

-- From a list that holds the handler, or None, with no thread inside the notify function and nothing
-- called yet: however threads interleave there, and however often libdbus calls it, the handler is
-- called at most once.
pub calls_at_most_once :
    (others : ℕ) {w v : Threads} → IsFresh others w → Reach w v → length v.call.calls ≤ 1
calls_at_most_once others {w} f r =
    let i = Reach-IsOnce r (IsFresh-IsOnce others w f) in omega arith

-- From such a start, when the handler has been taken and no thread is inside the notify function, the
-- extension module holds no reference to it any more.
pub handler_released :
    (others : ℕ) {w v : Threads}
    → IsFresh others w
    → Reach w v
    → v.call.slot ≡ none
    → v.running ≡ []
    → v.call.handler_refs ≡ others
handler_released others {w} {v} f r s e =
    let i = Reach-IsOnce r (IsFresh-IsOnce others w f) in ground arith

-- A complete call whose handler is still in the list, where the message object can be made: notifying
-- calls that handler with the reply, once, warns of nothing, and a second notification calls nothing.
pub notify_delivers :
    (s : Call) (handler msg : ℕ) (consumed : Bool)
    → s.slot ≡ some handler
    → s.reply ≡ some msg
    → ((notify true s).calls ≡ s.calls ++ ((handler, msg) ∷ []))
      × ((notify consumed (notify true s)).calls ≡ s.calls ++ ((handler, msg) ∷ []))
      × ((notify true s).warnings ≡ s.warnings)
unfolding notify claim finish deliver
notify_delivers s handler msg consumed e r = ground arith

-- A notification that finds None in the list drops a reference to None that it does not own: the
-- list still holds None, and no reference was taken.
pub notify_overreleases_none :
    (s : Call) (consumed : Bool)
    → s.slot ≡ none
    → 0 < s.none_refs
    → ((notify consumed s).none_refs + 1 ≡ s.none_refs)
      × ((notify consumed s).slot ≡ none)
      × ((notify consumed s).calls ≡ s.calls)
      × ((notify consumed s).handler_refs ≡ s.handler_refs)
unfolding notify claim finish deliver
notify_overreleases_none s consumed e h = ground arith
