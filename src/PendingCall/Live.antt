-- ===== src/PendingCall/Live.antt =====
-- The handler of a pending call gets its reply, in _dbus_bindings/pending-call.c: threads inside the notify
-- function cannot block one another, and the handler is not lost between them.
use python_dbus.PendingCall.Once.{
  Threads, holds_handler, count_handlers, count_handlers-append, one_more,
}
use python_dbus.PendingCall.{Call, claim, deliver, finish}
use python_dbus.Prelude.{
  ℕ, ◌+◌, true, Option, none, some, List, [], ◌∷◌, ◌++◌, ◌≡◌, refl, ap, ◌∙◌, arith, length,
}

-- A thread that has the handler finds the reply.
abbrev pub FindsReply : Option ℕ → Call → Type 0
FindsReply none s = Unit
FindsReply (some h) s = (m : ℕ) × (s.reply ≡ some m)

-- The steps of threads as in `Once`, where the notify function is called for a complete call only, and
-- message objects can be made.
pub data Served : Threads → Threads → Type 0 where
  enter :
      (w : Threads)
      → Served w (record w { call = (claim w.call).1; running = (claim w.call).0 ∷ w.running })
  leave :
      (w : Threads) (before after : List (Option ℕ)) (taken : Option ℕ)
      → w.running ≡ before ++ (taken ∷ after)
      → FindsReply taken w.call
      → Served w (record w { call = finish true taken w.call; running = before ++ after })
  complete :
      (w : Threads) (msg : ℕ) → Served w (record w { call = record (w.call) { reply = some msg } })

pub data Run (w : Threads) : Threads → Type 0 where
  start : Run w w
  next : {u v : Threads} → Run w u → Served u v → Run w v

Run-trans : {u v w : Threads} → Run u v → Run v w → Run u w
Run-trans r start = r
Run-trans r (next s t) = next (Run-trans r s) t

-- The handler is in the list, with a thread, or has been called: one of them, and once.
abbrev pub places : Threads → ℕ
places w = holds_handler w.call.slot + count_handlers w.running + length w.call.calls

Served-places : {u v : Threads} → Served u v → places v ≡ places u
unfolding claim finish deliver
Served-places (enter w) = ground arith
Served-places (leave w before after none e f) = ground (
  arith,
  ap count_handlers e,
  count_handlers-append before (none ∷ after),
  count_handlers-append before after,
)
Served-places (leave w before after (some h) e (m, found)) = ground (
  arith,
  ap count_handlers e,
  count_handlers-append before (some h ∷ after),
  count_handlers-append before after,
  one_more w.call.calls (h, m),
)
Served-places (complete w msg) = refl

Run-places : {u v : Threads} → Run u v → places v ≡ places u
Run-places start = refl
Run-places (next r s) = omega (arith, Served-places s, Run-places r)

-- Where a run can go on to, with the threads that are left.
abbrev Leads : Threads → List (Option ℕ) → Type 0
Leads w ts = (v : Threads) × Run w v × (v.running ≡ ts) × (v.call.slot ≡ w.call.slot)

-- The first thread goes on to the end, after another reply where it has the handler.
leaves : (t : Option ℕ) (ts : List (Option ℕ)) (w : Threads) → w.running ≡ t ∷ ts → Leads w ts
unfolding finish deliver
leaves none ts w e = (
  record w { call = finish true none w.call; running = ts },
  next start (leave w [] ts none e tt),
  refl,
  refl,
)
leaves (some h) ts w e =
    let w' : Threads = record w { call = record (w.call) { reply = some 0 } } in
    (
      record w' { call = finish true (some h) w'.call; running = ts },
      next (next start (complete w 0)) (leave w' [] ts (some h) e (0, refl)),
      refl,
      refl,
    )

drains : (ts : List (Option ℕ)) (w : Threads) → w.running ≡ ts → Leads w []
drains [] w e = (w, start, e, refl)
drains (t ∷ ts) w e =
    let (v, run, left, kept) = leaves t ts w e in
    let (u, run', empty, kept') = drains ts v left in (u, Run-trans run run', empty, kept' ∙ kept)

claim-none : (s : Call) → (claim s).1.slot ≡ none
unfolding claim
claim-none s = ground arith

-- From a list that holds the handler, with no thread inside the notify function and nothing called yet, where
-- the function is called for a complete call only and message objects can be made: however far threads have
-- come, they can go on until none is inside, and exactly one call has been made then.
pub handler_reached :
    (handler : ℕ) {w v : Threads}
    → w.call.slot ≡ some handler
    → w.running ≡ []
    → w.call.calls ≡ []
    → Run w v
    → (u : Threads) × Run v u × (u.running ≡ []) × (length u.call.calls ≡ 1)
handler_reached handler {w} {v} holds quiet fresh run =
    let v' : Threads = record v {
      call = (claim v.call).1;
      running = (claim v.call).0 ∷ v.running;
    } in
    let (u, rest, empty, kept) = drains v'.running v' refl in
    let on : Run v u = Run-trans (next start (enter v)) rest in
    let whole = Run-places (Run-trans run on) in
    let slot : u.call.slot ≡ none = kept ∙ claim-none v.call in
    (u, on, empty, ground (arith, ap length fresh))
