-- ===== src/Connection/Sending/Outcomes.antt =====
-- The timeouts and the outcomes of the methods of a Connection that send, in
-- _dbus_bindings/conn-methods.c.
use python_dbus.Connection.Sending.{
  int_max, Doubles, Sender, raise_if_fail, require_main_loop, send_with_reply, Queued, no_memory,
  disconnected, pending, await_reply, SendArguments, seconds, timeout_ms, check_send_with_reply,
  send_message_with_reply,
}
use python_dbus.Message.Accessors.{Argument, message, not_message, borrow, usable}
use python_dbus.PendingCall.Create.{creates, failed_releases}
use python_dbus.PendingCall.{
  pc_set, PcField, World, install, fill_list, Answers, consume_pending_call,
}
use python_dbus.Prelude.{
  ℕ, ◌≤◌, Bool, true, false, ◌&&◌, not, Option, none, some, [], ◌∷◌, ◌≡◌, ◌⊎◌, inl, inr, refl, ap,
  sym, ◌+◌, ◌∙◌, arith, Bool-cases, if◌then◌else◌,
}
use python_dbus.Python.Integer.{ℤ, pos, negsuc}
use python_dbus.Python.{
  assertion_error, type_error, runtime_error, value_error, memory_error, dbus_exception, Exception,
  Result, ok, err, ◌>>=◌,
}

module _ (d : Doubles) where
  -- A timeout that is no NaN: a negative one becomes -1, one beyond the limit raises ValueError, and any
  -- other becomes the number of milliseconds that C makes of it times 1000, which an int holds. A NaN is converted to an int all the same,
  -- to which C gives no meaning.
  pub timeout_ms_bounds :
      (t : d.Double)
      → ((d.is_nan t ≡ true) × (timeout_ms d t ≡ ok none))
        ⊎ ((d.is_nan t ≡ false)
            × (((d.less t d.zero_s ≡ true) × (timeout_ms d t ≡ ok (some (negsuc 0))))
                ⊎ ((d.less t d.zero_s ≡ false)
                    × (((d.less d.limit t ≡ true) × (timeout_ms d t ≡ err value_error))
                        ⊎ ((d.less d.limit t ≡ false)
                            × ((n : ℕ) × (d.to_int (d.times_1000 t) ≡ some (pos n))
                                × (timeout_ms d t ≡ ok (some (pos n)))
                                × (n ≤ int_max)))))))
  unfolding timeout_ms
  timeout_ms_bounds t = elim (Bool-cases (d.is_nan t)) [
    | inl nan ↦ inl (
      nan,
      rw (d.less_nan t d.zero_s nan) (
          rw (d.nan_less d.limit t nan)
            (ap ok (d.to_int-nan (d.times_1000 t) (d.times_nan t ∙ nan)))),
    )
    | inr real ↦ inr (
      real,
      elim (Bool-cases (d.less t d.zero_s)) [
        | inl low ↦ inl (low, rw low refl)
        | inr high ↦ elim (Bool-cases (d.less d.limit t)) [
          | inl long ↦ inr (high, inl (long, rw high (rw long refl)))
          | inr short ↦
              let (n, e, _, le) =
                d.to_int-between (d.times_1000 d.zero_s) (d.times_1000 t) (d.times_1000 d.limit) 0
                  int_max (d.times_nan t ∙ real) (d.times_mono d.zero_s t d.zero_s_real real high)
                  (d.times_mono t d.limit real d.limit_real short) d.to_int-zero d.to_int-limit in
              inr (high, inr (short, (n, e, rw high (rw short (ap ok e)), le)))
        ]
      ],
    )
  ]

-- The timeout in seconds: the argument, or the default.
abbrev pub given_or_default : (d : Doubles) → Option d.Double → d.Double
given_or_default d none = d.default
given_or_default d (some s) = s

-- The timeout that libdbus is given for one in seconds: -1 for a negative one, and otherwise what C makes
-- of it times 1000, where it is not beyond the limit.
abbrev pub Timed : (d : Doubles) → d.Double → Option ℤ → Type 0
Timed d s t =
    ((d.less s d.zero_s ≡ true) × (t ≡ some (negsuc 0)))
    ⊎ ((d.less s d.zero_s ≡ false) × (d.less d.limit s ≡ false) × (t ≡ d.to_int (d.times_1000 s)))

abbrev pub TooLong : (d : Doubles) → d.Double → Type 0
TooLong d s = (d.less s d.zero_s ≡ false) × (d.less d.limit s ≡ true)

-- Why `send_message_with_reply` raises an exception before it asks libdbus for anything.
abbrev pub Refuses : (d : Doubles) → Sender → Result (SendArguments d.Double) → Exception → Type 0
Refuses d c parsed e =
    ((c.has_conn ≡ false) × (e ≡ assertion_error))
    ⊎ (parsed ≡ err e)
    ⊎ ((args : SendArguments d.Double) × (parsed ≡ ok args)
        × (((args.needs_main_loop ≡ true) × (c.has_mainloop ≡ false) × (e ≡ runtime_error))
            ⊎ ((args.msg ≡ not_message) × (e ≡ type_error))
            ⊎ ((args.msg ≡ message none) × (e ≡ dbus_exception))
            ⊎ (TooLong d (given_or_default d args.timeout_s) × (e ≡ value_error))))

-- What the answer of libdbus makes of the result and of the pending call.
abbrev pub Awaits : Answers → ℕ → Queued → Option World × Result PcField → Type 0
Awaits a callable no_memory r = (r.0 ≡ none) × (r.1 ≡ err memory_error)
Awaits a callable disconnected r = (r.0 ≡ none) × (r.1 ≡ err dbus_exception)
Awaits a callable (pending w) r =
    (w' : World) × (r.0 ≡ some w')
    × (if creates a
        then (r.1 ≡ ok pc_set) × (w'.pc_refs ≡ w.pc_refs) × (w'.list_refs ≡ 1)
        else (r.1 ≡ err memory_error)
          × (w'.pc_refs ≡ 0)
          × (w'.cancelled ≡ true)
          × (w'.call.handler_refs ≡ w.call.handler_refs)
          × (w'.wild_reads ≡ w.wild_reads + (if a.self_ok then 1 else 0)))

-- The pending call that libdbus gives comes with one reference.
abbrev pub HandsOver : Queued → Type 0
HandsOver (pending w) = w.pc_refs ≡ 1
HandsOver _ = Unit

created_lem :
    (a : Answers) (callable : ℕ) (w : World)
    → creates a ≡ true
    → ((consume_pending_call a callable w).0 ≡ some pc_set)
      × ((consume_pending_call a callable w).1.pc_refs ≡ w.pc_refs)
      × ((consume_pending_call a callable w).1.list_refs ≡ 1)
unfolding consume_pending_call install fill_list
created_lem a callable w h = ground arith

await_reply-Awaits :
    (a : Answers) (callable : ℕ) (q : Queued)
    → HandsOver q
    → Awaits a callable q (await_reply a callable q)
unfolding await_reply
await_reply-Awaits a callable no_memory h = (refl, refl)
await_reply-Awaits a callable disconnected h = (refl, refl)
await_reply-Awaits a callable (pending w) h = elim (Bool-cases (creates a)) [
  | inl good ↦
      let (made, refs, lists) = created_lem a callable w good in
      (
        (consume_pending_call a callable w).1,
        refl,
        rw good (rw (made, await_reply) refl, refs, lists),
      )
  | inr bad ↦
      let (null, refs, cancelled, handler, _, wild) = failed_releases a callable w h bad in
      (
        (consume_pending_call a callable w).1,
        refl,
        rw bad (rw (null, await_reply) refl, refs, cancelled, handler, wild),
      )
]

-- The checks on what they look at.
check_cases :
    (needs has : Bool) (obj : Argument ℕ) (timeout : Result (Option ℤ))
    → let gate : Result (Unit {0}) =
        if needs then (if has then ok tt else err runtime_error) else ok tt in
      let r : Result (ℕ × Option ℤ) = (do _ ← gate; m ← borrow obj; t ← timeout; ok (m, t)) in
      ((e : Exception) × (r ≡ err e)
        × (((needs ≡ true) × (has ≡ false) × (e ≡ runtime_error))
            ⊎ ((obj ≡ not_message) × (e ≡ type_error))
            ⊎ ((obj ≡ message none) × (e ≡ dbus_exception))
            ⊎ (timeout ≡ err e)))
      ⊎ ((m : ℕ) × (t : Option ℤ) × (r ≡ ok (m, t))
          × (obj ≡ message (some m))
          × (timeout ≡ ok t)
          × ((needs && not has) ≡ false))
unfolding borrow usable
check_cases true false obj timeout = inl (runtime_error, refl, inl (refl, refl, refl))
check_cases false has not_message timeout = inl (type_error, refl, inr (inl (refl, refl)))
check_cases false has (message none) timeout =
    inl (dbus_exception, refl, inr (inr (inl (refl, refl))))
check_cases false has (message (some m)) (err e) = inl (e, refl, inr (inr (inr refl)))
check_cases false has (message (some m)) (ok t) = inr (m, t, refl, refl, refl, refl)
check_cases true true not_message timeout = inl (type_error, refl, inr (inl (refl, refl)))
check_cases true true (message none) timeout =
    inl (dbus_exception, refl, inr (inr (inl (refl, refl))))
check_cases true true (message (some m)) (err e) = inl (e, refl, inr (inr (inr refl)))
check_cases true true (message (some m)) (ok t) = inr (m, t, refl, refl, refl, refl)

module _ (d : Doubles) (c : Sender) where
  timeout_ms-err :
      (t : d.Double) (e : Exception) → timeout_ms d t ≡ err e → TooLong d t × (e ≡ value_error)
  unfolding timeout_ms
  timeout_ms-err t e h = ground arith

  timeout_ms-Timed : (s : d.Double) (t : Option ℤ) → timeout_ms d s ≡ ok t → Timed d s t
  unfolding timeout_ms
  timeout_ms-Timed s t h = elim (Bool-cases (d.less s d.zero_s)) [
    | inl low ↦ inl (low, ground arith)
    | inr high ↦ inr (high, ground arith, ground arith)
  ]

  seconds-given : (s : Option d.Double) → seconds d s ≡ given_or_default d s
  unfolding seconds
  seconds-given none = refl
  seconds-given (some s) = refl

  because :
      (args : SendArguments d.Double) (e : Exception)
      → (((args.needs_main_loop ≡ true) × (c.has_mainloop ≡ false) × (e ≡ runtime_error))
          ⊎ ((args.msg ≡ not_message) × (e ≡ type_error))
          ⊎ ((args.msg ≡ message none) × (e ≡ dbus_exception))
          ⊎ (timeout_ms d (seconds d args.timeout_s) ≡ err e))
      → (((args.needs_main_loop ≡ true) × (c.has_mainloop ≡ false) × (e ≡ runtime_error))
          ⊎ ((args.msg ≡ not_message) × (e ≡ type_error))
          ⊎ ((args.msg ≡ message none) × (e ≡ dbus_exception))
          ⊎ (TooLong d (given_or_default d args.timeout_s) × (e ≡ value_error)))
  because args e (inl x) = inl x
  because args e (inr (inl x)) = inr (inl x)
  because args e (inr (inr (inl x))) = inr (inr (inl x))
  because args e (inr (inr (inr x))) = inr (
      inr (
        inr (
          rw (sym (seconds-given args.timeout_s)) (timeout_ms-err (seconds d args.timeout_s) e x))))

  module _ (queued : Queued) (a : Answers) (args : SendArguments d.Double)
      (conn : c.has_conn ≡ true) where
    refused :
        (e : Exception)
        → check_send_with_reply d c args ≡ err e
        → send_message_with_reply d c (ok args) queued a ≡ ([], none, err e)
    unfolding send_message_with_reply raise_if_fail
    refused e stop = ground arith

    accepted :
        (m : ℕ) (t : Option ℤ)
        → check_send_with_reply d c args ≡ ok (m, t)
        → send_message_with_reply d c (ok args) queued a ≡ (
          send_with_reply m t ∷ [],
          (await_reply a args.reply_handler queued).0,
          (await_reply a args.reply_handler queued).1,
        )
    unfolding send_message_with_reply raise_if_fail
    accepted m t go = ground arith

  -- Whatever `send_message_with_reply` is given. Either it asks libdbus for nothing and raises an
  -- exception: AssertionError without a DBusConnection, what parsing the arguments raises, RuntimeError if a
  -- main loop is wanted and there is none, TypeError for an object that is no message, DBusException for a
  -- message that cannot be used, or ValueError for a timeout that is too long. Or none of the first four is
  -- the matter, and it asks libdbus once, to send that message with the timeout in milliseconds, -1 for a negative one; then it
  -- raises MemoryError or DBusException as libdbus has no memory or is disconnected, and of a pending call
  -- that comes with one reference it makes an object that owns it, with the list of the handler left to
  -- libdbus, or raises MemoryError, with the call cancelled and all references to it and the handler given
  -- up again; where the object had been allocated, its destructor has then followed a field that nothing
  -- had set, which C gives no meaning.
  pub send_message_with_reply_outcomes :
      (parsed : Result (SendArguments d.Double)) (queued : Queued) (a : Answers)
      → HandsOver queued
      → let (requests, world, result) = send_message_with_reply d c parsed queued a in
        ((e : Exception) × (requests ≡ [])
          × (world ≡ none)
          × (result ≡ err e)
          × Refuses d c parsed e)
        ⊎ ((args : SendArguments d.Double) × (m : ℕ) × (t : Option ℤ) × (parsed ≡ ok args)
            × (c.has_conn ≡ true)
            × (args.msg ≡ message (some m))
            × Timed d (given_or_default d args.timeout_s) t
            × ((args.needs_main_loop && not c.has_mainloop) ≡ false)
            × (requests ≡ send_with_reply m t ∷ [])
            × Awaits a args.reply_handler queued (world, result))
  unfolding send_message_with_reply raise_if_fail check_send_with_reply require_main_loop
  send_message_with_reply_outcomes (err e) queued a h = elim (Bool-cases c.has_conn) [
    | inl conn ↦ inl (e, ground arith, ground arith, ground arith, inr (inl refl))
    | inr gone ↦ inl (assertion_error, ground arith, ground arith, ground arith, inl (gone, refl))
  ]
  send_message_with_reply_outcomes (ok args) queued a h =
      let t = timeout_ms d (seconds d args.timeout_s) in
      elim (Bool-cases c.has_conn) [
        | inr gone ↦
            inl (assertion_error, ground arith, ground arith, ground arith, inl (gone, refl))
        | inl conn ↦ elim (check_cases args.needs_main_loop c.has_mainloop args.msg t) [
          | inl (e, stop, why) ↦
              rw (refused queued a args conn e stop)
                (inl (e, refl, refl, refl, inr (inr (args, refl, because args e why))))
          | inr (m, ms, go, obj, time, loop) ↦ rw (accepted queued a args conn m ms go) (
              inr (
                args,
                m,
                ms,
                refl,
                conn,
                obj,
                rw (sym (seconds-given args.timeout_s))
                    (timeout_ms-Timed (seconds d args.timeout_s) ms time),
                loop,
                refl,
                await_reply-Awaits a args.reply_handler queued h,
              ))
        ]
      ]
