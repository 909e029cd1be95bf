-- ===== src/PendingCall/Create.antt =====
-- `DBusPyPendingCall_ConsumeDBusPendingCall` of _dbus_bindings/pending-call.c on each of its paths.
use python_dbus.PendingCall.{
  claim, deliver, finish, notify, pc_set, World, dealloc, cancel_unref, fill_list, free_list,
  Answers, install, consume_pending_call,
}
use python_dbus.Prelude.{
  ℕ, ◌+◌, Bool, true, false, ◌&&◌, none, some, [], ◌∷◌, ◌++◌, ◌≡◌, arith, if◌then◌else◌,
}

-- The constructor succeeds exactly when the list and the object can be allocated and libdbus takes
-- the notify function.
abbrev pub creates : Answers → Bool
creates a = a.list_ok && a.self_ok && a.notify_ok

-- On every failing path, with one reference to the call handed over, NULL is returned, the call is
-- cancelled, that reference is given up, and the callable has the references that it had before; where the
-- object had been allocated, its destructor has followed the field that nothing has set.
pub failed_releases :
    (a : Answers) (callable : ℕ) (w : World)
    → w.pc_refs ≡ 1
    → creates a ≡ false
    → let (result, w') = consume_pending_call a callable w in
      (result ≡ none)
      × (w'.pc_refs ≡ 0)
      × (w'.cancelled ≡ true)
      × (w'.call.handler_refs ≡ w.call.handler_refs)
      × (w'.call.calls ≡ w.call.calls)
      × (w'.wild_reads ≡ w.wild_reads + (if a.self_ok then 1 else 0))
unfolding consume_pending_call install fill_list free_list cancel_unref dealloc
failed_releases a callable w one h = ground arith

-- When the constructor succeeds, for a reply that is there and can be made a message object, the new
-- object owns the reference, the list is held by libdbus alone, and the callable waits in the list, or
-- has been called with the reply, once, where the call was complete.
pub created_keeps :
    (a : Answers) (callable msg : ℕ) (w : World)
    → creates a ≡ true
    → a.consumed ≡ true
    → w.call.reply ≡ some msg
    → let (result, w') = consume_pending_call a callable w in
      (result ≡ some pc_set)
      × (w'.pc_refs ≡ w.pc_refs)
      × (w'.cancelled ≡ w.cancelled)
      × (w'.list_refs ≡ 1)
      × (w'.wild_reads ≡ w.wild_reads)
      × (if a.completed
          then (w'.call.slot ≡ none) × (w'.call.calls ≡ w.call.calls ++ ((callable, msg) ∷ []))
          else (w'.call.slot ≡ some callable) × (w'.call.calls ≡ w.call.calls))
unfolding consume_pending_call install fill_list notify claim finish deliver
created_keeps a callable msg w h c r = ground arith

-- Once the object has been allocated, every failing path runs its destructor on a field that nothing
-- has set.
pub failed_reads_uninitialised :
    (a : Answers) (callable : ℕ) (w : World)
    → a.self_ok ≡ true
    → creates a ≡ false
    → (consume_pending_call a callable w).1.wild_reads ≡ w.wild_reads + 1
unfolding consume_pending_call install fill_list free_list cancel_unref dealloc
failed_reads_uninitialised a callable w s h = ground arith
