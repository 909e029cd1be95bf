-- ===== src/PendingCall.antt =====
-- _dbus_bindings/pending-call.c: the notify function that libdbus calls when a pending call is
-- complete, and the constructor that installs it. The one-item list that libdbus holds as user data
-- is `slot`; an empty slot is Python's None. A callable is its identity. References to a callable and
-- to None are counted, and so are those to the list and to the DBusPendingCall.
pub mod Once
pub mod Live
pub mod Create
use python_dbus.Prelude.{
  ℕ, ◌+◌, ◌-◌, Bool, true, false, not, ◌||◌, Option, none, some, List, [], ◌∷◌, ◌++◌, if◌then◌else◌,
}

pub record Call : Type 0 where
  -- Item 0 of the list: the handler, or None.
  pub slot : Option ℕ
  -- The reply that `dbus_pending_call_steal_reply` would give.
  pub reply : Option ℕ
  -- The calls of a handler so far: the handler and the message.
  pub calls : List (ℕ × ℕ)
  pub warnings : ℕ
  pub handler_refs : ℕ
  pub none_refs : ℕ

-- The critical section of `_pending_call_notify_function`, up to "END CRITICAL SECTION": take the
-- handler from the list, with a reference of its own, and put None there. The list gives up its
-- reference to the handler.
unfoldable pub claim : Call → Option ℕ × Call
claim s = elim s.slot [
  | none ↦ (none, s)
  | some handler ↦ (
    some handler,
    record s { slot = none; handler_refs = s.handler_refs + 1 - 1; none_refs = s.none_refs + 1 },
  )
]

-- `dbus_pending_call_steal_reply` and the call of the handler. The flag says that
-- `DBusPyMessage_ConsumeDBusMessage` gets the memory for the message object.
unfoldable pub deliver : Bool → ℕ → Call → Call
deliver consumed handler s = elim s.reply [
  | none ↦ record s { warnings = s.warnings + 1 }
  | some msg ↦
      if consumed
      then record s { reply = none; calls = s.calls ++ ((handler, msg) ∷ []) }
      else record s { reply = none }
]

-- What follows the critical section, with `Py_CLEAR(handler)` behind `release`. Where the list held
-- None, `handler` is a borrowed reference to None, and is cleared too.
unfoldable pub finish : Bool → Option ℕ → Call → Call
finish consumed none s = record s { none_refs = s.none_refs - 1 }
finish consumed (some handler) s =
    let s' = deliver consumed handler s in record s' { handler_refs = s'.handler_refs - 1 }

-- `_pending_call_notify_function`, not interrupted.
unfoldable pub notify : Bool → Call → Call
notify consumed s = let (handler, s') = claim s in finish consumed handler s'

-- `self->pc`. `PyObject_New` does not initialise it.
pub data PcField : Type 0 where
  uninitialised : PcField
  pc_set : PcField

-- What the constructor works on.
pub record World : Type 0 where
  pub call : Call
  pub pc_refs : ℕ
  pub cancelled : Bool
  pub list_refs : ℕ
  -- How often a destructor has followed the uninitialised field.
  pub wild_reads : ℕ

-- `PendingCall_tp_dealloc`
unfoldable pub dealloc : PcField → World → World
dealloc uninitialised w = record w { wild_reads = w.wild_reads + 1 }
dealloc pc_set w = record w { pc_refs = w.pc_refs - 1 }

-- `PendingCall_cancel`
unfoldable pub cancel : World → World
cancel w = record w { cancelled = true }

-- `PendingCall_block`, over `dbus_pending_call_block`, which calls the notify function.
unfoldable block : (World → World) → World → World
block pending_call_block w = pending_call_block w

-- `PendingCall_get_completed`, with what libdbus answers.
unfoldable pub get_completed : Bool → Bool
get_completed ret = ret

-- `dbus_pending_call_cancel(pc); dbus_pending_call_unref(pc);`
unfoldable pub cancel_unref : World → World
cancel_unref w = record w { cancelled = true; pc_refs = w.pc_refs - 1 }

-- `PyList_SET_ITEM(list, 0, callable)` on the new list, and the references taken for libdbus.
unfoldable pub fill_list : ℕ → World → World
fill_list callable w =
    let s = w.call in
    record w {
      call = record s { slot = some callable; handler_refs = s.handler_refs + 1 };
      list_refs = 2;
    }

-- The list goes, and with it its reference to the callable.
unfoldable pub free_list : World → World
free_list w =
    let s = w.call in
    record w { call = record s { slot = none; handler_refs = s.handler_refs - 1 }; list_refs = 0 }

-- What the libraries answer: whether the list and the object can be allocated, whether
-- `dbus_pending_call_set_notify` works, whether the call is then complete, and whether the message
-- object can be allocated.
pub record Answers : Type 0 where
  pub list_ok : Bool
  pub self_ok : Bool
  pub notify_ok : Bool
  pub completed : Bool
  pub consumed : Bool

-- The part of the constructor behind `dbus_pending_call_set_notify`. The result is the field of the
-- new object, or none for NULL.
unfoldable pub install : Answers → World → Option PcField × World
install a w =
    if not a.notify_ok
    then (none, cancel_unref (dealloc uninitialised (free_list w)))
    else let w' = if a.completed then record w { call = notify a.consumed w.call } else w in
      (some pc_set, record w' { list_refs = w'.list_refs - 1 })

-- `DBusPyPendingCall_ConsumeDBusPendingCall`
unfoldable pub consume_pending_call : Answers → ℕ → World → Option PcField × World
consume_pending_call a callable w =
    if not a.list_ok || not a.self_ok
    then (none, cancel_unref (if a.self_ok then dealloc uninitialised w else w))
    else install a (fill_list callable w)
