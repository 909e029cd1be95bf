-- ===== src/Tests/Calls.antt =====
-- Pending calls.
use python_dbus.PendingCall.Create.{created_keeps}
use python_dbus.PendingCall.Once.{Threads, enter, leave, Reach, start, next, calls_at_most_once}
use python_dbus.PendingCall.{
  Call, World, Answers, pc_set, claim, deliver, finish, consume_pending_call,
}
use python_dbus.Prelude.{◌≤◌, true, false, none, some, [], ◌∷◌, ◌≡◌, refl, length}

-- Handler 7 waits for reply 9.
abbrev waiting : Call
waiting = record {
  slot = some 7;
  reply = some 9;
  calls = [];
  warnings = 0;
  handler_refs = 2;
  none_refs = 10;
}

abbrev fresh : Threads
fresh = record { call = waiting; running = [] }

-- Two threads enter; the first to come has the handler.
abbrev entered : Threads
entered = record { call = (claim waiting).1; running = (claim waiting).0 ∷ [] }

abbrev both : Threads
both = record { call = (claim entered.call).1; running = (claim entered.call).0 ∷ entered.running }

abbrev first_left : Threads
first_left = record { call = finish true none both.call; running = some 7 ∷ [] }

abbrev all_left : Threads
all_left = record { call = finish true (some 7) first_left.call; running = [] }

run : Reach fresh all_left
unfolding claim
run =
    next
      (next (next (next start (enter fresh)) (enter entered))
        (leave both true [] (some 7 ∷ []) none refl))
      (leave first_left true [] [] (some 7) refl)

all_left_called : all_left.call.calls ≡ (7, 9) ∷ []
unfolding claim finish deliver
all_left_called = refl

all_left_taken : all_left.call.slot ≡ none
unfolding claim finish deliver
all_left_taken = refl

calls_at_most_once_example : length all_left.call.calls ≤ 1
calls_at_most_once_example = calls_at_most_once 1 (refl, refl, refl) run

abbrev taken : Call
taken = record waiting { slot = none }

-- The constructor is given one reference, and nothing waits yet.
abbrev before : World
before = record { call = taken; pc_refs = 1; cancelled = false; list_refs = 0; wild_reads = 0 }

abbrev no_notify : Answers
no_notify = record {
  list_ok = true;
  self_ok = true;
  notify_ok = false;
  completed = false;
  consumed = true;
}

abbrev at_once : Answers
at_once = record {
  list_ok = true;
  self_ok = true;
  notify_ok = true;
  completed = true;
  consumed = true;
}

created_keeps_example :
    ((consume_pending_call at_once 7 before).0 ≡ some pc_set)
    × ((consume_pending_call at_once 7 before).1.pc_refs ≡ 1)
    × ((consume_pending_call at_once 7 before).1.cancelled ≡ false)
    × ((consume_pending_call at_once 7 before).1.list_refs ≡ 1)
    × ((consume_pending_call at_once 7 before).1.wild_reads ≡ 0)
    × (((consume_pending_call at_once 7 before).1.call.slot ≡ none)
        × ((consume_pending_call at_once 7 before).1.call.calls ≡ (7, 9) ∷ []))
created_keeps_example = created_keeps at_once 7 9 before refl refl refl
