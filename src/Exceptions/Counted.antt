-- ===== src/Exceptions/Counted.antt =====
-- What _dbus_bindings/exceptions.c raises, and what it counts over any sequence of calls.
use python_dbus.Exceptions.{
  by_python, dbus_raised, DbusError, Replies, Thread, failed, import_exception, find_exception,
  set_string, message_or_empty, named, at_finally, set_object, consume_error,
}
use python_dbus.Prelude.{
  Option, none, some, true, refl, ◌+◌, Bool, ◌&&◌, ◌||◌, some, List, [], ◌∷◌, Bytes, ◌≡◌, arith,
  if◌then◌else◌,
}

-- The class is there, or can be imported.
abbrev pub reachable : Replies → Thread → Bool
reachable a s = s.imported || (a.name_made && a.module_found && a.has_class)

-- The message of an error, or the empty text.
abbrev pub text_of : Option Bytes → Bytes
text_of none = []
text_of (some msg) = msg

-- Its name can be set as an attribute, where it has one.
abbrev pub can_name : Replies → Option Bytes → Bool
can_name a none = true
can_name a (some name) = a.text_made && a.attribute_set

message_or_empty-text_of : (e : DbusError) → message_or_empty e ≡ text_of e.message
unfolding message_or_empty
message_or_empty-text_of e = ground arith

named-can_name : (a : Replies) (n : Option Bytes) → named a n ≡ can_name a n
unfolding named
named-can_name a none = refl
named-can_name a (some name) = refl

-- `DBusPyException_ConsumeError` frees the error once, whatever happens. Where everything can be made
-- it raises a DBusException with the message and the name of the error, and the interpreter alone
-- refers to it; otherwise it raises what Python raised, and no reference is left.
pub consume_error_lem :
    (a : Replies) (e : DbusError) (s : Thread)
    → let t = consume_error a e s in
      let raises = reachable a s && a.value_made && can_name a e.name in
      (t.freed ≡ s.freed + 1)
      × (t.raised ≡ some (if raises then dbus_raised (text_of e.message) e.name else by_python))
      × (t.value_refs ≡ s.value_refs + (if raises then 1 else 0))
unfolding consume_error find_exception import_exception failed at_finally set_object
consume_error_lem a e s =
    let m = message_or_empty-text_of e in
    let n = named-can_name a e.name in (ground arith, ground (arith, m, n), ground (arith, n))

-- A call of one of the two functions.
pub data Use : Type 0 where
  sets : Replies → Bytes → Use
  consumes : Replies → DbusError → Use

abbrev pub run : List Use → Thread → Thread
run [] s = s
run (sets a msg ∷ us) s = run us (set_string a msg s)
run (consumes a e ∷ us) s = run us (consume_error a e s)

IsCounted : Thread → Type 0
IsCounted s = s.lookups ≡ (if s.imported then 1 else 0)

set_string-IsCounted :
    (a : Replies) (msg : Bytes) (s : Thread) → IsCounted s → IsCounted (set_string a msg s)
unfolding IsCounted set_string find_exception import_exception failed
set_string-IsCounted a msg s h = ground arith

consume_error-IsCounted :
    (a : Replies) (e : DbusError) (s : Thread) → IsCounted s → IsCounted (consume_error a e s)
unfolding IsCounted consume_error find_exception import_exception failed at_finally set_object
consume_error-IsCounted a e s h = ground arith

-- However often the functions are called, and whatever fails on the way: the class is looked up with
-- success once at most, and is kept from then on.
run-IsCounted : (us : List Use) (s : Thread) → IsCounted s → IsCounted (run us s)
run-IsCounted [] s h = h
run-IsCounted (sets a msg ∷ us) s h =
    run-IsCounted us (set_string a msg s) (set_string-IsCounted a msg s h)
run-IsCounted (consumes a e ∷ us) s h =
    run-IsCounted us (consume_error a e s) (consume_error-IsCounted a e s h)
