-- ===== src/Message/Write/Trace.antt =====
-- What the writing of messages in _dbus_bindings/message-append.c runs on: the calls of libdbus so far, Python's
-- iterators, and the tests by themselves.
use python_dbus.Message.Values.{Call}
use python_dbus.Prelude.{ℕ, zero, suc, Bool, true, false, Option, none, some, List, ◌≡◌, Bytes}
use python_dbus.Python.Integer.{ℤ, pos, negsuc}
use python_dbus.Python.Object.{
  Object, byte_array, bytes_object, array, struct, dictionary, Objects, Entries, end, entry,
}
use python_dbus.Python.{Exception, type_error, unset, Result, ok, err}

-- What subscripting an object with its items gives.
pub data Subscripts : Type 0 where
  no_more : Subscripts
  item : Object → Result Object → Subscripts → Subscripts

abbrev pub subscripts_of : Entries → Subscripts
subscripts_of end = no_more
subscripts_of (entry k v es) = item k (ok v) (subscripts_of es)

-- `PyObject_GetIter` and `PyIter_Next`: the items, and the exception with which the iteration ends, if
-- any. For a dict, a key that it gives leads to the value beside it.
pub record Iteration : Type 0 where
  pub items : Object → Result (Objects × Option Exception)
  pub subscripts : Object → Result (Subscripts × Option Exception)
  pub items_array :
      (xs : Objects) (sig : Option Bytes) (level : ℤ) → items (array xs sig level) ≡ ok (xs, none)
  pub items_struct : (xs : Objects) (level : ℤ) → items (struct xs level) ≡ ok (xs, none)
  pub subscripts_dictionary :
      (es : Entries) (sig : Option Bytes) (level : ℤ)
      → subscripts (dictionary es sig level) ≡ ok (subscripts_of es, none)

-- Whether libdbus has memory for a call, and for a copy of a signature, after the calls so far.
pub record Memory : Type 0 where
  pub for_call : List Call → Call → Bool
  pub for_signature : List Call → Bool

-- A part of the code: from the calls so far to the calls afterwards, and a result.
abbrev pub Writer : Type 0 → Type 0
Writer A = List Call → List Call × Result A

abbrev pub return : {A : Type 0} → Result A → Writer A
return r w = (w, r)

infixl 5 ◌then_do◌
abbrev pub ◌then_do◌ : {A B : Type 0} → Writer A → (A → Writer B) → Writer B
◌then_do◌ m f w = let (w', r) = m w in elim r [ ok a ↦ f a w' | err e ↦ (w', err e) ]

-- `get_variant_level`, but at least 1, as the number of variants to open.
unfoldable pub variants : ℤ → ℕ
variants (pos zero) = 1
variants (pos (suc n)) = suc n
variants (negsuc n) = 1

-- The exception that is pending behind the loop of `_message_iter_append_multi`. A structure whose
-- item failed with none set still has more in its signature.
unfoldable pub finish_multi : Bool → Result Bool → Result (Unit {0})
finish_multi true (err unset) = err type_error
finish_multi is_struct (err e) = err e
finish_multi true (ok true) = err type_error
finish_multi is_struct (ok more) = ok tt

-- How an iteration ended.
unfoldable pub end_of : {A : Type 0} → Option Exception → A → Result A
end_of none a = ok a
end_of (some e) a = err e

unfoldable pub is_byte_array : Object → Bool
is_byte_array (bytes_object byte_array s l) = true
is_byte_array _ = false

-- The bytes of a `bytes`.
unfoldable pub bytes_of : Object → Option Bytes
bytes_of (bytes_object t s l) = some s
bytes_of _ = none
