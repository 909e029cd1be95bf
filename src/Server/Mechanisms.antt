-- ===== src/Server/Mechanisms.antt =====
-- The authentication mechanisms of a Server, `DBusPyServer_set_auth_mechanisms` of
-- _dbus_bindings/server.c, and the methods of a Server that ask libdbus.
use python_dbus.Prelude.{
  ℕ, ◌+◌, Bool, true, false, List, [], ◌∷◌, ◌++◌, ◌≡◌, ◌⊎◌, Bytes, if◌then◌else◌,
}
use python_dbus.Python.{Exception, assertion_error, type_error, memory_error, Result, ok, err}

-- An item of the sequence: a str, with what `PyUnicode_AsUTF8String` makes of it, a bytes, or another object.
pub data Mechanism : Type 0 where
  unicode : Result Bytes → Mechanism
  bytes : Bytes → Mechanism
  other_object : Mechanism

-- `auth_mechanisms`: a list or a tuple, another object that can be iterated, or one that cannot.
pub data Sequence : Type 0 where
  list_or_tuple : List Mechanism → Sequence
  iterable : List Mechanism → Sequence
  not_sequence : Exception → Sequence

-- The body of the loop: `list[i]`, and whether the reference to `am_as_bytes` is left to nobody.
unfoldable pub as_mechanism : Mechanism → Result Bytes × Bool
as_mechanism (unicode r) = (r, false)
as_mechanism (bytes b) = (ok b, false)
as_mechanism other_object = (err type_error, true)

-- The loop, from the mechanisms so far: those of all items, or the exception of the first that fails, and the
-- number of references that are left to nobody.
unfoldable pub mechanisms_loop : List Mechanism → List Bytes → Result (List Bytes) × ℕ
mechanisms_loop [] out = (ok out, 0)
mechanisms_loop (am ∷ ams) out = elim (as_mechanism am).0 [
  | err e ↦ (err e, if (as_mechanism am).1 then 1 else 0)
  | ok m ↦ mechanisms_loop ams (out ++ (m ∷ []))
]

-- What the function ends in: the mechanisms that libdbus was given, or an exception; or a read of the object's
-- memory as if it were a tuple.
pub data Setting : Type 0 where
  given : List Bytes → Setting
  raised : Exception → ℕ → Setting
  wild_read : Setting

unfoldable pub settled : Result (List Bytes) × ℕ → Setting
settled (ok ms, leaked) = given ms
settled (err e, leaked) = raised e leaked

-- `DBusPyServer_set_auth_mechanisms`. The flags say that the array and the tuple of references can be
-- allocated. The items are read from `auth_mechanisms`, not from the list that `PySequence_Fast` has made.
unfoldable pub set_auth_mechanisms : Sequence → Bool → Bool → Setting
set_auth_mechanisms (not_sequence e) has_list has_references = raised e 0
set_auth_mechanisms (list_or_tuple ams) has_list has_references =
    if has_list
    then (if has_references then settled (mechanisms_loop ams []) else raised memory_error 0)
    else raised memory_error 0
set_auth_mechanisms (iterable ams) has_list has_references =
    if has_list
    then (if has_references
        then (elim ams [ [] ↦ given [] | _ ∷ _ ↦ wild_read ])
        else raised memory_error 0)
    else raised memory_error 0

-- A mechanism for each item, in order.
pub data Converts : List Mechanism → List Bytes → Type 0 where
  done : Converts [] []
  text :
      {b : Bytes} {ams : List Mechanism} {ms : List Bytes}
      → Converts ams ms
      → Converts (unicode (ok b) ∷ ams) (b ∷ ms)
  raw :
      {b : Bytes} {ams : List Mechanism} {ms : List Bytes}
      → Converts ams ms
      → Converts (bytes b ∷ ams) (b ∷ ms)

-- Some item, behind items that can be converted, is a str that cannot be encoded, for which the exception is
-- that of the encoder, or another object, for which it is TypeError and the reference to it is lost.
pub data Fails : List Mechanism → Exception → ℕ → Type 0 where
  unencodable : (e : Exception) (ams : List Mechanism) → Fails (unicode (err e) ∷ ams) e 0
  not_text : (ams : List Mechanism) → Fails (other_object ∷ ams) type_error 1
  later_text :
      {b : Bytes} {ams : List Mechanism} {e : Exception} {n : ℕ}
      → Fails ams e n
      → Fails (unicode (ok b) ∷ ams) e n
  later_raw :
      {b : Bytes} {ams : List Mechanism} {e : Exception} {n : ℕ}
      → Fails ams e n
      → Fails (bytes b ∷ ams) e n

-- What the loop comes to.
abbrev Loops : List Mechanism → List Bytes → Type 0
Loops ams out =
    ((ms : List Bytes) × Converts ams ms × (mechanisms_loop ams out ≡ (ok (out ++ ms), 0)))
    ⊎ ((e : Exception) × (n : ℕ) × Fails ams e n × (mechanisms_loop ams out ≡ (err e, n)))

-- `Server_disconnect`: how often libdbus has been asked to disconnect. The flag is that `self->server` is there.
unfoldable pub server_disconnect : Bool → ℕ → ℕ × Result (Unit {0})
server_disconnect has_server asked = (if has_server then asked + 1 else asked, ok tt)

-- `Server_get_address`, `Server_get_id` and `Server_get_is_connected`, with what libdbus answers.
unfoldable pub get_address : Bool → Bytes → Result Bytes
get_address has_server address = if has_server then ok address else err assertion_error

unfoldable pub get_id : Bool → Bytes → Result Bytes
get_id has_server id = if has_server then ok id else err assertion_error

unfoldable pub server_is_connected : Bool → Bool → Result Bool
server_is_connected has_server ret = if has_server then ok ret else err assertion_error
