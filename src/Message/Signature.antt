-- ===== src/Message/Signature.antt =====
-- Iterators over signatures: what _dbus_bindings/message-append.c and signature.c rely on of
-- libdbus' `DBusSignatureIter`, and the iterator of dbus.Signature in signature.c.
pub mod Iterates
use python_dbus.Message.Guess.{new_signature}
use python_dbus.Message.Types
use python_dbus.Message.Types.{Ty, Tys, print, print_all}
use python_dbus.Message.Values.{code, entry_signature}
use python_dbus.Prelude.{
  ℕ, zero, suc, ◌+◌, Bool, true, false, not, Option, none, some, List, [], ◌∷◌, ◌++◌, ◌≡◌, Bytes,
  is_empty, if◌then◌else◌,
}
use python_dbus.Python.{Result, ok, err, ◌>>=◌}

abbrev pub no_types : Tys → Bool
no_types Tys.nil = true
no_types (Tys.cons t ts) = false

-- libdbus' iterators, with memory for signatures. `At it ts` says that the iterator stands in front
-- of these types of a valid signature, and `AtEntry it k v` that it stands at a dict entry.
pub record SignatureIters : Type 1 where
  pub Iter : Type 0
  pub init : Bytes → Iter
  pub current_type : Iter → ℕ
  pub element_type : Iter → ℕ
  pub recurse : Iter → Iter
  pub get_signature : Iter → Bytes
  pub next : Iter → Iter × Bool
  pub At : Iter → Tys → Type 0
  pub AtEntry : Iter → Ty → Ty → Type 0
  pub at_init : (t : Ty) (ts : Tys) → At (init (print_all (Tys.cons t ts))) (Tys.cons t ts)
  pub current_at :
      (it : Iter) (t : Ty) (ts : Tys) → At it (Tys.cons t ts) → current_type it ≡ code t
  pub signature_at :
      (it : Iter) (t : Ty) (ts : Tys) → At it (Tys.cons t ts) → get_signature it ≡ print t
  pub next_at :
      (it : Iter) (t : Ty) (ts : Tys)
      → At it (Tys.cons t ts)
      → At (next it).0 ts × ((next it).1 ≡ not (no_types ts))
  pub element_array :
      (it : Iter) (t : Ty) (ts : Tys)
      → At it (Tys.cons (Ty.array t) ts)
      → (element_type it ≡ code t) × At (recurse it) (Tys.cons t Tys.nil)
  pub element_dict :
      (it : Iter) (k v : Ty) (ts : Tys)
      → At it (Tys.cons (Ty.dict k v) ts)
      → (element_type it ≡ b'e') × AtEntry (recurse it) k v
  pub at_entry :
      (it : Iter) (k v : Ty)
      → AtEntry it k v
      → (current_type it ≡ b'e')
        × (get_signature it ≡ entry_signature k v)
        × At (recurse it) (Tys.cons k (Tys.cons v Tys.nil))
  pub recurse_struct :
      (it : Iter) (t : Ty) (us ts : Tys)
      → At it (Tys.cons (Ty.struct t us) ts)
      → At (recurse it) (Tys.cons t us)

-- `SignatureIter`: without bytes it has finished, and the iterator is not looked at.
pub data SignatureIter (Iter : Type 0) : Type 0 where
  finished : SignatureIter Iter
  running : Iter → SignatureIter Iter

-- `Signature_tp_iter`
unfoldable pub signature_iter : (lib : SignatureIters) → Bytes → SignatureIter lib.Iter
signature_iter lib [] = finished
signature_iter lib (c ∷ cs) = running (lib.init (c ∷ cs))

-- One step of list(): an item, in front of what the further steps give.
unfoldable pub gather :
    Option (Result Bytes) → Option (Result (List Bytes)) → Option (Result (List Bytes))
gather none rest = some (ok [])
gather (some (err e)) rest = some (err e)
gather (some (ok s)) none = none
gather (some (ok s)) (some (err e)) = some (err e)
gather (some (ok s)) (some (ok ss)) = some (ok (s ∷ ss))

module _ (lib : SignatureIters) (validate : Bytes → Bool) where
  -- `SignatureIter_tp_iternext`: the end of the iteration, or a result; and the object afterwards.
  unfoldable pub iternext : SignatureIter lib.Iter → Option (Result Bytes) × SignatureIter lib.Iter
  iternext finished = (none, finished)
  iternext (running it) = elim (new_signature validate (lib.get_signature it)) [
    | err e ↦ (some (err e), running it)
    | ok s ↦ (some (ok s), if (lib.next it).1 then running (lib.next it).0 else finished)
  ]

  -- `list(signature)`, of which this many steps are made; `none` if that is not to the end.
  unfoldable pub collect : ℕ → SignatureIter lib.Iter → Option (Result (List Bytes))
  collect zero it = none
  collect (suc n) it = gather (iternext it).0 (collect n (iternext it).1)
