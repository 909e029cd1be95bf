-- ===== src/Message/Signature/Iterates.antt =====
-- Iterating over a dbus.Signature, as in _dbus_bindings/signature.c.
use python_dbus.Message.Guess.{new_signature}
use python_dbus.Message.Signature.{
  SignatureIters, finished, running, signature_iter, iternext, gather, collect,
}
use python_dbus.Message.Types.{Ty, Tys, print, print_all}
use python_dbus.Prelude.{
  ℕ, zero, suc, ◌<◌, Bool, true, some, List, [], ◌∷◌, ◌++◌, ◌≡◌, ◌≢◌, refl, arith, Bytes,
}
use python_dbus.Python.{ok}

-- The signatures of the types, one by one.
abbrev pub each : Tys → List Bytes
each Tys.nil = []
each (Tys.cons t ts) = print t ∷ each ts

abbrev pub count : Tys → ℕ
count Tys.nil = 0
count (Tys.cons t ts) = suc (count ts)

-- libdbus' test accepts each of the types by itself.
abbrev pub AllValid : (Bytes → Bool) → Tys → Type 0
AllValid validate Tys.nil = Unit
AllValid validate (Tys.cons t ts) = (validate (print t) ≡ true) × AllValid validate ts

module _ (lib : SignatureIters) (validate : Bytes → Bool) where
  finished_lem : (n : ℕ) → collect lib validate (suc n) finished ≡ some (ok [])
  unfolding collect gather iternext
  finished_lem n = refl

  collect_at :
      (n : ℕ) (it : lib.Iter) (t : Ty) (ts : Tys)
      → lib.At it (Tys.cons t ts)
      → AllValid validate (Tys.cons t ts)
      → count (Tys.cons t ts) < n
      → collect lib validate n (running it) ≡ some (ok (each (Tys.cons t ts)))
  unfolding collect gather iternext new_signature
  collect_at zero it t ts a v h = absurd (omega arith)
  collect_at (suc zero) it t ts a v h = absurd (omega arith)
  collect_at (suc (suc n)) it t Tys.nil a v h =
      ground (
        arith,
        lib.signature_at it t Tys.nil a,
        (lib.next_at it t Tys.nil a).1,
        v.0,
        finished_lem n,
      )
  collect_at (suc (suc n)) it t (Tys.cons u us) a v h = ground (
    arith,
    lib.signature_at it t (Tys.cons u us) a,
    (lib.next_at it t (Tys.cons u us) a).1,
    v.0,
    collect_at (suc n) (lib.next it).0 u us (lib.next_at it t (Tys.cons u us) a).0 v.1
        (omega arith),
  )

  never_empty : (t : Ty) (s : Bytes) → print t ++ s ≢ []
  unfolding print
  never_empty Ty.byte s h = cc
  never_empty _ s h = cc

  start :
      (t : Ty) (ts : Tys)
      → signature_iter lib (print_all (Tys.cons t ts))
        ≡ running (lib.init (print_all (Tys.cons t ts)))
  unfolding signature_iter print
  start Ty.byte ts = refl
  start _ ts = refl

  start_empty : signature_iter lib (print_all Tys.nil) ≡ finished
  unfolding signature_iter print
  start_empty = refl

  -- list() of a dbus.Signature gives the signatures of its types one by one, in any number of steps
  -- above that of the types, where libdbus accepts each of them by itself.
  pub collect-each :
      (n : ℕ) (ts : Tys)
      → AllValid validate ts
      → count ts < n
      → collect lib validate n (signature_iter lib (print_all ts)) ≡ some (ok (each ts))
  collect-each zero ts v h = absurd (omega arith)
  collect-each (suc n) Tys.nil v h = rw start_empty (finished_lem n)
  collect-each (suc n) (Tys.cons t ts) v h =
      rw (start t ts)
        (collect_at (suc n) (lib.init (print_all (Tys.cons t ts))) t ts (lib.at_init t ts) v h)
