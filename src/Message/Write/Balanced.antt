-- ===== src/Message/Write/Balanced.antt =====
-- Every container that `Message.append` of _dbus_bindings/message-append.c opens is closed or
-- abandoned.
pub mod Walk
pub mod Parts
use mathlib.Core.List.{append_assoc, append-nil}
use python_dbus.Message.Append.{Interpreter, append_basic}
use python_dbus.Message.Guess.{guess_signature}
use python_dbus.Message.Signature.{SignatureIters}
use python_dbus.Message.Values.{
  Call, open_container, put_basic, put_bytes, close_container, abandon_container,
}
use python_dbus.Message.Write.{
  Subscripts, no_more, item, Iteration, Memory, Writer, return, ◌then_do◌, variants, finish_multi,
  end_of, is_byte_array, bytes_of, call, close_or_abandon, within, append_string_as_byte_array,
  open_variants, close_variants, Append, append_variant, append_dictentry, append_items,
  append_bytes, append_entries, append_members, append_array, append_multi_array, append_multi_dict,
  append_multi_struct, append_array_object, append_basic_object, append_by_type, append_pyobject,
  append_args, append_under, message_append,
}
use python_dbus.Message.Write.Steps.{
  then_do_lem, call_lem, close_or_abandon-ok, close_or_abandon-err, within_lem, open_variants_lem,
  close_variants_lem, append_string_as_byte_array_lem, append_variant_lem, append_variant-err,
  openings, closings,
}
use python_dbus.Numbers.{byte_new}
use python_dbus.Prelude.{
  ℕ, zero, suc, ◌+◌, Bool, true, false, Option, none, some, List, [], ◌∷◌, ◌++◌, ◌≡◌, refl, sym, ap,
  subst, ◌∙◌, arith, ◌&&◌, ◌==◌, if◌then◌else◌, Bytes, is_empty, Bool-cases, inl, inr,
}
use python_dbus.Python.Integer.{pos}
use python_dbus.Python.Object.{Object, Objects, nil, cons}
use python_dbus.Python.{
  Exception, memory_error, type_error, out_of_fuel, Result, Result-cases, ok, err,
}
use python_dbus.Message.Write.Balanced.Walk.{
  Adds, Balances, IsBalanced, Balances-return, Balances-then, Balances-result,
}
use python_dbus.Message.Write.Balanced.Parts.{
  Balances-call_basic, Balances-within, Balances-string_as_byte_array, BalancesAll,
  Balances-variant, Balances-items, Balances-bytes, Balances-entries, Balances-members,
  Balances-array,
}

Balances-if :
    {A : Type 0} (b : Bool) (m n : Writer A)
    → Balances m
    → Balances n
    → Balances (λ w. if b then m w else n w)
Balances-if true m n hm hn = hm
Balances-if false m n hm hn = hn

Balances-option :
    {A B : Type 0} (o : Option A) (m : Writer B) (f : A → Writer B)
    → Balances m
    → ((a : A) → Balances (f a))
    → Balances {A = B} (λ w. elim o [ none ↦ m w | some a ↦ f a w ])
Balances-option none m f hm hf = hm
Balances-option (some a) m f hm hf = hf a

-- Where libdbus never lacks memory.
module _ (lib : SignatureIters) (python : Interpreter) (iteration : Iteration) (memory : Memory)
    (plenty : (w : List Call) (c : Call) → memory.for_call w c ≡ true) where
  module _ (append : Append lib python iteration memory)
      (ha : BalancesAll lib python iteration memory plenty append) where
    Balances-multi_array :
        (it : lib.Iter) (obj : Object)
        → Balances (append_multi_array lib python iteration memory append it obj)
    unfolding append_multi_array
    Balances-multi_array it obj w = elim (Result-cases (iteration.items obj)) [
      | inl ((xs, ends), h) ↦
          elim (Bool-cases (is_byte_array obj && (lib.current_type (lib.recurse it) == b'v'))) [
            | inl t ↦
                rw (h, t, append_multi_array)
                  (Balances-array lib python iteration memory plenty append ha it
                    (append_bytes lib python iteration memory append xs ends)
                    (Balances-bytes lib python iteration memory plenty append ha xs ends) w)
            | inr t ↦
                rw (h, t, append_multi_array)
                  (Balances-array lib python iteration memory plenty append ha it
                    (append_items lib python iteration memory append it xs ends)
                    (Balances-items lib python iteration memory plenty append ha it xs ends) w)
          ]
      | inr (e, h) ↦ rw (h, append_multi_array) (Balances-return {A = Unit {0}} (err e) w)
    ]

    Balances-multi_dict :
        (it : lib.Iter) (obj : Object)
        → Balances (append_multi_dict lib python iteration memory append it obj)
    unfolding append_multi_dict
    Balances-multi_dict it obj w = elim (Result-cases (iteration.subscripts obj)) [
      | inl ((xs, ends), h) ↦
          rw (h, append_multi_dict)
            (Balances-array lib python iteration memory plenty append ha it
              (append_entries lib python iteration memory append it xs ends)
              (Balances-entries lib python iteration memory plenty append ha it xs ends) w)
      | inr (e, h) ↦ rw (h, append_multi_dict) (Balances-return {A = Unit {0}} (err e) w)
    ]

    Balances-multi_struct :
        (it : lib.Iter) (obj : Object)
        → Balances (append_multi_struct lib python iteration memory append it obj)
    unfolding append_multi_struct
    Balances-multi_struct it obj w = elim (Result-cases (iteration.items obj)) [
      | inl ((xs, ends), h) ↦
          rw (h, append_multi_struct)
            (Balances-within lib python iteration memory plenty (b'r') none _
              (Balances-result
                (append_members lib python iteration memory append (lib.recurse it) true xs ends)
                (finish_multi true)
                (Balances-members lib python iteration memory plenty append ha (lib.recurse it) true
                  xs ends))
              w)
      | inr (e, h) ↦ rw (h, append_multi_struct) (Balances-return {A = Unit {0}} (err e) w)
    ]

    Balances-array_object :
        (it : lib.Iter) (obj : Object)
        → Balances (append_array_object lib python iteration memory append it obj)
    unfolding append_array_object
    Balances-array_object it obj =
        Balances-if (lib.element_type it == b'e')
          (append_multi_dict lib python iteration memory append it obj) _
          (Balances-multi_dict it obj)
          (Balances-option (bytes_of obj)
            (append_multi_array lib python iteration memory append it obj) _
            (Balances-multi_array it obj)
            (λ s.
              Balances-if (lib.element_type it == b'y')
                (append_string_as_byte_array lib python iteration memory s) _
                (Balances-string_as_byte_array lib python iteration memory plenty s)
                (Balances-multi_array it obj)))

    Balances-basic_object :
        (sig_type : ℕ) (obj : Object)
        → Balances (append_basic_object lib python iteration memory sig_type obj)
    unfolding append_basic_object
    Balances-basic_object sig_type obj =
        Balances-then (return (append_basic python sig_type obj))
          (λ b. call lib python iteration memory (put_basic sig_type b))
          (Balances-return (append_basic python sig_type obj))
          (λ b. Balances-call_basic lib python iteration memory plenty sig_type b)

    Balances-by_type :
        (sig_type : ℕ) (it : lib.Iter) (obj : Object)
        → Balances (append_by_type lib python iteration memory append sig_type it obj)
    unfolding append_by_type
    Balances-by_type sig_type it obj =
        Balances-if (sig_type == b'a') _ _ (Balances-array_object it obj) (
          Balances-if (sig_type == b'r') _ _ (Balances-multi_struct it obj) (
            Balances-if (sig_type == b'v') _ _
              (Balances-variant lib python iteration memory plenty append ha obj)
              (Balances-basic_object sig_type obj)))

  Balances-pyobject :
      (n : ℕ)
      → BalancesAll lib python iteration memory plenty
          (append_pyobject lib python iteration memory n)
  unfolding append_pyobject
  Balances-pyobject zero it obj = Balances-return {A = lib.Iter × Bool} (err out_of_fuel)
  Balances-pyobject (suc n) it obj =
      Balances-then
        (append_by_type lib python iteration memory (append_pyobject lib python iteration memory n)
          (lib.current_type it) it obj)
        (λ _. return (ok (lib.next it)))
        (Balances-by_type (append_pyobject lib python iteration memory n) (Balances-pyobject n)
          (lib.current_type it) it obj)
        (λ _. Balances-return (ok (lib.next it)))

  Balances-args :
      (n : ℕ) (it : lib.Iter) (more : Bool) (args : Objects)
      → Balances (append_args lib python iteration memory n it more args)
  unfolding append_args
  Balances-args n it true nil = Balances-return {A = Unit {0}} (err type_error)
  Balances-args n it true (cons x xs) =
      Balances-then (append_pyobject lib python iteration memory n it x)
        (λ r. append_args lib python iteration memory n r.0 r.1 xs) (Balances-pyobject n it x)
        (λ r. Balances-args n r.0 r.1 xs)
  Balances-args n it false nil = Balances-return (ok tt)
  Balances-args n it false (cons x xs) = Balances-return {A = Unit {0}} (err type_error)

  -- Whatever `_message_iter_append_pyobject` is given and however it ends, where libdbus has memory it
  -- closes or abandons each container that it opens, and no other.
  pub append_pyobject-IsBalanced :
      (n : ℕ) (it : lib.Iter) (obj : Object) (w : List Call)
      → Adds w (append_pyobject lib python iteration memory n it obj w)
  append_pyobject-IsBalanced n it obj = Balances-pyobject n it obj

  -- What has become of a message: it is lost, or has seen balanced calls, none of them if `append`
  -- raised.
  abbrev pub Kept : List Call → Option (List Call) × Result (Unit {0}) → Type 0
  Kept w (none, r) = (e : Exception) × (r ≡ err e)
  Kept w (some w', ok _) = (d : List Call) × (w' ≡ w ++ d) × IsBalanced d
  Kept w (some w', err e) = w' ≡ w

  Kept-result :
      (w : List Call) (r : List Call × Result (Unit {0}))
      → Adds w r
      → Kept w (elim r.1 [ ok _ ↦ (some r.0, ok tt) | err e ↦ (none, err e) ])
  Kept-result w (w', ok _) h = h
  Kept-result w (w', err e) h = (e, refl)

  append_under-Kept :
      (n : ℕ) (validate : Bytes → Bool) (signature : Bytes) (args : Objects) (w : List Call)
      → Kept w (append_under lib python iteration memory n validate signature args w)
  unfolding append_under
  append_under-Kept n validate signature args w = elim (Bool-cases (validate signature)) [
    | inr bad ↦ rw (bad, append_under) refl
    | inl good ↦ elim (Bool-cases (is_empty signature)) [
      | inl none_wanted ↦ rw (good, none_wanted, append_under) (Balances-return (ok tt) w)
      | inr wanted ↦
          rw (good, wanted, append_under)
            (Kept-result w
              (append_args lib python iteration memory n (lib.init signature) true args w)
              (Balances-args n (lib.init signature) true args w))
    ]
  ]

  -- `Message.append` on a usable message, where libdbus has memory and the truth of an object, which is
  -- asked for a boolean, never raises: if it returns, the message has seen
  -- balanced calls besides; if it raises, the message is as before or unusable.
  pub message_append-Kept :
      ((obj : Object) → (b : Bool) × (python.truth obj ≡ ok b))
      → (n : ℕ) (validate : Bytes → Bool) (signature : Option Bytes) (args : Objects)
        (w : List Call)
      → Kept w (message_append lib python iteration memory n validate signature args (some w))
  unfolding message_append
  message_append-Kept told n validate (some signature) args w =
      append_under-Kept n validate signature args w
  message_append-Kept told n validate none args w =
      elim (Result-cases (guess_signature python.attribute validate args)) [
        | inl (signature, h) ↦
            rw (h, message_append) (append_under-Kept n validate signature args w)
        | inr (e, h) ↦ rw (h, message_append) refl
      ]
