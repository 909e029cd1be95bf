-- ===== src/Message/Write/Balanced/Parts.antt =====
-- The parts of `Message.append` of _dbus_bindings/message-append.c: the containers that they open and
-- close.
use mathlib.Core.List.{append_assoc}
use python_dbus.Message.Append.{Interpreter, Basic}
use python_dbus.Message.Guess.{get_variant_level, signature_string}
use python_dbus.Message.Signature.{SignatureIters}
use python_dbus.Message.Values.{
  Call, open_container, put_basic, put_bytes, close_container, abandon_container,
}
use python_dbus.Message.Write.{
  Subscripts, no_more, item, Iteration, Memory, Writer, return, ◌then_do◌, variants, finish_multi,
  end_of, call, close_or_abandon, within, append_string_as_byte_array, Append, append_variant,
  append_dictentry, append_items, append_bytes, append_entries, append_members, append_array,
}
use python_dbus.Message.Write.Steps.{
  call_lem, close_or_abandon-ok, close_or_abandon-err, within_lem, append_string_as_byte_array_lem,
  append_variant_lem, append_variant-err, openings, closings,
}
use python_dbus.Numbers.{byte_new}
use python_dbus.Prelude.{
  ℕ, Bool, true, false, Option, none, some, List, [], ◌∷◌, ◌++◌, ◌≡◌, refl, Bytes, Bool-cases, inl,
  inr,
}
use python_dbus.Python.Integer.{pos}
use python_dbus.Python.Object.{Object, Objects, nil, cons}
use python_dbus.Python.{Exception, memory_error, type_error, Result, Result-cases, ok, err}
use python_dbus.Message.Write.Balanced.Walk.{
  walk, IsBalanced, Adds, Balances, Balances-return, Balances-then, Balances-result,
  enclosed_IsBalanced, opened-IsBalanced, abandoned-IsBalanced, put-IsBalanced,
}

-- Where libdbus never lacks memory.
module _ (lib : SignatureIters) (python : Interpreter) (iteration : Iteration) (memory : Memory)
    (plenty : (w : List Call) (c : Call) → memory.for_call w c ≡ true) where
  pub Balances-call_basic :
      (c : ℕ) (b : Basic) → Balances (call lib python iteration memory (put_basic c b))
  Balances-call_basic c b w =
      rw (call_lem lib python iteration memory plenty (put_basic c b) w)
        (put_basic c b ∷ [], refl, put-IsBalanced c b)

  pub Adds-close_or_abandon :
      {A : Type 0} (c : ℕ) (sig : Option Bytes) (w d : List Call) (r : Result A)
      → IsBalanced d
      → Adds w
          (close_or_abandon lib python iteration memory r ((w ++ (open_container c sig ∷ [])) ++ d))
  Adds-close_or_abandon c sig w d (ok a) hd =
      rw
        (close_or_abandon-ok lib python iteration memory plenty a
          ((w ++ (open_container c sig ∷ [])) ++ d))
        (
          open_container c sig ∷ (d ++ (close_container ∷ [])),
          simp append_assoc,
          opened-IsBalanced c sig d hd,
        )
  Adds-close_or_abandon c sig w d (err e) hd =
      rw
        (close_or_abandon-err lib python iteration memory e
          ((w ++ (open_container c sig ∷ [])) ++ d))
        (
          open_container c sig ∷ (d ++ (abandon_container ∷ [])),
          simp append_assoc,
          abandoned-IsBalanced c sig d hd,
        )

  pub Balances-within :
      {A : Type 0} (c : ℕ) (sig : Option Bytes) (body : Writer A)
      → Balances body
      → Balances (within lib python iteration memory c sig body)
  Balances-within c sig body hb w =
      let (d, h, hd) = hb (w ++ (open_container c sig ∷ [])) in
      rw (within_lem lib python iteration memory plenty c sig body w, h)
        (Adds-close_or_abandon c sig w d (body (w ++ (open_container c sig ∷ []))).1 hd)

  pub Balances-string_as_byte_array :
      (s : Bytes) → Balances (append_string_as_byte_array lib python iteration memory s)
  unfolding walk
  Balances-string_as_byte_array s w =
      rw (append_string_as_byte_array_lem lib python iteration memory plenty s w) (
        open_container (b'a') (some (b'y' ∷ [])) ∷ put_bytes s ∷ close_container ∷ [],
        refl,
        λ k. refl,
      )

  -- What `_message_iter_append_pyobject` appends is balanced.
  abbrev pub BalancesAll : Append lib python iteration memory → Type 0
  BalancesAll append = (it : lib.Iter) (obj : Object) → Balances (append it obj)

  module _ (append : Append lib python iteration memory) (ha : BalancesAll append) where
    pub Balances-variant :
        (obj : Object) → Balances (append_variant lib python iteration memory append obj)
    Balances-variant obj w = elim (Result-cases (signature_string python.attribute true obj)) [
      | inl (sig, h) ↦
          let n = variants (get_variant_level obj) in
          let (d, e, hd) = ha (lib.init sig) obj (w ++ openings n sig) in
          rw (append_variant_lem lib python iteration memory plenty append obj sig w h, e)
            (openings n sig ++ (d ++ closings n), simp append_assoc, enclosed_IsBalanced n sig d hd)
      | inr (e, h) ↦
          rw (append_variant-err lib python iteration memory append obj e w h)
            (Balances-return {A = Unit {0}} (err e) w)
    ]

    pub Balances-dictentry :
        (it : lib.Iter) (key : Object) (value : Result Object)
        → Balances (append_dictentry lib python iteration memory append it key value)
    unfolding append_dictentry
    Balances-dictentry it key (err e) = Balances-return {A = Unit {0}} (err e)
    Balances-dictentry it key (ok value) = Balances-within (b'e') none _ (
        Balances-then (append (lib.recurse it) key)
          (λ r. append r.0 value then_do λ _. return (ok tt)) (ha (lib.recurse it) key)
          (λ r.
            Balances-then (append r.0 value) (λ _. return (ok tt)) (ha r.0 value)
              (λ _. Balances-return (ok tt))))

    pub Balances-items :
        (it : lib.Iter) (xs : Objects) (ends : Option Exception)
        → Balances (append_items lib python iteration memory append it xs ends)
    unfolding append_items
    Balances-items it nil ends = Balances-return (end_of ends true)
    Balances-items it (cons x xs) ends =
        Balances-then (append (lib.recurse it) x)
          (λ _. append_items lib python iteration memory append it xs ends) (ha (lib.recurse it) x)
          (λ _. Balances-items it xs ends)

    pub Balances-bytes :
        (xs : Objects) (ends : Option Exception)
        → Balances (append_bytes lib python iteration memory append xs ends)
    unfolding append_bytes
    Balances-bytes nil ends = Balances-return (end_of ends true)
    Balances-bytes (cons x xs) ends =
        Balances-then (return (byte_new python.platform x (pos 0)))
          (λ byte. append_variant lib python iteration memory append byte then_do λ _.
            append_bytes lib python iteration memory append xs ends)
          (Balances-return (byte_new python.platform x (pos 0)))
          (λ byte.
            Balances-then (append_variant lib python iteration memory append byte)
              (λ _. append_bytes lib python iteration memory append xs ends) (Balances-variant byte)
              (λ _. Balances-bytes xs ends))

    pub Balances-entries :
        (it : lib.Iter) (xs : Subscripts) (ends : Option Exception)
        → Balances (append_entries lib python iteration memory append it xs ends)
    unfolding append_entries
    Balances-entries it no_more ends = Balances-return (end_of ends true)
    Balances-entries it (item k v xs) ends =
        Balances-then (append_dictentry lib python iteration memory append (lib.recurse it) k v)
          (λ _. append_entries lib python iteration memory append it xs ends)
          (Balances-dictentry (lib.recurse it) k v) (λ _. Balances-entries it xs ends)

    pub Balances-members :
        (it : lib.Iter) (more : Bool) (xs : Objects) (ends : Option Exception)
        → Balances (append_members lib python iteration memory append it more xs ends)
    unfolding append_members
    Balances-members it more nil ends = Balances-return (end_of ends more)
    Balances-members it false (cons x xs) ends = Balances-return {A = Bool} (err type_error)
    Balances-members it true (cons x xs) ends =
        Balances-then (append it x)
          (λ r. append_members lib python iteration memory append r.0 r.1 xs ends) (ha it x)
          (λ r. Balances-members r.0 r.1 xs ends)

    pub Balances-array :
        (it : lib.Iter) (loop : Writer Bool)
        → Balances loop
        → Balances (append_array lib python iteration memory it loop)
    unfolding append_array
    Balances-array it loop h w = elim (Bool-cases (memory.for_signature w)) [
      | inl m ↦ rw m (
          Balances-within (b'a') (some (lib.get_signature (lib.recurse it)))
            (λ w1. let (w2, r) = loop w1 in (w2, finish_multi false r))
            (Balances-result loop (finish_multi false) h) w)
      | inr m ↦ rw m (Balances-return {A = Unit {0}} (err memory_error) w)
    ]
