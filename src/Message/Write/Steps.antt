-- ===== src/Message/Write/Steps.antt =====
-- The parts of `Message.append` of _dbus_bindings/message-append.c where libdbus never lacks memory.
use mathlib.Core.List.{append_assoc, append-nil}
use python_dbus.Message.Append.{Interpreter}
use python_dbus.Message.Guess.{get_variant_level, signature_string}
use python_dbus.Message.Signature.{SignatureIters}
use python_dbus.Message.Values.{Call, open_container, put_bytes, close_container, abandon_container}
use python_dbus.Message.Write.{
  Iteration, Memory, Writer, return, ◌then_do◌, variants, call, close_or_abandon, within,
  append_string_as_byte_array, open_variants, close_variants, Append, append_variant,
}
use python_dbus.Prelude.{
  ℕ, zero, suc, true, Option, some, List, [], ◌∷◌, ◌++◌, ◌≡◌, refl, ap, ◌∙◌, Bytes,
}
use python_dbus.Python.Object.{Object}
use python_dbus.Python.{Exception, Result, ok, err}

-- Variants that are opened one in the other, and closings.
abbrev pub openings : ℕ → Bytes → List Call
openings zero sig = []
openings (suc zero) sig = open_container (b'v') (some sig) ∷ []
openings (suc (suc n)) sig = open_container (b'v') (some (b'v' ∷ [])) ∷ openings (suc n) sig

abbrev pub closings : ℕ → List Call
closings zero = []
closings (suc n) = close_container ∷ closings n

-- The result of `_message_iter_append_variant` is that of its contents.
abbrev pub forget : {A : Type 0} → Result A → Result (Unit {0})
forget r = elim r [ ok _ ↦ ok tt | err e ↦ err e ]

pub then_do_lem :
    {A B : Type 0} (m : Writer A) (f : A → Writer B) (w w' : List Call) (a : A)
    → m w ≡ (w', ok a)
    → (m then_do f) w ≡ f a w'
then_do_lem m f w w' a h = ap (λ r. ((λ _. r) then_do f) w) h

module _ (lib : SignatureIters) (python : Interpreter) (iteration : Iteration)
    (memory : Memory) where
  pub close_or_abandon-err :
      {A : Type 0} (e : Exception) (w : List Call)
      → close_or_abandon lib python iteration memory {A = A} (err e) w
        ≡ (w ++ (abandon_container ∷ []), err e)
  unfolding close_or_abandon
  close_or_abandon-err e w = refl

  pub append_variant-err :
      (append : Append lib python iteration memory) (obj : Object) (e : Exception) (w : List Call)
      → signature_string python.attribute true obj ≡ err e
      → append_variant lib python iteration memory append obj w ≡ (w, err e)
  unfolding append_variant
  append_variant-err append obj e w h = rw (h, append_variant)

module _ (lib : SignatureIters) (python : Interpreter) (iteration : Iteration) (memory : Memory)
    (plenty : (w : List Call) (c : Call) → memory.for_call w c ≡ true) where
  pub call_lem :
      (c : Call) (w : List Call) → call lib python iteration memory c w ≡ (w ++ (c ∷ []), ok tt)
  unfolding call
  call_lem c w = rw (plenty w c)

  pub close_or_abandon-ok :
      {A : Type 0} (a : A) (w : List Call)
      → close_or_abandon lib python iteration memory (ok a) w ≡ (w ++ (close_container ∷ []), ok a)
  unfolding close_or_abandon
  close_or_abandon-ok a w =
      then_do_lem (call lib python iteration memory close_container) (λ _. return (ok a)) w
        (w ++ (close_container ∷ [])) tt (call_lem close_container w)

  pub within_lem :
      {A : Type 0} (c : ℕ) (sig : Option Bytes) (body : Writer A) (w : List Call)
      → within lib python iteration memory c sig body w ≡ (
          let r = body (w ++ (open_container c sig ∷ [])) in
          close_or_abandon lib python iteration memory r.1 r.0)
  unfolding within
  within_lem c sig body w =
      then_do_lem (call lib python iteration memory (open_container c sig))
        (λ _ w. let (w', r) = body w in close_or_abandon lib python iteration memory r w') w
        (w ++ (open_container c sig ∷ [])) tt (call_lem (open_container c sig) w)

  pub open_variants_lem :
      (n : ℕ) (sig : Bytes) (w : List Call)
      → open_variants lib python iteration memory n sig w ≡ (w ++ openings n sig, ok tt)
  unfolding open_variants
  open_variants_lem zero sig w = rw (append-nil w)
  open_variants_lem (suc zero) sig w = call_lem (open_container (b'v') (some sig)) w
  open_variants_lem (suc (suc n)) sig w =
      let c = open_container (b'v') (some (b'v' ∷ [])) in
      then_do_lem (call lib python iteration memory c)
        (λ _. open_variants lib python iteration memory (suc n) sig) w (w ++ (c ∷ [])) tt
        (call_lem c w)
      ∙ open_variants_lem (suc n) sig (w ++ (c ∷ []))
      ∙ simp append_assoc

  pub close_variants_lem :
      (n : ℕ) (w : List Call)
      → close_variants lib python iteration memory n w ≡ (w ++ closings n, ok tt)
  unfolding close_variants
  close_variants_lem zero w = rw (append-nil w)
  close_variants_lem (suc n) w =
      then_do_lem (call lib python iteration memory close_container)
        (λ _. close_variants lib python iteration memory n) w (w ++ (close_container ∷ [])) tt
        (call_lem close_container w)
      ∙ close_variants_lem n (w ++ (close_container ∷ []))
      ∙ simp append_assoc

  pub append_string_as_byte_array_lem :
      (s : Bytes) (w : List Call)
      → append_string_as_byte_array lib python iteration memory s w ≡ (
        w ++ (open_container (b'a') (some (b'y' ∷ [])) ∷ put_bytes s ∷ close_container ∷ []),
        ok tt,
      )
  unfolding append_string_as_byte_array
  append_string_as_byte_array_lem s w =
      let c = open_container (b'a') (some (b'y' ∷ [])) in
      then_do_lem (call lib python iteration memory c)
        (λ _ w.
          let (w', r) = call lib python iteration memory (put_bytes s) w in
          (call lib python iteration memory close_container then_do λ _. return r) w')
        w (w ++ (c ∷ [])) tt (call_lem c w)
      ∙ rw (call_lem (put_bytes s) (w ++ (c ∷ []))) (
          then_do_lem (call lib python iteration memory close_container) (λ _. return (ok tt))
            ((w ++ (c ∷ [])) ++ (put_bytes s ∷ [])) _ tt
            (call_lem close_container ((w ++ (c ∷ [])) ++ (put_bytes s ∷ [])))
          ∙ simp append_assoc)

  pub append_variant_lem :
      (append : Append lib python iteration memory) (obj : Object) (sig : Bytes) (w : List Call)
      → signature_string python.attribute true obj ≡ ok sig
      → append_variant lib python iteration memory append obj w ≡ (
          let n = variants (get_variant_level obj) in
          let r = append (lib.init sig) obj (w ++ openings n sig) in
          (r.0 ++ closings n, forget r.1))
  unfolding append_variant
  append_variant_lem append obj sig w h =
      let n = variants (get_variant_level obj) in
      let r = append (lib.init sig) obj (w ++ openings n sig) in
      rw (h, append_variant)
        (then_do_lem (open_variants lib python iteration memory n sig)
            (λ _ w1.
              let (w2, r) = append (lib.init sig) obj w1 in
              (close_variants lib python iteration memory n then_do λ _. return (forget r)) w2)
            w (w ++ openings n sig) tt (open_variants_lem n sig w)
          ∙ then_do_lem (close_variants lib python iteration memory n) (λ _. return (forget r.1))
              r.0 (r.0 ++ closings n) tt (close_variants_lem n r.0))
