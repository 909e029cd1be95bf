-- ===== src/Message/Guess/Arguments.antt =====
-- `dbus_py_Message_guess_signature` of _dbus_bindings/message-append.c, and an exception that
-- `_signature_string_from_pyobject` loses.
use mathlib.Core.List.{append_assoc}
use python_dbus.Message.Guess.Lookup.{Attribute, get_object_path}
use python_dbus.Message.Guess.Sound.{
  HasSignatures, IsSequence, IsSequence-cons, Gives-bind, Gives-if, Gives-lookup, HaveSignatures,
  count, Gives, gives, fails, Gives-ok, describe-Gives, typed_signature-Gives,
  item_signatures-Gives,
}
use python_dbus.Message.Guess.{
  get_variant_level, is_bool, describe, clears_exception, join_entry, typed_signature,
  signature_string, new_signature, guess_signature,
}
use python_dbus.Message.Types.{Tys, print}
use python_dbus.Prelude.{
  sym, ap, ◌⊎◌, inl, inr, ℕ, ◌-◌, Bool, true, false, none, [], ◌∷◌, ◌++◌, ◌≡◌, refl, arith, ltb,
  if◌then◌else◌, Bytes, length, length-append, take, drop, take-append,
}
use python_dbus.Python.Object.{Object, tuple, dict, Objects, nil, cons, Entries, entry}
use python_dbus.Python.{Exception, runtime_error, unset, ok, err}

-- Between the parentheses.
pub inner : (s : Bytes) → take (length (b'(' ∷ (s ++ (b')' ∷ []))) - 2) (s ++ (b')' ∷ [])) ≡ s
inner s =
    let e : length (b'(' ∷ (s ++ (b')' ∷ []))) - 2 ≡ length s =
      omega (arith, length-append s (b')' ∷ [])) in
    rw e (take-append s (b')' ∷ []))

new_signature-Gives :
    {P : Bytes → Type 0} (signature_validate : Bytes → Bool) (s : Bytes)
    → P s
    → Gives P (new_signature signature_validate s)
unfolding new_signature
new_signature-Gives signature_validate s h = Gives-if (signature_validate s) (gives h) fails

-- The signature of the argument tuple: that of a structure, or of an object path.
abbrev IsTupleSignature : ℕ → Bytes → Type 0
IsTupleSignature n s =
    (s ≡ b'o' ∷ []) ⊎ ((t : Bytes) × (s ≡ b'(' ∷ (t ++ (b')' ∷ []))) × IsSequence n t)

-- What is done with that signature.
strip-Gives :
    {n : ℕ} (signature_validate : Bytes → Bool) (s : Bytes)
    → IsTupleSignature n s
    → Gives (IsSequence n) (
        if ltb (length s) 2
        then err runtime_error
        else new_signature signature_validate (take (length s - 2) (drop 1 s)))
strip-Gives signature_validate s (inl o) = rw o fails
strip-Gives {n} signature_validate s (inr (t, e, h)) =
    rw (e, inner t)
      (Gives-if (ltb (length (b'(' ∷ (t ++ (b')' ∷ [])))) 2) fails
        (new_signature-Gives signature_validate t h))

module _ (attribute : Object → Attribute) (signature_validate : Bytes → Bool) where
  tuple-Gives :
      (x : Object) (xs : Objects)
      → HaveSignatures (cons x xs)
      → Gives
          (IsTupleSignature (count (cons x xs)))
          (signature_string attribute false (tuple (cons x xs)))
  unfolding signature_string describe get_variant_level is_bool typed_signature HasSignatures
  tuple-Gives x xs h = Gives-lookup (get_object_path (attribute (tuple (cons x xs)))) (inl refl) (
      Gives-bind (describe-Gives attribute false x (typed_signature-Gives attribute x h.0)) λ s g.
        Gives-bind (item_signatures-Gives attribute xs h.1) λ t gs. gives (
          inr (
            s ++ t,
            ap (λ u. b'(' ∷ u) (sym (append_assoc s t (b')' ∷ []))),
            IsSequence-cons s t g gs,
          )))

  guess_signature-Gives :
      (args : Objects)
      → HaveSignatures args
      → Gives (IsSequence (count args)) (guess_signature attribute signature_validate args)
  unfolding guess_signature print
  guess_signature-Gives nil h = new_signature-Gives signature_validate [] (Tys.nil, refl, refl)
  guess_signature-Gives (cons x xs) h =
      Gives-bind (tuple-Gives x xs h) (strip-Gives signature_validate)

  -- The signature that is guessed for an argument tuple has one complete type for each argument,
  -- for arguments whose arrays and dictionaries hold signatures that their constructors accept.
  pub guess_signature-IsSequence :
      (args : Objects) {s : Bytes}
      → HaveSignatures args
      → guess_signature attribute signature_validate args ≡ ok s
      → IsSequence (count args) s
  guess_signature-IsSequence args h e = Gives-ok (guess_signature-Gives args h) e

module _ (attribute : Object → Attribute) where
  typed_signature-unset :
      (k v : Object) (es : Entries) (d : Exception) (s : Bytes)
      → describe attribute false k (typed_signature attribute k) ≡ err d
      → describe attribute false v (typed_signature attribute v) ≡ ok s
      → clears_exception attribute v ≡ true
      → typed_signature attribute (dict (entry k v es)) ≡ err unset
  unfolding typed_signature join_entry
  typed_signature-unset k v es d s hk hv hc = rw (hk, hv, hc)

  -- Where the first key of a dict cannot be encoded, and its value can after its own attribute
  -- lookup came back empty, the call fails with no exception set: the lookup cleared the key's.
  pub dict-loses_exception :
      (k v : Object) (es : Entries) (d : Exception) (s : Bytes)
      → describe attribute false k (typed_signature attribute k) ≡ err d
      → describe attribute false v (typed_signature attribute v) ≡ ok s
      → clears_exception attribute v ≡ true
      → get_object_path (attribute (dict (entry k v es))) ≡ ok none
      → (wants_level : Bool)
      → signature_string attribute wants_level (dict (entry k v es)) ≡ err unset
  unfolding signature_string describe get_variant_level is_bool
  dict-loses_exception k v es d s hk hv hc ha true =
      rw (ha, typed_signature-unset k v es d s hk hv hc)
  dict-loses_exception k v es d s hk hv hc ha false =
      rw (ha, typed_signature-unset k v es d s hk hv hc)
