-- ===== src/Message/Append/Guessed.antt =====
-- An object of a basic type can be appended under the signature that is guessed for it.
use python_dbus.Message.Append.{Interpreter, append_string, append_unixfd, append_basic}
use python_dbus.Message.Guess.Lookup.{get_object_path}
use python_dbus.Message.Guess.{is_bool, dict_signature, describe, typed_signature, signature_string}
use python_dbus.Prelude.{
  ℕ, Bool, Bool-cases, inl, inr, true, false, none, some, [], ◌∷◌, ◌≡◌, subst, arith, ◌==◌,
}
use python_dbus.Python.Object.{
  Object, int_object, str_object, bytes_object, float_object, none_object, true_object,
  false_object, unix_fd, tuple, struct, list, array, dict, dictionary, other_object, nil, cons, end,
  entry,
}
use python_dbus.Python.{Result-cases, ok}
use python_dbus.Message.Append.Sendable.{
  sendable, succeeds, not_bracket, not_array, not_entry, get_object_path-is_text,
  append_text-is_text, letter, int_signature-letter, append_int, append_str, append_bytes,
  append_float,
}

module _ (python : Interpreter) where
  -- Under the type's own letter, without an attribute.
  typed_lem :
      (obj : Object) (c : ℕ)
      → typed_signature python.attribute obj ≡ ok (c ∷ [])
      → is_bool obj ≡ false
      → get_object_path (python.attribute obj) ≡ ok none
      → sendable python.validate_utf8 obj ≡ true
      → (c == b'(') ≡ false
      → (c == b'a') ≡ false
      → succeeds (append_basic python c obj) ≡ true
  unfolding typed_signature is_bool dict_signature append_basic append_unixfd
  typed_lem none_object c h b a s x y = cc
  typed_lem true_object c h b a s x y = cc
  typed_lem false_object c h b a s x y = cc
  typed_lem (int_object type v level) c h b a s x y =
      subst (λ d. succeeds (append_basic python d (int_object type v level)) ≡ true)
        {x = letter type} {y = c} (ground (arith, int_signature-letter type))
        (append_int python type v level s)
  typed_lem (str_object type t level) c h b a s x y =
      append_str python type t level c (ground arith) a s
  typed_lem (bytes_object type t level) c h b a s x y =
      append_bytes python type t level c (ground arith) s
  typed_lem (float_object type r level) c h b a s x y =
      subst (λ d. succeeds (append_basic python d (float_object type r level)) ≡ true) {x = b'd'}
        {y = c} (ground arith) (append_float python type r level)
  typed_lem (unix_fd fd) c h b a s x y = ground arith
  typed_lem (tuple nil) c h b a s x y = cc
  typed_lem (tuple (cons o os)) c h b a s x y = absurd (not_bracket _ _ c h x)
  typed_lem (struct nil level) c h b a s x y = cc
  typed_lem (struct (cons o os) level) c h b a s x y = absurd (not_bracket _ _ c h x)
  typed_lem (list nil) c h b a s x y = cc
  typed_lem (list (cons o os)) c h b a s x y = absurd (not_array _ c h y)
  typed_lem (array os (some sig) level) c h b a s x y = ground arith
  typed_lem (array nil none level) c h b a s x y = cc
  typed_lem (array (cons o os) none level) c h b a s x y = absurd (not_array _ c h y)
  typed_lem (dict end) c h b a s x y = cc
  typed_lem (dict (entry k v es)) c h b a s x y = absurd (not_entry python.attribute v _ _ c h y)
  typed_lem (dictionary es (some sig) level) c h b a s x y = ground arith
  typed_lem (dictionary end none level) c h b a s x y = cc
  typed_lem (dictionary (entry k v es) none level) c h b a s x y =
      absurd (not_entry python.attribute v _ _ c h y)
  typed_lem (other_object id) c h b a s x y = cc

  bool_lem : (obj : Object) (c : ℕ) → c ≡ b'b' → succeeds (append_basic python c obj) ≡ true
  unfolding append_basic
  bool_lem obj c e = ground arith

  with_path :
      (obj p : Object)
      → get_object_path (python.attribute obj) ≡ ok (some p)
      → sendable python.validate_utf8 p ≡ true
      → succeeds (append_basic python (b'o') obj) ≡ true
  unfolding append_basic append_string
  with_path obj p h s = ground (
    arith,
    append_text-is_text python.validate_utf8 p (get_object_path-is_text (python.attribute obj) p h)
        s,
  )

  -- An object for which a signature of one letter is guessed, other than a variant's, can be appended
  -- under that signature. The object is one that its own constructor accepts: its number is one of
  -- its type, or its text holds no NUL and is valid UTF-8; and so is the object path that it
  -- carries, if any.
  pub guessed_appends :
      (wants_level : Bool) (obj : Object) (c : ℕ)
      → signature_string python.attribute wants_level obj ≡ ok (c ∷ [])
      → (c == b'v') ≡ false
      → (c == b'(') ≡ false
      → (c == b'a') ≡ false
      → sendable python.validate_utf8 obj ≡ true
      → ((p : Object)
          → get_object_path (python.attribute obj) ≡ ok (some p)
          → sendable python.validate_utf8 p ≡ true)
      → succeeds (append_basic python c obj) ≡ true
  unfolding signature_string describe
  guessed_appends w obj c h nv np na s sp = elim (Bool-cases (is_bool obj)) [
    | inl b ↦ bool_lem obj c (ground arith)
    | inr b ↦ elim (Result-cases (get_object_path (python.attribute obj))) [
      | inr (e, r) ↦ absurd (ground arith)
      | inl (none, r) ↦ typed_lem obj c (ground arith) b r s np na
      | inl (some p, r) ↦
          subst (λ d. succeeds (append_basic python d obj) ≡ true) {x = b'o'} {y = c} (ground arith)
            (with_path obj p r (sp p r))
    ]
  ]
