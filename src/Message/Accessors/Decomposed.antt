-- ===== src/Message/Accessors/Decomposed.antt =====
-- A path and its components, as `get_path` and `get_path_decomposed` of _dbus_bindings/message.c give
-- them.
use python_dbus.Message.Accessors.{
  components, Queries, usable, get_path, decompose_loop, get_path_decomposed,
}
use python_dbus.Message.Headers.{Library}
use python_dbus.Message.Read.{object_path_new, str_base_new}
use mathlib.Core.List.{append-nil, append_assoc}
use python_dbus.Prelude.{
  ◌∙◌, Bool, true, none, some, List, [], ◌∷◌, ◌++◌, ◌≡◌, inl, inr, refl, arith, Bytes, ◌==◌, split,
  Bool-cases, ◌≢◌,
}
use python_dbus.Python.Integer.{pos}
use python_dbus.Python.Object.{str_object, object_path}
use python_dbus.Python.{ok}
use python_dbus.Validation.{passes, validate_object_path}

-- Each part behind a slash.
abbrev pub behind_slashes : List Bytes → Bytes
behind_slashes [] = []
behind_slashes (p ∷ ps) = b'/' ∷ (p ++ behind_slashes ps)

-- The path that has the parts.
abbrev pub joined : List Bytes → Bytes
joined [] = b'/' ∷ []
joined (p ∷ ps) = behind_slashes (p ∷ ps)

behind_slashes-split : (s : Bytes) → behind_slashes (split b'/' s) ≡ b'/' ∷ s
behind_slashes-split [] = refl
behind_slashes-split (c ∷ cs) = elim (Bool-cases (c == b'/')) [
  | inl e ↦ ground (arith, behind_slashes-split cs)
  | inr e ↦ ground (arith, behind_slashes-split cs)
]

joined-components : (p : Bytes) → passes (validate_object_path p) ≡ true → joined (components p) ≡ p
unfolding validate_object_path passes
joined-components [] h = cc
joined-components (c ∷ []) h = ground arith
joined-components (c ∷ d ∷ rest) h = behind_slashes-split (d ∷ rest) ∙ ground arith

module _ (l : Library) (a : Queries l) where
  decompose_loop_lem :
      (makes : Bytes → Bool) (grows : List Bytes → Bool) (paths ret : List Bytes)
      → ((s : Bytes) → makes s ≡ true)
      → ((s : List Bytes) → grows s ≡ true)
      → decompose_loop l a makes grows paths ret ≡ (some (ret ++ paths), 0)
  unfolding decompose_loop
  decompose_loop_lem makes grows [] ret made grown = rw append-nil
  decompose_loop_lem makes grows (p ∷ ps) ret made grown = rw (made p) (
      rw (grown ret)
        (decompose_loop_lem makes grows ps (ret ++ (p ∷ [])) made grown ∙ rw append_assoc))

  -- For a message with a path: `get_path` gives that path as an ObjectPath, and where libdbus and Python
  -- have memory, `get_path_decomposed` gives parts that make up the same path, each behind a slash, and
  -- `/` if there are none; it leaves no string behind.
  pub get_path_decomposed-get_path :
      (makes : Bytes → Bool) (grows : List Bytes → Bool) (m : l.Msg) (p : Bytes)
      → l.get_path m ≡ some p
      → a.path_decomposed m ≢ none
      → ((s : Bytes) → makes s ≡ true)
      → ((s : List Bytes) → grows s ≡ true)
      → (get_path l a (some m) ≡ ok (some (str_object object_path p (pos 0))))
        × ((parts : List Bytes) × (get_path_decomposed l a makes grows true (some m)
              ≡ (ok (some parts), 0))
            × (joined parts ≡ p))
  unfolding get_path_decomposed get_path usable object_path_new str_base_new
  get_path_decomposed-get_path makes grows m p e memory made grown =
      let good = a.path_valid m p e in
      (
        rw e (rw good refl),
        elim (a.path_decomposed_lem m p e) [
          | inl none_left ↦ absurd (memory none_left)
          | inr found ↦ (
            components p,
            rw (found, get_path_decomposed)
                (rw (decompose_loop_lem makes grows (components p) [] made grown) refl),
            joined-components p good,
          )
        ],
      )
