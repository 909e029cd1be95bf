-- ===== src/VariantLevels/Reprs.antt =====
-- What repr() gives for the objects of the extension module that have a variant level: the functions
-- `..._tp_repr` of _dbus_bindings/abstract.c, int.c, string.c and containers.c. `digits` is the
-- conversion `%ld`; the name of the type and the texts of the base type and of the signature are given. A call
-- that fails is an exception.
pub mod Shows
use python_dbus.Prelude.{
  ℕ, Bool, true, false, not, same, Option, none, some, [], ◌∷◌, ◌++◌, Bytes, if◌then◌else◌,
}
use python_dbus.Python.Integer.{ℤ, pos, negsuc, pos_part, ltb_ℤ}
use python_dbus.Python.{assertion_error, Result, ok, err, ◌>>=◌}
use python_dbus.VariantLevels.{Table, variant_level_get, variant_level_getattro, Tables}

-- `", variant_level="` and `", signature="`
abbrev pub level_label : Bytes
level_label =
    b',' ∷ b' ' ∷ b'v' ∷ b'a' ∷ b'r' ∷ b'i' ∷ b'a' ∷ b'n' ∷ b't' ∷ b'_' ∷ b'l' ∷ b'e' ∷ b'v' ∷ b'e'
    ∷ b'l' ∷ b'=' ∷ []

abbrev pub signature_label : Bytes
signature_label =
    b',' ∷ b' ' ∷ b's' ∷ b'i' ∷ b'g' ∷ b'n' ∷ b'a' ∷ b't' ∷ b'u' ∷ b'r' ∷ b'e' ∷ b'=' ∷ []

-- `"signature"`
abbrev signature_name : Bytes
signature_name = b's' ∷ b'i' ∷ b'g' ∷ b'n' ∷ b'a' ∷ b't' ∷ b'u' ∷ b'r' ∷ b'e' ∷ []

-- `"True"` and `"False"`
abbrev pub bool_text : Bool → Bytes
bool_text true = b'T' ∷ b'r' ∷ b'u' ∷ b'e' ∷ []
bool_text false = b'F' ∷ b'a' ∷ b'l' ∷ b's' ∷ b'e' ∷ []

module _ (digits : ℕ → Bytes) where
  -- What follows the parts in front: `", variant_level=%ld)"` or `")"`.
  unfoldable pub level_tail : ℤ → Bytes
  level_tail variant_level =
      if ltb_ℤ (pos 0) variant_level
      then level_label ++ (digits (pos_part variant_level) ++ (b')' ∷ []))
      else b')' ∷ []

  -- `"%s(%V, variant_level=%ld)"` and `"%s(%V)"`
  unfoldable pub named : Bytes → Bytes → ℤ → Bytes
  named name parent variant_level = name ++ (b'(' ∷ (parent ++ level_tail variant_level))

  -- `"%s(%V, signature=%V, variant_level=%ld)"` and `"%s(%V, signature=%V)"`
  unfoldable pub signed : Bytes → Bytes → Bytes → ℤ → Bytes
  signed name parent sig variant_level =
      name ++ (b'(' ∷ (parent ++ (signature_label ++ (sig ++ level_tail variant_level))))

  -- `DBusPythonFloat_tp_repr`
  unfoldable pub float_repr : Bytes → Result Bytes → ℤ → Result Bytes
  float_repr name parent_repr variant_level = do
    parent ← parent_repr
    ok (named name parent variant_level)

  -- `String_tp_repr`
  unfoldable pub string_repr : Bytes → Result Bytes → ℤ → Result Bytes
  string_repr name parent_repr variant_level = do
    parent ← parent_repr
    ok (named name parent variant_level)

  -- `DBusPythonBytes_tp_repr`, `DBusPythonString_tp_repr` and `DBusPythonLong_tp_repr`, whose level is an
  -- attribute; `fetched` says whether it can be looked up and made an object.
  unfoldable pub bytes_repr : Bytes → Result Bytes → Result (Unit {0}) → Table ℤ → ℕ → Result Bytes
  bytes_repr name parent_repr fetched levels self = do
    parent ← parent_repr
    _ ← fetched
    ok (named name parent (variant_level_getattro levels self))

  unfoldable pub string_base_repr :
      Bytes → Result Bytes → Result (Unit {0}) → Table ℤ → ℕ → Result Bytes
  string_base_repr name parent_repr fetched levels self = do
    parent ← parent_repr
    _ ← fetched
    ok (named name parent (variant_level_getattro levels self))

  unfoldable pub long_repr : Bytes → Result Bytes → Result (Unit {0}) → Table ℤ → ℕ → Result Bytes
  long_repr name parent_repr fetched levels self = do
    parent ← parent_repr
    _ ← fetched
    ok (named name parent (variant_level_getattro levels self))

  -- `Boolean_tp_repr`. The truth of an int cannot fail.
  unfoldable pub boolean_repr : Bytes → Bool → Table ℤ → ℕ → Result Bytes
  boolean_repr name is_true levels self = elim (variant_level_get levels self) [
    | none ↦ err assertion_error
    | some variant_level ↦ ok (named name (bool_text is_true) variant_level)
  ]

  -- `Array_tp_repr` and `Dict_tp_repr`
  unfoldable pub array_repr : Bytes → Result Bytes → Result Bytes → ℤ → Result Bytes
  array_repr name parent_repr sig_repr variant_level = do
    parent ← parent_repr
    sig ← sig_repr
    ok (signed name parent sig variant_level)

  unfoldable pub dict_repr : Bytes → Result Bytes → Result Bytes → ℤ → Result Bytes
  dict_repr name parent_repr sig_repr variant_level = do
    parent ← parent_repr
    sig ← sig_repr
    ok (signed name parent sig variant_level)

  -- The signature that is shown for a struct: that of the table, and None if it has none.
  unfoldable pub struct_signature : Tables → ℕ → Option Bytes
  struct_signature t self = elim (t.signatures self) [ none ↦ none | some sig ↦ sig ]

  -- `Struct_tp_getattro`, where the key of the table can be made; `getattro` is what
  -- `dbus_py_variant_level_getattro` gives for a name.
  unfoldable struct_getattro {ℓ} :
      {V : Type ℓ} → (Option Bytes → V) → (Bytes → Result V) → Tables → ℕ → Bytes → Result V
  struct_getattro value getattro t self name =
      if not (same name signature_name) then getattro name else ok (value (struct_signature t self))

  -- `Struct_tp_repr`. `show_signature` is repr() of a signature or of None.
  unfoldable pub struct_repr :
      Bytes → Result Bytes → (Option Bytes → Result Bytes) → Tables → ℕ → Result Bytes
  struct_repr name parent_repr show_signature t self = do
    parent ← parent_repr
    sig ← show_signature (struct_signature t self)
    elim (variant_level_get t.levels self) [
      | none ↦ err assertion_error
      | some variant_level ↦ ok (signed name parent sig variant_level)
    ]
