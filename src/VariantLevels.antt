-- ===== src/VariantLevels.antt =====
-- The variant levels of immutable objects, and the signatures of structs: the dicts
-- `_dbus_py_variant_levels` of _dbus_bindings/abstract.c and `struct_signatures` of containers.c,
-- which are keyed by the identity of the object.
pub mod Lifetime
pub mod Reprs
use python_dbus.Prelude.{ℕ, Option, none, some, ◌==◌, if◌then◌else◌, Bytes}
use python_dbus.Python.Integer.{ℤ, pos, ltb_ℤ}
use python_dbus.Python.{Exception, Result, ok, err}

-- A dict by its lookup; the key is `PyLong_FromVoidPtr(obj)`.
abbrev pub Table {ℓ} : Type ℓ → Type ℓ
Table A = ℕ → Option A

-- `PyDict_SetItem`, and `PyDict_DelItem` for `none`.
unfoldable pub put {ℓ} : {A : Type ℓ} → Table A → ℕ → Option A → Table A
put t key value i = if i == key then value else t i

-- `dbus_py_variant_level_get`; `none` is a failed assertion.
unfoldable pub variant_level_get : Table ℤ → ℕ → Option ℤ
variant_level_get levels obj = elim (levels obj) [
  | none ↦ some (pos 0)
  | some variant_level ↦ if ltb_ℤ variant_level (pos 0) then none else some variant_level
]

-- `dbus_py_variant_level_set`
unfoldable pub variant_level_set : Table ℤ → ℕ → ℤ → Table ℤ
variant_level_set levels obj variant_level =
    if ltb_ℤ (pos 0) variant_level
    then put levels obj (some variant_level)
    else elim (levels obj) [ some _ ↦ put levels obj none | none ↦ levels ]

-- `dbus_py_variant_level_getattro`, for the attribute `variant_level`.
unfoldable pub variant_level_getattro : Table ℤ → ℕ → ℤ
variant_level_getattro levels obj = elim (levels obj) [ none ↦ pos 0 | some value ↦ value ]

-- `dbus_py_variant_level_clear`
unfoldable pub variant_level_clear : Table ℤ → ℕ → Table ℤ
variant_level_clear levels self = variant_level_set levels self (pos 0)

pub record Tables : Type 0 where
  pub levels : Table ℤ
  pub signatures : Table (Option Bytes)

-- `Struct_tp_dealloc`
unfoldable pub struct_dealloc : Tables → ℕ → Tables
struct_dealloc t self = record {
  levels = variant_level_clear t.levels self;
  signatures = elim (t.signatures self) [
    | some _ ↦ put t.signatures self none
    | none ↦ t.signatures
  ];
}

-- The rest of `Struct_tp_new` once the tuple has items, with what the signature converts to. When
-- that fails, `Py_CLEAR(self)` deallocates the struct.
unfoldable pub struct_store : Tables → ℕ → ℤ → Result (Option Bytes) → Tables × Result ℕ
struct_store t self variantness signature =
    let t1 : Tables = record {
      levels = variant_level_set t.levels self variantness;
      signatures = t.signatures;
    } in
    elim signature [
      | ok sig ↦
          (record { levels = t1.levels; signatures = put t1.signatures self (some sig) }, ok self)
      | err e ↦ (struct_dealloc t1 self, err e)
    ]

-- The end of `DBusPythonBytes_tp_new`, `DBusPythonString_tp_new` and `DBusPythonLong_tp_new`, for a level that is not
-- negative.
unfoldable pub base_store : Tables → ℕ → ℤ → Tables
base_store t self variantness = record {
  levels = variant_level_set t.levels self variantness;
  signatures = t.signatures;
}

-- `DBusPyBytesBase_tp_dealloc`, `DBusPyStrBase_tp_dealloc` and `DBusPyLongBase_tp_dealloc`.
unfoldable pub base_dealloc : Tables → ℕ → Tables
base_dealloc t self = record {
  levels = variant_level_clear t.levels self;
  signatures = t.signatures;
}
