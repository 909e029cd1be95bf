-- ===== src/VariantLevels/Lifetime.antt =====
-- The tables of VariantLevels over the lives of the objects: an identity is used again for a new
-- object once the old one is gone.
use python_dbus.Prelude.{
  ℕ, Bool, true, false, Option, none, some, ◌≡◌, refl, arith, ◌==◌, if◌then◌else◌, Bytes,
}
use python_dbus.Python.Integer.{ℤ, pos, ltb_ℤ}
use python_dbus.Python.{Exception, ok, err}
use python_dbus.VariantLevels.{
  put, variant_level_get, variant_level_set, variant_level_getattro, variant_level_clear, Tables,
  struct_dealloc, struct_store, base_store, base_dealloc,
}

-- What lives under an identity: nothing, an integer or a text, or a struct.
pub data Kind : Type 0 where
  free base structure : Kind

pub record World : Type 0 where
  pub kind : ℕ → Kind
  pub tables : Tables

abbrev pub become : (ℕ → Kind) → ℕ → Kind → ℕ → Kind
become kind obj k i = if i == obj then k else kind i

-- One object is made or goes away.
pub data Step : ℕ → World → World → Type 0 where
  base_made :
      (w : World) (obj : ℕ) (level : ℤ)
      → w.kind obj ≡ free
      → Step obj w
          (record { kind = become w.kind obj base; tables = base_store w.tables obj level })
  struct_made :
      (w : World) (obj : ℕ) (level : ℤ) (sig : Option Bytes)
      → w.kind obj ≡ free
      → Step obj w (record {
        kind = become w.kind obj structure;
        tables = (struct_store w.tables obj level (ok sig)).0;
      })
  struct_refused :
      (w : World) (obj : ℕ) (level : ℤ) (e : Exception)
      → w.kind obj ≡ free
      → Step obj w (record { kind = w.kind; tables = (struct_store w.tables obj level (err e)).0 })
  base_gone :
      (w : World) (obj : ℕ)
      → w.kind obj ≡ base
      → Step obj w (record { kind = become w.kind obj free; tables = base_dealloc w.tables obj })
  struct_gone :
      (w : World) (obj : ℕ)
      → w.kind obj ≡ structure
      → Step obj w (record { kind = become w.kind obj free; tables = struct_dealloc w.tables obj })

abbrev pub start : World
start = record { kind = λ i. free; tables = record { levels = λ i. none; signatures = λ i. none } }

pub data Reach : World → Type 0 where
  started : Reach start
  next : {w w' : World} {obj : ℕ} → Reach w → Step obj w w' → Reach w'

-- Steps on other objects.
pub data Others (obj : ℕ) : World → World → Type 0 where
  stay : {w : World} → Others obj w w
  other :
      {w w' w'' : World} {o : ℕ}
      → Others obj w w'
      → (o == obj) ≡ false
      → Step o w' w''
      → Others obj w w''

abbrev level_ok : Option ℤ → Bool
level_ok none = true
level_ok (some l) = ltb_ℤ (pos 0) l

-- What the tables hold under an identity, by what lives there.
abbrev pub kept : Kind → Option ℤ → Option (Option Bytes) → Bool
kept free none none = true
kept base level none = level_ok level
kept structure level (some s) = level_ok level
kept _ _ _ = false

abbrev pub IsTidy : World → Type 0
IsTidy w = (i : ℕ) → kept (w.kind i) (w.tables.levels i) (w.tables.signatures i) ≡ true

step-IsTidy : {o : ℕ} {w w' : World} → Step o w w' → IsTidy w → IsTidy w'
unfolding put variant_level_set variant_level_clear struct_dealloc struct_store base_store
    base_dealloc
step-IsTidy (base_made w obj level h) t i = ground (arith, t i, t obj)
step-IsTidy (struct_made w obj level sig h) t i = ground (arith, t i, t obj)
step-IsTidy (struct_refused w obj level e h) t i = ground (arith, t i, t obj)
step-IsTidy (base_gone w obj h) t i = ground (arith, t i, t obj)
step-IsTidy (struct_gone w obj h) t i = ground (arith, t i, t obj)

-- From the empty tables, whatever objects are made and go away: every identity holds what its kind
-- of object may, and an identity nothing lives under holds nothing.
pub reach-IsTidy : {w : World} → Reach w → IsTidy w
reach-IsTidy started i = refl
reach-IsTidy (next r s) i = step-IsTidy s (reach-IsTidy r) i

-- In every reachable state the assertion of `dbus_py_variant_level_get` holds, and the function
-- agrees with the attribute.
pub variant_level_get-getattro :
    {w : World} (obj : ℕ)
    → Reach w
    → variant_level_get w.tables.levels obj ≡ some (variant_level_getattro w.tables.levels obj)
unfolding variant_level_get variant_level_getattro
variant_level_get-getattro {w} obj r = let t : IsTidy w = reach-IsTidy r in ground (arith, t obj)

-- In a reachable state, an identity under which nothing lives has level 0 and no signature, whatever
-- lived there before: a new object starts with neither.
pub unused_reads_zero :
    {w : World} (obj : ℕ)
    → Reach w
    → w.kind obj ≡ free
    → (variant_level_get w.tables.levels obj ≡ some (pos 0)) × (w.tables.signatures obj ≡ none)
unfolding variant_level_get
unused_reads_zero {w} obj r h = let t : IsTidy w = reach-IsTidy r in ground (arith, t obj)

other_keeps :
    {obj o : ℕ} {w w' : World}
    → (o == obj) ≡ false
    → Step o w w'
    → (w'.tables.levels obj ≡ w.tables.levels obj)
      × (w'.tables.signatures obj ≡ w.tables.signatures obj)
unfolding put variant_level_set variant_level_clear struct_dealloc struct_store base_store
    base_dealloc
other_keeps n (base_made w obj level h) = ground arith
other_keeps n (struct_made w obj level sig h) = ground arith
other_keeps n (struct_refused w obj level e h) = ground arith
other_keeps n (base_gone w obj h) = ground arith
other_keeps n (struct_gone w obj h) = ground arith

Others-keep :
    {obj : ℕ} {w w' : World}
    → Others obj w w'
    → (w'.tables.levels obj ≡ w.tables.levels obj)
      × (w'.tables.signatures obj ≡ w.tables.signatures obj)
Others-keep stay = (refl, refl)
Others-keep (other os n s) = ground (arith, Others-keep os, other_keeps n s)

-- A struct made under an unused identity of a reachable state, with a level that is not negative,
-- reads that level and that signature after any steps on other objects.
pub struct_made_reads :
    {w w' : World} (obj : ℕ) (level : ℤ) (sig : Option Bytes)
    → Reach w
    → w.kind obj ≡ free
    → ltb_ℤ level (pos 0) ≡ false
    → Others obj
        (record {
          kind = become w.kind obj structure;
          tables = (struct_store w.tables obj level (ok sig)).0;
        })
        w'
    → (variant_level_get w'.tables.levels obj ≡ some level) × (w'.tables.signatures obj ≡ some sig)
unfolding put variant_level_get variant_level_set struct_store
struct_made_reads {w} obj level sig r h n os =
    let t : IsTidy w = reach-IsTidy r in ground (arith, t obj, Others-keep os)

-- An integer, a bytes or a text made the same way reads its level.
pub base_made_reads :
    {w w' : World} (obj : ℕ) (level : ℤ)
    → Reach w
    → w.kind obj ≡ free
    → ltb_ℤ level (pos 0) ≡ false
    → Others obj
        (record { kind = become w.kind obj base; tables = base_store w.tables obj level })
        w'
    → (variant_level_get w'.tables.levels obj ≡ some level)
unfolding put variant_level_get variant_level_set base_store
base_made_reads {w} obj level r h n os =
    let t : IsTidy w = reach-IsTidy r in ground (arith, t obj, Others-keep os)
