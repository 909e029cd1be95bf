-- ===== src/Message/Write/Again/Shape.antt =====
-- Facts on values: the variants in front of one, and its type. They stand in the proofs about
-- _dbus_bindings/message-append.c.
use mathlib.Core.List.{append_assoc, append-nil}
use python_dbus.Message.Append.{Basic}
use python_dbus.Message.Objects.{object_of, depth, core, Fits}
use python_dbus.Message.Types
use python_dbus.Message.Types.{Ty, Tys, print, print_all}
use python_dbus.Message.Values.{
  Value, basic, array, dict, struct, variant, type_of, calls, size, code, is_variant, basic_fits,
  open_container, close_container,
}
use python_dbus.Message.Write.Steps.{openings, closings}
use python_dbus.Prelude.{
  ℕ, zero, suc, ◌+◌, ◌≤◌, Bool, true, false, ◌==◌, some, [], ◌∷◌, ◌++◌, ◌≡◌, ◌∙◌, is_empty, refl,
  sym, ap, arith, Bytes,
}

pub closings-snoc : (n : ℕ) → closings n ++ (close_container ∷ []) ≡ closings (suc n)
closings-snoc zero = refl
closings-snoc (suc n) = ap (λ cs. close_container ∷ cs) (closings-snoc n)

-- A variant is opened as often as it is deep.
pub calls-core :
    (v : Value)
    → calls v
      ≡ openings (depth v) (print (type_of (core v))) ++ (calls (core v) ++ closings (depth v))
unfolding calls depth core type_of print
calls-core (basic t b) = sym (append-nil _)
calls-core (array t vs) = sym (append-nil _)
calls-core (dict k v ps) = sym (append-nil _)
calls-core (struct v vs) = sym (append-nil _)
calls-core (variant (variant v)) =
    let n = suc (depth v) in
    let o = openings n (print (type_of (core v))) in
    ap (λ cs. open_container (b'v') (some (b'v' ∷ [])) ∷ (cs ++ (close_container ∷ [])))
      (calls-core (variant v))
    ∙ ap (λ cs. open_container (b'v') (some (b'v' ∷ [])) ∷ cs)
        (append_assoc o (calls (core v) ++ closings n) (close_container ∷ [])
          ∙ ap (λ cs. o ++ cs)
              (append_assoc (calls (core v)) (closings n) (close_container ∷ [])
                ∙ ap (λ cs. calls (core v) ++ cs) (closings-snoc n)))
calls-core (variant v) = refl

pub is_variant-core : (v : Value) → is_variant (core v) ≡ false
unfolding core is_variant
is_variant-core (variant v) = is_variant-core v
is_variant-core _ = refl

pub size-core : (v : Value) → size (core v) ≤ size v
unfolding core size
size-core (variant v) = omega (arith, size-core v)
size-core _ = omega arith

pub depth-core : (v : Value) → depth (core v) ≡ 0
unfolding core depth
depth-core (variant v) = depth-core v
depth-core _ = refl

pub object_of-core : (l : ℕ) (v : Value) → object_of l v ≡ object_of (l + depth v) (core v)
unfolding core depth object_of
object_of-core l (variant v) =
    object_of-core (suc l) v ∙ ap (λ m. object_of m (core v)) (omega arith)
object_of-core l (basic t b) = ap (λ m. object_of m (basic t b)) (omega arith)
object_of-core l (array t vs) = ap (λ m. object_of m (array t vs)) (omega arith)
object_of-core l (dict t u ps) = ap (λ m. object_of m (dict t u ps)) (omega arith)
object_of-core l (struct v vs) = ap (λ m. object_of m (struct v vs)) (omega arith)

pub object_of-core0 : (v : Value) → object_of 0 v ≡ object_of (depth v) (core v)
object_of-core0 v = object_of-core 0 v ∙ ap (λ m. object_of m (core v)) (omega arith)

pub code-ne-entry : (t : Ty) → (code t == b'e') ≡ false
unfolding code
code-ne-entry Types.byte = refl
code-ne-entry _ = refl

pub basic_code :
    (utf8 validate : Bytes → Bool) (t : Ty) (b : Basic)
    → basic_fits utf8 validate t b ≡ true
    → ((code t == b'a') ≡ false) × ((code t == b'r') ≡ false) × ((code t == b'v') ≡ false)
unfolding basic_fits code
basic_code utf8 validate (Types.array t) b h = absurd (cc h)
basic_code utf8 validate (Types.dict k v) b h = absurd (cc h)
basic_code utf8 validate (Types.struct t ts) b h = absurd (cc h)
basic_code utf8 validate Types.variant b h = absurd (cc h)
basic_code utf8 validate Types.byte b h = (refl, refl, refl)
basic_code utf8 validate _ b h = (refl, refl, refl)

pub is_empty-print_all : (t : Ty) (ts : Tys) → is_empty (print_all (Tys.cons t ts)) ≡ false
unfolding print
is_empty-print_all Types.byte ts = refl
is_empty-print_all _ ts = refl

pub size_pos : (v : Value) → 1 ≤ size v
unfolding size
size_pos (basic t b) = omega arith
size_pos _ = omega arith

module _ (utf8 validate validate_single : Bytes → Bool) where
  pub core-Fits :
      (v : Value)
      → Fits utf8 validate validate_single v
      → Fits utf8 validate validate_single (core v)
  unfolding core Fits
  core-Fits (variant v) h = core-Fits v h
  core-Fits (basic t b) h = h
  core-Fits (array t vs) h = h
  core-Fits (dict k v ps) h = h
  core-Fits (struct v vs) h = h
