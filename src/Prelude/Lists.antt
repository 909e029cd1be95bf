-- ===== src/Prelude/Lists.antt =====
-- Lists measured by native numbers, Boolean quantifiers over them, and splitting at a separator.
use Prim.Native.Nat.{ℕ, zero, suc, ◌+◌}
use mathlib.Core.Path.{◌≡◌, refl, ap}
use mathlib.Core.Logic.{◌↔◌}
use mathlib.Core.Bool.{Bool, true, false, ◌&&◌}
use mathlib.Core.List.{List, [], ◌∷◌, ◌++◌}
use native.Mathlib.Omega.{arith}
use python_dbus.Prelude.Tests.{◌==◌, if◌then◌else◌}

-- A C string: its bytes, without the terminating NUL.
abbrev pub Bytes : Type 0
Bytes = List ℕ

module _ {ℓ} {A : Type ℓ} where
  abbrev pub length : List A → ℕ
  length [] = 0
  length (x ∷ xs) = suc (length xs)

  abbrev pub all : (A → Bool) → List A → Bool
  all p [] = true
  all p (x ∷ xs) = p x && all p xs

  abbrev pub is_empty : List A → Bool
  is_empty [] = true
  is_empty (x ∷ xs) = false

  abbrev pub take : ℕ → List A → List A
  take zero xs = []
  take (suc n) [] = []
  take (suc n) (x ∷ xs) = x ∷ take n xs

  abbrev pub drop : ℕ → List A → List A
  drop zero xs = xs
  drop (suc n) [] = []
  drop (suc n) (x ∷ xs) = drop n xs

  pub take-append : (xs ys : List A) → take (length xs) (xs ++ ys) ≡ xs
  take-append [] ys = refl
  take-append (x ∷ xs) ys = ap (λ t. x ∷ t) (take-append xs ys)

  -- Every member satisfies a predicate.
  abbrev pub All {κ} : (A → Type κ) → List A → Type κ
  All P [] = Unit
  All P (x ∷ xs) = P x × All P xs

  pub length-append : (xs ys : List A) → length (xs ++ ys) ≡ length xs + length ys
  length-append [] ys = omega arith
  length-append (x ∷ xs) ys = omega (arith, length-append xs ys)

-- The word before the first separator, and the words behind it.
abbrev pub words : ℕ → Bytes → Bytes × List Bytes
words sep [] = ([], [])
words sep (c ∷ cs) =
    let rest = words sep cs in if c == sep then ([], rest.0 ∷ rest.1) else (c ∷ rest.0, rest.1)

-- The words between the separators; one more than there are separators.
abbrev pub split : ℕ → Bytes → List Bytes
split sep s = (words sep s).0 ∷ (words sep s).1

-- Two byte strings are equal.
unfoldable pub same : Bytes → Bytes → Bool
same [] [] = true
same (x ∷ xs) (y ∷ ys) = x == y && same xs ys
same _ _ = false

pub same_iff : (a b : Bytes) → (same a b ≡ true) ↔ (a ≡ b)
unfolding same
same_iff (x ∷ xs) (y ∷ ys) = ground (arith, same_iff xs ys)
same_iff _ _ = ground arith

pub same_refl : (a : Bytes) → same a a ≡ true
same_refl a = (same_iff a a).1 refl
