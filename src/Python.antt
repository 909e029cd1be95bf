-- ===== src/Python.antt =====
-- What the extension module sees of the Python interpreter: exceptions as values, integers, and the
-- objects that it converts. The build modelled is the one for Python 3 (PY3), with 64-bit integers
-- and file descriptors, and without WITH_DBUS_FLOAT32.
pub mod Integer
pub mod Object
use python_dbus.Prelude.{◌≡◌, ◌⊎◌, inl, inr, refl}

-- The exception that is set when a function returns NULL or -1. `unset` stands for a failure that
-- sets none, and `out_of_fuel` for a recursion that goes deeper than a model follows it.
pub data Exception : Type 0 where
  value_error type_error overflow_error runtime_error key_error assertion_error : Exception
  memory_error unicode_error system_exit keyboard_interrupt dbus_exception : Exception
  other_exception unset out_of_fuel : Exception

-- What a call gives back: its value, or NULL with an exception set.
pub data Result {ℓ} (T : Type ℓ) : Type ℓ where
  err : Exception → Result T
  ok : T → Result T

module _ {ℓ} {T : Type ℓ} where
  pub Result-cases : (r : Result T) → ((x : T) × (r ≡ ok x)) ⊎ ((e : Exception) × (r ≡ err e))
  Result-cases (err why) = inr (why, refl)
  Result-cases (ok x) = inl (x, refl)

-- A sequence of calls stops at the first that fails.
infixl 5 ◌>>=◌
abbrev pub ◌>>=◌ {ℓ μ} : {T : Type ℓ} {V : Type μ} → Result T → (T → Result V) → Result V
err why >>= k = err why
ok x >>= k = k x

pub >>=-eq-ok {ℓ μ} :
    {T : Type ℓ} {V : Type μ} (r : Result T) (k : T → Result V) {v : V}
    → (r >>= k) ≡ ok v
    → (x : T) × (r ≡ ok x) × (k x ≡ ok v)
>>=-eq-ok (err why) k eq = cc
>>=-eq-ok (ok x) k eq = (x, refl, eq)
