-- ===== src/Validation/Chars.antt =====
-- What the tests of _dbus_bindings/validation.c on single bytes mean, and what the loops over dotted
-- names have in common.
use python_dbus.Prelude.{
  ℕ, Bool, true, false, not, ◌&&◌, ◌||◌, Option, none, some, ◌≡◌, ◌↔◌, refl, arith, ltb, ◌==◌,
  if◌then◌else◌, Bytes, length, all, words, split,
}
use python_dbus.Validation.Grammar.{letter, digit, word_char, bus_char, is_word}
use python_dbus.Validation.{Verdict, valid, invalid, passes, is_digit, not_letter}

abbrev pub accepts {ℓ} : {A : Type ℓ} → Option A → Bool
accepts none = true
accepts (some a) = false

-- A loop is at the start of a word: before the first byte, or behind a dot.
abbrev pub at_start : ℕ → Bool
at_start last = last == b'.' || last == 0

pub is_digit-digit : (c : ℕ) → is_digit c ≡ digit c
unfolding is_digit digit
is_digit-digit c = refl

pub not_letter-letter : (c : ℕ) → not_letter c ≡ not (letter c)
unfolding not_letter letter
not_letter-letter c = ground arith

pub zero_refused : (c : ℕ) → bus_char c ≡ true → (c == 0) ≡ false
unfolding bus_char word_char letter digit
zero_refused c h = ground arith

pub word_char-bus_char : (c : ℕ) → word_char c ≡ true → bus_char c ≡ true
unfolding bus_char
word_char-bus_char c h = ground arith

-- What one round of a loop over a dotted name lets pass.
abbrev pub round : (ℕ → Bool) → Bool → ℕ → ℕ → Bool
round class digit_leads last c =
    if c == b'.'
    then not (at_start last)
    else class c && (digit_leads || not (at_start last) || not (digit c))

module _ (class : ℕ → Bool) (digit_leads : Bool) where
  -- What is left of a dotted name is as it should be, inside a word or at the start of one.
  abbrev pub continues : Bool → Bytes → Bool
  continues start s =
      (if start then is_word class digit_leads (words b'.' s).0 else all class (words b'.' s).0)
      && all (is_word class digit_leads) (words b'.' s).1

  abbrev pub has_dot : Bool → Bytes → Bool
  has_dot dot s = dot || ltb 1 (length (split b'.' s))

pub passes_iff : (v : Verdict) → (v ≡ valid) ↔ (passes v ≡ true)
unfolding passes
passes_iff valid = ground arith
passes_iff (invalid r) = ground arith
