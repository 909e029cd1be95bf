-- ===== src/Validation/Grammar.antt =====
-- The grammar of D-Bus names, stated over the words between the separators: what
-- _dbus_bindings/validation.c is to accept.
use python_dbus.Prelude.{
  ℕ, ◌≤◌, Bool, true, false, not, ◌&&◌, ◌||◌, [], ◌∷◌, leb, ◌==◌, Bytes, length, all, is_empty,
  split, ◌≡◌, if◌then◌else◌,
}

unfoldable pub letter : ℕ → Bool
letter c = (leb b'a' c && leb c b'z') || (leb b'A' c && leb c b'Z')

unfoldable pub digit : ℕ → Bool
digit c = leb b'0' c && leb c b'9'

-- What the words of an interface name, of a member name and of an object path are made of.
unfoldable pub word_char : ℕ → Bool
word_char c = letter c || digit c || c == b'_'

-- What the words of a bus name are made of.
unfoldable pub bus_char : ℕ → Bool
bus_char c = word_char c || c == b'-'

abbrev pub starts_with_digit : Bytes → Bool
starts_with_digit [] = false
starts_with_digit (c ∷ cs) = digit c

-- A word: not empty, all of its bytes are of a class, and no digit leads unless that is allowed.
abbrev pub is_word : (ℕ → Bool) → Bool → Bytes → Bool
is_word class digit_leads w =
    not (is_empty w) && (digit_leads || not (starts_with_digit w)) && all class w

-- Two words or more, joined by dots.
pub record IsDotted (class : ℕ → Bool) (digit_leads : Bool) (s : Bytes) : Type 0 where
  pub two_words : 2 ≤ length (split b'.' s)
  pub good_words : all (is_word class digit_leads) (split b'.' s) ≡ true

abbrev pub IsMemberName : Bytes → Type 0
IsMemberName s = (length s ≤ 255) × (is_word word_char false s ≡ true)

abbrev pub IsInterfaceName : Bytes → Type 0
IsInterfaceName s = (length s ≤ 255) × IsDotted word_char false s

-- A unique name has a colon in front, and its words may begin with a digit.
abbrev pub is_unique : Bytes → Bool
is_unique [] = false
is_unique (c ∷ cs) = c == b':'

abbrev pub dotted_part : Bytes → Bytes
dotted_part [] = []
dotted_part (c ∷ cs) = if c == b':' then cs else c ∷ cs

pub record IsBusName (may_be_unique may_be_not_unique : Bool) (s : Bytes) : Type 0 where
  pub fits : length s ≤ 255
  pub kind : (if is_unique s then may_be_unique else may_be_not_unique) ≡ true
  pub dotted : IsDotted bus_char (is_unique s) (dotted_part s)

-- `/` alone, or words of letters, digits and underscores that each follow a slash.
abbrev pub IsObjectPath : Bytes → Type 0
IsObjectPath [] = ⊥
IsObjectPath (c ∷ rest) =
    (c ≡ b'/') × ((is_empty rest || all (is_word word_char true) (split b'/' rest)) ≡ true)
