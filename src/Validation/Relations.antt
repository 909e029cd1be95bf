-- ===== src/Validation/Relations.antt =====
-- How the languages of the validators of _dbus_bindings/validation.c lie in one another.
use python_dbus.Prelude.{
  ℕ, suc, ◌≤◌, Bool-cases, inl, inr, Bool, true, false, ◌&&◌, [], ◌∷◌, ◌++◌, ◌≡◌, ◌≢◌, refl, arith,
  ◌==◌, Bytes, List, length, all, All, split, words,
}
use python_dbus.Validation.BusName.{validate_bus_name_iff}
use python_dbus.Validation.Chars.{word_char-bus_char}
use python_dbus.Validation.Interface.{validate_interface_name_iff, validate_member_name_iff}
use python_dbus.Validation.ObjectPath.{validate_object_path_iff}
use python_dbus.Validation.Grammar.{
  digit, letter, word_char, bus_char, is_word, IsInterfaceName, IsBusName, IsObjectPath,
}
use python_dbus.Validation.{
  valid, validate_interface_name, validate_member_name, validate_bus_name, validate_object_path,
}

all-bus_char : (w : Bytes) → all word_char w ≡ true → all bus_char w ≡ true
all-bus_char [] h = refl
all-bus_char (c ∷ cs) h = ground (arith, word_char-bus_char c, all-bus_char cs)

all-is_word :
    (ws : List Bytes)
    → all (is_word word_char false) ws ≡ true
    → all (is_word bus_char false) ws ≡ true
all-is_word [] h = refl
all-is_word (w ∷ ws) h = ground (arith, all-bus_char w, all-is_word ws)

colon_refused : (c : ℕ) → word_char c ≡ true → (c == b':') ≡ false
unfolding word_char letter digit
colon_refused c h = ground arith

interface-IsBusName : (s : Bytes) (a : Bool) → IsInterfaceName s → IsBusName a true s
interface-IsBusName [] a h = ground arith
interface-IsBusName (c ∷ cs) a h =
    ground (arith, colon_refused c, all-is_word (split b'.' (c ∷ cs)))

-- An interface name is accepted as a bus name wherever well-known names are.
pub interface-bus_name :
    (s : Bytes) (may_be_unique : Bool)
    → validate_interface_name s ≡ valid
    → validate_bus_name s may_be_unique true ≡ valid
interface-bus_name s a h =
    (validate_bus_name_iff s a true).1
      (interface-IsBusName s a ((validate_interface_name_iff s).0 h))

All-le_suc : (n : ℕ) (ws : List Bytes) → All (λ w. length w ≤ n) ws → All (λ w. length w ≤ suc n) ws
All-le_suc n [] h = tt
All-le_suc n (w ∷ ws) h = (omega arith, All-le_suc n ws h.1)

length-words :
    (sep : ℕ) (s : Bytes)
    → (length (words sep s).0 ≤ length s) × All (λ w. length w ≤ length s) (words sep s).1
length-words sep [] = (omega arith, tt)
length-words sep (c ∷ cs) =
    let ih = length-words sep cs in
    let later = All-le_suc (length cs) (words sep cs).1 ih.1 in
    elim (Bool-cases (c == sep)) [
      | inl e ↦ rw e (omega arith, (omega arith, later))
      | inr e ↦ rw e (omega arith, later)
    ]

All-member_name :
    (n : ℕ) (ws : List Bytes)
    → n ≤ 255
    → All (λ w. length w ≤ n) ws
    → all (is_word word_char false) ws ≡ true
    → All (λ w. validate_member_name w ≡ valid) ws
All-member_name n [] le fits h = tt
All-member_name n (w ∷ ws) le fits h = (
  (validate_member_name_iff w).1 (omega arith, ground arith),
  All-member_name n ws le fits.1 (ground arith),
)

-- Each word of an interface name is a member name.
pub interface-member_names :
    (s : Bytes)
    → validate_interface_name s ≡ valid
    → All (λ w. validate_member_name w ≡ valid) (split b'.' s)
interface-member_names s h =
    let name = (validate_interface_name_iff s).0 h in
    All-member_name (length s) (split b'.' s) name.0 (length-words b'.' s) name.1.good_words

words-append :
    (sep : ℕ) (r t : Bytes)
    → words sep (r ++ sep ∷ t) ≡ ((words sep r).0, (words sep r).1 ++ split sep t)
words-append sep [] t = ground arith
words-append sep (c ∷ r) t = ground (arith, words-append sep r t)

all-append {ℓ} :
    {A : Type ℓ} (p : A → Bool) (xs ys : List A) → all p (xs ++ ys) ≡ (all p xs && all p ys)
all-append p [] ys = refl
all-append p (x ∷ xs) ys = ground (arith, all-append p xs ys)

IsObjectPath-append :
    (p q : Bytes)
    → IsObjectPath p
    → IsObjectPath q
    → p ≢ b'/' ∷ []
    → q ≢ b'/' ∷ []
    → IsObjectPath (p ++ q)
IsObjectPath-append [] q hp hq np nq = absurd hp
IsObjectPath-append (c ∷ p) [] hp hq np nq = absurd hq
IsObjectPath-append (c ∷ p) (d ∷ q) hp hq np nq = ground (
  arith,
  words-append b'/' p q,
  all-append (is_word word_char true) (words b'/' p).1 (split b'/' q),
)

-- Two object paths other than `/` may be put one behind the other.
pub object_path-append :
    (p q : Bytes)
    → validate_object_path p ≡ valid
    → validate_object_path q ≡ valid
    → p ≢ b'/' ∷ []
    → q ≢ b'/' ∷ []
    → validate_object_path (p ++ q) ≡ valid
object_path-append p q hp hq np nq = (validate_object_path_iff (p ++ q)).1 (
    IsObjectPath-append p q ((validate_object_path_iff p).0 hp) ((validate_object_path_iff q).0 hq)
      np nq)
