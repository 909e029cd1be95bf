-- ===== src/Containers/Signed.antt =====
-- What the constructors of _dbus_bindings/containers.c accept carries the signatures that guessing
-- relies on.
use python_dbus.Containers.{
  SignatureArgument, convert_signature, container_level, check_element, is_key_type,
  check_key_value, array_new, dict_new, struct_new, not_empty, not_negative,
}
use python_dbus.Message.Guess.Sound.{
  IsSingle, IsElement, IsKeyValue, HasSignatures, HaveSignatures, EntriesHaveSignatures,
}
use python_dbus.Message.Types.{Ty, print}
use python_dbus.Prelude.{
  ℕ, Bool, true, false, Option, none, some, [], ◌∷◌, ◌++◌, ◌≡◌, refl, ap, ◌∙◌, subst, arith, ◌==◌,
  Bytes, if◌then◌else◌,
}
use python_dbus.Python.Integer.{ℤ, pos, ltb_ℤ}
use python_dbus.Python.Object.{Object, Objects, nil, cons, Entries, array, dictionary, struct}
use python_dbus.Python.{Result, ok, >>=-eq-ok}

-- The type that a byte stands for, when it is a key type.
unfoldable key_type : ℕ → Ty
key_type c =
    if c == b'y'
    then Ty.byte
    else if c == b'b'
    then Ty.boolean
    else if c == b'n'
    then Ty.int16
    else if c == b'q'
    then Ty.uint16
    else if c == b'i'
    then Ty.int32
    else if c == b'u'
    then Ty.uint32
    else if c == b'x'
    then Ty.int64
    else if c == b't'
    then Ty.uint64
    else if c == b'd'
    then Ty.double
    else if c == b'h'
    then Ty.unix_fd
    else if c == b's'
    then Ty.string
    else if c == b'o'
    then Ty.object_path
    else Ty.signature

key_type-print : (c : ℕ) → is_key_type c ≡ true → c ∷ [] ≡ print (key_type c)
unfolding is_key_type key_type print
key_type-print c h = ground arith

module _ (validate_single : Bytes → Bool)
    (sound : (s : Bytes) → validate_single s ≡ true → IsSingle s) where
  check_element-IsElement :
      (sig : Option Bytes) → check_element validate_single sig ≡ ok tt → IsElement sig
  unfolding check_element
  check_element-IsElement none h = tt
  check_element-IsElement (some s) h = sound s (ground arith)

  check_key_value-IsKeyValue :
      (sig : Option Bytes) → check_key_value validate_single sig ≡ ok tt → IsKeyValue sig
  unfolding check_key_value
  check_key_value-IsKeyValue none h = tt
  check_key_value-IsKeyValue (some []) h = cc
  check_key_value-IsKeyValue (some (c ∷ cs)) h =
      let k : is_key_type c ≡ true = ground arith in
      let v : validate_single cs ≡ true = ground arith in
      let (t, ht) = sound cs v in
      (key_type c, t, ap (λ w. w ++ cs) (key_type-print c k) ∙ ap (λ w. print (key_type c) ++ w) ht)

  module _ (validate : Bytes → Bool) (signature : SignatureArgument)
      (variant_level : Option (Result ℤ)) where
    -- A dbus.Array that the constructor accepts holds a signature of one complete type if any,
    -- when libdbus's test accepts signatures of one complete type only and the items that were
    -- read carry such signatures themselves.
    pub array_new-HasSignatures :
        (items : Result Objects) {x : Object}
        → ((xs : Objects) → items ≡ ok xs → HaveSignatures xs)
        → array_new validate validate_single items signature variant_level ≡ ok x
        → HasSignatures x
    unfolding array_new HasSignatures
    array_new-HasSignatures items held h =
        let (level, h1, r1) = >>=-eq-ok (container_level variant_level) _ h in
        let (sig, h2, r2) = >>=-eq-ok (convert_signature validate signature) _ r1 in
        let (u, h3, r3) = >>=-eq-ok (check_element validate_single sig) _ r2 in
        let (xs, h4, r4) = >>=-eq-ok items _ r3 in
        subst HasSignatures {x = array xs sig level} (cc)
          (check_element-IsElement sig h3, held xs h4)

    -- A dbus.Dictionary that the constructor accepts holds a signature of a key and a value if
    -- any, when libdbus's test accepts signatures of one complete type only and the entries
    -- that were read carry such signatures themselves.
    pub dict_new-HasSignatures :
        (entries : Result Entries) {x : Object}
        → ((es : Entries) → entries ≡ ok es → EntriesHaveSignatures es)
        → dict_new validate validate_single entries signature variant_level ≡ ok x
        → HasSignatures x
    unfolding dict_new HasSignatures
    dict_new-HasSignatures entries held h =
        let (level, h1, r1) = >>=-eq-ok (container_level variant_level) _ h in
        let (sig, h2, r2) = >>=-eq-ok (convert_signature validate signature) _ r1 in
        let (u, h3, r3) = >>=-eq-ok (check_key_value validate_single sig) _ r2 in
        let (es, h4, r4) = >>=-eq-ok entries _ r3 in
        subst HasSignatures {x = dictionary es sig level} (cc)
          (check_key_value-IsKeyValue sig h3, held es h4)

abbrev is_empty_struct : Objects → Bool
is_empty_struct nil = true
is_empty_struct (cons x xs) = false

not_empty_lem : (xs : Objects) {u : Unit {0}} → not_empty xs ≡ ok u → is_empty_struct xs ≡ false
unfolding not_empty
not_empty_lem nil h = cc
not_empty_lem (cons x xs) h = refl

not_negative_lem :
    (level : ℤ) {u : Unit {0}} → not_negative level ≡ ok u → ltb_ℤ level (pos 0) ≡ false
unfolding not_negative
not_negative_lem level h = ground arith

-- What `Struct_tp_new` returns, if it succeeds, is the struct of the items, which are not none, at
-- the variant level that was asked for, which is not negative, and the signature as
-- `convert_signature` makes it, whatever the items are.
pub struct_new-ok :
    (validate : Bytes → Bool) (items : Result Objects) (signature : SignatureArgument)
    (variant_level : Option (Result ℤ)) {x : Object} {sig : Option Bytes}
    → struct_new validate items signature variant_level ≡ ok (x, sig)
    → (xs : Objects) × (level : ℤ) × (items ≡ ok xs)
      × (is_empty_struct xs ≡ false)
      × (container_level variant_level ≡ ok level)
      × (ltb_ℤ level (pos 0) ≡ false)
      × (convert_signature validate signature ≡ ok sig)
      × (x ≡ struct xs level)
unfolding struct_new
struct_new-ok validate items signature variant_level h =
    let (level, h1, r1) = >>=-eq-ok (container_level variant_level) _ h in
    let (u, h2, r2) = >>=-eq-ok (not_negative level) _ r1 in
    let (xs, h3, r3) = >>=-eq-ok items _ r2 in
    let (v, h4, r4) = >>=-eq-ok (not_empty xs) _ r3 in
    let (s, h5, r5) = >>=-eq-ok (convert_signature validate signature) _ r4 in
    (xs, level, h3, not_empty_lem xs h4, h1, not_negative_lem level h2, cc, cc)
