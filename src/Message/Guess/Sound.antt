-- ===== src/Message/Guess/Sound.antt =====
-- Whatever `_signature_string_from_pyobject` of _dbus_bindings/message-append.c returns is the
-- signature of a type.
use mathlib.Core.List.{append_assoc}
use python_dbus.Message.Guess.Lookup.{Attribute, get_object_path}
use python_dbus.Message.Guess.{
  is_bool, get_variant_level, int_signature, str_signature, bytes_signature, dict_signature,
  describe, join_entry, typed_signature, item_signatures, signature_string,
}
use python_dbus.Message.Types.{Ty, Tys, print, print_all}
use python_dbus.Prelude.{
  ℕ, suc, ap, Bool, true, false, Option, none, some, [], ◌∷◌, ◌++◌, ◌≡◌, refl, subst, Bytes,
  if◌then◌else◌, not, ◌&&◌,
}
use python_dbus.Python.Integer.{pos, ltb_ℤ}
use python_dbus.Python.Object.{
  IntType, int, byte, boolean, int16, uint16, int32, uint32, int64, uint64, StrType, object_path,
  signature, BytesType, bytes, byte_array, Object, none_object, true_object, false_object,
  int_object, str_object, bytes_object, float_object, unix_fd, tuple, struct, list, array, dict,
  dictionary, other_object, Objects, nil, cons, Entries, end, entry,
}
use python_dbus.Python.{Exception, unset, Result, ok, err, ◌>>=◌}

-- The signature of one type.
abbrev pub IsSingle : Bytes → Type 0
IsSingle s = (t : Ty) × (s ≡ print t)

abbrev pub count_types : Tys → ℕ
count_types Tys.nil = 0
count_types (Tys.cons t ts) = suc (count_types ts)

abbrev pub count : Objects → ℕ
count nil = 0
count (cons x xs) = suc (count xs)

-- The signature of a sequence of so many types.
abbrev pub IsSequence : ℕ → Bytes → Type 0
IsSequence n s = (ts : Tys) × (s ≡ print_all ts) × (count_types ts ≡ n)

-- What the constructors of dbus.Array and dbus.Dictionary make sure of.
abbrev pub IsElement : Option Bytes → Type 0
IsElement none = Unit
IsElement (some s) = IsSingle s

abbrev pub IsKeyValue : Option Bytes → Type 0
IsKeyValue none = Unit
IsKeyValue (some s) = (k : Ty) × (v : Ty) × (s ≡ print k ++ print v)

-- An object whose arrays and dictionaries hold only signatures that their constructors accept.
unfoldable mutual
  pub HasSignatures : Object → Type 0
  HasSignatures (tuple xs) = HaveSignatures xs
  HasSignatures (struct xs level) = HaveSignatures xs
  HasSignatures (list xs) = HaveSignatures xs
  HasSignatures (array xs sig level) = IsElement sig × HaveSignatures xs
  HasSignatures (dict es) = EntriesHaveSignatures es
  HasSignatures (dictionary es sig level) = IsKeyValue sig × EntriesHaveSignatures es
  HasSignatures _ = Unit

  pub HaveSignatures : Objects → Type 0
  HaveSignatures nil = Unit
  HaveSignatures (cons x xs) = HasSignatures x × HaveSignatures xs

  pub EntriesHaveSignatures : Entries → Type 0
  EntriesHaveSignatures end = Unit
  EntriesHaveSignatures (entry k v es) =
      HasSignatures k × HasSignatures v × EntriesHaveSignatures es

-- What a call returns, if it succeeds.
pub data Gives (P : Bytes → Type 0) : Result Bytes → Type 0 where
  gives : {s : Bytes} → P s → Gives P (ok s)
  fails : {e : Exception} → Gives P (err e)

pub Gives-ok : {P : Bytes → Type 0} {r : Result Bytes} {s : Bytes} → Gives P r → r ≡ ok s → P s
Gives-ok {P} (gives h) e = subst P (cc) h
Gives-ok fails e = cc

pub Gives-bind :
    {P Q : Bytes → Type 0} {r : Result Bytes} {f : Bytes → Result Bytes}
    → Gives P r
    → ((s : Bytes) → P s → Gives Q (f s))
    → Gives Q (r >>= f)
Gives-bind (gives {s} h) k = k s h
Gives-bind fails k = fails

int_signature-IsSingle : (type : IntType) → IsSingle (int_signature type)
unfolding int_signature print
int_signature-IsSingle uint64 = (Ty.uint64, refl)
int_signature-IsSingle int64 = (Ty.int64, refl)
int_signature-IsSingle uint32 = (Ty.uint32, refl)
int_signature-IsSingle int32 = (Ty.int32, refl)
int_signature-IsSingle uint16 = (Ty.uint16, refl)
int_signature-IsSingle int16 = (Ty.int16, refl)
int_signature-IsSingle byte = (Ty.byte, refl)
int_signature-IsSingle boolean = (Ty.boolean, refl)
int_signature-IsSingle int = (Ty.int32, refl)

str_signature-IsSingle : (type : StrType) → IsSingle (str_signature type)
unfolding str_signature print
str_signature-IsSingle object_path = (Ty.object_path, refl)
str_signature-IsSingle signature = (Ty.signature, refl)
str_signature-IsSingle _ = (Ty.string, refl)

bytes_signature-IsSingle : (type : BytesType) → IsSingle (bytes_signature type)
unfolding bytes_signature print
bytes_signature-IsSingle byte_array = (Ty.array Ty.byte, refl)
bytes_signature-IsSingle bytes = (Ty.string, refl)

-- Joining the signatures of the items of a structure.
pub IsSequence-cons :
    {n : ℕ} (s t : Bytes) → IsSingle s → IsSequence n t → IsSequence (suc n) (s ++ t)
unfolding print
IsSequence-cons s t (x, hx) (ts, hts, hn) = (Tys.cons x ts, rw (hx, hts), ap suc hn)

IsSingle-struct :
    {n : ℕ} (s t : Bytes)
    → IsSingle s
    → IsSequence n t
    → IsSingle (b'(' ∷ (s ++ (t ++ (b')' ∷ []))))
unfolding print
IsSingle-struct s t (x, hx) (ts, hts, hn) = (Ty.struct x ts, rw (hx, hts))

IsSingle-array : (s : Bytes) → IsSingle s → IsSingle (b'a' ∷ s)
unfolding print
IsSingle-array s (x, hx) = (Ty.array x, rw hx)

IsSingle-dict : (k v : Ty) → IsSingle (dict_signature (print k ++ print v))
unfolding print dict_signature
IsSingle-dict k v = (Ty.dict k v, rw append_assoc)

IsSingle-key_value : (s : Bytes) → IsKeyValue (some s) → IsSingle (dict_signature s)
IsSingle-key_value s (k, v, h) = rw h (IsSingle-dict k v)

struct-Gives :
    {n : ℕ} {r : Result Bytes} {rs : Result Bytes}
    → Gives IsSingle r
    → Gives (IsSequence n) rs
    → Gives IsSingle (r >>= λ s. rs >>= λ t. ok (b'(' ∷ (s ++ (t ++ (b')' ∷ [])))))
struct-Gives h hs = Gives-bind h λ s g. Gives-bind hs λ t gs. gives (IsSingle-struct s t g gs)

variant-IsSingle : IsSingle (b'v' ∷ [])
unfolding print
variant-IsSingle = (Ty.variant, refl)

boolean-IsSingle : IsSingle (b'b' ∷ [])
unfolding print
boolean-IsSingle = (Ty.boolean, refl)

path-IsSingle : IsSingle (b'o' ∷ [])
unfolding print
path-IsSingle = (Ty.object_path, refl)

fd-IsSingle : IsSingle (b'h' ∷ [])
unfolding print
fd-IsSingle = (Ty.unix_fd, refl)

int-IsSingle : IsSingle (b'i' ∷ [])
unfolding print
int-IsSingle = (Ty.int32, refl)

double-IsSingle : IsSingle (b'd' ∷ [])
unfolding print
double-IsSingle = (Ty.double, refl)

nil-IsSequence : IsSequence 0 []
unfolding print
nil-IsSequence = (Tys.nil, refl, refl)

pub Gives-if :
    {P : Bytes → Type 0} (b : Bool) {x y : Result Bytes}
    → Gives P x
    → Gives P y
    → Gives P (if b then x else y)
Gives-if true hx hy = hx
Gives-if false hx hy = hy

pub Gives-lookup :
    {P : Bytes → Type 0} (m : Result (Option Object)) {typed : Result Bytes}
    → P (b'o' ∷ [])
    → Gives P typed
    → Gives P (m >>= λ magic. elim magic [ some _ ↦ ok (b'o' ∷ []) | none ↦ typed ])
Gives-lookup (ok none) o h = h
Gives-lookup (ok (some x)) o h = gives o
Gives-lookup (err e) o h = fails

module _ (attribute : Object → Attribute) where
  -- What stands in front of the type checks keeps the promise.
  pub describe-Gives :
      (w : Bool) (obj : Object) {typed : Result Bytes}
      → Gives IsSingle typed
      → Gives IsSingle (describe attribute w obj typed)
  unfolding describe
  describe-Gives w obj {typed} h =
      let level = get_variant_level obj in
      Gives-if (ltb_ℤ level (pos 0)) fails (
        Gives-if (not w && ltb_ℤ (pos 0) level) (gives variant-IsSingle) (
          Gives-if (is_bool obj) (gives boolean-IsSingle)
            (Gives-lookup (get_object_path (attribute obj)) path-IsSingle h)))

  join_fails :
      (value : Object) (d e : Exception)
      → Gives IsSingle (join_entry attribute value (err d) (err e))
  unfolding join_entry
  join_fails value d unset = fails
  join_fails value d _ = fails

  join_entry-Gives :
      (value : Object) {k v : Result Bytes}
      → Gives IsSingle k
      → Gives IsSingle v
      → Gives IsSingle (join_entry attribute value k v)
  unfolding join_entry
  join_entry-Gives value (gives (a, ha)) (gives (b, hb)) = gives (rw (ha, hb) (IsSingle-dict a b))
  join_entry-Gives value (gives h) fails = fails
  join_entry-Gives value fails (gives h) = fails
  join_entry-Gives value fails (fails {e}) = join_fails value _ e

  mutual
    unfolding typed_signature HasSignatures

    pub typed_signature-Gives :
        (obj : Object) → HasSignatures obj → Gives IsSingle (typed_signature attribute obj)
    typed_signature-Gives none_object h = fails
    typed_signature-Gives true_object h = gives int-IsSingle
    typed_signature-Gives false_object h = gives int-IsSingle
    typed_signature-Gives (int_object type v level) h = gives (int_signature-IsSingle type)
    typed_signature-Gives (str_object type s level) h = gives (str_signature-IsSingle type)
    typed_signature-Gives (unix_fd fd) h = gives fd-IsSingle
    typed_signature-Gives (float_object type x level) h = gives double-IsSingle
    typed_signature-Gives (bytes_object type s level) h = gives (bytes_signature-IsSingle type)
    typed_signature-Gives (tuple nil) h = fails
    typed_signature-Gives (tuple (cons x xs)) h =
        struct-Gives (describe-Gives false x (typed_signature-Gives x h.0))
          (item_signatures-Gives xs h.1)
    typed_signature-Gives (struct nil level) h = fails
    typed_signature-Gives (struct (cons x xs) level) h =
        struct-Gives (describe-Gives false x (typed_signature-Gives x h.0))
          (item_signatures-Gives xs h.1)
    typed_signature-Gives (list nil) h = fails
    typed_signature-Gives (list (cons x xs)) h =
        Gives-bind (describe-Gives false x (typed_signature-Gives x h.0))
          λ s g. gives (IsSingle-array s g)
    typed_signature-Gives (array items (some sig) level) h = gives (IsSingle-array sig h.0)
    typed_signature-Gives (array nil none level) h = fails
    typed_signature-Gives (array (cons x xs) none level) h =
        Gives-bind (describe-Gives false x (typed_signature-Gives x h.1.0))
          λ s g. gives (IsSingle-array s g)
    typed_signature-Gives (dict end) h = fails
    typed_signature-Gives (dict (entry k v es)) h =
        join_entry-Gives v (describe-Gives false k (typed_signature-Gives k h.0))
          (describe-Gives false v (typed_signature-Gives v h.1))
    typed_signature-Gives (dictionary es (some sig) level) h = gives (IsSingle-key_value sig h.0)
    typed_signature-Gives (dictionary end none level) h = fails
    typed_signature-Gives (dictionary (entry k v es) none level) h =
        join_entry-Gives v (describe-Gives false k (typed_signature-Gives k h.1.0))
          (describe-Gives false v (typed_signature-Gives v h.1.1))
    typed_signature-Gives (other_object id) h = fails

    pub item_signatures-Gives :
        (xs : Objects)
        → HaveSignatures xs
        → Gives (IsSequence (count xs)) (item_signatures attribute xs)
    item_signatures-Gives nil h = gives nil-IsSequence
    item_signatures-Gives (cons x xs) h =
        Gives-bind (describe-Gives false x (typed_signature-Gives x h.0))
          λ s g. Gives-bind (item_signatures-Gives xs h.1) λ t gs. gives (IsSequence-cons s t g gs)

  -- What `_signature_string_from_pyobject` returns is the signature of one complete type, for an
  -- object whose arrays and dictionaries hold signatures that their constructors accept.
  pub signature_string-IsSingle :
      (wants_level : Bool) (obj : Object) {s : Bytes}
      → HasSignatures obj
      → signature_string attribute wants_level obj ≡ ok s
      → IsSingle s
  unfolding signature_string
  signature_string-IsSingle w obj h e =
      Gives-ok (describe-Gives w obj (typed_signature-Gives obj h)) e
