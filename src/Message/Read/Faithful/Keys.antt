-- ===== src/Message/Read/Faithful/Keys.antt =====
-- The keys of the dicts that _dbus_bindings/message-get-args.c fills: Python keeps one entry for keys that
-- are equal, so a dict with such keys is not the one of the message.
use python_dbus.Containers.{is_key_type}
use python_dbus.Message.Append.{Basic, number, double, text}
use python_dbus.Message.Objects.{basic_object, object_of, Fits}
use python_dbus.Message.Types.{Ty}
use python_dbus.Message.Values.{
  Value, basic, array, dict, struct, variant, Values, nil, cons, Pairs, end, pair, type_of, code,
  basic_fits,
}
use python_dbus.Prelude.{Bool, true, false, not, ◌&&◌, ◌≡◌, refl, ap, Bytes}
use python_dbus.Python.Object
use python_dbus.Python.Object.{
  Object, Entries, entry, int_object, str_object, float_object, unix_fd,
}

-- An entry behind the others, and two runs of entries.
abbrev pub add : Entries → Object → Object → Entries
add Object.end k v = entry k v Object.end
add (entry j u es) k v = entry j u (add es k v)

abbrev pub join : Entries → Entries → Entries
join Object.end fs = fs
join (entry k v es) fs = entry k v (join es fs)

pub join-add : (es fs : Entries) (k v : Object) → join (add es k v) fs ≡ join es (entry k v fs)
join-add Object.end fs k v = refl
join-add (entry j u es) fs k v = ap (entry j u) (join-add es fs k v)

pub join-end : (es : Entries) → join es Object.end ≡ es
join-end Object.end = refl
join-end (entry j u es) = ap (entry j u) (join-end es)

-- The objects of basic types can be keys.
abbrev pub hashable : Object → Bool
hashable (int_object type n level) = true
hashable (str_object type s level) = true
hashable (float_object type x level) = true
hashable (unix_fd fd) = true
hashable _ = false

-- No key is equal to this one, by Python's equality.
abbrev pub missing : (Object → Object → Bool) → Object → Entries → Bool
missing same k Object.end = true
missing same k (entry j u es) = not (same j k) && missing same k es

module _ (same : Object → Object → Bool) where
  -- The keys are new, one after the other.
  abbrev pub NewKeys : Entries → Pairs → Type 0
  NewKeys es end = Unit
  NewKeys es (pair k v ps) =
      (missing same (object_of 0 k) es ≡ true) × NewKeys (add es (object_of 0 k) (object_of 0 v)) ps

  -- In no dict of the value are two keys equal.
  unfoldable mutual
    pub HasKeys : Value → Type 0
    HasKeys (basic t b) = Unit
    HasKeys (array t vs) = HaveKeys vs
    HasKeys (dict k v ps) = NewKeys Object.end ps × PairsHaveKeys ps
    HasKeys (struct v vs) = HasKeys v × HaveKeys vs
    HasKeys (variant v) = HasKeys v

    pub HaveKeys : Values → Type 0
    HaveKeys nil = Unit
    HaveKeys (cons v vs) = HasKeys v × HaveKeys vs

    pub PairsHaveKeys : Pairs → Type 0
    PairsHaveKeys end = Unit
    PairsHaveKeys (pair k v ps) = HasKeys k × HasKeys v × PairsHaveKeys ps

hashable_basic :
    (utf8 validate : Bytes → Bool) (t : Ty) (b : Basic)
    → basic_fits utf8 validate t b ≡ true
    → hashable (basic_object 0 t b) ≡ true
unfolding basic_fits basic_object
hashable_basic utf8 validate Ty.byte (number n) h = refl
hashable_basic utf8 validate Ty.boolean (number n) h = refl
hashable_basic utf8 validate Ty.int16 (number n) h = refl
hashable_basic utf8 validate Ty.uint16 (number n) h = refl
hashable_basic utf8 validate Ty.int32 (number n) h = refl
hashable_basic utf8 validate Ty.uint32 (number n) h = refl
hashable_basic utf8 validate Ty.int64 (number n) h = refl
hashable_basic utf8 validate Ty.uint64 (number n) h = refl
hashable_basic utf8 validate Ty.double (double x) h = refl
hashable_basic utf8 validate Ty.string (text s) h = refl
hashable_basic utf8 validate Ty.object_path (text s) h = refl
hashable_basic utf8 validate Ty.signature (text s) h = refl
hashable_basic utf8 validate _ _ h = absurd (cc h)

-- What a dict may have as a key can be one in Python.
pub hashable-object_of :
    (utf8 validate validate_single : Bytes → Bool) (x : Value)
    → Fits utf8 validate validate_single x
    → is_key_type (code (type_of x)) ≡ true
    → hashable (object_of 0 x) ≡ true
unfolding Fits object_of is_key_type code type_of
hashable-object_of utf8 validate validate_single (basic t b) f h =
    hashable_basic utf8 validate t b f
hashable-object_of utf8 validate validate_single (array t vs) f h = absurd (cc h)
hashable-object_of utf8 validate validate_single (dict k v ps) f h = absurd (cc h)
hashable-object_of utf8 validate validate_single (struct v vs) f h = absurd (cc h)
hashable-object_of utf8 validate validate_single (variant v) f h = absurd (cc h)
