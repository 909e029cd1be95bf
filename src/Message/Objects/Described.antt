-- ===== src/Message/Objects/Described.antt =====
-- What message-append.c of _dbus_bindings guesses for the objects that stand for values: the signature
-- of the value's own type, and its variants as the variant level.
use mathlib.Core.List.{append_assoc}
use python_dbus.Message.Append.{Basic, number, double, text}
use python_dbus.Message.Guess.Lookup.{Attribute, get_object_path}
use python_dbus.Message.Guess.{
  get_variant_level, is_bool, int_signature, str_signature, dict_signature, describe,
  typed_signature, item_signatures, signature_string,
}
use python_dbus.Message.Objects.{basic_object, object_of, objects_of, depth, Fits, FitAll}
use python_dbus.Message.Types.{Ty, print, print_all}
use python_dbus.Message.Values.{
  Value, basic, array, dict, struct, variant, Values, nil, cons, type_of, types_of, basic_fits,
  is_variant,
}
use python_dbus.Prelude.{
  ℕ, suc, ◌+◌, Bool, true, false, none, [], ◌∷◌, ◌≡◌, ◌∙◌, refl, ap, arith, Bytes,
}
use python_dbus.Python.Integer.{pos}
use python_dbus.Python.Object.{Object}
use python_dbus.Python.{Result, ok}

module _ (utf8 validate : Bytes → Bool) where
  basic_level :
      (l : ℕ) (t : Ty) (b : Basic)
      → basic_fits utf8 validate t b ≡ true
      → (get_variant_level (basic_object l t b) ≡ pos l) × (is_bool (basic_object l t b) ≡ false)
  unfolding basic_fits basic_object get_variant_level is_bool
  basic_level l Ty.byte (number n) h = (refl, refl)
  basic_level l Ty.boolean (number n) h = (refl, refl)
  basic_level l Ty.int16 (number n) h = (refl, refl)
  basic_level l Ty.uint16 (number n) h = (refl, refl)
  basic_level l Ty.int32 (number n) h = (refl, refl)
  basic_level l Ty.uint32 (number n) h = (refl, refl)
  basic_level l Ty.int64 (number n) h = (refl, refl)
  basic_level l Ty.uint64 (number n) h = (refl, refl)
  basic_level l Ty.double (double x) h = (refl, refl)
  basic_level l Ty.string (text s) h = (refl, refl)
  basic_level l Ty.object_path (text s) h = (refl, refl)
  basic_level l Ty.signature (text s) h = (refl, refl)
  basic_level l _ _ h = absurd (cc h)

  basic_typed :
      (attribute : Object → Attribute) (l : ℕ) (t : Ty) (b : Basic)
      → basic_fits utf8 validate t b ≡ true
      → typed_signature attribute (basic_object l t b) ≡ ok (print t)
  unfolding basic_fits basic_object typed_signature print int_signature str_signature
  basic_typed attribute l Ty.byte (number n) h = refl
  basic_typed attribute l Ty.boolean (number n) h = refl
  basic_typed attribute l Ty.int16 (number n) h = refl
  basic_typed attribute l Ty.uint16 (number n) h = refl
  basic_typed attribute l Ty.int32 (number n) h = refl
  basic_typed attribute l Ty.uint32 (number n) h = refl
  basic_typed attribute l Ty.int64 (number n) h = refl
  basic_typed attribute l Ty.uint64 (number n) h = refl
  basic_typed attribute l Ty.double (double x) h = refl
  basic_typed attribute l Ty.string (text s) h = refl
  basic_typed attribute l Ty.object_path (text s) h = refl
  basic_typed attribute l Ty.signature (text s) h = refl
  basic_typed attribute l _ _ h = absurd (cc h)

module _ (utf8 validate validate_single : Bytes → Bool) where
  pub get_variant_level-object_of :
      (l : ℕ) (v : Value)
      → Fits utf8 validate validate_single v
      → get_variant_level (object_of l v) ≡ pos (l + depth v)
  unfolding object_of depth Fits get_variant_level
  get_variant_level-object_of l (basic t b) h = (basic_level utf8 validate l t b h).0 ∙ ground arith
  get_variant_level-object_of l (array t vs) h = ground arith
  get_variant_level-object_of l (dict k v ps) h = ground arith
  get_variant_level-object_of l (struct v vs) h = ground arith
  get_variant_level-object_of l (variant v) h =
      ground (arith, get_variant_level-object_of (suc l) v h)

  is_bool-object_of :
      (l : ℕ) (v : Value) → Fits utf8 validate validate_single v → is_bool (object_of l v) ≡ false
  unfolding object_of Fits is_bool
  is_bool-object_of l (basic t b) h = (basic_level utf8 validate l t b h).1
  is_bool-object_of l (array t vs) h = refl
  is_bool-object_of l (dict k v ps) h = refl
  is_bool-object_of l (struct v vs) h = refl
  is_bool-object_of l (variant v) h = is_bool-object_of (suc l) v h

  module _ (attribute : Object → Attribute)
      (plain : (l : ℕ) (v : Value) → get_object_path (attribute (object_of l v)) ≡ ok none) where
    -- What stands in front of the type checks, for a variant,
    describe_variant :
        (v : Value) (typed : Result Bytes) (d : ℕ)
        → Fits utf8 validate validate_single v
        → depth v ≡ suc d
        → describe attribute false (object_of 0 v) typed ≡ ok (b'v' ∷ [])
    unfolding describe
    describe_variant v typed d h e = ground (arith, get_variant_level-object_of 0 v h)

    -- and for any other value, or if the variant level is asked for.
    describe_typed :
        (w : Bool) (l : ℕ) (v : Value) (typed : Result Bytes)
        → Fits utf8 validate validate_single v
        → w ≡ true
        → describe attribute w (object_of l v) typed ≡ typed
    unfolding describe
    describe_typed true l v typed h e =
        ground (arith, get_variant_level-object_of l v h, is_bool-object_of l v h, plain l v)
    describe_typed false l v typed h e = cc

    describe_plain :
        (v : Value) (typed : Result Bytes)
        → Fits utf8 validate validate_single v
        → depth v ≡ 0
        → describe attribute false (object_of 0 v) typed ≡ typed
    unfolding describe
    describe_plain v typed h e =
        ground (arith, get_variant_level-object_of 0 v h, is_bool-object_of 0 v h, plain 0 v)

    -- The signature of an item, by that of its type checks.
    pub describe_item :
        (v : Value)
        → Fits utf8 validate validate_single v
        → (is_variant v ≡ false
            → typed_signature attribute (object_of 0 v) ≡ ok (print (type_of v)))
        → describe attribute false (object_of 0 v) (typed_signature attribute (object_of 0 v))
          ≡ ok (print (type_of v))
    unfolding is_variant depth type_of print
    describe_item (basic t b) h typed = describe_plain (basic t b) _ h refl ∙ typed refl
    describe_item (array t vs) h typed = describe_plain (array t vs) _ h refl ∙ typed refl
    describe_item (dict k v ps) h typed = describe_plain (dict k v ps) _ h refl ∙ typed refl
    describe_item (struct v vs) h typed = describe_plain (struct v vs) _ h refl ∙ typed refl
    describe_item (variant v) h typed = describe_variant (variant v) _ (depth v) h refl

    mutual
      unfolding typed_signature object_of type_of print Fits is_variant dict_signature

      pub typed_lem :
          (l : ℕ) (v : Value)
          → Fits utf8 validate validate_single v
          → is_variant v ≡ false
          → typed_signature attribute (object_of l v) ≡ ok (print (type_of v))
      typed_lem l (basic t b) h n = basic_typed utf8 validate attribute l t b h
      typed_lem l (array t vs) h n = refl
      typed_lem l (dict k v ps) h n = ap ok (rw append_assoc)
      typed_lem l (struct v vs) h n = rw (describe_item v h.0 (typed_lem 0 v h.0), items_lem vs h.1)
      typed_lem l (variant v) h n = cc

      pub items_lem :
          (vs : Values)
          → FitAll utf8 validate validate_single vs
          → item_signatures attribute (objects_of vs) ≡ ok (print_all (types_of vs))
      items_lem nil h = refl
      items_lem (cons v vs) h = rw (describe_item v h.0 (typed_lem 0 v h.0), items_lem vs h.1)

    -- `_signature_string_from_pyobject` gives the type of the value, and for a variant that of its
    -- contents if the variant level is asked for.
    pub signature_string-core :
        (l : ℕ) (v : Value)
        → Fits utf8 validate validate_single v
        → is_variant v ≡ false
        → signature_string attribute true (object_of l v) ≡ ok (print (type_of v))
    unfolding signature_string
    signature_string-core l v h n = describe_typed true l v _ h refl ∙ typed_lem l v h n
