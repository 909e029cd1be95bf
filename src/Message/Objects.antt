-- ===== src/Message/Objects.antt =====
-- The Python objects that stand for the values of a message: what `Message.get_args_list` of
-- _dbus_bindings/message-get-args.c is to make of them, and what `_message_iter_append_pyobject` of
-- message-append.c writes back.
pub mod Described
use python_dbus.Containers.{is_key_type}
use python_dbus.Message.Append.{Basic, number, double, text}
use python_dbus.Message.Types.{Ty, print}
use python_dbus.Message.Values.{
  Value, basic, array, dict, struct, variant, Values, nil, cons, Pairs, end, pair, type_of, code,
  basic_fits,
}
use python_dbus.Prelude.{ℕ, zero, suc, ◌+◌, Bool, true, false, some, ◌++◌, ◌≡◌, Bytes}
use python_dbus.Python.Integer.{pos}
use python_dbus.Python.Object

-- A dbus.Byte, dbus.Int16 and so on, in so many variants.
unfoldable pub basic_object : ℕ → Ty → Basic → Object.Object
basic_object l Ty.byte (number n) = Object.int_object Object.IntType.byte n (pos l)
basic_object l Ty.boolean (number n) = Object.int_object Object.IntType.boolean n (pos l)
basic_object l Ty.int16 (number n) = Object.int_object Object.IntType.int16 n (pos l)
basic_object l Ty.uint16 (number n) = Object.int_object Object.IntType.uint16 n (pos l)
basic_object l Ty.int32 (number n) = Object.int_object Object.IntType.int32 n (pos l)
basic_object l Ty.uint32 (number n) = Object.int_object Object.IntType.uint32 n (pos l)
basic_object l Ty.int64 (number n) = Object.int_object Object.IntType.int64 n (pos l)
basic_object l Ty.uint64 (number n) = Object.int_object Object.IntType.uint64 n (pos l)
basic_object l Ty.double (double x) = Object.float_object Object.FloatType.double x (pos l)
basic_object l Ty.string (text s) = Object.str_object Object.StrType.string s (pos l)
basic_object l Ty.object_path (text s) = Object.str_object Object.StrType.object_path s (pos l)
basic_object l Ty.signature (text s) = Object.str_object Object.StrType.signature s (pos l)
basic_object l _ _ = Object.none_object

-- The number is how many variants the value stands in. The variants of the value itself add to it.
unfoldable mutual
  pub object_of : ℕ → Value → Object.Object
  object_of l (basic t b) = basic_object l t b
  object_of l (array t vs) = Object.array (objects_of vs) (some (print t)) (pos l)
  object_of l (dict k v ps) = Object.dictionary (entries_of ps) (some (print k ++ print v)) (pos l)
  object_of l (struct v vs) = Object.struct (Object.cons (object_of 0 v) (objects_of vs)) (pos l)
  object_of l (variant v) = object_of (suc l) v

  pub objects_of : Values → Object.Objects
  objects_of nil = Object.nil
  objects_of (cons v vs) = Object.cons (object_of 0 v) (objects_of vs)

  pub entries_of : Pairs → Object.Entries
  entries_of end = Object.end
  entries_of (pair k v ps) = Object.entry (object_of 0 k) (object_of 0 v) (entries_of ps)

-- The variants that a value consists of, and the value inside.
unfoldable pub depth : Value → ℕ
depth (variant v) = suc (depth v)
depth _ = 0

unfoldable pub core : Value → Value
core (variant v) = core v
core v = v

-- The values all have the type.
abbrev pub Share : Ty → Values → Type 0
Share t nil = Unit
Share t (cons v vs) = (type_of v ≡ t) × Share t vs

-- A value as a message can hold it: its basic values are ones of their types, its items have the type
-- that stands for them, and libdbus accepts the signatures. There are no file descriptors.
module _ (utf8 validate validate_single : Bytes → Bool) where
  unfoldable mutual
    pub Fits : Value → Type 0
    Fits (basic t b) = basic_fits utf8 validate t b ≡ true
    Fits (array t vs) =
        (validate (print t) ≡ true) × (validate_single (print t) ≡ true) × FitAll vs × Share t vs
    Fits (dict k v ps) =
        (validate (print k ++ print v) ≡ true)
        × (validate_single (print v) ≡ true)
        × (is_key_type (code k) ≡ true)
        × FitPairs k v ps
    Fits (struct v vs) = Fits v × FitAll vs
    Fits (variant v) = Fits v

    pub FitAll : Values → Type 0
    FitAll nil = Unit
    FitAll (cons v vs) = Fits v × FitAll vs

    pub FitPairs : Ty → Ty → Pairs → Type 0
    FitPairs k v end = Unit
    FitPairs k v (pair x y ps) =
        Fits x × (type_of x ≡ k) × Fits y × (type_of y ≡ v) × FitPairs k v ps
