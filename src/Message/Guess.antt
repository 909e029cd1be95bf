-- ===== src/Message/Guess.antt =====
-- `get_variant_level`, `get_object_path`, `_signature_string_from_pyobject` and
-- `Message.guess_signature` of _dbus_bindings/message-append.c.
pub mod Lookup
pub mod Sound
pub mod Arguments
use python_dbus.Message.Guess.Lookup.{Attribute, found, raised, get_object_path}
use python_dbus.Prelude.{
  ℕ, zero, suc, ◌-◌, Bool, true, false, not, ◌&&◌, ◌||◌, Option, none, some, [], ◌∷◌, ◌++◌, ltb,
  if◌then◌else◌, Bytes, length, take, drop,
}
use python_dbus.Python.Integer.{ℤ, pos, ltb_ℤ}
use python_dbus.Python.Object.{
  IntType, int, byte, boolean, int16, uint16, int32, uint32, int64, uint64, StrType, str, string,
  object_path, signature, BytesType, bytes, byte_array, FloatType, float, double, Object,
  none_object, true_object, false_object, int_object, str_object, bytes_object, float_object,
  unix_fd, tuple, struct, list, array, dict, dictionary, other_object, Objects, nil, cons, Entries,
  end, entry,
}
use python_dbus.Python.{
  Exception, value_error, type_error, runtime_error, unset, Result, ok, err, ◌>>=◌,
}

-- `get_variant_level`
unfoldable pub get_variant_level : Object → ℤ
get_variant_level (int_object int v level) = pos 0
get_variant_level (int_object _ v level) = level
get_variant_level (str_object str s level) = pos 0
get_variant_level (str_object _ s level) = level
get_variant_level (bytes_object bytes s level) = pos 0
get_variant_level (bytes_object byte_array s level) = level
get_variant_level (float_object float x level) = pos 0
get_variant_level (float_object double x level) = level
get_variant_level (struct items level) = level
get_variant_level (array items sig level) = level
get_variant_level (dictionary es sig level) = level
get_variant_level _ = pos 0

-- `obj == Py_True || obj == Py_False`
unfoldable pub is_bool : Object → Bool
is_bool true_object = true
is_bool false_object = true
is_bool _ = false

-- The branch of `PyLong_Check`.
unfoldable pub int_signature : IntType → Bytes
int_signature uint64 = b't' ∷ []
int_signature int64 = b'x' ∷ []
int_signature uint32 = b'u' ∷ []
int_signature int32 = b'i' ∷ []
int_signature uint16 = b'q' ∷ []
int_signature int16 = b'n' ∷ []
int_signature byte = b'y' ∷ []
int_signature boolean = b'b' ∷ []
int_signature int = b'i' ∷ []

-- The branch of `PyUnicode_Check`.
unfoldable pub str_signature : StrType → Bytes
str_signature object_path = b'o' ∷ []
str_signature signature = b'g' ∷ []
str_signature _ = b's' ∷ []

-- The branch of `PyBytes_Check`.
unfoldable pub bytes_signature : BytesType → Bytes
bytes_signature byte_array = b'a' ∷ b'y' ∷ []
bytes_signature bytes = b's' ∷ []

-- `"a{" keysig valuesig "}"`
unfoldable pub dict_signature : Bytes → Bytes
dict_signature sig = b'a' ∷ b'{' ∷ (sig ++ (b'}' ∷ []))

-- The constructor of dbus.Signature (`Signature_tp_new` of signature.c), on a text. The test of
-- libdbus, `dbus_signature_validate`, is a parameter.
unfoldable pub new_signature : (Bytes → Bool) → Bytes → Result Bytes
new_signature signature_validate s = if signature_validate s then ok s else err value_error

module _ (attribute : Object → Attribute) where
  -- What stands in front of the type checks; `typed` is what those give. The flag says that
  -- `variant_level_ptr` is not NULL.
  unfoldable pub describe : Bool → Object → Result Bytes → Result Bytes
  describe wants_level obj typed =
      let level = get_variant_level obj in
      if ltb_ℤ level (pos 0)
      then err unset
      else if not wants_level && ltb_ℤ (pos 0) level
      then ok (b'v' ∷ [])
      else if is_bool obj
      then ok (b'b' ∷ [])
      else (do
        magic_attr ← get_object_path (attribute obj)
        elim magic_attr [ some _ ↦ ok (b'o' ∷ []) | none ↦ typed ])

  -- Whether a call on this object reaches `PyErr_Clear` in `get_object_path`.
  unfoldable pub clears_exception : Object → Bool
  clears_exception obj =
      let level = get_variant_level obj in
      if ltb_ℤ level (pos 0) || ltb_ℤ (pos 0) level || is_bool obj
      then false
      else elim (get_object_path (attribute obj)) [ ok none ↦ true | _ ↦ false ]

  -- The key's and the value's signature of a dict's first entry. Both calls are made, the second
  -- with the first one's exception pending; that exception may be cleared or replaced.
  unfoldable pub join_entry : Object → Result Bytes → Result Bytes → Result Bytes
  join_entry value (ok k) (ok v) = ok (dict_signature (k ++ v))
  join_entry value (ok k) (err e) = err e
  join_entry value (err d) (ok v) = err (if clears_exception value then unset else d)
  join_entry value (err d) (err unset) = err (if clears_exception value then unset else d)
  join_entry value (err d) (err e) = err e

  -- The type checks of `_signature_string_from_pyobject`, in their order.
  unfoldable mutual
    pub typed_signature : Object → Result Bytes
    typed_signature none_object = err type_error
    typed_signature true_object = ok (b'i' ∷ [])
    typed_signature false_object = ok (b'i' ∷ [])
    typed_signature (int_object type v level) = ok (int_signature type)
    typed_signature (str_object type s level) = ok (str_signature type)
    typed_signature (unix_fd fd) = ok (b'h' ∷ [])
    typed_signature (float_object type x level) = ok (b'd' ∷ [])
    typed_signature (bytes_object type s level) = ok (bytes_signature type)
    typed_signature (tuple nil) = err value_error
    typed_signature (tuple (cons x xs)) = do
      first ← describe false x (typed_signature x)
      rest ← item_signatures xs
      ok (b'(' ∷ (first ++ (rest ++ (b')' ∷ []))))
    typed_signature (struct nil level) = err value_error
    typed_signature (struct (cons x xs) level) = do
      first ← describe false x (typed_signature x)
      rest ← item_signatures xs
      ok (b'(' ∷ (first ++ (rest ++ (b')' ∷ []))))
    typed_signature (list nil) = err value_error
    typed_signature (list (cons x xs)) = do
      first ← describe false x (typed_signature x)
      ok (b'a' ∷ first)
    typed_signature (array items (some sig) level) = ok (b'a' ∷ sig)
    typed_signature (array nil none level) = err value_error
    typed_signature (array (cons x xs) none level) = do
      first ← describe false x (typed_signature x)
      ok (b'a' ∷ first)
    typed_signature (dict end) = err value_error
    typed_signature (dict (entry k v es)) =
        join_entry v (describe false k (typed_signature k)) (describe false v (typed_signature v))
    typed_signature (dictionary es (some sig) level) = ok (dict_signature sig)
    typed_signature (dictionary end none level) = err value_error
    typed_signature (dictionary (entry k v es) none level) =
        join_entry v (describe false k (typed_signature k)) (describe false v (typed_signature v))
    typed_signature (other_object id) = err type_error

    -- The items of a tuple, joined.
    pub item_signatures : Objects → Result Bytes
    item_signatures nil = ok []
    item_signatures (cons x xs) = do
      first ← describe false x (typed_signature x)
      rest ← item_signatures xs
      ok (first ++ rest)

  -- `_signature_string_from_pyobject`
  unfoldable pub signature_string : Bool → Object → Result Bytes
  signature_string wants_level obj = describe wants_level obj (typed_signature obj)

  -- `dbus_py_Message_guess_signature` on the argument tuple.
  unfoldable pub guess_signature : (Bytes → Bool) → Objects → Result Bytes
  guess_signature signature_validate nil = new_signature signature_validate []
  guess_signature signature_validate (cons x xs) = do
    tmp ← signature_string false (tuple (cons x xs))
    if ltb (length tmp) 2
        then err runtime_error
        else new_signature signature_validate (take (length tmp - 2) (drop 1 tmp))
