-- ===== src/Message/Read.antt =====
-- `Message.get_args_list`: _dbus_bindings/message-get-args.c, with the constructors of dbus.String,
-- dbus.ObjectPath, dbus.Signature and dbus.Double. Loops and recursion take fuel, and raise
-- `out_of_fuel` without it. Python is taken to have memory.
pub mod Received
pub mod Faithful
use python_dbus.Containers.{array_new, dict_new, struct_new, a_signature, absent}
use python_dbus.Message.Guess.{new_signature}
use python_dbus.Numbers.{
  Platform, int16_new, uint16_new, int32_new, uint32_new, int64_new, uint64_new, boolean_new,
  byte_new,
}
use python_dbus.Prelude.{
  ℕ, zero, suc, ◌+◌, ◌-◌, Bool, true, false, not, ◌&&◌, Option, none, some, List, [], ◌∷◌, ◌==◌,
  if◌then◌else◌, Bytes, length, take, drop,
}
use python_dbus.Python.Integer.{ℤ, pos, ltb_ℤ}
use python_dbus.Python.Object.{
  StrType, string, object_path, signature, BytesType, byte_array, FloatType, double, IntType, int,
  Object, int_object, str_object, bytes_object, float_object, unix_fd, array, dictionary, Objects,
  nil, cons, Entries, end, entry,
}
use python_dbus.Python.{
  Exception, value_error, type_error, memory_error, assertion_error, dbus_exception, unset,
  out_of_fuel, Result, ok, err, ◌>>=◌,
}
use python_dbus.UnixFd
use python_dbus.UnixFd.{Files}
use python_dbus.Validation.{validate_object_path, passes}

-- libdbus' iterators over a message that has been received, and what they give: a type is its letter,
-- or 0 at the end; a signature is missing for want of memory; no bytes may come as NULL.
pub record Source : Type 1 where
  pub Iter : Type 0
  pub arg_type : Iter → ℕ
  pub element_type : Iter → ℕ
  pub recurse : Iter → Iter
  pub next : Iter → Iter
  pub get_text : Iter → Bytes
  pub get_number : Iter → ℤ
  pub get_double : Iter → ℕ
  pub get_signature : Iter → Option Bytes
  pub get_fixed_array : Iter → Option Bytes

-- Python and the process: the decoding of UTF-8, dict assignment, and for a descriptor that libdbus
-- hands over the open ones and what `dup` gives.
pub record Host : Type 0 where
  pub platform : Platform
  pub decode_utf8 : Bytes → Result Bytes
  pub set_item : Entries → Object → Object → Result Entries
  pub files : ℤ → Files
  pub dup : ℤ → Option ℕ

-- `DBusPythonString_tp_new` on a text, and `String_tp_new`.
unfoldable pub str_base_new : StrType → Bytes → ℤ → Result Object
str_base_new type s variantness =
    if ltb_ℤ variantness (pos 0) then err value_error else ok (str_object type s variantness)

-- `ObjectPath_tp_new`
unfoldable pub object_path_new : Bytes → ℤ → Result Object
object_path_new s variantness =
    if passes (validate_object_path s)
    then str_base_new object_path s variantness
    else err value_error

-- `DBusPythonFloat_tp_new` on a float.
unfoldable pub float_base_new : FloatType → ℕ → ℤ → Result Object
float_base_new type x variantness =
    if ltb_ℤ variantness (pos 0) then err value_error else ok (float_object type x variantness)

-- `Signature_tp_new`, whose text libdbus checks.
unfoldable pub signature_new : (Bytes → Bool) → Bytes → ℤ → Result Object
signature_new validate s variantness = do
  t ← new_signature validate s
  str_base_new signature t variantness

-- The branch for DBUS_TYPE_UNIX_FD, but for the closing of the descriptor. The variant level is given
-- to a constructor that does not look at it. A failed assertion ends the process.
unfoldable pub unix_fd_new : Host → ℤ → Result Object
unix_fd_new host fd =
    elim (UnixFd.new (host.dup fd) (host.files fd) (UnixFd.long_arg (ok fd)) UnixFd.no_fileno).1 [
      | UnixFd.object new_fd ↦ ok (unix_fd new_fd)
      | UnixFd.raises e ↦ err e
      | UnixFd.aborts ↦ err assertion_error
    ]

-- The variant level among the keyword arguments, which is there if it is above 0.
unfoldable pub level_argument : ℕ → Option (Result ℤ)
level_argument zero = none
level_argument (suc n) = some (ok (pos (suc n)))

-- A signature that libdbus allocates.
unfoldable pub allocated : Exception → Option Bytes → Result Bytes
allocated e none = err e
allocated e (some s) = ok s

-- "{" key and value "}", without the brackets and the `a`.
abbrev pub inner_signature : Bytes → Bytes
inner_signature s = take (length s - 3) (drop 2 s)

-- The bytes of a fixed array; (NULL, 0) is an empty one.
unfoldable pub fixed_bytes : Option Bytes → Bytes
fixed_bytes none = []
fixed_bytes (some s) = s

unfoldable pub is_zero : ℤ → Bool
is_zero (pos zero) = true
is_zero _ = false

module _ (source : Source) (host : Host) (validate validate_single : Bytes → Bool) where
  -- The branches of `_message_iter_get_pyobject` for the basic types, and for anything else.
  unfoldable pub get_basic : ℕ → source.Iter → ℕ → Result Object
  get_basic type it level =
      let p = host.platform in
      let n = source.get_number it in
      if type == b's'
      then (do s ← host.decode_utf8 (source.get_text it); str_base_new string s (pos level))
      else if type == b'g'
      then (do s ← host.decode_utf8 (source.get_text it); signature_new validate s (pos level))
      else if type == b'o'
      then (do s ← host.decode_utf8 (source.get_text it); object_path_new s (pos level))
      else if type == b'd'
      then float_base_new double (source.get_double it) (pos level)
      else if type == b'n'
      then int16_new p (ok n) (pos level)
      else if type == b'q'
      then uint16_new p (ok n) (pos level)
      else if type == b'i'
      then int32_new p (ok n) (pos level)
      else if type == b'u'
      then uint32_new p (ok n) (pos level)
      else if type == b'h'
      then unix_fd_new host n
      else if type == b'x'
      then int64_new p (ok n) (pos level)
      else if type == b't'
      then uint64_new p (ok n) (pos level)
      else if type == b'y'
      then byte_new p (int_object int n (pos 0)) (pos level)
      else if type == b'b'
      then boolean_new (not (is_zero n)) (pos level)
      else err type_error

  -- The functions that call `_message_iter_get_pyobject` back are given it, as `get`.
  abbrev pub Get : Type 0
  Get = source.Iter → ℕ → Result Object

  -- `_message_iter_append_all_to_list`: the items of the list.
  unfoldable pub append_all_to_list : ℕ → Get → source.Iter → Result Objects
  append_all_to_list zero get it = err out_of_fuel
  append_all_to_list (suc n) get it =
      let rest = append_all_to_list n get (source.next it) in
      if source.arg_type it == 0
      then ok nil
      else (do item ← get it 0; items ← rest; ok (cons item items))

  -- The loop of `_message_iter_get_dict`.
  unfoldable pub get_entries : ℕ → Get → source.Iter → Entries → Result Entries
  get_entries zero get entries es = err out_of_fuel
  get_entries (suc n) get entries es =
      let kv = source.recurse entries in
      let rest = λ (es : Entries). get_entries n get (source.next entries) es in
      if source.arg_type entries == b'e'
      then (do
        key ← get kv 0
        value ← get (source.next kv) 0
        es' ← host.set_item es key value
        rest es')
      else ok es

  -- The dict or array that a constructor returned, with other items.
  abbrev with_entries : Object → Entries → Object
  with_entries (dictionary es sig level) es' = dictionary es' sig level
  with_entries obj es = obj

  abbrev with_items : Object → Objects → Object
  with_items (array xs sig level) xs' = array xs' sig level
  with_items obj xs = obj

  -- `_message_iter_get_dict`
  unfoldable pub get_dict : ℕ → Get → source.Iter → ℕ → Result Object
  get_dict n get it level = do
    sig_str ← allocated memory_error (source.get_signature it)
    sig ← new_signature validate (inner_signature sig_str)
    ret ← dict_new validate validate_single (ok end) (a_signature sig) (level_argument level)
    es ← get_entries n get (source.recurse it) end
    ok (with_entries ret es)

  -- "a normal array..."; a missing signature ends it with no exception set.
  unfoldable pub get_array : ℕ → Get → source.Iter → ℕ → Result Object
  get_array n get it level = do
    let sub = source.recurse it
    sig_str ← allocated unset (source.get_signature sub)
    sig ← new_signature validate sig_str
    ret ← array_new validate validate_single (ok nil) (a_signature sig) (level_argument level)
    items ← append_all_to_list n get sub
    ok (with_items ret items)

  -- The branch for a structure.
  unfoldable pub get_struct : ℕ → Get → source.Iter → ℕ → Result Object
  get_struct n get it level = do
    items ← append_all_to_list n get (source.recurse it)
    ret ← struct_new validate (ok items) absent (level_argument level)
    ok ret.0

  -- The branches for arrays, of which dicts and strings of bytes are ones.
  unfoldable pub get_any_array : Bool → ℕ → Get → source.Iter → ℕ → Result Object
  get_any_array byte_arrays n get it level =
      let type = source.element_type it in
      if type == b'e'
      then get_dict n get it level
      else if byte_arrays && (type == b'y')
      then ok (
          bytes_object byte_array (fixed_bytes (source.get_fixed_array (source.recurse it)))
            (pos level))
      else get_array n get it level

  unfoldable pub get_by_type : Bool → ℕ → Get → source.Iter → ℕ → Result Object
  get_by_type byte_arrays n get it level =
      let type = source.arg_type it in
      if type == b'a'
      then get_any_array byte_arrays n get it level
      else if type == b'r'
      then get_struct n get it level
      else if type == b'v'
      then get (source.recurse it) (level + 1)
      else get_basic type it level

  -- `_message_iter_get_pyobject`, by the option and the variant level.
  unfoldable pub get_pyobject : Bool → ℕ → Get
  get_pyobject byte_arrays zero it level = err out_of_fuel
  get_pyobject byte_arrays (suc n) it level =
      get_by_type byte_arrays (suc n) (get_pyobject byte_arrays n) it level

  -- `dbus_py_Message_get_args_list`, by `self->msg` and by what `dbus_message_iter_init` gives for it:
  -- no iterator if the message has no arguments.
  unfoldable pub get_args_list : Bool → ℕ → Option (Option source.Iter) → Result Objects
  get_args_list byte_arrays n none = err dbus_exception
  get_args_list byte_arrays n (some none) = ok nil
  get_args_list byte_arrays n (some (some it)) =
      append_all_to_list n (get_pyobject byte_arrays n) it
