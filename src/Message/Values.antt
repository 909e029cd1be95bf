-- ===== src/Message/Values.antt =====
-- The values that a D-Bus message holds, and the calls of libdbus that write them. This is the
-- description against which the writing and the reading of messages in _dbus_bindings/message-append.c
-- and message-get-args.c are proved.
use python_dbus.Message.Append.{Basic, number, double, text}
use python_dbus.Message.Types.{Ty, Tys, print}
use python_dbus.Prelude.{
  ℕ, suc, ◌+◌, Bool, true, false, not, ◌&&◌, Option, none, some, List, [], ◌∷◌, ◌++◌, ◌==◌, Bytes,
  all,
}
use python_dbus.Numbers.Range.{Width, fits}
use python_dbus.Numbers.{in_range}
use python_dbus.Python.Integer.{pos}
use python_dbus.Validation.{validate_object_path, passes}

mutual
  pub data Value : Type 0 where
    basic : Ty → Basic → Value
    -- The type is that of the items, which may be none.
    array : Ty → Values → Value
    dict : Ty → Ty → Pairs → Value
    struct : Value → Values → Value
    variant : Value → Value

  pub data Values : Type 0 where
    nil : Values
    cons : Value → Values → Values

  pub data Pairs : Type 0 where
    end : Pairs
    pair : Value → Value → Pairs → Pairs

unfoldable mutual
  pub type_of : Value → Ty
  type_of (basic t b) = t
  type_of (array t vs) = Ty.array t
  type_of (dict k v ps) = Ty.dict k v
  type_of (struct v vs) = Ty.struct (type_of v) (types_of vs)
  type_of (variant v) = Ty.variant

  pub types_of : Values → Tys
  types_of nil = Tys.nil
  types_of (cons v vs) = Tys.cons (type_of v) (types_of vs)

-- `DBUS_TYPE_...`: the letter of a type, where a structure has `r`.
unfoldable pub code : Ty → ℕ
code Ty.byte = b'y'
code Ty.boolean = b'b'
code Ty.int16 = b'n'
code Ty.uint16 = b'q'
code Ty.int32 = b'i'
code Ty.uint32 = b'u'
code Ty.int64 = b'x'
code Ty.uint64 = b't'
code Ty.double = b'd'
code Ty.string = b's'
code Ty.object_path = b'o'
code Ty.signature = b'g'
code Ty.unix_fd = b'h'
code Ty.variant = b'v'
code (Ty.array t) = b'a'
code (Ty.dict k v) = b'a'
code (Ty.struct t ts) = b'r'

-- A call of libdbus on the appender of a message.
pub data Call : Type 0 where
  -- `dbus_message_iter_open_container`, with the type and the contained signature.
  open_container : ℕ → Option Bytes → Call
  -- `dbus_message_iter_append_basic`
  put_basic : ℕ → Basic → Call
  -- `dbus_message_iter_append_fixed_array`, of bytes.
  put_bytes : Bytes → Call
  -- `dbus_message_iter_close_container`
  close_container : Call
  -- `dbus_message_iter_abandon_container`
  abandon_container : Call

-- The signature of a dict entry.
abbrev pub entry_signature : Ty → Ty → Bytes
entry_signature k v = b'{' ∷ (print k ++ (print v ++ (b'}' ∷ [])))

-- The calls that write a value.
unfoldable mutual
  pub calls : Value → List Call
  calls (basic t b) = put_basic (code t) b ∷ []
  calls (array t vs) =
      open_container (b'a') (some (print t)) ∷ (calls_all vs ++ (close_container ∷ []))
  calls (dict k v ps) =
      open_container (b'a') (some (entry_signature k v))
      ∷ (calls_pairs ps ++ (close_container ∷ []))
  calls (struct v vs) =
      open_container (b'r') none ∷ ((calls v ++ calls_all vs) ++ (close_container ∷ []))
  calls (variant v) =
      open_container (b'v') (some (print (type_of v))) ∷ (calls v ++ (close_container ∷ []))

  pub calls_all : Values → List Call
  calls_all nil = []
  calls_all (cons v vs) = calls v ++ calls_all vs

  pub calls_pairs : Pairs → List Call
  calls_pairs end = []
  calls_pairs (pair k v ps) =
      (open_container (b'e') none ∷ ((calls k ++ calls v) ++ (close_container ∷ [])))
      ++ calls_pairs ps

-- How deep the recursion over a value goes.
unfoldable mutual
  pub size : Value → ℕ
  size (basic t b) = 1
  size (array t vs) = suc (size_all vs)
  size (dict k v ps) = suc (size_pairs ps)
  size (struct v vs) = suc (size v + size_all vs)
  size (variant v) = suc (size v)

  pub size_all : Values → ℕ
  size_all nil = 0
  size_all (cons v vs) = size v + size_all vs

  pub size_pairs : Pairs → ℕ
  size_pairs end = 0
  size_pairs (pair k v ps) = size k + size v + size_pairs ps

-- The text may stand in a message: it holds no NUL, and libdbus takes it for UTF-8.
abbrev pub is_text : (Bytes → Bool) → Bytes → Bool
is_text utf8 s = all (λ c. not (c == 0)) s && utf8 s

-- The value is one of the basic type. `utf8` and `validate` are the tests of libdbus on texts and on
-- signatures. File descriptors are left out: each process has its own.
unfoldable pub basic_fits : (Bytes → Bool) → (Bytes → Bool) → Ty → Basic → Bool
basic_fits utf8 validate Ty.byte (number n) = in_range (pos 0) (pos 255) n
basic_fits utf8 validate Ty.boolean (number n) = in_range (pos 0) (pos 1) n
basic_fits utf8 validate Ty.int16 (number n) = fits Width.int16 n
basic_fits utf8 validate Ty.uint16 (number n) = fits Width.uint16 n
basic_fits utf8 validate Ty.int32 (number n) = fits Width.int32 n
basic_fits utf8 validate Ty.uint32 (number n) = fits Width.uint32 n
basic_fits utf8 validate Ty.int64 (number n) = fits Width.int64 n
basic_fits utf8 validate Ty.uint64 (number n) = fits Width.uint64 n
basic_fits utf8 validate Ty.double (double x) = true
basic_fits utf8 validate Ty.string (text s) = is_text utf8 s
basic_fits utf8 validate Ty.object_path (text s) = is_text utf8 s && passes (validate_object_path s)
basic_fits utf8 validate Ty.signature (text s) = is_text utf8 s && validate s
basic_fits utf8 validate _ _ = false

unfoldable pub is_variant : Value → Bool
is_variant (variant v) = true
is_variant _ = false
