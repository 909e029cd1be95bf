-- ===== src/Python/Object.antt =====
-- The Python objects that _dbus_bindings/message-append.c and message-get-args.c distinguish, by
-- the type checks that those files make. A text is its UTF-8 bytes and a float is its IEEE 754 bit
-- pattern; an object of no type named here is an identity.
use python_dbus.Prelude.{ℕ, Option, Bytes}
use python_dbus.Python.Integer.{ℤ}

-- `int` and its subclasses in dbus.types.
pub data IntType : Type 0 where
  int byte boolean int16 uint16 int32 uint32 int64 uint64 : IntType

-- `str`, dbus.String, dbus.ObjectPath, dbus.Signature.
pub data StrType : Type 0 where
  str string object_path signature : StrType

-- `bytes` and dbus.ByteArray.
pub data BytesType : Type 0 where
  bytes byte_array : BytesType

-- `float` and dbus.Double.
pub data FloatType : Type 0 where
  float double : FloatType

-- The integer behind a dbus type is its variant level. Plain Python objects have none that is read.
mutual
  pub data Object : Type 0 where
    none_object : Object
    true_object : Object
    false_object : Object
    int_object : IntType → ℤ → ℤ → Object
    str_object : StrType → Bytes → ℤ → Object
    bytes_object : BytesType → Bytes → ℤ → Object
    float_object : FloatType → ℕ → ℤ → Object
    unix_fd : ℤ → Object
    tuple : Objects → Object
    struct : Objects → ℤ → Object
    list : Objects → Object
    array : Objects → Option Bytes → ℤ → Object
    dict : Entries → Object
    dictionary : Entries → Option Bytes → ℤ → Object
    other_object : ℕ → Object

  pub data Objects : Type 0 where
    nil : Objects
    cons : Object → Objects → Objects

  pub data Entries : Type 0 where
    end : Entries
    entry : Object → Object → Entries → Entries
