-- ===== src/Message/Read/Faithful/Basics.antt =====
-- The basic values of a message, as _dbus_bindings/message-get-args.c reads them.
use python_dbus.Message.Append.{Basic, number, double, text}
use python_dbus.Message.Guess.{new_signature}
use python_dbus.Message.Objects.{basic_object}
use python_dbus.Message.Read.Received.{Received}
use python_dbus.Message.Read.{
  Source, Host, get_basic, str_base_new, object_path_new, float_base_new, signature_new, is_zero,
}
use python_dbus.Message.Types.{Ty}
use python_dbus.Message.Values.{basic, Values, cons, code, basic_fits, is_text}
use python_dbus.Numbers.{
  boolean_new, byte_new, byte_from, byte_of_int, number_of, is_byte_at, long_base_new,
}
use python_dbus.Numbers.New.{new-fits}
use python_dbus.Numbers.Range.{Width}
use python_dbus.Prelude.{ℕ, zero, suc, Bool, true, ◌≡◌, arith, Bytes}
use python_dbus.Python.Integer.{pos}
use python_dbus.Python.{ok}

module _ (source : Source) (host : Host) (validate validate_single : Bytes → Bool)
    (received : Received source) (utf8 : Bytes → Bool)
    (decodes : (s : Bytes) → is_text utf8 s ≡ true → host.decode_utf8 s ≡ ok s) where
  pub get_basic-basic_object :
      (l : ℕ) (t : Ty) (b : Basic) (it : source.Iter) (vs : Values)
      → basic_fits utf8 validate t b ≡ true
      → received.Before it (cons (basic t b) vs)
      → get_basic source host validate validate_single (code t) it l ≡ ok (basic_object l t b)
  unfolding get_basic basic_object code basic_fits str_base_new float_base_new signature_new
      new_signature object_path_new is_zero boolean_new long_base_new byte_new byte_from byte_of_int
      number_of is_byte_at
  get_basic-basic_object l Ty.string (text s) it vs h a =
      rw (received.text_at it Ty.string s vs a, decodes s h) (ground arith)
  get_basic-basic_object l Ty.signature (text s) it vs h a =
      let fine : is_text utf8 s ≡ true = ground arith in
      rw (received.text_at it Ty.signature s vs a, decodes s fine) (ground arith)
  get_basic-basic_object l Ty.object_path (text s) it vs h a =
      let fine : is_text utf8 s ≡ true = ground arith in
      rw (received.text_at it Ty.object_path s vs a, decodes s fine) (ground arith)
  get_basic-basic_object l Ty.double (double n) it vs h a =
      rw (received.double_at it Ty.double n vs a) (ground arith)
  get_basic-basic_object l Ty.byte (number n) it vs h a =
      rw (received.number_at it Ty.byte n vs a)
        (ground (arith, host.platform.as_long_lem n, host.platform.long_wide))
  get_basic-basic_object l Ty.boolean (number (pos zero)) it vs h a =
      rw (received.number_at it Ty.boolean (pos 0) vs a) (ground arith)
  get_basic-basic_object l Ty.boolean (number (pos (suc zero))) it vs h a =
      rw (received.number_at it Ty.boolean (pos 1) vs a) (ground arith)
  get_basic-basic_object l Ty.boolean (number n) it vs h a = absurd (ground arith)
  get_basic-basic_object l Ty.int16 (number n) it vs h a =
      rw (received.number_at it Ty.int16 n vs a)
        (ground (arith, new-fits host.platform Width.int16 n (pos l)))
  get_basic-basic_object l Ty.uint16 (number n) it vs h a =
      rw (received.number_at it Ty.uint16 n vs a)
        (ground (arith, new-fits host.platform Width.uint16 n (pos l)))
  get_basic-basic_object l Ty.int32 (number n) it vs h a =
      rw (received.number_at it Ty.int32 n vs a)
        (ground (arith, new-fits host.platform Width.int32 n (pos l)))
  get_basic-basic_object l Ty.uint32 (number n) it vs h a =
      rw (received.number_at it Ty.uint32 n vs a)
        (ground (arith, new-fits host.platform Width.uint32 n (pos l)))
  get_basic-basic_object l Ty.int64 (number n) it vs h a =
      rw (received.number_at it Ty.int64 n vs a)
        (ground (arith, new-fits host.platform Width.int64 n (pos l)))
  get_basic-basic_object l Ty.uint64 (number n) it vs h a =
      rw (received.number_at it Ty.uint64 n vs a)
        (ground (arith, new-fits host.platform Width.uint64 n (pos l)))
  get_basic-basic_object l _ _ it vs h a = absurd (cc h)
