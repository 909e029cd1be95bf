-- ===== src/Message/Read/Received.antt =====
-- What _dbus_bindings/message-get-args.c relies on of libdbus' iterators over a received message.
use python_dbus.Message.Append.{number, double, text}
use python_dbus.Message.Objects.{Share}
use python_dbus.Message.Read.{Source}
use python_dbus.Message.Types
use python_dbus.Message.Types.{Ty, print}
use python_dbus.Message.Values.{
  Value, basic, array, dict, struct, variant, Values, nil, cons, Pairs, end, pair, type_of, code,
}
use python_dbus.Prelude.{ℕ, some, ◌≡◌, Bytes}
use python_dbus.Python.Integer.{ℤ}

-- The iterator stands in front of values, or of the entries of a dict; a signature that is there is
-- that of the items.
pub record Received (source : Source) : Type 1 where
  pub Before : source.Iter → Values → Type 0
  pub BeforePairs : source.Iter → Pairs → Type 0
  pub type_at :
      (it : source.Iter) (v : Value) (vs : Values)
      → Before it (cons v vs)
      → source.arg_type it ≡ code (type_of v)
  pub type_end : (it : source.Iter) → Before it nil → source.arg_type it ≡ 0
  pub next_at :
      (it : source.Iter) (v : Value) (vs : Values)
      → Before it (cons v vs)
      → Before (source.next it) vs
  pub text_at :
      (it : source.Iter) (t : Ty) (s : Bytes) (vs : Values)
      → Before it (cons (basic t (text s)) vs)
      → source.get_text it ≡ s
  pub number_at :
      (it : source.Iter) (t : Ty) (n : ℤ) (vs : Values)
      → Before it (cons (basic t (number n)) vs)
      → source.get_number it ≡ n
  pub double_at :
      (it : source.Iter) (t : Ty) (x : ℕ) (vs : Values)
      → Before it (cons (basic t (double x)) vs)
      → source.get_double it ≡ x
  pub array_at :
      (it : source.Iter) (t : Ty) (us vs : Values)
      → Before it (cons (array t us) vs)
      → (source.element_type it ≡ code t) × Before (source.recurse it) us
  pub signature_of_array :
      (it : source.Iter) (t : Ty) (us vs : Values) (s : Bytes)
      → Before it (cons (array t us) vs)
      → Share t us
      → source.get_signature (source.recurse it) ≡ some s
      → s ≡ print t
  pub dict_at :
      (it : source.Iter) (k v : Ty) (ps : Pairs) (vs : Values)
      → Before it (cons (dict k v ps) vs)
      → (source.element_type it ≡ b'e') × BeforePairs (source.recurse it) ps
  pub signature_of_dict :
      (it : source.Iter) (k v : Ty) (ps : Pairs) (vs : Values) (s : Bytes)
      → Before it (cons (dict k v ps) vs)
      → source.get_signature it ≡ some s
      → s ≡ print (Types.dict k v)
  pub pair_at :
      (it : source.Iter) (x y : Value) (ps : Pairs)
      → BeforePairs it (pair x y ps)
      → (source.arg_type it ≡ b'e')
        × Before (source.recurse it) (cons x (cons y nil))
        × BeforePairs (source.next it) ps
  pub pairs_end : (it : source.Iter) → BeforePairs it end → source.arg_type it ≡ 0
  pub struct_at :
      (it : source.Iter) (u : Value) (us vs : Values)
      → Before it (cons (struct u us) vs)
      → Before (source.recurse it) (cons u us)
  pub variant_at :
      (it : source.Iter) (v : Value) (vs : Values)
      → Before it (cons (variant v) vs)
      → Before (source.recurse it) (cons v nil)
