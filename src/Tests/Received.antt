-- ===== src/Tests/Received.antt =====
-- A received message that is its values.
use python_dbus.Message.Append.{number, double, text}
use python_dbus.Message.Objects.{Share}
use python_dbus.Message.Read.Received.{Received}
use python_dbus.Message.Read.Faithful.Keys.{add, hashable, missing}
use python_dbus.Message.Read.{Source, Host}
use python_dbus.Message.Types.{Ty, print}
use python_dbus.Message.Values.{
  basic, array, dict, struct, variant, Values, nil, cons, Pairs, end, pair, type_of, code,
}
use python_dbus.Prelude.{
  ℕ, Bool, true, false, some, none, [], ◌≡◌, ◌∙◌, refl, ap, arith, Bytes, same, if◌then◌else◌,
}
use python_dbus.Python.Integer.{ℤ, pos}
use python_dbus.Python.Object
use python_dbus.Python.Object.{Object, Entries, entry, str_object, int_object}
use python_dbus.Python.{ok}
use python_dbus.Tests.Types.{wide}

-- Values, with the signature that stands for them if there are none; or the entries of a dict.
data Place : Type 0 where
  values : Bytes → Values → Place
  entries : Pairs → Place

abbrev arg_type : Place → ℕ
arg_type (values s nil) = 0
arg_type (values s (cons v vs)) = code (type_of v)
arg_type (entries end) = 0
arg_type (entries (pair k v ps)) = b'e'

abbrev element_type : Place → ℕ
element_type (values s (cons (array t us) vs)) = code t
element_type (values s (cons (dict k v ps) vs)) = b'e'
element_type _ = 0

abbrev recurse : Place → Place
recurse (values s (cons (array t us) vs)) = values (print t) us
recurse (values s (cons (dict k v ps) vs)) = entries ps
recurse (values s (cons (struct u us) vs)) = values [] (cons u us)
recurse (values s (cons (variant v) vs)) = values [] (cons v nil)
recurse (entries (pair k v ps)) = values [] (cons k (cons v nil))
recurse place = place

abbrev next : Place → Place
next (values s (cons v vs)) = values s vs
next (entries (pair k v ps)) = entries ps
next place = place

abbrev signature_at : Place → Bytes
signature_at (values s nil) = s
signature_at (values s (cons v vs)) = print (type_of v)
signature_at (entries ps) = []

abbrev text_at : Place → Bytes
text_at (values s (cons (basic t (text x)) vs)) = x
text_at _ = []

abbrev number_at : Place → ℤ
number_at (values s (cons (basic t (number n)) vs)) = n
number_at _ = pos 0

abbrev double_at : Place → ℕ
double_at (values s (cons (basic t (double x)) vs)) = x
double_at _ = 0

pub held : Source
held = record {
  Iter = Place;
  arg_type = arg_type;
  element_type = element_type;
  recurse = recurse;
  next = next;
  get_text = text_at;
  get_number = number_at;
  get_double = double_at;
  get_signature = λ it. some (signature_at it);
  get_fixed_array = λ it. none;
}

abbrev Stands : Place → Values → Type 0
Stands it vs = (s : Bytes) × (it ≡ values s vs)

signature_at-Share :
    (t : Ty) (us : Values) → Share t us → signature_at (values (print t) us) ≡ print t
signature_at-Share t nil h = refl
signature_at-Share t (cons u us) h = ap print h.0

pub laws : Received held
unfolding held type_of print
laws = record {
  Before = Stands;
  BeforePairs = λ it ps. it ≡ entries ps;
  type_at = λ it v vs h. ap arg_type h.1;
  type_end = λ it h. ap arg_type h.1;
  next_at = λ it v vs h. (h.0, ap next h.1);
  text_at = λ it t s vs h. ap text_at h.1;
  number_at = λ it t n vs h. ap number_at h.1;
  double_at = λ it t x vs h. ap double_at h.1;
  array_at = λ it t us vs h. (ap element_type h.1, (print t, ap recurse h.1));
  signature_of_array = λ it t us vs s h share e.
      let found : some (signature_at (recurse it)) ≡ some s = e in
      let here : signature_at (recurse it) ≡ print t =
        ap (λ p. signature_at (recurse p)) h.1 ∙ signature_at-Share t us share in
      cc;
  dict_at = λ it k v ps vs h. (ap element_type h.1, ap recurse h.1);
  signature_of_dict = λ it k v ps vs s h e.
      let found : some (signature_at it) ≡ some s = e in
      let here : signature_at it ≡ print (type_of (dict k v ps)) = ap signature_at h.1 in cc;
  pair_at = λ it x y ps h. (ap arg_type h, ([], ap recurse h), ap next h);
  pairs_end = λ it h. ap arg_type h;
  struct_at = λ it u us vs h. ([], ap recurse h.1);
  variant_at = λ it v vs h. ([], ap recurse h.1);
}

-- Text is equal to text with the same bytes.
abbrev pub equal : Object → Object → Bool
equal (str_object t a l) (str_object u b m) = same a b
equal _ _ = false

abbrev entered : Entries → Object → Object → Entries
entered Object.end k v = entry k v Object.end
entered (entry j u es) k v = if equal j k then entry j v es else entry j u (entered es k v)

abbrev pub machine : Host
machine = record {
  platform = wide;
  decode_utf8 = λ s. ok s;
  set_item = λ es k v. ok (entered es k v);
  files = λ fd i. false;
  dup = λ fd. none;
}

entered-missing :
    (es : Entries) (k v : Object) → missing equal k es ≡ true → entered es k v ≡ add es k v
entered-missing Object.end k v h = refl
entered-missing (entry j u es) k v h = ground (arith, entered-missing es k v)

pub stores :
    (es : Entries) (k v : Object)
    → hashable k ≡ true
    → missing equal k es ≡ true
    → machine.set_item es k v ≡ ok (add es k v)
stores es k v n h = ap ok (entered-missing es k v h)

pub at_start : Values → held.Iter
unfolding held
at_start vs = values [] vs

pub stands : (vs : Values) → laws.Before (at_start vs) vs
unfolding laws at_start
stands vs = ([], refl)

pub signed : (it : held.Iter) → (s : Bytes) × (held.get_signature it ≡ some s)
unfolding held
signed it = (signature_at it, refl)
