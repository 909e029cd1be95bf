-- ===== src/Message/Read/Faithful.antt =====
-- `Message.get_args_list` of _dbus_bindings/message-get-args.c makes the right objects of the values in a
-- message.
pub mod Basics
pub mod Keys
use mathlib.Core.List.{append_assoc}
use python_dbus.Containers.{
  array_new, dict_new, struct_new, a_signature, absent, convert_signature, container_level,
  check_element, check_key_value, is_key_type, not_empty, not_negative,
}
use python_dbus.Message.Guess.{new_signature}
use python_dbus.Message.Objects.{object_of, objects_of, entries_of, Fits, FitAll, FitPairs, Share}
use python_dbus.Message.Read.Faithful.Basics.{get_basic-basic_object}
use python_dbus.Message.Read.Faithful.Keys.{
  add, join, join-add, join-end, hashable, hashable-object_of, missing, NewKeys, HasKeys, HaveKeys,
  PairsHaveKeys,
}
use python_dbus.Message.Write.Again.Shape.{size_pos, code-ne-entry, basic_code}
use python_dbus.Message.Read.Received.{Received}
use python_dbus.Message.Read.{
  Source, Host, Get, append_all_to_list, get_entries, get_dict, get_array, get_struct,
  get_any_array, get_by_type, get_pyobject, get_args_list, allocated, level_argument,
  inner_signature,
}
use python_dbus.Message.Types
use python_dbus.Message.Types.{Ty, print}
use python_dbus.Message.Values.{
  Value, basic, array, dict, struct, variant, Values, nil, cons, Pairs, end, pair, type_of, code,
  size, size_all, size_pairs, is_text,
}
use python_dbus.Prelude.{
  ℕ, zero, suc, ◌+◌, ◌-◌, ◌≤◌, ◌<◌, Bool, true, false, Option, some, none, ◌≡◌, ◌∙◌, refl, ap,
  arith, ◌==◌, Bytes, length, length-append, take-append, [], ◌∷◌, ◌++◌, sym,
}
use python_dbus.Python.Integer.{ℤ, pos}
use python_dbus.Python.Object
use python_dbus.Python.Object.{Object, Objects, Entries, entry}
use python_dbus.Python.{Result, ok, err, ◌>>=◌}

code-ne-zero : (t : Ty) → (code t == 0) ≡ false
unfolding code
code-ne-zero Types.byte = refl
code-ne-zero _ = refl

print-key : (k : Ty) → is_key_type (code k) ≡ true → print k ≡ code k ∷ []
unfolding print code is_key_type
print-key (Types.array t) h = absurd (cc h)
print-key (Types.dict t u) h = absurd (cc h)
print-key (Types.struct t ts) h = absurd (cc h)
print-key Types.variant h = absurd (cc h)
print-key _ h = refl

inner_signature-print : (k v : Ty) → inner_signature (print (Types.dict k v)) ≡ print k ++ print v
unfolding print
inner_signature-print k v =
    let s = print k ++ print v in
    let e : print k ++ (print v ++ (b'}' ∷ [])) ≡ s ++ (b'}' ∷ []) =
      sym (append_assoc (print k) (print v) (b'}' ∷ [])) in
    let l : length (b'a' ∷ b'{' ∷ (s ++ (b'}' ∷ []))) - 3 ≡ length s =
      omega (arith, length-append s (b'}' ∷ [])) in
    rw (e, l, take-append s (b'}' ∷ []))

level-argument : (l : ℕ) → container_level (level_argument l) ≡ ok (pos l)
unfolding container_level level_argument
level-argument zero = refl
level-argument (suc l) = refl

-- Where libdbus has memory for signatures, Python decodes the text that libdbus lets pass, and storing
-- under a new key adds an entry.
module _ (source : Source) (host : Host) (validate validate_single : Bytes → Bool)
    (received : Received source) (utf8 : Bytes → Bool)
    (decodes : (s : Bytes) → is_text utf8 s ≡ true → host.decode_utf8 s ≡ ok s)
    (plenty : (it : source.Iter) → (s : Bytes) × (source.get_signature it ≡ some s))
    (same : Object → Object → Bool)
    (stores : (es : Entries) (k v : Object)
      → hashable k ≡ true
      → missing same k es ≡ true
      → host.set_item es k v ≡ ok (add es k v)) where
  module _ (n : ℕ) (get : Get source host validate validate_single) where
    -- The function reads the value that the iterator stands at.
    abbrev Reads : Type 0
    Reads =
        (l : ℕ) (v : Value) (it : source.Iter) (vs : Values)
        → size v ≤ n
        → Fits utf8 validate validate_single v
        → HasKeys same v
        → received.Before it (cons v vs)
        → get it l ≡ ok (object_of l v)

    module _ (hg : Reads) where
      all_lem :
          (m : ℕ) (vs : Values) (it : source.Iter)
          → size_all vs < m
          → size_all vs ≤ n
          → FitAll utf8 validate validate_single vs
          → HaveKeys same vs
          → received.Before it vs
          → append_all_to_list source host validate validate_single m get it ≡ ok (objects_of vs)
      unfolding append_all_to_list objects_of size Fits HasKeys
      all_lem zero vs it s b f k a = absurd (omega arith)
      all_lem (suc m) nil it s b f k a = rw (received.type_end it a) refl
      all_lem (suc m) (cons v vs) it s b f k a =
          rw
            (
              received.type_at it v vs a,
              code-ne-zero (type_of v),
              hg 0 v it vs (omega arith) f.0 k.0 a,
              all_lem m vs (source.next it) (omega (arith, size_pos v)) (omega arith) f.1 k.1
                  (received.next_at it v vs a),
            )
            refl

      entries_lem :
          (m : ℕ) (k v : Ty) (ps : Pairs) (it : source.Iter) (es : Entries)
          → size_pairs ps < m
          → size_pairs ps ≤ n
          → FitPairs utf8 validate validate_single k v ps
          → is_key_type (code k) ≡ true
          → NewKeys same es ps
          → PairsHaveKeys same ps
          → received.BeforePairs it ps
          → get_entries source host validate validate_single m get it es
            ≡ ok (join es (entries_of ps))
      unfolding get_entries object_of size Fits HasKeys
      entries_lem zero k v ps it es s b f key new keys a = absurd (omega arith)
      entries_lem (suc m) k v end it es s b f key new keys a =
          rw (received.pairs_end it a, join-end es)
      entries_lem (suc m) k v (pair x y ps) it es s b f key new keys a =
          let (here, inside, after) = received.pair_at it x y ps a in
          let is_key : is_key_type (code (type_of x)) ≡ true = rw f.1 key in
          rw
            (
              here,
              hg 0 x (source.recurse it) (cons y nil) (omega arith) f.0 keys.0 inside,
              hg 0 y (source.next (source.recurse it)) nil (omega arith) f.2 keys.1
                  (received.next_at (source.recurse it) x (cons y nil) inside),
              stores es (object_of 0 x) (object_of 0 y)
                  (hashable-object_of utf8 validate validate_single x f.0 is_key) new.0,
            )
            (entries_lem m k v ps (source.next it) (add es (object_of 0 x) (object_of 0 y))
                (omega (arith, size_pos x)) (omega arith) f.4 key new.1 keys.2 after
              ∙ ap ok (join-add es (entries_of ps) (object_of 0 x) (object_of 0 y)))

      array_lem :
          (l : ℕ) (t : Ty) (us : Values) (it : source.Iter) (vs : Values)
          → size_all us ≤ n
          → Fits utf8 validate validate_single (array t us)
          → HaveKeys same us
          → received.Before it (cons (array t us) vs)
          → get_any_array source host validate validate_single false (suc n) get it l
            ≡ ok (object_of l (array t us))
      unfolding get_any_array get_array array_new convert_signature check_element new_signature
          allocated object_of Fits
      array_lem l t us it vs b f k a =
          let sub = source.recurse it in
          let (element, inside) = received.array_at it t us vs a in
          let (s, found) = plenty sub in
          let known : source.get_signature sub ≡ some (print t) =
            found ∙ ap some (received.signature_of_array it t us vs s a f.3 found) in
          rw
            (
              element,
              code-ne-entry t,
              known,
              f.0,
              level-argument l,
              f.1,
              all_lem (suc n) us sub (omega arith) b f.2 k inside,
            )
            refl

      dict_lem :
          (l : ℕ) (k v : Ty) (ps : Pairs) (it : source.Iter) (vs : Values)
          → size_pairs ps ≤ n
          → Fits utf8 validate validate_single (dict k v ps)
          → HasKeys same (dict k v ps)
          → received.Before it (cons (dict k v ps) vs)
          → get_any_array source host validate validate_single false (suc n) get it l
            ≡ ok (object_of l (dict k v ps))
      unfolding get_any_array get_dict dict_new convert_signature check_key_value new_signature
          allocated object_of Fits HasKeys
      dict_lem l k v ps it vs b f keys a =
          let (element, inside) = received.dict_at it k v ps vs a in
          let (s, found) = plenty it in
          let known : source.get_signature it ≡ some (print (Types.dict k v)) =
            found ∙ ap some (received.signature_of_dict it k v ps vs s a found) in
          let checked : check_key_value validate_single (some (print k ++ print v)) ≡ ok tt =
            rw (print-key k f.2, f.2, f.1) refl in
          rw
            (
              element,
              known,
              inner_signature-print k v,
              f.0,
              level-argument l,
              checked,
              entries_lem (suc n) k v ps (source.recurse it) Object.end (omega arith) b f.3 f.2
                  keys.0 keys.1 inside,
            )
            refl

      struct_lem :
          (l : ℕ) (u : Value) (us : Values) (it : source.Iter) (vs : Values)
          → size u + size_all us ≤ n
          → Fits utf8 validate validate_single (struct u us)
          → HasKeys same (struct u us)
          → received.Before it (cons (struct u us) vs)
          → get_struct source host validate validate_single (suc n) get it l
            ≡ ok (object_of l (struct u us))
      unfolding get_struct struct_new convert_signature not_empty not_negative object_of Fits
          HasKeys size
      struct_lem l u us it vs b f k a =
          rw
            (
              all_lem (suc n) (cons u us) (source.recurse it) (omega arith) b f k
                  (received.struct_at it u us vs a),
              level-argument l,
            )
            (ground arith)

      by_type_lem :
          (l : ℕ) (v : Value) (it : source.Iter) (vs : Values)
          → size v ≤ suc n
          → Fits utf8 validate validate_single v
          → HasKeys same v
          → received.Before it (cons v vs)
          → get_by_type source host validate validate_single false (suc n) get it l
            ≡ ok (object_of l v)
      unfolding get_by_type type_of code object_of Fits HasKeys size
      by_type_lem l (basic t b) it vs s f k a =
          let c = basic_code utf8 validate t b f in
          rw (received.type_at it (basic t b) vs a, c.0, c.1, c.2)
            (get_basic-basic_object source host validate validate_single received utf8 decodes l t b
              it vs f a)
      by_type_lem l (array t us) it vs s f k a =
          rw (received.type_at it (array t us) vs a) (array_lem l t us it vs (omega arith) f k a)
      by_type_lem l (dict t u ps) it vs s f k a =
          rw (received.type_at it (dict t u ps) vs a) (dict_lem l t u ps it vs (omega arith) f k a)
      by_type_lem l (struct u us) it vs s f k a =
          rw (received.type_at it (struct u us) vs a) (struct_lem l u us it vs (omega arith) f k a)
      by_type_lem l (variant v) it vs s f k a =
          let next : l + 1 ≡ suc l = omega arith in
          rw (received.type_at it (variant v) vs a, next)
            (hg (suc l) v (source.recurse it) nil (omega arith) f k (received.variant_at it v vs a))

  -- In as many levels of recursion as the value has parts, `_message_iter_get_pyobject` makes the
  -- object that stands for the value in front of the iterator, in so many variants, without the
  -- option `byte_arrays`. The value has no file descriptors and no dict with two keys that Python
  -- takes for equal; libdbus has memory for signatures, Python decodes the text that libdbus lets
  -- pass, and storing under a new key adds an entry.
  pub get_pyobject-object_of :
      (n l : ℕ) (v : Value) (it : source.Iter) (vs : Values)
      → size v ≤ n
      → Fits utf8 validate validate_single v
      → HasKeys same v
      → received.Before it (cons v vs)
      → get_pyobject source host validate validate_single false n it l ≡ ok (object_of l v)
  unfolding get_pyobject
  get_pyobject-object_of zero l v it vs s f k a = absurd (omega (arith, size_pos v))
  get_pyobject-object_of (suc n) l v it vs s f k a =
      by_type_lem n (get_pyobject source host validate validate_single false n)
        (get_pyobject-object_of n) l v it vs s f k a

  -- `Message.get_args_list`, without the option `byte_arrays`, on a message with given values as
  -- its arguments gives the list of the objects that stand for them, with fuel above the number of
  -- their parts. The values have no file descriptors and no dict with two keys that Python takes
  -- for equal; libdbus has memory for signatures, Python decodes the text that libdbus lets pass,
  -- and storing under a new key adds an entry.
  pub get_args_list-objects_of :
      (n : ℕ) (vs : Values) (it : source.Iter)
      → size_all vs < n
      → FitAll utf8 validate validate_single vs
      → HaveKeys same vs
      → received.Before it vs
      → get_args_list source host validate validate_single false n (some (some it))
        ≡ ok (objects_of vs)
  unfolding get_args_list
  get_args_list-objects_of n vs it s f k a =
      all_lem n (get_pyobject source host validate validate_single false n)
        (get_pyobject-object_of n) n vs it s (omega arith) f k a
