-- ===== src/Message/Write/Again.antt =====
-- Writing a value's object writes the value: `_message_iter_append_pyobject` of
-- _dbus_bindings/message-append.c under the value's own signature.
pub mod Basics
pub mod Containers
pub mod Shape
pub mod Arguments
use mathlib.Core.List.{append_assoc, append-nil}
use python_dbus.Message.Append.{Interpreter, Basic, append_basic}
use python_dbus.Message.Guess.Lookup.{get_object_path}
use python_dbus.Message.Objects.Described.{get_variant_level-object_of, signature_string-core}
use python_dbus.Message.Objects.{
  object_of, basic_object, objects_of, entries_of, depth, core, Fits, FitAll, FitPairs, Share,
}
use python_dbus.Message.Signature.{SignatureIters, no_types}
use python_dbus.Message.Types
use python_dbus.Message.Types.{Ty, Tys, print, print_all}
use python_dbus.Message.Values.{
  Value, basic, array, dict, struct, variant, Values, nil, cons, Pairs, types_of, calls_all,
  calls_pairs, size_all, size_pairs, entry_signature, type_of, calls, size, code, is_variant,
  basic_fits, Call, put_basic, open_container, close_container,
}
use python_dbus.Message.Write.Steps.{
  openings, closings, append_variant_lem, forget, then_do_lem, call_lem,
}
use python_dbus.Message.Write.Again.Basics.{append_basic-basic_object}
use python_dbus.Message.Write.Again.Containers.{
  Writes, within-ok, append_array-ok, append_items_lem, append_entries_lem, append_members_lem,
}
use python_dbus.Message.Guess.{get_variant_level}
use python_dbus.Message.Write.{
  Iteration, Memory, Writer, Append, append_pyobject, append_variant, variants, append_array_object,
  append_multi_array, append_multi_dict, append_multi_struct, append_items, append_entries,
  append_members, bytes_of, is_byte_array, subscripts_of, finish_multi, return, ◌then_do◌, call,
  append_by_type, append_basic_object, append_args, append_under, message_append,
}
use python_dbus.Prelude.{
  ℕ, zero, suc, ◌+◌, ◌≤◌, Bool, true, false, not, ◌==◌, Option, none, some, List, [], ◌∷◌, ◌++◌,
  ◌≡◌, ◌∙◌, refl, sym, ap, subst, arith, Bytes,
}
use python_dbus.Python.Integer.{ℤ, pos}
use python_dbus.Python.Object.{Object, IntType, int_object}
use python_dbus.Python.{Result, ok, err}
use python_dbus.Message.Write.Again.Shape.{
  closings-snoc, calls-core, is_variant-core, size-core, depth-core, object_of-core,
  object_of-core0, code-ne-entry, basic_code, size_pos, core-Fits,
}

-- What the proofs ask of libdbus and of Python: no call lacks memory, an object that stands for a value
-- has no `__dbus_object_path__`, and a dbus.Boolean is true unless it is 0.
module _ (lib : SignatureIters) (python : Interpreter) (iteration : Iteration) (memory : Memory)
    (plenty : (w : List Call) (c : Call) → memory.for_call w c ≡ true)
    (signatures : (w : List Call) → memory.for_signature w ≡ true)
    (validate validate_single : Bytes → Bool)
    (plain : (l : ℕ) (v : Value) → get_object_path (python.attribute (object_of l v)) ≡ ok none)
    (truth : (n : ℕ) (level : ℤ)
      → python.truth (int_object IntType.boolean (pos n) level) ≡ ok (not (n == 0))) where
  module _ (n : ℕ) (append : Append lib python iteration memory)
      (ha : Writes lib python iteration memory plenty python.validate_utf8 validate validate_single
        n append) where
    single_At : (t : Ty) → lib.At (lib.init (print t)) (Tys.cons t Tys.nil)
    unfolding print
    single_At t =
        subst (λ s. lib.At (lib.init s) (Tys.cons t Tys.nil)) (append-nil (print t))
          (lib.at_init t Tys.nil)

    level_lem :
        (v : Value) (d : ℕ)
        → Fits python.validate_utf8 validate validate_single v
        → depth v ≡ suc d
        → variants (get_variant_level (object_of (depth v) (core v))) ≡ depth v
    unfolding variants
    level_lem v d f e = ground (
      arith,
      get_variant_level-object_of python.validate_utf8 validate validate_single (depth v) (core v)
          (core-Fits python.validate_utf8 validate validate_single v f),
      depth-core v,
    )

    variant_lem :
        (v : Value) (d : ℕ) (w : List Call)
        → size (core v) ≤ n
        → Fits python.validate_utf8 validate validate_single v
        → depth v ≡ suc d
        → append_variant lib python iteration memory append (object_of 0 v) w
          ≡ (w ++ calls v, ok tt)
    variant_lem v d w s f e =
        let t = type_of (core v) in
        let obj = object_of (depth v) (core v) in
        let fc = core-Fits python.validate_utf8 validate validate_single v f in
        let o = openings (depth v) (print t) in
        ap (λ o. append_variant lib python iteration memory append o w) (object_of-core0 v)
        ∙ append_variant_lem lib python iteration memory plenty append obj (print t) w (
            signature_string-core python.validate_utf8 validate validate_single python.attribute
              plain (depth v) (core v) fc (is_variant-core v))
        ∙ ap
            (λ m.
              let r = append (lib.init (print t)) obj (w ++ openings m (print t)) in
              (r.0 ++ closings m, forget r.1))
            (level_lem v d f e)
        ∙ ap (λ r. (r.0 ++ closings (depth v), forget r.1))
            (ha (depth v) (core v) (lib.init (print t)) Tys.nil (w ++ o) s fc
              (λ h. cc (is_variant-core v)) (single_At t))
        ∙ rw (calls-core v) (simp append_assoc)

    -- Each of the branches for containers.
    array_lem :
        (l : ℕ) (t : Ty) (vs : Values) (it : lib.Iter) (ts : Tys) (w : List Call)
        → size_all vs ≤ n
        → FitAll python.validate_utf8 validate validate_single vs
        → Share t vs
        → lib.At it (Tys.cons (Types.array t) ts)
        → append_array_object lib python iteration memory append it (object_of l (array t vs)) w
          ≡ (w ++ calls (array t vs), ok tt)
    unfolding append_array_object append_multi_array object_of calls bytes_of is_byte_array
    array_lem l t vs it ts w s f e a =
        let (element, inside) = lib.element_array it t ts a in
        rw
          (
            element,
            code-ne-entry t,
            iteration.items_array (objects_of vs) (some (print t)) (pos l),
            append_multi_array,
          )
          (append_array-ok lib python iteration memory plenty it
            (append_items lib python iteration memory append it (objects_of vs) none) w
            (calls_all vs) (print t) (signatures w)
            (lib.signature_at (lib.recurse it) t Tys.nil inside)
            (λ w1.
              append_items_lem lib python iteration memory plenty python.validate_utf8 validate
                validate_single n append ha vs t it w1 s f e inside))

    dict_lem :
        (l : ℕ) (k v : Ty) (ps : Pairs) (it : lib.Iter) (ts : Tys) (w : List Call)
        → size_pairs ps ≤ n
        → FitPairs python.validate_utf8 validate validate_single k v ps
        → lib.At it (Tys.cons (Types.dict k v) ts)
        → append_array_object lib python iteration memory append it (object_of l (dict k v ps)) w
          ≡ (w ++ calls (dict k v ps), ok tt)
    unfolding append_array_object append_multi_dict object_of calls
    dict_lem l k v ps it ts w s f a =
        let (element, inside) = lib.element_dict it k v ts a in
        rw
          (
            element,
            iteration.subscripts_dictionary (entries_of ps) (some (print k ++ print v)) (pos l),
            append_multi_dict,
          )
          (append_array-ok lib python iteration memory plenty it
            (append_entries lib python iteration memory append it (subscripts_of (entries_of ps))
              none)
            w (calls_pairs ps) (entry_signature k v) (signatures w)
            (lib.at_entry (lib.recurse it) k v inside).1
            (λ w1.
              append_entries_lem lib python iteration memory plenty python.validate_utf8 validate
                validate_single n append ha ps k v it w1 s f inside))

    struct_lem :
        (l : ℕ) (v : Value) (vs : Values) (it : lib.Iter) (ts : Tys) (w : List Call)
        → size v + size_all vs ≤ n
        → Fits python.validate_utf8 validate validate_single v
        → FitAll python.validate_utf8 validate validate_single vs
        → lib.At it (Tys.cons (Types.struct (type_of v) (types_of vs)) ts)
        → append_multi_struct lib python iteration memory append it (object_of l (struct v vs)) w
          ≡ (w ++ calls (struct v vs), ok tt)
    unfolding append_multi_struct object_of calls finish_multi size Fits type_of
    struct_lem l v vs it ts w s f fs a =
        let inside = lib.recurse_struct it (type_of v) (types_of vs) ts a in
        let c = open_container (b'r') none in
        rw (iteration.items_struct (objects_of (cons v vs)) (pos l), append_multi_struct)
          (within-ok lib python iteration memory plenty (b'r') none _ w (calls_all (cons v vs)) tt (
            ap (λ r. (r.0, finish_multi true r.1))
              (append_members_lem lib python iteration memory plenty python.validate_utf8 validate
                validate_single n append ha (cons v vs) (lib.recurse it) true (w ++ (c ∷ [])) s
                (f, fs) inside refl)))

    by_type_lem :
        (l : ℕ) (v : Value) (it : lib.Iter) (ts : Tys) (w : List Call)
        → size v ≤ suc n
        → Fits python.validate_utf8 validate validate_single v
        → (is_variant v ≡ true → l ≡ 0)
        → lib.At it (Tys.cons (type_of v) ts)
        → append_by_type lib python iteration memory append (code (type_of v)) it (object_of l v) w
          ≡ (w ++ calls v, ok tt)
    unfolding append_by_type append_basic_object type_of size Fits code object_of calls is_variant
        core depth
    by_type_lem l (basic t b) it ts w s f p a =
        let c = basic_code python.validate_utf8 validate t b f in
        rw (c.0, c.1, c.2)
          (then_do_lem (return (append_basic python (code t) (basic_object l t b)))
              (λ b. call lib python iteration memory (put_basic (code t) b)) w w b
              (ap (λ r. (w, r))
                (append_basic-basic_object python validate truth l t b f (plain l (basic t b))))
            ∙ call_lem lib python iteration memory plenty (put_basic (code t) b) w)
    by_type_lem l (array t vs) it ts w s f p a = array_lem l t vs it ts w (omega arith) f.2 f.3 a
    by_type_lem l (dict k v ps) it ts w s f p a = dict_lem l k v ps it ts w (omega arith) f.3 a
    by_type_lem l (struct v vs) it ts w s f p a = struct_lem l v vs it ts w (omega arith) f.0 f.1 a
    by_type_lem l (variant v) it ts w s f p a =
        ap (λ l. append_variant lib python iteration memory append (object_of l (variant v)) w)
          (p refl)
        ∙ variant_lem (variant v) (depth v) w (omega (arith, size-core v)) f refl

  -- In as many levels of recursion as the value has parts, `_message_iter_append_pyobject` writes the
  -- value for the object that stands for it, and moves the iterator of the signature on. The object is
  -- not that of a variant's contents, unless the signature is that of the contents.
  pub append_pyobject-calls :
      (n : ℕ) (l : ℕ) (v : Value) (it : lib.Iter) (ts : Tys) (w : List Call)
      → size v ≤ n
      → Fits python.validate_utf8 validate validate_single v
      → (is_variant v ≡ true → l ≡ 0)
      → lib.At it (Tys.cons (type_of v) ts)
      → append_pyobject lib python iteration memory n it (object_of l v) w
        ≡ (w ++ calls v, ok (lib.next it))
  unfolding append_pyobject
  append_pyobject-calls zero l v it ts w s f p a = absurd (omega (arith, size_pos v))
  append_pyobject-calls (suc n) l v it ts w s f p a =
      let append = append_pyobject lib python iteration memory n in
      rw (lib.current_at it (type_of v) ts a) (
        then_do_lem
          (append_by_type lib python iteration memory append (code (type_of v)) it (object_of l v))
          (λ _. return (ok (lib.next it))) w (w ++ calls v) tt
          (by_type_lem n append (append_pyobject-calls n) l v it ts w s f p a))

  pub args_lem :
      (n : ℕ) (vs : Values) (it : lib.Iter) (more : Bool) (w : List Call)
      → size_all vs ≤ n
      → FitAll python.validate_utf8 validate validate_single vs
      → lib.At it (types_of vs)
      → more ≡ not (no_types (types_of vs))
      → append_args lib python iteration memory n it more (objects_of vs) w
        ≡ (w ++ calls_all vs, ok tt)
  unfolding append_args size calls objects_of type_of Fits
  args_lem n nil it false w s f a e = rw (append-nil w)
  args_lem n nil it true w s f a e = cc
  args_lem n (cons v vs) it false w s f a e = cc
  args_lem n (cons v vs) it true w s f a e =
      then_do_lem (append_pyobject lib python iteration memory n it (object_of 0 v))
        (λ r. append_args lib python iteration memory n r.0 r.1 (objects_of vs)) w (w ++ calls v)
        (lib.next it)
        (append_pyobject-calls n 0 v it (types_of vs) w (omega arith) f.0 (λ _. refl) a)
      ∙ args_lem n vs (lib.next it).0 (lib.next it).1 (w ++ calls v) (omega arith) f.1
          (lib.next_at it (type_of v) (types_of vs) a).0
          (lib.next_at it (type_of v) (types_of vs) a).1
      ∙ simp append_assoc
