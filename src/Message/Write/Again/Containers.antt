-- ===== src/Message/Write/Again/Containers.antt =====
-- The loops of `_message_iter_append_multi` of _dbus_bindings/message-append.c over objects that stand for
-- values.
use mathlib.Core.List.{append_assoc, append-nil}
use python_dbus.Message.Append.{Interpreter}
use python_dbus.Message.Objects.{object_of, objects_of, entries_of, Fits, FitAll, FitPairs, Share}
use python_dbus.Message.Signature.{SignatureIters, no_types}
use python_dbus.Message.Types.{Ty, Tys}
use python_dbus.Message.Values.{
  Value, Values, nil, cons, Pairs, end, pair, type_of, types_of, calls, calls_all, calls_pairs,
  size, size_all, size_pairs, is_variant, Call, open_container, close_container,
}
use python_dbus.Message.Write.Steps.{then_do_lem, within_lem, close_or_abandon-ok}
use python_dbus.Message.Write.{
  Iteration, Memory, Writer, Append, return, ◌then_do◌, within, close_or_abandon, append_items,
  append_entries, append_dictentry, append_members, append_array, finish_multi, subscripts_of,
  end_of,
}
use python_dbus.Prelude.{
  ℕ, ◌≤◌, Bool, true, false, not, Option, none, some, List, [], ◌∷◌, ◌++◌, ◌≡◌, ◌∙◌, refl, sym, ap,
  subst, arith, Bytes,
}
use python_dbus.Python.{ok}

-- Where libdbus never lacks memory.
module _ (lib : SignatureIters) (python : Interpreter) (iteration : Iteration) (memory : Memory)
    (plenty : (w : List Call) (c : Call) → memory.for_call w c ≡ true) where
  -- The container with what its body adds.
  pub within-ok :
      {A : Type 0} (c : ℕ) (sig : Option Bytes) (body : Writer A) (w d : List Call) (a : A)
      → body (w ++ (open_container c sig ∷ [])) ≡ ((w ++ (open_container c sig ∷ [])) ++ d, ok a)
      → within lib python iteration memory c sig body w
        ≡ (w ++ (open_container c sig ∷ (d ++ (close_container ∷ []))), ok a)
  within-ok c sig body w d a h =
      within_lem lib python iteration memory plenty c sig body w
      ∙ ap (λ r. close_or_abandon lib python iteration memory r.1 r.0) h
      ∙ close_or_abandon-ok lib python iteration memory plenty a
          ((w ++ (open_container c sig ∷ [])) ++ d)
      ∙ simp append_assoc

  pub append_array-ok :
      (it : lib.Iter) (loop : Writer Bool) (w d : List Call) (sig : Bytes)
      → memory.for_signature w ≡ true
      → lib.get_signature (lib.recurse it) ≡ sig
      → ((w1 : List Call) → loop w1 ≡ (w1 ++ d, ok true))
      → append_array lib python iteration memory it loop w
        ≡ (w ++ (open_container (b'a') (some sig) ∷ (d ++ (close_container ∷ []))), ok tt)
  unfolding append_array finish_multi
  append_array-ok it loop w d sig m s h =
      rw (m, s)
        (within-ok (b'a') (some sig) (λ w1. let (w2, r) = loop w1 in (w2, finish_multi false r)) w d
          tt
          (ap (λ r. (r.0, finish_multi false r.1))
            (h (w ++ (open_container (b'a') (some sig) ∷ [])))))

  module _ (utf8 validate validate_single : Bytes → Bool) (n : ℕ)
      (append : Append lib python iteration memory) where
    -- The function writes a value that is not in variants already, and moves the iterator on.
    abbrev pub Writes : Type 0
    Writes =
        (l : ℕ) (v : Value) (it : lib.Iter) (ts : Tys) (w : List Call)
        → size v ≤ n
        → Fits utf8 validate validate_single v
        → (is_variant v ≡ true → l ≡ 0)
        → lib.At it (Tys.cons (type_of v) ts)
        → append it (object_of l v) w ≡ (w ++ calls v, ok (lib.next it))

    module _ (ha : Writes) where
      item_lem :
          (v : Value) (t : Ty) (it : lib.Iter) (ts : Tys) (w : List Call)
          → size v ≤ n
          → Fits utf8 validate validate_single v
          → type_of v ≡ t
          → lib.At it (Tys.cons t ts)
          → append it (object_of 0 v) w ≡ (w ++ calls v, ok (lib.next it))
      item_lem v t it ts w s f e a =
          ha 0 v it ts w s f (λ _. refl) (subst (λ t. lib.At it (Tys.cons t ts)) (sym e) a)

      pub append_items_lem :
          (vs : Values) (t : Ty) (it : lib.Iter) (w : List Call)
          → size_all vs ≤ n
          → FitAll utf8 validate validate_single vs
          → Share t vs
          → lib.At (lib.recurse it) (Tys.cons t Tys.nil)
          → append_items lib python iteration memory append it (objects_of vs) none w
            ≡ (w ++ calls_all vs, ok true)
      unfolding append_items objects_of calls size end_of Fits
      append_items_lem nil t it w s f e a = rw (append-nil w)
      append_items_lem (cons v vs) t it w s f e a =
          then_do_lem (append (lib.recurse it) (object_of 0 v))
            (λ _. append_items lib python iteration memory append it (objects_of vs) none) w
            (w ++ calls v) (lib.next (lib.recurse it))
            (item_lem v t (lib.recurse it) Tys.nil w (omega arith) f.0 e.0 a)
          ∙ append_items_lem vs t it (w ++ calls v) (omega arith) f.1 e.1 a
          ∙ simp append_assoc

      pub append_members_lem :
          (vs : Values) (it : lib.Iter) (more : Bool) (w : List Call)
          → size_all vs ≤ n
          → FitAll utf8 validate validate_single vs
          → lib.At it (types_of vs)
          → more ≡ not (no_types (types_of vs))
          → append_members lib python iteration memory append it more (objects_of vs) none w
            ≡ (w ++ calls_all vs, ok false)
      unfolding append_members objects_of calls size end_of Fits type_of
      append_members_lem nil it more w s f a e = rw (append-nil w, e)
      append_members_lem (cons v vs) it true w s f a e =
          then_do_lem (append it (object_of 0 v))
            (λ r. append_members lib python iteration memory append r.0 r.1 (objects_of vs) none) w
            (w ++ calls v) (lib.next it)
            (item_lem v (type_of v) it (types_of vs) w (omega arith) f.0 refl a)
          ∙ append_members_lem vs (lib.next it).0 (lib.next it).1 (w ++ calls v) (omega arith) f.1
              (lib.next_at it (type_of v) (types_of vs) a).0
              (lib.next_at it (type_of v) (types_of vs) a).1
          ∙ simp append_assoc
      append_members_lem (cons v vs) it false w s f a e = cc

      append_dictentry_lem :
          (x y : Value) (k v : Ty) (it : lib.Iter) (w : List Call)
          → size x ≤ n
          → size y ≤ n
          → Fits utf8 validate validate_single x
          → type_of x ≡ k
          → Fits utf8 validate validate_single y
          → type_of y ≡ v
          → lib.AtEntry it k v
          → append_dictentry lib python iteration memory append it
              (object_of 0 x)
              (ok (object_of 0 y))
              w
            ≡ (
              w ++ (open_container (b'e') none ∷ ((calls x ++ calls y) ++ (close_container ∷ []))),
              ok tt,
            )
      unfolding append_dictentry
      append_dictentry_lem x y k v it w sx sy fx ex fy ey a =
          let c = open_container (b'e') none in
          let at_key = (lib.at_entry it k v a).2 in
          let key = lib.recurse it in
          let at_value = (lib.next_at key k (Tys.cons v Tys.nil) at_key).0 in
          within-ok (b'e') none _ w (calls x ++ calls y) tt (
            then_do_lem (append key (object_of 0 x))
              (λ r. append r.0 (object_of 0 y) then_do λ _. return (ok tt)) (w ++ (c ∷ []))
              ((w ++ (c ∷ [])) ++ calls x) (lib.next key)
              (item_lem x k key (Tys.cons v Tys.nil) (w ++ (c ∷ [])) sx fx ex at_key)
            ∙ then_do_lem (append (lib.next key).0 (object_of 0 y)) (λ _. return (ok tt))
                ((w ++ (c ∷ [])) ++ calls x) (((w ++ (c ∷ [])) ++ calls x) ++ calls y)
                (lib.next (lib.next key).0)
                (item_lem y v (lib.next key).0 Tys.nil ((w ++ (c ∷ [])) ++ calls x) sy fy ey
                  at_value)
            ∙ simp append_assoc)

      pub append_entries_lem :
          (ps : Pairs) (k v : Ty) (it : lib.Iter) (w : List Call)
          → size_pairs ps ≤ n
          → FitPairs utf8 validate validate_single k v ps
          → lib.AtEntry (lib.recurse it) k v
          → append_entries lib python iteration memory append it
              (subscripts_of (entries_of ps))
              none
              w
            ≡ (w ++ calls_pairs ps, ok true)
      unfolding append_entries object_of calls size end_of Fits
      append_entries_lem end k v it w s f a = rw (append-nil w)
      append_entries_lem (pair x y ps) k v it w s f a =
          let d = open_container (b'e') none ∷ ((calls x ++ calls y) ++ (close_container ∷ [])) in
          then_do_lem
            (append_dictentry lib python iteration memory append (lib.recurse it) (object_of 0 x)
              (ok (object_of 0 y)))
            (λ _.
              append_entries lib python iteration memory append it (subscripts_of (entries_of ps))
                none)
            w (w ++ d) tt
            (append_dictentry_lem x y k v (lib.recurse it) w (omega arith) (omega arith) f.0 f.1 f.2
              f.3 a)
          ∙ append_entries_lem ps k v it (w ++ d) (omega arith) f.4 a
          ∙ simp append_assoc
