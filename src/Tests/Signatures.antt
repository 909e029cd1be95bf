-- ===== src/Tests/Signatures.antt =====
-- Iterators over signatures, as libdbus has them: the text of what is left.
use mathlib.Core.List.{append_assoc, append-nil}
use python_dbus.Message.Signature.{SignatureIters, no_types}
use python_dbus.Message.Types
use python_dbus.Message.Types.{Ty, Tys, print, print_all}
use python_dbus.Message.Values.{code, entry_signature}
use python_dbus.Prelude.{
  ℕ, zero, suc, Bool, not, ◌||◌, [], ◌∷◌, ◌++◌, ◌≡◌, ◌∙◌, refl, sym, ap, ◌==◌, if◌then◌else◌, Bytes,
  is_empty, drop,
}

abbrev opens : ℕ → Bool
opens c = c == b'(' || c == b'{'

abbrev closes : ℕ → Bool
closes c = c == b')' || c == b'}'

abbrev before : Bytes → Bytes × Bytes → Bytes × Bytes
before s r = (s ++ r.0, r.1)

-- The first complete type and the rest, inside so many brackets.
scan : ℕ → Bytes → Bytes × Bytes
scan d [] = ([], [])
scan zero (c ∷ cs) =
    let further = scan zero cs in
    let inside = scan 1 cs in
    if c == b'a'
    then before (c ∷ []) further
    else if opens c
    then before (c ∷ []) inside
    else (c ∷ [], cs)
scan (suc d) (c ∷ cs) =
    let out = scan d cs in
    let inside = scan (suc (suc d)) cs in
    let further = scan (suc d) cs in
    if closes c
    then (elim d [ zero ↦ (c ∷ [], cs) | suc e ↦ before (c ∷ []) out ])
    else if opens c
    then before (c ∷ []) inside
    else before (c ∷ []) further

-- A bracketed pair or sequence in front of more.
unbracket : (a b : Bytes) (c : ℕ) (s : Bytes) → (a ++ (b ++ (c ∷ []))) ++ s ≡ a ++ (b ++ (c ∷ s))
unbracket a b c s = append_assoc a (b ++ (c ∷ [])) s ∙ ap (λ r. a ++ r) (append_assoc b (c ∷ []) s)

mutual
  unfolding scan print

  scan_inside :
      (d : ℕ) (t : Ty) (s : Bytes) → scan (suc d) (print t ++ s) ≡ before (print t) (scan (suc d) s)
  scan_inside d (Types.array t) s = rw (scan_inside d t s) refl
  scan_inside d (Types.dict k v) s =
      rw
        (
          unbracket (print k) (print v) (b'}') s,
          scan_inside (suc d) k (print v ++ (b'}' ∷ s)),
          scan_inside (suc d) v (b'}' ∷ s),
        )
        (simp append_assoc)
  scan_inside d (Types.struct t ts) s =
      rw
        (
          unbracket (print t) (print_all ts) (b')') s,
          scan_inside (suc d) t (print_all ts ++ (b')' ∷ s)),
          scan_all_inside (suc d) ts (b')' ∷ s),
        )
        (simp append_assoc)
  scan_inside d Types.byte s = refl
  scan_inside d _ s = refl

  scan_all_inside :
      (d : ℕ) (ts : Tys) (s : Bytes)
      → scan (suc d) (print_all ts ++ s) ≡ before (print_all ts) (scan (suc d) s)
  scan_all_inside d Types.nil s = refl
  scan_all_inside d (Types.cons t ts) s =
      rw
        (
          append_assoc (print t) (print_all ts) s,
          scan_inside d t (print_all ts ++ s),
          scan_all_inside d ts s,
        )
        (simp append_assoc)

scan_entry : (k v : Ty) (s : Bytes) → scan 0 (entry_signature k v ++ s) ≡ (entry_signature k v, s)
unfolding scan
scan_entry k v s =
    rw
      (
        unbracket (print k) (print v) (b'}') s,
        scan_inside 0 k (print v ++ (b'}' ∷ s)),
        scan_inside 0 v (b'}' ∷ s),
      )
      refl

scan_first : (t : Ty) (s : Bytes) → scan 0 (print t ++ s) ≡ (print t, s)
unfolding scan print
scan_first (Types.array t) s = rw (scan_first t s) refl
scan_first (Types.dict k v) s = ap (before (b'a' ∷ [])) (scan_entry k v s)
scan_first (Types.struct t ts) s =
    rw
      (
        unbracket (print t) (print_all ts) (b')') s,
        scan_inside 0 t (print_all ts ++ (b')' ∷ s)),
        scan_all_inside 0 ts (b')' ∷ s),
      )
      refl
scan_first Types.byte s = refl
scan_first _ s = refl

-- `DBUS_TYPE_...` for the first letter.
abbrev letter : Bytes → ℕ
letter [] = 0
letter (c ∷ cs) = if c == b'(' then b'r' else if c == b'{' then b'e' else c

abbrev without_last : Bytes → Bytes
without_last [] = []
without_last (c ∷ []) = []
without_last (c ∷ d ∷ cs) = c ∷ without_last (d ∷ cs)

abbrev inside_of : Bytes → Bytes
inside_of [] = []
inside_of (c ∷ cs) = if c == b'a' then (scan 0 cs).0 else drop 1 (without_last (scan 0 (c ∷ cs)).0)

without_last-append : (s : Bytes) (c : ℕ) → without_last (s ++ (c ∷ [])) ≡ s
without_last-append [] c = refl
without_last-append (a ∷ []) c = refl
without_last-append (a ∷ b ∷ s) c = ap (λ r. a ∷ r) (without_last-append (b ∷ s) c)

unwrapped : (b : ℕ) (s : Bytes) (c : ℕ) → drop 1 (without_last (b ∷ (s ++ (c ∷ [])))) ≡ s
unwrapped b s c = ap (drop 1) (without_last-append (b ∷ s) c)

letter-print : (t : Ty) (s : Bytes) → letter (print t ++ s) ≡ code t
unfolding print code
letter-print Types.byte s = refl
letter-print _ s = refl

is_empty-print_all : (ts : Tys) → is_empty (print_all ts) ≡ no_types ts
unfolding print
is_empty-print_all Types.nil = refl
is_empty-print_all (Types.cons Types.byte ts) = refl
is_empty-print_all (Types.cons _ ts) = refl

inside_struct :
    (t : Ty) (us ts : Tys)
    → inside_of (print_all (Types.cons (Types.struct t us) ts)) ≡ print_all (Types.cons t us)
unfolding print
inside_struct t us ts =
    ap (λ r. drop 1 (without_last r.0)) (scan_first (Types.struct t us) (print_all ts))
    ∙ ap (λ r. drop 1 (without_last (b'(' ∷ r)))
        (sym (append_assoc (print t) (print_all us) (b')' ∷ [])))
    ∙ unwrapped (b'(') (print t ++ print_all us) (b')')

inside_entry :
    (k v : Ty) → inside_of (entry_signature k v) ≡ print_all (Types.cons k (Types.cons v Types.nil))
unfolding print
inside_entry k v =
    ap (λ r. drop 1 (without_last (scan 0 r).0)) (sym (append-nil (entry_signature k v)))
    ∙ ap (λ r. drop 1 (without_last r.0)) (scan_entry k v [])
    ∙ ap (λ r. drop 1 (without_last (b'{' ∷ r)))
        (sym (append_assoc (print k) (print v) (b'}' ∷ [])))
    ∙ unwrapped (b'{') (print k ++ print v) (b'}')
    ∙ ap (λ r. print k ++ r) (sym (append-nil (print v)))

pub texts : SignatureIters
unfolding scan print code
texts = record {
  Iter = Bytes;
  init = λ s. s;
  current_type = letter;
  element_type = λ s. letter (drop 1 s);
  recurse = inside_of;
  get_signature = λ s. (scan 0 s).0;
  next = λ s. ((scan 0 s).1, not (is_empty (scan 0 s).1));
  At = λ s ts. s ≡ print_all ts;
  AtEntry = λ s k v. s ≡ entry_signature k v;
  at_init = λ t ts. refl;
  current_at = λ it t ts h. rw h (letter-print t (print_all ts));
  signature_at = λ it t ts h. rw (h, scan_first t (print_all ts)) refl;
  next_at = λ it t ts h. (
    rw (h, scan_first t (print_all ts)) refl,
    rw (h, scan_first t (print_all ts)) (ap not (is_empty-print_all ts)),
  );
  element_array = λ it t ts h. (
    rw h (letter-print t (print_all ts)),
    rw (h, scan_first t (print_all ts)) (sym (append-nil (print t))),
  );
  element_dict = λ it k v ts h. (rw h refl, rw h (ap (λ r. r.0) (scan_entry k v (print_all ts))));
  at_entry = λ it k v h. (
    rw h refl,
    rw h (ap (λ r. r.0) (ap (scan 0) (sym (append-nil (entry_signature k v))) ∙ scan_entry k v [])),
    rw h (inside_entry k v),
  );
  recurse_struct = λ it t us ts h. rw h (inside_struct t us ts);
}
