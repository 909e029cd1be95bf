-- ===== src/Connection/Children/Paths.antt =====
-- What `Connection_list_exported_child_objects` of _dbus_bindings/conn-methods.c returns, and the paths
-- that its documentation makes of it.
use mathlib.Core.List.{append-nil, append_assoc}
use python_dbus.Connection.Children.{
  freed, leaked, Room, kids_loop, check_children, list_exported_child_objects,
}
use python_dbus.Connection.Sending.{Sender, raise_if_fail}
use python_dbus.Prelude.{
  Bool, true, ◌&&◌, Option, some, List, [], ◌∷◌, ◌++◌, ◌≡◌, ◌≢◌, sym, ap, same_iff, inl, inr, refl,
  arith, Bytes, if◌then◌else◌, all, words, same, Bool-cases,
}
use python_dbus.Python.{ok, err, memory_error}
use python_dbus.Validation.{passes, validate_object_path}
use python_dbus.Validation.Chars.{passes_iff}
use python_dbus.Validation.Grammar.{digit, letter, word_char, is_word, IsObjectPath}
use python_dbus.Validation.ObjectPath.{validate_object_path_iff}
use python_dbus.Validation.Relations.{object_path-append}

-- `'%s%s%s' % (path, (path != '/' and '/' or ''), name)`
abbrev pub child_path : Bytes → Bytes → Bytes
child_path path name = if same path (b'/' ∷ []) then path ++ name else path ++ b'/' ∷ name

words-word : (name : Bytes) → all word_char name ≡ true → words b'/' name ≡ (name, [])
unfolding word_char digit letter
words-word [] h = refl
words-word (c ∷ cs) h = ground (arith, words-word cs)

under_root : (name : Bytes) → is_word word_char true name ≡ true → IsObjectPath (b'/' ∷ name)
under_root [] h = ground arith
under_root (c ∷ cs) h = ground (arith, words-word (c ∷ cs))

word_not_root : (name : Bytes) → is_word word_char true name ≡ true → b'/' ∷ name ≢ b'/' ∷ []
word_not_root [] h = ground arith
word_not_root (c ∷ cs) h = ground arith

joined-valid :
    (path name : Bytes)
    → passes (validate_object_path path) ≡ true
    → is_word word_char true name ≡ true
    → passes (validate_object_path (child_path path name)) ≡ true
joined-valid path name hp hn =
    let under = (validate_object_path_iff (b'/' ∷ name)).1 (under_root name hn) in
    elim (Bool-cases (same path (b'/' ∷ []))) [
      | inl e ↦ ground (
        arith,
        under,
        e,
        same_iff path (b'/' ∷ []),
        passes_iff (validate_object_path (b'/' ∷ name)),
      )
      | inr e ↦ ground (
        arith,
        under,
        e,
        hp,
        same_iff path (b'/' ∷ []),
        passes_iff (validate_object_path path),
        passes_iff (validate_object_path (path ++ b'/' ∷ name)),
        word_not_root name hn,
        object_path-append path (b'/' ∷ name),
      )
    ]

all-joined :
    (path : Bytes) (kids : List Bytes)
    → passes (validate_object_path path) ≡ true
    → all (is_word word_char true) kids ≡ true
    → all (λ name. passes (validate_object_path (child_path path name))) kids ≡ true
all-joined path [] hp h = refl
all-joined path (kid ∷ kids) hp h =
    ground (arith, joined-valid path kid hp, all-joined path kids hp)

-- There is memory for the strings, and for the list with each of them.
abbrev pub has_room : Room → List Bytes → List Bytes → Bool
has_room room [] ret = true
has_room room (kid ∷ kids) ret =
    room.makes kid && room.grows ret && has_room room kids (ret ++ (kid ∷ []))

kids_loop-has_room :
    (room : Room) (kids ret : List Bytes)
    → kids_loop room kids ret
      ≡ (if has_room room kids ret then (ok (ret ++ kids), freed) else (err memory_error, leaked))
unfolding kids_loop
kids_loop-has_room room [] ret = ap (λ l. (ok l, freed)) (sym (append-nil ret))
kids_loop-has_room room (kid ∷ kids) ret =
    grind
      (arith, kids_loop-has_room room kids (ret ++ (kid ∷ [])), append_assoc ret (kid ∷ []) kids)

-- On a connection, for an object path, and where libdbus has memory and only words of the grammar are
-- registered below the path: where there is memory for all of them, the names returned are those
-- registered, in order, and the array of libdbus is freed, and otherwise a MemoryError is raised and
-- the array leaks. Each of the names behind the path, as the documentation joins them, is an object
-- path again.
pub list_exported_child_objects-joined :
    (c : Sender)
    → c.has_conn ≡ true
    → (path : Bytes) → passes (validate_object_path path) ≡ true
    → (registered : Bytes → Option (List Bytes)) (kids : List Bytes) → registered path ≡ some kids
    → all (is_word word_char true) kids ≡ true
    → (room : Room)
    → (list_exported_child_objects c (ok path) registered room ≡ (
        if room.has_list && has_room room kids []
        then (ok kids, freed)
        else (err memory_error, leaked)))
      × (all (λ name. passes (validate_object_path (child_path path name))) kids ≡ true)
unfolding list_exported_child_objects check_children raise_if_fail
list_exported_child_objects-joined c hc path hp registered kids hk hw room =
    (grind (arith, kids_loop-has_room room kids []), all-joined path kids hp hw)
