-- ===== src/Tests/Objects.antt =====
-- Signatures that are guessed, containers, variant levels and file descriptors.
use python_dbus.Containers.{
  a_signature, array_new, dict_new, convert_signature, container_level, check_element,
  check_key_value, is_key_type,
}
use python_dbus.Message.Guess.Arguments.{guess_signature-IsSequence}
use python_dbus.Message.Guess.Lookup.{Attribute, raised, get_object_path}
use python_dbus.Message.Guess.Sound.{
  IsSingle, IsSequence, HasSignatures, HaveSignatures, EntriesHaveSignatures,
}
use python_dbus.Message.Guess.{
  get_variant_level, is_bool, int_signature, str_signature, describe, typed_signature,
  item_signatures, signature_string, guess_signature, new_signature,
}
use python_dbus.Message.Types.{Ty, print}
use python_dbus.Prelude.{
  ℕ, Bool, true, false, none, some, [], ◌∷◌, ◌≡◌, ◌≢◌, refl, Bytes, same, same_iff, ◌==◌,
}
use python_dbus.Python.Integer.{pos}
use python_dbus.Python.Object.{
  Object, int_object, int, str_object, str, tuple, array, dictionary, Objects, nil, cons, Entries,
  end, entry,
}
use python_dbus.Python.{other_exception, Result, ok}
use python_dbus.UnixFd.Owned
use python_dbus.UnixFd.Owned.{descriptor_owned, negative_fd_aborts}
use python_dbus.UnixFd.{opened, new, long_arg, no_fileno, fd_original, make_fd, object}
use python_dbus.VariantLevels.Lifetime
use python_dbus.VariantLevels.Lifetime.{struct_made_reads, unused_reads_zero}
use python_dbus.VariantLevels.{struct_store, struct_dealloc}

-- No object has the attribute.
abbrev plain : Object → Attribute
plain obj = raised other_exception

abbrev arguments : Objects
arguments =
    cons (int_object int (pos 7) (pos 0))
      (cons (array nil (some (b's' ∷ [])) (pos 0)) (cons (str_object str [] (pos 0)) nil))

arguments_signed : HaveSignatures arguments
unfolding HaveSignatures print
arguments_signed = (tt, (((Ty.string, refl), tt), (tt, tt)))

guessed : guess_signature plain (λ s. true) arguments ≡ ok (b'i' ∷ b'a' ∷ b's' ∷ b's' ∷ [])
unfolding guess_signature signature_string typed_signature item_signatures describe
    get_variant_level is_bool int_signature str_signature get_object_path new_signature
guessed = refl

guess_signature-IsSequence_example : IsSequence 3 (b'i' ∷ b'a' ∷ b's' ∷ b's' ∷ [])
guess_signature-IsSequence_example =
    guess_signature-IsSequence plain (λ s. true) arguments arguments_signed guessed

tuple_signed :
    signature_string plain false (tuple arguments)
    ≡ ok (b'(' ∷ b'i' ∷ b'a' ∷ b's' ∷ b's' ∷ b')' ∷ [])
unfolding signature_string typed_signature item_signatures describe get_variant_level is_bool
    int_signature str_signature get_object_path
tuple_signed = refl

arguments_of_tuple : HasSignatures (tuple arguments)
unfolding HasSignatures print
arguments_of_tuple = (tt, (((Ty.string, refl), tt), (tt, tt)))

-- A test that knows one signature.
abbrev only_s : Bytes → Bool
only_s s = same s (b's' ∷ [])

only_s_sound : (s : Bytes) → only_s s ≡ true → IsSingle s
unfolding print
only_s_sound s h = (Ty.string, (same_iff s (b's' ∷ [])).0 h)

array_made :
    array_new (λ s. true) only_s (ok nil) (a_signature (b's' ∷ [])) none
    ≡ ok (array nil (some (b's' ∷ [])) (pos 0))
unfolding array_new container_level convert_signature check_element same
array_made = refl

nil_signed : (xs : Objects) → ◌≡◌ {A = Result Objects} (ok nil) (ok xs) → HaveSignatures xs
unfolding HaveSignatures
nil_signed nil e = tt
nil_signed (cons x xs) e = cc

dict_made :
    dict_new (λ s. true) only_s (ok end) (a_signature (b'i' ∷ b's' ∷ [])) none
    ≡ ok (dictionary end (some (b'i' ∷ b's' ∷ [])) (pos 0))
unfolding dict_new container_level convert_signature check_key_value is_key_type same
dict_made = refl

end_signed : (es : Entries) → ◌≡◌ {A = Result Entries} (ok end) (ok es) → EntriesHaveSignatures es
unfolding EntriesHaveSignatures
end_signed end e = tt
end_signed (entry k v es) e = cc

-- Struct 1 has level 2; another object comes and goes.
abbrev no_objects : Lifetime.World
no_objects = Lifetime.start

abbrev with_struct : Lifetime.World
with_struct = record {
  kind = Lifetime.become no_objects.kind 1 Lifetime.structure;
  tables = (struct_store no_objects.tables 1 (pos 2) (ok none)).0;
}

abbrev struct_freed : Lifetime.World
struct_freed = record {
  kind = Lifetime.become with_struct.kind 1 Lifetime.free;
  tables = struct_dealloc with_struct.tables 1;
}

-- Descriptor 0 is open, and object 1 gets a duplicate of it.
abbrev one_open : ℕ → Bool
one_open fd = fd == 0

abbrev duplicated : Owned.World
duplicated = record {
  files = opened one_open 5;
  fd_of = Owned.put_fd (Owned.start one_open).fd_of 1 (some (pos 5));
  program = one_open;
}

duplicate_made :
    new (some 5) one_open (long_arg (ok (pos 0))) no_fileno ≡ (opened one_open 5, object (pos 5))
unfolding new fd_original make_fd
duplicate_made = refl

descriptor_owned_example :
    (duplicated.files 5 ≡ true) × (one_open 5 ≡ false) × (duplicated.fd_of 2 ≢ some (pos 5))
descriptor_owned_example =
    descriptor_owned {w = duplicated} 5 1 2
      (Owned.next (Owned.started one_open) (
        Owned.created (Owned.start one_open) 1 5 (long_arg (ok (pos 0))) no_fileno
          (opened one_open 5) refl refl duplicate_made))
      refl refl
