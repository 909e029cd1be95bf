-- ===== src/Message/Types.antt =====
-- D-Bus types and the signatures that the D-Bus specification writes for them.
use python_dbus.Prelude.{[], ◌∷◌, ◌++◌, Bytes}

mutual
  pub data Ty : Type 0 where
    byte boolean int16 uint16 int32 uint32 int64 uint64 double : Ty
    string object_path signature unix_fd variant : Ty
    array : Ty → Ty
    -- An array of dict entries, with the types of the key and of the value.
    dict : Ty → Ty → Ty
    struct : Ty → Tys → Ty

  -- The types behind the first, in a structure or a signature.
  pub data Tys : Type 0 where
    nil : Tys
    cons : Ty → Tys → Tys

unfoldable mutual
  pub print : Ty → Bytes
  print byte = b'y' ∷ []
  print boolean = b'b' ∷ []
  print int16 = b'n' ∷ []
  print uint16 = b'q' ∷ []
  print int32 = b'i' ∷ []
  print uint32 = b'u' ∷ []
  print int64 = b'x' ∷ []
  print uint64 = b't' ∷ []
  print double = b'd' ∷ []
  print string = b's' ∷ []
  print object_path = b'o' ∷ []
  print signature = b'g' ∷ []
  print unix_fd = b'h' ∷ []
  print variant = b'v' ∷ []
  print (array t) = b'a' ∷ print t
  print (dict k v) = b'a' ∷ b'{' ∷ (print k ++ (print v ++ (b'}' ∷ [])))
  print (struct t ts) = b'(' ∷ (print t ++ (print_all ts ++ (b')' ∷ [])))

  pub print_all : Tys → Bytes
  print_all nil = []
  print_all (cons t ts) = print t ++ print_all ts
