-- ===== src/Connection/Paths/Refines.antt =====
-- `_register_object_path` and `_unregister_object_path` of _dbus_bindings/conn-methods.c as operations
-- on a partial map from paths to callbacks.
use python_dbus.Connection.Paths.Sync.{view, begin_register-ok, begin_unregister-ok}
use python_dbus.Connection.Paths.{
  Libdbus, c_string, Entry, handlers, put, has_handlers, path_argument, Connection, begin_register,
  end_register, begin_unregister, end_unregister, register_object_path, unregister_object_path,
}
use python_dbus.Prelude.{
  ℕ, Bool, true, false, Option, none, some, ◌≡◌, refl, arith, Bytes, same, same_iff, if◌then◌else◌,
  inl, inr,
}
use python_dbus.Python.Object.{Object}
use python_dbus.Python.{Exception, ok, err, Result-cases}
use python_dbus.Validation.{valid, validate_object_path}
use python_dbus.Validation.Chars.{passes_iff}

-- What a registration that succeeds has found and done.
pub record Registered (arg : Object) (u m : Option ℕ) (c c' : Connection) (path : Bytes)
    : Type 0 where
  pub argument : path_argument arg ≡ ok path
  pub well_formed : validate_object_path (c_string path) ≡ valid
  pub was_free : view c path ≡ none
  pub main_loop : c.has_mainloop ≡ true
  pub entered : (q : Bytes) → view c' q ≡ (if same path q then some (handlers u m) else view c q)

-- What an unregistration that succeeds has found and done.
pub record Removed (arg : Object) (c c' : Connection) (path : Bytes) : Type 0 where
  pub argument : path_argument arg ≡ ok path
  pub was_taken : has_handlers (c.object_paths path) ≡ true
  pub removed : (q : Bytes) → view c' q ≡ (if same path q then none else view c q)

free_view :
    (e : Option Entry)
    → has_handlers e ≡ false
    → (elim e as (λ _. Option Entry) [ some (handlers u m) ↦ some (handlers u m) | _ ↦ none ])
      ≡ none
unfolding has_handlers
free_view e h = ground arith

end_register-ok :
    (u m : Option ℕ) (arg : Object) (c c' : Connection) (path : Bytes) (done entered : Bool)
    → begin_register arg c ≡ ok (path, c')
    → (end_register path (handlers u m) done entered c').1 ≡ ok tt
    → Registered arg u m c (end_register path (handlers u m) done entered c').0 path
unfolding end_register put
end_register-ok u m arg c c' path false entered e h = cc
end_register-ok u m arg c c' path true false e h = cc
end_register-ok u m arg c c' path true true e h =
    let started = begin_register-ok arg c c' path e in
    record {
      argument = started.0;
      well_formed = (passes_iff (validate_object_path (c_string path))).1 started.1;
      was_free = free_view (c.object_paths path) started.2;
      main_loop = started.3;
      entered = λ q. ground (arith, started.4);
    }

end_register-err :
    (u m : Option ℕ) (arg : Object) (c c' : Connection) (path : Bytes) (done entered : Bool)
    (x : Exception)
    → begin_register arg c ≡ ok (path, c')
    → (end_register path (handlers u m) done entered c').1 ≡ err x
    → (q : Bytes) → view (end_register path (handlers u m) done entered c').0 q ≡ view c q
unfolding end_register put
end_register-err u m arg c c' path true true x e h q = cc
end_register-err u m arg c c' path true false x e h q =
    let started = begin_register-ok arg c c' path e in
    ground (arith, started.4, same_iff path q, free_view (c.object_paths path) started.2)
end_register-err u m arg c c' path false entered x e h q =
    let started = begin_register-ok arg c c' path e in
    ground (arith, started.4, same_iff path q, free_view (c.object_paths path) started.2)

end_unregister-ok :
    (arg : Object) (c c' : Connection) (path : Bytes) (saved : Entry) (done : Bool)
    → begin_unregister arg c ≡ ok (path, saved, c')
    → (end_unregister path saved done c').1 ≡ ok tt
    → Removed arg c (end_unregister path saved done c').0 path
unfolding end_unregister put
end_unregister-ok arg c c' path saved false e h = cc
end_unregister-ok arg c c' path saved true e h =
    let started = begin_unregister-ok arg c c' path saved e in
    record {
      argument = started.0;
      was_taken = rw started.1 started.2;
      removed = λ q. ground (arith, started.3);
    }

end_unregister-err :
    (arg : Object) (c c' : Connection) (path : Bytes) (saved : Entry) (done : Bool) (x : Exception)
    → begin_unregister arg c ≡ ok (path, saved, c')
    → (end_unregister path saved done c').1 ≡ err x
    → (q : Bytes) → (end_unregister path saved done c').0.object_paths q ≡ c.object_paths q
unfolding end_unregister put
end_unregister-err arg c c' path saved true x e h q = cc
end_unregister-err arg c c' path saved false x e h q =
    let started = begin_unregister-ok arg c c' path saved e in
    ground (arith, started.1, started.3, same_iff path q)

module _ (l : Libdbus) where
  -- A registration that succeeds was for a path that is well-formed up to its first NUL, if it has one,
  -- and that was free, on a connection with a main loop, and enters the callbacks for that path alone.
  pub register-Registered :
      (arg : Object) (fallback entered : Bool) (u m : Option ℕ) (c : Connection) (s : l.State)
      → (register_object_path l arg fallback entered u m c s).2 ≡ ok tt
      → (path : Bytes) × Registered arg u m c
          (register_object_path l arg fallback entered u m c s).0
          path
  unfolding register_object_path
  register-Registered arg fallback entered u m c s = elim (Result-cases (begin_register arg c)) [
    | inl ((path, c'), e) ↦
        rw (e, register_object_path) (λ h. (path, end_register-ok u m arg c c' path _ entered e h))
    | inr (x, e) ↦ rw (e, register_object_path) (λ h. cc)
  ]

  -- A registration that raises leaves the callbacks of every path as they were.
  pub register-unchanged :
      (arg : Object) (fallback entered : Bool) (u m : Option ℕ) (c : Connection) (s : l.State)
      (x : Exception)
      → (register_object_path l arg fallback entered u m c s).2 ≡ err x
      → (q : Bytes) → view (register_object_path l arg fallback entered u m c s).0 q ≡ view c q
  unfolding register_object_path
  register-unchanged arg fallback entered u m c s x = elim (Result-cases (begin_register arg c)) [
    | inl ((path, c'), e) ↦
        rw (e, register_object_path) (end_register-err u m arg c c' path _ entered x e)
    | inr (y, e) ↦ rw (e, register_object_path) (λ h q. refl)
  ]

  -- An unregistration that succeeds was for a path with callbacks, and takes away those of that path
  -- alone.
  pub unregister-Removed :
      (arg : Object) (c : Connection) (s : l.State)
      → (unregister_object_path l arg c s).2 ≡ ok tt
      → (path : Bytes) × Removed arg c (unregister_object_path l arg c s).0 path
  unfolding unregister_object_path
  unregister-Removed arg c s = elim (Result-cases (begin_unregister arg c)) [
    | inl ((path, saved, c'), e) ↦
        rw (e, unregister_object_path) (λ h. (path, end_unregister-ok arg c c' path saved _ e h))
    | inr (x, e) ↦ rw (e, unregister_object_path) (λ h. cc)
  ]

  -- An unregistration that raises leaves the dict as it was.
  pub unregister-unchanged :
      (arg : Object) (c : Connection) (s : l.State) (x : Exception)
      → (unregister_object_path l arg c s).2 ≡ err x
      → (q : Bytes) → (unregister_object_path l arg c s).0.object_paths q ≡ c.object_paths q
  unfolding unregister_object_path
  unregister-unchanged arg c s x = elim (Result-cases (begin_unregister arg c)) [
    | inl ((path, saved, c'), e) ↦
        rw (e, unregister_object_path) (end_unregister-err arg c c' path saved _ x e)
    | inr (y, e) ↦ rw (e, unregister_object_path) (λ h q. refl)
  ]
