-- ===== src/Connection/Paths/Sync.antt =====
-- One method at a time, the dict of object paths of _dbus_bindings/conn-methods.c and libdbus' table
-- stay in step, and both methods work on a partial map from paths to callbacks.
use python_dbus.Connection.Paths.{
  Libdbus, c_string, undo, Entry, placeholder, handlers, put, has_handlers, path_argument,
  require_conn, require_main_loop, Connection, check_path, begin_register, end_register,
  begin_unregister, end_unregister, register_object_path, unregister_object_path,
}
use python_dbus.Prelude.{
  ℕ, Bool, true, false, not, ◌&&◌, ◌||◌, ◌==◌, refl, all, [], ◌∷◌, Option, none, some, ◌≡◌, arith,
  Bytes, same_iff, inl, inr,
}
use python_dbus.Python.Object.{Object}
use python_dbus.Python.{ok, Result-cases}
use python_dbus.Validation.{validate_object_path, passes}

-- The callbacks of a path, as a partial map.
abbrev pub view : Connection → Bytes → Option Entry
view c path = elim (c.object_paths path) [ some (handlers u m) ↦ some (handlers u m) | _ ↦ none ]

-- A successful start of a registration: its arguments were good, and None is in the dict.
pub begin_register-ok :
    (arg : Object) (c c' : Connection) (path : Bytes)
    → begin_register arg c ≡ ok (path, c')
    → (path_argument arg ≡ ok path)
      × (passes (validate_object_path (c_string path)) ≡ true)
      × (has_handlers (c.object_paths path) ≡ false)
      × (c.has_mainloop ≡ true)
      × (c' ≡ record c { object_paths = put c.object_paths path (some placeholder) })
unfolding begin_register require_conn require_main_loop check_path
begin_register-ok arg c c' path e = ground arith

pub begin_unregister-ok :
    (arg : Object) (c c' : Connection) (path : Bytes) (saved : Entry)
    → begin_unregister arg c ≡ ok (path, saved, c')
    → (path_argument arg ≡ ok path)
      × (c.object_paths path ≡ some saved)
      × (has_handlers (some saved) ≡ true)
      × (c' ≡ record c { object_paths = put c.object_paths path (some placeholder) })
unfolding begin_unregister require_conn has_handlers
begin_unregister-ok arg c c' path saved e = ground arith

abbrev pub has_no_nul : Bytes → Bool
has_no_nul = all (λ c. not (c == 0))

c_string-no_nul : (s : Bytes) → has_no_nul s ≡ true → c_string s ≡ s
unfolding c_string
c_string-no_nul [] h = refl
c_string-no_nul (c ∷ cs) h = ground (arith, c_string-no_nul cs)

module _ (l : Libdbus) where
  -- libdbus handles exactly the paths for which the dict has handlers, and none of them holds a NUL.
  abbrev pub InStep : Connection → l.State → Type 0
  InStep c s =
      (q : Bytes)
      → (l.handles s q ≡ has_handlers (c.object_paths q))
        × ((has_handlers (c.object_paths q) && not (has_no_nul q)) ≡ false)

  -- libdbus takes the registration back, should the callbacks not go into the dict.
  abbrev pub TakesBack : Bool → Bool → l.State → Type 0
  TakesBack fallback entered s =
      (p : Bytes)
      → (entered
          || not (l.register s fallback p).1
          || (l.unregister (l.register s fallback p).0 p).1)
        ≡ true

  -- After a start that went well, whatever libdbus answers.
  end_register-InStep :
      (arg : Object) (fallback entered : Bool) (u m : Option ℕ) (path : Bytes) (c c' : Connection)
      (s : l.State)
      → begin_register arg c ≡ ok (path, c')
      → has_no_nul path ≡ true
      → TakesBack fallback entered s
      → InStep c s
      → let (s', done) = l.register s fallback path in
        InStep
          (end_register path (handlers u m) done entered c').0
          (undo l (done && not entered) path s')
  unfolding end_register put has_handlers undo
  end_register-InStep arg fallback true u m path c c' s e clean back h q =
      let started = begin_register-ok arg c c' path e in
      ground (
        arith,
        l.register_handles s fallback path q,
        h q,
        same_iff path q,
        started.2,
        started.4,
        clean,
      )
  end_register-InStep arg fallback false u m path c c' s e clean back h q =
      let started = begin_register-ok arg c c' path e in
      ground (
        arith,
        l.register_handles s fallback path q,
        h q,
        same_iff path q,
        started.2,
        started.4,
        clean,
        back path,
        l.unregister_handles (l.register s fallback path).0 path q,
      )

  end_unregister-InStep :
      (arg : Object) (path : Bytes) (saved : Entry) (c c' : Connection) (s : l.State)
      → begin_unregister arg c ≡ ok (path, saved, c')
      → InStep c s
      → InStep (end_unregister path saved (l.unregister s path).1 c').0 (l.unregister s path).0
  unfolding end_unregister put has_handlers
  end_unregister-InStep arg path saved c c' s e h q =
      let started = begin_unregister-ok arg c c' path saved e in
      ground (
        arith,
        l.unregister_handles s path q,
        h q,
        same_iff path q,
        started.1,
        started.2,
        started.3,
      )

  -- Registering an object path without a NUL keeps the dict and libdbus' table in step, whatever
  -- libdbus answers and whether or not the callbacks go into the dict, if libdbus takes the registration
  -- back where they do not.
  pub register_InStep :
      (arg : Object) (fallback entered : Bool) (u m : Option ℕ) (c : Connection) (s : l.State)
      → ((path : Bytes) → path_argument arg ≡ ok path → has_no_nul path ≡ true)
      → TakesBack fallback entered s
      → InStep c s
      → let r = register_object_path l arg fallback entered u m c s in InStep r.0 r.1
  unfolding register_object_path
  register_InStep arg fallback entered u m c s clean back h =
      elim (Result-cases (begin_register arg c)) [
        | inl ((path, c'), e) ↦
            let no_nul = clean path (begin_register-ok arg c c' path e).0 in
            rw (e, register_object_path, c_string-no_nul path no_nul)
              (end_register-InStep arg fallback entered u m path c c' s e no_nul back h)
        | inr (e, f) ↦ rw (f, register_object_path) h
      ]

  taken_no_nul :
      (arg : Object) (path : Bytes) (saved : Entry) (c c' : Connection) (s : l.State)
      → begin_unregister arg c ≡ ok (path, saved, c')
      → InStep c s
      → has_no_nul path ≡ true
  taken_no_nul arg path saved c c' s e h =
      let started = begin_unregister-ok arg c c' path saved e in
      ground (arith, started.1, started.2, h path)

  -- Unregistering an object path keeps the dict and libdbus' table in step, on every path through
  -- `_unregister_object_path`.
  pub unregister_InStep :
      (arg : Object) (c : Connection) (s : l.State)
      → InStep c s
      → let r = unregister_object_path l arg c s in InStep r.0 r.1
  unfolding unregister_object_path
  unregister_InStep arg c s h = elim (Result-cases (begin_unregister arg c)) [
    | inl ((path, saved, c'), e) ↦
        rw
          (e, unregister_object_path, c_string-no_nul path (taken_no_nul arg path saved c c' s e h))
          (end_unregister-InStep arg path saved c c' s e h)
    | inr (e, f) ↦ rw (f, unregister_object_path) h
  ]
