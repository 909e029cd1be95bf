-- ===== src/Connection/Paths/Race.antt =====
-- Threads in `_register_object_path` and `_unregister_object_path` of _dbus_bindings/conn-methods.c,
-- which release the GIL round their calls of libdbus, and what a message finds then.
use python_dbus.Connection.Handle.{Returned}
use python_dbus.Connection.Paths.Sync.{InStep, begin_unregister-ok}
use python_dbus.Connection.Paths.{
  Libdbus, c_string, Entry, placeholder, handlers, put, has_handlers, require_conn,
  require_main_loop, check_path, Connection, begin_register, end_register, begin_unregister,
  end_unregister, get_handlers, crashed, dispatch, object_path_message, nothing_called,
  call_unregisterer, object_path_unregister,
}
use python_dbus.Prelude.{
  ℕ, Bool, true, Option, some, List, [], ◌∷◌, ◌++◌, ◌≡◌, ◌≢◌, refl, arith, Bytes, same_refl,
}
use python_dbus.Python.Object.{Object}
use python_dbus.Python.{ok}
use python_dbus.Validation.{validate_object_path, passes}

-- A method that has given up the GIL: it is about to call libdbus, or has its answer.
pub data Op : Type 0 where
  registering : Bytes → Bool → Entry → Op
  registered : Bytes → Entry → Bool → Op
  unregistering : Bytes → Entry → Op
  unregistered : Bytes → Entry → Bool → Op

-- The guard against a second handler lets a path pass that another thread is unregistering.
begin_register_again :
    (arg : Object) (c c' : Connection) (path : Bytes) (saved : Entry)
    → begin_unregister arg c ≡ ok (path, saved, c')
    → c.has_mainloop ≡ true
    → passes (validate_object_path (c_string path)) ≡ true
    → begin_register arg c'
      ≡ ok (path, record c' { object_paths = put c'.object_paths path (some placeholder) })
unfolding begin_register begin_unregister require_conn require_main_loop check_path has_handlers put
begin_register_again arg c c' path saved e ml h = ground (arith, same_refl path)

-- The late end of an unregistration deletes what the registration has entered.
late_end_crashes :
    (c : Connection) (path : Bytes) (entry saved : Entry) (returns : ℕ → Returned)
    → object_path_message true true returns
        (end_unregister path saved true (end_register path entry true true c).0).0
        path
      ≡ crashed
unfolding object_path_message dispatch get_handlers end_unregister end_register put
late_end_crashes c path entry saved returns = ground (arith, same_refl path)

-- While a path is being unregistered, libdbus' call of `_object_path_unregister` finds None: the
-- unregisterer of the path is never called.
pub unregisterer_not_called :
    (arg : Object) (c c' : Connection) (path : Bytes) (saved : Entry) (alive : Bool)
    → begin_unregister arg c ≡ ok (path, saved, c')
    → object_path_unregister alive c' path ≡ nothing_called
unfolding object_path_unregister call_unregisterer get_handlers put
unregisterer_not_called arg c c' path saved alive e =
    ground (arith, (begin_unregister-ok arg c c' path saved e).3, same_refl path)

module _ (l : Libdbus) where
  -- A connection, libdbus' table, and the methods under way.
  pub record Shared : Type 0 where
    pub conn : Connection
    pub lib : l.State
    pub ops : List Op

  -- One thread runs up to the next place where it gives up the GIL, or libdbus runs. The callbacks of a
  -- registration go into the dict.
  pub data Step : Shared → Shared → Type 0 where
    begins_register :
        (w : Shared) (arg : Object) (fallback : Bool) (u m : Option ℕ) (path : Bytes)
        (c : Connection)
        → begin_register arg w.conn ≡ ok (path, c)
        → Step w (record w { conn = c; ops = registering path fallback (handlers u m) ∷ w.ops })
    registers :
        (w : Shared) (path : Bytes) (fallback : Bool) (e : Entry) (before after : List Op)
        → w.ops ≡ before ++ (registering path fallback e ∷ after)
        → Step w (record w {
          lib = (l.register w.lib fallback (c_string path)).0;
          ops = before ++ (registered path e (l.register w.lib fallback (c_string path)).1 ∷ after);
        })
    ends_register :
        (w : Shared) (path : Bytes) (e : Entry) (done : Bool) (before after : List Op)
        → w.ops ≡ before ++ (registered path e done ∷ after)
        → Step w
            (record w { conn = (end_register path e done true w.conn).0; ops = before ++ after })
    begins_unregister :
        (w : Shared) (arg : Object) (path : Bytes) (saved : Entry) (c : Connection)
        → begin_unregister arg w.conn ≡ ok (path, saved, c)
        → Step w (record w { conn = c; ops = unregistering path saved ∷ w.ops })
    unregisters :
        (w : Shared) (path : Bytes) (saved : Entry) (before after : List Op)
        → w.ops ≡ before ++ (unregistering path saved ∷ after)
        → Step w (record w {
          lib = (l.unregister w.lib (c_string path)).0;
          ops = before ++ (unregistered path saved (l.unregister w.lib (c_string path)).1 ∷ after);
        })
    ends_unregister :
        (w : Shared) (path : Bytes) (saved : Entry) (done : Bool) (before after : List Op)
        → w.ops ≡ before ++ (unregistered path saved done ∷ after)
        → Step w
            (record w { conn = (end_unregister path saved done w.conn).0; ops = before ++ after })

  pub data Reach (w : Shared) : Shared → Type 0 where
    start : Reach w w
    next : {u v : Shared} → Reach w u → Step u v → Reach w v

  -- With the dict and libdbus' table in step, a message for a path that libdbus handles does not
  -- crash.
  pub message-ne-crashed :
      (has_memory alive : Bool) (returns : ℕ → Returned) (c : Connection) (s : l.State)
      (path : Bytes)
      → InStep l c s
      → l.handles s path ≡ true
      → object_path_message has_memory alive returns c path ≢ crashed
  unfolding object_path_message dispatch get_handlers has_handlers
  message-ne-crashed has_memory alive returns c s path h k = ground (arith, (h path).0)

  -- Where the path of a connection with a main loop is taken, and libdbus has the memory to remove
  -- and to enter it again, two threads can leave libdbus handling a path that the dict has lost: one
  -- unregisters it, and the other registers it before the first is done. The next message for the
  -- path crashes.
  pub race_loses_entry :
      (arg : Object) (c : Connection) (s : l.State) (path : Bytes) (saved : Entry) (c' : Connection)
      (fallback : Bool) (u m : Option ℕ)
      → begin_unregister arg c ≡ ok (path, saved, c')
      → c.has_mainloop ≡ true
      → passes (validate_object_path (c_string path)) ≡ true
      → (l.unregister s (c_string path)).1 ≡ true
      → (l.register (l.unregister s (c_string path)).0 fallback (c_string path)).1 ≡ true
      → (w : Shared) × Reach (record { conn = c; lib = s; ops = [] }) w
        × (w.ops ≡ [])
        × (l.handles w.lib (c_string path) ≡ true)
        × ((returns : ℕ → Returned) → object_path_message true true returns w.conn path ≡ crashed)
  race_loses_entry arg c s path saved c' fallback u m e ml h un re =
      let entry = handlers u m in
      let removed = l.unregister s (c_string path) in
      let added = l.register removed.0 fallback (c_string path) in
      let begun = record c' { object_paths = put c'.object_paths path (some placeholder) } in
      let w1 : Shared = record { conn = c'; lib = s; ops = unregistering path saved ∷ [] } in
      let w2 : Shared = record w1 {
        lib = removed.0;
        ops = unregistered path saved removed.1 ∷ [];
      } in
      let w3 : Shared = record w2 {
        conn = begun;
        ops = registering path fallback entry ∷ w2.ops;
      } in
      let w4 : Shared = record w3 { lib = added.0; ops = registered path entry added.1 ∷ w2.ops } in
      let w5 : Shared = record w4 {
        conn = (end_register path entry added.1 true begun).0;
        ops = w2.ops;
      } in
      let w6 : Shared = record w5 {
        conn = (end_unregister path saved removed.1 w5.conn).0;
        ops = [];
      } in
      let again = begin_register_again arg c c' path saved e ml h in
      let r1 = next start (begins_unregister _ arg path saved c' e) in
      let r2 = next r1 (unregisters w1 path saved [] [] refl) in
      let r3 = next r2 (begins_register w2 arg fallback u m path begun again) in
      let r4 = next r3 (registers w3 path fallback entry [] w2.ops refl) in
      let r5 = next r4 (ends_register w4 path entry added.1 [] w2.ops refl) in
      let r6 = next r5 (ends_unregister w5 path saved removed.1 [] [] refl) in
      (
        w6,
        r6,
        refl,
        rw (
          l.register_handles removed.0 fallback (c_string path) (c_string path),
          re,
          same_refl (c_string path),
        ),
        λ returns. rw (un, re) (late_end_crashes begun path entry saved returns),
      )
