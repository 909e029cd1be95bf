-- ===== src/MainLoop/Glib.antt =====
-- _dbus_glib_bindings/module.c: the main loop for GLib. A GMainContext is its identity, its references
-- are counted, and GLib's set-up of a connection or a server is an entry of a list.
use python_dbus.MainLoop.{
  NativeMainLoop, Loop, native, Loops, new4, calls_free, loop_dealloc, incref, decref, xdecref,
  check_mainloop_sanity, set_default_main_loop, owner, borrow_connection, set_up_connection, Owner,
}
use python_dbus.Prelude.{
  ℕ, ◌+◌, ◌-◌, Bool, true, not, Option, none, some, List, ◌∷◌, ◌≡◌, ◌≢◌, ◌⊎◌, arith, ◌==◌,
  if◌then◌else◌,
}
use python_dbus.Python.{other_exception, memory_error, Result, ok, err, ◌>>=◌}

-- What GLib has been asked to set up, with which context, and the references to each context.
pub record Glib : Type 0 where
  pub connections : List (ℕ × Option ℕ)
  pub servers : List (ℕ × Option ℕ)
  pub context_refs : ℕ → ℕ

-- `dbus_py_glib_set_up_conn`
unfoldable pub glib_set_up_conn : ℕ → Option ℕ → Glib → Glib × Result (Unit {0})
glib_set_up_conn conn ctx g = (record g { connections = (conn, ctx) ∷ g.connections }, ok tt)

-- `dbus_py_glib_set_up_srv`
unfoldable pub glib_set_up_srv : ℕ → Option ℕ → Glib → Glib × Result (Unit {0})
glib_set_up_srv srv ctx g = (record g { servers = (srv, ctx) ∷ g.servers }, ok tt)

-- `g_main_context_ref` and `g_main_context_unref`
unfoldable pub context_ref : ℕ → Glib → Glib
context_ref ctx g = record g {
  context_refs = λ c. if c == ctx then g.context_refs c + 1 else g.context_refs c;
}

unfoldable pub context_unref : ℕ → Glib → Glib
context_unref ctx g = record g {
  context_refs = λ c. if c == ctx then g.context_refs c - 1 else g.context_refs c;
}

-- `dbus_py_glib_unref_mainctx`
unfoldable unref_mainctx : Option ℕ → Glib → Glib
unref_mainctx none g = g
unref_mainctx (some ctx) g = context_unref ctx g

-- The object that `DBusPyNativeMainLoop_New4` makes here, of which a caller sees that the set-up of a
-- connection or a server succeeds.
unfoldable pub glib_loop : Glib → Option ℕ → NativeMainLoop
glib_loop g ctx =
    new4 (λ conn ctx'. (glib_set_up_conn conn ctx' g).1)
      (λ srv ctx'. (glib_set_up_srv srv ctx' g).1) true ctx

-- A new object, with its one reference.
unfoldable pub add_loop : ℕ → NativeMainLoop → Loops → Loops
add_loop i new w = record w {
  loop = λ j. if j == i then new else w.loop j;
  refs = λ j. if j == i then 1 else w.refs j;
}

-- `dbus_glib_native_mainloop`, where the flag says that the object can be allocated, and `i` is the
-- identity that it gets.
unfoldable pub glib_native_mainloop :
    Bool → ℕ → Option ℕ → Glib → Loops → Glib × Loops × Option Loop
glib_native_mainloop allocated i none g w =
    if allocated then (g, add_loop i (glib_loop g none) w, some (native i)) else (g, w, none)
glib_native_mainloop allocated i (some ctx) g w =
    let g' = context_ref ctx g in
    if allocated
    then (g', add_loop i (glib_loop g' (some ctx)) w, some (native i))
    else (context_unref ctx g', w, none)

-- What `DBusGMainLoop` meets: the memory for the object, the module _dbus_bindings, and its attribute.
pub record Found : Type 0 where
  pub allocated : Bool
  pub has_module : Bool
  pub has_function : Bool

-- The block behind `mainloop && set_as_default`.
unfoldable pub make_default : Found → Loop → Loops → Loops × Result Loop
make_default f l w =
    let (w', called) = set_default_main_loop l w in
    if not f.has_module
    then (decref l w, err other_exception)
    else if not f.has_function
    then (decref l w, err other_exception)
    else elim called [ err e ↦ (decref l w', err e) | ok _ ↦ (w', ok l) ]

-- `DBusGMainLoop`. The arguments are what parsing gives, or the TypeError for positional ones.
unfoldable pub g_main_loop : Found → Result Bool → ℕ → Glib → Loops → Loops × Result Loop
g_main_loop f (err e) i g w = (w, err e)
g_main_loop f (ok set_as_default) i g w =
    let (g', w', made) = glib_native_mainloop f.allocated i none g w in
    elim made [
      | none ↦ (w', err memory_error)
      | some l ↦ if set_as_default then make_default f l w' else (w', ok l)
    ]

-- `setup_with_g_main`
unfoldable setup_with_g_main : Result Owner → Glib → Glib × Result (Unit {0})
setup_with_g_main args g = elim (args >>= borrow_connection) [
  | err e ↦ (g, err e)
  | ok dbc ↦ ((glib_set_up_conn dbc none g).0, ok tt)
]

-- `DBusGMainLoop`, with arguments that parse, under an identity that has no reference and is not that of
-- the default main loop. Either it returns the new
-- object, with a reference for the caller and, if it was to be the default, one more as the default;
-- any connection can then be set up with it. Or it raises, and the object has no reference. No context is
-- freed for it in either case, and the default main loop is as before if it was not to change.
pub g_main_loop_outcomes :
    (f : Found) (set : Bool) (i : ℕ) (g : Glib) (w : Loops)
    → w.default ≢ some (native i)
    → w.refs i ≡ 0
    → let t = g_main_loop f (ok set) i g w in
      ((t.1 ≡ ok (native i))
        × (t.0.refs i ≡ 1 + (if set then 1 else 0))
        × (t.0.default ≡ (if set then some (native i) else w.default))
        × (t.0.frees i ≡ w.frees i)
        × ((c : ℕ) → set_up_connection t.0 (owner (some c)) (native i) ≡ ok tt))
      ⊎ (((t.1 ≡ err memory_error) ⊎ (t.1 ≡ err other_exception))
          × (t.0.refs i ≡ 0)
          × (t.0.default ≡ w.default)
          × (t.0.frees i ≡ w.frees i))
unfolding g_main_loop make_default glib_native_mainloop add_loop glib_loop new4 glib_set_up_conn
    set_default_main_loop check_mainloop_sanity incref decref xdecref loop_dealloc calls_free
    set_up_connection borrow_connection
g_main_loop_outcomes f set i g w h r = ground arith
