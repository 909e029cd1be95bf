-- ===== src/Tests/Loops.antt =====
-- Main loops, the progress of a pending call, the texts of repr(), and the mechanisms of a server.
use python_dbus.Connection.Life
use python_dbus.Connection.Life.{DBusConnection}
use python_dbus.MainLoop.Connects.{Connects, used, new_consuming-Connects}
use python_dbus.MainLoop.Counted.{
  to_free, Program, start, next, make, give_up, data_freed_once, default_names,
}
use python_dbus.MainLoop.Glib.{Glib, Found, g_main_loop, g_main_loop_outcomes}
use python_dbus.MainLoop.{
  Loop, owner, set_up_connection, NativeMainLoop, native, Loops, new4, noop_main_loop_cb,
  null_main_loop, connection_outcomes, decref,
}
use python_dbus.PendingCall.Live.{Run, handler_reached}
use python_dbus.PendingCall.Live
use python_dbus.PendingCall.Once.{Threads}
use python_dbus.Prelude.{
  ℕ, zero, suc, ◌+◌, ◌-◌, true, false, ◌&&◌, Option, none, some, List, [], ◌∷◌, ◌≡◌, ◌⊎◌, refl,
  arith, Bytes, ◌==◌, if◌then◌else◌, length,
}
use python_dbus.Python.Integer.{pos}
use python_dbus.Python.{other_exception, memory_error, Result, ok, err}
use python_dbus.Server.Mechanisms.{unicode, other_object, Mechanism}
use python_dbus.VariantLevels.Reprs.Shows.{shows, struct_repr-made}
use python_dbus.VariantLevels.Reprs.{struct_repr}
use python_dbus.VariantLevels.Lifetime
use python_dbus.VariantLevels.{struct_store}

-- A main loop with data to free, before it is made, and after it has been made and given up.
abbrev with_data : NativeMainLoop
with_data = new4 noop_main_loop_cb noop_main_loop_cb true (some 3)

abbrev no_loops : Loops
no_loops = record { loop = λ i. null_main_loop; default = none; refs = λ i. 0; frees = λ i. 0 }

abbrev at_first : Program
at_first = record { loops = no_loops; held = λ i. 0; made = λ i. false }

abbrev made_one : Program
made_one = record {
  loops = record {
    loop = λ j. if j == 2 then with_data else null_main_loop;
    default = none;
    refs = λ j. if j == 2 then 1 else 0;
    frees = λ i. 0;
  };
  held = λ j. if j == 2 then 1 else 0;
  made = λ j. if j == 2 then true else false;
}

abbrev given_up : Program
given_up = record {
  loops = decref (native 2) made_one.loops;
  held = λ j. if j == 2 then made_one.held j - 1 else made_one.held j;
  made = made_one.made;
}

data_freed_once_example :
    (given_up.loops.refs 2 ≡ given_up.held 2 + default_names given_up.loops.default 2)
    × (given_up.loops.frees 2
        ≡ (if true && given_up.loops.refs 2 == 0 && to_free (given_up.loops.loop 2) then 1 else 0))
data_freed_once_example =
    data_freed_once 2 {p = at_first} {q = given_up} (refl, refl, refl, refl, refl)
      (next (next start (make at_first 2 with_data refl)) (give_up made_one 2 (omega arith)))

abbrev unclaimed : DBusConnection
unclaimed = record {
  refs = 2;
  closed = false;
  slot = none;
  connections = [];
  wrappers = 1;
  others = 0;
}

nobody_alive : Life.referent unclaimed ≡ none
unfolding Life.referent
nobody_alive = refl

new_consuming-Connects_example : Connects no_loops (used (some (native 2)) none) 5 6 unclaimed (
    Life.new_consuming
      (connection_outcomes no_loops (some (native 2)) true true true 6)
      5
      unclaimed)
new_consuming-Connects_example =
    new_consuming-Connects no_loops (some (native 2)) 5 6 unclaimed nobody_alive

abbrev waiting : Threads
waiting = record {
  call = record {
    slot = some 7;
    reply = none;
    calls = [];
    warnings = 0;
    handler_refs = 2;
    none_refs = 1;
  };
  running = [];
}

handler_reached_example :
    (u : Threads) × Run waiting u × (u.running ≡ []) × (length u.call.calls ≡ 1)
handler_reached_example = handler_reached 7 refl refl refl Live.start

-- One stroke for each unit.
strokes : ℕ → Bytes
strokes zero = []
strokes (suc n) = b'1' ∷ strokes n

abbrev letter : Bytes
letter = b'X' ∷ []

abbrev mixed : List Mechanism
mixed = unicode (ok letter) ∷ other_object ∷ []

-- A struct under identity 1.
abbrev with_struct : Lifetime.World
with_struct = record {
  kind = Lifetime.become Lifetime.start.kind 1 Lifetime.structure;
  tables = (struct_store Lifetime.start.tables 1 (pos 2) (ok (some letter))).0;
}

abbrev shown_as : Option Bytes → Result Bytes
shown_as none = ok []
shown_as (some sig) = ok sig

struct_repr-made_example :
    struct_repr strokes letter (ok letter) shown_as with_struct.tables 1
    ≡ ok (shows strokes letter letter letter 2)
struct_repr-made_example =
    struct_repr-made strokes letter letter letter shown_as {w = Lifetime.start} 1 2 (some letter)
      refl Lifetime.started refl Lifetime.stay

abbrev glib : Glib
glib = record { connections = []; servers = []; context_refs = λ c. 0 }

abbrev all_found : Found
all_found = record { allocated = true; has_module = true; has_function = true }

abbrev glib_run : Loops × Result Loop
glib_run = g_main_loop all_found (ok true) 5 glib no_loops

g_main_loop_outcomes_example :
    ((glib_run.1 ≡ ok (native 5))
      × (glib_run.0.refs 5 ≡ 2)
      × (glib_run.0.default ≡ some (native 5))
      × (glib_run.0.frees 5 ≡ 0)
      × ((c : ℕ) → set_up_connection glib_run.0 (owner (some c)) (native 5) ≡ ok tt))
    ⊎ (((glib_run.1 ≡ err memory_error) ⊎ (glib_run.1 ≡ err other_exception))
        × (glib_run.0.refs 5 ≡ 0)
        × (glib_run.0.default ≡ none)
        × (glib_run.0.frees 5 ≡ 0))
g_main_loop_outcomes_example =
    g_main_loop_outcomes all_found true 5 glib no_loops (λ e. absurd (ground (arith, e))) refl
