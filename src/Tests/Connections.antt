-- ===== src/Tests/Connections.antt =====
-- DBusConnections with their Connections, and DBusServers with their Servers.
use python_dbus.Connection.Life.Owned.{Reach, made, next, constructs_again, wraps, references_owned}
use python_dbus.Connection.Life.{
  DBusConnection, Outcomes, opened, new, wrap, wrapper, address, alive, existing, referent,
  new_consuming, attach,
}
use python_dbus.Connection.Life.Owned.{IsOwned}
use python_dbus.Server
use python_dbus.Server.{DBusServer, ServerOutcomes, crashes, new_connection}
use python_dbus.Server.Faults.{new-crashes}
use python_dbus.Server.Accepts.{new_connection-IsOwned}
use python_dbus.Prelude.{ℕ, none, ◌+◌, ◌≤◌, true, false, ◌≡◌, refl, arith, length}
use python_dbus.Python.{ok, err, runtime_error}

abbrev succeeds : Outcomes
succeeds = record {
  main_loop = ok true;
  has_object = true;
  has_members = true;
  has_slot = true;
  set_up = ok tt;
}

abbrev no_set_up : Outcomes
no_set_up = record succeeds { set_up = err runtime_error }

abbrev connected : DBusConnection
connected = (new succeeds 7 (address true) opened).0

-- A second Connection for it is refused.
abbrev refused : DBusConnection
refused = (new succeeds 8 wrapper (wrap connected)).0

refused_reached : Reach 1 refused
unfolding new new_consuming attach referent wrap
refused_reached =
    next (next (made succeeds 7 7 refl) (wraps (omega arith)))
      (constructs_again succeeds 8 7 (omega arith) refl)

references_owned_example :
    (refused.refs ≡ length refused.connections + refused.wrappers + refused.others + 1)
    × (length refused.connections ≤ 1)
    × ((self : ℕ) → alive self refused.connections ≡ true → existing refused ≡ ok self)
references_owned_example = references_owned refused_reached

unset_slot : referent (wrap opened) ≡ none
unfolding referent wrap
unset_slot = refl

raises_runtime_error : (new no_set_up 7 wrapper (wrap opened)).1 ≡ err runtime_error
unfolding new new_consuming attach referent wrap
raises_runtime_error = refl

abbrev listening : DBusServer
listening = record {
  refs = 1;
  disconnected = false;
  slot = none;
  alive = none;
  listed = false;
  mainloop_refs = 0;
  class_refs = 0;
  dangling = false;
}

abbrev all_well : ServerOutcomes
all_well = record {
  has_loop = true;
  has_object = true;
  has_weakref = true;
  has_slot = true;
  set_up = ok tt;
  mechanisms = none;
}

abbrev no_loop : ServerOutcomes
no_loop = record all_well { has_loop = false }

no_server : Server.referent listening ≡ none
unfolding Server.referent
no_server = refl

new-crashes_example : (Server.new no_loop true true 5 listening).1 ≡ crashes
new-crashes_example = new-crashes no_loop 5 listening no_server

-- A connection that libdbus holds.
abbrev accepted : DBusConnection
accepted = record opened { others = 1 }

no_connection : referent accepted ≡ none
unfolding referent
no_connection = refl

new_connection-IsOwned_example :
    let c' = new_connection (ok 5) true true succeeds 6 false accepted in
    IsOwned 0 c' × ((c'.wrappers ≡ accepted.wrappers) × (c'.others ≡ accepted.others))
new_connection-IsOwned_example =
    new_connection-IsOwned (ok 5) true true succeeds 6 0 false accepted (omega arith) no_connection
      (refl, tt)
