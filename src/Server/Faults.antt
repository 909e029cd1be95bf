-- ===== src/Server/Faults.antt =====
-- What goes wrong with the Servers of _dbus_bindings/server.c.
use python_dbus.Prelude.{ℕ, Bool, true, false, ◌&&◌, none, ◌≡◌, arith, if◌then◌else◌}
use python_dbus.Python.{ok, err}
use python_dbus.Server.{
  DBusServer, ServerOutcomes, referent, set_mechanisms, attach, new_consuming, returned, crashes,
  reset_weaklist, new,
}

-- Nothing fails behind the look at the data slot.
abbrev pub all_succeed : ServerOutcomes → Bool
all_succeed o =
    (o.has_loop && o.has_object && (o.has_weakref && o.has_slot))
    && (elim o.set_up [ ok _ ↦ true | err _ ↦ false ])
    && (elim (set_mechanisms o.mechanisms) [ ok _ ↦ true | err _ ↦ false ])

-- Where libdbus listens for a new Server, the constructor returns exactly if everything succeeds, and
-- writes through a NULL pointer otherwise: it never raises the exception that has been set.
pub new-crashes :
    (o : ServerOutcomes) (self : ℕ) (s : DBusServer)
    → referent s ≡ none
    → (new o true true self s).1 ≡ (if all_succeed o then returned self else crashes)
unfolding new reset_weaklist new_consuming attach set_mechanisms
new-crashes o self s h = ground arith
