-- ===== src/Connection.antt =====
-- dbus.Connection: the parts of _dbus_bindings/conn.c and conn-methods.c that keep state between
-- Python and libdbus.
pub mod Handle
pub mod Life
pub mod Paths
pub mod Filters
pub mod Sending
pub mod Asks
pub mod Bus
pub mod Children
