-- ===== src/Lib.antt =====
-- dbus-python: verification of the C extension module `_dbus_bindings`, which exposes libdbus to
-- Python.
--
-- The module turns Python objects into D-Bus values and back, checks names and signatures, and
-- attaches Python callbacks to the connections, object paths, filters and pending calls of libdbus.
-- The parts meet as follows. A message handler of any kind ends in `DBusPyConnection_HandleMessage`
-- (Connection.Handle), which object paths (Connection.Paths) and filters (Connection.Filters) call.
-- Registering a path checks it with Validation. Guessing a message's signature (Message.Guess)
-- relies on the signatures that the constructors of Containers let through, and reads the variant
-- levels that VariantLevels keeps. Numbers makes the integers that both handle. A Connection borrows
-- the messages that it sends (Connection.Sending) and makes pending calls for their replies; MainLoop
-- sets connections and servers up.
--
-- The files, by the code that they model:
--
-- Prelude, Python: lists of bytes, Boolean tests, exceptions and results, integers, and the Python
-- objects that the code tells apart (`PyLong_Check` and the like). A failure with no exception set
-- is an exception of its own, `unset`.
-- Validation: _dbus_bindings/validation.c, one function for each validator and one for the body of
-- each loop. Validation.Grammar is the independent description; BusName, Interface and ObjectPath
-- prove them equal, Relations relates the kinds of name, and Raising has the functions of module.c.
-- Message.Guess: `get_variant_level`, `get_object_path`, `_signature_string_from_pyobject` and
-- `dbus_py_Message_guess_signature` of _dbus_bindings/message-append.c, and `Signature_tp_new` of
-- signature.c. Message.Types has D-Bus types and the signatures that the D-Bus specification writes
-- for them.
-- Message.Append: the branches of `_message_iter_append_pyobject` of message-append.c for basic
-- types, and the functions that they call. The interpreter is the record `Interpreter`.
-- Message.Values: the values that a message holds, and the calls of libdbus that write them.
-- Message.Objects: the Python objects that stand for values. Message.Write: the rest of
-- message-append.c, from `_message_iter_append_multi` to `dbus_py_Message_append`, as functions from
-- the calls that libdbus has seen to those that it has seen afterwards; `Memory` says which of them
-- find memory, and `Iteration` what Python's iterators give. Write.Balanced follows the containers
-- that are open, Write.Again what is written for the object of a value. Message.Read:
-- message-get-args.c over libdbus' iterators (`Source`) and Python (`Host`). Read.Received has the
-- laws of libdbus' iterators about values, Read.Faithful the objects that come out. Message.Resent
-- joins reading and writing. Message.Signature: `Signature_tp_iter` and `SignatureIter_tp_iternext`
-- of signature.c, and libdbus' iterators over signatures (`SignatureIters`).
-- Message.Headers: the constructors of messages and the setters of their headers, in message.c, over
-- a heap of objects that hold messages. libdbus is the record `Library`. Message.Accessors: the other
-- methods of a message in message.c, over `Library` and the record `Queries`; Accessors.Guarded has the
-- table of methods as one type, Accessors.Decomposed a path in its components. Message.Copies:
-- `Message_tp_new`, `DBusPyMessage_ConsumeDBusMessage` and `Message_copy`.
-- Exceptions: _dbus_bindings/exceptions.c; Exceptions.Counted counts over any sequence of calls.
-- PendingCall: _dbus_bindings/pending-call.c, with reference counts as numbers. PendingCall.Once
-- has threads in the notify function as a step relation, PendingCall.Live the runs of those threads in
-- which a reply is there, PendingCall.Create the constructor.
-- Connection.Handle: `DBusPyConnection_HandleMessage` of _dbus_bindings/conn.c. Connection.Paths:
-- `_register_object_path`, `_unregister_object_path`, `_object_path_message` and
-- `_object_path_unregister` of conn-methods.c and `DBusPyConnection_GetObjectPathHandlers` of
-- conn.c. libdbus is the record `Libdbus`, with two laws. Paths.Sync and Paths.Refines have the
-- methods run whole, Paths.Race as steps between which the GIL is released. Connection.Filters:
-- `add_message_filter`, `remove_message_filter` and `_filter_message`.
-- Connection.Life: the constructor and destructor of Connection in conn.c, `Connection_close`, and
-- libdbusconn.c, over one DBusConnection; Life.Owned counts its references over the steps of a
-- program. Server: the constructor, destructor and new-connection callback of server.c; Server.Accepts
-- follows an accepted connection, Server.Faults the constructor's failures, and Server.Mechanisms has
-- `DBusPyServer_set_auth_mechanisms` and the methods of a Server.
-- Connection.Sending: `Connection_send_message` and the two methods that expect a reply, which borrow
-- a message (Message.Accessors), make a pending call (PendingCall) or a message (Message.Copies); a
-- double is the record `Doubles`, with the laws of IEEE arithmetic that the timeouts need.
-- Connection.Bus: bus.c on top of the constructor of a Connection; Bus.Released follows the references.
-- Connection.Asks: the methods of conn-methods.c that ask libdbus or set a flag of it.
-- Connection.Children: `Connection_list_exported_child_objects`, with the memory that Python has.
-- MainLoop: mainloop.c, the default main loop of module.c, and the choice of a main loop in conn.c.
-- MainLoop.Counted counts the references to main loops over the steps of a program, and
-- MainLoop.Connects has the constructor of a Connection on top of a main loop, and MainLoop.Glib
-- _dbus_glib_bindings/module.c.
-- Numbers: _dbus_bindings/int.c, `Byte_new` of bytes.c and `DBusPythonLong_tp_new` of abstract.c.
-- The conversions of CPython are the record `Platform`, for any size of `long` from 32 bits on.
-- Containers: the constructors of containers.c. The tests `dbus_signature_validate` and
-- `dbus_signature_validate_single` of libdbus are parameters; a theorem that needs the second to
-- accept complete types only says so.
-- VariantLevels: the tables of variant levels and struct signatures of abstract.c and containers.c,
-- and the lives of the objects that they are keyed by. VariantLevels.Reprs: the functions for repr()
-- of abstract.c, int.c, string.c and containers.c; the conversion `%ld` is a parameter.
-- UnixFd: unixfd.c, and the descriptors of a process over any sequence of steps.
-- Tests: runs at concrete inputs.
--
-- What the models leave out. The build is the one for Python 3, without WITH_DBUS_FLOAT32 and with
-- the checks that DBUS_PYTHON_DISABLE_CHECKS would take away. Memory that CPython itself runs out
-- of is not modelled, except where a flag says so; what libdbus refuses for lack of memory is. A C
-- string is the list of its bytes, without the NUL, each a number below 256. A callable is an
-- identity, and a text its UTF-8 bytes. Loops are recursions on the list
-- that they walk, but for three: the recursion into containers in Message.Write and Message.Read,
-- and the loops over an iterator of libdbus in Message.Read and Message.Signature, take fuel. The
-- size of a value (`size` in Message.Values), which counts its parts, bounds the recursion, and one
-- more than the size the loops; for other objects a run that has no fuel left ends like one that
-- raises. The parsing of their own arguments by get_args_list and append, and the closing of a
-- descriptor that was read, are not modelled. What a "k" of `PyArg_ParseTuple` writes behind a variable
-- of 32 bits, what becomes of the exception of a `__bool__` that raises while a boolean is appended, and what libdbus makes of the NULL that a repr() passes to it, are left out. Not modelled
-- either: generic.c, `Byte_tp_str`, the set-up of the modules in module.c,
-- debug.c, and the parsing of arguments in string.c and float.c. The Python package `dbus` over the
-- extension is outside of the development.
pub mod Prelude
pub mod Python
pub mod Exceptions
pub mod Validation
pub mod Message
pub mod PendingCall
pub mod Connection
pub mod Numbers
pub mod MainLoop
pub mod Server
pub mod Containers
pub mod VariantLevels
pub mod UnixFd
pub mod Tests
