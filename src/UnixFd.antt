-- ===== src/UnixFd.antt =====
-- dbus.types.UnixFd, of _dbus_bindings/unixfd.c. Descriptors are those of the process; `dup` gives
-- one that is not open, which the model takes as an argument.
pub mod Owned
use python_dbus.Prelude.{
  ℕ, ◌+◌, ◌-◌, ◌^◌, Bool, true, false, not, ◌&&◌, ◌||◌, Option, none, some, ◌==◌, if◌then◌else◌,
}
use python_dbus.Python.Integer.{ℤ, pos, negsuc, ltb_ℤ}
use python_dbus.Python.{Exception, value_error, Result, ok, err}

-- The return values of `make_fd`; `fd_status n` is "something else" to try when there is no integer.
pub data FdResult : Type 0 where
  made : ℤ → FdResult
  not_int : FdResult
  failed : Exception → FdResult

-- What `make_fd` sees of its argument: an integer, or what `PyLong_AsLong` raised for one, or an
-- object that is none.
pub data Argument : Type 0 where
  long_arg : Result ℤ → Argument
  not_long : Argument

-- `make_fd`
unfoldable pub make_fd : Argument → FdResult
make_fd not_long = not_int
make_fd (long_arg (err e)) = failed e
make_fd (long_arg (ok fd_arg)) =
    if ltb_ℤ fd_arg (negsuc (2 ^ 31 - 1)) || ltb_ℤ (pos (2 ^ 31 - 1)) fd_arg
    then failed value_error
    else made fd_arg

-- The argument's method: missing, or what its call gives.
pub data Fileno : Type 0 where
  no_fileno : Fileno
  fileno : Result Argument → Fileno

-- The descriptor that `UnixFd_tp_new` goes on to duplicate.
unfoldable pub fd_original : Argument → Fileno → Result ℤ
fd_original arg method = elim (make_fd arg) [
  | made fd ↦ ok fd
  | failed e ↦ err e
  | not_int ↦ fd_of_method method
]
  where
    fd_of_number : FdResult → Result ℤ
    fd_of_number (made fd) = ok fd
    fd_of_number (failed e) = err e
    fd_of_number not_int = err value_error

    fd_of_method : Fileno → Result ℤ
    fd_of_method no_fileno = err value_error
    fd_of_method (fileno (err e)) = err e
    fd_of_method (fileno (ok fd_number)) = fd_of_number (make_fd fd_number)

-- The open descriptors of the process.
abbrev pub Files : Type 0
Files = ℕ → Bool

abbrev pub opened : Files → ℕ → Files
opened files fd i = if i == fd then true else files i

unfoldable pub close : Files → ℕ → Files
close files fd i = if i == fd then false else files i

-- What a call of the constructor ends in: an object, an exception, or a failed assertion.
pub data New : Type 0 where
  object : ℤ → New
  raises : Exception → New
  aborts : New

-- `UnixFd_tp_new`. `dup_fd` is what `dup` gives for an open descriptor, if it succeeds.
unfoldable pub new : Option ℕ → Files → Argument → Fileno → Files × New
new dup_fd files arg method = elim (fd_original arg method) [
  | err e ↦ (files, raises e)
  | ok (negsuc n) ↦ (files, aborts)
  | ok (pos fd) ↦ duplicate (if files fd then dup_fd else none)
]
  where
    duplicate : Option ℕ → Files × New
    duplicate none = (files, raises value_error)
    duplicate (some fd) = (opened files fd, object (pos fd))

-- `UnixFd_dealloc`, on the object's `fd`.
unfoldable pub dealloc : Files → ℤ → Files
dealloc files (pos fd) = close files fd
dealloc files (negsuc n) = files

-- `UnixFd_take`: the object's new `fd`, and the result.
unfoldable pub take : ℤ → ℤ × Result ℕ
take (negsuc n) = (negsuc n, err value_error)
take (pos fd) = (negsuc 0, ok fd)
