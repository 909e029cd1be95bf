-- ===== src/UnixFd/Owned.antt =====
-- UnixFd objects and the descriptors they own, over any sequence of steps of a program.
use python_dbus.Prelude.{
  ℕ, Bool, true, false, Option, none, some, ◌≡◌, ◌≢◌, ◌<◌, ◌^◌, arith, ◌==◌, if◌then◌else◌,
}
use python_dbus.Python.Integer.{ℤ, pos, negsuc}
use python_dbus.Python.{value_error, ok, err}
use python_dbus.UnixFd.{
  make_fd, Argument, long_arg, not_long, Fileno, fileno, fd_original, Files, opened, close, object,
  aborts, new, dealloc, take,
}

-- The open descriptors, the `fd` of the objects that live, and the descriptors that the rest of the
-- program has to close.
pub record World : Type 0 where
  pub files : Files
  pub fd_of : ℕ → Option ℤ
  pub program : ℕ → Bool

abbrev pub put_fd : (ℕ → Option ℤ) → ℕ → Option ℤ → ℕ → Option ℤ
put_fd f self v i = if i == self then v else f i

abbrev pub set_bool : (ℕ → Bool) → ℕ → Bool → ℕ → Bool
set_bool f fd b i = if i == fd then b else f i

abbrev owns : Option ℤ → ℕ → Bool
owns (some (pos n)) fd = n == fd
owns _ fd = false

-- A descriptor that take() gives belongs to the program, which may close what belongs to it. What
-- `dup` gives was not open.
pub data Step : World → World → Type 0 where
  created :
      (w : World) (self fd : ℕ) (arg : Argument) (method : Fileno) (files : Files)
      → w.fd_of self ≡ none
      → w.files fd ≡ false
      → new (some fd) w.files arg method ≡ (files, object (pos fd))
      → Step w (record {
        files = files;
        fd_of = put_fd w.fd_of self (some (pos fd));
        program = w.program;
      })
  taken :
      (w : World) (self fd : ℕ) (owned left : ℤ)
      → w.fd_of self ≡ some owned
      → take owned ≡ (left, ok fd)
      → Step w (record {
        files = w.files;
        fd_of = put_fd w.fd_of self (some left);
        program = set_bool w.program fd true;
      })
  destroyed :
      (w : World) (self : ℕ) (owned : ℤ)
      → w.fd_of self ≡ some owned
      → Step w (record {
        files = dealloc w.files owned;
        fd_of = put_fd w.fd_of self none;
        program = w.program;
      })
  program_opens :
      (w : World) (fd : ℕ)
      → w.files fd ≡ false
      → Step w (record {
        files = opened w.files fd;
        fd_of = w.fd_of;
        program = set_bool w.program fd true;
      })
  program_closes :
      (w : World) (fd : ℕ)
      → w.program fd ≡ true
      → Step w (record {
        files = close w.files fd;
        fd_of = w.fd_of;
        program = set_bool w.program fd false;
      })

abbrev pub start : (ℕ → Bool) → World
start files = record { files = files; fd_of = λ i. none; program = files }

pub data Reach : World → Type 0 where
  started : (files : ℕ → Bool) → Reach (start files)
  next : {w w' : World} → Reach w → Step w w' → Reach w'

-- Every descriptor has one owner, and is open.
abbrev IsOpen : World → Type 0
IsOpen w = (fd o : ℕ) → owns (w.fd_of o) fd ≡ true → (w.files fd ≡ true) × (w.program fd ≡ false)

abbrev IsAlone : World → Type 0
IsAlone w =
    (fd o o' : ℕ) → owns (w.fd_of o) fd ≡ true → (o == o') ≡ false → owns (w.fd_of o') fd ≡ false

abbrev IsProgram : World → Type 0
IsProgram w = (fd : ℕ) → w.program fd ≡ true → w.files fd ≡ true

new_files :
    (fd : ℕ) (files files' : Files) (arg : Argument) (method : Fileno)
    → new (some fd) files arg method ≡ (files', object (pos fd))
    → files' ≡ opened files fd
unfolding new
new_files fd files files' arg method h = ground arith

IsOpen-step : {w w' : World} → Step w w' → IsProgram w → IsAlone w → IsOpen w → IsOpen w'
unfolding close dealloc take
IsOpen-step (created w self fd arg method files a b c) p l t n o h =
    ground (arith, t n o, p n, new_files fd w.files files arg method c)
IsOpen-step (taken w self fd owned left a b) p l t n o h =
    ground (arith, t n o, l n self o, l n o self, t n self)
IsOpen-step (destroyed w self owned a) p l t n o h = ground (arith, t n o, l n self o, l n o self)
IsOpen-step (program_opens w fd a) p l t n o h = ground (arith, t n o)
IsOpen-step (program_closes w fd a) p l t n o h = ground (arith, t n o)

IsAlone-step : {w w' : World} → Step w w' → IsOpen w → IsAlone w → IsAlone w'
unfolding close dealloc take
IsAlone-step (created w self fd arg method files a b c) t l n o o' h d =
    ground (arith, l n o o', t n o, t n o')
IsAlone-step (taken w self fd owned left a b) t l n o o' h d = ground (arith, l n o o')
IsAlone-step (destroyed w self owned a) t l n o o' h d = ground (arith, l n o o')
IsAlone-step (program_opens w fd a) t l n o o' h d = l n o o' h d
IsAlone-step (program_closes w fd a) t l n o o' h d = l n o o' h d

IsProgram-step : {w w' : World} → Step w w' → IsOpen w → IsProgram w → IsProgram w'
unfolding close dealloc take
IsProgram-step (created w self fd arg method files a b c) t p n h =
    ground (arith, p n, new_files fd w.files files arg method c)
IsProgram-step (taken w self fd owned left a b) t p n h = ground (arith, p n, t n self)
IsProgram-step (destroyed w self owned a) t p n h = ground (arith, p n, t n self)
IsProgram-step (program_opens w fd a) t p n h = ground (arith, p n)
IsProgram-step (program_closes w fd a) t p n h = ground (arith, p n)

abbrev IsSingleOwned : World → Type 0
IsSingleOwned w = IsOpen w × IsAlone w × IsProgram w

reach-IsSingleOwned : {w : World} → Reach w → IsSingleOwned w
reach-IsSingleOwned (started files) = (λ fd o h. cc, λ fd o o' h d. cc, λ fd h. h)
reach-IsSingleOwned (next r s) =
    let (t, l, p) = reach-IsSingleOwned r in
    (IsOpen-step s p l t, IsAlone-step s t l, IsProgram-step s t p)

-- Whatever a program does with UnixFd objects, the descriptor of an object is open, is not one that
-- the program has to close, and is that of no other object.
pub descriptor_owned :
    {w : World} (fd o o' : ℕ)
    → Reach w
    → w.fd_of o ≡ some (pos fd)
    → (o == o') ≡ false
    → (w.files fd ≡ true) × (w.program fd ≡ false) × (w.fd_of o' ≢ some (pos fd))
descriptor_owned fd o o' r h d =
    let (t, l, p) = reach-IsSingleOwned r in ground (arith, t fd o, l fd o o')

-- take() gives the descriptor that the object has and leaves it open when the object goes away; a
-- second take() raises ValueError.
pub taken_survives :
    (files : Files) (fd : ℕ) (left : ℤ)
    → take (pos fd) ≡ (left, ok fd)
    → (dealloc files left ≡ files) × (take left ≡ (left, err value_error))
unfolding take dealloc
taken_survives files fd left h = ground arith

-- For a negative integer that an `int` of C holds, given as such or by fileno(), the constructor
-- fails its assertion, whatever is open.
pub negative_fd_aborts :
    (dup_fd : Option ℕ) (files : Files) (n : ℕ) (method : Fileno)
    → n < 2 ^ 31
    → (new dup_fd files (long_arg (ok (negsuc n))) method ≡ (files, aborts))
      × (new dup_fd files not_long (fileno (ok (long_arg (ok (negsuc n))))) ≡ (files, aborts))
unfolding new fd_original make_fd
negative_fd_aborts dup_fd files n method h = ground arith
