-- ===== src/MainLoop/Counted.antt =====
-- Who holds a reference to a main loop, and when its data is freed; _dbus_bindings/mainloop.c and module.c.
use python_dbus.MainLoop.{
  NativeMainLoop, Loop, none_object, native, other_object, Loops, calls_free, loop_dealloc, incref,
  decref, xdecref, check_mainloop_sanity, set_default_main_loop, get_default_main_loop,
}
use python_dbus.Prelude.{
  ℕ, ◌+◌, ◌-◌, ◌<◌, Bool, true, false, Option, none, some, ◌≡◌, sym, inl, inr, arith, ◌&&◌, ◌==◌,
  if◌then◌else◌, Option-cases,
}

-- The main loops, the references to each that the program and its constructors hold, and which have been
-- made.
pub record Program : Type 0 where
  pub loops : Loops
  pub held : ℕ → ℕ
  pub made : ℕ → Bool

abbrev pub names : Loop → ℕ → ℕ
names (native j) i = if i == j then 1 else 0
names _ i = 0

abbrev pub default_names : Option Loop → ℕ → ℕ
default_names none i = 0
default_names (some l) i = names l i

-- The program has the object that it gives.
abbrev pub Holds : Program → Loop → Type 0
Holds p (native i) = 0 < p.held i
Holds p _ = Unit

-- What happens to main loops: one is made, the default is set or read, and who holds a reference, the
-- program or an object that was constructed with the main loop, takes one more or gives it up.
pub data Step : Program → Program → Type 0 where
  make :
      (p : Program) (i : ℕ) (new : NativeMainLoop)
      → p.made i ≡ false
      → Step p (record {
        loops = record (p.loops) {
          loop = λ j. if j == i then new else p.loops.loop j;
          refs = λ j. if j == i then 1 else p.loops.refs j;
        };
        held = λ j. if j == i then 1 else p.held j;
        made = λ j. if j == i then true else p.made j;
      })
  set_default :
      (p : Program) (l : Loop)
      → Holds p l
      → Step p (record p { loops = (set_default_main_loop l p.loops).0 })
  get_default :
      (p : Program)
      → Step p (record p {
        loops = (get_default_main_loop p.loops).0;
        held = λ j. p.held j + names (get_default_main_loop p.loops).1 j;
      })
  take :
      (p : Program) (i : ℕ)
      → 0 < p.held i
      → Step p (record p {
        loops = incref (native i) p.loops;
        held = λ j. if j == i then p.held j + 1 else p.held j;
      })
  give_up :
      (p : Program) (i : ℕ)
      → 0 < p.held i
      → Step p (record p {
        loops = decref (native i) p.loops;
        held = λ j. if j == i then p.held j - 1 else p.held j;
      })

pub data Reach (p : Program) : Program → Type 0 where
  start : Reach p p
  next : {q r : Program} → Reach p q → Step q r → Reach p r

-- A main loop whose data is to be freed: it has both data and a `free_cb`.
abbrev pub to_free : NativeMainLoop → Bool
to_free l = elim l.user_data [ none ↦ false | some _ ↦ l.has_free_cb ]

calls_free_lem : (l : NativeMainLoop) → calls_free l ≡ to_free l
unfolding calls_free
calls_free_lem l = ground arith

-- One reference for each holder; only a loop that has been made has any; and `free_cb` has been called once
-- where it is to be called and the last reference has gone, and not otherwise.
pub record IsCounted (p : Program) (i : ℕ) : Type 0 where
  pub counted : p.loops.refs i ≡ p.held i + default_names p.loops.default i
  pub unmade : p.made i ≡ false → p.loops.refs i ≡ 0
  pub freed :
      p.loops.frees i
      ≡ (if p.made i && p.loops.refs i == 0 && calls_free (p.loops.loop i) then 1 else 0)

Step-IsCounted : {p q : Program} → Step p q → (i : ℕ) → IsCounted p i → IsCounted q i
unfolding set_default_main_loop get_default_main_loop check_mainloop_sanity incref decref xdecref
    loop_dealloc
Step-IsCounted (make p j new fresh) i c = record {
  counted = ground arith;
  unmade = ground arith;
  freed = ground arith;
}
Step-IsCounted (set_default p none_object h) i c = c
Step-IsCounted (set_default p other_object h) i c = c
Step-IsCounted (set_default p (native j) h) i c = record {
  counted = ground arith;
  unmade = ground arith;
  freed = ground arith;
}
Step-IsCounted (get_default p) i c = elim (Option-cases p.loops.default) [
  | inl e ↦ record { counted = ground arith; unmade = ground arith; freed = ground arith }
  | inr (none_object, e) ↦ record {
    counted = ground arith;
    unmade = ground arith;
    freed = ground arith;
  }
  | inr (other_object, e) ↦ record {
    counted = ground arith;
    unmade = ground arith;
    freed = ground arith;
  }
  | inr (native j, e) ↦ record {
    counted = ground arith;
    unmade = ground arith;
    freed = ground arith;
  }
]
Step-IsCounted (take p j h) i c = record {
  counted = ground arith;
  unmade = ground arith;
  freed = ground arith;
}
Step-IsCounted (give_up p j h) i c = record {
  counted = ground arith;
  unmade = ground arith;
  freed = ground arith;
}

Reach-IsCounted : {p q : Program} → Reach p q → (i : ℕ) → IsCounted p i → IsCounted q i
Reach-IsCounted start i c = c
Reach-IsCounted (next r s) i c = Step-IsCounted s i (Reach-IsCounted r i c)

-- Before anything is made.
abbrev pub IsFresh : Program → ℕ → Type 0
IsFresh p i =
    (p.made i ≡ false)
    × (p.held i ≡ 0)
    × (p.loops.default ≡ none)
    × (p.loops.refs i ≡ 0)
    × (p.loops.frees i ≡ 0)

-- From a start with no default main loop, for a main loop that has not been made there: whatever is
-- made, set as the default, read from there, taken and given up, it has a reference for each one that is
-- held, and one more while it is the default. Its `free_cb` has been called once if it has been made, has data and a `free_cb`, and has no
-- reference left, and has not been called otherwise.
pub data_freed_once :
    (i : ℕ) {p q : Program}
    → IsFresh p i
    → Reach p q
    → (q.loops.refs i ≡ q.held i + default_names q.loops.default i)
      × (q.loops.frees i
          ≡ (if q.made i && q.loops.refs i == 0 && to_free (q.loops.loop i) then 1 else 0))
data_freed_once i {p} {q} f r =
    let c =
      Reach-IsCounted r i
        (record { counted = ground arith; unmade = ground arith; freed = ground arith }) in
    (c.counted, rw (sym (calls_free_lem (q.loops.loop i))) c.freed)
