-- ===== src/Message/Write/Balanced/Walk.antt =====
-- How many containers are open after calls of libdbus that `Message.append` of
-- _dbus_bindings/message-append.c makes.
use mathlib.Core.List.{append_assoc, append-nil}
use python_dbus.Message.Append.{Basic}
use python_dbus.Message.Values.{
  Call, open_container, put_basic, put_bytes, close_container, abandon_container,
}
use python_dbus.Message.Write.{Writer, return, ◌then_do◌}
use python_dbus.Message.Write.Steps.{openings, closings}
use python_dbus.Prelude.{
  ℕ, zero, suc, ◌+◌, Option, none, some, List, [], ◌∷◌, ◌++◌, ◌≡◌, refl, sym, subst, ◌∙◌, arith,
  Bytes,
}
use python_dbus.Python.{Result, ok, err}

-- How many containers are open after some calls; `none` if one is closed that was not open.
unfoldable pub walk : ℕ → List Call → Option ℕ
walk k [] = some k
walk k (open_container c sig ∷ cs) = walk (suc k) cs
walk zero (close_container ∷ cs) = none
walk (suc k) (close_container ∷ cs) = walk k cs
walk zero (abandon_container ∷ cs) = none
walk (suc k) (abandon_container ∷ cs) = walk k cs
walk k (put_basic c b ∷ cs) = walk k cs
walk k (put_bytes s ∷ cs) = walk k cs

abbrev pub walk_on : Option ℕ → List Call → Option ℕ
walk_on none cs = none
walk_on (some k) cs = walk k cs

pub walk-append : (k : ℕ) (cs ds : List Call) → walk k (cs ++ ds) ≡ walk_on (walk k cs) ds
unfolding walk
walk-append k [] ds = refl
walk-append k (open_container c sig ∷ cs) ds = walk-append (suc k) cs ds
walk-append zero (close_container ∷ cs) ds = refl
walk-append (suc k) (close_container ∷ cs) ds = walk-append k cs ds
walk-append zero (abandon_container ∷ cs) ds = refl
walk-append (suc k) (abandon_container ∷ cs) ds = walk-append k cs ds
walk-append k (put_basic c b ∷ cs) ds = walk-append k cs ds
walk-append k (put_bytes s ∷ cs) ds = walk-append k cs ds

-- The calls lead from any number of open containers back to it, and close none of those.
abbrev pub IsBalanced : List Call → Type 0
IsBalanced d = (k : ℕ) → walk k d ≡ some k

-- What a part of the code adds to the calls, whether it raises or not.
abbrev pub Adds : {A : Type 0} → List Call → List Call × Result A → Type 0
Adds w r = (d : List Call) × (r.0 ≡ w ++ d) × IsBalanced d

abbrev pub Balances : {A : Type 0} → Writer A → Type 0
Balances m = (w : List Call) → Adds w (m w)

pub Balances-return : {A : Type 0} (r : Result A) → Balances (return r)
unfolding walk
Balances-return r w = ([], sym (append-nil w), λ k. refl)

pub IsBalanced-append : (c d : List Call) → IsBalanced c → IsBalanced d → IsBalanced (c ++ d)
IsBalanced-append c d hc hd k = walk-append k c d ∙ rw (hc k) (hd k)

pub Adds-after :
    {A : Type 0} (w d : List Call) (r : List Call × Result A)
    → IsBalanced d
    → Adds (w ++ d) r
    → Adds w r
Adds-after w d r hd (e, h, he) = (d ++ e, h ∙ append_assoc w d e, IsBalanced-append d e hd he)

-- The second of two parts, after what the first has given.
pub after_first :
    {A B : Type 0} (w d : List Call) (r : List Call × Result A) (f : A → Writer B)
    → r.0 ≡ w ++ d
    → IsBalanced d
    → ((a : A) → Balances (f a))
    → Adds w (((λ _. r) then_do f) w)
after_first w d (w', err e) f h hd hf = (d, h, hd)
after_first w d (w', ok a) f h hd hf =
    Adds-after w d (f a w') hd (subst (λ x. Adds x (f a w')) h (hf a w'))

pub Balances-then :
    {A B : Type 0} (m : Writer A) (f : A → Writer B)
    → Balances m
    → ((a : A) → Balances (f a))
    → Balances (m then_do f)
Balances-then m f hm hf w = let (d, e, hd) = hm w in after_first w d (m w) f e hd hf

-- A result that is changed leaves the calls as they are.
pub Balances-result :
    {A B : Type 0} (m : Writer A) (g : Result A → Result B)
    → Balances m
    → Balances (λ w. let (w', r) = m w in (w', g r))
Balances-result m g hm w = hm w

pub walk-openings : (n k : ℕ) (sig : Bytes) → walk k (openings n sig) ≡ some (n + k)
unfolding walk
walk-openings zero k sig = ground arith
walk-openings (suc zero) k sig = ground arith
walk-openings (suc (suc n)) k sig = ground (arith, walk-openings (suc n) (suc k) sig)

pub walk-closings : (n k : ℕ) → walk (n + k) (closings n) ≡ some k
unfolding walk
walk-closings zero k = ground arith
walk-closings (suc n) k =
    let e : suc (n + k) ≡ suc n + k = omega arith in
    subst (λ x. walk x (closings (suc n)) ≡ some k) e (walk-closings n k)

pub enclosed_IsBalanced :
    (n : ℕ) (sig : Bytes) (d : List Call)
    → IsBalanced d
    → IsBalanced (openings n sig ++ (d ++ closings n))
enclosed_IsBalanced n sig d hd k =
    walk-append k (openings n sig) (d ++ closings n)
    ∙ rw (walk-openings n k sig)
        (walk-append (n + k) d (closings n) ∙ rw (hd (n + k)) (walk-closings n k))

pub opened-IsBalanced :
    (c : ℕ) (sig : Option Bytes) (d : List Call)
    → IsBalanced d
    → IsBalanced (open_container c sig ∷ (d ++ (close_container ∷ [])))
unfolding walk
opened-IsBalanced c sig d hd k = walk-append (suc k) d (close_container ∷ []) ∙ rw (hd (suc k))

pub abandoned-IsBalanced :
    (c : ℕ) (sig : Option Bytes) (d : List Call)
    → IsBalanced d
    → IsBalanced (open_container c sig ∷ (d ++ (abandon_container ∷ [])))
unfolding walk
abandoned-IsBalanced c sig d hd k = walk-append (suc k) d (abandon_container ∷ []) ∙ rw (hd (suc k))

pub put-IsBalanced : (c : ℕ) (b : Basic) → IsBalanced (put_basic c b ∷ [])
unfolding walk
put-IsBalanced c b k = refl
