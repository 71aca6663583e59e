-- ===== src/Calls.antt =====
-- Calls that change a state and may fail, chained the way `?` chains them.
use ssh_control.Prelude.{◌≡◌, refl, ok, err, panic}
use ssh_control.Errors.{Result}

abbrev pub Call : Type 0 → Type 0 → Type 0
Call S A = S → S × Result A

abbrev pub on_result : {S A B : Type 0} → S × Result A → (A → Call S B) → S × Result B
on_result (s, ok a) f = f a s
on_result (s, err e) f = (s, err e)
on_result (s, panic) f = (s, panic)

infixl 5 ◌>>=◌ ◌>>◌
abbrev pub ◌>>=◌ : {S A B : Type 0} → Call S A → (A → Call S B) → Call S B
◌>>=◌ m f s = on_result (m s) f

abbrev pub ◌>>◌ : {S B : Type 0} → Call S (Unit {0}) → Call S B → Call S B
m >> k = m >>= λ _. k

-- A step that leaves the state alone.
abbrev pub lift : {S A : Type 0} → Result A → Call S A
lift r s = (s, r)

-- The error of a call as a value, for a `match` on it or a `let _ =`.
abbrev pub caught : {A : Type 0} → Result A → Result (Result A)
caught (ok a) = ok (ok a)
caught (err e) = ok (err e)
caught panic = panic

abbrev pub attempt : {S A : Type 0} → Call S A → Call S (Result A)
attempt m s = let (s, r) = m s in (s, caught r)

-- A chain that succeeds went through its first call.
pub by_call :
    {S A B C : Type 0} (r : S × Result A) (f : A → Call S B) {t : S} {b : B}
    → on_result r f ≡ (t, ok b)
    → ((s : S) (a : A) → r ≡ (s, ok a) → f a s ≡ (t, ok b) → C)
    → C
by_call (s, ok a) f h k = k s a refl h
by_call (s, err e) f h k = absurd (cc)
by_call (s, panic) f h k = absurd (cc)
