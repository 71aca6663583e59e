-- ===== src/Prelude/Results.antt =====
-- What a fallible function comes back with: a value, an error, or a panic of the program (an
-- index out of range, a failed `expect`).
use mathlib.Core.Path.{◌≡◌, refl}
use mathlib.Core.Logic.{◌≢◌}

pub data Outcome {ℓ κ} (E : Type κ) (A : Type ℓ) : Type (ℓ ⊔ κ) where
  ok : A → Outcome E A
  err : E → Outcome E A
  panic : Outcome E A

infixl 5 ◌>>=◌ ◌>>◌
abbrev pub ◌>>=◌ {ℓ κ μ} :
    {E : Type κ} {A : Type ℓ} {B : Type μ} → Outcome E A → (A → Outcome E B) → Outcome E B
ok a >>= f = f a
err e >>= f = err e
panic >>= f = panic

abbrev pub ◌>>◌ {ℓ κ} : {E : Type κ} {B : Type ℓ} → Outcome E (Unit {0}) → Outcome E B → Outcome E B
m >> k = m >>= λ _. k

-- Inversion of a chain of binds that succeeds: each step hands on its value and what is left.
pub by_ok {ℓ κ μ ν} :
    {E : Type κ} {A : Type ℓ} {B : Type μ} {C : Type ν} (m : Outcome E A) (f : A → Outcome E B)
    {b : B}
    → (m >>= f) ≡ ok b
    → ((a : A) → m ≡ ok a → f a ≡ ok b → C)
    → C
by_ok (ok a) f h k = k a refl h
by_ok (err e) f h k = absurd (cc)
by_ok panic f h k = absurd (cc)

-- A chain of binds does not panic where no step of it does.
pub bind-ne-panic {ℓ κ μ} :
    {E : Type κ} {A : Type ℓ} {B : Type μ} (m : Outcome E A) (f : A → Outcome E B)
    → m ≢ panic
    → ((a : A) → m ≡ ok a → f a ≢ panic)
    → (m >>= f) ≢ panic
bind-ne-panic (ok a) f h k = k a refl
bind-ne-panic (err e) f h k = λ p. cc
bind-ne-panic panic f h k = absurd (h refl)

-- `map_err`
abbrev pub map_err {ℓ κ μ} :
    {E : Type κ} {F : Type μ} {A : Type ℓ} → (E → F) → Outcome E A → Outcome F A
map_err f (ok a) = ok a
map_err f (err e) = err (f e)
map_err f panic = panic
