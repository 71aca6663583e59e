-- ===== src/Totp.antt =====
-- src/totp.rs: the one check of a six-digit code. The crate totp_rs and the clock are parameters:
-- `build` reads a secret and gives the code of each moment, the clock the seconds since the epoch.
pub mod Codes
pub mod Check
mod Tests
use ssh_control.Prelude.{
  ℕ, zero, suc, ◌+◌, ◌-◌, ◌*◌, ◌/◌, Bytes, length, List, [], ◌∷◌, Bool, true, false, not,
}
use ssh_control.Prelude.{if◌then◌else◌, ltb, ◌==◌, bit_or, bit_xor, Option, some, none}

abbrev pub skew : ℕ
skew = 1

abbrev pub step_seconds : ℕ
step_seconds = 30

-- The outcome of a check; `accepted` carries the step to persist.
pub data CodeCheck : Type 0 where
  accepted : ℕ → CodeCheck
  replayed invalid : CodeCheck

-- `a.iter().zip(b).fold(acc, |acc, (x, y)| acc | (x ^ y))`
unfoldable pub difference : ℕ → Bytes → Bytes → ℕ
difference acc [] b = acc
difference acc (x ∷ a) [] = acc
difference acc (x ∷ a) (y ∷ b) = difference (bit_or acc (bit_xor x y)) a b

unfoldable pub codes_match : Bytes → Bytes → Bool
unfolding difference
codes_match a b = if not (length a == length b) then false else difference 0 a b == 0

-- The steps `lo`, ..., `lo + n - 1`, the newest first.
unfoldable pub check_steps : (ℕ → Bytes) → Bytes → ℕ → ℕ → ℕ → CodeCheck
check_steps generate code last_step lo zero = invalid
check_steps generate code last_step lo (suc n) =
    let older = check_steps generate code last_step lo n in
    if codes_match (generate ((lo + n) * step_seconds)) code
    then (if ltb last_step (lo + n) then accepted (lo + n) else replayed)
    else older

-- The crate and the clock of one check.
pub record Authenticator : Type 0 where
  pub build : Bytes → Option (ℕ → Bytes)
  pub now : Option ℕ

unfoldable pub check_code : Authenticator → Bytes → Bytes → ℕ → CodeCheck
check_code auth secret code last_step = elim (auth.build secret) [
  | none ↦ invalid
  | some generate ↦ elim auth.now [
    | none ↦ invalid
    | some now ↦
        let current = now / step_seconds in
        let lo = current - skew in check_steps generate code last_step lo (current + skew + 1 - lo)
  ]
]

unfoldable pub verify_enrollment : Authenticator → Bytes → Bytes → Bool
verify_enrollment auth secret code = elim (check_code auth secret code 0) [
  | accepted step ↦ true
  | _ ↦ false
]
