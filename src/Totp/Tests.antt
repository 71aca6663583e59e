-- ===== src/Totp/Tests.antt =====
-- src/totp.rs: runs of the check, and its theorems at an authenticator whose code is the last digit of
-- the step.
use ssh_control.Prelude.{
  ℕ, ◌+◌, ◌*◌, ◌/◌, ◌%◌, ◌≤◌, ◌<◌, ◌≡◌, ◌↔◌, refl, Bytes, [], ◌∷◌, true, some, arith, codes,
}
use ssh_control.Totp.{
  accepted, replayed, invalid, Authenticator, check_code, check_steps, codes_match, difference,
  step_seconds,
}
use ssh_control.Totp.Codes.{codes_match_iff}
use ssh_control.Totp.Check.{check_code-accepted, check_code_complete}

abbrev digit : ℕ → Bytes
digit t = (48 + (t / 30) % 10) ∷ []

abbrev at_1000 : Authenticator
at_1000 = record { build = λ secret. some digit; now = some 1000 }

-- The clock is in step 33.
accepts_current : check_code at_1000 (codes "S") (codes "3") 31 ≡ accepted 33
unfolding check_code check_steps codes_match difference
accepts_current = refl

accepts_drift : check_code at_1000 (codes "S") (codes "4") 33 ≡ accepted 34
unfolding check_code check_steps codes_match difference
accepts_drift = refl

refuses_again : check_code at_1000 (codes "S") (codes "4") 34 ≡ replayed
unfolding check_code check_steps codes_match difference
refuses_again = refl

refuses_old : check_code at_1000 (codes "S") (codes "1") 0 ≡ invalid
unfolding check_code check_steps codes_match difference
refuses_old = refl

codes_match_iff_example :
    (codes_match (codes "123456") (codes "123457") ≡ true) ↔ (codes "123456" ≡ codes "123457")
codes_match_iff_example =
    codes_match_iff (codes "123456") (codes "123457") (omega arith) (omega arith)

check_code-accepted_example :
    (31 < 33)
    × (1000 / step_seconds ≤ 33 + 1)
    × (33 ≤ 1000 / step_seconds + 1)
    × (codes_match (digit (33 * step_seconds)) (codes "3") ≡ true)
check_code-accepted_example =
    check_code-accepted at_1000 (codes "S") (codes "3") 31 digit 1000 33 refl refl accepts_current

same_digit : codes_match (digit (33 * step_seconds)) (codes "3") ≡ true
unfolding codes_match difference
same_digit = refl

check_code_complete_example :
    (s : ℕ) × (check_code at_1000 (codes "S") (codes "3") 31 ≡ accepted s) × (33 ≤ s)
check_code_complete_example =
    check_code_complete at_1000 (codes "S") (codes "3") 31 digit 1000 33 refl refl same_digit
      (omega arith) (omega arith) (omega arith)
