-- ===== src/Totp/Check.antt =====
-- src/totp.rs: which codes are accepted, and that one is accepted once.
use ssh_control.Prelude.{ℕ, zero, suc, ◌+◌, ◌-◌, ◌*◌, ◌/◌, ◌≤◌, ◌<◌, ◌≡◌, refl, Bytes, true}
use ssh_control.Prelude.{
  ltb, arith, Bool-cases, Option-cases, inl, inr, some, ltb→lt, ltb→le, lt→ltb, subst,
}
use ssh_control.Totp.{
  CodeCheck, accepted, replayed, invalid, codes_match, check_steps, check_code, Authenticator,
  step_seconds,
}

module _ (generate : ℕ → Bytes) (code : Bytes) where
  -- The code is the one of this step.
  abbrev pub IsCodeAt : ℕ → Type 0
  IsCodeAt step = codes_match (generate (step * step_seconds)) code ≡ true

  -- What the answer says, in every case.
  pub Verdict : ℕ → ℕ → ℕ → CodeCheck → Type 0
  Verdict last_step lo n (accepted step) =
      (last_step < step) × (lo ≤ step) × (step < lo + n) × IsCodeAt step
  Verdict last_step lo n replayed =
      (step : ℕ) × (step ≤ last_step) × (lo ≤ step) × (step < lo + n) × IsCodeAt step
  Verdict last_step lo n invalid = Unit {0}

  Verdict-suc :
      (last_step lo n : ℕ) (v : CodeCheck)
      → Verdict last_step lo n v
      → Verdict last_step lo (suc n) v
  unfolding Verdict
  Verdict-suc last_step lo n (accepted step) (newer, p, q, e) = (newer, p, omega arith, e)
  Verdict-suc last_step lo n replayed (step, older, p, q, e) = (step, older, p, omega arith, e)
  Verdict-suc last_step lo n invalid v = tt

  check_steps-Verdict :
      (last_step lo n : ℕ) → Verdict last_step lo n (check_steps generate code last_step lo n)
  unfolding check_steps Verdict
  check_steps-Verdict last_step lo zero = tt
  check_steps-Verdict last_step lo (suc n) =
      elim (Bool-cases (codes_match (generate ((lo + n) * step_seconds)) code)) [
        | inl here ↦ elim (Bool-cases (ltb last_step (lo + n))) [
          | inl newer ↦ rw here (rw newer (ltb→lt _ _ newer, omega arith, omega arith, here))
          | inr older ↦
              rw here (rw older (lo + n, ltb→le _ _ older, omega arith, omega arith, here))
        ]
        | inr elsewhere ↦
            rw elsewhere (Verdict-suc last_step lo n _ (check_steps-Verdict last_step lo n))
      ]

  -- A code of a step after the last accepted one is accepted, at the newest step that it is the code of.
  check_steps_complete :
      (last_step lo n step : ℕ)
      → IsCodeAt step
      → last_step < step
      → lo ≤ step
      → step < lo + n
      → (s : ℕ) × (check_steps generate code last_step lo n ≡ accepted s) × (step ≤ s)
  unfolding check_steps
  check_steps_complete last_step lo zero step e h p q = absurd (omega arith)
  check_steps_complete last_step lo (suc n) step e h p q =
      elim (Bool-cases (codes_match (generate ((lo + n) * step_seconds)) code)) [
        | inl here ↦ (
          lo + n,
          rw here (rw (let d : ltb last_step (lo + n) ≡ true = lt→ltb _ _ (omega arith) in d) refl),
          omega arith,
        )
        | inr elsewhere ↦ elim (Bool-cases (ltb step (lo + n))) [
          | inl below ↦
              rw elsewhere (check_steps_complete last_step lo n step e h p (ltb→lt _ _ below))
          | inr above ↦
              let newest : step ≡ lo + n = omega (arith, ltb→le _ _ above) in cc (rw newest at e)
        ]
      ]

module _ (auth : Authenticator) (secret code : Bytes) (last_step : ℕ) (generate : ℕ → Bytes)
    (now : ℕ) where
  -- The check looks at the three steps around the clock's.
  check_code-check_steps :
      auth.build secret ≡ some generate
      → auth.now ≡ some now
      → check_code auth secret code last_step
        ≡ check_steps generate code last_step
            (now / step_seconds - 1)
            (now / step_seconds + 1 + 1 - (now / step_seconds - 1))
  unfolding check_code
  check_code-check_steps built clock = rw (built, check_code) (rw (clock, check_code) refl)

  -- A code is accepted only at a step after the last one accepted, at most one step away from the
  -- clock's, whose code it is.
  pub check_code-accepted :
      (step : ℕ)
      → auth.build secret ≡ some generate
      → auth.now ≡ some now
      → check_code auth secret code last_step ≡ accepted step
      → (last_step < step)
        × (now / step_seconds ≤ step + 1)
        × (step ≤ now / step_seconds + 1)
        × (codes_match (generate (step * step_seconds)) code ≡ true)
  unfolding Verdict
  check_code-accepted step built clock h =
      let lo = now / step_seconds - 1 in
      let n = now / step_seconds + 1 + 1 - lo in
      let e : check_steps generate code last_step lo n ≡ accepted step =
        rw (check_code-check_steps built clock) at h in
      let v : Verdict generate code last_step lo n (accepted step) =
        subst (λ x. Verdict generate code last_step lo n x) e
          (check_steps-Verdict generate code last_step lo n) in
      let (newer, p, q, match) = v in (newer, omega arith, omega arith, match)

  -- The code of a step in the window after the last accepted one is accepted, at that step or at a
  -- later one.
  pub check_code_complete :
      (step : ℕ)
      → auth.build secret ≡ some generate
      → auth.now ≡ some now
      → codes_match (generate (step * step_seconds)) code ≡ true
      → last_step < step
      → now / step_seconds ≤ step + 1
      → step ≤ now / step_seconds + 1
      → (s : ℕ) × (check_code auth secret code last_step ≡ accepted s) × (step ≤ s)
  check_code_complete step built clock match newer p q =
      let lo = now / step_seconds - 1 in
      let n = now / step_seconds + 1 + 1 - lo in
      rw (check_code-check_steps built clock) (
        check_steps_complete generate code last_step lo n step match newer (omega arith)
          (omega arith))

-- Whatever the secret and the clock, an accepted step is newer than the last one.
pub check_code_newer :
    (auth : Authenticator) (secret code : Bytes) (last_step step : ℕ)
    → check_code auth secret code last_step ≡ accepted step
    → last_step < step
unfolding check_code
check_code_newer auth secret code last_step step h = elim (Option-cases (auth.build secret)) [
  | inl no_totp ↦ cc (rw (no_totp, check_code) at h)
  | inr (generate, built) ↦ elim (Option-cases auth.now) [
    | inl no_time ↦ cc (rw (no_time, check_code) at (rw (built, check_code) at h))
    | inr (now, clock) ↦
        let (newer, _, _, _) =
          check_code-accepted auth secret code last_step generate now step built clock h in
        newer
  ]
]
