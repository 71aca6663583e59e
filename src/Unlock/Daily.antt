-- ===== src/Unlock/Daily.antt =====
-- src/app.rs: what the daily code can and cannot do.
use ssh_control.Prelude.{
  ℕ, ◌≡◌, ◌≢◌, ◌≤◌, leb, ◌<◌, refl, Bytes, Bool, Option, some, none, ok, err, panic, arith,
  Bool-cases, inl, inr, length, ◌==◌, ==_iff, by_ok, sym, ap, ◌∙◌,
}
use ssh_control.Errors.{Result, AppError}
use ssh_control.Totp.{CodeCheck, accepted, replayed, invalid, Authenticator, check_code}
use ssh_control.Totp.Check.{check_code_newer}
use ssh_control.Vault.Device.{DeviceState, Base64, device_key, device_key_len}
use ssh_control.Unlock.{
  LoadFailure, contended, newer_schema, other, failure_of, not_retryable, set_totp_daily_error,
  vault_in_use_now, save_error, schema_refused, max_totp_failures, Notice, KeyringFaults, App,
  unlocked, locked_totp_daily, read_device, write_device, load_by, accept_step, one_more_failure,
  on_check, with_secret, with_device, try_totp_daily_unlock, daily_screen,
}

-- The credential store does all that is asked of it.
abbrev pub no_faults : KeyringFaults
no_faults = record { open_store = none; read = none; write = none; delete = none }

-- The last step that the entry of the store knows of.
abbrev pub replay_step_of : Option DeviceState → ℕ
replay_step_of none = 0
replay_step_of (some state) = state.replay_step

module _ {W A : Type 0} (base64 : Base64) (load_with_device : Bytes → W → W × Result A) where
  on_check-replay_step :
      (state : DeviceState) (app : App W A) (v : CodeCheck)
      → app.stored ≡ some state
      → ((step : ℕ) → v ≡ accepted step → state.replay_step < step)
      → replay_step_of app.stored
        ≤ replay_step_of (on_check base64 load_with_device no_faults state v app).stored
  unfolding write_device accept_step one_more_failure
  on_check-replay_step state app (accepted step) e newer = rw e (omega (arith, newer step refl))
  on_check-replay_step state app replayed e newer = rw e (omega arith)
  on_check-replay_step state app invalid e newer = rw e (omega arith)

  with_secret-replay_step :
      (auth : Authenticator) (code : Bytes) (state : DeviceState) (o : Option Bytes) (app : App W A)
      → app.stored ≡ some state
      → replay_step_of app.stored
        ≤ replay_step_of
            (with_secret base64 load_with_device no_faults auth code state o app).stored
  with_secret-replay_step auth code state none app e = omega arith
  with_secret-replay_step auth code state (some secret) app e =
      on_check-replay_step state app (check_code auth secret code state.replay_step) e
        (check_code_newer auth secret code state.replay_step)

  with_device-replay_step :
      (auth : Authenticator) (code : Bytes) (o : Option DeviceState) (app : App W A)
      → app.stored ≡ o
      → replay_step_of app.stored
        ≤ replay_step_of (with_device base64 load_with_device no_faults auth code (ok o) app).stored
  with_device-replay_step auth code none app e = omega arith
  with_device-replay_step auth code (some state) app e =
      with_secret-replay_step auth code state state.totp_secret app e

  -- No attempt with a code moves the replay counter back, whatever the code, the clock, the crate and
  -- the vault do, where the credential store works.
  pub try_totp_daily_unlock-replay_step :
      (auth : Authenticator) (code : Bytes) (app : App W A)
      → replay_step_of app.stored
        ≤ replay_step_of
            (try_totp_daily_unlock base64 load_with_device no_faults auth code app).stored
  unfolding try_totp_daily_unlock read_device
  try_totp_daily_unlock-replay_step auth code app =
      with_device-replay_step auth code app.stored app refl

  -- The load with the key of the entry, which is 32 bytes in base64.
  abbrev pub Loaded : DeviceState → W → A → Type 0
  Loaded state w a =
      (key : Bytes) × (base64.decode state.device_key ≡ ok key)
      × (length key ≡ 32)
      × ((load_with_device key w).1 ≡ ok a)

  -- What an attempt that opens the vault found and left behind.
  pub Opened : Authenticator → Bytes → App W A → App W A → A → Type 0
  Opened auth code app app' a =
      (state : DeviceState) × (secret : Bytes) × (step : ℕ) × (app.stored ≡ some state)
      × (state.totp_secret ≡ some secret)
      × (check_code auth secret code state.replay_step ≡ accepted step)
      × (app'.stored ≡ some (record state { replay_step = step; failed_attempts = 0 }))
      × Loaded state app.world a

  load_by-Loaded :
      (state : DeviceState) (w : W) (a : A)
      → (load_by base64 load_with_device state w).1 ≡ ok a
      → Loaded state w a
  unfolding load_by device_key
  load_by-Loaded state w a h = with_key (device_key base64 state) refl
    where
      with_key : (r : Result Bytes) → device_key base64 state ≡ r → Loaded state w a
      with_key (ok key) made = by_ok (base64.decode state.device_key) _ made λ decoded e h₁.
          elim (Bool-cases (length decoded == device_key_len)) [
            | inl fits ↦
                let same : decoded ≡ key = cc (rw fits at h₁) in
                (key, e ∙ ap ok same, rw (sym same) ((==_iff _ _).0 fits), rw (load_by, made) at h)
            | inr wrong ↦ absurd (cc (rw wrong at h₁))
          ]
      with_key (err e) made = absurd (cc (rw (load_by, made) at h))
      with_key panic made = absurd (cc (rw (load_by, made) at h))

  daily_screen-unlocked :
      (n : Option Notice) (b : Bool) (r : Result A) (a : A)
      → daily_screen base64 load_with_device (locked_totp_daily n b) r ≡ unlocked a
      → r ≡ ok a
  daily_screen-unlocked n b (ok opened) a h = cc
  daily_screen-unlocked n b panic a h = cc
  daily_screen-unlocked n b (err e) a h = absurd (failed n b e (failure_of e) a h)
    where
      failed :
          (n : Option Notice) (b : Bool) (e : AppError) (f : LoadFailure) (a : A)
          → (elim f [
            | contended ↦
                not_retryable (set_totp_daily_error vault_in_use_now (locked_totp_daily n b))
            | newer_schema ↦ schema_refused
            | other ↦ set_totp_daily_error (save_error e) (locked_totp_daily n b)
          ])
            ≢ unlocked a
      failed n b e contended a = λ h. cc
      failed n b e newer_schema a = λ h. cc
      failed n b e other a = λ h. cc

  on_check-Opened :
      (auth : Authenticator) (secret code : Bytes) (state : DeviceState) (app : App W A)
      (n : Option Notice) (b : Bool) (v : CodeCheck) (a : A)
      → app.stored ≡ some state
      → state.totp_secret ≡ some secret
      → app.screen ≡ locked_totp_daily n b
      → check_code auth secret code state.replay_step ≡ v
      → (on_check base64 load_with_device no_faults state v app).screen ≡ unlocked a
      → Opened auth code app (on_check base64 load_with_device no_faults state v app) a
  unfolding Opened write_device accept_step load_by device_key
  on_check-Opened auth secret code state app n b (accepted step) a e s l c h = (
    state,
    secret,
    step,
    e,
    s,
    c,
    refl,
    load_by-Loaded state app.world a (daily_screen-unlocked n b _ a (rw l at h)),
  )
  on_check-Opened auth secret code state app n b replayed a e s l c h = cc
  on_check-Opened auth secret code state app n b invalid a e s l c h =
      elim (Bool-cases
        (leb max_totp_failures (one_more_failure base64 load_with_device state).failed_attempts)) [
          | inl many ↦ absurd (cc (rw many at h))
          | inr few ↦ absurd (cc (rw l at (rw few at h)))
        ]

  with_secret-Opened :
      (auth : Authenticator) (code : Bytes) (state : DeviceState) (o : Option Bytes) (app : App W A)
      (n : Option Notice) (b : Bool) (a : A)
      → app.stored ≡ some state
      → state.totp_secret ≡ o
      → app.screen ≡ locked_totp_daily n b
      → (with_secret base64 load_with_device no_faults auth code state o app).screen ≡ unlocked a
      → Opened auth code app (with_secret base64 load_with_device no_faults auth code state o app) a
  with_secret-Opened auth code state none app n b a e s l h = absurd (cc)
  with_secret-Opened auth code state (some secret) app n b a e s l h =
      on_check-Opened auth secret code state app n b (check_code auth secret code state.replay_step)
        a e s l refl h

  with_device-Opened :
      (auth : Authenticator) (code : Bytes) (o : Option DeviceState) (app : App W A)
      (n : Option Notice) (b : Bool) (a : A)
      → app.stored ≡ o
      → app.screen ≡ locked_totp_daily n b
      → (with_device base64 load_with_device no_faults auth code (ok o) app).screen ≡ unlocked a
      → Opened auth code app (with_device base64 load_with_device no_faults auth code (ok o) app) a
  with_device-Opened auth code none app n b a e l h = absurd (cc)
  with_device-Opened auth code (some state) app n b a e l h =
      with_secret-Opened auth code state state.totp_secret app n b a e refl l h

  -- From the screen that asks for the daily code, and where the credential store works, the vault is
  -- opened only by a code that the check accepts against the stored replay step; the step it was
  -- accepted at is then the replay step of the stored entry, whose count of failures is 0 and whose
  -- other fields are as before, and the vault was loaded with the stored device key.
  pub try_totp_daily_unlock-Opened :
      (auth : Authenticator) (code : Bytes) (app : App W A) (n : Option Notice) (b : Bool) (a : A)
      → app.screen ≡ locked_totp_daily n b
      → (try_totp_daily_unlock base64 load_with_device no_faults auth code app).screen ≡ unlocked a
      → Opened auth code app
          (try_totp_daily_unlock base64 load_with_device no_faults auth code app)
          a
  unfolding try_totp_daily_unlock read_device
  try_totp_daily_unlock-Opened auth code app n b a l h =
      with_device-Opened auth code app.stored app n b a refl l h
