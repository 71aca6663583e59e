-- ===== src/Unlock/Start.antt =====
-- src/app.rs: what opens at the start of a vault with a device slot.
use ssh_control.Prelude.{
  ℕ, ◌≡◌, ◌≢◌, refl, Bytes, Bool, true, false, ◌&&◌, Option, some, none, ok, err, panic, ◌⊎◌,
  Option-cases, Bool-cases, inl, inr, if◌then◌else◌,
}
use ssh_control.Errors.{Result, AppError}
use ssh_control.Vault.Device.{DeviceState, Base64, must_escalate}
use ssh_control.Vault.Store.{VaultShape}
use ssh_control.Unlock.{
  unlocked, locked, unopenable, cannot_open, schema_refused, save_error, KeyringFaults, LoadFailure,
  contended, newer_schema, other, failure_of, read_device, load_by, device_screen, enrolled_state,
  found_state, is_device_and_password, device_backed_initial_state, max_totp_failures,
  password_check_days,
}

failed :
    {A : Type 0} (has_password : Bool) (e : AppError) (f : LoadFailure) (a : A)
    → (elim f [
      | contended ↦ cannot_open
      | newer_schema ↦ schema_refused
      | other ↦ if has_password then locked (save_error e) else unopenable
    ])
      ≢ unlocked a
failed has_password e contended a = λ h. cc
failed has_password e newer_schema a = λ h. cc
failed true e other a = λ h. cc
failed false e other a = λ h. cc

-- The credential store answers with the entry or with an error.
read_device-cases :
    (faults : KeyringFaults) (stored : Option DeviceState)
    → (read_device faults stored ≡ ok stored)
      ⊎ ((e : AppError) × (read_device faults stored ≡ err e))
unfolding read_device
read_device-cases faults stored = elim (Option-cases faults.open_store) [
  | inr (e, h) ↦ inr (e, rw (h, read_device) refl)
  | inl opens ↦ elim (Option-cases faults.read) [
    | inr (e, h) ↦ inr (e, rw (opens, read_device) (rw (h, read_device) refl))
    | inl reads ↦ inl (rw (opens, read_device) (rw (reads, read_device) refl))
  ]
]

module _ {W A : Type 0} (base64 : Base64) (load_with_device : Bytes → W → W × Result A) where
  device_screen-unlocked :
      (has_password : Bool) (r : Result A) (a : A)
      → device_screen base64 load_with_device has_password r ≡ unlocked a
      → r ≡ ok a
  device_screen-unlocked has_password (ok opened) a h = cc
  device_screen-unlocked has_password (err e) a h =
      absurd (failed has_password e (failure_of e) a h)
  device_screen-unlocked has_password panic a h = cc

  abbrev OpensBy : Option DeviceState → W → A → Type 0
  OpensBy stored w a =
      (state : DeviceState) × (stored ≡ some state)
      × (state.totp_secret ≡ none)
      × ((load_by base64 load_with_device state w).1 ≡ ok a)

  enrolled_state-unlocked :
      (now_unix : ℕ) (has_password : Bool) (state : DeviceState) (o : Option Bytes) (w : W) (a : A)
      → state.totp_secret ≡ o
      → (enrolled_state base64 load_with_device now_unix has_password state o w).1 ≡ unlocked a
      → OpensBy (some state) w a
  enrolled_state-unlocked now_unix has_password state none w a s h =
      (state, refl, s, device_screen-unlocked has_password _ a h)
  enrolled_state-unlocked now_unix has_password state (some secret) w a s h =
      elim (Bool-cases
        (has_password && must_escalate now_unix state max_totp_failures password_check_days)) [
          | inl stale ↦ absurd (cc (rw stale at h))
          | inr fresh ↦ absurd (cc (rw fresh at h))
        ]

  found_state-unlocked :
      (now_unix : ℕ) (has_password : Bool) (o : Option DeviceState) (w : W) (a : A)
      → (found_state base64 load_with_device now_unix has_password (ok o) w).1 ≡ unlocked a
      → OpensBy o w a
  found_state-unlocked now_unix has_password (some state) w a h =
      enrolled_state-unlocked now_unix has_password state state.totp_secret w a refl h
  found_state-unlocked now_unix true none w a h = absurd (cc)
  found_state-unlocked now_unix false none w a h = absurd (cc)

  not_read :
      (now_unix : ℕ) (has_password : Bool) (e : AppError) (w : W) (a : A)
      → (found_state base64 load_with_device now_unix has_password (err e) w).1 ≢ unlocked a
  not_read now_unix true e w a = λ h. cc
  not_read now_unix false e w a = λ h. cc

  -- At the start a vault opens without any prompt only where this device is enrolled and its entry
  -- holds no TOTP secret, and then by the key of that entry: a device in the mode of the daily code is
  -- always asked for something.
  pub device_backed_initial_state-unlocked :
      (faults : KeyringFaults) (now_unix : ℕ) (shape : VaultShape) (stored : Option DeviceState)
      (w : W) (a : A)
      → (device_backed_initial_state base64 load_with_device faults now_unix shape stored w).1
        ≡ unlocked a
      → (state : DeviceState) × (stored ≡ some state)
        × (state.totp_secret ≡ none)
        × ((load_by base64 load_with_device state w).1 ≡ ok a)
  unfolding device_backed_initial_state
  device_backed_initial_state-unlocked faults now_unix shape stored w a h =
      elim (read_device-cases faults stored) [
        | inl e ↦
            found_state-unlocked now_unix (is_device_and_password base64 load_with_device shape)
              stored w a (rw e at h)
        | inr (x, e) ↦ absurd (
            not_read now_unix (is_device_and_password base64 load_with_device shape) x w a
              (rw e at h))
      ]
