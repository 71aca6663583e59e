-- ===== src/Unlock.antt =====
-- src/app.rs: how a vault of a device is opened at the start, and the screen that asks for the daily
-- code. What lies beyond is an argument: the credential store's failures, the clock, and the vault
-- store, of which the two handlers call `load_with_device`.
pub mod Daily
pub mod Start
pub mod Passwords
pub mod Creation
pub mod Enrolment
pub mod Conversion
pub mod Settings
mod Tests
use ssh_control.Prelude.{
  ℕ, ◌+◌, ◌≡◌, Bytes, Bool, true, false, ◌&&◌, leb, Option, some, none, Outcome, ok, err, panic,
  if◌then◌else◌, min, ◌>>=◌,
}
use ssh_control.Errors.{Result, AppError, vault_in_use, schema_too_new}
use ssh_control.Totp.{CodeCheck, accepted, replayed, invalid, Authenticator, check_code}
use ssh_control.Vault.Device.{DeviceState, Base64, device_key, must_escalate}
use ssh_control.Vault.Store.{VaultShape, device_and_password}

abbrev pub max_totp_failures : ℕ
max_totp_failures = 5

abbrev pub password_check_days : ℕ
password_check_days = 30

-- The texts shown on the lock screens.
pub data Notice : Type 0 where
  device_not_enrolled password_required_now totp_replayed totp_too_many_failures : Notice
  totp_invalid_code vault_in_use_now : Notice
  save_error plain_error : AppError → Notice

pub data Screen (A : Type 0) : Type 0 where
  locked : Notice → Screen A
  -- the notice, and whether another code can help
  locked_totp_daily : Option Notice → Bool → Screen A
  unopenable cannot_open schema_refused : Screen A
  unlocked : A → Screen A
  crashed : Screen A

-- What the credential store does in one handler: `none` is a call that works.
pub record KeyringFaults : Type 0 where
  pub open_store : Option AppError
  pub read : Option AppError
  pub write : Option AppError
  pub delete : Option AppError

-- The entry of this vault in the credential store, the screen, and the world of the vault store.
pub record App (W A : Type 0) : Type 0 where
  pub stored : Option DeviceState
  pub screen : Screen A
  pub world : W

-- `device_store().and_then(|d| d.read())`
unfoldable pub read_device : KeyringFaults → Option DeviceState → Result (Option DeviceState)
read_device faults stored = elim faults.open_store [
  | some e ↦ err e
  | none ↦ elim faults.read [ some e ↦ err e | none ↦ ok stored ]
]

-- `let _ = device_store.write(&state)`: a failed write leaves the entry as it was.
unfoldable pub write_device : KeyringFaults → DeviceState → Option DeviceState → Option DeviceState
write_device faults state stored = elim faults.write [ some e ↦ stored | none ↦ some state ]

abbrev pub set_totp_daily_error : {A : Type 0} → Notice → Screen A → Screen A
set_totp_daily_error notice (locked_totp_daily error retryable) =
    locked_totp_daily (some notice) retryable
set_totp_daily_error notice screen = screen

abbrev pub not_retryable : {A : Type 0} → Screen A → Screen A
not_retryable (locked_totp_daily error retryable) = locked_totp_daily error false
not_retryable screen = screen

-- The two failures of a load that no other credential would mend, and the rest.
pub data LoadFailure : Type 0 where
  contended newer_schema other : LoadFailure

unfoldable pub failure_of : AppError → LoadFailure
failure_of vault_in_use = contended
failure_of (schema_too_new found supported) = newer_schema
failure_of _ = other

module _ {W A : Type 0} (base64 : Base64) (load_with_device : Bytes → W → W × Result A) where
  -- `state.device_key().and_then(|key| self.store.load_with_device(&key))`
  unfoldable pub load_by : DeviceState → W → W × Result A
  load_by state w = elim (device_key base64 state) [
    | ok key ↦ load_with_device key w
    | err e ↦ (w, err e)
    | panic ↦ (w, panic)
  ]

  -- The screen after a code was accepted.
  abbrev pub daily_screen : Screen A → Result A → Screen A
  daily_screen screen (ok opened) = unlocked opened
  daily_screen screen (err e) = elim (failure_of e) [
    | contended ↦ not_retryable (set_totp_daily_error vault_in_use_now screen)
    | newer_schema ↦ schema_refused
    | other ↦ set_totp_daily_error (save_error e) screen
  ]
  daily_screen screen panic = crashed

  -- `saturating_add(1)` on u32
  unfoldable pub one_more_failure : DeviceState → DeviceState
  one_more_failure state = record state {
    failed_attempts = min 4294967295 (state.failed_attempts + 1);
  }

  unfoldable pub accept_step : ℕ → DeviceState → DeviceState
  accept_step step state = record state { replay_step = step; failed_attempts = 0 }

  -- The three answers to a code.
  abbrev pub on_check : KeyringFaults → DeviceState → CodeCheck → App W A → App W A
  on_check faults state (accepted step) app =
      let state' = accept_step step state in
      let (world, loaded) = load_by state' app.world in
      record {
        stored = write_device faults state' app.stored;
        screen = daily_screen app.screen loaded;
        world = world;
      }
  on_check faults state replayed app = record app {
    stored = write_device faults (one_more_failure state) app.stored;
    screen = locked totp_replayed;
  }
  on_check faults state invalid app =
      let state' = one_more_failure state in
      record app {
        stored = write_device faults state' app.stored;
        screen =
            if leb max_totp_failures state'.failed_attempts
            then locked totp_too_many_failures
            else set_totp_daily_error totp_invalid_code app.screen;
      }

  abbrev pub with_secret :
      KeyringFaults → Authenticator → Bytes → DeviceState → Option Bytes → App W A → App W A
  with_secret faults auth code state none app = record app { screen = locked device_not_enrolled }
  with_secret faults auth code state (some secret) app =
      on_check faults state (check_code auth secret code state.replay_step) app

  abbrev pub with_device :
      KeyringFaults → Authenticator → Bytes → Result (Option DeviceState) → App W A → App W A
  with_device faults auth code (ok (some state)) app =
      with_secret faults auth code state state.totp_secret app
  with_device faults auth code _ app = record app { screen = locked device_not_enrolled }

  unfoldable pub try_totp_daily_unlock : KeyringFaults → Authenticator → Bytes → App W A → App W A
  try_totp_daily_unlock faults auth code app =
      with_device faults auth code (read_device faults app.stored) app

  -- The screen at the start, of a vault that has a device slot.
  abbrev pub device_screen : Bool → Result A → Screen A
  device_screen has_password (ok opened) = unlocked opened
  device_screen has_password (err e) = elim (failure_of e) [
    | contended ↦ cannot_open
    | newer_schema ↦ schema_refused
    | other ↦ if has_password then locked (save_error e) else unopenable
  ]
  device_screen has_password panic = crashed

  abbrev pub enrolled_state : ℕ → Bool → DeviceState → Option Bytes → W → W × Screen A
  enrolled_state now_unix has_password state none w =
      let (w', loaded) = load_by state w in (w', device_screen has_password loaded)
  enrolled_state now_unix has_password state (some secret) w =
      if has_password && must_escalate now_unix state max_totp_failures password_check_days
      then (w, locked password_required_now)
      else (w, locked_totp_daily none true)

  abbrev pub found_state : ℕ → Bool → Result (Option DeviceState) → W → W × Screen A
  found_state now_unix has_password (ok (some state)) w =
      enrolled_state now_unix has_password state state.totp_secret w
  found_state now_unix has_password _ w =
      (w, if has_password then locked device_not_enrolled else unopenable)

  abbrev pub is_device_and_password : VaultShape → Bool
  is_device_and_password device_and_password = true
  is_device_and_password _ = false

  unfoldable pub device_backed_initial_state :
      KeyringFaults → ℕ → VaultShape → Option DeviceState → W → W × Screen A
  device_backed_initial_state faults now_unix shape stored w =
      found_state now_unix (is_device_and_password shape) (read_device faults stored) w
