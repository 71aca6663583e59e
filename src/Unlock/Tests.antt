-- ===== src/Unlock/Tests.antt =====
-- src/app.rs: the theorems on the daily code at one device.
use ssh_control.Prelude.{
  ℕ, ◌+◌, ◌/◌, ◌%◌, ◌≤◌, ◌≡◌, refl, Bytes, [], ◌∷◌, true, some, none, ok, codes, replicate,
}
use ssh_control.Errors.{Result, keyring}
use ssh_control.Totp.{Authenticator, check_code, check_steps, codes_match, difference}
use ssh_control.Vault.Device.{DeviceState, Base64, device_key}
use ssh_control.Unlock.{
  KeyringFaults, App, locked_totp_daily, unlocked, try_totp_daily_unlock, read_device, load_by,
  accept_step,
}
use ssh_control.Unlock.Start.{device_backed_initial_state-unlocked}
use ssh_control.Vault.Store.{device_and_password}
use ssh_control.Unlock.{device_backed_initial_state}
use ssh_control.Vault.Device.{must_escalate}
use ssh_control.Unlock.Daily.{
  no_faults, replay_step_of, Opened, try_totp_daily_unlock-replay_step,
  try_totp_daily_unlock-Opened,
}

abbrev plain : Base64
plain = record { encode = λ b. b; decode = λ b. ok b }

-- A vault that opens under every key, and whose world is the number of times it was loaded.
abbrev open_vault : Bytes → ℕ → ℕ × Result Bytes
open_vault key n = (n + 1, ok key)

abbrev digit : ℕ → Bytes
digit t = (48 + (t / 30) % 10) ∷ []

abbrev at_1000 : Authenticator
at_1000 = record { build = λ secret. some digit; now = some 1000 }

abbrev enrolled : DeviceState
enrolled = record {
  device_key = replicate 32 7;
  totp_secret = some (codes "S");
  replay_step = 31;
  failed_attempts = 2;
  last_password_check_unix = 0;
}

abbrev waiting : App ℕ Bytes
waiting = record { stored = some enrolled; screen = locked_totp_daily none true; world = 0 }

opens :
    (try_totp_daily_unlock plain open_vault no_faults at_1000 (codes "3") waiting).screen
    ≡ unlocked (replicate 32 7)
unfolding try_totp_daily_unlock read_device check_code check_steps codes_match difference load_by
    accept_step device_key
opens = refl

try_totp_daily_unlock-replay_step_example :
    replay_step_of waiting.stored
    ≤ replay_step_of
        (try_totp_daily_unlock plain open_vault no_faults at_1000 (codes "3") waiting).stored
try_totp_daily_unlock-replay_step_example =
    try_totp_daily_unlock-replay_step plain open_vault at_1000 (codes "3") waiting

try_totp_daily_unlock-Opened_example :
    Opened plain open_vault at_1000
      (codes "3")
      waiting
      (try_totp_daily_unlock plain open_vault no_faults at_1000 (codes "3") waiting)
      (replicate 32 7)
try_totp_daily_unlock-Opened_example =
    try_totp_daily_unlock-Opened plain open_vault at_1000 (codes "3") waiting none true
      (replicate 32 7) refl opens

abbrev read_only : KeyringFaults
read_only = record no_faults { write = some (keyring (codes "locked")) }

-- The vault is open, and the same code would open it again.
opens_unrecorded :
    let app = try_totp_daily_unlock plain open_vault read_only at_1000 (codes "3") waiting in
    (app.screen ≡ unlocked (replicate 32 7)) × (app.stored ≡ waiting.stored)
unfolding try_totp_daily_unlock read_device check_code check_steps codes_match difference load_by
    accept_step device_key ssh_control.Unlock.write_device
opens_unrecorded = (refl, refl)

-- A device with no TOTP secret opens its vault silently; with one it is asked for a code.
abbrev silent : DeviceState
silent = record enrolled { totp_secret = none }

opens_silently :
    (device_backed_initial_state plain open_vault no_faults 5 device_and_password (some silent) 0).1
    ≡ unlocked (replicate 32 7)
unfolding device_backed_initial_state read_device load_by device_key
opens_silently = refl

asks_for_code :
    (device_backed_initial_state plain open_vault no_faults 5 device_and_password
      (some enrolled)
      0).1
    ≡ locked_totp_daily none true
unfolding device_backed_initial_state read_device must_escalate
asks_for_code = refl

device_backed_initial_state-unlocked_example :
    (state : DeviceState) × (some silent ≡ some state)
    × (state.totp_secret ≡ none)
    × ((load_by plain open_vault state 0).1 ≡ ok (replicate 32 7))
device_backed_initial_state-unlocked_example =
    device_backed_initial_state-unlocked plain open_vault no_faults 5 device_and_password
      (some silent) 0 (replicate 32 7) opens_silently
