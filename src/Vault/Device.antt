-- ===== src/Vault/Device.antt =====
-- src/config/device.rs: what one machine keeps about a vault in the credential store of its system.
-- The clock, the random bytes and the base64 crate are arguments.
use ssh_control.Prelude.{
  ℕ, ◌-◌, ◌*◌, Bytes, length, Bool, true, false, ◌&&◌, ltb, leb, ◌==◌, if◌then◌else◌,
}
use ssh_control.Prelude.{Option, none, ok, err, codes, ◌>>=◌}
use ssh_control.Errors.{Result, keyring}

abbrev pub device_key_len : ℕ
device_key_len = 32

pub record DeviceState : Type 0 where
  -- base64 of 32 random bytes
  pub device_key : Bytes
  pub totp_secret : Option Bytes
  pub replay_step : ℕ
  pub failed_attempts : ℕ
  pub last_password_check_unix : ℕ

-- The crate base64; a failed decoding carries its text.
pub record Base64 : Type 0 where
  pub encode : Bytes → Bytes
  pub decode : Bytes → Result Bytes

unfoldable pub new : Base64 → Result Bytes → ℕ → Result DeviceState
new base64 random now_unix = do
  raw ← random
  ok (record {
    device_key = base64.encode raw;
    totp_secret = none;
    replay_step = 0;
    failed_attempts = 0;
    last_password_check_unix = now_unix;
  })

unfoldable pub device_key : Base64 → DeviceState → Result Bytes
device_key base64 state = do
  decoded ← base64.decode state.device_key
  if length decoded == device_key_len
      then ok decoded
      else err (keyring (codes "device key has the wrong length"))

unfoldable pub record_password_check : ℕ → DeviceState → DeviceState
record_password_check now_unix state = record state {
  last_password_check_unix = now_unix;
  failed_attempts = 0;
}

-- A subtraction on ℕ stops at 0, as `saturating_sub` does.
unfoldable pub must_escalate : ℕ → DeviceState → ℕ → ℕ → Bool
must_escalate now_unix state max_failed max_age_days =
    if ltb 0 max_failed && leb max_failed state.failed_attempts
    then true
    else if ltb 0 max_age_days
    then (let age = now_unix - state.last_password_check_unix in
        if ltb (max_age_days * 86_400) age then true else false)
    else false
