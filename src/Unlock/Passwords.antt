-- ===== src/Unlock/Passwords.antt =====
-- src/app.rs: the screen at the start, the password screen, and what a password unlock and a new vault
-- do to the entry of this device. The vault store is that of Vault/Store.
use ssh_control.Prelude.{
  Bytes, List, Bool, true, false, Option, some, none, ok, err, panic, if◌then◌else◌, ◌>>=◌, ℕ,
}
use ssh_control.Errors.{Result, AppError}
use ssh_control.Vault.Format.{KdfParams, Slot, slot_device}
use ssh_control.Vault.Crypto.{Crates}
use ssh_control.Vault.Keyslot.{has, replace, wrap_device}
use ssh_control.Vault.Migrate.{Serde}
use ssh_control.Vault.Device.{DeviceState, Base64, new, device_key, record_password_check}
use ssh_control.Vault.Store.{
  World, Env, Unlocked, VaultShape, password, init, load, load_with_device, save, peek_shape,
}
use ssh_control.Unlock.{
  Screen, KeyringFaults, Notice, save_error, plain_error, vault_in_use_now, contended, newer_schema,
  other, failure_of, read_device, write_device, device_backed_initial_state,
}

abbrev pub recovery : KdfParams
recovery = record { m_cost = 262_144; t_cost = 4; p_cost = 1 }

pub data AuthMode : Type 0 where
  none_mode password_only password_totp totp_daily : AuthMode

-- The TOTP secret that a config may hold.
pub record Totps (Config : Type 0) : Type 0 where
  pub totp : Config → Option Bytes
  pub set_totp : Bytes → Config → Config

-- The draws of random bytes for one enrolment of this device.
pub record Draws : Type 0 where
  pub raw : Result Bytes
  pub salt : Result Bytes
  pub wrap_nonce : Result Bytes

-- What is on the screen; of the lock screen, the notice and whether another try can help.
pub data Shown (Config : Type 0) : Type 0 where
  main_menu totp_prompt : Unlocked Config → Shown Config
  lock_screen migrate_screen : Option Notice → Bool → Shown Config
  setup : Option Notice → Shown Config
  by_device : Screen (Unlocked Config) → Shown Config
  newer_schema_screen crashed_screen : Shown Config

-- The entry of this vault in the credential store, the vault store and the screen.
pub record Machine (Config : Type 0) : Type 0 where
  pub stored : Option DeviceState
  pub world : World
  pub shown : Shown Config

abbrev pub notice_of : AppError → Notice
notice_of e = elim (failure_of e) [ contended ↦ vault_in_use_now | _ ↦ save_error e ]

-- `error_text`
abbrev pub error_text : AppError → Notice
error_text e = elim (failure_of e) [ contended ↦ vault_in_use_now | _ ↦ plain_error e ]

abbrev pub set_lock_error : {Config : Type 0} → Notice → Bool → Shown Config → Shown Config
set_lock_error notice retryable (lock_screen error r) = lock_screen (some notice) retryable
set_lock_error notice retryable (migrate_screen error r) = migrate_screen (some notice) retryable
set_lock_error notice retryable shown = shown

-- The error alone, as the other handlers set it.
abbrev pub set_error : {Config : Type 0} → Notice → Shown Config → Shown Config
set_error notice (lock_screen error r) = lock_screen (some notice) r
set_error notice (migrate_screen error r) = migrate_screen (some notice) r
set_error notice shown = shown

abbrev pub set_setup_error : {Config : Type 0} → Notice → Shown Config → Shown Config
set_setup_error notice (setup error) = setup (some notice)
set_setup_error notice shown = shown

-- `DeviceStore::delete`, whose failure is ignored.
unfoldable pub delete_device : KeyringFaults → Option DeviceState → Option DeviceState
delete_device faults stored = elim faults.delete [ some e ↦ stored | none ↦ none ]

-- `if let Ok(store) = self.store.device_store() { store.delete(); }`
unfoldable pub open_and_delete : KeyringFaults → Option DeviceState → Option DeviceState
open_and_delete faults stored = elim faults.open_store [
  | some e ↦ stored
  | none ↦ delete_device faults stored
]

-- `self.store.device_store()?.write(&state)?`
unfoldable pub open_and_write :
    KeyringFaults → DeviceState → Option DeviceState → Option DeviceState × Result (Unit {0})
open_and_write faults state stored = elim faults.open_store [
  | some e ↦ (stored, err e)
  | none ↦ elim faults.write [ some e ↦ (stored, err e) | none ↦ (some state, ok tt) ]
]

module _ {Config Object : Type 0} (c : Crates) (json : Serde Config Object) (path : Bytes)
    (base64 : Base64) (totps : Totps Config) where
  unfoldable pub unlocked_state : Unlocked Config → Shown Config
  unlocked_state u = elim (totps.totp u.config) [ some secret ↦ totp_prompt u | none ↦ main_menu u ]

  unfoldable pub unlocked_state_skipping_totp : Unlocked Config → Shown Config
  unlocked_state_skipping_totp u = main_menu u

  -- A fresh state of this device with the secret of the vault, and the slots that its key opens.
  unfoldable pub new_enrolment : Draws → ℕ → Unlocked Config → Result (DeviceState × List Slot)
  new_enrolment draws now_unix u = do
    fresh ← new base64 draws.raw now_unix
    let state = record fresh { totp_secret = totps.totp u.config }
    key ← device_key base64 state
    slot ← wrap_device c draws.salt draws.wrap_nonce key u.master_key
    ok (state, replace u.slots slot_device slot)

  -- The result of the save that follows the write of the entry: without it the entry goes.
  unfoldable pub keep_or_delete :
      KeyringFaults → DeviceState → World × Result (Unit {0}) → Machine Config → Machine Config
  keep_or_delete faults state (w, err e) m = record m {
    stored = delete_device faults (some state);
    world = w;
  }
  keep_or_delete faults state (w, _) m = record m { stored = some state; world = w }

  unfoldable pub enrol :
      KeyringFaults
      → Env
      → Unlocked Config
      → Result (DeviceState × List Slot)
      → Machine Config
      → Machine Config
  enrol faults env u (ok (state, slots)) m = elim faults.write [
    | some e ↦ m
    | none ↦
        keep_or_delete faults state (save c json path env u.config u.master_key slots m.world) m
  ]
  enrol faults env u _ m = m

  unfoldable pub reconcile_found :
      KeyringFaults
      → Env
      → Draws
      → ℕ
      → Unlocked Config
      → Result (Option DeviceState)
      → Machine Config
      → Machine Config
  reconcile_found faults env draws now_unix u (ok (some state)) m = record m {
    stored = write_device faults (record_password_check now_unix state) m.stored;
  }
  reconcile_found faults env draws now_unix u (ok none) m =
      enrol faults env u (new_enrolment draws now_unix u) m
  reconcile_found faults env draws now_unix u _ m = m

  unfoldable pub reconcile_device_state :
      KeyringFaults → Env → Draws → ℕ → Unlocked Config → Machine Config → Machine Config
  reconcile_device_state faults env draws now_unix u m =
      if has u.slots slot_device
      then reconcile_found faults env draws now_unix u (read_device faults m.stored) m
      else m

  -- The two answers to a password. `env'` is what the system does to the save of a new enrolment.
  unfoldable pub on_loaded :
      KeyringFaults → Env → Draws → ℕ → Result (Unlocked Config) → Machine Config → Machine Config
  on_loaded faults env' draws now_unix (ok u) m =
      record (reconcile_device_state faults env' draws now_unix u m) { shown = unlocked_state u }
  on_loaded faults env' draws now_unix (err e) m = elim (failure_of e) [
    | newer_schema ↦ record m { shown = newer_schema_screen }
    | contended ↦ record m { shown = set_lock_error (error_text e) false m.shown }
    | other ↦ record m { shown = set_lock_error (error_text e) true m.shown }
  ]
  on_loaded faults env' draws now_unix panic m = record m { shown = crashed_screen }

  unfoldable pub try_unlock :
      KeyringFaults
      → Env
      → Env
      → Draws
      → ℕ
      → Config
      → Bytes
      → Bool
      → Machine Config
      → Machine Config
  try_unlock faults env env' draws now_unix default_config typed first_run m =
      let (w, r) =
        (if first_run
          then init c json path env default_config typed m.world
          else load c json path env typed m.world) in
      on_loaded faults env' draws now_unix r (record m { world = w })

  -- The screen at the start. Whether the files exist is what the file system says.
  unfoldable pub by_shape :
      KeyringFaults
      → Env
      → ℕ
      → Option DeviceState
      → World × Result VaultShape
      → World × Shown Config
  by_shape faults env now_unix stored (w, ok password) = (w, lock_screen none true)
  by_shape faults env now_unix stored (w, ok shape) =
      let (w, screen) =
        device_backed_initial_state base64 (λ key. load_with_device c json path env key) faults
          now_unix shape stored w in
      (w, by_device screen)
  by_shape faults env now_unix stored (w, err e) = (w, lock_screen (some (save_error e)) true)
  by_shape faults env now_unix stored (w, panic) = (w, crashed_screen)

  unfoldable pub resolve_initial_state :
      KeyringFaults → Env → ℕ → Bool → Bool → Option DeviceState → World → World × Shown Config
  resolve_initial_state faults env now_unix totp_only_secret_exists exists stored w =
      if totp_only_secret_exists
      then (w, migrate_screen none true)
      else if exists
      then by_shape faults env now_unix stored (peek_shape c json path env w)
      else (w, setup none)
