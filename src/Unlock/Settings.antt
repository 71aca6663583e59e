-- ===== src/Unlock/Settings.antt =====
-- src/app.rs: what the settings screen does to an open vault: a new master password, another mode.
pub mod NewPassword
mod Tests
use ssh_control.Prelude.{
  ℕ, ◌≡◌, Bytes, List, [], ◌∷◌, ◌++◌, Bool, true, false, Option, some, none, ok, err, panic,
  if◌then◌else◌, codes, ◌>>=◌, not,
}
use ssh_control.Errors.{Result, AppError, crypto}
use ssh_control.Vault.Format.{Slot, slot_password}
use ssh_control.Vault.Crypto.{Crates}
use ssh_control.Vault.Keyslot.{find, replace, wrap_password, unwrap_password}
use ssh_control.Vault.Migrate.{Serde}
use ssh_control.Vault.Device.{DeviceState, Base64, new}
use ssh_control.Vault.Store.{World, Env, Unlocked, interactive, save, is_empty}
use ssh_control.Unlock.{KeyringFaults}
use ssh_control.Unlock.Passwords.{
  recovery, AuthMode, none_mode, password_only, password_totp, totp_daily, Totps, Draws,
  open_and_delete, open_and_write,
}
use ssh_control.Unlock.Creation.{wants_device, keeps_secret, device_secret, device_part}

pub data Message : Type 0 where
  nothing_shown current_password_wrong password_changed mode_changed : Message
  failed_with : AppError → Message

-- An open vault with the entry of this device and the vault store.
pub record Session (Config : Type 0) : Type 0 where
  pub stored : Option DeviceState
  pub world : World
  pub vault : Unlocked Config
  pub message : Message

-- `unwrap_password(..).is_err()`
abbrev pub is_err : {A : Type 0} → Result A → Bool
is_err (ok a) = false
is_err _ = true

-- The copy of the TOTP secret that the vault keeps: a new one, the one before, or none.
abbrev pub kept_secret : AuthMode → Option Bytes → Option Bytes → Option Bytes
kept_secret mode (some secret) before = if keeps_secret mode then some secret else none
kept_secret mode none before = if keeps_secret mode then before else none

-- A config with another or no TOTP secret.
pub record Secrets (Config : Type 0) : Type 0 where
  pub totp : Config → Option Bytes
  pub with_totp : Option Bytes → Config → Config

module _ {Config Object : Type 0} (c : Crates) (json : Serde Config Object) (path : Bytes) where
  unfoldable pub wrong_password : List Slot → Bytes → Bool
  wrong_password slots current = elim (find slots slot_password) [
    | some slot ↦ is_err (unwrap_password c slot current)
    | none ↦ true
  ]

  unfoldable pub password_saved :
      List Slot → World × Result (Unit {0}) → Session Config → Session Config
  password_saved slots (w, ok done) s = record s {
    world = w;
    vault = record s.vault { slots = slots };
    message = password_changed;
  }
  password_saved slots (w, err e) s = record s { world = w; message = failed_with e }
  password_saved slots (w, panic) s = record s { world = w }

  unfoldable pub replace_password :
      Env → Result Slot → Session Config → Session Config × Result (Unit {0})
  replace_password env (ok slot) s =
      let slots = replace s.vault.slots slot_password slot in
      (
        password_saved slots (save c json path env s.vault.config s.vault.master_key slots s.world)
            s,
        ok tt,
      )
  replace_password env (err e) s = (s, err e)
  replace_password env panic s = (s, panic)

  unfoldable pub change_master_password :
      Env → Bytes → Bytes → Session Config → Session Config × Result (Unit {0})
  change_master_password env current to s =
      if wrong_password s.vault.slots current
      then (record s { message = current_password_wrong }, ok tt)
      else replace_password env
          (wrap_password c env.salt env.wrap_nonce to interactive s.vault.master_key) s

  module _ (base64 : Base64) (secrets : Secrets Config) where
    -- The password slot of the new mode: a new one, or the one that is there.
    unfoldable pub mode_password : Env → Option Bytes → Unlocked Config → Result (List Slot)
    mode_password env (some typed) u =
        elim (wrap_password c env.salt env.wrap_nonce typed recovery u.master_key) [
          | ok slot ↦ ok (slot ∷ [])
          | err e ↦ err e
          | panic ↦ panic
        ]
    mode_password env none u = elim (find u.slots slot_password) [
      | some slot ↦ ok (slot ∷ [])
      | none ↦ ok []
    ]

    -- This device's entry, written before its slot is made.
    unfoldable pub mode_device :
        KeyringFaults
        → Draws
        → ℕ
        → AuthMode
        → Option Bytes
        → Bytes
        → Option DeviceState
        → Option DeviceState × Result (List Slot)
    mode_device faults draws now_unix mode totp master_key stored =
        if not (wants_device mode) then (stored, ok []) else elim (new base64 draws.raw now_unix) [
          | ok fresh ↦
              let state = record fresh { totp_secret = device_secret mode totp } in
              let (stored, r) = open_and_write faults state stored in
              elim r [
                | ok done ↦ (
                  stored,
                  device_part c json path base64
                      (record {
                        totp = secrets.totp;
                        set_totp = λ secret. secrets.with_totp (some secret);
                      })
                      draws (some state) master_key,
                )
                | err e ↦ (stored, err e)
                | panic ↦ (stored, panic)
              ]
          | err e ↦ (stored, err e)
          | panic ↦ (stored, panic)
        ]

    abbrev pub some_slot : List Slot → Result (List Slot)
    some_slot slots =
        if is_empty slots
        then err (crypto (codes "that mode would leave the vault with no way in"))
        else ok slots

    unfoldable pub mode_slots :
        KeyringFaults
        → Env
        → Draws
        → ℕ
        → AuthMode
        → Option Bytes
        → Option Bytes
        → Session Config
        → Option DeviceState × Result (List Slot)
    mode_slots faults env draws now_unix mode typed totp s =
        elim (mode_password env typed s.vault) [
          | ok first ↦
              let (stored, second) =
                mode_device faults draws now_unix mode totp s.vault.master_key s.stored in
              (stored, second >>= λ second. some_slot (first ++ second))
          | err e ↦ (s.stored, err e)
          | panic ↦ (s.stored, panic)
        ]

    -- What is left of the entry where the change fails, and where it succeeds.
    abbrev pub after_failure : KeyringFaults → AuthMode → Option DeviceState → Option DeviceState
    after_failure faults mode stored =
        if wants_device mode then open_and_delete faults stored else stored

    abbrev pub after_success : KeyringFaults → AuthMode → Option DeviceState → Option DeviceState
    after_success faults mode stored =
        if wants_device mode then stored else open_and_delete faults stored

    unfoldable pub mode_saved :
        KeyringFaults
        → AuthMode
        → Config
        → List Slot
        → World × Result (Unit {0})
        → Session Config
        → Session Config
    mode_saved faults mode config slots (w, ok done) s = record s {
      stored = after_success faults mode s.stored;
      world = w;
      vault = record s.vault { config = config; slots = slots };
      message = mode_changed;
    }
    mode_saved faults mode config slots (w, err e) s = record s {
      stored = after_failure faults mode s.stored;
      world = w;
      message = failed_with e;
    }
    mode_saved faults mode config slots (w, panic) s = record s { world = w }

    unfoldable pub with_slots :
        KeyringFaults
        → Env
        → AuthMode
        → Option Bytes
        → Result (List Slot)
        → Session Config
        → Session Config
    with_slots faults env mode totp (ok slots) s =
        let config = secrets.with_totp totp s.vault.config in
        mode_saved faults mode config slots
          (save c json path env config s.vault.master_key slots s.world) s
    with_slots faults env mode totp (err e) s = record s {
      stored = after_failure faults mode s.stored;
      message = failed_with e;
    }
    with_slots faults env mode totp panic s = s

    unfoldable pub change_security_mode :
        KeyringFaults
        → Env
        → Draws
        → ℕ
        → AuthMode
        → Option Bytes
        → Option Bytes
        → Session Config
        → Session Config
    change_security_mode faults env draws now_unix mode typed totp_secret s =
        let totp = kept_secret mode totp_secret (secrets.totp s.vault.config) in
        let (stored, slots) = mode_slots faults env draws now_unix mode typed totp s in
        with_slots faults env mode totp slots (record s { stored = stored })
