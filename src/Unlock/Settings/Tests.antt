-- ===== src/Unlock/Settings/Tests.antt =====
-- src/app.rs: the settings at one vault: a new password, and a change of mode that fails.
use ssh_control.Prelude.{◌≡◌, refl, Bytes, [], ◌∷◌, some, none, ok, replicate, codes, arith}
use ssh_control.Errors.{io, other}
use ssh_control.Vault.Format.{slot_aad}
use ssh_control.Vault.Crypto.{derive_key, device_kek, encrypt, decrypt}
use ssh_control.Vault.Keyslot.{
  find, replace, wrap_password, unwrap_password, wrap_device, wrap_under, unwrap_under,
}
use ssh_control.Vault.Lock.{acquire}
use ssh_control.Vault.Disk.{write_file_atomic}
use ssh_control.Vault.Device.{DeviceState, Base64, new, device_key}
use ssh_control.Vault.Store.{Env, claim, load, save, write, put_file}
use ssh_control.Vault.Fixtures.{
  toy_crates, toy_crates-IsAead, toy_json, toy_env, no_faults, path, config, master_key,
  device_slot, slots, world_of, config-IsWritten, slots-IsRead, toy_env-Fills,
}
use ssh_control.Unlock.Daily
use ssh_control.Unlock.Passwords.{totp_daily, Draws, open_and_delete, open_and_write, delete_device}
use ssh_control.Unlock.Creation.{device_part}
use ssh_control.Unlock.Enrolment.{IsOpened}
use ssh_control.Unlock.Settings.{
  Session, nothing_shown, password_changed, failed_with, wrong_password, password_saved,
  replace_password, change_master_password, Secrets, mode_password, mode_device, mode_slots,
  mode_saved, with_slots, change_security_mode,
}
use ssh_control.Unlock.Settings.NewPassword.{change_master_password-load}

abbrev session : Session Bytes
session = record {
  stored = none;
  world = world_of slots;
  vault = record { config = config; master_key = master_key; slots = slots };
  message = nothing_shown;
}

session-IsOpened : IsOpened toy_json session.vault
session-IsOpened = record {
  written = config-IsWritten;
  slots = slots-IsRead;
  few = omega arith;
  master_key = omega arith;
}

abbrev changed : Session Bytes
changed =
    (change_master_password toy_crates toy_json path toy_env (codes "secret") (codes "new")
      session).0

shows_success : changed.message ≡ password_changed
unfolding change_master_password wrong_password replace_password password_saved find unwrap_password
    derive_key unwrap_under decrypt wrap_password wrap_under encrypt slot_aad save write put_file
    write_file_atomic replace
shows_success = refl

claimed : (claim toy_env changed.world).1 ≡ ok tt
unfolding change_master_password wrong_password replace_password password_saved find unwrap_password
    derive_key unwrap_under decrypt wrap_password wrap_under encrypt slot_aad save write put_file
    write_file_atomic replace claim acquire
claimed = refl

change_master_password-load_example :
    (load toy_crates toy_json path toy_env (codes "new") changed.world).1 ≡ ok changed.vault
change_master_password-load_example =
    change_master_password-load toy_crates toy_json path toy_crates-IsAead toy_env toy_env session
      (codes "secret") (codes "new") toy_env-Fills refl session-IsOpened refl shows_success claimed

abbrev plain : Base64
plain = record { encode = λ b. b; decode = λ b. ok b }

abbrev no_secrets : Secrets Bytes
no_secrets = record { totp = λ config. none; with_totp = λ secret config. config }

abbrev draws : Draws
draws = record {
  raw = ok (replicate 32 7);
  salt = ok (replicate 16 1);
  wrap_nonce = ok (replicate 12 2);
}

-- The disk does not take the new vault.
abbrev full_disk : Env
full_disk = record toy_env { write = record no_faults { write_all = some (other, []) } }

abbrev entry : DeviceState
entry = record {
  device_key = replicate 32 5;
  totp_secret = none;
  replay_step = 0;
  failed_attempts = 0;
  last_password_check_unix = 9;
}

-- A vault that only the key of this device opens.
abbrev by_device_only : Session Bytes
by_device_only = record {
  stored = some entry;
  world = world_of (device_slot ∷ []);
  vault = record { config = config; master_key = master_key; slots = device_slot ∷ [] };
  message = nothing_shown;
}

abbrev after : Session Bytes
after =
    change_security_mode toy_crates toy_json path plain no_secrets Daily.no_faults full_disk draws 9
      totp_daily (some (codes "new")) (some (codes "S")) by_device_only

-- A change of mode that fails: the vault on the disk is the one before, with its device slot alone,
-- while the entry that held its key was overwritten and then deleted.
key_destroyed :
    (after.message ≡ failed_with (io other))
    × ((after.world.disk.vault ≡ by_device_only.world.disk.vault) × (after.stored ≡ none))
unfolding change_security_mode mode_slots mode_password mode_device with_slots mode_saved
    wrap_password wrap_device wrap_under derive_key device_kek encrypt slot_aad new device_key
    open_and_write open_and_delete delete_device device_part save write put_file write_file_atomic
key_destroyed = (refl, (refl, refl))
