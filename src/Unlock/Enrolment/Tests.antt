-- ===== src/Unlock/Enrolment/Tests.antt =====
-- src/app.rs: a vault that comes to a machine without an entry for it, and what the session does next.
use ssh_control.Prelude.{
  ◌-◌, ◌≡◌, ◌≢◌, refl, ap, Bytes, List, [], ◌∷◌, ◌++◌, length, take, drop, true, some, none, ok,
  err, panic, replicate, bytes_eq, if◌then◌else◌, arith,
}
use ssh_control.Errors.{wrong_password_or_corrupt}
use ssh_control.Vault.Format.{Slot, slot_device, slot_aad}
use ssh_control.Vault.Crypto.{Crates, device_kek, encrypt, decrypt}
use ssh_control.Vault.Keyslot.{
  has, find, replace, wrap_device, wrap_under, unwrap_device, unwrap_under,
}
use ssh_control.Vault.Device.{DeviceState, Base64, new, device_key}
use ssh_control.Vault.Lock.{acquire}
use ssh_control.Vault.Disk.{write_file_atomic}
use ssh_control.Vault.Store.{World, Unlocked, claim, write, put_file, save, load_with_device}
use ssh_control.Vault.Fixtures.{
  toy_crates, toy_crates-IsAead, toy_json, toy_env, path, config, master_key, device_slot, slots,
  world_of, config-IsWritten, slots-IsRead, toy_env-Fills,
}
use ssh_control.Unlock.{load_by, read_device}
use ssh_control.Unlock.Daily.{no_faults}
use ssh_control.Unlock.Passwords.{
  Totps, Draws, Machine, lock_screen, main_menu, on_loaded, unlocked_state, new_enrolment,
  keep_or_delete, enrol, reconcile_found, reconcile_device_state,
}
use ssh_control.Unlock.Enrolment.{Fills, IsOpened, reconcile_device_state-OpensBy}

abbrev plain : Base64
plain = record { encode = λ b. b; decode = λ b. ok b }

abbrev no_totp : Totps Bytes
no_totp = record { totp = λ config. none; set_totp = λ secret config. config }

abbrev draws : Draws
draws = record {
  raw = ok (replicate 32 7);
  salt = ok (replicate 16 1);
  wrap_nonce = ok (replicate 12 2);
}

draws-Fills : Fills draws
draws-Fills = record {
  salt = λ b h. let e : replicate 16 1 ≡ b = cc in omega (arith, ap length e);
  wrap_nonce = λ b h. let e : replicate 12 2 ≡ b = cc in omega (arith, ap length e);
}

abbrev opened : Unlocked Bytes
opened = record { config = config; master_key = master_key; slots = slots }

opened-IsOpened : IsOpened toy_json opened
opened-IsOpened = record {
  written = config-IsWritten;
  slots = slots-IsRead;
  few = omega arith;
  master_key = omega arith;
}

abbrev copied : Machine Bytes
copied = record { stored = none; world = world_of slots; shown = lock_screen none true }

abbrev enrolled_now : DeviceState
enrolled_now = record {
  device_key = replicate 32 7;
  totp_secret = none;
  replay_step = 0;
  failed_attempts = 0;
  last_password_check_unix = 9;
}

has_slot : has slots slot_device ≡ true
unfolding has find
has_slot = refl

never_panics :
    (s : List Slot) (w : World)
    → (save toy_crates toy_json path toy_env config master_key s w).1 ≢ panic
unfolding save write put_file write_file_atomic encrypt
never_panics [] w h = cc
never_panics (s ∷ slots) w h = cc

abbrev after : Machine Bytes
after =
    reconcile_device_state toy_crates toy_json path plain no_totp no_faults toy_env draws 9 opened
      copied

stored_after : after.stored ≡ some enrolled_now
unfolding reconcile_device_state reconcile_found enrol keep_or_delete new_enrolment has find
    read_device new device_key wrap_device wrap_under device_kek encrypt slot_aad save write
    put_file write_file_atomic replace
stored_after = refl

claimed_after : (claim toy_env after.world).1 ≡ ok tt
unfolding reconcile_device_state reconcile_found enrol keep_or_delete new_enrolment has find
    read_device new device_key wrap_device wrap_under device_kek encrypt slot_aad save write
    put_file write_file_atomic claim acquire replace
claimed_after = refl

reconcile_device_state-OpensBy_example :
    (s : List Slot) × ((load_by plain
        (λ key. load_with_device toy_crates toy_json path toy_env key)
        enrolled_now
        after.world).1
      ≡ ok (record { config = config; master_key = master_key; slots = s }))
reconcile_device_state-OpensBy_example =
    reconcile_device_state-OpensBy toy_crates toy_json path plain no_totp toy_crates-IsAead opened
      opened-IsOpened toy_env toy_env no_faults draws 9 copied enrolled_now toy_env-Fills.nonce
      has_slot never_panics refl refl draws-Fills refl stored_after claimed_after

-- A cipher that refuses another key than the one that sealed.
abbrev strict_crates : Crates
strict_crates = record toy_crates {
  seal = λ k n a m. ok (m ++ take 16 k);
  unseal = λ k n a s.
      if bytes_eq (drop (length s - 16) s) (take 16 k) then ok (take (length s - 16) s) else err [];
}

abbrev strict_after : Machine Bytes
strict_after =
    on_loaded strict_crates toy_json path plain no_totp no_faults toy_env draws 9 (ok opened) copied

-- The entry is the one of the fresh key, while the session goes on with the slots of before, and with
-- these its next save puts back the device slot that the key does not open.
old_slot_kept :
    (strict_after.stored ≡ some enrolled_now)
    × ((strict_after.shown ≡ main_menu opened)
        × (unwrap_device strict_crates device_slot (replicate 32 7)
            ≡ err wrong_password_or_corrupt))
unfolding on_loaded unlocked_state reconcile_device_state reconcile_found enrol keep_or_delete
    new_enrolment has find read_device new device_key wrap_device wrap_under device_kek encrypt
    slot_aad save write put_file write_file_atomic replace unwrap_device unwrap_under decrypt
    bytes_eq
old_slot_kept = (refl, (refl, refl))
