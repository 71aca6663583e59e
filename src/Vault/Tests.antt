-- ===== src/Vault/Tests.antt =====
-- src/config: the theorems on slots, versions and the atomic write at concrete values.
use ssh_control.Prelude.{
  ◌≡◌, ◌≢◌, refl, Bytes, [], ◌∷◌, ◌++◌, some, none, true, ok, panic, replicate, codes, ◌==◌,
  if◌then◌else◌,
}
use ssh_control.Errors.{other}
use ssh_control.Vault.Format.{Slot, slot_password, slot_device, slot_aad}
use ssh_control.Vault.Crypto.{derive_key, device_kek, encrypt}
use ssh_control.Vault.Keyslot.{find, has, replace, wrap_password, wrap_device, wrap_under}
use ssh_control.Vault.Keyslot.Slots.{replace_lem, Ascending}
use ssh_control.Vault.Disk.{
  Disk, WriteFaults, write_file_atomic, write_file_atomic-all_or_nothing, all_or_nothing,
}
use ssh_control.Vault.Store.{interactive}
use ssh_control.Vault.Fixtures.{toy_crates, no_faults, tag}

abbrev master_key : Bytes
master_key = replicate 32 9

abbrev salt : Bytes
salt = replicate 16 1

abbrev nonce : Bytes
nonce = replicate 12 2

abbrev password_slot : Slot
password_slot = record {
  kind = slot_password;
  kdf_id = 1;
  kdf_params = interactive;
  salt = salt;
  wrap_nonce = nonce;
  wrapped_mk = master_key ++ tag;
}

abbrev device_slot : Slot
device_slot = record password_slot {
  kind = slot_device;
  kdf_id = 2;
  kdf_params = record { m_cost = 0; t_cost = 0; p_cost = 0 };
}

password_wrapped :
    wrap_password toy_crates (ok salt) (ok nonce) (codes "secret") interactive master_key
    ≡ ok password_slot
unfolding wrap_password derive_key wrap_under encrypt slot_aad
password_wrapped = refl

device_wrapped :
    wrap_device toy_crates (ok salt) (ok nonce) (replicate 32 5) master_key ≡ ok device_slot
unfolding wrap_device device_kek wrap_under encrypt slot_aad
device_wrapped = refl

has_password : has (password_slot ∷ []) slot_password ≡ true
unfolding has find
has_password = refl

-- The rename fails.
abbrev no_rename : WriteFaults
no_rename = record no_faults { rename = some other }

abbrev old_file : Disk
old_file = record { vault = some (codes "old"); tmp = none }

write_file_atomic-all_or_nothing_example :
    ((write_file_atomic no_rename (codes "new") old_file).0.vault
      ≡ all_or_nothing
          (write_file_atomic no_rename (codes "new") old_file).1
          (codes "new")
          (some (codes "old")))
    × ((write_file_atomic no_rename (codes "new") old_file).1 ≢ panic)
write_file_atomic-all_or_nothing_example =
    write_file_atomic-all_or_nothing no_rename (codes "new") old_file

replace_lem_example :
    Ascending (replace (device_slot ∷ password_slot ∷ []) slot_device device_slot)
    × (find (replace (device_slot ∷ password_slot ∷ []) slot_device device_slot) slot_password ≡ (
        if slot_device == slot_password
        then some device_slot
        else find (device_slot ∷ password_slot ∷ []) slot_password))
replace_lem_example =
    replace_lem (device_slot ∷ password_slot ∷ []) slot_device slot_password device_slot refl
