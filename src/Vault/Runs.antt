-- ===== src/Vault/Runs.antt =====
-- src/config/store.rs: the theorems at one vault, made, saved and opened.
use ssh_control.Prelude.{
  ◌≡◌, ◌≢◌, refl, sym, ◌∙◌, Bytes, [], ◌∷◌, some, false, ok, err, replicate, codes, arith,
}
use ssh_control.Errors.{vault_in_use, crypto}
use ssh_control.Vault.Format.{slot_password, slot_device, slot_aad}
use ssh_control.Vault.Crypto.{derive_key, device_kek, encrypt, decrypt}
use ssh_control.Vault.Keyslot.{
  find, wrap_password, unwrap_password, unwrap_device, wrap_under, unwrap_under,
}
use ssh_control.Vault.Lock.{acquire, would_block}
use ssh_control.Vault.Disk.{write_file_atomic}
use ssh_control.Vault.Store.{
  World, Env, Unlocked, claim, put_file, write, save, init, init_slots, load, load_with_device,
}
use ssh_control.Vault.Store.Atomic.{load_unfinished, load_with_device-Reads}
use ssh_control.Vault.Store.Opens.{load-init, load-save, load_with_device-save}
use ssh_control.Vault.Fixtures.{
  toy_crates, toy_crates-IsAead, toy_json, toy_env, empty_world, path, config, master_key,
  password_slot, device_slot, slots, world_of, config-IsWritten, toy_env-Fills, slots-IsRead,
}

-- A lock that is held is held again.
claimed : (claim toy_env (world_of slots)).1 ≡ ok tt
unfolding claim acquire
claimed = refl

abbrev opened : Unlocked Bytes
opened = record { config = config; master_key = master_key; slots = password_slot ∷ [] }

init_run :
    init toy_crates toy_json path toy_env config (codes "secret") empty_world
    ≡ (world_of (password_slot ∷ []), ok opened)
unfolding init init_slots claim acquire write put_file write_file_atomic wrap_password derive_key
    wrap_under encrypt slot_aad
init_run = refl

claimed_again : (claim toy_env (world_of (password_slot ∷ []))).1 ≡ ok tt
unfolding claim acquire
claimed_again = refl

load-init_example :
    (load toy_crates toy_json path toy_env (codes "secret") (world_of (password_slot ∷ []))).1
    ≡ ok opened
load-init_example =
    load-init toy_crates toy_json path toy_crates-IsAead toy_env toy_env config (codes "secret")
      empty_world (world_of (password_slot ∷ [])) opened config-IsWritten toy_env-Fills init_run
      claimed_again refl

save_run :
    save toy_crates toy_json path toy_env config master_key slots (world_of (password_slot ∷ []))
    ≡ (world_of slots, ok tt)
unfolding save write put_file write_file_atomic encrypt
save_run = refl

found_password : find slots slot_password ≡ some password_slot
unfolding find
found_password = refl

found_device : find slots slot_device ≡ some device_slot
unfolding find
found_device = refl

password_opens : unwrap_password toy_crates password_slot (codes "secret") ≡ ok master_key
unfolding unwrap_password derive_key unwrap_under decrypt
password_opens = refl

device_opens : unwrap_device toy_crates device_slot (replicate 32 5) ≡ ok master_key
unfolding unwrap_device device_kek unwrap_under decrypt
device_opens = refl

load-save_example :
    (load toy_crates toy_json path toy_env (codes "secret") (world_of slots)).1
    ≡ ok (record { config = config; master_key = master_key; slots = slots })
load-save_example =
    load-save toy_crates toy_json path toy_crates-IsAead toy_env toy_env config master_key slots
      (world_of (password_slot ∷ [])) (world_of slots) config-IsWritten slots-IsRead (omega arith)
      toy_env-Fills.nonce save_run claimed refl password_slot (codes "secret") found_password
      password_opens

load_with_device-save_example :
    (load_with_device toy_crates toy_json path toy_env (replicate 32 5) (world_of slots)).1
    ≡ ok (record { config = config; master_key = master_key; slots = slots })
load_with_device-save_example =
    load_with_device-save toy_crates toy_json path toy_crates-IsAead toy_env toy_env config
      master_key slots (world_of (password_slot ∷ [])) (world_of slots) config-IsWritten
      slots-IsRead (omega arith) toy_env-Fills.nonce save_run claimed refl device_slot
      (replicate 32 5) found_device device_opens

load_with_device-Reads_example :
    (load_with_device toy_crates toy_json path toy_env
      (replicate 32 5)
      (world_of slots)).0.disk.vault
    ≡ (world_of slots).disk.vault
load_with_device-Reads_example =
    load_with_device-Reads toy_crates toy_json path toy_env (replicate 32 5) (world_of slots)

-- Another instance has the vault.
abbrev busy_env : Env
busy_env = record toy_env { flock = would_block }

abbrev unclaimed : World
unclaimed = record (world_of slots) { lock = record { held = false } }

load_run : (load toy_crates toy_json path busy_env (codes "secret") unclaimed).1 ≡ err vault_in_use
unfolding load claim acquire
load_run = refl

load_fails :
    (u : Unlocked Bytes)
    → (load toy_crates toy_json path busy_env (codes "secret") unclaimed).1 ≢ ok u
load_fails u = λ h. let e : err vault_in_use ≡ ok u = sym load_run ∙ h in cc

load_unfinished_example :
    (load toy_crates toy_json path busy_env (codes "secret") unclaimed).0.disk.vault
    ≡ unclaimed.disk.vault
load_unfinished_example =
    load_unfinished toy_crates toy_json path busy_env (codes "secret") unclaimed load_fails

init_run_empty :
    (init_slots toy_crates toy_json path toy_env config (λ mk. ok []) unclaimed).1
    ≡ err (crypto (codes "refusing to write a vault with no key slots"))
unfolding init_slots claim acquire write
init_run_empty = refl

init_fails :
    (u : Unlocked Bytes)
    → (init_slots toy_crates toy_json path toy_env config (λ mk. ok []) unclaimed).1 ≢ ok u
init_fails u = λ h.
    let e : err (crypto (codes "refusing to write a vault with no key slots")) ≡ ok u =
      sym init_run_empty ∙ h in
    cc
