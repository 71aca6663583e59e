-- ===== src/Unlock/Conversion/Tests.antt =====
-- src/app.rs: a vault of the retired TOTP-only mode, converted.
use ssh_control.Prelude.{
  ◌≡◌, refl, sym, subst, ◌∙◌, ap, Bytes, [], ◌∷◌, ◌++◌, length, take, Bool, true, false, some, none,
  ok, replicate, codes, arith, index, slice, from_le_bytes32, bytes_eq,
}
use ssh_control.Vault.Format.{
  encode, encode_header, encode_slots, encode_slot, encode_slot_desc, encode_kdf_params, header_aad,
  slot_aad, check_kdf_params,
}
use ssh_control.Vault.Format.Decode.{
  decode_any, decode_v2, decode_slots, decode_slot, read_kdf_params, read_u32, decode_tail,
}
use ssh_control.Vault.Crypto.{derive_key, decrypt, encrypt, device_kek}
use ssh_control.Vault.Keyslot.{
  find, unwrap_password, unwrap_under, wrap_password, wrap_under, wrap_device,
}
use ssh_control.Errors.{Result}
use ssh_control.Vault.Migrate.{Serde, config_from_slice, probed_version}
use ssh_control.Vault.Lock.{acquire}
use ssh_control.Vault.Disk.{write_file_atomic}
use ssh_control.Vault.Store.{Unlocked, load, claim, read_file, decrypt_body, save, write, put_file}
use ssh_control.Vault.Store.Written.{IsReread}
use ssh_control.Vault.Fixtures.{
  toy_crates, toy_crates-IsAead, version_of, rest_of, config, master_key, toy_env, path,
  password_slot, world_of, toy_env-Fills,
}
use ssh_control.Vault.Device.{Base64, new, device_key}
use ssh_control.Unlock.Daily.{no_faults}
use ssh_control.Unlock.Passwords.{Totps, Draws, Machine, migrate_screen, open_and_write}
use ssh_control.Unlock.Creation.{
  migrate_totp_only, converted, convert, password_part, enrol_if, enrol_device, write_entry,
  device_part, store_secret,
}
use ssh_control.Unlock.Enrolment.{Fills}
use ssh_control.Unlock.Conversion.{IsKeptAfter, migrate_totp_only-Opens}

abbrev plain : Base64
plain = record { encode = λ b. b; decode = λ b. ok b }

-- A JSON whose config is its own text and starts with its version.
abbrev versioned_json : Serde Bytes Bytes
versioned_json = record {
  probe = λ t. ok (version_of t);
  config_from_slice = λ t. ok t;
  object_from_slice = λ t. ok (some t);
  insert_schema_version = λ v o. v ∷ rest_of o;
  config_from_object = λ o. ok o;
  to_vec = λ c. ok c;
}

-- The secret goes behind the version.
abbrev in_front : Totps Bytes
in_front = record {
  totp = λ config. none;
  set_totp = λ secret config. take 1 config ++ (secret ++ rest_of config);
}

abbrev draws : Draws
draws = record {
  raw = ok (replicate 32 7);
  salt = ok (replicate 16 1);
  wrap_nonce = ok (replicate 12 2);
}

draws-Fills : Fills draws
draws-Fills = record {
  salt = λ b h. let e : replicate 16 1 ≡ b = cc in omega (arith, ap length e);
  wrap_nonce = λ b h. let e : replicate 12 2 ≡ b = cc in omega (arith, ap length e);
}

abbrev retired : Machine Bytes
retired = record {
  stored = none;
  world = world_of (password_slot ∷ []);
  shown = migrate_screen none true;
}

abbrev after : Machine Bytes × Bool
after =
    migrate_totp_only toy_crates versioned_json path plain in_front no_faults toy_env toy_env draws
      9 true (ok (codes "secret")) (codes "new") true retired

gone : after.1 ≡ false
unfolding migrate_totp_only converted convert load claim acquire read_file decode_any decode_v2
    decode_slots decode_slot read_kdf_params read_u32 decode_tail check_kdf_params encode
    encode_header encode_slots encode_slot encode_slot_desc encode_kdf_params header_aad slot_aad
    find unwrap_password unwrap_under derive_key decrypt encrypt decrypt_body config_from_slice
    probed_version password_part wrap_password wrap_under enrol_if enrol_device new write_entry
    open_and_write device_part device_key wrap_device device_kek store_secret save write put_file
    write_file_atomic index slice from_le_bytes32 bytes_eq
gone = refl

claimed : (claim toy_env after.0.world).1 ≡ ok tt
unfolding migrate_totp_only converted convert load claim acquire read_file decode_any decode_v2
    decode_slots decode_slot read_kdf_params read_u32 decode_tail check_kdf_params encode
    encode_header encode_slots encode_slot encode_slot_desc encode_kdf_params header_aad slot_aad
    find unwrap_password unwrap_under derive_key decrypt encrypt decrypt_body config_from_slice
    probed_version password_part wrap_password wrap_under enrol_if enrol_device new write_entry
    open_and_write device_part device_key wrap_device device_kek store_secret save write put_file
    write_file_atomic index slice from_le_bytes32 bytes_eq
claimed = refl

abbrev config_of : Result (Unlocked Bytes) → Bytes
config_of (ok u) = u.config
config_of _ = []

abbrev text : Bytes
text = 2 ∷ codes "secret" ++ config

loaded : load toy_crates versioned_json path toy_env (codes "secret") retired.world ≡ (
  retired.world,
  ok (record { config = 2 ∷ config; master_key = master_key; slots = password_slot ∷ [] }),
)
unfolding load claim acquire read_file decode_any decode_v2 decode_slots decode_slot read_kdf_params
    read_u32 decode_tail check_kdf_params encode encode_header encode_slots encode_slot
    encode_slot_desc encode_kdf_params header_aad slot_aad find unwrap_password unwrap_under
    derive_key decrypt decrypt_body config_from_slice probed_version index slice from_le_bytes32
    bytes_eq
loaded = refl

text-IsReread : IsReread versioned_json text text
unfolding config_from_slice probed_version
text-IsReread = record {
  read = λ t h. let e : text ≡ t = cc in rw (← e) refl;
  short = λ t h. let e : text ≡ t = cc in omega (arith, ap length e);
}

kept :
    IsKeptAfter toy_crates versioned_json path plain in_front toy_crates-IsAead toy_env
      (ok (codes "secret"))
      retired.world
kept secret u w' drawn opened =
    let same : codes "secret" ≡ secret = cc in
    let again : (
      retired.world,
      ok (record { config = 2 ∷ config; master_key = master_key; slots = password_slot ∷ [] }),
    )
        ≡ (w', ok u) =
      sym loaded
      ∙ (ap (λ p. load toy_crates versioned_json path toy_env p retired.world) same ∙ opened) in
    let found : 2 ∷ config ≡ u.config = ap (λ r. config_of r.1) again in
    subst (λ c. (config' : Bytes) × IsReread versioned_json c config')
      (ap (λ s. in_front.set_totp s (2 ∷ config)) same ∙ ap (λ c. in_front.set_totp secret c) found)
      (text, text-IsReread)

migrate_totp_only-Opens_example :
    (u : Unlocked Bytes) × ((load toy_crates versioned_json path toy_env
        (codes "new")
        after.0.world).1
      ≡ ok u)
migrate_totp_only-Opens_example =
    migrate_totp_only-Opens toy_crates versioned_json path plain in_front toy_crates-IsAead
      no_faults toy_env toy_env toy_env draws 9 true (ok (codes "secret")) (codes "new") true
      retired kept toy_env-Fills toy_env-Fills draws-Fills refl gone claimed
