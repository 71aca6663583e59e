-- ===== src/Vault/Fixtures.antt =====
-- Concrete instances of what the vault takes from outside: a cipher whose tag is sixteen zeros, a key
-- that is the secret with its salt, and a JSON whose text is the version and then the bytes.
use ssh_control.Prelude.{
  ℕ, ◌-◌, ◌≡◌, ap, Bytes, length, take, [], ◌∷◌, ◌++◌, true, false, Option, none, some, ok,
  replicate, codes, arith, length-append, take-append, List, All, inl, inr, refl,
}
use ssh_control.Vault.Crypto.{Crates, IsAead}
use ssh_control.Vault.Migrate.{Serde}
use ssh_control.Vault.Lock.{granted}
use ssh_control.Vault.Disk.{WriteFaults}
use ssh_control.Vault.Store.{Env, World, interactive}
use ssh_control.Vault.Store.Written.{IsWritten, Fills}
use ssh_control.Vault.Format.{Slot, slot_password, slot_device, encode}
use ssh_control.Vault.Format.Fields.{IsRead}

abbrev pub tag : Bytes
tag = replicate 16 0

abbrev pub toy_crates : Crates
toy_crates = record {
  argon2id = λ password salt p. ok (password ++ salt);
  hkdf_sha256 = λ key salt. ok (key ++ salt);
  seal = λ k n a m. ok (m ++ tag);
  unseal = λ k n a s. ok (take (length s - 16) s);
}

untagged : (m s : Bytes) → m ++ tag ≡ s → take (length s - 16) s ≡ m
untagged m s e =
    let size : length (m ++ tag) - 16 ≡ length m = omega (arith, length-append m tag) in
    rw (← e) (rw size (take-append m tag))

pub toy_crates-IsAead : IsAead toy_crates
toy_crates-IsAead = record {
  opens = λ k n a m s h. ap ok (untagged m s (cc));
  length_seal =
      λ k n a m s h. let e : m ++ tag ≡ s = cc in omega (arith, ap length e, length-append m tag);
}

abbrev pub rest_of : Bytes → Bytes
rest_of [] = []
rest_of (b ∷ bs) = bs

abbrev pub version_of : Bytes → Option ℕ
version_of [] = none
version_of (b ∷ bs) = some b

abbrev pub toy_json : Serde Bytes Bytes
toy_json = record {
  probe = λ t. ok (version_of t);
  config_from_slice = λ t. ok (rest_of t);
  object_from_slice = λ t. ok (some t);
  insert_schema_version = λ v o. v ∷ rest_of o;
  config_from_object = λ o. ok (rest_of o);
  to_vec = λ c. ok (2 ∷ c);
}

abbrev pub no_faults : WriteFaults
no_faults = record {
  create_dir_all = none;
  set_dir_permissions = none;
  create_tmp = none;
  set_file_permissions = none;
  write_all = none;
  rename = none;
  remove_works = true;
}

abbrev pub toy_env : Env
toy_env = record {
  lock = record { create_dir = none; open_file = none };
  flock = granted;
  read = none;
  write = no_faults;
  master_key = ok (replicate 32 9);
  salt = ok (replicate 16 1);
  wrap_nonce = ok (replicate 12 2);
  nonce = ok (replicate 12 3);
}

abbrev pub empty_world : World
empty_world = record { disk = record { vault = none; tmp = none }; lock = record { held = false } }

abbrev pub path : Bytes
path = codes "config.enc"

abbrev pub config : Bytes
config = 4 ∷ 5 ∷ 6 ∷ []

abbrev pub master_key : Bytes
master_key = replicate 32 9

abbrev pub password_slot : Slot
password_slot = record {
  kind = slot_password;
  kdf_id = 1;
  kdf_params = interactive;
  salt = replicate 16 1;
  wrap_nonce = replicate 12 2;
  wrapped_mk = master_key ++ tag;
}

abbrev pub device_slot : Slot
device_slot = record password_slot {
  kind = slot_device;
  kdf_id = 2;
  kdf_params = record { m_cost = 0; t_cost = 0; p_cost = 0 };
}

abbrev pub slots : List Slot
slots = password_slot ∷ device_slot ∷ []

abbrev pub world_of : List Slot → World
world_of slots = record {
  disk = record { vault = some (encode slots (replicate 12 3) (2 ∷ config ++ tag)); tmp = none };
  lock = record { held = true };
}

pub config-IsWritten : IsWritten toy_json config
config-IsWritten = record {
  stamp = λ text h. let e : 2 ∷ config ≡ text = cc in rw (← e) refl;
  read_back = λ text h. let e : 2 ∷ config ≡ text = cc in rw (← e) refl;
  short = λ text h. let e : 2 ∷ config ≡ text = cc in omega (arith, ap length e);
}

pub toy_env-Fills : Fills toy_env
toy_env-Fills = record {
  master_key = λ b h. let e : replicate 32 9 ≡ b = cc in omega (arith, ap length e);
  salt = λ b h. let e : replicate 16 1 ≡ b = cc in omega (arith, ap length e);
  wrap_nonce = λ b h. let e : replicate 12 2 ≡ b = cc in omega (arith, ap length e);
  nonce = λ b h. let e : replicate 12 3 ≡ b = cc in omega (arith, ap length e);
}

pub slots-IsRead : All IsRead slots
slots-IsRead = ((omega arith, inl (omega arith)), ((omega arith, inr refl), tt))
