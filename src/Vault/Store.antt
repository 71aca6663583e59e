-- ===== src/Vault/Store.antt =====
-- src/config/store.rs: creating, opening and saving a vault. A call goes from the disk and the lock
-- to new ones and a result. What the system and the random numbers did is an argument.
pub mod Shape
pub mod Atomic
pub mod Written
pub mod Opens
pub mod Keys
use ssh_control.Prelude.{
  ℕ, ◌≡◌, Bytes, List, [], ◌∷◌, Bool, true, false, Option, some, none, Outcome, ok, err, panic,
  map_err, codes, if◌then◌else◌,
}
use ssh_control.Errors.{
  Result, AppError, IoKind, not_found, io, serde, crypto, config_not_found,
  wrong_password_or_corrupt, corrupt_file, undecodable,
}
use ssh_control.Vault.Format.{
  KdfParams, Slot, Envelope, EnvelopeV1, AnyEnvelope, v1, v2, slot_password, slot_device, encode,
  header_aad, header_aad_v1,
}
use ssh_control.Vault.Format.Decode.{decode_any}
use ssh_control.Vault.Crypto.{Crates, encrypt, decrypt, derive_key}
use ssh_control.Vault.Keyslot.{find, has, wrap_password, unwrap_password, unwrap_device}
use ssh_control.Vault.Migrate.{Serde, config_from_slice}
use ssh_control.Vault.Disk.{Disk, WriteFaults, write_file_atomic}
use ssh_control.Vault.Lock.{VaultLock, LockFaults, Flock, acquire}

abbrev pub interactive : KdfParams
interactive = record { m_cost = 19_456; t_cost = 2; p_cost = 1 }

pub data VaultShape : Type 0 where
  password device device_and_password : VaultShape

unfoldable pub shape_of : List Slot → VaultShape
shape_of slots =
    if has slots slot_password
    then (if has slots slot_device then device_and_password else password)
    else if has slots slot_device
    then device
    else password

pub record Unlocked (Config : Type 0) : Type 0 where
  pub config : Config
  pub master_key : Bytes
  pub slots : List Slot

-- The state that the calls share: the files and this instance's lock.
pub record World : Type 0 where
  pub disk : Disk
  pub lock : VaultLock

-- What the system does to one call: the lock, the read, the write, and each draw of random bytes.
pub record Env : Type 0 where
  pub lock : LockFaults
  pub flock : Flock
  pub read : Option IoKind
  pub write : WriteFaults
  pub master_key : Result Bytes
  pub salt : Result Bytes
  pub wrap_nonce : Result Bytes
  pub nonce : Result Bytes

abbrev pub Op : Type 0 → Type 0
Op A = World → World × Result A

abbrev pub on_ok : {A B : Type 0} → World × Result A → (A → Op B) → World × Result B
on_ok (w, ok a) f = f a w
on_ok (w, err e) f = (w, err e)
on_ok (w, panic) f = (w, panic)

infixl 5 ◌>>=◌ ◌>>◌
abbrev pub ◌>>=◌ : {A B : Type 0} → Op A → (A → Op B) → Op B
◌>>=◌ m f w = on_ok (m w) f

abbrev pub ◌>>◌ : {B : Type 0} → Op (Unit {0}) → Op B → Op B
m >> k = m >>= λ _. k

-- A step that leaves the state alone.
abbrev pub lift : {A : Type 0} → Result A → Op A
lift m w = (w, m)

unfoldable pub claim : Env → Op (Unit {0})
claim env w = let (lock, r) = acquire env.lock env.flock w.lock in (record w { lock = lock }, r)

-- A read that finds no file is told from every other failure.
abbrev pub read_error : Bytes → IoKind → AppError
read_error path not_found = config_not_found path
read_error path k = io k

unfoldable pub read_file : Env → Bytes → Op Bytes
read_file env path w = elim env.read [
  | some k ↦ (w, err (read_error path k))
  | none ↦ elim w.disk.vault [
    | some bytes ↦ (w, ok bytes)
    | none ↦ (w, err (config_not_found path))
  ]
]

unfoldable pub put_file : Env → Bytes → Op (Unit {0})
put_file env bytes w =
    let (disk, r) = write_file_atomic env.write bytes w.disk in (record w { disk = disk }, r)

abbrev pub is_empty : List Slot → Bool
is_empty [] = true
is_empty (s ∷ slots) = false

abbrev pub some_or : {A : Type 0} → Option A → AppError → Result A
some_or (some a) e = ok a
some_or none e = err e

-- The vault at `path`, over the crates and a config type with its JSON.
module _ {Config Object : Type 0} (c : Crates) (json : Serde Config Object) (path : Bytes) where
  unfoldable pub write : Env → Config → Bytes → List Slot → Op (Unit {0})
  unfolding put_file
  write env config master_key slots =
      if is_empty slots
      then lift (err (crypto (codes "refusing to write a vault with no key slots")))
      else (do
        plaintext ← lift (map_err serde (json.to_vec config))
        nonce ← lift env.nonce
        ciphertext ← lift (encrypt c master_key nonce (header_aad slots) plaintext)
        put_file env (encode slots nonce ciphertext))

  unfoldable pub save : Env → Config → Bytes → List Slot → Op (Unit {0})
  unfolding write
  save = write

  unfoldable pub decrypt_body : Envelope → Bytes → Result Config
  decrypt_body e master_key =
      elim (decrypt c master_key e.nonce (header_aad e.slots) e.ciphertext) [
        | ok plaintext ↦ config_from_slice json plaintext
        | err x ↦ err x
        | panic ↦ panic
      ]

  -- The caller decides which slots wrap the fresh master key.
  unfoldable pub init_slots : Env → Config → (Bytes → Result (List Slot)) → Op (Unlocked Config)
  unfolding claim write
  init_slots env default_config build_slots = do
    claim env
    master_key ← lift env.master_key
    slots ← lift (build_slots master_key)
    write env default_config master_key slots
    lift (ok (record { config = default_config; master_key = master_key; slots = slots }))

  abbrev pub password_slots : Env → Bytes → KdfParams → Bytes → Result (List Slot)
  password_slots env master_password params master_key =
      elim (wrap_password c env.salt env.wrap_nonce master_password params master_key) [
        | ok slot ↦ ok (slot ∷ [])
        | err e ↦ err e
        | panic ↦ panic
      ]

  unfoldable pub init : Env → Config → Bytes → Op (Unlocked Config)
  unfolding init_slots
  init env default_config master_password =
      init_slots env default_config (password_slots env master_password interactive)

  unfoldable pub upgrade_v1 : Env → EnvelopeV1 → Bytes → Op (Unlocked Config)
  unfolding write
  upgrade_v1 env e master_password = do
    old_key ← lift (derive_key c master_password e.salt e.kdf_params)
    plaintext ← lift (decrypt c old_key e.nonce (header_aad_v1 e) e.ciphertext)
    config ← lift (map_err (λ t. corrupt_file (undecodable t)) (json.config_from_slice plaintext))
    master_key ← lift env.master_key
    slots ← lift (password_slots env master_password e.kdf_params master_key)
    write env config master_key slots
    lift (ok (record { config = config; master_key = master_key; slots = slots }))

  abbrev pub open_with : (Slot → Result Bytes) → ℕ → Envelope → Op (Unlocked Config)
  open_with unwrap kind e = do
    slot ← lift (some_or (find e.slots kind) wrong_password_or_corrupt)
    master_key ← lift (unwrap slot)
    config ← lift (decrypt_body e master_key)
    lift (ok (record { config = config; master_key = master_key; slots = e.slots }))

  abbrev pub load_any : Env → Bytes → AnyEnvelope → Op (Unlocked Config)
  load_any env master_password (v2 e) =
      open_with (λ slot. unwrap_password c slot master_password) slot_password e
  load_any env master_password (v1 e) = upgrade_v1 env e master_password

  unfoldable pub load : Env → Bytes → Op (Unlocked Config)
  unfolding claim read_file upgrade_v1
  load env master_password = do
    claim env
    bytes ← read_file env path
    any ← lift (decode_any bytes)
    load_any env master_password any

  abbrev pub device_any : Bytes → AnyEnvelope → Op (Unlocked Config)
  device_any device_key (v2 e) = open_with (λ slot. unwrap_device c slot device_key) slot_device e
  device_any device_key (v1 e) = lift (err wrong_password_or_corrupt)

  unfoldable pub load_with_device : Env → Bytes → Op (Unlocked Config)
  unfolding claim read_file
  load_with_device env device_key = do
    claim env
    bytes ← read_file env path
    any ← lift (decode_any bytes)
    device_any device_key any

  abbrev pub shape_any : AnyEnvelope → VaultShape
  shape_any (v1 e) = password
  shape_any (v2 e) = shape_of e.slots

  unfoldable pub peek_shape : Env → Op VaultShape
  unfolding read_file shape_of
  peek_shape env = do
    bytes ← read_file env path
    any ← lift (decode_any bytes)
    lift (ok (shape_any any))
