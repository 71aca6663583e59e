-- ===== src/Vault/Crypto.antt =====
-- src/crypto/cipher.rs, src/crypto/kdf.rs and the key derivation of src/config/device.rs: thin calls
-- of third-party crates, which are parameters here, and the errors they are turned into.
use ssh_control.Prelude.{◌+◌, ◌≡◌, Bytes, Outcome, ok, length, map_err, arith}
use ssh_control.Errors.{Result, kdf, crypto, wrong_password_or_corrupt}
use ssh_control.Vault.Format.{KdfParams}

-- The crates argon2, hkdf and aes-gcm. An error carries its text.
pub record Crates : Type 0 where
  -- password, salt, costs; a key of 32 bytes
  pub argon2id : Bytes → Bytes → KdfParams → Outcome Bytes Bytes
  -- device key, salt; a key of 32 bytes
  pub hkdf_sha256 : Bytes → Bytes → Outcome Bytes Bytes
  -- key, nonce, additional data, message
  pub seal : Bytes → Bytes → Bytes → Bytes → Outcome Bytes Bytes
  pub unseal : Bytes → Bytes → Bytes → Bytes → Outcome Bytes Bytes

-- What AES-256-GCM documents: a sealed message opens under the same key, nonce and additional data,
-- and is 16 bytes longer, by its tag.
pub record IsAead (c : Crates) : Type 0 where
  pub opens : (k n a m s : Bytes) → c.seal k n a m ≡ ok s → c.unseal k n a s ≡ ok m
  pub length_seal : (k n a m s : Bytes) → c.seal k n a m ≡ ok s → length s ≡ length m + 16

unfoldable pub encrypt : Crates → Bytes → Bytes → Bytes → Bytes → Result Bytes
encrypt c key nonce aad plaintext = map_err crypto (c.seal key nonce aad plaintext)

unfoldable pub decrypt : Crates → Bytes → Bytes → Bytes → Bytes → Result Bytes
decrypt c key nonce aad ciphertext =
    map_err (λ _. wrong_password_or_corrupt) (c.unseal key nonce aad ciphertext)

unfoldable pub derive_key : Crates → Bytes → Bytes → KdfParams → Result Bytes
derive_key c password salt params = map_err kdf (c.argon2id password salt params)

unfoldable pub device_kek : Crates → Bytes → Bytes → Result Bytes
device_kek c device_key salt = map_err kdf (c.hkdf_sha256 device_key salt)

pub decrypt-encrypt :
    (c : Crates)
    → IsAead c
    → (k n a m s : Bytes) → encrypt c k n a m ≡ ok s
    → decrypt c k n a s ≡ ok m
unfolding encrypt decrypt
decrypt-encrypt c laws k n a m s h = ground (arith, laws.opens k n a m s)

pub encrypt-length :
    (c : Crates)
    → IsAead c
    → (k n a m s : Bytes) → encrypt c k n a m ≡ ok s
    → length s ≡ length m + 16
unfolding encrypt
encrypt-length c laws k n a m s h = ground (arith, laws.length_seal k n a m s)
