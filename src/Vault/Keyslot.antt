-- ===== src/Vault/Keyslot.antt =====
-- src/config/keyslot.rs: the master key wrapped in slots. What a call of the random number generator
-- came back with is an argument.
pub mod Wraps
pub mod Slots
pub mod Kept
use ssh_control.Prelude.{
  ℕ, ◌+◌, ◌≡◌, Bytes, List, [], ◌∷◌, ◌++◌, length, Bool, true, false, Option, none, some, ok, err,
  ◌>>=◌, ◌==◌, leb, not, if◌then◌else◌, replicate, codes,
}
use ssh_control.Errors.{
  Result, corrupt_file, crypto, slot_not_argon2id, slot_not_hkdf, unwrapped_wrong_length,
}
use ssh_control.Vault.Format.{
  KdfParams, Slot, kdf_argon2id, kdf_hkdf_sha256, slot_password, slot_device, slot_aad,
  wrapped_mk_len,
}
use ssh_control.Vault.Crypto.{Crates, encrypt, decrypt, derive_key, device_kek}

abbrev pub mk_len : ℕ
mk_len = 32

abbrev pub device_kdf_id : ℕ
device_kdf_id = kdf_hkdf_sha256

-- The slot as it stands before the wrap: its descriptor is final, its wrapped key a placeholder.
abbrev pub blank_slot : ℕ → ℕ → KdfParams → Bytes → Bytes → Slot
blank_slot kind kdf_id params salt wrap_nonce = record {
  kind = kind;
  kdf_id = kdf_id;
  kdf_params = params;
  salt = salt;
  wrap_nonce = wrap_nonce;
  wrapped_mk = replicate wrapped_mk_len 0;
}

module _ (c : Crates) where
  unfoldable pub wrap_under : Result Bytes → ℕ → ℕ → KdfParams → Bytes → Bytes → Bytes → Result Slot
  wrap_under random_nonce kind kdf_id params salt kek master_key = do
    wrap_nonce ← random_nonce
    let slot = blank_slot kind kdf_id params salt wrap_nonce
    sealed ← encrypt c kek wrap_nonce (slot_aad slot) master_key
    if length sealed == wrapped_mk_len
        then ok (record slot { wrapped_mk = sealed })
        else err (crypto (codes "wrapped master key has the wrong length"))

  unfoldable pub unwrap_under : Slot → Bytes → Result Bytes
  unwrap_under slot kek = do
    plain ← decrypt c kek slot.wrap_nonce (slot_aad slot) slot.wrapped_mk
    if length plain == mk_len then ok plain else err (corrupt_file unwrapped_wrong_length)

  unfoldable pub wrap_password :
      Result Bytes → Result Bytes → Bytes → KdfParams → Bytes → Result Slot
  unfolding wrap_under
  wrap_password random_salt random_nonce password params master_key = do
    salt ← random_salt
    kek ← derive_key c password salt params
    wrap_under random_nonce slot_password kdf_argon2id params salt kek master_key

  unfoldable pub unwrap_password : Slot → Bytes → Result Bytes
  unfolding unwrap_under
  unwrap_password slot password =
      if not (slot.kdf_id == kdf_argon2id)
      then err (corrupt_file slot_not_argon2id)
      else (do kek ← derive_key c password slot.salt slot.kdf_params; unwrap_under slot kek)

  unfoldable pub wrap_device : Result Bytes → Result Bytes → Bytes → Bytes → Result Slot
  unfolding wrap_under
  wrap_device random_salt random_nonce device_key master_key = do
    salt ← random_salt
    kek ← device_kek c device_key salt
    wrap_under random_nonce slot_device device_kdf_id
        (record { m_cost = 0; t_cost = 0; p_cost = 0 }) salt kek master_key

  unfoldable pub unwrap_device : Slot → Bytes → Result Bytes
  unfolding unwrap_under
  unwrap_device slot device_key =
      if not (slot.kdf_id == device_kdf_id)
      then err (corrupt_file slot_not_hkdf)
      else (do kek ← device_kek c device_key slot.salt; unwrap_under slot kek)

-- `slots.iter().find(|s| s.kind == kind)`
unfoldable pub find : List Slot → ℕ → Option Slot
find [] kind = none
find (s ∷ slots) kind = if s.kind == kind then some s else find slots kind

unfoldable pub has : List Slot → ℕ → Bool
has slots kind = elim (find slots kind) [ some s ↦ true | none ↦ false ]

-- `slots.retain(|s| s.kind != kind)`
unfoldable pub retain_other : List Slot → ℕ → List Slot
retain_other [] kind = []
retain_other (s ∷ slots) kind =
    let rest = retain_other slots kind in if s.kind == kind then rest else s ∷ rest

-- The stable `sort_by_key(|s| s.kind)`, by insertion.
unfoldable pub insert_by_kind : Slot → List Slot → List Slot
insert_by_kind s [] = s ∷ []
insert_by_kind s (t ∷ slots) =
    let rest = insert_by_kind s slots in if leb s.kind t.kind then s ∷ t ∷ slots else t ∷ rest

unfoldable pub sort_by_kind : List Slot → List Slot
unfolding insert_by_kind
sort_by_kind [] = []
sort_by_kind (s ∷ slots) = insert_by_kind s (sort_by_kind slots)

unfoldable pub replace : List Slot → ℕ → Slot → List Slot
unfolding retain_other sort_by_kind
replace slots kind replacement = sort_by_kind (retain_other slots kind ++ replacement ∷ [])
