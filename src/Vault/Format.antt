-- ===== src/Vault/Format.antt =====
-- src/config/format.rs: the layout of the vault file, version 2 with its key slots and the older
-- version 1. A byte string is a list of numbers; `bytes[i]` and `bytes[a..b]` panic out of range.
pub mod Decode
pub mod Fields
pub mod Sound
pub mod Reads
pub mod RoundTrip
pub mod Binding
pub mod Panics
mod Tests
use ssh_control.Prelude.{ℕ, ◌+◌, ◌*◌, ◌%◌, ◌≤◌, ◌≡◌, ◌⊎◌, Bytes, codes, to_le_bytes32, length}
use ssh_control.Prelude.{List, [], ◌∷◌, ◌++◌, Bool, ◌&&◌, leb, IsByte, IsU32, All, if◌then◌else◌}
use ssh_control.Prelude.{◌==◌, ok, err, not, ◌||◌}
use ssh_control.Errors.{Result, corrupt_file, kdf_parameters_out_of_range, unknown_kdf_id}

abbrev pub magic : Bytes
magic = codes "SSHCTRL1"

abbrev pub format_version : ℕ
format_version = 2

abbrev pub format_version_v1 : ℕ
format_version_v1 = 1

abbrev pub kdf_argon2id : ℕ
kdf_argon2id = 1

abbrev pub kdf_hkdf_sha256 : ℕ
kdf_hkdf_sha256 = 2

abbrev pub slot_password : ℕ
slot_password = 1

abbrev pub slot_device : ℕ
slot_device = 2

abbrev pub salt_len : ℕ
salt_len = 16

abbrev pub nonce_len : ℕ
nonce_len = 12

abbrev pub wrapped_mk_len : ℕ
wrapped_mk_len = 32 + 16

abbrev pub max_m_cost_kib : ℕ
max_m_cost_kib = 1_048_576

abbrev pub min_m_cost_kib : ℕ
min_m_cost_kib = 8

abbrev pub max_t_cost : ℕ
max_t_cost = 64

abbrev pub max_p_cost : ℕ
max_p_cost = 64

abbrev pub max_slots : ℕ
max_slots = 4

abbrev pub slot_desc_len : ℕ
slot_desc_len = 1 + 1 + 4 + 4 + 4 + salt_len

abbrev pub slot_len : ℕ
slot_len = slot_desc_len + nonce_len + wrapped_mk_len

abbrev pub v2_prefix_len : ℕ
v2_prefix_len = 8 + 1 + 1

abbrev pub v1_header_len : ℕ
v1_header_len = 8 + 1 + 1 + 4 + 4 + 4 + salt_len

pub record KdfParams : Type 0 where
  pub m_cost : ℕ
  pub t_cost : ℕ
  pub p_cost : ℕ

pub record Slot : Type 0 where
  pub kind : ℕ
  pub kdf_id : ℕ
  pub kdf_params : KdfParams
  pub salt : Bytes
  pub wrap_nonce : Bytes
  pub wrapped_mk : Bytes

pub record Envelope : Type 0 where
  pub slots : List Slot
  pub nonce : Bytes
  pub ciphertext : Bytes

pub record EnvelopeV1 : Type 0 where
  pub kdf_params : KdfParams
  pub salt : Bytes
  pub nonce : Bytes
  pub ciphertext : Bytes

pub data AnyEnvelope : Type 0 where
  v1 : EnvelopeV1 → AnyEnvelope
  v2 : Envelope → AnyEnvelope

unfoldable pub encode_kdf_params : KdfParams → Bytes
encode_kdf_params p = to_le_bytes32 p.m_cost ++ (to_le_bytes32 p.t_cost ++ to_le_bytes32 p.p_cost)

unfoldable pub encode_slot_desc : Slot → Bytes
encode_slot_desc s = s.kind ∷ s.kdf_id ∷ (encode_kdf_params s.kdf_params ++ s.salt)

unfoldable pub slot_aad : Slot → Bytes
slot_aad s = encode_slot_desc s

unfoldable pub encode_slot : Slot → Bytes
encode_slot s = encode_slot_desc s ++ (s.wrap_nonce ++ s.wrapped_mk)

unfoldable pub encode_slots : List Slot → Bytes
encode_slots [] = []
encode_slots (s ∷ slots) = encode_slot s ++ encode_slots slots

-- `slots.len() as u8` keeps the low byte.
unfoldable pub encode_header : List Slot → Bytes
encode_header slots = magic ++ format_version ∷ (length slots % 256) ∷ encode_slots slots

unfoldable pub header_aad : List Slot → Bytes
header_aad slots = encode_header slots

-- `ciphertext.len() as u32` keeps the low 32 bits.
unfoldable pub encode : List Slot → Bytes → Bytes → Bytes
encode slots nonce ciphertext =
    encode_header slots ++ (nonce ++ (to_le_bytes32 (length ciphertext % 4294967296) ++ ciphertext))

unfoldable pub header_aad_v1 : EnvelopeV1 → Bytes
header_aad_v1 e =
    magic ++ format_version_v1 ∷ kdf_argon2id ∷ (encode_kdf_params e.kdf_params ++ e.salt)

-- `(lo..=hi).contains(&x)`
abbrev pub in_range : ℕ → ℕ → ℕ → Bool
in_range lo hi x = leb lo x && leb x hi

unfoldable pub check_kdf_params : ℕ → KdfParams → Result (Unit {0})
check_kdf_params kdf_id p =
    if kdf_id == kdf_argon2id
    then if not (in_range min_m_cost_kib max_m_cost_kib p.m_cost)
        || not (in_range 1 max_t_cost p.t_cost)
        || not (in_range 1 max_p_cost p.p_cost)
      then err (corrupt_file (kdf_parameters_out_of_range p.m_cost p.t_cost p.p_cost))
      else ok tt
    else if kdf_id == kdf_hkdf_sha256
    then ok tt
    else err (corrupt_file (unknown_kdf_id kdf_id))

-- What the types of the source's fields say: widths of the integers and lengths of the arrays.
pub record IsKdfParams (p : KdfParams) : Type 0 where
  pub m_cost : IsU32 p.m_cost
  pub t_cost : IsU32 p.t_cost
  pub p_cost : IsU32 p.p_cost

pub record IsSlot (s : Slot) : Type 0 where
  pub kind : IsByte s.kind
  pub kdf_id : IsByte s.kdf_id
  pub kdf_params : IsKdfParams s.kdf_params
  pub salt : length s.salt ≡ salt_len
  pub wrap_nonce : length s.wrap_nonce ≡ nonce_len
  pub wrapped_mk : length s.wrapped_mk ≡ wrapped_mk_len

-- The cost parameters are ones that the header check lets through.
abbrev pub InBounds : ℕ → KdfParams → Type 0
InBounds kdf_id p =
    ((kdf_id ≡ kdf_argon2id)
      × (8 ≤ p.m_cost)
      × (p.m_cost ≤ 1_048_576)
      × (1 ≤ p.t_cost)
      × (p.t_cost ≤ 64)
      × (1 ≤ p.p_cost)
      × (p.p_cost ≤ 64))
    ⊎ (kdf_id ≡ kdf_hkdf_sha256)
