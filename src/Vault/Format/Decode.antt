-- ===== src/Vault/Format/Decode.antt =====
-- src/config/format.rs: reading the vault file back.
use ssh_control.Prelude.{ℕ, zero, suc, ◌+◌, ◌*◌, Bytes, length, List, [], ◌∷◌, ltb, ◌==◌, not}
use ssh_control.Prelude.{if◌then◌else◌, ◌||◌, ok, err, ◌>>=◌, ◌>>◌, index, slice, from_le_bytes32}
use ssh_control.Prelude.{bytes_eq}
use ssh_control.Errors.{
  Result, corrupt_file, file_too_short, ciphertext_length_mismatch, slot_count_out_of_range,
  unknown_kdf_id, not_our_file, unsupported_format_version, v1_needs_migration,
}
use ssh_control.Vault.Format.{
  KdfParams, Slot, Envelope, EnvelopeV1, AnyEnvelope, v1, v2, magic, format_version,
  format_version_v1, kdf_argon2id, salt_len, nonce_len, wrapped_mk_len, max_slots, slot_len,
  v2_prefix_len, v1_header_len, check_kdf_params,
}

unfoldable pub read_u32 : Bytes → ℕ → Result ℕ
read_u32 bytes at = do b ← slice bytes at (at + 4); from_le_bytes32 b

unfoldable pub read_kdf_params : Bytes → ℕ → Result KdfParams
unfolding read_u32
read_kdf_params bytes at = do
  m_cost ← read_u32 bytes at
  t_cost ← read_u32 bytes (at + 4)
  p_cost ← read_u32 bytes (at + 8)
  ok (record { m_cost = m_cost; t_cost = t_cost; p_cost = p_cost })

-- One round of the loop of `decode_v2`.
unfoldable pub decode_slot : Bytes → ℕ → Result Slot
decode_slot bytes at = do
  kind ← index bytes at
  kdf_id ← index bytes (at + 1)
  kdf_params ← read_kdf_params bytes (at + 2)
  check_kdf_params kdf_id kdf_params
  salt ← slice bytes (at + 14) (at + 14 + salt_len)
  wrap_nonce ← slice bytes (at + 14 + salt_len) (at + 14 + salt_len + nonce_len)
  wrapped_mk ←
      slice bytes (at + 14 + salt_len + nonce_len) (at + 14 + salt_len + nonce_len + wrapped_mk_len)
  ok (record {
    kind = kind;
    kdf_id = kdf_id;
    kdf_params = kdf_params;
    salt = salt;
    wrap_nonce = wrap_nonce;
    wrapped_mk = wrapped_mk;
  })

-- `for i in i..i + n`, each slot at its offset.
unfoldable pub decode_slots : Bytes → ℕ → ℕ → Result (List Slot)
decode_slots bytes i zero = ok []
decode_slots bytes i (suc n) = do
  slot ← decode_slot bytes (v2_prefix_len + i * slot_len)
  rest ← decode_slots bytes (suc i) n
  ok (slot ∷ rest)

-- The common end of both layouts, from `offset` on: nonce, length, ciphertext up to the end.
unfoldable pub decode_tail : Bytes → ℕ → Result (Bytes × Bytes)
decode_tail bytes offset = do
  nonce ← slice bytes offset (offset + nonce_len)
  ciphertext_len ← read_u32 bytes (offset + nonce_len)
  let offset' = offset + nonce_len + 4
  if not (length bytes == offset' + ciphertext_len)
      then err (corrupt_file ciphertext_length_mismatch)
      else (do ciphertext ← slice bytes offset' (offset' + ciphertext_len); ok (nonce, ciphertext))

unfoldable pub decode_v2 : Bytes → Result Envelope
decode_v2 bytes = do
  slot_count ← index bytes 9
  let body_start = v2_prefix_len + slot_count * slot_len
  if slot_count == 0 || ltb max_slots slot_count
      then err (corrupt_file (slot_count_out_of_range slot_count))
      else if ltb (length bytes) (body_start + nonce_len + 4)
      then err (corrupt_file file_too_short)
      else (do
        slots ← decode_slots bytes 0 slot_count
        (nonce, ciphertext) ← decode_tail bytes body_start
        ok (record { slots = slots; nonce = nonce; ciphertext = ciphertext }))

unfoldable pub decode_v1 : Bytes → Result EnvelopeV1
decode_v1 bytes =
    if ltb (length bytes) (v1_header_len + nonce_len + 4)
    then err (corrupt_file file_too_short)
    else (do
      kdf_id ← index bytes 9
      if not (kdf_id == kdf_argon2id) then err (corrupt_file (unknown_kdf_id kdf_id)) else (do
        kdf_params ← read_kdf_params bytes 10
        check_kdf_params kdf_id kdf_params
        salt ← slice bytes 22 (22 + salt_len)
        (nonce, ciphertext) ← decode_tail bytes v1_header_len
        ok (record {
          kdf_params = kdf_params;
          salt = salt;
          nonce = nonce;
          ciphertext = ciphertext;
        })))

unfoldable pub decode_any : Bytes → Result AnyEnvelope
decode_any bytes = if ltb (length bytes) 9 then err (corrupt_file file_too_short) else (do
  head ← slice bytes 0 8
  version ← index bytes 8
  if not (bytes_eq head magic)
      then err not_our_file
      else if version == format_version_v1
      then (do e ← decode_v1 bytes; ok (v1 e))
      else if version == format_version
      then (do e ← decode_v2 bytes; ok (v2 e))
      else err (unsupported_format_version version))

unfoldable pub only_v2 : AnyEnvelope → Result Envelope
only_v2 (v2 envelope) = ok envelope
only_v2 (v1 e) = err (corrupt_file v1_needs_migration)

unfoldable pub decode : Bytes → Result Envelope
unfolding only_v2
decode bytes = do e ← decode_any bytes; only_v2 e
