-- ===== src/Vault/Format/Reads.antt =====
-- src/config/format.rs: each field, slot and tail is read back where it was written.
use ssh_control.Prelude.{
  ℕ, suc, ◌+◌, ◌*◌, ◌%◌, ◌≡◌, refl, ap, Bytes, length, List, [], ◌∷◌, ◌++◌, All, IsU32, arith, ok,
  At, index-At, slice-At, from_le-to_le, to_le_bytes32, append_assoc, ==_refl, append-nil,
  length-drop,
}
use ssh_control.Errors.{AppError}
use ssh_control.Vault.Format.{
  KdfParams, Slot, IsKdfParams, InBounds, encode_kdf_params, encode_slot_desc, encode_slot,
  encode_slots, check_kdf_params, nonce_len, slot_len, v2_prefix_len,
}
use ssh_control.Vault.Format.Decode.{
  read_u32, read_kdf_params, decode_slot, decode_slots, decode_tail,
}
use ssh_control.Vault.Format.Fields.{IsRead}

module _ (bs : Bytes) where
  read_u32-At :
      (at next v : ℕ) (r : Bytes)
      → next ≡ at + 4
      → IsU32 v
      → At bs at (to_le_bytes32 v ++ r)
      → (read_u32 bs at ≡ ok v) × At bs next r
  unfolding read_u32
  read_u32-At at next v r step small here =
      let (read, rest) = slice-At {E = AppError} bs at (at + 4) (to_le_bytes32 v) r here refl in
      (rw read (from_le-to_le v small), rw step rest)

  pub read_kdf_params-At :
      (at next : ℕ) (p : KdfParams) (r : Bytes)
      → next ≡ at + 12
      → IsKdfParams p
      → At bs at (encode_kdf_params p ++ r)
      → (read_kdf_params bs at ≡ ok p) × At bs next r
  unfolding read_kdf_params encode_kdf_params
  read_kdf_params-At at next p r step small here =
      let (e₁, r₁) = read_u32-At at (at + 4) p.m_cost _ refl small.m_cost here in
      let (e₂, r₂) = read_u32-At (at + 4) (at + 8) p.t_cost _ (omega arith) small.t_cost r₁ in
      let (e₃, r₃) = read_u32-At (at + 8) next p.p_cost r (omega arith) small.p_cost r₂ in
      (rw e₁ (rw e₂ (rw e₃)), r₃)

  pub check_kdf_params-ok :
      (kdf_id : ℕ) (p : KdfParams) → InBounds kdf_id p → check_kdf_params kdf_id p ≡ ok tt
  unfolding check_kdf_params
  check_kdf_params-ok kdf_id p h = ground arith

  pub decode_slot-At :
      (at next : ℕ) (s : Slot) (r : Bytes)
      → next ≡ at + slot_len
      → IsRead s
      → At bs at (encode_slot s ++ r)
      → (decode_slot bs at ≡ ok s) × At bs next r
  unfolding decode_slot encode_slot encode_slot_desc
  decode_slot-At at next s r step (slot, bounds) here =
      let here' : At bs at (
          s.kind
          ∷ s.kdf_id
          ∷ (encode_kdf_params s.kdf_params ++ (s.salt ++ (s.wrap_nonce ++ (s.wrapped_mk ++ r))))) =
        simp append_assoc at here in
      let (e₁, r₁) = index-At {E = AppError} bs at here' in
      let (e₂, r₂) = index-At {E = AppError} bs (at + 1) r₁ in
      let next₂ : at + 1 + 1 ≡ at + 2 = omega arith in
      let (e₃, r₃) =
        read_kdf_params-At (at + 2) (at + 14) s.kdf_params _ (omega arith) slot.kdf_params
          (rw next₂ at r₂) in
      let (e₅, r₅) =
        slice-At {E = AppError} bs (at + 14) (at + 14 + 16) s.salt _ r₃ (omega arith) in
      let (e₆, r₆) =
        slice-At {E = AppError} bs (at + 14 + 16) (at + 14 + 16 + 12) s.wrap_nonce _ r₅
          (omega arith) in
      let (e₇, r₇) =
        slice-At {E = AppError} bs (at + 14 + 16 + 12) (at + 14 + 16 + 12 + 48) s.wrapped_mk r r₆
          (omega arith) in
      let end : next ≡ at + 14 + 16 + 12 + 48 = omega arith in
      (
        rw e₁ (
            rw e₂ (
              rw e₃
                (rw (check_kdf_params-ok s.kdf_id s.kdf_params bounds) (rw e₅ (rw e₆ (rw e₇)))))),
        rw end r₇,
      )

  pub decode_slots-At :
      (i next : ℕ) (slots : List Slot) (r : Bytes)
      → next ≡ v2_prefix_len + (i + length slots) * slot_len
      → All IsRead slots
      → At bs (v2_prefix_len + i * slot_len) (encode_slots slots ++ r)
      → (decode_slots bs i (length slots) ≡ ok slots) × At bs next r
  unfolding decode_slots encode_slots
  decode_slots-At i next [] r step all here =
      (refl, rw (let e : next ≡ v2_prefix_len + i * slot_len = omega arith in e) here)
  decode_slots-At i next (s ∷ slots) r step (good, all) here =
      let (e₁, r₁) =
        decode_slot-At (v2_prefix_len + i * slot_len) (v2_prefix_len + suc i * slot_len) s
          (encode_slots slots ++ r) (omega arith) good (rw append_assoc at here) in
      let (e₂, r₂) = decode_slots-At (suc i) next slots r (omega arith) all r₁ in
      (rw e₁ (rw e₂), r₂)

  pub decode_tail-At :
      (offset : ℕ) (nonce ciphertext : Bytes)
      → length nonce ≡ nonce_len
      → IsU32 (length ciphertext)
      → At bs offset (nonce ++ (to_le_bytes32 (length ciphertext % 4294967296) ++ ciphertext))
      → decode_tail bs offset ≡ ok (nonce, ciphertext)
  unfolding decode_tail
  decode_tail-At offset nonce ciphertext nonce_ok small here =
      let wrap : length ciphertext % 4294967296 ≡ length ciphertext = omega arith in
      let (e₁, r₁) = slice-At {E = AppError} bs offset (offset + 12) nonce _ here (omega arith) in
      let (e₂, r₂) =
        read_u32-At (offset + 12) (offset + 12 + 4) (length ciphertext) ciphertext refl small
          (rw wrap at r₁) in
      let (e₃, r₃) =
        slice-At {E = AppError} bs (offset + 12 + 4) (offset + 12 + 4 + length ciphertext)
          ciphertext [] (rw append-nil r₂) refl in
      let total : length bs ≡ offset + 12 + 4 + length ciphertext =
        omega (arith, ap length r₂.0, length-drop (offset + 12 + 4) bs) in
      rw e₁ (rw e₂ (rw total (rw (==_refl (offset + 12 + 4 + length ciphertext)) (rw e₃))))
