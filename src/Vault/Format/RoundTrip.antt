-- ===== src/Vault/Format/RoundTrip.antt =====
-- src/config/format.rs: what `encode` wrote, `decode` reads back; and so for a version 1 file.
use ssh_control.Prelude.{
  ℕ, ◌+◌, ◌*◌, ◌≤◌, ◌%◌, ◌≡◌, refl, ap, ◌∙◌, Bytes, length, ◌∷◌, ◌++◌, IsU32, arith, ok, At,
  index-At, slice-At, to_le_bytes32, append_assoc, length-append, bytes_eq, ltb, le→ltb, index,
  slice, length-drop, ◌==◌, ◌||◌, false, true, leb, le→leb, if◌then◌else◌, ◌>>=◌, err,
}
use ssh_control.Errors.{AppError, Result, unsupported_format_version}
use ssh_control.Vault.Format.{
  AnyEnvelope, Envelope, EnvelopeV1, IsKdfParams, InBounds, v1, v2, magic, kdf_argon2id,
  encode_kdf_params, encode_slots, encode_header, encode, header_aad_v1, nonce_len, salt_len,
}
use ssh_control.Vault.Format.Decode.{decode_v1, decode_v2, decode_any, decode}
use ssh_control.Vault.Format.Sound.{IsEnvelope}
use ssh_control.Vault.Format.Reads.{
  decode_slots-At, decode_tail-At, read_kdf_params-At, check_kdf_params-ok,
}

abbrev tail : Bytes → Bytes → Bytes
tail nonce ciphertext = nonce ++ (to_le_bytes32 (length ciphertext % 4294967296) ++ ciphertext)

length-tail :
    (nonce ciphertext : Bytes)
    → length (tail nonce ciphertext) ≡ length nonce + 4 + length ciphertext
length-tail nonce ciphertext = rw length-append (omega arith)

slot_count : (n : ℕ) → 1 ≤ n → n ≤ 4 → (n == 0 || ltb 4 n) ≡ false
slot_count n p q = ground arith

module _ (bs : Bytes) (e : Envelope) (good : IsEnvelope e) where
  decode_v2-At :
      At bs 9 (length e.slots % 256 ∷ (encode_slots e.slots ++ tail e.nonce e.ciphertext))
      → decode_v2 bs ≡ ok e
  unfolding decode_v2
  decode_v2-At here =
      let wrap : length e.slots % 256 ≡ length e.slots = omega arith in
      let (e₁, r₁) = index-At {E = AppError} bs 9 (rw wrap at here) in
      let body = 10 + length e.slots * 90 in
      let (e₂, r₂) =
        decode_slots-At bs 0 body e.slots (tail e.nonce e.ciphertext) (omega arith) good.each_slot
          r₁ in
      let e₃ = decode_tail-At bs body e.nonce e.ciphertext good.nonce good.ciphertext r₂ in
      let long : ltb (length bs) (10 + length e.slots * 90 + 12 + 4) ≡ false =
        le→ltb _ _
          (omega (arith, ap length r₂.0, length-drop body bs, length-tail e.nonce e.ciphertext)) in
      rw e₁
        (rw (slot_count (length e.slots) good.some_slot good.few_slots) (rw long (rw e₂ (rw e₃))))

by_version : ℕ → Bytes → Result AnyEnvelope
by_version version bs =
    if version == 1
    then decode_v1 bs >>= (λ e. ok (v1 e))
    else if version == 2
    then decode_v2 bs >>= (λ e. ok (v2 e))
    else err (unsupported_format_version version)

-- With the magic in place, `decode_any` goes by the version byte.
decode_any-magic :
    (version : ℕ) (r : Bytes)
    → decode_any (magic ++ version ∷ r) ≡ by_version version (magic ++ version ∷ r)
unfolding decode_any bytes_eq index slice by_version
decode_any-magic version r =
    let bs : Bytes = magic ++ version ∷ r in
    let long : ltb (length bs) 9 ≡ false = le→ltb _ _ (omega arith) in
    let room : leb 8 (length bs) ≡ true = le→leb _ _ (omega arith) in rw long (rw room refl)

pub decode_any-encode :
    (e : Envelope) → IsEnvelope e → decode_any (encode e.slots e.nonce e.ciphertext) ≡ ok (v2 e)
unfolding by_version encode encode_header
decode_any-encode e good =
    let r : Bytes = length e.slots % 256 ∷ (encode_slots e.slots ++ tail e.nonce e.ciphertext) in
    let inner : decode_v2 (magic ++ 2 ∷ r) ≡ ok e =
      decode_v2-At (magic ++ 2 ∷ r) e good (refl, omega arith) in
    decode_any-magic 2 r ∙ rw inner

-- `decode` reads back every envelope that fits the format: one to four slots with cost parameters
-- inside the bounds, a 12-byte nonce, a ciphertext below 2^32 bytes.
pub decode-encode :
    (e : Envelope) → IsEnvelope e → decode (encode e.slots e.nonce e.ciphertext) ≡ ok e
unfolding decode
decode-encode e good = rw (decode_any-encode e good)

module _ (e : EnvelopeV1) (bs : Bytes) where
  decode_v1-At :
      IsKdfParams e.kdf_params
      → InBounds kdf_argon2id e.kdf_params
      → length e.salt ≡ salt_len
      → length e.nonce ≡ nonce_len
      → IsU32 (length e.ciphertext)
      → At bs 9
          (kdf_argon2id ∷ ((encode_kdf_params e.kdf_params ++ e.salt) ++ tail e.nonce e.ciphertext))
      → decode_v1 bs ≡ ok e
  unfolding decode_v1
  decode_v1-At params bounds salt nonce small here =
      let (e₁, r₁) = index-At {E = AppError} bs 9 here in
      let (e₂, r₂) =
        read_kdf_params-At bs 10 22 e.kdf_params (e.salt ++ tail e.nonce e.ciphertext) refl params
          (rw append_assoc at r₁) in
      let (e₃, r₃) = slice-At {E = AppError} bs 22 38 e.salt _ r₂ (omega arith) in
      let e₄ = decode_tail-At bs 38 e.nonce e.ciphertext nonce small r₃ in
      let long : ltb (length bs) (38 + 12 + 4) ≡ false =
        le→ltb _ _
          (omega (arith, ap length r₃.0, length-drop 38 bs, length-tail e.nonce e.ciphertext)) in
      rw long (
        rw e₁
          (rw e₂ (rw (check_kdf_params-ok bs kdf_argon2id e.kdf_params bounds) (rw e₃ (rw e₄)))))

-- A version 1 file is read, and `header_aad_v1` of the result is the header that the file begins
-- with, byte for byte: the authenticated data of its decryption.
pub decode_any-header_aad_v1 :
    (e : EnvelopeV1)
    → IsKdfParams e.kdf_params
    → InBounds kdf_argon2id e.kdf_params
    → length e.salt ≡ salt_len
    → length e.nonce ≡ nonce_len
    → IsU32 (length e.ciphertext)
    → decode_any (
        header_aad_v1 e
        ++ (e.nonce ++ (to_le_bytes32 (length e.ciphertext % 4294967296) ++ e.ciphertext)))
      ≡ ok (v1 e)
unfolding header_aad_v1 by_version
decode_any-header_aad_v1 e params bounds salt nonce small =
    let r : Bytes =
      kdf_argon2id ∷ ((encode_kdf_params e.kdf_params ++ e.salt) ++ tail e.nonce e.ciphertext) in
    let inner : decode_v1 (magic ++ 1 ∷ r) ≡ ok e =
      decode_v1-At e (magic ++ 1 ∷ r) params bounds salt nonce small (refl, omega arith) in
    decode_any-magic 1 r ∙ rw inner
