-- ===== src/Vault/Format/Fields.antt =====
-- src/config/format.rs: what a successful read of a field, a slot or the tail says of the bytes.
use ssh_control.Prelude.{
  ℕ, zero, suc, ◌+◌, ◌*◌, ◌≤◌, ◌≡◌, refl, sym, ap, ◌∙◌, Bytes, length, List, [], ◌∷◌, ◌++◌, drop,
  All, IsByte, IsU32, arith, ok, index, slice, from_le_bytes32, to_le_bytes32, by_ok, index-eq-ok,
  slice-eq-ok, to_le-from_le, All-drop, All-append_left, append_assoc, subst, append-nil, drop_all,
  ==_iff, ◌==◌, Bool-cases, inl, inr, ◌%◌,
}
use ssh_control.Errors.{AppError}
use ssh_control.Vault.Format.{
  KdfParams, Slot, IsKdfParams, IsSlot, InBounds, encode_kdf_params, encode_slot_desc, encode_slot,
  encode_slots, check_kdf_params, slot_len, v2_prefix_len, nonce_len,
}
use ssh_control.Vault.Format.Decode.{
  read_u32, read_kdf_params, decode_slot, decode_slots, decode_tail,
}

from_le_bytes32-IsU32 :
    (b : Bytes) (v : ℕ) → All IsByte b → from_le_bytes32 {E = AppError} b ≡ ok v → IsU32 v
unfolding from_le_bytes32
from_le_bytes32-IsU32 (a ∷ b ∷ c ∷ d ∷ []) v (p, (q, (r, (s, _)))) h = ground arith
from_le_bytes32-IsU32 [] v all h = cc
from_le_bytes32-IsU32 _ v all h = cc

-- A slot and its parameters as the reader leaves them.
abbrev pub IsRead : Slot → Type 0
IsRead s = IsSlot s × InBounds s.kdf_id s.kdf_params

abbrev fields : ℕ → ℕ → KdfParams → Bytes → Bytes → Bytes → Slot
fields kind kdf_id p salt nonce mk = record {
  kind = kind;
  kdf_id = kdf_id;
  kdf_params = p;
  salt = salt;
  wrap_nonce = nonce;
  wrapped_mk = mk;
}

pub check_kdf_params-InBounds :
    (kdf_id : ℕ) (p : KdfParams) (u : Unit {0})
    → check_kdf_params kdf_id p ≡ ok u
    → InBounds kdf_id p
unfolding check_kdf_params
check_kdf_params-InBounds kdf_id p u h = ground arith

module _ (bs : Bytes) (bytes : All IsByte bs) where
  read_u32_sound :
      (at next v : ℕ)
      → next ≡ at + 4
      → read_u32 bs at ≡ ok v
      → (drop at bs ≡ to_le_bytes32 v ++ drop next bs) × IsU32 v
  unfolding read_u32
  read_u32_sound at next v step h = by_ok (slice bs at (at + 4)) from_le_bytes32 h λ b e k.
      let (cut, len, fits) = slice-eq-ok bs at (at + 4) b (omega arith) e in
      let all : All IsByte b =
        All-append_left IsByte b _ (subst (All IsByte) cut (All-drop IsByte at bs bytes)) in
      (
        rw step (cut ∙ ap (λ t. t ++ drop (at + 4) bs) (sym (to_le-from_le b v all k))),
        from_le_bytes32-IsU32 b v all k,
      )

  pub read_kdf_params_sound :
      (at next : ℕ) (p : KdfParams)
      → next ≡ at + 12
      → read_kdf_params bs at ≡ ok p
      → (drop at bs ≡ encode_kdf_params p ++ drop next bs) × IsKdfParams p
  unfolding read_kdf_params encode_kdf_params
  read_kdf_params_sound at next p step h = by_ok (read_u32 bs at) _ h λ m e₁ h₁.
      by_ok (read_u32 bs (at + 4)) _ h₁ λ t e₂ h₂. by_ok (read_u32 bs (at + 8)) _ h₂ λ c e₃ h₃.
        let (d₁, r₁) = read_u32_sound at (at + 4) m refl e₁ in
        let (d₂, r₂) = read_u32_sound (at + 4) (at + 8) t (omega arith) e₂ in
        let (d₃, r₃) = read_u32_sound (at + 8) next c (omega arith) e₃ in
        (ground arith, ground arith)

  pub index_sound :
      (at next b : ℕ)
      → next ≡ at + 1
      → index {E = AppError} bs at ≡ ok b
      → (drop at bs ≡ b ∷ drop next bs) × IsByte b
  index_sound at next b step h =
      let cut = index-eq-ok bs at b h in
      (rw step cut, (subst (All IsByte) cut (All-drop IsByte at bs bytes)).0)

  pub slice_sound :
      (from to n : ℕ) (s : Bytes)
      → to ≡ from + n
      → slice {E = AppError} bs from to ≡ ok s
      → (drop from bs ≡ s ++ drop to bs) × (length s ≡ n) × (to ≤ length bs)
  slice_sound from to n s step h =
      let (cut, len, fits) = slice-eq-ok bs from to s (omega arith) h in (cut, omega arith, fits)

  decode_slot_sound :
      (at next : ℕ) (s : Slot)
      → next ≡ at + slot_len
      → decode_slot bs at ≡ ok s
      → (drop at bs ≡ encode_slot s ++ drop next bs) × IsSlot s × InBounds s.kdf_id s.kdf_params
  unfolding decode_slot encode_slot encode_slot_desc
  decode_slot_sound at next s step h = by_ok (index bs at) _ h λ kind e₁ h₁.
      by_ok (index bs (at + 1)) _ h₁ λ kdf_id e₂ h₂.
        by_ok (read_kdf_params bs (at + 2)) _ h₂ λ p e₃ h₃.
          by_ok (check_kdf_params kdf_id p) _ h₃ λ u e₄ h₄.
            by_ok (slice bs (at + 14) (at + 14 + 16)) _ h₄ λ salt e₅ h₅.
              by_ok (slice bs (at + 14 + 16) (at + 14 + 16 + 12)) _ h₅ λ nonce e₆ h₆.
                by_ok (slice bs (at + 14 + 16 + 12) (at + 14 + 16 + 12 + 48)) _ h₆ λ mk e₇ h₇.
                  let (d₁, r₁) = index_sound at (at + 1) kind refl e₁ in
                  let (d₂, r₂) = index_sound (at + 1) (at + 2) kdf_id (omega arith) e₂ in
                  let (d₃, r₃) = read_kdf_params_sound (at + 2) (at + 14) p (omega arith) e₃ in
                  let (d₅, r₅, _) = slice_sound (at + 14) (at + 14 + 16) 16 salt refl e₅ in
                  let (d₆, r₆, _) =
                    slice_sound (at + 14 + 16) (at + 14 + 16 + 12) 12 nonce refl e₆ in
                  let (d₇, r₇, _) =
                    slice_sound (at + 14 + 16 + 12) (at + 14 + 16 + 12 + 48) 48 mk refl e₇ in
                  let end : next ≡ at + 14 + 16 + 12 + 48 = omega arith in
                  let made : fields kind kdf_id p salt nonce mk ≡ s = cc in
                  subst
                    (λ t.
                      (drop at bs ≡ encode_slot t ++ drop next bs)
                      × IsSlot t
                      × InBounds t.kdf_id t.kdf_params)
                    made
                    (
                      d₁ ∙ rw end (rw d₂ (rw d₃ (rw d₅ (rw d₆ (rw d₇ (simp append_assoc)))))),
                      ground arith,
                      check_kdf_params-InBounds kdf_id p u e₄,
                    )

  pub decode_slots_sound :
      (i n next : ℕ) (slots : List Slot)
      → next ≡ v2_prefix_len + (i + n) * slot_len
      → decode_slots bs i n ≡ ok slots
      → (drop (v2_prefix_len + i * slot_len) bs ≡ encode_slots slots ++ drop next bs)
        × (length slots ≡ n)
        × All IsRead slots
  unfolding decode_slots encode_slots
  decode_slots_sound i zero next slots step h =
      let none_read : [] ≡ slots = cc in
      let here : next ≡ v2_prefix_len + i * slot_len = omega arith in
      subst
        (λ t.
          (drop (v2_prefix_len + i * slot_len) bs ≡ encode_slots t ++ drop next bs)
          × (length t ≡ 0)
          × All IsRead t)
        none_read (rw here, refl, tt)
  decode_slots_sound i (suc n) next slots step h =
      by_ok (decode_slot bs (v2_prefix_len + i * slot_len)) _ h λ s e₁ h₁.
        by_ok (decode_slots bs (suc i) n) _ h₁ λ rest e₂ h₂.
          let (d₁, p₁, p₁') =
            decode_slot_sound (v2_prefix_len + i * slot_len) (v2_prefix_len + suc i * slot_len) s
              (omega arith) e₁ in
          let (d₂, l₂, p₂) = decode_slots_sound (suc i) n next rest (omega arith) e₂ in
          let made : s ∷ rest ≡ slots = cc in
          subst
            (λ t.
              (drop (v2_prefix_len + i * slot_len) bs ≡ encode_slots t ++ drop next bs)
              × (length t ≡ suc n)
              × All IsRead t)
            made (d₁ ∙ rw d₂ (sym (append_assoc (encode_slot s) _ _)), omega arith, ((p₁, p₁'), p₂))

  pub decode_tail_sound :
      (offset : ℕ) (nonce ciphertext : Bytes)
      → decode_tail bs offset ≡ ok (nonce, ciphertext)
      → (drop offset bs ≡ nonce ++ (to_le_bytes32 (length ciphertext % 4294967296) ++ ciphertext))
        × (length nonce ≡ nonce_len)
        × IsU32 (length ciphertext)
  unfolding decode_tail
  decode_tail_sound offset nonce ciphertext h = by_ok (slice bs offset (offset + 12)) _ h λ a e₁ h₁.
      by_ok (read_u32 bs (offset + 12)) _ h₁ λ n e₂ h₂.
        elim (Bool-cases (length bs == offset + 12 + 4 + n)) [
          | inr wrong ↦ absurd (cc (rw wrong at h₂))
          | inl right ↦
              by_ok (slice bs (offset + 12 + 4) (offset + 12 + 4 + n)) _ (rw right at h₂) λ c e₃ h₃.
                let total : length bs ≡ offset + 12 + 4 + n = (==_iff _ _).0 right in
                let (d₁, l₁, _) = slice_sound offset (offset + 12) 12 a refl e₁ in
                let (d₂, r₂) = read_u32_sound (offset + 12) (offset + 12 + 4) n refl e₂ in
                let (d₃, l₃, _) = slice_sound (offset + 12 + 4) (offset + 12 + 4 + n) n c refl e₃ in
                let end : drop (offset + 12 + 4 + n) bs ≡ [] = drop_all _ bs (omega arith) in
                let size : length c % 4294967296 ≡ n = omega arith in
                let made : ◌≡◌ {A = Bytes × Bytes} (a, c) (nonce, ciphertext) = cc in
                subst
                  (λ t.
                    (drop offset bs ≡ t.0 ++ (to_le_bytes32 (length t.1 % 4294967296) ++ t.1))
                    × (length t.0 ≡ nonce_len)
                    × IsU32 (length t.1))
                  made (d₁ ∙ rw d₂ (rw d₃ (rw end (rw append-nil (rw size)))), l₁, omega arith)
        ]
