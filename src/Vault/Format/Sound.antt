-- ===== src/Vault/Format/Sound.antt =====
-- src/config/format.rs: whatever `decode` accepts is the encoding of what it returns.
use ssh_control.Prelude.{
  ℕ, ◌+◌, ◌*◌, ◌≤◌, ◌%◌, ◌≡◌, refl, sym, ◌∙◌, Bytes, length, ◌∷◌, ◌++◌, drop, All, IsByte, IsU32,
  arith, ok, index, slice, by_ok, subst, Bool-cases, inl, inr, ltb, bytes_eq, bytes_eq_iff, ◌==◌,
  ◌||◌, if◌then◌else◌, ◌>>=◌, err, List,
}
use ssh_control.Errors.{unsupported_format_version}
use ssh_control.Vault.Format.{
  Envelope, AnyEnvelope, Slot, v1, v2, magic, encode_header, encode, nonce_len,
}
use ssh_control.Vault.Format.Decode.{
  decode_slots, decode_tail, decode_v2, decode_v1, decode_any, only_v2, decode,
}
use ssh_control.Vault.Format.Fields.{
  IsRead, index_sound, slice_sound, decode_slots_sound, decode_tail_sound,
}

pub record IsEnvelope (e : Envelope) : Type 0 where
  pub some_slot : 1 ≤ length e.slots
  pub few_slots : length e.slots ≤ 4
  pub each_slot : All IsRead e.slots
  pub nonce : length e.nonce ≡ nonce_len
  pub ciphertext : IsU32 (length e.ciphertext)

abbrev Spells : Bytes → Envelope → Type 0
Spells bs e = (encode e.slots e.nonce e.ciphertext ≡ bs) × IsEnvelope e

abbrev parts : List Slot → Bytes → Bytes → Envelope
parts slots nonce ciphertext = record { slots = slots; nonce = nonce; ciphertext = ciphertext }

module _ (bs : Bytes) (bytes : All IsByte bs) where
  decode_any_version :
      (version : ℕ) (e : Envelope)
      → (if version == 1
          then decode_v1 bs >>= (λ x. ok (v1 x))
          else if version == 2
          then decode_v2 bs >>= (λ x. ok (v2 x))
          else err (unsupported_format_version version))
        ≡ ok (v2 e)
      → (version ≡ 2) × (decode_v2 bs ≡ ok e)
  decode_any_version version e h = ground arith

  pub decode_any_header :
      (e : Envelope)
      → decode_any bs ≡ ok (v2 e)
      → (bs ≡ magic ++ 2 ∷ drop 9 bs) × (decode_v2 bs ≡ ok e)
  unfolding decode_any
  decode_any_header e h = elim (Bool-cases (ltb (length bs) 9)) [
    | inl short ↦ absurd (cc (rw short at h))
    | inr long ↦ by_ok (slice bs 0 8) _ (rw long at h) λ head e₁ h₁.
        by_ok (index bs 8) _ h₁ λ version e₂ h₂. elim (Bool-cases (bytes_eq head magic)) [
          | inr foreign ↦ absurd (cc (rw foreign at h₂))
          | inl ours ↦
              let (d₁, _, _) = slice_sound bs bytes 0 8 8 head refl e₁ in
              let (d₂, _) = index_sound bs bytes 8 9 version refl e₂ in
              let m : head ≡ magic = (bytes_eq_iff head magic).0 ours in
              let h₃ = rw ours at h₂ in
              let (is_v2, inner) = decode_any_version version e h₃ in
              (d₁ ∙ rw m (rw d₂ (rw is_v2)), inner)
        ]
  ]

  decode_v2_sound : (e : Envelope) → bs ≡ magic ++ 2 ∷ drop 9 bs → decode_v2 bs ≡ ok e → Spells bs e
  unfolding decode_v2 encode encode_header
  decode_v2_sound e head h = by_ok (index bs 9) _ h λ n e₁ h₁.
      elim (Bool-cases (n == 0 || ltb 4 n)) [
        | inl wrong ↦ absurd (cc (rw wrong at h₁))
        | inr right ↦ elim (Bool-cases (ltb (length bs) (10 + n * 90 + 12 + 4))) [
          | inl short ↦ absurd (cc (rw (right, short) at h₁))
          | inr long ↦ by_ok (decode_slots bs 0 n) _ (rw (right, long) at h₁) λ slots e₂ h₂.
              by_ok (decode_tail bs (10 + n * 90)) _ h₂ λ (nonce, ciphertext) e₃ h₃.
                let (d₀, _) = index_sound bs bytes 9 10 n refl e₁ in
                let (d₁, l₁, good) =
                  decode_slots_sound bs bytes 0 n (10 + n * 90) slots (omega arith) e₂ in
                let (d₂, l₂, small) =
                  decode_tail_sound bs bytes (10 + n * 90) nonce ciphertext e₃ in
                let few : (1 ≤ n) × (n ≤ 4) = ground arith in
                let made : parts slots nonce ciphertext ≡ e = cc in
                subst (Spells bs) made (
                  rw (let c : length slots % 256 ≡ n = omega arith in c)
                      (sym (head ∙ rw d₀ (rw d₁ (rw d₂)))),
                  record {
                    some_slot = omega arith;
                    few_slots = omega arith;
                    each_slot = good;
                    nonce = l₂;
                    ciphertext = small;
                  },
                )
        ]
      ]

  -- Whatever `decode` accepts is, byte for byte, the encoding of the envelope that it returns; that
  -- envelope has one to four slots with cost parameters inside the bounds, and a 12-byte nonce.
  pub encode-decode :
      (e : Envelope) → decode bs ≡ ok e → (encode e.slots e.nonce e.ciphertext ≡ bs) × IsEnvelope e
  unfolding decode
  encode-decode e h = by_ok (decode_any bs) only_v2 h λ a e₁ h₁. from_any a e₁ h₁
    where
      from_any : (a : AnyEnvelope) → decode_any bs ≡ ok a → only_v2 a ≡ ok e → Spells bs e
      from_any (v1 x) e₁ h₁ = absurd (cc)
      from_any (v2 x) e₁ h₁ =
          let same : x ≡ e = cc in
          let (head, inner) = decode_any_header x e₁ in
          subst (Spells bs) same (decode_v2_sound x head inner)
