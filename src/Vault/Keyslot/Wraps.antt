-- ===== src/Vault/Keyslot/Wraps.antt =====
-- src/config/keyslot.rs: a wrapped master key comes back under the same secret.
use ssh_control.Prelude.{
  ℕ, ◌≡◌, refl, Bytes, length, ok, by_ok, subst, ◌==◌, ==_iff, Bool-cases, inl, inr, true,
}
use ssh_control.Errors.{Result}
use ssh_control.Vault.Format.{KdfParams, Slot, slot_aad, slot_password, slot_device, wrapped_mk_len}
use ssh_control.Vault.Format.Binding.{slot_aad-wrapped_mk}
use ssh_control.Vault.Crypto.{Crates, IsAead, encrypt, derive_key, device_kek, decrypt-encrypt}
use ssh_control.Vault.Keyslot.{
  mk_len, blank_slot, wrap_under, unwrap_under, wrap_password, unwrap_password, wrap_device,
  unwrap_device,
}

abbrev Unwraps : Crates → Result Bytes → ℕ → ℕ → KdfParams → Bytes → Bytes → Bytes → Slot → Type 0
Unwraps c random_nonce kind kdf_id params salt kek mk s =
    (unwrap_under c s kek ≡ ok mk)
    × (s.kind ≡ kind)
    × (s.kdf_id ≡ kdf_id)
    × (s.kdf_params ≡ params)
    × (s.salt ≡ salt)
    × (length s.wrapped_mk ≡ wrapped_mk_len)
    × (random_nonce ≡ ok s.wrap_nonce)

module _ (c : Crates) (laws : IsAead c) where
  pub unwrap_under-wrap_under :
      (random_nonce : Result Bytes) (kind kdf_id : ℕ) (params : KdfParams) (salt kek mk : Bytes)
      (s : Slot)
      → length mk ≡ mk_len
      → wrap_under c random_nonce kind kdf_id params salt kek mk ≡ ok s
      → Unwraps c random_nonce kind kdf_id params salt kek mk s
  unfolding wrap_under unwrap_under
  unwrap_under-wrap_under random_nonce kind kdf_id params salt kek mk s size h =
      by_ok random_nonce _ h λ nonce e₁ h₁.
        let blank = blank_slot kind kdf_id params salt nonce in
        by_ok (encrypt c kek nonce (slot_aad blank) mk) _ h₁ λ sealed e₂ h₂.
          elim (Bool-cases (length sealed == 48)) [
            | inr wrong ↦ absurd (cc (rw wrong at h₂))
            | inl right ↦
                let made : record blank { wrapped_mk = sealed } ≡ s = cc (rw right at h₂) in
                let aad = slot_aad-wrapped_mk blank sealed in
                let opened = decrypt-encrypt c laws kek nonce (slot_aad blank) mk sealed e₂ in
                let fits : (length mk == 32) ≡ true = (==_iff _ _).1 size in
                subst (Unwraps c random_nonce kind kdf_id params salt kek mk) made
                  (rw aad (rw opened (rw fits)), refl, refl, refl, refl, (==_iff _ _).0 right, e₁)
          ]

  -- A slot made by `wrap_password` gives the master key back to the same password, and is a password
  -- slot with the cost parameters asked for.
  pub unwrap_password-wrap_password :
      (random_salt random_nonce : Result Bytes) (password : Bytes) (params : KdfParams) (mk : Bytes)
      (s : Slot)
      → length mk ≡ mk_len
      → wrap_password c random_salt random_nonce password params mk ≡ ok s
      → (unwrap_password c s password ≡ ok mk) × (s.kind ≡ slot_password) × (s.kdf_params ≡ params)
  unfolding wrap_password unwrap_password
  unwrap_password-wrap_password random_salt random_nonce password params mk s size h =
      by_ok random_salt _ h λ salt e₁ h₁.
        by_ok (derive_key c password salt params) _ h₁ λ kek e₂ h₂.
          let (opened, kind, kdf_id, costs, salted, _, _) =
            unwrap_under-wrap_under random_nonce slot_password 1 params salt kek mk s size h₂ in
          (simp (kdf_id, salted, costs, e₂) opened, kind, costs)

  -- A slot made by `wrap_device` gives the master key back to the same device key, and is a device
  -- slot.
  pub unwrap_device-wrap_device :
      (random_salt random_nonce : Result Bytes) (device_key mk : Bytes) (s : Slot)
      → length mk ≡ mk_len
      → wrap_device c random_salt random_nonce device_key mk ≡ ok s
      → (unwrap_device c s device_key ≡ ok mk) × (s.kind ≡ slot_device)
  unfolding wrap_device unwrap_device
  unwrap_device-wrap_device random_salt random_nonce device_key mk s size h =
      by_ok random_salt _ h λ salt e₁ h₁. by_ok (device_kek c device_key salt) _ h₁ λ kek e₂ h₂.
        let (opened, kind, kdf_id, costs, salted, _, _) =
          unwrap_under-wrap_under random_nonce slot_device 2 _ salt kek mk s size h₂ in
        (simp (kdf_id, salted, e₂) opened, kind)

  -- What the slot of a password holds besides: the random bytes that were drawn.
  pub wrap_password_shape :
      (random_salt random_nonce : Result Bytes) (password : Bytes) (params : KdfParams) (mk : Bytes)
      (s : Slot)
      → length mk ≡ mk_len
      → wrap_password c random_salt random_nonce password params mk ≡ ok s
      → (s.kdf_id ≡ 1)
        × (random_salt ≡ ok s.salt)
        × (random_nonce ≡ ok s.wrap_nonce)
        × (length s.wrapped_mk ≡ wrapped_mk_len)
  unfolding wrap_password
  wrap_password_shape random_salt random_nonce password params mk s size h =
      by_ok random_salt _ h λ salt e₁ h₁.
        by_ok (derive_key c password salt params) _ h₁ λ kek e₂ h₂.
          let (_, _, kdf_id, _, salted, long, drawn) =
            unwrap_under-wrap_under random_nonce slot_password 1 params salt kek mk s size h₂ in
          (kdf_id, rw salted e₁, drawn, long)
