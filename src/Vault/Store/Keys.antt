-- ===== src/Vault/Store/Keys.antt =====
-- src/config/store.rs: the master key of a vault that a password opened.
use ssh_control.Prelude.{
  ◌≡◌, sym, Bytes, length, ok, map_err, not, ◌==◌, ==_iff, Bool-cases, inl, inr, by_ok,
}
use ssh_control.Errors.{wrong_password_or_corrupt, corrupt_file, undecodable}
use ssh_control.Vault.Format.{Slot, AnyEnvelope, v1, v2, slot_password, header_aad_v1}
use ssh_control.Vault.Format.Decode.{decode_any}
use ssh_control.Vault.Crypto.{Crates, derive_key, decrypt}
use ssh_control.Vault.Keyslot.{find, unwrap_under, unwrap_password, mk_len}
use ssh_control.Vault.Migrate.{Serde}
use ssh_control.Vault.Store.{
  World, Env, Unlocked, claim, read_file, decrypt_body, upgrade_v1, load_any, load, some_or,
  password_slots, write,
}
use ssh_control.Vault.Store.Written.{Fills, by_op, by_lift}

module _ {Config Object : Type 0} (c : Crates) (json : Serde Config Object) (path : Bytes) where
  unwrap_under-length :
      (s : Slot) (kek mk : Bytes) → unwrap_under c s kek ≡ ok mk → length mk ≡ mk_len
  unfolding unwrap_under
  unwrap_under-length s kek mk h =
      by_ok (decrypt c kek s.wrap_nonce _ s.wrapped_mk) _ h λ plain e₁ h₁.
        elim (Bool-cases (length plain == mk_len)) [
          | inl fits ↦
              let same : plain ≡ mk = cc (rw fits at h₁) in rw (sym same) ((==_iff _ _).0 fits)
          | inr wrong ↦ absurd (cc (rw wrong at h₁))
        ]

  unwrap_password-length :
      (s : Slot) (password mk : Bytes) → unwrap_password c s password ≡ ok mk → length mk ≡ mk_len
  unfolding unwrap_password
  unwrap_password-length s password mk h = elim (Bool-cases (not (s.kdf_id == 1))) [
    | inl other ↦ absurd (cc (rw other at h))
    | inr argon ↦
        by_ok (derive_key c password s.salt s.kdf_params) _ (rw argon at h)
          λ kek e₁ h₁. unwrap_under-length s kek mk h₁
  ]

  load_any-length :
      (env : Env) (password : Bytes) (any : AnyEnvelope) (w w' : World) (u : Unlocked Config)
      → Fills env
      → load_any c json path env password any w ≡ (w', ok u)
      → length u.master_key ≡ mk_len
  unfolding upgrade_v1
  load_any-length env password (v2 e) w w' u fills h =
      by_lift (some_or (find e.slots slot_password) wrong_password_or_corrupt) w _ h λ s e₁ h₁.
        by_lift (unwrap_password c s password) w _ h₁ λ mk e₂ h₂.
          by_lift (decrypt_body c json path e mk) w _ h₂ λ config e₃ h₃.
            let same : mk ≡ u.master_key = cc in
            rw (sym same) (unwrap_password-length s password mk e₂)
  load_any-length env password (v1 e) w w' u fills h =
      by_lift (derive_key c password e.salt e.kdf_params) w _ h λ old e₁ h₁.
        by_lift (decrypt c old e.nonce (header_aad_v1 e) e.ciphertext) w _ h₁ λ text e₂ h₂.
          by_lift (map_err (λ t. corrupt_file (undecodable t)) (json.config_from_slice text)) w _ h₂
            λ config e₃ h₃. by_lift env.master_key w _ h₃ λ mk e₄ h₄.
              by_lift (password_slots c json path env password e.kdf_params mk) w _ h₄
                λ slots e₅ h₅. by_op (write c json path env config mk slots w) _ h₅ λ w₁ t e₆ h₆.
                  let same : mk ≡ u.master_key = cc in rw (sym same) (fills.master_key mk e₄)

  -- A vault that a password opens has a master key of 32 bytes, also one of version 1.
  pub load-length :
      (env : Env) (password : Bytes) (w w' : World) (u : Unlocked Config)
      → Fills env
      → load c json path env password w ≡ (w', ok u)
      → length u.master_key ≡ mk_len
  unfolding load
  load-length env password w w' u fills h = by_op (claim env w) _ h λ w₁ t e₁ h₁.
      by_op (read_file env path w₁) _ h₁ λ w₂ bytes e₂ h₂.
        by_lift (decode_any bytes) w₂ _ h₂
          λ any e₃ h₃. load_any-length env password any w₂ w' u fills h₃
