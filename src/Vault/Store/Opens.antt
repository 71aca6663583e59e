-- ===== src/Vault/Store/Opens.antt =====
-- src/config/store.rs: what was created or saved opens again with the same secret.
use ssh_control.Prelude.{
  ◌≤◌, ◌≡◌, sym, ap, ◌∙◌, Bytes, List, [], ◌∷◌, length, ok, none, some, map_err, arith, All, subst,
}
use ssh_control.Errors.{Result, serde}
use ssh_control.Vault.Format.{Slot, v2, slot_password, slot_device, encode, header_aad}
use ssh_control.Vault.Format.Decode.{decode_any}
use ssh_control.Vault.Format.Fields.{IsRead}
use ssh_control.Vault.Format.RoundTrip.{decode_any-encode}
use ssh_control.Vault.Crypto.{Crates, IsAead, encrypt, decrypt-encrypt, encrypt-length}
use ssh_control.Vault.Keyslot.{find, wrap_password, unwrap_password, unwrap_device}
use ssh_control.Vault.Keyslot.Wraps.{unwrap_password-wrap_password, wrap_password_shape}
use ssh_control.Vault.Disk.{write_file_atomic, write_file_atomic-all_or_nothing, all_or_nothing}
use ssh_control.Vault.Migrate.{Serde, config_from_slice}
use ssh_control.Vault.Store.{
  World, Env, Unlocked, claim, put_file, write, load, load_with_device, decrypt_body, init, save,
  password_slots, interactive,
}
use ssh_control.Vault.Store.Written.{
  IsWritten, IsReread, Fills, Wrote, envelope, by_op, by_lift, one_slot, password_slot-IsRead,
  find_one,
}

module _ {Config Object : Type 0} (c : Crates) (json : Serde Config Object) (path : Bytes) where
  put_file-ok :
      (env : Env) (bytes : Bytes) (w w' : World)
      → put_file env bytes w ≡ (w', ok tt)
      → w'.disk.vault ≡ some bytes
  unfolding put_file
  put_file-ok env bytes w w' h =
      let done : (write_file_atomic env.write bytes w.disk).1 ≡ ok tt =
        ap (λ (r : World × Result (Unit {0})). r.1) h in
      sym (ap (λ (r : World × Result (Unit {0})). r.0.disk.vault) h)
      ∙ (write_file_atomic-all_or_nothing env.write bytes w.disk).0
      ∙ ap (λ (r : Result (Unit {0})). all_or_nothing r bytes w.disk.vault) done

  write-Wrote :
      (env : Env) (config : Config) (mk : Bytes) (slots : List Slot) (w w' : World)
      → write c json path env config mk slots w ≡ (w', ok tt)
      → Wrote c json config mk slots env w'
  unfolding write
  write-Wrote env config mk [] w w' h = absurd (cc)
  write-Wrote env config mk (s ∷ slots) w w' h =
      by_lift (map_err serde (json.to_vec config)) w _ h λ text e₁ h₁.
        by_lift env.nonce w _ h₁ λ nonce e₂ h₂.
          by_lift (encrypt c mk nonce (header_aad (s ∷ slots)) text) w _ h₂ λ ciphertext e₃ h₃.
            record {
              text = text;
              nonce = nonce;
              ciphertext = ciphertext;
              serialized = ground (arith, e₁);
              drawn = e₂;
              sealed = e₃;
              on_disk = put_file-ok env _ w w' h₃;
              some_slot = omega arith;
            }

  -- The text of a config of the current version reads as that config.
  IsWritten-IsReread : (config : Config) → IsWritten json config → IsReread json config config
  unfolding config_from_slice
  IsWritten-IsReread config written = record {
    read = λ text to_text. rw (written.stamp text to_text) (rw (written.read_back text to_text));
    short = written.short;
  }

  decrypt_body-encrypt :
      IsAead c
      → (config config' : Config) (mk text ciphertext nonce : Bytes) (slots : List Slot)
      → IsReread json config config'
      → json.to_vec config ≡ ok text
      → encrypt c mk nonce (header_aad slots) text ≡ ok ciphertext
      → decrypt_body c json path
          (record { slots = slots; nonce = nonce; ciphertext = ciphertext })
          mk
        ≡ ok config'
  unfolding decrypt_body
  decrypt_body-encrypt laws config config' mk text ciphertext nonce slots reread to_text sealed =
      rw (decrypt-encrypt c laws mk nonce (header_aad slots) text ciphertext sealed, decrypt_body)
        (rw (reread.read text to_text))

  module _ (laws : IsAead c) {env : Env} {config config' : Config} {mk : Bytes} {slots : List Slot}
      {w : World} (wrote : Wrote c json config mk slots env w)
      (written : IsReread json config config') (each_slot : All IsRead slots)
      (few : length slots ≤ 4) (twelve : (b : Bytes) → env.nonce ≡ ok b → length b ≡ 12) where
    file_decodes :
        decode_any (encode slots wrote.nonce wrote.ciphertext)
        ≡ ok (v2 (envelope slots wrote.nonce wrote.ciphertext))
    file_decodes = decode_any-encode (envelope slots wrote.nonce wrote.ciphertext) (record {
      some_slot = wrote.some_slot;
      few_slots = few;
      each_slot = each_slot;
      nonce = twelve wrote.nonce wrote.drawn;
      ciphertext = omega (
        arith,
        written.short wrote.text wrote.serialized,
        encrypt-length c laws mk wrote.nonce (header_aad slots) wrote.text wrote.ciphertext
            wrote.sealed,
      );
    })

    body : decrypt_body c json path (envelope slots wrote.nonce wrote.ciphertext) mk ≡ ok config'
    body =
        decrypt_body-encrypt laws config config' mk wrote.text wrote.ciphertext wrote.nonce slots
          written wrote.serialized wrote.sealed

    load_opens :
        (env' : Env) (s : Slot) (password : Bytes)
        → (claim env' w).1 ≡ ok tt
        → env'.read ≡ none
        → find slots slot_password ≡ some s
        → unwrap_password c s password ≡ ok mk
        → (load c json path env' password w).1
          ≡ ok (record { config = config'; master_key = mk; slots = slots })
    unfolding load
    load_opens env' s password claimed readable found opens =
        rw (claimed, readable, wrote.on_disk) (simp (file_decodes, found, opens) (rw body))

    load_with_device_opens :
        (env' : Env) (s : Slot) (device_key : Bytes)
        → (claim env' w).1 ≡ ok tt
        → env'.read ≡ none
        → find slots slot_device ≡ some s
        → unwrap_device c s device_key ≡ ok mk
        → (load_with_device c json path env' device_key w).1
          ≡ ok (record { config = config'; master_key = mk; slots = slots })
    unfolding load_with_device
    load_with_device_opens env' s device_key claimed readable found opens =
        rw (claimed, readable, wrote.on_disk) (simp (file_decodes, found, opens) (rw body))

  -- What `save` wrote without an error opens again, with the config that its text reads as.
  pub load-save_reread :
      IsAead c
      → (env env' : Env) (config config' : Config) (mk : Bytes) (slots : List Slot) (w w' : World)
      → IsReread json config config'
      → All IsRead slots
      → length slots ≤ 4
      → ((b : Bytes) → env.nonce ≡ ok b → length b ≡ 12)
      → save c json path env config mk slots w ≡ (w', ok tt)
      → (claim env' w').1 ≡ ok tt
      → env'.read ≡ none
      → (s : Slot) (password : Bytes) → find slots slot_password ≡ some s
      → unwrap_password c s password ≡ ok mk
      → (load c json path env' password w').1
        ≡ ok (record { config = config'; master_key = mk; slots = slots })
  unfolding save
  load-save_reread laws env env' config config' mk slots w w' reread good few twelve h claimed
        readable s password found opens =
      load_opens laws (write-Wrote env config mk slots w w' h) reread good few twelve env' s
        password claimed readable found opens

  -- What `save` wrote without an error opens again with a password that unwraps
  -- the master key from the first password slot:
  -- the config, the master key and the slots are those that were saved. The slots are one to four
  -- that fit the format, and the later call gets the lock and can read the file.
  pub load-save :
      IsAead c
      → (env env' : Env) (config : Config) (mk : Bytes) (slots : List Slot) (w w' : World)
      → IsWritten json config
      → All IsRead slots
      → length slots ≤ 4
      → ((b : Bytes) → env.nonce ≡ ok b → length b ≡ 12)
      → save c json path env config mk slots w ≡ (w', ok tt)
      → (claim env' w').1 ≡ ok tt
      → env'.read ≡ none
      → (s : Slot) (password : Bytes) → find slots slot_password ≡ some s
      → unwrap_password c s password ≡ ok mk
      → (load c json path env' password w').1
        ≡ ok (record { config = config; master_key = mk; slots = slots })
  unfolding save
  load-save laws env env' config mk slots w w' written good few twelve h claimed readable s password
        found opens =
      load-save_reread laws env env' config config mk slots w w' (IsWritten-IsReread config written)
        good few twelve h claimed readable s password found opens

  -- What `save` wrote without an error opens again with a device key that unwraps
  -- the master key from the first device slot:
  -- the config, the master key and the slots are those that were saved. The slots are one to four
  -- that fit the format, and the later call gets the lock and can read the file.
  pub load_with_device-save :
      IsAead c
      → (env env' : Env) (config : Config) (mk : Bytes) (slots : List Slot) (w w' : World)
      → IsWritten json config
      → All IsRead slots
      → length slots ≤ 4
      → ((b : Bytes) → env.nonce ≡ ok b → length b ≡ 12)
      → save c json path env config mk slots w ≡ (w', ok tt)
      → (claim env' w').1 ≡ ok tt
      → env'.read ≡ none
      → (s : Slot) (device_key : Bytes) → find slots slot_device ≡ some s
      → unwrap_device c s device_key ≡ ok mk
      → (load_with_device c json path env' device_key w').1
        ≡ ok (record { config = config; master_key = mk; slots = slots })
  unfolding save
  load_with_device-save laws env env' config mk slots w w' written good few twelve h claimed
        readable s device_key found opens =
      load_with_device_opens laws (write-Wrote env config mk slots w w' h)
        (IsWritten-IsReread config written) good few twelve env' s device_key claimed readable found
        opens

  -- A first run with a password that reports success leaves a vault that the same password opens: the
  -- same config, master key and slots, as soon as a later call gets the lock and can read the file.
  pub load-init :
      IsAead c
      → (env env' : Env) (config : Config) (master_password : Bytes) (w w' : World)
        (u : Unlocked Config)
      → IsWritten json config
      → Fills env
      → init c json path env config master_password w ≡ (w', ok u)
      → (claim env' w').1 ≡ ok tt
      → env'.read ≡ none
      → (load c json path env' master_password w').1 ≡ ok u
  unfolding init
  load-init laws env env' config pw w w' u written fills h claimed readable =
      by_op (claim env w) _ h λ w₁ t e₁ h₁. by_lift env.master_key w₁ _ h₁ λ mk e₂ h₂.
        by_lift (password_slots c json path env pw interactive mk) w₁ _ h₂ λ slots e₃ h₃.
          by_op (write c json path env config mk slots w₁) _ h₃ λ w₂ t' e₄ h₄.
            let (s, made, one) =
              one_slot (wrap_password c env.salt env.wrap_nonce pw interactive mk) slots e₃ in
            let size = fills.master_key mk e₂ in
            let (opens, kind, costs) =
              unwrap_password-wrap_password c laws env.salt env.wrap_nonce pw interactive mk s size
                made in
            let (kdf_id, salt, nonce, wrapped) =
              wrap_password_shape c laws env.salt env.wrap_nonce pw interactive mk s size made in
            let read : IsRead s =
              password_slot-IsRead s kind kdf_id costs (fills.salt s.salt salt)
                (fills.wrap_nonce s.wrap_nonce nonce) wrapped in
            let w₂-eq : w₂ ≡ w' = ap (λ (r : World × Result (Unlocked Config)). r.0) h₄ in
            let u-eq : ok (record { config = config; master_key = mk; slots = slots }) ≡ ok u =
              ap (λ (r : World × Result (Unlocked Config)). r.1) h₄ in
            load_opens laws
              (write-Wrote env config mk slots w₁ w' (e₄ ∙ ap (λ w. (w, ok t')) w₂-eq))
              (IsWritten-IsReread config written) (subst (All IsRead) one (read, tt))
              (omega (arith, ap length one)) fills.nonce env' s pw claimed readable
              (find_one s slots one kind) opens
            ∙ u-eq
