-- ===== src/Vault/Store/Atomic.antt =====
-- src/config/store.rs: a call that does not succeed leaves the vault file as it was.
use ssh_control.Prelude.{
  ℕ, ◌∷◌, [], ◌≡◌, ◌≢◌, refl, ◌∙◌, Bytes, List, ok, err, panic, map_err, arith, Option,
}
use ssh_control.Errors.{Result, serde, corrupt_file, undecodable, wrong_password_or_corrupt}
use ssh_control.Vault.Format.{
  Slot, Envelope, EnvelopeV1, AnyEnvelope, v1, v2, header_aad, header_aad_v1, slot_password,
  slot_device,
}
use ssh_control.Vault.Crypto.{Crates, encrypt, decrypt, derive_key}
use ssh_control.Vault.Keyslot.{find, unwrap_password, unwrap_device}
use ssh_control.Vault.Format.Decode.{decode_any}
use ssh_control.Vault.Migrate.{Serde}
use ssh_control.Vault.Disk.{
  Disk, write_file_atomic, write_file_atomic-all_or_nothing, all_or_nothing,
}
use ssh_control.Vault.Store.{
  World, Env, Op, Unlocked, ◌>>=◌, on_ok, device_any, lift, claim, read_file, put_file, write,
  init_slots, upgrade_v1, load, load_any, open_with, load_with_device, some_or, decrypt_body,
  password_slots,
}

-- The call changes no vault file.
abbrev Reads : {A : Type 0} → Op A → Type 0
Reads m = (w : World) → (m w).0.disk.vault ≡ w.disk.vault

-- The call changes the vault file only where it returns a value.
abbrev IsSafe : {A : Type 0} → Op A → Type 0
IsSafe {A} m = (w : World) → ((a : A) → (m w).1 ≢ ok a) → (m w).0.disk.vault ≡ w.disk.vault

module _ {A B : Type 0} (f : A → Op B) where
  after-Reads :
      (r : World × Result A) (v : Option Bytes)
      → ((a : A) → Reads (f a))
      → r.0.disk.vault ≡ v
      → (on_ok r f).0.disk.vault ≡ v
  after-Reads (w, ok a) v k h = k a w ∙ h
  after-Reads (w, err e) v k h = h
  after-Reads (w, panic) v k h = h

  after-IsSafe :
      (r : World × Result A) (v : Option Bytes)
      → ((a : A) → IsSafe (f a))
      → r.0.disk.vault ≡ v
      → ((b : B) → (on_ok r f).1 ≢ ok b)
      → (on_ok r f).0.disk.vault ≡ v
  after-IsSafe (w, ok a) v k h fails = k a w fails ∙ h
  after-IsSafe (w, err e) v k h fails = h
  after-IsSafe (w, panic) v k h fails = h

module _ {A B : Type 0} (m : Op A) (f : A → Op B) where
  bind-Reads : Reads m → ((a : A) → Reads (f a)) → Reads (m >>= f)
  bind-Reads h k w = after-Reads f (m w) w.disk.vault k (h w)

  bind-IsSafe : Reads m → ((a : A) → IsSafe (f a)) → IsSafe (m >>= f)
  bind-IsSafe h k w fails = after-IsSafe f (m w) w.disk.vault k (h w) fails

lift-Reads : {A : Type 0} (r : Result A) → Reads (lift r)
lift-Reads r w = refl

lift-IsSafe : {A : Type 0} (r : Result A) → IsSafe (lift r)
lift-IsSafe r w fails = refl

claim-Reads : (env : Env) → Reads (claim env)
unfolding claim
claim-Reads env w = refl

read_file-Reads : (env : Env) (path : Bytes) → Reads (read_file env path)
unfolding read_file
read_file-Reads env path w = ground arith

put_file-IsSafe : (env : Env) (bytes : Bytes) → IsSafe (put_file env bytes)
unfolding put_file
put_file-IsSafe env bytes w fails =
    let (kept, no_panic) = write_file_atomic-all_or_nothing env.write bytes w.disk in
    not_ok (write_file_atomic env.write bytes w.disk) kept fails
  where
    not_ok :
        (r : Disk × Result (Unit {0}))
        → r.0.vault ≡ all_or_nothing r.1 bytes w.disk.vault
        → ((a : Unit {0}) → r.1 ≢ ok a)
        → r.0.vault ≡ w.disk.vault
    not_ok (d, ok u) h fails = absurd (fails u refl)
    not_ok (d, err e) h fails = h
    not_ok (d, panic) h fails = h

-- After a step that changed the file, nothing may fail.
done-IsSafe : {B : Type 0} (m : Op (Unit {0})) (b : B) → IsSafe m → IsSafe (m >>= λ _. lift (ok b))
done-IsSafe {B} m b h w fails = go (m w) (h w) fails
  where
    go :
        (r : World × Result (Unit {0}))
        → (((a : Unit {0}) → r.1 ≢ ok a) → r.0.disk.vault ≡ w.disk.vault)
        → ((a : B) → (on_ok r (λ _. lift (ok b))).1 ≢ ok a)
        → (on_ok r (λ _. lift (ok b))).0.disk.vault ≡ w.disk.vault
    go (w', ok u) keep fails = absurd (fails b refl)
    go (w', err e) keep fails = keep (λ a. λ p. cc)
    go (w', panic) keep fails = keep (λ a. λ p. cc)

module _ {Config Object : Type 0} (c : Crates) (json : Serde Config Object) (path : Bytes) where
  write-IsSafe :
      (env : Env) (config : Config) (mk : Bytes) (slots : List Slot)
      → IsSafe (write c json path env config mk slots)
  unfolding write
  write-IsSafe env config mk [] = λ w fails. refl
  write-IsSafe env config mk (s ∷ slots) =
      bind-IsSafe (lift (map_err serde (json.to_vec config))) _
        (lift-Reads (map_err serde (json.to_vec config)))
        λ plaintext. bind-IsSafe (lift (env.nonce)) _ (lift-Reads (env.nonce)) λ nonce.
          bind-IsSafe (lift (encrypt c mk nonce (header_aad (s ∷ slots)) plaintext)) _
            (lift-Reads (encrypt c mk nonce (header_aad (s ∷ slots)) plaintext))
            λ ciphertext. put_file-IsSafe env _

  init_slots-IsSafe :
      (env : Env) (config : Config) (build_slots : Bytes → Result (List Slot))
      → IsSafe (init_slots c json path env config build_slots)
  unfolding init_slots
  init_slots-IsSafe env config build_slots = bind-IsSafe (claim env) _ (claim-Reads env) λ _.
      bind-IsSafe (lift (env.master_key)) _ (lift-Reads (env.master_key)) λ mk.
        bind-IsSafe (lift (build_slots mk)) _ (lift-Reads (build_slots mk)) λ slots.
          done-IsSafe (write c json path env config mk slots)
            (record { config = config; master_key = mk; slots = slots })
            (write-IsSafe env config mk slots)

  open_with-Reads :
      (unwrap : Slot → Result Bytes) (kind : ℕ) (e : Envelope)
      → Reads (open_with c json path unwrap kind e)
  open_with-Reads unwrap kind e =
      bind-Reads (lift (some_or (find e.slots kind) wrong_password_or_corrupt)) _
        (lift-Reads (some_or (find e.slots kind) wrong_password_or_corrupt))
        λ slot. bind-Reads (lift (unwrap slot)) _ (lift-Reads (unwrap slot)) λ mk.
          bind-Reads (lift (decrypt_body c json path e mk)) _
            (lift-Reads (decrypt_body c json path e mk))
            λ config.
              lift-Reads {A = Unlocked Config}
                (ok (record { config = config; master_key = mk; slots = e.slots }))

  upgrade_v1-IsSafe :
      (env : Env) (e : EnvelopeV1) (pw : Bytes) → IsSafe (upgrade_v1 c json path env e pw)
  unfolding upgrade_v1
  upgrade_v1-IsSafe env e pw =
      bind-IsSafe (lift (derive_key c pw e.salt e.kdf_params)) _
        (lift-Reads (derive_key c pw e.salt e.kdf_params))
        λ old_key.
          bind-IsSafe (lift (decrypt c old_key e.nonce (header_aad_v1 e) e.ciphertext)) _
            (lift-Reads (decrypt c old_key e.nonce (header_aad_v1 e) e.ciphertext))
            λ plaintext.
              bind-IsSafe
                (lift
                  (map_err (λ t. corrupt_file (undecodable t)) (json.config_from_slice plaintext)))
                _
                (lift-Reads
                  (map_err (λ t. corrupt_file (undecodable t)) (json.config_from_slice plaintext)))
                λ config. bind-IsSafe (lift (env.master_key)) _ (lift-Reads (env.master_key)) λ mk.
                  bind-IsSafe (lift (password_slots c json path env pw e.kdf_params mk)) _
                    (lift-Reads (password_slots c json path env pw e.kdf_params mk))
                    λ slots.
                      done-IsSafe (write c json path env config mk slots)
                        (record { config = config; master_key = mk; slots = slots })
                        (write-IsSafe env config mk slots)

  load_any-IsSafe :
      (env : Env) (pw : Bytes) (any : AnyEnvelope) → IsSafe (load_any c json path env pw any)
  load_any-IsSafe env pw (v2 e) w fails =
      open_with-Reads (λ slot. unwrap_password c slot pw) slot_password e w
  load_any-IsSafe env pw (v1 e) w fails = upgrade_v1-IsSafe env e pw w fails

  load-IsSafe : (env : Env) (pw : Bytes) → IsSafe (load c json path env pw)
  unfolding load
  load-IsSafe env pw = bind-IsSafe (claim env) _ (claim-Reads env) λ _.
      bind-IsSafe (read_file env path) _ (read_file-Reads env path) λ bytes.
        bind-IsSafe (lift (decode_any bytes)) _ (lift-Reads (decode_any bytes))
          λ any. load_any-IsSafe env pw any

  device_any-Reads :
      (device_key : Bytes) (any : AnyEnvelope) → Reads (device_any c json path device_key any)
  device_any-Reads device_key (v2 e) =
      open_with-Reads (λ slot. unwrap_device c slot device_key) slot_device e
  device_any-Reads device_key (v1 e) =
      lift-Reads {A = Unlocked Config} (err wrong_password_or_corrupt)

  -- An unlock by device never changes the vault file.
  pub load_with_device-Reads :
      (env : Env) (device_key : Bytes) (w : World)
      → (load_with_device c json path env device_key w).0.disk.vault ≡ w.disk.vault
  unfolding load_with_device
  load_with_device-Reads env device_key = bind-Reads (claim env) _ (claim-Reads env) λ _.
      bind-Reads (read_file env path) _ (read_file-Reads env path) λ bytes.
        bind-Reads (lift (decode_any bytes)) _ (lift-Reads (decode_any bytes))
          λ any. device_any-Reads device_key any

  -- A first run that does not succeed leaves the vault file as it was, absent or not.
  pub init_slots_unfinished :
      (env : Env) (config : Config) (build_slots : Bytes → Result (List Slot)) (w : World)
      → ((u : Unlocked Config) → (init_slots c json path env config build_slots w).1 ≢ ok u)
      → (init_slots c json path env config build_slots w).0.disk.vault ≡ w.disk.vault
  init_slots_unfinished = init_slots-IsSafe

  -- An unlock by password that does not return an open vault leaves the vault file as it was, the
  -- upgrade of a version 1 file and a panic included.
  pub load_unfinished :
      (env : Env) (master_password : Bytes) (w : World)
      → ((u : Unlocked Config) → (load c json path env master_password w).1 ≢ ok u)
      → (load c json path env master_password w).0.disk.vault ≡ w.disk.vault
  load_unfinished = load-IsSafe
