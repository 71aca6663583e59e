-- ===== src/Unlock/Conversion.antt =====
-- src/app.rs: when the plaintext secret of the retired TOTP-only mode goes away.
mod Tests
use ssh_control.Prelude.{
  ℕ, ◌≤◌, ◌≡◌, refl, sym, ap, ◌∙◌, subst, Bytes, List, [], ◌∷◌, ◌++◌, length, Bool, true, false,
  Option, some, none, ok, err, panic, All, arith, by_ok, inl, inr, ◌==◌, if◌then◌else◌,
}
use ssh_control.Errors.{Result}
use ssh_control.Calls.{Call, on_result, lift, by_call}
use ssh_control.Vault.Format.{Slot, slot_password}
use ssh_control.Vault.Format.Fields.{IsRead}
use ssh_control.Vault.Crypto.{Crates, IsAead}
use ssh_control.Vault.Keyslot.{find, wrap_device, wrap_password, unwrap_password, mk_len}
use ssh_control.Vault.Keyslot.Wraps.{unwrap_password-wrap_password, wrap_password_shape}
use ssh_control.Vault.Keyslot.Kept.{IsDeviceSlot, wrap_device-IsDeviceSlot}
use ssh_control.Vault.Migrate.{Serde}
use ssh_control.Vault.Device.{DeviceState, Base64, device_key}
use ssh_control.Vault.Store.{World, Env, Unlocked, Op, claim, load, save}
use ssh_control.Vault.Store.Written.{IsReread, one_slot}
use ssh_control.Vault.Store.Written
use ssh_control.Vault.Store.Opens.{load-save_reread}
use ssh_control.Vault.Store.Keys.{load-length}
use ssh_control.Unlock.{KeyringFaults}
use ssh_control.Unlock.Passwords.{recovery, Totps, Draws, Machine}
use ssh_control.Unlock.Creation.{
  on_vault, password_part, device_part, enrol_if, store_secret, convert, converted,
  migrate_totp_only,
}
use ssh_control.Unlock.Enrolment.{Fills}

recovery_slot-IsRead :
    (s : Slot)
    → s.kind ≡ slot_password
    → s.kdf_id ≡ 1
    → s.kdf_params ≡ recovery
    → length s.salt ≡ 16
    → length s.wrap_nonce ≡ 12
    → length s.wrapped_mk ≡ 48
    → IsRead s
recovery_slot-IsRead s kind kdf_id costs salt nonce wrapped =
    let m : s.kdf_params.m_cost ≡ 262_144 = ap (λ p. p.m_cost) costs in
    let t : s.kdf_params.t_cost ≡ 4 = ap (λ p. p.t_cost) costs in
    let n : s.kdf_params.p_cost ≡ 1 = ap (λ p. p.p_cost) costs in (omega arith, inl (omega arith))

found_first :
    (slot : Slot) (second : List Slot)
    → slot.kind ≡ slot_password
    → find (slot ∷ second) slot_password ≡ some slot
unfolding find
found_first slot second kind = rw (kind, find) refl

module _ {Config Object : Type 0} (c : Crates) (json : Serde Config Object) (path : Bytes)
    (base64 : Base64) (totps : Totps Config) (laws : IsAead c) where
  -- The password slot that starts a list of slots.
  record Starts (first : List Slot) (password mk : Bytes) : Type 0 where
    pub slot : Slot
    pub only : slot ∷ [] ≡ first
    pub kind : slot.kind ≡ slot_password
    pub opens : unwrap_password c slot password ≡ ok mk
    pub read : IsRead slot

  password_part-Starts :
      (env : Env) (password mk : Bytes) (first : List Slot)
      → length mk ≡ mk_len
      → Written.Fills env
      → password_part c json path base64 totps env (some password) mk ≡ ok first
      → Starts first password mk
  unfolding password_part
  password_part-Starts env password mk first size fills h =
      let (s, made, only) =
        one_slot (wrap_password c env.salt env.wrap_nonce password recovery mk) first h in
      let (opens, kind, costs) =
        unwrap_password-wrap_password c laws env.salt env.wrap_nonce password recovery mk s size
          made in
      let (kdf_id, salt, nonce, wrapped) =
        wrap_password_shape c laws env.salt env.wrap_nonce password recovery mk s size made in
      record {
        slot = s;
        only = only;
        kind = kind;
        opens = opens;
        read =
            recovery_slot-IsRead s kind kdf_id costs (fills.salt s.salt salt)
              (fills.wrap_nonce s.wrap_nonce nonce) wrapped;
      }

  -- At most one slot more.
  abbrev FewMore : List Slot → Type 0
  FewMore second = All IsRead second × (length second ≤ 1)

  device_part-FewMore :
      (draws : Draws) (state : Option DeviceState) (mk : Bytes) (second : List Slot)
      → length mk ≡ mk_len
      → Fills draws
      → device_part c json path base64 totps draws state mk ≡ ok second
      → FewMore second
  unfolding device_part
  device_part-FewMore draws none mk second size fills h =
      let same : [] ≡ second = cc in subst FewMore same (tt, omega arith)
  device_part-FewMore draws (some state) mk second size fills h =
      with_key (device_key base64 state) h
    where
      with_slot :
          (key : Bytes) (r : Result Slot)
          → wrap_device c draws.salt draws.wrap_nonce key mk ≡ r
          → (elim r [ ok slot ↦ ok (slot ∷ []) | err e ↦ err e | panic ↦ panic ]) ≡ ok second
          → FewMore second
      with_slot key (ok slot) made h =
          let fits =
            wrap_device-IsDeviceSlot c laws draws.salt draws.wrap_nonce key mk slot size fills.salt
              fills.wrap_nonce made in
          let same : slot ∷ [] ≡ second = cc in subst FewMore same ((fits.read, tt), omega arith)
      with_slot key (err e) made h = absurd (cc)
      with_slot key panic made h = absurd (cc)

      with_key :
          (r : Result Bytes)
          → (elim r [
            | ok key ↦ elim (wrap_device c draws.salt draws.wrap_nonce key mk) [
              | ok slot ↦ ok (slot ∷ [])
              | err e ↦ err e
              | panic ↦ panic
            ]
            | err e ↦ err e
            | panic ↦ panic
          ])
            ≡ ok second
          → FewMore second
      with_key (ok key) h = with_slot key (wrap_device c draws.salt draws.wrap_nonce key mk) refl h
      with_key (err e) h = absurd (cc)
      with_key panic h = absurd (cc)

  on_vault-ok :
      {A : Type 0} (op : Op A) (m m' : Machine Config) (a : A)
      → on_vault c json path base64 totps op m ≡ (m', ok a)
      → op m.world ≡ (m'.world, ok a)
  on_vault-ok op m m' a e = pair (op m.world) m'.world a (ap (λ r. r.0.world) e) (ap (λ r. r.1) e)
    where
      pair :
          {A : Type 0} (r : World × Result A) (w : World) (a : A)
          → r.0 ≡ w
          → r.1 ≡ ok a
          → r ≡ (w, ok a)
      pair (v, x) w a p q = rw (p, q) refl

  -- A config that serde reads back from its own text, as it is or migrated.
  abbrev IsKept : Config → Type 0
  IsKept config = (config' : Config) × IsReread json config config'

  -- The config and the slots that were saved before the secret went, at the state that was left.
  record Saved (new_password : Bytes) (env : Env) (w' : World) : Type 0 where
    pub config : Config
    pub secret : Bytes
    pub mk : Bytes
    pub slots : List Slot
    pub before : World
    pub first : List Slot
    pub second : List Slot
    pub joined : first ++ second ≡ slots
    pub starts : Starts first new_password mk
    pub more : FewMore second
    pub kept : IsKept (totps.set_totp secret config)
    pub was_saved :
        save c json path env (totps.set_totp secret config) mk slots before ≡ (w', ok tt)

  store_secret-Saved :
      (env : Env) (secret new_password : Bytes) (u : Unlocked Config) (first second : List Slot)
      (m m' : Machine Config) (v : Unlocked Config)
      → Starts first new_password u.master_key
      → FewMore second
      → IsKept (totps.set_totp secret u.config)
      → store_secret c json path base64 totps env true
          (some secret)
          (record u { slots = first ++ second })
          m
        ≡ (m', ok v)
      → Saved new_password env m'.world
  unfolding store_secret
  store_secret-Saved env secret new_password u first second m m' v starts more kept h =
      by_call
        (on_vault c json path base64 totps
          (save c json path env (totps.set_totp secret u.config) u.master_key (first ++ second)) m)
        _ h
        λ m₁ t e h₁.
          let same : m₁ ≡ m' = ap (λ r. r.0) h₁ in
          record {
            config = u.config;
            secret = secret;
            mk = u.master_key;
            slots = first ++ second;
            before = m.world;
            first = first;
            second = second;
            joined = refl;
            starts = starts;
            more = more;
            kept = kept;
            was_saved =
                subst
                  (λ (n : Machine Config).
                    save c json path env (totps.set_totp secret u.config) u.master_key
                      (first ++ second) m.world
                    ≡ (n.world, ok tt))
                  same
                  (on_vault-ok
                    (save c json path env (totps.set_totp secret u.config) u.master_key
                      (first ++ second))
                    m m₁ t e);
          }

  -- What the vault opens to with the secret that was read is kept with that secret in it.
  abbrev pub IsKeptAfter : Env → Result Bytes → World → Type 0
  IsKeptAfter env read_secret w =
      (secret : Bytes) (u : Unlocked Config) (w' : World)
      → read_secret ≡ ok secret
      → load c json path env secret w ≡ (w', ok u)
      → IsKept (totps.set_totp secret u.config)

  convert-Saved :
      (faults : KeyringFaults) (env env' : Env) (draws : Draws) (now_unix : ℕ) (available : Bool)
      (read_secret : Result Bytes) (new_password : Bytes) (m m' : Machine Config)
      (v : Unlocked Config)
      → Written.Fills env
      → Written.Fills env'
      → Fills draws
      → IsKeptAfter env read_secret m.world
      → convert c json path base64 totps faults env env' draws now_unix available read_secret
          new_password m
        ≡ (m', ok v)
      → Saved new_password env' m'.world
  unfolding convert
  convert-Saved faults env env' draws now_unix available read_secret new_password m m' v fills
        fills' drawn keeps h =
      by_call (m, read_secret) _ h
        λ m₁ secret e₁ h₁.
          by_call (on_vault c json path base64 totps (load c json path env secret) m₁) _ h₁
            λ m₂ u e₂ h₂.
              let opened = on_vault-ok (load c json path env secret) m₁ m₂ u e₂ in
              let size = load-length c json path env secret m₁.world m₂.world u fills opened in
              let kept =
                keeps secret u m₂.world (ap (λ r. r.1) e₁)
                  (ap (λ r. load c json path env secret r.0.world) e₁ ∙ opened) in
              by_call
                (m₂, password_part c json path base64 totps env' (some new_password) u.master_key) _
                h₂
                λ m₃ first e₃ h₃.
                  by_call
                    (enrol_if c json path base64 totps available faults draws now_unix (some secret)
                      m₃)
                    _ h₃
                    λ m₄ state e₄ h₄.
                      by_call (m₄, device_part c json path base64 totps draws state u.master_key) _
                        h₄
                        λ m₅ second e₅ h₅.
                          store_secret-Saved env' secret new_password u first second m₅ m' v
                            (password_part-Starts env' new_password u.master_key first size fills'
                              (ap (λ r. r.1) e₃))
                            (device_part-FewMore draws state u.master_key second size drawn
                              (ap (λ r. r.1) e₅))
                            kept h₅

  -- Another load opens what was saved.
  abbrev Opens : Env → Bytes → World → Type 0
  Opens env password w = (u : Unlocked Config) × ((load c json path env password w).1 ≡ ok u)

  Saved-Opens :
      (new_password : Bytes) (env env' : Env) (w' : World)
      → Written.Fills env
      → (claim env' w').1 ≡ ok tt
      → env'.read ≡ none
      → Saved new_password env w'
      → Opens env' new_password w'
  Saved-Opens new_password env env' w' fills claimed readable s =
      let slot = s.starts.slot in
      let shape : slot ∷ s.second ≡ s.slots = ap (λ f. f ++ s.second) s.starts.only ∙ s.joined in
      let found : find s.slots slot_password ≡ some slot =
        subst (λ l. find l slot_password ≡ some slot) shape
          (found_first slot s.second s.starts.kind) in
      let all : All IsRead s.slots = subst (All IsRead) shape (s.starts.read, s.more.0) in
      let few : length s.slots ≤ 4 = subst (λ l. length l ≤ 4) shape (omega (arith, s.more.1)) in
      (
        record { config = s.kept.0; master_key = s.mk; slots = s.slots },
        load-save_reread c json path laws env env' (totps.set_totp s.secret s.config) s.kept.0 s.mk
            s.slots s.before w' s.kept.1 all few fills.nonce s.was_saved claimed readable slot
            new_password found s.starts.opens,
      )

  converted-Opens :
      (faults : KeyringFaults) (discard_works : Bool) (new_password : Bytes) (env env' : Env)
      (r : Machine Config × Result (Unlocked Config))
      → ((m' : Machine Config) (v : Unlocked Config)
          → r ≡ (m', ok v)
          → (claim env' m'.world).1 ≡ ok tt
          → Opens env' new_password m'.world)
      → (converted c json path base64 totps faults discard_works r).1 ≡ false
      → (claim env' (converted c json path base64 totps faults discard_works r).0.world).1 ≡ ok tt
      → Opens env' new_password (converted c json path base64 totps faults discard_works r).0.world
  unfolding converted
  converted-Opens faults discard_works new_password env env' (m, ok u) k gone claimed =
      k m u refl claimed
  converted-Opens faults discard_works new_password env env' (m, err e) k gone claimed = absurd (cc)
  converted-Opens faults discard_works new_password env env' (m, panic) k gone claimed = absurd (cc)

  -- The conversion of a vault of the retired TOTP-only mode, whatever fails in it: once the file with
  -- the plaintext secret is gone, the vault opens with the new password. The drawn bytes have the
  -- lengths asked for, the config that the vault opened to, with the secret in it, is read back from
  -- its own text, as it is or migrated, and the later call gets the lock and can read the file.
  pub migrate_totp_only-Opens :
      (faults : KeyringFaults) (env env' later : Env) (draws : Draws) (now_unix : ℕ)
      (available : Bool) (read_secret : Result Bytes) (new_password : Bytes) (discard_works : Bool)
      (m : Machine Config)
      → IsKeptAfter env read_secret m.world
      → Written.Fills env
      → Written.Fills env'
      → Fills draws
      → later.read ≡ none
      → (migrate_totp_only c json path base64 totps faults env env' draws now_unix available
          read_secret new_password discard_works m).1
        ≡ false
      → (claim later
          (migrate_totp_only c json path base64 totps faults env env' draws now_unix available
            read_secret new_password discard_works m).0.world).1
        ≡ ok tt
      → (u : Unlocked Config) × ((load c json path later new_password
            (migrate_totp_only c json path base64 totps faults env env' draws now_unix available
              read_secret new_password discard_works m).0.world).1
          ≡ ok u)
  unfolding migrate_totp_only
  migrate_totp_only-Opens faults env env' later draws now_unix available read_secret new_password
        discard_works m keeps fills fills' drawn readable gone claimed =
      converted-Opens faults discard_works new_password env' later
        (convert c json path base64 totps faults env env' draws now_unix available read_secret
          new_password m)
        (λ m' v e claimed'. Saved-Opens new_password env' later m'.world fills' claimed' readable (
          convert-Saved faults env env' draws now_unix available read_secret new_password m m' v
            fills fills' drawn keeps e))
        gone claimed
