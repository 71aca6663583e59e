-- ===== src/Unlock/Enrolment.antt =====
-- src/app.rs: after a password unlock the entry of this device and the vault fit together.
mod Tests
use ssh_control.Prelude.{
  ℕ, ◌≤◌, ◌≡◌, ◌≢◌, refl, sym, ap, ◌∙◌, subst, Bytes, List, length, Bool, true, false, Option, some,
  none, ok, err, panic, All, arith, by_ok, Bool-cases, Option-cases, inl, inr, ==_refl, ◌==◌,
  if◌then◌else◌,
}
use ssh_control.Errors.{Result, AppError}
use ssh_control.Vault.Format.{Slot, slot_device}
use ssh_control.Vault.Format.Fields.{IsRead}
use ssh_control.Vault.Crypto.{Crates, IsAead}
use ssh_control.Vault.Keyslot.{has, find, replace, wrap_device, unwrap_device, mk_len}
use ssh_control.Vault.Keyslot.Slots.{find-replace}
use ssh_control.Vault.Keyslot.Kept.{
  All-replace, length-replace, IsDeviceSlot, wrap_device-IsDeviceSlot,
}
use ssh_control.Vault.Migrate.{Serde}
use ssh_control.Vault.Device.{DeviceState, Base64, new, device_key}
use ssh_control.Vault.Store.{World, Env, Unlocked, claim, load_with_device, save}
use ssh_control.Vault.Store.Written.{IsWritten}
use ssh_control.Vault.Store.Opens.{load_with_device-save}
use ssh_control.Unlock.{KeyringFaults, read_device, write_device, load_by}
use ssh_control.Unlock.Passwords.{
  Totps, Draws, Machine, delete_device, new_enrolment, keep_or_delete, enrol, reconcile_found,
  reconcile_device_state,
}

-- What the draws of one enrolment are: keys and nonces of the lengths asked for.
pub record Fills (draws : Draws) : Type 0 where
  pub salt : (b : Bytes) → draws.salt ≡ ok b → length b ≡ 16
  pub wrap_nonce : (b : Bytes) → draws.wrap_nonce ≡ ok b → length b ≡ 12

-- A vault that was opened: the format can hold its slots and its config.
pub record IsOpened {Config Object : Type 0} (json : Serde Config Object) (u : Unlocked Config)
    : Type 0 where
  pub written : IsWritten json u.config
  pub slots : All IsRead u.slots
  pub few : length u.slots ≤ 4
  pub master_key : length u.master_key ≡ 32

module _ {Config Object : Type 0} (c : Crates) (json : Serde Config Object) (path : Bytes)
    (base64 : Base64) (totps : Totps Config) (laws : IsAead c) (u : Unlocked Config)
    (opened : IsOpened json u) where
  record Enrolled (state : DeviceState) (slots : List Slot) : Type 0 where
    pub key : Bytes
    pub slot : Slot
    pub decoded : device_key base64 state ≡ ok key
    pub fits : IsDeviceSlot c key u.master_key slot
    pub replaced : replace u.slots slot_device slot ≡ slots

  new_enrolment-Enrolled :
      (draws : Draws) (now_unix : ℕ) (state : DeviceState) (slots : List Slot)
      → Fills draws
      → new_enrolment c json path base64 totps draws now_unix u ≡ ok (state, slots)
      → Enrolled state slots
  unfolding new_enrolment
  new_enrolment-Enrolled draws now_unix state slots fills h =
      by_ok (new base64 draws.raw now_unix) _ h λ fresh e₁ h₁.
        let made : DeviceState = record fresh { totp_secret = totps.totp u.config } in
        by_ok (device_key base64 made) _ h₁ λ key e₂ h₂.
          by_ok (wrap_device c draws.salt draws.wrap_nonce key u.master_key) _ h₂ λ slot e₃ h₃.
            let state-eq : made ≡ state = cc in
            record {
              key = key;
              slot = slot;
              decoded = rw (sym state-eq) e₂;
              fits =
                  wrap_device-IsDeviceSlot c laws draws.salt draws.wrap_nonce key u.master_key slot
                    opened.master_key fills.salt fills.wrap_nonce e₃;
              replaced = cc;
            }

  module _ (env env' : Env) (faults : KeyringFaults)
      (twelve : (b : Bytes) → env.nonce ≡ ok b → length b ≡ 12)
      (enrolled : has u.slots slot_device ≡ true)
      (no_panic : (slots : List Slot) (w : World)
        → (save c json path env u.config u.master_key slots w).1 ≢ panic)
      (deletes : faults.delete ≡ none) (readable : env'.read ≡ none) where
    -- The key of an entry opens the vault as it is now, with these slots.
    abbrev OpensBy : DeviceState → List Slot → World → Type 0
    OpensBy state slots w =
        (load_by base64 (λ key. load_with_device c json path env' key) state w).1
        ≡ ok (record { config = u.config; master_key = u.master_key; slots = slots })

    -- What is left after an enrolment: no entry, or one that opens the vault.
    abbrev Fit : Machine Config → Type 0
    Fit m =
        (state : DeviceState)
        → m.stored ≡ some state
        → (claim env' m.world).1 ≡ ok tt
        → (slots : List Slot) × OpensBy state slots m.world

    saved-OpensBy :
        (state : DeviceState) (slots : List Slot) (w w' : World)
        → Enrolled state slots
        → save c json path env u.config u.master_key slots w ≡ (w', ok tt)
        → (claim env' w').1 ≡ ok tt
        → OpensBy state slots w'
    unfolding load_by
    saved-OpensBy state slots w w' e saved claimed =
        let found : find slots slot_device ≡ some e.slot =
          rw (sym e.replaced) (find-replace u.slots slot_device slot_device e.slot e.fits.kind) in
        let all : All IsRead slots =
          rw (sym e.replaced)
            (All-replace IsRead u.slots slot_device e.slot opened.slots e.fits.read) in
        let few : length slots ≤ 4 =
          rw (sym e.replaced)
            (omega (arith, length-replace u.slots slot_device e.slot enrolled, opened.few)) in
        rw (e.decoded, load_by)
          (load_with_device-save c json path laws env env' u.config u.master_key slots w w'
            opened.written all few twelve saved claimed readable e.slot e.key found e.fits.opens)

    keep_or_delete-Fit :
        (state : DeviceState) (slots : List Slot) (m : Machine Config)
        (r : World × Result (Unit {0}))
        → Enrolled state slots
        → save c json path env u.config u.master_key slots m.world ≡ r
        → Fit (keep_or_delete c json path base64 totps faults state r m)
    unfolding keep_or_delete delete_device
    keep_or_delete-Fit state slots m (w, ok done) e saved state' is claimed =
        let same : state ≡ state' = cc in
        (
          slots,
          subst (λ s. OpensBy s slots w) same (saved-OpensBy state slots m.world w e saved claimed),
        )
    keep_or_delete-Fit state slots m (w, err x) e saved state' is claimed =
        absurd (cc (rw deletes at is))
    keep_or_delete-Fit state slots m (w, panic) e saved state' is claimed =
        absurd (no_panic slots m.world (ap (λ (r : World × Result (Unit {0})). r.1) saved))

    enrol-Fit :
        (draws : Draws) (now_unix : ℕ) (m : Machine Config) (r : Result (DeviceState × List Slot))
        → Fills draws
        → m.stored ≡ none
        → new_enrolment c json path base64 totps draws now_unix u ≡ r
        → Fit (enrol c json path base64 totps faults env u r m)
    unfolding enrol
    enrol-Fit draws now_unix m (ok (state, slots)) fills empty e =
        elim (Option-cases faults.write) [
          | inl works ↦
              rw (works, enrol)
                (keep_or_delete-Fit state slots m
                  (save c json path env u.config u.master_key slots m.world)
                  (new_enrolment-Enrolled draws now_unix state slots fills e) refl)
          | inr (x, fails) ↦ rw (fails, enrol) (λ state' is claimed. absurd (cc))
        ]
    enrol-Fit draws now_unix m (err x) fills empty e = λ state' is claimed. absurd (cc)
    enrol-Fit draws now_unix m panic fills empty e = λ state' is claimed. absurd (cc)

    read_none :
        (stored : Option DeviceState) (s : DeviceState)
        → stored ≡ none
        → read_device faults stored ≢ ok (some s)
    unfolding read_device
    read_none stored s empty h = elim (Option-cases faults.open_store) [
      | inr (x, e) ↦ absurd (cc (rw (e, read_device) at h))
      | inl e ↦ elim (Option-cases faults.read) [
        | inr (x, f) ↦ absurd (cc (rw (e, f, read_device) at h))
        | inl f ↦ absurd (cc (rw (e, f, read_device, empty) at h))
      ]
    ]

    reconcile_found-Fit :
        (draws : Draws) (now_unix : ℕ) (m : Machine Config) (r : Result (Option DeviceState))
        → Fills draws
        → m.stored ≡ none
        → read_device faults m.stored ≡ r
        → Fit (reconcile_found c json path base64 totps faults env draws now_unix u r m)
    unfolding reconcile_found
    reconcile_found-Fit draws now_unix m (ok (some s)) fills empty e =
        absurd (read_none m.stored s empty e)
    reconcile_found-Fit draws now_unix m (ok none) fills empty e =
        enrol-Fit draws now_unix m (new_enrolment c json path base64 totps draws now_unix u) fills
          empty refl
    reconcile_found-Fit draws now_unix m (err x) fills empty e = λ state' is claimed. absurd (cc)
    reconcile_found-Fit draws now_unix m panic fills empty e = λ state' is claimed. absurd (cc)

-- A vault with a device slot was opened by its password on a machine without an entry for it. Whatever
-- then fails among the draws, the credential store's open, read and write and the save: an entry that
-- is there afterwards has a key that opens the vault as the save left it, with the config and the
-- master key that were opened. The removal of an entry works, and the later call gets the lock and can
-- read the file.
pub reconcile_device_state-OpensBy :
    {Config Object : Type 0} (c : Crates) (json : Serde Config Object) (path : Bytes)
    (base64 : Base64) (totps : Totps Config) (laws : IsAead c) (u : Unlocked Config)
    (opened : IsOpened json u) (env env' : Env) (faults : KeyringFaults) (draws : Draws)
    (now_unix : ℕ) (m : Machine Config) (state : DeviceState)
    → ((b : Bytes) → env.nonce ≡ ok b → length b ≡ 12)
    → has u.slots slot_device ≡ true
    → ((slots : List Slot) (w : World)
        → (save c json path env u.config u.master_key slots w).1 ≢ panic)
    → faults.delete ≡ none
    → env'.read ≡ none
    → Fills draws
    → m.stored ≡ none
    → (reconcile_device_state c json path base64 totps faults env draws now_unix u m).stored
      ≡ some state
    → (claim env'
        (reconcile_device_state c json path base64 totps faults env draws now_unix u m).world).1
      ≡ ok tt
    → (slots : List Slot) × ((load_by base64
          (λ key. load_with_device c json path env' key)
          state
          (reconcile_device_state c json path base64 totps faults env draws now_unix u m).world).1
        ≡ ok (record { config = u.config; master_key = u.master_key; slots = slots }))
unfolding reconcile_device_state
reconcile_device_state-OpensBy c json path base64 totps laws u opened env env' faults draws now_unix
      m state twelve enrolled no_panic deletes readable fills empty is claimed =
    rw (enrolled, reconcile_device_state)
      (reconcile_found-Fit c json path base64 totps laws u opened env env' faults twelve enrolled
        no_panic deletes readable draws now_unix m (read_device faults m.stored) fills empty refl
        state (rw (enrolled, reconcile_device_state) at is)
        (rw (enrolled, reconcile_device_state) at claimed))
