-- ===== src/Unlock/Creation.antt =====
-- src/app.rs: making a new vault, and converting one of the retired TOTP-only mode. A call goes from
-- the entry, the vault store and the screen to new ones.
use ssh_control.Prelude.{
  ℕ, Bytes, List, [], ◌∷◌, ◌++◌, Bool, true, false, Option, some, none, ok, err, panic,
  if◌then◌else◌,
}
use ssh_control.Errors.{Result}
use ssh_control.Calls.{Call, ◌>>=◌, ◌>>◌, lift}
use ssh_control.Vault.Format.{Slot}
use ssh_control.Vault.Crypto.{Crates}
use ssh_control.Vault.Keyslot.{wrap_device, wrap_password}
use ssh_control.Vault.Migrate.{Serde}
use ssh_control.Vault.Device.{DeviceState, Base64, new, device_key}
use ssh_control.Vault.Store.{Env, Unlocked, Op, init_slots, load, save}
use ssh_control.Unlock.{KeyringFaults}
use ssh_control.Unlock.Passwords.{
  recovery, AuthMode, none_mode, password_totp, totp_daily, Totps, Draws, Machine, main_menu,
  crashed_screen, notice_of, set_error, set_setup_error, open_and_delete, open_and_write,
}

abbrev pub wants_device : AuthMode → Bool
wants_device none_mode = true
wants_device totp_daily = true
wants_device _ = false

-- The modes that keep the TOTP secret in the vault.
abbrev pub keeps_secret : AuthMode → Bool
keeps_secret password_totp = true
keeps_secret totp_daily = true
keeps_secret _ = false

-- The secret that goes to the credential store: of the daily mode alone.
abbrev pub device_secret : AuthMode → Option Bytes → Option Bytes
device_secret totp_daily totp_secret = totp_secret
device_secret _ totp_secret = none

module _ {Config Object : Type 0} (c : Crates) (json : Serde Config Object) (path : Bytes)
    (base64 : Base64) (totps : Totps Config) where
  abbrev pub on_vault : {A : Type 0} → Op A → Call (Machine Config) A
  on_vault op m = let (w, r) = op m.world in (record m { world = w }, r)

  -- The write of an entry, whose error ends the call.
  unfoldable pub write_entry : KeyringFaults → DeviceState → Call (Machine Config) (Unit {0})
  write_entry faults state m =
      let (stored, r) = open_and_write faults state m.stored in (record m { stored = stored }, r)

  unfoldable pub enrol_device :
      KeyringFaults → Draws → ℕ → Option Bytes → Call (Machine Config) DeviceState
  enrol_device faults draws now_unix secret = do
    fresh ← lift (new base64 draws.raw now_unix)
    let state = record fresh { totp_secret = secret }
    write_entry faults state
    lift (ok state)

  unfoldable pub password_part : Env → Option Bytes → Bytes → Result (List Slot)
  password_part env none master_key = ok []
  password_part env (some password) master_key =
      elim (wrap_password c env.salt env.wrap_nonce password recovery master_key) [
        | ok slot ↦ ok (slot ∷ [])
        | err e ↦ err e
        | panic ↦ panic
      ]

  unfoldable pub device_part : Draws → Option DeviceState → Bytes → Result (List Slot)
  device_part draws none master_key = ok []
  device_part draws (some state) master_key = elim (device_key base64 state) [
    | ok key ↦ elim (wrap_device c draws.salt draws.wrap_nonce key master_key) [
      | ok slot ↦ ok (slot ∷ [])
      | err e ↦ err e
      | panic ↦ panic
    ]
    | err e ↦ err e
    | panic ↦ panic
  ]

  unfoldable pub build_slots :
      Env → Draws → Option Bytes → Option DeviceState → Bytes → Result (List Slot)
  build_slots env draws password state master_key = elim (password_part env password master_key) [
    | ok first ↦ elim (device_part draws state master_key) [
      | ok second ↦ ok (first ++ second)
      | err e ↦ err e
      | panic ↦ panic
    ]
    | err e ↦ err e
    | panic ↦ panic
  ]

  -- A vault that holds the secret, saved again.
  unfoldable pub store_secret :
      Env → Bool → Option Bytes → Unlocked Config → Call (Machine Config) (Unlocked Config)
  store_secret env true (some secret) u = do
    let u = record u { config = totps.set_totp secret u.config }
    on_vault (save c json path env u.config u.master_key u.slots)
    lift (ok u)
  store_secret env _ _ u = lift (ok u)

  unfoldable pub enrol_if :
      Bool → KeyringFaults → Draws → ℕ → Option Bytes → Call (Machine Config) (Option DeviceState)
  enrol_if true faults draws now_unix secret = do
    state ← enrol_device faults draws now_unix secret
    lift (ok (some state))
  enrol_if false faults draws now_unix secret = lift (ok none)

  -- `env` is what the system does to the first write, `env'` to the second.
  unfoldable pub create :
      KeyringFaults
      → Env
      → Env
      → Draws
      → ℕ
      → Config
      → AuthMode
      → Option Bytes
      → Option Bytes
      → Call (Machine Config) (Unlocked Config)
  create faults env env' draws now_unix default_config mode password totp_secret = do
    state ← enrol_if (wants_device mode) faults draws now_unix (device_secret mode totp_secret)
    u ← on_vault (init_slots c json path env default_config (build_slots env draws password state))
    store_secret env' (keeps_secret mode) totp_secret u

  unfoldable pub created :
      KeyringFaults → AuthMode → Machine Config × Result (Unlocked Config) → Machine Config
  created faults mode (m, ok u) = record m { shown = main_menu u }
  created faults mode (m, err e) = record m {
    stored = if wants_device mode then open_and_delete faults m.stored else m.stored;
    shown = set_setup_error (notice_of e) m.shown;
  }
  created faults mode (m, panic) = record m { shown = crashed_screen }

  unfoldable pub create_vault :
      KeyringFaults
      → Env
      → Env
      → Draws
      → ℕ
      → Config
      → AuthMode
      → Option Bytes
      → Option Bytes
      → Machine Config
      → Machine Config
  create_vault faults env env' draws now_unix default_config mode password totp_secret m =
      created faults mode
        (create faults env env' draws now_unix default_config mode password totp_secret m)

  -- The slots of a converted vault: the new password's, and this device's where there is a store.
  unfoldable pub convert :
      KeyringFaults
      → Env
      → Env
      → Draws
      → ℕ
      → Bool
      → Result Bytes
      → Bytes
      → Call (Machine Config) (Unlocked Config)
  convert faults env env' draws now_unix available read_secret new_password = do
    secret ← lift read_secret
    u ← on_vault (load c json path env secret)
    first ← lift (password_part env' (some new_password) u.master_key)
    state ← enrol_if available faults draws now_unix (some secret)
    second ← lift (device_part draws state u.master_key)
    store_secret env' true (some secret) (record u { slots = first ++ second })

  -- Whether the file of the plaintext secret is still there, beside the machine.
  unfoldable pub converted :
      KeyringFaults → Bool → Machine Config × Result (Unlocked Config) → Machine Config × Bool
  converted faults discard_works (m, ok u) =
      (record m { shown = main_menu u }, (if discard_works then false else true))
  converted faults discard_works (m, err e) = (
    record m { stored = open_and_delete faults m.stored; shown = set_error (notice_of e) m.shown },
    true,
  )
  converted faults discard_works (m, panic) = (record m { shown = crashed_screen }, true)

  unfoldable pub migrate_totp_only :
      KeyringFaults
      → Env
      → Env
      → Draws
      → ℕ
      → Bool
      → Result Bytes
      → Bytes
      → Bool
      → Machine Config
      → Machine Config × Bool
  migrate_totp_only faults env env' draws now_unix available read_secret new_password discard_works
        m =
      converted faults discard_works
        (convert faults env env' draws now_unix available read_secret new_password m)
