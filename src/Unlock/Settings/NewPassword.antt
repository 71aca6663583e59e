-- ===== src/Unlock/Settings/NewPassword.antt =====
-- src/app.rs: a change of the master password that reports success.
use ssh_control.Prelude.{
  ◌≡◌, refl, Bytes, true, false, none, ok, err, panic, arith, Bool-cases, Option-cases, inl, inr,
}
use ssh_control.Errors.{Result}
use ssh_control.Vault.Format.{Slot, slot_password}
use ssh_control.Vault.Format.Fields.{IsRead}
use ssh_control.Vault.Crypto.{Crates, IsAead}
use ssh_control.Vault.Keyslot.{find, has, replace, wrap_password}
use ssh_control.Vault.Keyslot.Slots.{find-replace}
use ssh_control.Vault.Keyslot.Kept.{All-replace, length-replace}
use ssh_control.Vault.Keyslot.Wraps.{unwrap_password-wrap_password, wrap_password_shape}
use ssh_control.Vault.Migrate.{Serde}
use ssh_control.Vault.Store.{World, Env, interactive, claim, load, save}
use ssh_control.Vault.Store.Written.{Fills, password_slot-IsRead}
use ssh_control.Vault.Store.Opens.{load-save}
use ssh_control.Unlock.Enrolment.{IsOpened}
use ssh_control.Unlock.Settings.{
  Session, nothing_shown, password_changed, wrong_password, password_saved, replace_password,
  change_master_password,
}

module _ {Config Object : Type 0} (c : Crates) (json : Serde Config Object) (path : Bytes)
    (laws : IsAead c) (env later : Env) (fills : Fills env) (readable : later.read ≡ none)
    (s : Session Config) (opened : IsOpened json s.vault) (fresh : s.message ≡ nothing_shown) where
  -- The vault on the disk is the session's, under the new password.
  abbrev Changed : Bytes → Session Config → Type 0
  Changed password t =
      t.message ≡ password_changed
      → (claim later t.world).1 ≡ ok tt
      → (load c json path later password t.world).1 ≡ ok t.vault

  saved-Changed :
      (password : Bytes) (slot : Slot) (r : World × Result (Unit {0}))
      → has s.vault.slots slot_password ≡ true
      → wrap_password c env.salt env.wrap_nonce password interactive s.vault.master_key ≡ ok slot
      → save c json path env s.vault.config s.vault.master_key
          (replace s.vault.slots slot_password slot)
          s.world
        ≡ r
      → Changed password (password_saved c json path (replace s.vault.slots slot_password slot) r s)
  unfolding password_saved
  saved-Changed password slot (w, ok done) there made saved shown claimed =
      let mk = s.vault.master_key in
      let slots = replace s.vault.slots slot_password slot in
      let (opens, kind, costs) =
        unwrap_password-wrap_password c laws env.salt env.wrap_nonce password interactive mk slot
          opened.master_key made in
      let (kdf_id, salt, nonce, wrapped) =
        wrap_password_shape c laws env.salt env.wrap_nonce password interactive mk slot
          opened.master_key made in
      let read =
        password_slot-IsRead slot kind kdf_id costs (fills.salt slot.salt salt)
          (fills.wrap_nonce slot.wrap_nonce nonce) wrapped in
      load-save c json path laws env later s.vault.config mk slots s.world w opened.written
        (All-replace IsRead s.vault.slots slot_password slot opened.slots read)
        (omega (arith, length-replace s.vault.slots slot_password slot there, opened.few))
        fills.nonce saved claimed readable slot password
        (find-replace s.vault.slots slot_password slot_password slot kind) opens
  saved-Changed password slot (w, err e) there made saved shown claimed = absurd (cc)
  saved-Changed password slot (w, panic) there made saved shown claimed = absurd (cc)

  replaced-Changed :
      (password : Bytes) (r : Result Slot)
      → has s.vault.slots slot_password ≡ true
      → wrap_password c env.salt env.wrap_nonce password interactive s.vault.master_key ≡ r
      → Changed password (replace_password c json path env r s).0
  unfolding replace_password
  replaced-Changed password (ok slot) there made =
      saved-Changed password slot
        (save c json path env s.vault.config s.vault.master_key
          (replace s.vault.slots slot_password slot) s.world)
        there made refl
  replaced-Changed password (err e) there made = λ shown claimed. absurd (cc)
  replaced-Changed password panic there made = λ shown claimed. absurd (cc)

  checked-has :
      (current : Bytes)
      → wrong_password c json path s.vault.slots current ≡ false
      → has s.vault.slots slot_password ≡ true
  unfolding wrong_password has
  checked-has current h = elim (Option-cases (find s.vault.slots slot_password)) [
    | inl e ↦ absurd (cc (rw (e, wrong_password) at h))
    | inr (slot, e) ↦ rw (e, has) refl
  ]

-- A change of the master password that shows its success: the new password opens the vault on the disk,
-- to the config, the master key and the slots that the session goes on with. The drawn bytes have the
-- lengths asked for, the format can hold the open vault, and the later call gets the lock and can read
-- the file.
pub change_master_password-load :
    {Config Object : Type 0} (c : Crates) (json : Serde Config Object) (path : Bytes)
    (laws : IsAead c) (env later : Env) (s : Session Config) (current password : Bytes)
    → Fills env
    → later.read ≡ none
    → IsOpened json s.vault
    → s.message ≡ nothing_shown
    → (change_master_password c json path env current password s).0.message ≡ password_changed
    → (claim later (change_master_password c json path env current password s).0.world).1 ≡ ok tt
    → (load c json path later password
        (change_master_password c json path env current password s).0.world).1
      ≡ ok (change_master_password c json path env current password s).0.vault
unfolding change_master_password
change_master_password-load c json path laws env later s current password fills readable opened
      fresh shown claimed =
    elim (Bool-cases (wrong_password c json path s.vault.slots current)) [
      | inl wrong ↦ absurd (cc (rw (wrong, change_master_password) at shown))
      | inr right ↦
          rw (right, change_master_password)
            (replaced-Changed c json path laws env later fills readable s opened fresh password
              (wrap_password c env.salt env.wrap_nonce password interactive s.vault.master_key)
              (checked-has c json path laws env later fills readable s opened fresh current right)
              refl (rw (right, change_master_password) at shown)
              (rw (right, change_master_password) at claimed))
    ]
