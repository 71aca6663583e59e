-- ===== src/Vault/Store/Shape.antt =====
-- src/config/store.rs: the shape of a vault whose slots of one kind are replaced.
use ssh_control.Prelude.{◌≡◌, true, List, some, arith}
use ssh_control.Vault.Format.{Slot, slot_password, slot_device}
use ssh_control.Vault.Keyslot.{find, has, replace}
use ssh_control.Vault.Keyslot.Slots.{find-replace}
use ssh_control.Vault.Store.{shape_of, device_and_password}

-- Enrolling a device on a vault that has a password slot keeps the password: the vault has both
-- unlock methods afterwards, with the new device slot and the password slot it had.
pub shape_of-replace :
    (slots : List Slot) (r : Slot)
    → has slots slot_password ≡ true
    → r.kind ≡ slot_device
    → (shape_of (replace slots slot_device r) ≡ device_and_password)
      × (find (replace slots slot_device r) slot_password ≡ find slots slot_password)
      × (find (replace slots slot_device r) slot_device ≡ some r)
unfolding shape_of has
shape_of-replace slots r h kind = ground (
  arith,
  find-replace slots slot_device slot_password r kind,
  find-replace slots slot_device slot_device r kind,
)
