-- ===== src/Vault/Lock/Tests.antt =====
-- src/config/lock.rs: the theorems at two instances.
use ssh_control.Prelude.{ℕ, ◌≡◌, ◌↔◌, ◌⊎◌, refl, true, false, none, ok}
use ssh_control.Vault.Lock.{
  VaultLock, LockFaults, Instances, Reachable, started, acquired, granted, acquire, acquire_by,
  acquire_outcome, mutual_exclusion,
}

abbrev no_faults : LockFaults
no_faults = record { create_dir = none; open_file = none }

abbrev idle : Instances
idle = record { owner = none; lock = λ i. record { held = false } }

-- Two instances call `acquire`, the first one first.
abbrev contended : Instances
contended = acquire_by no_faults 2 (acquire_by no_faults 1 idle)

contended-Reachable : Reachable contended
contended-Reachable = acquired no_faults 2 (acquired no_faults 1 (started idle refl (λ i. refl)))

first_holds : (contended.lock 1).held ≡ true
unfolding acquire_by
first_holds = refl

second_waits : (contended.lock 2).held ≡ false
unfolding acquire_by
second_waits = refl

mutual_exclusion_example : ◌≡◌ {A = ℕ} 1 1
mutual_exclusion_example = mutual_exclusion 1 1 contended-Reachable first_holds first_holds

abbrev free : VaultLock
free = record { held = false }

acquire_outcome_example :
    (((acquire no_faults granted free).1 ≡ ok tt)
      ↔ ((acquire no_faults granted free).0.held ≡ true))
    × (((acquire no_faults granted free).1 ≡ ok tt) ↔ (
        (free.held ≡ true)
        ⊎ ((no_faults.create_dir ≡ none) × (no_faults.open_file ≡ none) × (granted ≡ granted))))
acquire_outcome_example = acquire_outcome no_faults granted free
