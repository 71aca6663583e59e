-- ===== src/Vault/Lock.antt =====
-- src/config/lock.rs: the advisory lock of a vault, for one instance and for several that contend.
mod Tests
use ssh_control.Prelude.{
  ℕ, ◌≡◌, ◌↔◌, ◌⊎◌, refl, Bool, true, false, Option, some, none, ok, err, if◌then◌else◌, ◌==◌,
  arith, ==_iff,
}
use ssh_control.Errors.{Result, IoKind, io, vault_in_use}

-- What the kernel answered to `flock(LOCK_EX | LOCK_NB)`.
pub data Flock : Type 0 where
  granted would_block : Flock
  failed : IoKind → Flock

-- `held` is a descriptor or none.
pub record VaultLock : Type 0 where
  pub held : Bool

-- The failures of `create_dir_all` and of opening the lock file, where they fail.
pub record LockFaults : Type 0 where
  pub create_dir : Option IoKind
  pub open_file : Option IoKind

unfoldable pub take_exclusive : Flock → Result (Unit {0})
take_exclusive granted = ok tt
take_exclusive would_block = err vault_in_use
take_exclusive (failed k) = err (io k)

abbrev pub on_taken : VaultLock → Result (Unit {0}) → VaultLock × Result (Unit {0})
on_taken l (ok u) = (record { held = true }, ok u)
on_taken l r = (l, r)

unfoldable pub acquire : LockFaults → Flock → VaultLock → VaultLock × Result (Unit {0})
unfolding take_exclusive
acquire f flock l = if l.held then (l, ok tt) else elim f.create_dir [
  | some k ↦ (l, err (io k))
  | none ↦ elim f.open_file [ some k ↦ (l, err (io k)) | none ↦ on_taken l (take_exclusive flock) ]
]

-- Several instances over one lock file: the kernel's owner of it, and the lock of each instance.
pub record Instances : Type 0 where
  pub owner : Option ℕ
  pub lock : ℕ → VaultLock

-- The kernel grants a free lock, and refuses one that is owned.
unfoldable pub flock_of : Option ℕ → Flock
flock_of none = granted
flock_of (some i) = would_block

abbrev pub update : (ℕ → VaultLock) → ℕ → VaultLock → ℕ → VaultLock
update lock i l j = if i == j then l else lock j

-- One instance calls `acquire`: where that made its lock held, the kernel's owner is that instance.
unfoldable pub acquire_by : LockFaults → ℕ → Instances → Instances
unfolding acquire flock_of
acquire_by f i s =
    let l = (acquire f (flock_of s.owner) (s.lock i)).0 in
    record {
      owner = if (s.lock i).held then s.owner else (if l.held then some i else s.owner);
      lock = update s.lock i l;
    }

-- The process ends: the kernel closes its descriptor.
unfoldable pub exit_of : ℕ → Instances → Instances
exit_of i s = record {
  owner = if (s.lock i).held then none else s.owner;
  lock = update s.lock i (record { held = false });
}

pub data Reachable : Instances → Type 0 where
  started : (s : Instances) → s.owner ≡ none → ((i : ℕ) → (s.lock i).held ≡ false) → Reachable s
  acquired : {s : Instances} (f : LockFaults) (i : ℕ) → Reachable s → Reachable (acquire_by f i s)
  exited : {s : Instances} (i : ℕ) → Reachable s → Reachable (exit_of i s)

abbrev Owned : Instances → Type 0
Owned s = (i : ℕ) → ((s.lock i).held ≡ true) ↔ (s.owner ≡ some i)

acquire_by-Owned : (f : LockFaults) (i : ℕ) (s : Instances) → Owned s → Owned (acquire_by f i s)
unfolding acquire_by
acquire_by-Owned f i s inv j = ground (arith, inv i, inv j)

exit_of-Owned : (i : ℕ) (s : Instances) → Owned s → Owned (exit_of i s)
unfolding exit_of
exit_of-Owned i s inv j = ground (arith, inv i, inv j)

Reachable-Owned : {s : Instances} → Reachable s → Owned s
Reachable-Owned (started s free idle) = λ i. ground (arith, idle i)
Reachable-Owned (acquired {s} f i r) = acquire_by-Owned f i s (Reachable-Owned r)
Reachable-Owned (exited {s} i r) = exit_of-Owned i s (Reachable-Owned r)

-- However instances start, acquire, fail and exit, no two of them hold the vault at one time.
pub mutual_exclusion :
    {s : Instances} (i j : ℕ)
    → Reachable s
    → (s.lock i).held ≡ true
    → (s.lock j).held ≡ true
    → i ≡ j
mutual_exclusion i j r hi hj =
    let inv = Reachable-Owned r in let p = (inv i).0 hi in let q = (inv j).0 hj in cc

-- `acquire` succeeds exactly where the lock is held afterwards, and that is so exactly where it was
-- held before, or the directory, the file and the kernel's lock are all to be had.
pub acquire_outcome :
    (f : LockFaults) (flock : Flock) (l : VaultLock)
    → (((acquire f flock l).1 ≡ ok tt) ↔ ((acquire f flock l).0.held ≡ true))
      × (((acquire f flock l).1 ≡ ok tt)
          ↔ ((l.held ≡ true) ⊎ ((f.create_dir ≡ none) × (f.open_file ≡ none) × (flock ≡ granted))))
unfolding acquire
acquire_outcome f flock l =
    ((λ h. ground arith, λ h. ground arith), (λ h. ground arith, λ h. ground arith))
