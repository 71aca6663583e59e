-- ===== src/Vault/Disk.antt =====
-- src/config/store.rs: `write_file_atomic` over a directory that holds the vault and its temporary
-- sibling. What fails, and how, is an argument.
use ssh_control.Prelude.{
  ◌≡◌, ◌≢◌, panic, Bytes, [], Bool, Option, some, none, ok, err, if◌then◌else◌, arith,
}
use ssh_control.Errors.{Result, IoKind, io}

-- The files `config.enc` and `config.enc.tmp`.
pub record Disk : Type 0 where
  pub vault : Option Bytes
  pub tmp : Option Bytes

-- Each call of the file system that `write_file_atomic` makes, with its failure where it fails.
pub record WriteFaults : Type 0 where
  pub create_dir_all : Option IoKind
  pub set_dir_permissions : Option IoKind
  pub create_tmp : Option IoKind
  pub set_file_permissions : Option IoKind
  -- a failure of `write_all` or `sync_all`, with what has reached the file by then
  pub write_all : Option (IoKind × Bytes)
  pub rename : Option IoKind
  -- whether the best-effort removal of the temporary file works
  pub remove_works : Bool

abbrev remove_tmp : WriteFaults → Bytes → Disk → Disk
remove_tmp f content d = record d { tmp = if f.remove_works then none else some content }

-- The steps in the source's order; the vault has a parent directory.
unfoldable pub write_file_atomic : WriteFaults → Bytes → Disk → Disk × Result (Unit {0})
write_file_atomic f bytes d = elim f.create_dir_all [
  | some k ↦ (d, err (io k))
  | none ↦ elim f.set_dir_permissions [
    | some k ↦ (d, err (io k))
    | none ↦ elim f.create_tmp [
      | some k ↦ (d, err (io k))
      | none ↦ elim f.set_file_permissions [
        | some k ↦ (record d { tmp = some [] }, err (io k))
        | none ↦ elim f.write_all [
          | some (k, part) ↦ (remove_tmp f part d, err (io k))
          | none ↦ elim f.rename [
            | some k ↦ (remove_tmp f bytes d, err (io k))
            | none ↦ (record { vault = some bytes; tmp = none }, ok tt)
          ]
        ]
      ]
    ]
  ]
]

-- The vault file after a call with this result: the new bytes or the old file.
abbrev pub all_or_nothing : Result (Unit {0}) → Bytes → Option Bytes → Option Bytes
all_or_nothing (ok u) bytes old = some bytes
all_or_nothing (err e) bytes old = old
all_or_nothing panic bytes old = old

-- Whatever fails, the vault file is afterwards exactly the new bytes where the write reports success
-- and the old file where it reports an error; and the write does not panic.
pub write_file_atomic-all_or_nothing :
    (f : WriteFaults) (bytes : Bytes) (d : Disk)
    → ((write_file_atomic f bytes d).0.vault
        ≡ all_or_nothing (write_file_atomic f bytes d).1 bytes d.vault)
      × ((write_file_atomic f bytes d).1 ≢ panic)
unfolding write_file_atomic
write_file_atomic-all_or_nothing f bytes d = (ground arith, ground arith)
