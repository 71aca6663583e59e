-- ===== src/Transfers/Walk.antt =====
-- src/ssh/transfer.rs: walking what was selected into a plan. The walks run on fuel, one unit for each
-- directory: `panic` stands for a walk that its fuel does not see to the end.
use ssh_control.Prelude.{
  ℕ, zero, suc, Bytes, List, [], ◌∷◌, ◌++◌, Bool, true, false, not, ◌==◌, if◌then◌else◌, Option,
  some, none, ok, err, panic,
}
use ssh_control.Errors.{Result, sftp, cancelled}
use ssh_control.Calls.{Call, ◌>>=◌, ◌>>◌, lift, attempt}
use ssh_control.Sftp.Wire.{FileKind, dir, file, symlink, other}
use ssh_control.Sftp.Client.{RemoteEntry}
use ssh_control.Transfers.{
  Direction, upload, download, symlink_skipped, TransferItem, TransferPlan, scanning, LocalMeta,
  meta_symlink, meta_dir, meta_file, DirEntry, Ends, add_u64, count, is_none, slash, last_component,
}

-- The shared state and the plan so far.
pub record Planning (W : Type 0) : Type 0 where
  pub world : W
  pub plan : TransferPlan

abbrev pub plan_world : {W A : Type 0} → Call W A → Call (Planning W) A
plan_world m s = let (w, r) = m s.world in (record s { world = w }, r)

abbrev pub dir_item : Bytes → Bytes → TransferItem
dir_item src dst = record {
  src = src;
  dst = dst;
  is_dir = true;
  size = 0;
  exists = false;
  skip = none;
}

abbrev pub link_item : Bytes → Bytes → TransferItem
link_item src dst = record {
  src = src;
  dst = dst;
  is_dir = false;
  size = 0;
  exists = false;
  skip = some symlink_skipped;
}

abbrev pub file_item : Bytes → Bytes → ℕ → Bool → TransferItem
file_item src dst size exists = record {
  src = src;
  dst = dst;
  is_dir = false;
  size = size;
  exists = exists;
  skip = none;
}

abbrev pub append_item : TransferItem → TransferPlan → TransferPlan
append_item item plan = record plan { items = plan.items ++ (item ∷ []) }

unfoldable pub push_item : {W : Type 0} → TransferItem → Call (Planning W) (Unit {0})
push_item item s = (record s { plan = append_item item s.plan }, ok tt)

abbrev pub add_bytes : ℕ → TransferPlan → TransferPlan
add_bytes size plan = record plan { total_bytes = add_u64 plan.total_bytes size }

unfoldable pub add_size : {W : Type 0} → ℕ → Call (Planning W) (Unit {0})
add_size size s = (record s { plan = add_bytes size s.plan }, ok tt)

unfoldable pub child : Bytes → Bytes → Bytes
child dir_ name = dir_ ++ (slash ∷ name)

unfoldable pub ends_with_slash : Bytes → Bool
ends_with_slash [] = false
ends_with_slash (b ∷ []) = b == slash
ends_with_slash (b ∷ c ∷ bs) = ends_with_slash (c ∷ bs)

abbrev pub join_remote : Bytes → Bytes → Bytes
join_remote dir_ name = if ends_with_slash dir_ then dir_ ++ name else child dir_ name

-- The directories still to be read, the next one first: source and destination.
abbrev pub Queue : Type 0
Queue = List (Bytes × Bytes)

-- An error of a call as the value that stands in for it.
abbrev pub unwrap_or : {A : Type 0} → A → Result A → A
unwrap_or a (ok b) = b
unwrap_or a _ = a

module _ {W Handle File : Type 0} (ends : Ends W Handle File) where
  unfoldable pub join : Direction → Bytes → Bytes → Bytes
  join upload dir_ name = join_remote dir_ name
  join download dir_ name = ends.local_join dir_ name

  -- Whether something is already there.
  unfoldable pub look : Direction → Bytes → Call W Bool
  look upload dst = do
    found ← attempt (ends.try_stat dst)
    lift (ok (not (is_none (unwrap_or none found))))
  look download dst = λ w. (w, ok (ends.local_exists dst w))

  -- The event of one more file: a stop ends the planning.
  unfoldable pub announce : Call (Planning W) (Unit {0})
  announce s =
      let files = count (λ i. not i.is_dir) s.plan.items in
      let (w, stop) = ends.on_event (scanning files s.plan.total_bytes) s.world in
      (record s { world = w }, (if stop then err (sftp cancelled) else ok tt))

  unfoldable pub push_file : Direction → Bytes → Bytes → ℕ → Call (Planning W) (Unit {0})
  push_file direction src dst size = do
    exists ← plan_world (look direction dst)
    add_size size
    push_item (file_item src dst size exists)
    announce

  -- One entry of a local directory, whose metadata could be read: the queue after it.
  unfoldable pub local_entry : Bytes → Bytes → Queue → LocalMeta → Call (Planning W) Queue
  local_entry path dst queue meta_symlink = do push_item (link_item path dst); lift (ok queue)
  local_entry path dst queue meta_dir = lift (ok ((path, dst) ∷ queue))
  local_entry path dst queue (meta_file len) = do push_file upload path dst len; lift (ok queue)

  -- An entry whose metadata cannot be read is passed over.
  unfoldable pub entry_by_meta : Bytes → Bytes → Queue → Result LocalMeta → Call (Planning W) Queue
  entry_by_meta path dst queue (ok m) = local_entry path dst queue m
  entry_by_meta path dst queue (err e) = lift (ok queue)
  entry_by_meta path dst queue panic = lift panic

  -- An entry whose name is not UTF-8 is passed over.
  unfoldable pub entry_by_name : Bytes → Bytes → Queue → Option Bytes → Call (Planning W) Queue
  entry_by_name path dst_dir queue none s = (s, ok queue)
  entry_by_name path dst_dir queue (some name) s =
      let (w, meta) = ends.symlink_metadata path s.world in
      entry_by_meta path (child dst_dir name) queue meta (record s { world = w })

  unfoldable pub local_entries : List DirEntry → Bytes → Queue → Call (Planning W) Queue
  local_entries [] dst_dir queue = lift (ok queue)
  local_entries (e ∷ entries) dst_dir queue = do
    queue ← entry_by_name e.path dst_dir queue e.name
    local_entries entries dst_dir queue

  unfoldable pub walk_local : ℕ → Queue → Call (Planning W) (Unit {0})
  walk_local fuel [] = lift (ok tt)
  walk_local zero ((src, dst) ∷ queue) = lift panic
  walk_local (suc fuel) ((src, dst) ∷ queue) = do
    push_item (dir_item src dst)
    entries ← attempt (plan_world (ends.read_dir src))
    queue ← local_entries (unwrap_or [] entries) dst queue
    walk_local fuel queue

  -- One entry of a remote directory, by its kind: the queue after it.
  unfoldable pub remote_entry : Bytes → Bytes → ℕ → Queue → FileKind → Call (Planning W) Queue
  remote_entry src dst size queue dir = lift (ok ((src, dst) ∷ queue))
  remote_entry src dst size queue symlink = do push_item (link_item src dst); lift (ok queue)
  remote_entry src dst size queue file = do push_file download src dst size; lift (ok queue)
  remote_entry src dst size queue other = do push_file download src dst size; lift (ok queue)

  unfoldable pub remote_entries : List RemoteEntry → Bytes → Bytes → Queue → Call (Planning W) Queue
  remote_entries [] src_dir dst_dir queue = lift (ok queue)
  remote_entries (e ∷ entries) src_dir dst_dir queue = do
    queue ← remote_entry (join_remote src_dir e.name) (child dst_dir e.name) e.size queue e.kind
    remote_entries entries src_dir dst_dir queue

  unfoldable pub walk_remote : ℕ → Queue → Call (Planning W) (Unit {0})
  walk_remote fuel [] = lift (ok tt)
  walk_remote zero ((src, dst) ∷ queue) = lift panic
  walk_remote (suc fuel) ((src, dst) ∷ queue) = do
    push_item (dir_item src dst)
    entries ← attempt (plan_world (ends.list_dir src))
    queue ← remote_entries (unwrap_or [] entries) src dst queue
    walk_remote fuel queue

  unfoldable pub source_size : Direction → Bytes → Call W ℕ
  source_size upload src = do len ← attempt (ends.local_len src); lift (ok (unwrap_or 0 len))
  source_size download src = do
    attrs ← attempt (ends.stat src)
    lift (ok (elim attrs [ ok a ↦ elim a.size [ some n ↦ n | none ↦ 0 ] | _ ↦ 0 ]))

  unfoldable pub walk : Direction → ℕ → Bytes → Bytes → Call (Planning W) (Unit {0})
  walk upload fuel src dst = walk_local fuel ((src, dst) ∷ [])
  walk download fuel src dst = walk_remote fuel ((src, dst) ∷ [])

  -- One of the selected sources.
  unfoldable pub plan_source : ℕ → Direction → Bytes → Bytes → Bool → Call (Planning W) (Unit {0})
  plan_source fuel direction dest_dir src is_dir =
      let dst = join direction dest_dir (last_component src) in
      if is_dir
      then walk direction fuel src dst
      else (do size ← plan_world (source_size direction src); push_file direction src dst size)

  unfoldable pub plan_sources :
      ℕ → Direction → Bytes → List (Bytes × Bool) → Call (Planning W) (Unit {0})
  plan_sources fuel direction dest_dir [] = lift (ok tt)
  plan_sources fuel direction dest_dir ((src, is_dir) ∷ sources) = do
    plan_source fuel direction dest_dir src is_dir
    plan_sources fuel direction dest_dir sources

  unfoldable pub make_plan :
      ℕ → Direction → List (Bytes × Bool) → Bytes → W → Planning W × Result (Unit {0})
  make_plan fuel direction sources dest_dir w =
      plan_sources fuel direction dest_dir sources
        (record { world = w; plan = record { items = []; total_bytes = 0 } })
