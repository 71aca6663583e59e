-- ===== src/Transfers/Parents/Entries.antt =====
-- src/ssh/transfer.rs: the walks of a plan keep that what is queued has its directory in the plan.
use ssh_control.Prelude.{
  ℕ, ◌≡◌, refl, Bytes, List, [], ◌∷◌, ◌++◌, Option, some, none, ok, err, panic, All,
}
use ssh_control.Errors.{Result}
use ssh_control.Calls.{Call, on_result, caught}
use ssh_control.Sftp.Client.{RemoteEntry}
use ssh_control.Sftp.Wire.{FileKind, dir, file, symlink, other}
use ssh_control.Transfers.{
  upload, download, TransferItem, LocalMeta, meta_symlink, meta_dir, meta_file, DirEntry, Ends,
}
use ssh_control.Transfers.Walk.{
  Planning, dir_item, link_item, push_item, child, join_remote, Queue, unwrap_or, push_file,
  local_entry, entry_by_meta, entry_by_name, local_entries, remote_entry, remote_entries,
}
use ssh_control.Transfers.Parents.{
  HasParent, IsGrown, then-IsGrown, same-IsGrown, append-IsGrown, AreQueued, AreQueued-Keeps, Grows,
  push_file-Grows, Queues, bind-Queues, keep-Queues, ok-Queues, Keeps,
}

module _ (IsTop : Bytes → Bytes → Type 0) (Lies : TransferItem → Bytes → Bytes → Type 0)
    {W Handle File : Type 0} (ends : Ends W Handle File) where
  local_entry-Queues :
      (path dst : Bytes) (queue : Queue) (m : LocalMeta) (s : Planning W)
      → HasParent IsTop Lies s.plan.items path dst
      → AreQueued IsTop Lies s.plan.items queue
      → Queues IsTop Lies ends s (local_entry ends path dst queue m s)
  unfolding local_entry push_item
  local_entry-Queues path dst queue meta_symlink s p q =
      keep-Queues IsTop Lies ends s (push_item (link_item path dst) s) queue
        (append-IsGrown IsTop Lies s.plan.items (link_item path dst) p) q
  local_entry-Queues path dst queue meta_dir s p q =
      ok-Queues IsTop Lies ends s ((path, dst) ∷ queue) (p, q)
  local_entry-Queues path dst queue (meta_file len) s p q =
      keep-Queues IsTop Lies ends s (push_file ends upload path dst len s) queue
        (push_file-Grows IsTop Lies ends upload path dst len s p) q

  remote_entry-Queues :
      (src dst : Bytes) (size : ℕ) (queue : Queue) (k : FileKind) (s : Planning W)
      → HasParent IsTop Lies s.plan.items src dst
      → AreQueued IsTop Lies s.plan.items queue
      → Queues IsTop Lies ends s (remote_entry ends src dst size queue k s)
  unfolding remote_entry push_item
  remote_entry-Queues src dst size queue dir s p q =
      ok-Queues IsTop Lies ends s ((src, dst) ∷ queue) (p, q)
  remote_entry-Queues src dst size queue symlink s p q =
      keep-Queues IsTop Lies ends s (push_item (link_item src dst) s) queue
        (append-IsGrown IsTop Lies s.plan.items (link_item src dst) p) q
  remote_entry-Queues src dst size queue file s p q =
      keep-Queues IsTop Lies ends s (push_file ends download src dst size s) queue
        (push_file-Grows IsTop Lies ends download src dst size s p) q
  remote_entry-Queues src dst size queue other s p q =
      keep-Queues IsTop Lies ends s (push_file ends download src dst size s) queue
        (push_file-Grows IsTop Lies ends download src dst size s p) q

  All-Keeps :
      {E : Type 0} (src dst : E → Bytes) (xs ys : List TransferItem) (entries : List E)
      → Keeps IsTop Lies xs ys
      → All (λ e. HasParent IsTop Lies xs (src e) (dst e)) entries
      → All (λ e. HasParent IsTop Lies ys (src e) (dst e)) entries
  All-Keeps src dst xs ys [] k h = tt
  All-Keeps src dst xs ys (e ∷ entries) k (h, rest) =
      (k (src e) (dst e) h, All-Keeps src dst xs ys entries k rest)

  -- The entries of a remote directory have their directory in the plan.
  abbrev pub AreRemote : Bytes → Bytes → List TransferItem → List RemoteEntry → Type 0
  AreRemote src_dir dst_dir items entries =
      All (λ e. HasParent IsTop Lies items (join_remote src_dir e.name) (child dst_dir e.name))
        entries

  pub remote_entries-Queues :
      (entries : List RemoteEntry) (src_dir dst_dir : Bytes) (queue : Queue) (s : Planning W)
      → AreRemote src_dir dst_dir s.plan.items entries
      → AreQueued IsTop Lies s.plan.items queue
      → Queues IsTop Lies ends s (remote_entries ends entries src_dir dst_dir queue s)
  unfolding remote_entries
  remote_entries-Queues [] src_dir dst_dir queue s here q = ok-Queues IsTop Lies ends s queue q
  remote_entries-Queues (e ∷ entries) src_dir dst_dir queue s (here, others) q =
      let src = join_remote src_dir e.name in
      let dst = child dst_dir e.name in
      let r = remote_entry ends src dst e.size queue e.kind s in
      let entered = remote_entry-Queues src dst e.size queue e.kind s here q in
      bind-Queues IsTop Lies ends s r (λ queue. remote_entries ends entries src_dir dst_dir queue)
        entered
        λ queue' q'.
          remote_entries-Queues entries src_dir dst_dir queue' r.0
            (All-Keeps (λ e. join_remote src_dir e.name) (λ e. child dst_dir e.name) s.plan.items
              r.0.plan.items entries entered.grown.kept others)
            q'

  -- A call caught as a value leaves the state that it left.
  caught-Grows :
      {A B : Type 0} (s t : Planning W) (r : Result A) (f : Result A → Call (Planning W) B)
      → IsGrown IsTop Lies s.plan.items t.plan.items
      → ((a : Result A) → r ≡ a → Grows IsTop Lies ends t (f a t))
      → Grows IsTop Lies ends s (on_result (t, caught r) f)
  caught-Grows s t (ok a) f h k =
      then-IsGrown IsTop Lies s.plan.items t.plan.items (f (ok a) t).0.plan.items h (k (ok a) refl)
  caught-Grows s t (err e) f h k =
      then-IsGrown IsTop Lies s.plan.items t.plan.items (f (err e) t).0.plan.items h
        (k (err e) refl)
  caught-Grows s t panic f h k = h

  bind-walk :
      (s : Planning W) (r : Planning W × Result Queue) (f : Queue → Call (Planning W) (Unit {0}))
      → Queues IsTop Lies ends s r
      → ((queue : Queue)
          → AreQueued IsTop Lies r.0.plan.items queue
          → Grows IsTop Lies ends r.0 (f queue r.0))
      → Grows IsTop Lies ends s (on_result r f)
  bind-walk s (t, ok a) f h k =
      then-IsGrown IsTop Lies s.plan.items t.plan.items (f a t).0.plan.items h.grown
        (k a (h.queued a refl))
  bind-walk s (t, err e) f h k = h.grown
  bind-walk s (t, panic) f h k = h.grown

  -- The rest of a walk after the entries of one directory were asked for.
  pub walk_from-Grows :
      {E : Type 0} (Here : List TransferItem → List E → Type 0) (src dst : Bytes) (queue : Queue)
      (s : Planning W) (listed : W × Result (List E))
      (scan : List E → Queue → Call (Planning W) Queue) (on : Queue → Call (Planning W) (Unit {0}))
      → HasParent IsTop Lies s.plan.items src dst
      → AreQueued IsTop Lies s.plan.items queue
      → ((items : List TransferItem) → Here items [])
      → ((entries : List E)
          → listed.1 ≡ ok entries
          → Here (s.plan.items ++ (dir_item src dst ∷ [])) entries)
      → ((entries : List E) (t : Planning W)
          → Here t.plan.items entries
          → AreQueued IsTop Lies t.plan.items queue
          → Queues IsTop Lies ends t (scan entries queue t))
      → ((queue' : Queue) (t : Planning W)
          → AreQueued IsTop Lies t.plan.items queue'
          → Grows IsTop Lies ends t (on queue' t))
      → Grows IsTop Lies ends s (
          on_result
            (record (push_item (dir_item src dst) s).0 { world = listed.0 }, caught listed.1)
            (λ found t. on_result (scan (unwrap_or [] found) queue t) on))
  unfolding push_item
  walk_from-Grows {E} Here src dst queue s listed scan on p q nothing_here here scanned walked =
      let s₂ : Planning W = record (push_item (dir_item src dst) s).0 { world = listed.0 } in
      let grown = append-IsGrown IsTop Lies s.plan.items (dir_item src dst) p in
      let q₂ = AreQueued-Keeps IsTop Lies s.plan.items s₂.plan.items queue grown.kept q in
      caught-Grows s s₂ listed.1 (λ found t. on_result (scan (unwrap_or [] found) queue t) on) grown
        λ found e.
          bind-walk s₂ (scan (unwrap_or [] found) queue s₂) on
            (scanned (unwrap_or [] found) s₂ (found_here found e) q₂)
            λ queue' q'. walked queue' (scan (unwrap_or [] found) queue s₂).0 q'
    where
      found_here :
          (found : Result (List E))
          → listed.1 ≡ found
          → Here (s.plan.items ++ (dir_item src dst ∷ [])) (unwrap_or [] found)
      found_here (ok entries) e = here entries e
      found_here (err x) e = nothing_here (s.plan.items ++ (dir_item src dst ∷ []))
      found_here panic e = nothing_here (s.plan.items ++ (dir_item src dst ∷ []))

  entry_by_meta-Queues :
      (path dst : Bytes) (queue : Queue) (r : Result LocalMeta) (s : Planning W)
      → HasParent IsTop Lies s.plan.items path dst
      → AreQueued IsTop Lies s.plan.items queue
      → Queues IsTop Lies ends s (entry_by_meta ends path dst queue r s)
  unfolding entry_by_meta
  entry_by_meta-Queues path dst queue (ok m) s p q = local_entry-Queues path dst queue m s p q
  entry_by_meta-Queues path dst queue (err e) s p q = ok-Queues IsTop Lies ends s queue q
  entry_by_meta-Queues path dst queue panic s p q = record {
    grown = same-IsGrown IsTop Lies s.plan.items;
    queued = λ queue' e. absurd (cc);
  }

  -- An entry with a name has its directory in the plan.
  abbrev IsLocal : Bytes → List TransferItem → Bytes → Option Bytes → Type 0
  IsLocal dst_dir items path name =
      (n : Bytes) → name ≡ some n → HasParent IsTop Lies items path (child dst_dir n)

  abbrev pub AreLocal : Bytes → List TransferItem → List DirEntry → Type 0
  AreLocal dst_dir items entries = All (λ e. IsLocal dst_dir items e.path e.name) entries

  AreLocal-Keeps :
      (dst_dir : Bytes) (xs ys : List TransferItem) (entries : List DirEntry)
      → Keeps IsTop Lies xs ys
      → AreLocal dst_dir xs entries
      → AreLocal dst_dir ys entries
  AreLocal-Keeps dst_dir xs ys [] k h = tt
  AreLocal-Keeps dst_dir xs ys (e ∷ entries) k (h, rest) = (
    λ n named. k e.path (child dst_dir n) (h n named),
    AreLocal-Keeps dst_dir xs ys entries k rest,
  )

  entry_by_name-Queues :
      (path dst_dir : Bytes) (queue : Queue) (name : Option Bytes) (s : Planning W)
      → IsLocal dst_dir s.plan.items path name
      → AreQueued IsTop Lies s.plan.items queue
      → Queues IsTop Lies ends s (entry_by_name ends path dst_dir queue name s)
  unfolding entry_by_name
  entry_by_name-Queues path dst_dir queue none s here q = ok-Queues IsTop Lies ends s queue q
  entry_by_name-Queues path dst_dir queue (some name) s here q =
      let r = ends.symlink_metadata path s.world in
      let k =
        entry_by_meta-Queues path (child dst_dir name) queue r.1 (record s { world = r.0 })
          (here name refl) q in
      record { grown = k.grown; queued = k.queued }

  pub local_entries-Queues :
      (entries : List DirEntry) (dst_dir : Bytes) (queue : Queue) (s : Planning W)
      → AreLocal dst_dir s.plan.items entries
      → AreQueued IsTop Lies s.plan.items queue
      → Queues IsTop Lies ends s (local_entries ends entries dst_dir queue s)
  unfolding local_entries
  local_entries-Queues [] dst_dir queue s here q = ok-Queues IsTop Lies ends s queue q
  local_entries-Queues (e ∷ entries) dst_dir queue s (here, others) q =
      let r = entry_by_name ends e.path dst_dir queue e.name s in
      let entered = entry_by_name-Queues e.path dst_dir queue e.name s here q in
      bind-Queues IsTop Lies ends s r (λ queue. local_entries ends entries dst_dir queue) entered
        λ queue' q'.
          local_entries-Queues entries dst_dir queue' r.0
            (AreLocal-Keeps dst_dir s.plan.items r.0.plan.items entries entered.grown.kept others)
            q'
