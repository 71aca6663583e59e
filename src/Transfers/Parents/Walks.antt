-- ===== src/Transfers/Parents/Walks.antt =====
-- src/ssh/transfer.rs: a plan names a directory before its contents.
use ssh_control.Prelude.{
  ℕ, zero, suc, ◌≡◌, refl, Bytes, List, [], ◌∷◌, ◌++◌, get_elem?-append, length, Bool, true, false,
  some, ok, All, ◌⊎◌, inl, inr, get_elem?,
}
use ssh_control.Sftp.Client.{RemoteEntry}
use ssh_control.Transfers.{
  Direction, upload, download, TransferItem, DirEntry, Ends, last_component,
}
use ssh_control.Transfers.Walk.{
  Planning, plan_world, dir_item, push_item, child, join_remote, Queue, join, push_file,
  local_entries, walk_local, remote_entries, walk_remote, source_size, walk, plan_source,
  plan_sources, make_plan,
}
use ssh_control.Transfers.Parents.{
  IsOrdered, same-IsGrown, AreQueued, Grows, bind-Grows, push_file-Grows, nothing,
}
use ssh_control.Transfers.Parents.Entries.{
  AreRemote, AreLocal, remote_entries-Queues, local_entries-Queues, walk_from-Grows,
}

-- What a local directory was listed to contain: the source is the entry's path, and the destination
-- its name in the destination of the directory.
pub record IsLocalChild {W Handle File : Type 0} (ends : Ends W Handle File) (parent : TransferItem)
    (src dst : Bytes) : Type 0 where
  pub at : W
  pub entries : List DirEntry
  pub listed : (ends.read_dir parent.src at).1 ≡ ok entries
  pub index : ℕ
  pub entry : DirEntry
  pub is_entry : get_elem? entries index ≡ some entry
  pub name : Bytes
  pub named : entry.name ≡ some name
  pub src_is : src ≡ entry.path
  pub dst_is : dst ≡ child parent.dst name

-- What a remote directory was listed to contain, under the name that the server gave.
pub record IsRemoteChild {W Handle File : Type 0} (ends : Ends W Handle File)
    (parent : TransferItem) (src dst : Bytes) : Type 0 where
  pub at : W
  pub entries : List RemoteEntry
  pub listed : (ends.list_dir parent.src at).1 ≡ ok entries
  pub index : ℕ
  pub entry : RemoteEntry
  pub is_entry : get_elem? entries index ≡ some entry
  pub src_is : src ≡ join_remote parent.src entry.name
  pub dst_is : dst ≡ child parent.dst entry.name

abbrev pub IsChild :
    {W Handle File : Type 0}
    → Ends W Handle File
    → Direction
    → TransferItem
    → Bytes
    → Bytes
    → Type 0
IsChild ends upload = IsLocalChild ends
IsChild ends download = IsRemoteChild ends

All-elem :
    {E : Type 0} (P : E → Type 0) (entries : List E)
    → ((i : ℕ) (e : E) → get_elem? entries i ≡ some e → P e)
    → All P entries
All-elem P [] h = tt
All-elem P (e ∷ entries) h = (h 0 e refl, All-elem P entries (λ i x at. h (suc i) x at))

module _ (IsTop : Bytes → Bytes → Type 0) {W Handle File : Type 0} (ends : Ends W Handle File) where
  are_remote :
      (items : List TransferItem) (src dst : Bytes) (w : W) (entries : List RemoteEntry)
      → (ends.list_dir src w).1 ≡ ok entries
      → AreRemote IsTop (IsRemoteChild ends) ends src dst (items ++ (dir_item src dst ∷ [])) entries
  are_remote items src dst w entries listed = All-elem _ entries λ i e is_entry. inr (record {
    index = length items;
    parent = dir_item src dst;
    at = get_elem?-append items (dir_item src dst) [];
    is_dir = refl;
    lies = record {
      at = w;
      entries = entries;
      listed = listed;
      index = i;
      entry = e;
      is_entry = is_entry;
      src_is = refl;
      dst_is = refl;
    };
  })

  are_local :
      (items : List TransferItem) (src dst : Bytes) (w : W) (entries : List DirEntry)
      → (ends.read_dir src w).1 ≡ ok entries
      → AreLocal IsTop (IsLocalChild ends) ends dst (items ++ (dir_item src dst ∷ [])) entries
  are_local items src dst w entries listed = All-elem _ entries λ i e is_entry n named.
      inr (record {
        index = length items;
        parent = dir_item src dst;
        at = get_elem?-append items (dir_item src dst) [];
        is_dir = refl;
        lies = record {
          at = w;
          entries = entries;
          listed = listed;
          index = i;
          entry = e;
          is_entry = is_entry;
          name = n;
          named = named;
          src_is = refl;
          dst_is = refl;
        };
      })

  walk_remote-Grows :
      (fuel : ℕ) (queue : Queue) (s : Planning W)
      → AreQueued IsTop (IsRemoteChild ends) s.plan.items queue
      → Grows IsTop (IsRemoteChild ends) ends s (walk_remote ends fuel queue s)
  unfolding walk_remote push_item
  walk_remote-Grows fuel [] s q = same-IsGrown IsTop (IsRemoteChild ends) s.plan.items
  walk_remote-Grows zero ((src, dst) ∷ queue) s q =
      same-IsGrown IsTop (IsRemoteChild ends) s.plan.items
  walk_remote-Grows (suc fuel) ((src, dst) ∷ queue) s (p, q) =
      walk_from-Grows IsTop (IsRemoteChild ends) ends
        (AreRemote IsTop (IsRemoteChild ends) ends src dst) src dst queue s
        (ends.list_dir src s.world) (λ entries. remote_entries ends entries src dst)
        (walk_remote ends fuel) p q (λ items. tt) (are_remote s.plan.items src dst s.world)
        (λ entries t here q'.
          remote_entries-Queues IsTop (IsRemoteChild ends) ends entries src dst queue t here q')
        (λ queue' t q'. walk_remote-Grows fuel queue' t q')

  walk_local-Grows :
      (fuel : ℕ) (queue : Queue) (s : Planning W)
      → AreQueued IsTop (IsLocalChild ends) s.plan.items queue
      → Grows IsTop (IsLocalChild ends) ends s (walk_local ends fuel queue s)
  unfolding walk_local push_item
  walk_local-Grows fuel [] s q = same-IsGrown IsTop (IsLocalChild ends) s.plan.items
  walk_local-Grows zero ((src, dst) ∷ queue) s q =
      same-IsGrown IsTop (IsLocalChild ends) s.plan.items
  walk_local-Grows (suc fuel) ((src, dst) ∷ queue) s (p, q) =
      walk_from-Grows IsTop (IsLocalChild ends) ends (AreLocal IsTop (IsLocalChild ends) ends dst)
        src dst queue s (ends.read_dir src s.world) (λ entries. local_entries ends entries dst)
        (walk_local ends fuel) p q (λ items. tt) (are_local s.plan.items src dst s.world)
        (λ entries t here q'.
          local_entries-Queues IsTop (IsLocalChild ends) ends entries dst queue t here q')
        (λ queue' t q'. walk_local-Grows fuel queue' t q')

  walk-Grows :
      (direction : Direction) (fuel : ℕ) (src dst : Bytes) (s : Planning W)
      → IsTop src dst
      → Grows IsTop (IsChild ends direction) ends s (walk ends direction fuel src dst s)
  unfolding walk
  walk-Grows upload fuel src dst s top = walk_local-Grows fuel ((src, dst) ∷ []) s (inl top, tt)
  walk-Grows download fuel src dst s top = walk_remote-Grows fuel ((src, dst) ∷ []) s (inl top, tt)

  plan_source-Grows :
      (fuel : ℕ) (direction : Direction) (dest_dir src : Bytes) (is_dir : Bool) (s : Planning W)
      → IsTop src (join ends direction dest_dir (last_component src))
      → Grows IsTop
          (IsChild ends direction)
          ends
          s
          (plan_source ends fuel direction dest_dir src is_dir s)
  unfolding plan_source
  plan_source-Grows fuel direction dest_dir src true s top =
      walk-Grows direction fuel src (join ends direction dest_dir (last_component src)) s top
  plan_source-Grows fuel direction dest_dir src false s top =
      bind-Grows IsTop (IsChild ends direction) ends s
        (plan_world (source_size ends direction src) s)
        (λ size.
          push_file ends direction src (join ends direction dest_dir (last_component src)) size)
        (same-IsGrown IsTop (IsChild ends direction) s.plan.items)
        λ size.
          push_file-Grows IsTop (IsChild ends direction) ends direction src
            (join ends direction dest_dir (last_component src)) size
            (plan_world (source_size ends direction src) s).0 (inl top)

  plan_sources-Grows :
      (fuel : ℕ) (direction : Direction) (dest_dir : Bytes) (sources : List (Bytes × Bool))
      (s : Planning W)
      → All (λ p. IsTop p.0 (join ends direction dest_dir (last_component p.0))) sources
      → Grows IsTop
          (IsChild ends direction)
          ends
          s
          (plan_sources ends fuel direction dest_dir sources s)
  unfolding plan_sources
  plan_sources-Grows fuel direction dest_dir [] s tops =
      same-IsGrown IsTop (IsChild ends direction) s.plan.items
  plan_sources-Grows fuel direction dest_dir ((src, is_dir) ∷ sources) s (top, tops) =
      let r = plan_source ends fuel direction dest_dir src is_dir s in
      bind-Grows IsTop (IsChild ends direction) ends s r
        (λ _. plan_sources ends fuel direction dest_dir sources)
        (plan_source-Grows fuel direction dest_dir src is_dir s top)
        λ _. plan_sources-Grows fuel direction dest_dir sources r.0 tops

-- One of the selected sources and its destination.
abbrev pub IsSelected :
    {W Handle File : Type 0}
    → Ends W Handle File
    → Direction
    → Bytes
    → List (Bytes × Bool)
    → Bytes
    → Bytes
    → Type 0
IsSelected ends direction dest_dir [] src dst = ⊥
IsSelected ends direction dest_dir ((source, is_dir) ∷ sources) src dst =
    ((src ≡ source) × (dst ≡ join ends direction dest_dir (last_component source)))
    ⊎ IsSelected ends direction dest_dir sources src dst

each_selected :
    {W Handle File : Type 0} (ends : Ends W Handle File) (direction : Direction) (dest_dir : Bytes)
    (sources : List (Bytes × Bool)) (P : Bytes → Bytes → Type 0)
    → ((src dst : Bytes) → IsSelected ends direction dest_dir sources src dst → P src dst)
    → All (λ p. P p.0 (join ends direction dest_dir (last_component p.0))) sources
each_selected ends direction dest_dir [] P h = tt
each_selected ends direction dest_dir ((src, is_dir) ∷ sources) P h = (
  h src (join ends direction dest_dir (last_component src)) (inl (refl, refl)),
  each_selected ends direction dest_dir sources P (λ src dst s. h src dst (inr s)),
)

-- Whatever the two ends answer, and however the walk ends: every item of a plan is for one of the
-- selected sources and its destination, or for an entry that the listing of the source of an earlier
-- directory of the plan gave: its source is that entry's, and its destination is the entry's name in
-- the destination of that directory.
pub make_plan-IsOrdered :
    {W Handle File : Type 0} (ends : Ends W Handle File) (fuel : ℕ) (direction : Direction)
    (sources : List (Bytes × Bool)) (dest_dir : Bytes) (w : W)
    → IsOrdered
        (IsSelected ends direction dest_dir sources)
        (IsChild ends direction)
        (make_plan ends fuel direction sources dest_dir w).0.plan.items
unfolding make_plan
make_plan-IsOrdered ends fuel direction sources dest_dir w =
    (plan_sources-Grows (IsSelected ends direction dest_dir sources) ends fuel direction dest_dir
        sources (record { world = w; plan = record { items = []; total_bytes = 0 } })
        (each_selected ends direction dest_dir sources (IsSelected ends direction dest_dir sources)
          (λ src dst s. s))).ordered
      nothing
