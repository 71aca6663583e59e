-- ===== src/Transfers/Parents.antt =====
-- src/ssh/transfer.rs: the order of a plan, and the calls that keep it.
pub mod Entries
pub mod Walks
use ssh_control.Prelude.{
  ℕ, zero, suc, ◌≡◌, refl, subst, Bytes, List, [], ◌∷◌, ◌++◌, get_elem?, get_elem?-append, length,
  Bool, true, false, Option, some, none, ok, err, panic, All, ◌⊎◌, inl, inr, if◌then◌else◌,
  Bool-cases,
}
use ssh_control.Errors.{Result}
use ssh_control.Calls.{Call, on_result, lift, caught}
use ssh_control.Sftp.Client.{RemoteEntry}
use ssh_control.Sftp.Wire.{FileKind, dir, file, symlink, other}
use ssh_control.Transfers.{
  Direction, upload, download, TransferItem, TransferPlan, LocalMeta, meta_symlink, meta_dir,
  meta_file, DirEntry, Ends, last_component,
}
use ssh_control.Transfers.Walk.{
  Planning, plan_world, dir_item, link_item, file_item, push_item, add_size, child, join_remote,
  Queue, unwrap_or, join, look, announce, push_file, local_entry, local_entries, walk_local,
  remote_entry, remote_entries, walk_remote, source_size, walk, plan_source, plan_sources,
  make_plan,
}

-- A source and destination that lie in a directory of the list, in the sense that is given.
pub record IsInside (Lies : TransferItem → Bytes → Bytes → Type 0) (items : List TransferItem)
    (src dst : Bytes) : Type 0 where
  pub index : ℕ
  pub parent : TransferItem
  pub at : get_elem? items index ≡ some parent
  pub is_dir : parent.is_dir ≡ true
  pub lies : Lies parent src dst

get_elem?-more :
    (items : List TransferItem) (i : ℕ) (x : TransferItem) {y : TransferItem}
    → get_elem? items i ≡ some y
    → get_elem? (items ++ (x ∷ [])) i ≡ some y
get_elem?-more [] i x h = absurd (cc)
get_elem?-more (z ∷ items) zero x h = h
get_elem?-more (z ∷ items) (suc i) x h = get_elem?-more items i x h

module _ (IsTop : Bytes → Bytes → Type 0) (Lies : TransferItem → Bytes → Bytes → Type 0) where
  abbrev pub HasParent : List TransferItem → Bytes → Bytes → Type 0
  HasParent items src dst = IsTop src dst ⊎ IsInside Lies items src dst

  -- Plans in which each item's directory stands before it.
  pub data IsOrdered : List TransferItem → Type 0 where
    nothing : IsOrdered []
    one_more :
        (items : List TransferItem) (item : TransferItem)
        → IsOrdered items
        → HasParent items item.src item.dst
        → IsOrdered (items ++ (item ∷ []))

  HasParent-append :
      (items : List TransferItem) (item : TransferItem) (src dst : Bytes)
      → HasParent items src dst
      → HasParent (items ++ (item ∷ [])) src dst
  HasParent-append items item src dst (inl top) = inl top
  HasParent-append items item src dst (inr i) = inr (record {
    index = i.index;
    parent = i.parent;
    at = get_elem?-more items i.index item i.at;
    is_dir = i.is_dir;
    lies = i.lies;
  })

  -- What has a parent keeps it.
  abbrev pub Keeps : List TransferItem → List TransferItem → Type 0
  Keeps xs ys = (src dst : Bytes) → HasParent xs src dst → HasParent ys src dst

  record IsGrown (xs ys : List TransferItem) : Type 0 where
    pub ordered : IsOrdered xs → IsOrdered ys
    pub kept : Keeps xs ys

  same-IsGrown : (xs : List TransferItem) → IsGrown xs xs
  same-IsGrown xs = record { ordered = λ o. o; kept = λ src dst h. h }

  then-IsGrown : (xs ys zs : List TransferItem) → IsGrown xs ys → IsGrown ys zs → IsGrown xs zs
  then-IsGrown xs ys zs h k = record {
    ordered = λ o. k.ordered (h.ordered o);
    kept = λ src dst p. k.kept src dst (h.kept src dst p);
  }

  append-IsGrown :
      (xs : List TransferItem) (item : TransferItem)
      → HasParent xs item.src item.dst
      → IsGrown xs (xs ++ (item ∷ []))
  append-IsGrown xs item p = record {
    ordered = λ o. one_more xs item o p;
    kept = λ src dst h. HasParent-append xs item src dst h;
  }

  -- The destinations of a queue.
  abbrev AreQueued : List TransferItem → Queue → Type 0
  AreQueued items queue = All (λ p. HasParent items p.0 p.1) queue

  AreQueued-Keeps :
      (xs ys : List TransferItem) (queue : Queue)
      → Keeps xs ys
      → AreQueued xs queue
      → AreQueued ys queue
  AreQueued-Keeps xs ys [] k h = tt
  AreQueued-Keeps xs ys (p ∷ queue) k (h, rest) = (k p.0 p.1 h, AreQueued-Keeps xs ys queue k rest)

  module _ {W Handle File : Type 0} (ends : Ends W Handle File) where
    -- A call that only adds items whose parents are there.
    abbrev Grows : {A : Type 0} → Planning W → Planning W × Result A → Type 0
    Grows s r = IsGrown s.plan.items r.0.plan.items

    bind-Grows :
        {A B : Type 0} (s : Planning W) (r : Planning W × Result A) (f : A → Call (Planning W) B)
        → Grows s r
        → ((a : A) → Grows r.0 (f a r.0))
        → Grows s (on_result r f)
    bind-Grows s (t, ok a) f h k =
        then-IsGrown s.plan.items t.plan.items (f a t).0.plan.items h (k a)
    bind-Grows s (t, err e) f h k = h
    bind-Grows s (t, panic) f h k = h

    push_file-Grows :
        (direction : Direction) (src dst : Bytes) (size : ℕ) (s : Planning W)
        → HasParent s.plan.items src dst
        → Grows s (push_file ends direction src dst size s)
    unfolding push_file announce push_item add_size
    push_file-Grows direction src dst size s p =
        bind-Grows s (plan_world (look ends direction dst) s) _ (same-IsGrown s.plan.items)
          λ exists. append-IsGrown s.plan.items (file_item src dst size exists) p

    -- A queue that comes back: its destinations have their parents too.
    record Queues (s : Planning W) (r : Planning W × Result Queue) : Type 0 where
      pub grown : Grows s r
      pub queued : (queue : Queue) → r.1 ≡ ok queue → AreQueued r.0.plan.items queue

    bind-Queues :
        (s : Planning W) (r : Planning W × Result Queue) (f : Queue → Call (Planning W) Queue)
        → Queues s r
        → ((queue : Queue) → AreQueued r.0.plan.items queue → Queues r.0 (f queue r.0))
        → Queues s (on_result r f)
    bind-Queues s (t, ok a) f h k =
        let next = k a (h.queued a refl) in
        record {
          grown = then-IsGrown s.plan.items t.plan.items (f a t).0.plan.items h.grown next.grown;
          queued = next.queued;
        }
    bind-Queues s (t, err e) f h k = record { grown = h.grown; queued = λ queue e. absurd (cc) }
    bind-Queues s (t, panic) f h k = record { grown = h.grown; queued = λ queue e. absurd (cc) }

    -- A call that leaves the queue to the caller.
    keep-Queues :
        {A : Type 0} (s : Planning W) (r : Planning W × Result A) (queue : Queue)
        → Grows s r
        → AreQueued s.plan.items queue
        → Queues s (on_result r (λ _. lift (ok queue)))
    keep-Queues s (t, ok a) queue h q = record {
      grown = h;
      queued = λ queue' e.
          let same : queue ≡ queue' = cc in
          subst (λ x. AreQueued t.plan.items x) same
            (AreQueued-Keeps s.plan.items t.plan.items queue h.kept q);
    }
    keep-Queues s (t, err e) queue h q = record { grown = h; queued = λ queue' e. absurd (cc) }
    keep-Queues s (t, panic) queue h q = record { grown = h; queued = λ queue' e. absurd (cc) }

    ok-Queues :
        (s : Planning W) (queue : Queue) → AreQueued s.plan.items queue → Queues s (s, ok queue)
    ok-Queues s queue q = record {
      grown = same-IsGrown s.plan.items;
      queued = λ queue' e.
          let same : queue ≡ queue' = cc in subst (λ x. AreQueued s.plan.items x) same q;
    }
