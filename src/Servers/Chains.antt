-- ===== src/Servers/Chains.antt =====
-- src/ssh/session.rs: the bastions of a target are the chain that the entries name.
use ssh_control.Prelude.{
  ℕ, zero, suc, ◌≤◌, ◌≡◌, refl, subst, Bytes, List, [], ◌∷◌, ◌++◌, length, false, Option, some,
  none, ok, err, by_ok, ◌>>=◌, arith,
}
use ssh_control.Errors.{validation}
use ssh_control.Servers.{
  ServerEntry, Endpoint, Target, endpoint_of, seen_before, find_server, next_hop, too_deep, follow,
  reverse, routes_of, from_entry, max_jumps,
}

-- The hops from an entry on, innermost first: each is the server that the one before names, the last
-- one names none, and no identifier comes twice.
pub data Leads (servers : List ServerEntry)
    : List ℕ → ServerEntry → List Endpoint → List ℕ → Type 0 where
  direct : {seen : List ℕ} {at : ServerEntry} → at.jump_host ≡ none → Leads servers seen at [] []
  through :
      {seen : List ℕ} {at : ServerEntry} (id : ℕ) (next : ServerEntry) {jumps : List Endpoint}
      {ids : List ℕ}
      → at.jump_host ≡ some id
      → seen_before seen id ≡ false
      → find_server servers id ≡ some next
      → Leads servers (seen ++ id ∷ []) next jumps ids
      → Leads servers seen at (endpoint_of next ∷ jumps) (id ∷ ids)

next_hop-none :
    (name : Bytes) (servers : List ServerEntry) (seen : List ℕ) (at : ServerEntry)
    → next_hop name servers seen at ≡ ok none
    → at.jump_host ≡ none
unfolding next_hop
next_hop-none name servers seen at h = ground arith

next_hop-some :
    (name : Bytes) (servers : List ServerEntry) (seen : List ℕ) (at : ServerEntry) (id : ℕ)
    (next : ServerEntry)
    → next_hop name servers seen at ≡ ok (some (id, next))
    → (at.jump_host ≡ some id)
      × (seen_before seen id ≡ false)
      × (find_server servers id ≡ some next)
unfolding next_hop
next_hop-some name servers seen at id next h = ground arith

abbrev Found : List ServerEntry → ℕ → List ℕ → ServerEntry → List Endpoint → List ℕ → Type 0
Found servers room seen at jumps ids =
    Leads servers seen at jumps ids × (length jumps ≤ room) × (length ids ≡ length jumps)

follow-Leads :
    (name : Bytes) (servers : List ServerEntry) (room : ℕ) (seen : List ℕ) (at : ServerEntry)
    (r : List Endpoint × List ℕ)
    → follow name servers room seen at ≡ ok r
    → Found servers room seen at r.0 r.1
unfolding follow
follow-Leads name servers zero seen at r h = by_ok (next_hop name servers seen at) _ h (go)
  where
    go :
        (hop : Option (ℕ × ServerEntry))
        → next_hop name servers seen at ≡ ok hop
        → (elim hop [ none ↦ ok ([], []) | some found ↦ err (validation (too_deep name)) ]) ≡ ok r
        → Found servers 0 seen at r.0 r.1
    go none e h =
        let d : ◌≡◌ {A = List Endpoint × List ℕ} ([], []) r = cc in
        subst (λ (r : List Endpoint × List ℕ). Found servers 0 seen at r.0 r.1) d
          (direct (next_hop-none name servers seen at e), omega arith, refl)
    go (some f) e h = absurd (cc)
follow-Leads name servers (suc room) seen at r h =
    by_ok (next_hop name servers seen at) _ h
      (go λ seen at r. follow-Leads name servers room seen at r)
  where
    go :
        ((seen : List ℕ) (at : ServerEntry) (r : List Endpoint × List ℕ)
          → follow name servers room seen at ≡ ok r
          → Found servers room seen at r.0 r.1)
        → (hop : Option (ℕ × ServerEntry)) → next_hop name servers seen at ≡ ok hop
        → (elim hop [
          | none ↦ ok ([], [])
          | some (next_id, next) ↦ (do
            (jumps, jump_ids) ← follow name servers room (seen ++ next_id ∷ []) next
            ok (endpoint_of next ∷ jumps, next_id ∷ jump_ids))
        ])
          ≡ ok r
        → Found servers (suc room) seen at r.0 r.1
    go ih none e h =
        let d : ◌≡◌ {A = List Endpoint × List ℕ} ([], []) r = cc in
        subst (λ (r : List Endpoint × List ℕ). Found servers (suc room) seen at r.0 r.1) d
          (direct (next_hop-none name servers seen at e), omega arith, refl)
    go ih (some (id, next)) e h =
        by_ok (follow name servers room (seen ++ id ∷ []) next) _ h λ (jumps, ids) e' h'.
          let (named, fresh, found) = next_hop-some name servers seen at id next e in
          let (chain, few, same) = ih (seen ++ id ∷ []) next (jumps, ids) e' in
          let d : ◌≡◌ {A = List Endpoint × List ℕ} (endpoint_of next ∷ jumps, id ∷ ids) r = cc in
          subst (λ (r : List Endpoint × List ℕ). Found servers (suc room) seen at r.0 r.1) d
            (through id next named fresh found chain, omega arith, omega arith)

-- A target that was resolved has at most eight bastions, each with its identifier; read innermost
-- first, each is the server that the one before names, the last names none, and neither the entry
-- nor any bastion comes twice.
pub from_entry-Leads :
    (entry : ServerEntry) (servers : List ServerEntry) (target : Target)
    → from_entry entry servers ≡ ok target
    → (jumps : List Endpoint) × (ids : List ℕ) × Leads servers (entry.id ∷ []) entry jumps ids
      × (target.jumps ≡ reverse jumps)
      × (target.jump_ids ≡ reverse ids)
      × (length jumps ≤ 8)
      × (length ids ≡ length jumps)
unfolding from_entry
from_entry-Leads entry servers target h =
    by_ok (follow entry.name servers max_jumps (entry.id ∷ []) entry) _ h λ (jumps, ids) e h'.
      let (chain, few, same) =
        follow-Leads entry.name servers max_jumps (entry.id ∷ []) entry (jumps, ids) e in
      (jumps, ids, chain, ground (arith, h'), ground (arith, h'), few, same)

next_hop-direct :
    (name : Bytes) (servers : List ServerEntry) (seen : List ℕ) (at : ServerEntry)
    → at.jump_host ≡ none
    → next_hop name servers seen at ≡ ok none
unfolding next_hop
next_hop-direct name servers seen at h = ground arith

next_hop-through :
    (name : Bytes) (servers : List ServerEntry) (seen : List ℕ) (at : ServerEntry) (id : ℕ)
    (next : ServerEntry)
    → at.jump_host ≡ some id
    → seen_before seen id ≡ false
    → find_server servers id ≡ some next
    → next_hop name servers seen at ≡ ok (some (id, next))
unfolding next_hop
next_hop-through name servers seen at id next named fresh found = ground arith

follow_complete :
    (name : Bytes) (servers : List ServerEntry) (room : ℕ) {seen : List ℕ} {at : ServerEntry}
    {jumps : List Endpoint} {ids : List ℕ}
    → Leads servers seen at jumps ids
    → length jumps ≤ room
    → follow name servers room seen at ≡ ok (jumps, ids)
unfolding follow
follow_complete name servers zero (direct {seen} {at} h) few =
    rw (next_hop-direct name servers seen at h) refl
follow_complete name servers (suc room) (direct {seen} {at} h) few =
    rw (next_hop-direct name servers seen at h) refl
follow_complete name servers zero (through id next named fresh found rest) few =
    absurd (omega arith)
follow_complete name servers (suc room) (through {seen} {at} id next named fresh found rest) few =
    rw (next_hop-through name servers seen at id next named fresh found)
      (rw (follow_complete name servers room rest (omega arith)) refl)

-- An entry whose chain ends, within eight hops and with none twice, is resolved, to these hops
-- outermost first.
pub from_entry_complete :
    (entry : ServerEntry) (servers : List ServerEntry) (jumps : List Endpoint) (ids : List ℕ)
    → Leads servers (entry.id ∷ []) entry jumps ids
    → length jumps ≤ 8
    → (target : Target) × (from_entry entry servers ≡ ok target)
      × (target.jumps ≡ reverse jumps)
      × (target.jump_ids ≡ reverse ids)
unfolding from_entry
from_entry_complete entry servers jumps ids chain few =
    let e = follow_complete entry.name servers max_jumps chain few in
    (
      record {
        endpoint = endpoint_of entry;
        jumps = reverse jumps;
        jump_ids = reverse ids;
        remote_routes = routes_of entry.forwards;
      },
      rw (e, from_entry) refl,
      refl,
      refl,
    )
