-- ===== src/Servers/Tests.antt =====
-- src/ssh/session.rs: the theorems at a host behind two bastions.
use ssh_control.Prelude.{
  ℕ, ◌≤◌, ◌≡◌, refl, length, List, [], ◌∷◌, Option, some, none, ok, err, codes, arith,
}
use ssh_control.Errors.{validation}
use ssh_control.Servers.{
  ServerEntry, Endpoint, Target, agent, endpoint_of, reverse, from_entry, follow, next_hop,
  seen_before, find_server, loops_back,
}
use ssh_control.Servers.Chains.{Leads, direct, through, from_entry-Leads, from_entry_complete}

abbrev server : ℕ → Option ℕ → ServerEntry
server id jump = record {
  id = id;
  name = codes "web";
  host = codes "10.0.0.1";
  port = 22;
  username = codes "root";
  auth = agent;
  host_key_fingerprint = none;
  system_info = none;
  last_connected_unix = none;
  scripts = [];
  last_remote_dir = none;
  last_local_dir = none;
  tags = [];
  jump_host = jump;
  forwards = [];
}

abbrev servers : List ServerEntry
servers = server 1 (some 2) ∷ server 2 (some 3) ∷ server 3 none ∷ []

abbrev resolved : Target
resolved = record {
  endpoint = endpoint_of (server 1 (some 2));
  jumps = endpoint_of (server 3 none) ∷ endpoint_of (server 2 (some 3)) ∷ [];
  jump_ids = 3 ∷ 2 ∷ [];
  remote_routes = [];
}

resolves : from_entry (server 1 (some 2)) servers ≡ ok resolved
unfolding from_entry follow next_hop seen_before find_server
resolves = refl

loop_refused :
    from_entry (server 1 (some 2)) (server 2 (some 1) ∷ [])
    ≡ err (validation (loops_back (codes "web")))
unfolding from_entry follow next_hop seen_before find_server
loop_refused = refl

from_entry-Leads_example :
    (jumps : List Endpoint) × (ids : List ℕ) × Leads servers (1 ∷ []) (server 1 (some 2)) jumps ids
    × (resolved.jumps ≡ reverse jumps)
    × (resolved.jump_ids ≡ reverse ids)
    × (length jumps ≤ 8)
    × (length ids ≡ length jumps)
from_entry-Leads_example = from_entry-Leads (server 1 (some 2)) servers resolved resolves

two_hops :
    Leads servers
      (1 ∷ [])
      (server 1 (some 2))
      (endpoint_of (server 2 (some 3)) ∷ endpoint_of (server 3 none) ∷ [])
      (2 ∷ 3 ∷ [])
unfolding seen_before find_server
two_hops =
    through 2 (server 2 (some 3)) refl refl refl
      (through 3 (server 3 none) refl refl refl (direct refl))

from_entry_complete_example :
    (target : Target) × (from_entry (server 1 (some 2)) servers ≡ ok target)
    × (target.jumps ≡ endpoint_of (server 3 none) ∷ endpoint_of (server 2 (some 3)) ∷ [])
    × (target.jump_ids ≡ 3 ∷ 2 ∷ [])
from_entry_complete_example =
    from_entry_complete (server 1 (some 2)) servers
      (endpoint_of (server 2 (some 3)) ∷ endpoint_of (server 3 none) ∷ []) (2 ∷ 3 ∷ []) two_hops
      (omega arith)
