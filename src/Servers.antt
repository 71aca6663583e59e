-- ===== src/Servers.antt =====
-- src/config/model.rs and src/ssh/session.rs: the entries of the vault, and the chain of bastions that
-- an entry is reached through. An identifier is a number.
pub mod Chains
mod Tests
use ssh_control.Prelude.{
  ℕ, zero, suc, Bytes, List, [], ◌∷◌, ◌++◌, map, Bool, true, false, ◌||◌, ◌==◌, if◌then◌else◌,
  Option, some, none, ok, err, ◌>>=◌, codes,
}
use ssh_control.Errors.{Result, validation}
use ssh_control.Scripts.{ScriptStep}

abbrev pub max_jumps : ℕ
max_jumps = 8

pub data AuthMethod : Type 0 where
  password : Bytes → AuthMethod
  ssh_key : Bytes → Option Bytes → AuthMethod
  agent : AuthMethod

pub data ForwardKind : Type 0 where
  local_forward remote_forward : Bytes → ℕ → Bytes → ℕ → ForwardKind
  dynamic_forward : Bytes → ℕ → ForwardKind

pub record ForwardRule : Type 0 where
  pub id : ℕ
  pub enabled : Bool
  pub kind : ForwardKind

pub record Script : Type 0 where
  pub id : ℕ
  pub name : Bytes
  pub run_on_connect : Bool
  pub steps : List ScriptStep

pub record SystemInfo : Type 0 where
  pub cpu_model : Option Bytes
  pub cpu_cores : Option ℕ
  pub mem_total_bytes : Option ℕ
  pub mem_used_bytes : Option ℕ
  pub disk_total_bytes : Option ℕ
  pub disk_used_bytes : Option ℕ
  pub gpu_model : Option Bytes
  pub gpus : List Bytes
  pub fetched_at_unix : ℕ

pub record ServerEntry : Type 0 where
  pub id : ℕ
  pub name : Bytes
  pub host : Bytes
  pub port : ℕ
  pub username : Bytes
  pub auth : AuthMethod
  pub host_key_fingerprint : Option Bytes
  pub system_info : Option SystemInfo
  pub last_connected_unix : Option ℕ
  pub scripts : List Script
  pub last_remote_dir : Option Bytes
  pub last_local_dir : Option Bytes
  pub tags : List Bytes
  pub jump_host : Option ℕ
  pub forwards : List ForwardRule

pub record Endpoint : Type 0 where
  pub host : Bytes
  pub port : ℕ
  pub username : Bytes
  pub auth : AuthMethod
  pub host_key_fingerprint : Option Bytes

pub record RemoteRoute : Type 0 where
  pub bind_addr : Bytes
  pub bind_port : ℕ
  pub dest_host : Bytes
  pub dest_port : ℕ

pub record Target : Type 0 where
  pub endpoint : Endpoint
  pub jumps : List Endpoint
  pub jump_ids : List ℕ
  pub remote_routes : List RemoteRoute

abbrev pub endpoint_of : ServerEntry → Endpoint
endpoint_of entry = record {
  host = entry.host;
  port = entry.port;
  username = entry.username;
  auth = entry.auth;
  host_key_fingerprint = entry.host_key_fingerprint;
}

-- `seen.contains(&next_id)`
unfoldable pub seen_before : List ℕ → ℕ → Bool
seen_before [] id = false
seen_before (s ∷ seen) id = s == id || seen_before seen id

-- `servers.iter().find(|s| s.id == next_id)`
unfoldable pub find_server : List ServerEntry → ℕ → Option ServerEntry
find_server [] id = none
find_server (s ∷ servers) id = if s.id == id then some s else find_server servers id

abbrev pub loops_back : Bytes → Bytes
loops_back name =
    codes "'" ++ (name ++ codes "' is reached through a jump chain that loops back on itself")

abbrev pub dangles : Bytes → Bytes
dangles name =
    codes "'" ++ (name ++ codes "' is set to connect through a server that no longer exists")

abbrev pub too_deep : Bytes → Bytes
too_deep name = codes "'" ++ (name ++ codes "' is behind more than 8 jump hosts")

-- The bastion that an entry names, where it names one: neither seen before nor missing.
unfoldable pub next_hop :
    Bytes → List ServerEntry → List ℕ → ServerEntry → Result (Option (ℕ × ServerEntry))
next_hop name servers seen at = elim at.jump_host [
  | none ↦ ok none
  | some next_id ↦
      if seen_before seen next_id
      then err (validation (loops_back name))
      else (elim (find_server servers next_id) [
        | none ↦ err (validation (dangles at.name))
        | some next ↦ ok (some (next_id, next))
      ])
]

-- The loop of `Target::from_entry`: `room` is how many more hops fit, the hops come innermost first.
unfoldable pub follow :
    Bytes → List ServerEntry → ℕ → List ℕ → ServerEntry → Result (List Endpoint × List ℕ)
follow name servers zero seen at = do
  hop ← next_hop name servers seen at
  elim hop [ none ↦ ok ([], []) | some found ↦ err (validation (too_deep name)) ]
follow name servers (suc room) seen at = do
  hop ← next_hop name servers seen at
  elim hop [
    | none ↦ ok ([], [])
    | some (next_id, next) ↦ (do
      (jumps, jump_ids) ← follow name servers room (seen ++ next_id ∷ []) next
      ok (endpoint_of next ∷ jumps, next_id ∷ jump_ids))
  ]

abbrev pub reverse {ℓ} : {A : Type ℓ} → List A → List A
reverse [] = []
reverse (x ∷ xs) = reverse xs ++ x ∷ []

abbrev pub route_of : ForwardKind → Option RemoteRoute
route_of (remote_forward addr port host dest) =
    some (record { bind_addr = addr; bind_port = port; dest_host = host; dest_port = dest })
route_of _ = none

-- `filter(|f| f.enabled)` and `filter_map`
abbrev pub routes_of : List ForwardRule → List RemoteRoute
routes_of [] = []
routes_of (f ∷ forwards) =
    let rest = routes_of forwards in
    if f.enabled then (elim (route_of f.kind) [ some r ↦ r ∷ rest | none ↦ rest ]) else rest

unfoldable pub from_entry : ServerEntry → List ServerEntry → Result Target
from_entry entry servers = do
  (jumps, jump_ids) ← follow entry.name servers max_jumps (entry.id ∷ []) entry
  ok (record {
    endpoint = endpoint_of entry;
    jumps = reverse jumps;
    jump_ids = reverse jump_ids;
    remote_routes = routes_of entry.forwards;
  })
