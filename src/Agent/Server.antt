-- ===== src/Agent/Server.antt =====
-- The server of src/lib.rs: the state that `serve_with_state` starts with, and its accept loop.
pub mod Limit
mod Tests
use localscale.Prelude.{
  ℕ, zero, suc, ◌+◌, ◌-◌, Bool, true, false, Option, none, some, List, [], ◌∷◌, Bytes, codes, leb,
  if◌then◌else◌,
}
use localscale.Prelude.Options.{or_else, unwrap_or}
use localscale.Prelude.Table.{Table}
use localscale.Agent.HostRegistry.{HostPeerRegistry}
use localscale.Agent.Peers.{PeerRecord, PeerStore}
use localscale.Agent.Role.{RoleStore}
use localscale.Agent.State.{PeerState, AgentState, default_state}
use localscale.Agent.Status.{PeerTransportStatus, default_status}
use localscale.Agent.VirtualIp.{LocalVirtualIpStore}

-- What the transport thread shares with the server.
pub record HostShared : Type 0 where
  pub registry : HostPeerRegistry
  pub local_virtual_ip : LocalVirtualIpStore
  pub live : Table PeerTransportStatus

abbrev shared_registry : Option HostShared → Option HostPeerRegistry
shared_registry none = none
shared_registry (some h) = some h.registry

abbrev shared_address : Option HostShared → Option LocalVirtualIpStore
shared_address none = none
shared_address (some h) = some h.local_virtual_ip

abbrev shared_live : Option HostShared → Table PeerTransportStatus
shared_live none = []
shared_live (some h) = h.live

-- The stores that could be opened.
pub record Stores : Type 0 where
  pub peers : Option PeerStore
  pub roles : Option RoleStore
  pub registry : Option HostPeerRegistry
  pub address : Option LocalVirtualIpStore

abbrev role_of : Option RoleStore → Bytes → Bytes
role_of none mode = mode
role_of (some store) mode = unwrap_or store.role mode

-- The stored record in the state, with its approval.
abbrev with_record : Option PeerRecord → PeerState → PeerState
with_record none p = p
with_record (some r) p = record p {
  configured = true;
  node_id = some r.node_id;
  host_node_id = r.host_node_id;
  endpoint = some r.endpoint;
  virtual_ip = r.virtual_ip;
  approved = r.approved;
  revoked = r.revoked;
}

abbrev record_in : Option PeerStore → Option PeerRecord
record_in none = none
record_in (some store) = store.peer_record

-- The state that the loop serves, from the gate, the status and the tables of the transport, if it runs.
unfoldable pub starting_state :
    Stores → Option Bool → Option PeerTransportStatus → Option HostShared → AgentState
unfolding default_state
starting_state stores gate status shared =
    let s =
      default_state stores.peers stores.roles (or_else (shared_registry shared) stores.registry)
        (or_else (shared_address shared) stores.address) in
    record s {
      mode = role_of stores.roles s.mode;
      peer = with_record (record_in stores.peers) s.peer;
      peer_transport_enabled = unwrap_or gate true;
      peer_transport_status = unwrap_or status default_status;
      host_peer_live = shared_live shared;
    }

abbrev pub max_connections : ℕ
max_connections = 16

-- The counter that the workers share, the workers that run, the connections that were refused for the limit,
-- and whether the loop has ended for a restart.
pub record Listener : Type 0 where
  pub active : ℕ
  pub workers : ℕ
  pub refused : ℕ
  pub interrupted : Bool

abbrev pub idle_listener : Listener
idle_listener = record { active = 0; workers = 0; refused = 0; interrupted = false }

-- What `accept` gives: a connection, one that cannot be set to block, none yet, or an error.
pub data Accepted : Type 0 where
  stream broken_stream would_block failed : Accepted

-- A connection against the limit.
abbrev pub admitted : Listener → Listener
admitted l =
    if leb max_connections l.active
    then record l { refused = l.refused + 1 }
    else record l { active = l.active + 1; workers = l.workers + 1 }

-- A turn of the loop, from whether a restart is requested.
unfoldable pub turn : Bool → Accepted → Listener → Listener
turn true accepted l = record l { interrupted = true }
turn false Accepted.stream l = admitted l
turn false Accepted.broken_stream l = l
turn false Accepted.would_block l = l
turn false Accepted.failed l = l

-- `ConnectionGuard::drop`, when a worker ends.
unfoldable pub drop_guard : Listener → Listener
drop_guard l = record l { active = l.active - 1; workers = l.workers - 1 }
