-- ===== src/Agent/State.antt =====
-- `AgentState` and `PeerState` of src/lib.rs, and what a request may ask of the system and of the
-- third-party libraries.
use localscale.Prelude.{ℕ, Bool, true, false, Option, none, [], Bytes, codes}
use localscale.Prelude.Table.{Table}
use localscale.Transport.Action.{IoError}
use localscale.Agent.HostRegistry.{HostPeerRegistry, Json}
use localscale.Agent.Peers.{PeerStore, Marked}
use localscale.Agent.Role.{RoleStore}
use localscale.Agent.Status.{PeerTransportStatus, default_status}
use localscale.Agent.VirtualIp.{LocalVirtualIpStore}

pub record PeerState : Type 0 where
  pub configured : Bool
  pub node_id : Option Bytes
  pub host_node_id : Option Bytes
  pub endpoint : Option Bytes
  pub virtual_ip : Option Bytes
  pub transport : Bytes
  pub approved : Bool
  pub revoked : Bool

abbrev pub default_peer : PeerState
default_peer = record {
  configured = false;
  node_id = none;
  host_node_id = none;
  endpoint = none;
  virtual_ip = none;
  transport = [];
  approved = false;
  revoked = false;
}

pub record RuntimeRestart : Type 0 where
  pub scheduled : Bool
  pub dispatched : Bool
  pub requested : Bool

pub record AgentState : Type 0 where
  pub mode : Bytes
  pub service_state : Bytes
  pub peer : PeerState
  pub peer_store : Option PeerStore
  pub role_store : Option RoleStore
  pub peer_transport_enabled : Bool
  pub peer_transport_status : PeerTransportStatus
  pub peer_transport_restart_required : Bool
  pub runtime_restart : RuntimeRestart
  pub host_registry : Option HostPeerRegistry
  pub host_local_virtual_ip : Option LocalVirtualIpStore
  pub host_peer_live : Table PeerTransportStatus

-- `AgentState::default`, with the stores that could be opened.
unfoldable pub default_state :
    Option PeerStore
    → Option RoleStore
    → Option HostPeerRegistry
    → Option LocalVirtualIpStore
    → AgentState
default_state peers roles registry ips = record {
  mode = codes "cliente";
  service_state = codes "running";
  peer = record default_peer { transport = codes "unavailable" };
  peer_store = peers;
  role_store = roles;
  peer_transport_enabled = true;
  peer_transport_status = default_status;
  peer_transport_restart_required = false;
  runtime_restart = record { scheduled = false; dispatched = false; requested = false };
  host_registry = registry;
  host_local_virtual_ip = ips;
  host_peer_live = [];
}

-- What a request finds: the clock, the address of the local hidden service, the device's own id, the log,
-- two texts of random bytes, and the errors of the file system.
pub record Environment : Type 0 where
  pub now : Option ℕ
  pub onion_endpoint : Option Bytes
  pub local_device_id : Bytes
  pub log : Bytes
  pub random_id : Option Bytes
  pub random_secret : Option Bytes
  pub write_fault : Option IoError
  pub clear_fault : Option IoError
  pub role_fault : Option IoError
  pub registry_fault : Option IoError
  pub address_fault : Option IoError
  pub marking : Marked

-- An `InvitationEnvelopeV1`.
pub record InvitationEnvelope : Type 0 where
  pub version : ℕ
  pub invitation_id : Bytes
  pub host_node_id : Bytes
  pub onion_endpoint : Bytes
  pub invitation_secret : Bytes
  pub issued_at : ℕ
  pub expires_at : ℕ

pub record GenerateInvitationRequest : Type 0 where
  pub node_id : Bytes
  pub ttl_seconds : ℕ
  pub virtual_ip : Option Bytes

pub record ImportInvitationRequest : Type 0 where
  pub node_id : Bytes
  pub invitation : Bytes
  pub virtual_ip : Option Bytes

-- The third-party libraries: SHA-256, base64, and JSON for each of the types that pass through it.
pub record Libraries : Type 0 where
  pub sha256 : Bytes → Bytes
  pub base64_encode : Bytes → Bytes
  pub base64_decode : Bytes → Option Bytes
  pub registry_json : Json
  pub envelope_to_json : InvitationEnvelope → Option Bytes
  pub envelope_from_json : Bytes → Option InvitationEnvelope
  pub read_generate : Bytes → Option GenerateInvitationRequest
  pub read_import : Bytes → Option ImportInvitationRequest
  pub read_remove : Bytes → Option Bytes
