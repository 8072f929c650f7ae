-- ===== src/Agent/Pairing.antt =====
-- The requests of src/lib.rs that give a client another peer or the agent another role:
-- `mark_peer_changed`, `set_peer_config` and `set_mode`.
pub mod Again
mod Tests
use localscale.Prelude.{
  ℕ, Bool, true, false, not, ◌&&◌, Option, none, some, [], ◌++◌, Bytes, codes, bytes_eq,
  if◌then◌else◌, Result, ok, err, ◌>>=◌, map_err,
}
use localscale.Prelude.Options.{unwrap_or}
use localscale.Prelude.Table.{Table}
use localscale.Protocol.Invitation.{new_invitation, from_invitation, HostInvitation, ClientConfig}
use localscale.Transport.Action.{IoError}
use localscale.Transport.StoredKey.{stored_transport_key_from_invitation_secret}
use localscale.Agent.Handlers.{
  service_status, peer_status, json_response, error_response, store_unavailable, get_filled,
  get_or_empty,
}
use localscale.Agent.Json.{parse_json_fields}
use localscale.Agent.Mode.{parse_mode}
use localscale.Agent.Origin.{http_response}
use localscale.Agent.Peers.{PeerRecord, PeerStore, configure, clear, same_peer_configuration}
use localscale.Agent.Role.{RoleStore, set_role}
use localscale.Agent.State.{PeerState, default_peer, AgentState, Environment, Libraries}
use localscale.Agent.Status
use localscale.Agent.Status.{clear_remote_node_id, clear_remote_virtual_ip}

-- The peer that a record describes, before its approval.
abbrev pub peer_of : PeerRecord → PeerState
peer_of r = record {
  configured = true;
  node_id = some r.node_id;
  host_node_id = r.host_node_id;
  endpoint = some r.endpoint;
  virtual_ip = r.virtual_ip;
  transport = codes "unavailable";
  approved = false;
  revoked = false;
}

-- The gate closes until the runtime is restarted.
abbrev pub awaiting_restart : AgentState → AgentState
awaiting_restart s = record s {
  peer_transport_enabled = false;
  peer_transport_restart_required = true;
  peer_transport_status = Status.set Status.TransportState.restart_required s.peer_transport_status;
}

-- The stored configuration of a role, its peer and its endpoint.
abbrev pub Chosen : Type 0
Chosen = Bytes × (Option Bytes × Bytes)

abbrev host_choice : HostInvitation → Chosen
host_choice i = (i.host_node_id, (none, i.public_endpoint))

abbrev client_choice : Bytes → ClientConfig → Chosen
client_choice node c = (node, (some c.host_node_id, c.public_endpoint))

module _ (libraries : Libraries) (env : Environment) where
  abbrev pub on_marked :
      PeerRecord
      → Result IoError (Unit {0}) × PeerStore
      → AgentState
      → Result (Unit {0}) (Unit {0}) × AgentState
  on_marked r (err e, store) s = (err tt, record s { peer_store = some store })
  on_marked r (ok u, store) s =
      let t : AgentState =
        awaiting_restart (record s { peer_store = some store; peer = peer_of r }) in
      (
        ok tt,
        record t {
          peer_transport_status =
              clear_remote_virtual_ip (clear_remote_node_id t.peer_transport_status);
        },
      )

  abbrev pub mark_in :
      PeerRecord → Option PeerStore → AgentState → Result (Unit {0}) (Unit {0}) × AgentState
  mark_in r none s = (err tt, s)
  mark_in r (some store) s = on_marked r (configure libraries.sha256 env.write_fault r store) s

  unfoldable pub mark_peer_changed :
      PeerRecord → AgentState → Result (Unit {0}) (Unit {0}) × AgentState
  mark_peer_changed r s = mark_in r s.peer_store s

  -- `role` picks the checks; `none` is every failure of them.
  unfoldable pub chosen_config : Table Bytes → Option Chosen
  chosen_config fields =
      let role = get_or_empty (codes "role") fields in
      let node = get_or_empty (codes "node_id") fields in
      let endpoint = get_or_empty (codes "onion_endpoint") fields in
      let secret = get_or_empty (codes "invitation_secret") fields in
      if bytes_eq role (codes "host")
      then elim (new_invitation node endpoint secret) [ ok i ↦ some (host_choice i) | err e ↦ none ]
      else if bytes_eq role (codes "cliente")
      then elim (new_invitation (get_or_empty (codes "host_node_id") fields) endpoint secret
          >>= (λ i. from_invitation i node)) [ ok c ↦ some (client_choice node c) | err e ↦ none ]
      else none

  abbrev pub config_record : Table Bytes → Chosen → PeerRecord
  config_record fields (node, (host_node, endpoint)) = record {
    role = get_or_empty (codes "role") fields;
    node_id = node;
    host_node_id = host_node;
    endpoint = endpoint;
    invitation_secret =
        stored_transport_key_from_invitation_secret libraries.sha256
          (get_or_empty (codes "invitation_secret") fields);
    virtual_ip = get_filled (codes "virtual_ip") fields;
    approved = false;
    revoked = false;
  }

  abbrev pub on_configured :
      PeerRecord → Result IoError (Unit {0}) × PeerStore → AgentState → Bytes × AgentState
  on_configured r (err e, store) s = (
    error_response (codes "500 Internal Server Error") (codes "peer_store_write_failed"),
    record s { peer_store = some store },
  )
  on_configured r (ok u, store) s =
      let t : AgentState =
        awaiting_restart (record s { peer_store = some store; peer = peer_of r }) in
      (peer_status env t, t)

  abbrev pub is_same : Option PeerRecord → PeerRecord → Bool
  is_same none r = false
  is_same (some existing) r = same_peer_configuration existing r

  abbrev pub on_config_record : PeerRecord → Option PeerStore → AgentState → Bytes × AgentState
  on_config_record r none s = (store_unavailable, s)
  on_config_record r (some store) s =
      if is_same store.peer_record r
      then (peer_status env s, s)
      else on_configured r (configure libraries.sha256 env.write_fault r store) s

  abbrev pub on_chosen : Table Bytes → Option Chosen → AgentState → Bytes × AgentState
  on_chosen fields none s =
      (error_response (codes "400 Bad Request") (codes "invalid_peer_config"), s)
  on_chosen fields (some chosen) s = on_config_record (config_record fields chosen) s.peer_store s

  abbrev pub on_config_fields : Option (Table Bytes) → AgentState → Bytes × AgentState
  on_config_fields none s =
      (error_response (codes "400 Bad Request") (codes "invalid_peer_config"), s)
  on_config_fields (some fields) s = on_chosen fields (chosen_config fields) s

  unfoldable pub set_peer_config : Bytes → AgentState → Bytes × AgentState
  set_peer_config body s = on_config_fields (parse_json_fields body) s

module _ (env : Environment) where
  -- The result of `clear` is dropped.
  abbrev cleared : Option PeerStore → Option PeerStore
  cleared none = none
  cleared (some store) = some (clear env.clear_fault store).1

  -- The state behind the role was stored, and whether it is another one.
  abbrev pub with_mode : Bytes → Bool → AgentState → AgentState
  with_mode mode changed s =
      if changed
      then awaiting_restart
          (record s { mode = mode; peer_store = cleared s.peer_store; peer = default_peer })
      else record s { mode = mode }

  abbrev mode_response : Bytes → Bool → AgentState → Bytes
  mode_response mode contract t =
      if contract
      then service_status env t
      else json_response (codes "200 OK") (codes "{\"mode\":\"" ++ (mode ++ codes "\"}"))

  abbrev pub on_role_set :
      Bytes → Bool → Result IoError Bool × RoleStore → AgentState → Bytes × AgentState
  on_role_set mode contract (err e, store) s = (
    error_response (codes "500 Internal Server Error") (codes "role_store_write_failed"),
    record s { role_store = some store },
  )
  on_role_set mode contract (ok changed, store) s =
      let t = with_mode mode changed (record s { role_store = some store }) in
      (mode_response mode contract t, t)

  abbrev pub persisted_mode : Bytes → Bytes
  persisted_mode mode = if bytes_eq mode (codes "client") then codes "cliente" else mode

  abbrev pub on_role_store : Bytes → Bool → Option RoleStore → AgentState → Bytes × AgentState
  on_role_store mode contract none s =
      let t = with_mode mode false s in (mode_response mode contract t, t)
  on_role_store mode contract (some store) s =
      on_role_set mode contract (set_role env.role_fault (persisted_mode mode) store) s

  abbrev pub on_mode : Option Bytes → Bool → AgentState → Bytes × AgentState
  on_mode none contract s = (
    http_response (codes "400 Bad Request") (codes "text/plain; charset=utf-8")
        (codes "mode must be host or cliente"),
    s,
  )
  on_mode (some mode) contract s = on_role_store mode contract s.role_store s

  unfoldable pub set_mode : Bytes → Bool → AgentState → Bytes × AgentState
  set_mode body contract s = on_mode (parse_mode body contract) contract s
