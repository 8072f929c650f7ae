-- ===== src/Agent/Invitations.antt =====
-- The invitations of src/lib.rs: a host generates one and keeps its pending device in the registry, a
-- client imports one. The lines of the log are left out.
pub mod Granting
mod Tests
use localscale.Prelude.{
  ℕ, ◌+◌, ◌-◌, min, Bool, true, false, not, ◌&&◌, ◌||◌, Option, none, some, ◌++◌, Bytes, codes,
  length, all, ltb, leb, ◌==◌, if◌then◌else◌, strip_prefix, Result, ok, err, ◌>>=◌, ◌>>◌, ok_or,
  ensure, map_err,
}
use localscale.Prelude.Options.{unwrap_or, retained}
use localscale.Prelude.Table.{without}
use localscale.Codec.Decimal.{decimal, u64_max}
use localscale.Codec.Fields.{rsplit_once}
use localscale.Protocol.Invitation.{HostInvitation, new_invitation, client}
use localscale.Protocol.Validate.{ValidationError}
use localscale.Transport.Action.{IoError}
use localscale.Transport.StoredKey.{stored_transport_key_from_invitation_secret}
use localscale.Agent.Envelopes.{
  invitation_prefix, max_ttl_secs, max_clock_skew_secs, is_id_byte, valid_invitation_id, is_err,
  DecodeError, is_stale, is_refused, judged, decode_invitation, encode_invitation,
  invalid_invitation, invitation_expired,
}
use localscale.Agent.Handlers.{peer_status, json_response, is_blank}
use localscale.Agent.HostRegistry.{HostPeerRegistry, add_pending, remove, next_free_virtual_ip}
use localscale.Agent.Json.{json_string}
use localscale.Agent.Pairing.{mark_peer_changed}
use localscale.Agent.Peers.{PeerRecord, PeerStore, consume_invitation_id}
use localscale.Agent.State.{
  AgentState, Environment, Libraries, InvitationEnvelope, GenerateInvitationRequest,
  ImportInvitationRequest,
}
use localscale.Agent.Status.{set_local_virtual_ip}
use localscale.Agent.VirtualIp.{LocalVirtualIpStore, set_value}

-- `{"error":"..."}`, and the line of the log that it leaves is left out.
abbrev pub invitation_error : Bytes → Bytes → Bytes
invitation_error status error =
    json_response status (codes "{\"error\":" ++ (json_string error ++ codes "}"))

abbrev invalid_request : Bytes
invalid_request = invitation_error (codes "400 Bad Request") (codes "invalid_invitation_request")

abbrev pub invalid_ttl : Bytes
invalid_ttl = invitation_error (codes "400 Bad Request") (codes "invalid_invitation_ttl")

abbrev peers_unavailable : Bytes
peers_unavailable =
    invitation_error (codes "503 Service Unavailable") (codes "peer_store_unavailable")

abbrev no_clock : Bytes
no_clock = invitation_error (codes "500 Internal Server Error") (codes "clock_unavailable")

abbrev no_randomness : Bytes
no_randomness =
    invitation_error (codes "500 Internal Server Error") (codes "randomness_unavailable")

-- The last part of the host's own address is cut off.
abbrev prefix_of : Option (Bytes × Bytes) → Bytes
prefix_of none = codes "10.0.0"
prefix_of (some (prefix, octet)) = prefix

abbrev address_of : Option LocalVirtualIpStore → Option Bytes
address_of none = none
address_of (some store) = store.value

pub host_network_prefix : AgentState → Bytes
host_network_prefix s = elim (address_of s.host_local_virtual_ip) [
  | none ↦ codes "10.0.0"
  | some existing ↦ prefix_of (rsplit_once b'.' existing)
]

module _ (libraries : Libraries) (env : Environment) where
  abbrev pub address_set :
      Bytes → Result IoError (Unit {0}) × LocalVirtualIpStore → AgentState → AgentState
  address_set ip (err e, store) s = record s { host_local_virtual_ip = some store }
  address_set ip (ok u, store) s = record s {
    host_local_virtual_ip = some store;
    peer = record (s.peer) { virtual_ip = some ip };
    peer_transport_status = set_local_virtual_ip ip s.peer_transport_status;
  }

  -- The host's own address is chosen once.
  abbrev pub address_in :
      Option Bytes → Bytes → Option Bytes → LocalVirtualIpStore → AgentState → AgentState
  address_in asked prefix (some v) store s = s
  address_in asked prefix none store s =
      let ip = unwrap_or (retained (λ v. not (is_blank v)) asked) (prefix ++ codes ".1") in
      address_set ip (set_value env.address_fault ip store) s

  abbrev pub own_address :
      Option Bytes → Bytes → Option LocalVirtualIpStore → AgentState → AgentState
  own_address asked prefix none s = s
  own_address asked prefix (some store) s = address_in asked prefix store.value store s

  -- What the checks of `generate_invitation` establish before the state changes.
  abbrev pub Granted : Type 0
  Granted = InvitationEnvelope × HostPeerRegistry

  abbrev pub envelope : GenerateInvitationRequest → Bytes → ℕ → Bytes → Bytes → InvitationEnvelope
  envelope request endpoint now id secret = record {
    version = 1;
    invitation_id = id;
    host_node_id = env.local_device_id;
    onion_endpoint = endpoint;
    invitation_secret = secret;
    issued_at = now;
    expires_at = now + request.ttl_seconds;
  }

  -- The checks from the invitation on.
  abbrev pub sealed :
      GenerateInvitationRequest
      → InvitationEnvelope
      → HostPeerRegistry
      → Result ValidationError HostInvitation
      → Result Bytes Granted
  sealed request e registry (err f) = err invalid_request
  sealed request e registry (ok i) =
      if leb e.expires_at u64_max then ok (e, registry) else err invalid_ttl

  -- The checks from the clock on.
  abbrev pub drawn :
      GenerateInvitationRequest
      → Bytes
      → HostPeerRegistry
      → Option ℕ
      → Option Bytes
      → Option Bytes
      → Result Bytes Granted
  drawn request endpoint registry none id secret = err no_clock
  drawn request endpoint registry (some now) none secret = err no_randomness
  drawn request endpoint registry (some now) (some id) none = err no_randomness
  drawn request endpoint registry (some now) (some id) (some secret) =
      sealed request (envelope request endpoint now id secret) registry
        (new_invitation request.node_id endpoint secret)

  abbrev pub placed :
      GenerateInvitationRequest → Option Bytes → Option HostPeerRegistry → Result Bytes Granted
  placed request none registry =
      err (invitation_error (codes "409 Conflict") (codes "onion_endpoint_not_ready"))
  placed request (some endpoint) none = err peers_unavailable
  placed request (some endpoint) (some registry) =
      drawn request endpoint registry env.now env.random_id env.random_secret

  unfoldable pub granted : GenerateInvitationRequest → AgentState → Result Bytes Granted
  granted request s =
      if not (leb 60 request.ttl_seconds && leb request.ttl_seconds max_ttl_secs)
      then err invalid_ttl
      else placed request env.onion_endpoint s.host_registry

  abbrev invitation_response : InvitationEnvelope → Option Bytes → Bytes
  invitation_response e none =
      invitation_error (codes "500 Internal Server Error") (codes "encoding_failed")
  invitation_response e (some encoded) = json_response (codes "200 OK") (
      codes "{\"version\":1,\"invitation\":"
      ++ (json_string encoded ++ (codes ",\"expires_at\":" ++ (decimal e.expires_at ++ codes "}"))))

  abbrev pub on_added :
      InvitationEnvelope
      → Result IoError (Unit {0}) × HostPeerRegistry
      → AgentState
      → Bytes × AgentState
  on_added e (err f, registry) s = (peers_unavailable, record s { host_registry = some registry })
  on_added e (ok u, registry) s = (
    invitation_response e (encode_invitation libraries e),
    record s { host_registry = some registry },
  )

  abbrev pub on_granted :
      GenerateInvitationRequest → Result Bytes Granted → AgentState → Bytes × AgentState
  on_granted request (err response) s = (response, s)
  on_granted request (ok (e, registry)) s =
      let prefix = host_network_prefix s in
      let t = own_address request.virtual_ip prefix s.host_local_virtual_ip s in
      let named : AgentState = record t {
        peer = record (t.peer) { configured = true; node_id = some request.node_id };
      } in
      on_added e
        (add_pending libraries.registry_json env.registry_fault e.invitation_id
          (stored_transport_key_from_invitation_secret libraries.sha256 e.invitation_secret)
          (next_free_virtual_ip registry.entries prefix) e.issued_at registry)
        named

  abbrev pub on_generate : Option GenerateInvitationRequest → AgentState → Bytes × AgentState
  on_generate none s = (invalid_request, s)
  on_generate (some request) s = on_granted request (granted request s) s

  unfoldable pub generate_invitation : Bytes → AgentState → Bytes × AgentState
  generate_invitation body s = on_generate (libraries.read_generate body) s

  abbrev decode_error : DecodeError → Bytes
  decode_error invitation_expired = invitation_error (codes "410 Gone") (codes "invitation_expired")
  decode_error invalid_invitation =
      invitation_error (codes "400 Bad Request") (codes "invalid_invitation")

  -- What the checks of `import_invitation` establish before the state changes.
  unfoldable pub admitted :
      ImportInvitationRequest → AgentState → Result Bytes (InvitationEnvelope × PeerStore)
  admitted request s = do
    now ← ok_or env.now no_clock
    e ← map_err decode_error (decode_invitation libraries request.invitation now)
    config ←
        map_err (λ f. invalid_request)
          (client request.node_id e.host_node_id e.onion_endpoint e.invitation_secret)
    store ← ok_or s.peer_store peers_unavailable
    ok (e, store)

  abbrev pub imported_record : ImportInvitationRequest → InvitationEnvelope → PeerRecord
  imported_record request e = record {
    role = codes "cliente";
    node_id = request.node_id;
    host_node_id = some e.host_node_id;
    endpoint = e.onion_endpoint;
    invitation_secret = e.invitation_secret;
    virtual_ip = retained (λ v. not (is_blank v)) request.virtual_ip;
    approved = false;
    revoked = false;
  }

  abbrev pub on_changed : Result (Unit {0}) (Unit {0}) × AgentState → Bytes × AgentState
  on_changed (ok u, s) = (peer_status env s, s)
  on_changed (err u, s) =
      (invitation_error (codes "500 Internal Server Error") (codes "peer_store_write_failed"), s)

  abbrev pub already_consumed : Bytes
  already_consumed = invitation_error (codes "409 Conflict") (codes "invitation_already_consumed")

  abbrev pub on_consumed :
      PeerRecord → Result IoError Bool × PeerStore → AgentState → Bytes × AgentState
  on_consumed r (ok true, store) s =
      on_changed (mark_peer_changed libraries env r (record s { peer_store = some store }))
  on_consumed r (ok false, store) s = (already_consumed, record s { peer_store = some store })
  on_consumed r (err e, store) s = (
    invitation_error (codes "503 Service Unavailable") (codes "replay_store_unavailable"),
    record s { peer_store = some store },
  )

  abbrev pub on_admitted :
      ImportInvitationRequest
      → Result Bytes (InvitationEnvelope × PeerStore)
      → AgentState
      → Bytes × AgentState
  on_admitted request (err response) s = (response, s)
  on_admitted request (ok (e, store)) s =
      on_consumed (imported_record request e)
        (consume_invitation_id env.marking e.invitation_id store) s

  abbrev pub on_import : Option ImportInvitationRequest → AgentState → Bytes × AgentState
  on_import none s = (invalid_request, s)
  on_import (some request) s = on_admitted request (admitted request s) s

  unfoldable pub import_invitation : Bytes → AgentState → Bytes × AgentState
  import_invitation body s = on_import (libraries.read_import body) s

  abbrev pub on_removed :
      Bytes → Result IoError (Unit {0}) × HostPeerRegistry → AgentState → Bytes × AgentState
  on_removed id (err e, registry) s = (
    json_response (codes "500 Internal Server Error")
        (codes "{\"error\":\"peer_store_remove_failed\"}"),
    record s { host_registry = some registry },
  )
  on_removed id (ok u, registry) s = (
    json_response (codes "200 OK") (codes "{\"removed\":true}"),
    record s { host_registry = some registry; host_peer_live = without id s.host_peer_live },
  )

  abbrev pub remove_from : Bytes → Option HostPeerRegistry → AgentState → Bytes × AgentState
  remove_from id none s = (
    json_response (codes "503 Service Unavailable")
        (codes "{\"error\":\"peer_store_unavailable\"}"),
    s,
  )
  remove_from id (some registry) s =
      on_removed id (remove libraries.registry_json env.registry_fault id registry) s

  abbrev pub on_remove : Option Bytes → AgentState → Bytes × AgentState
  on_remove none s =
      (json_response (codes "400 Bad Request") (codes "{\"error\":\"invalid_request\"}"), s)
  on_remove (some id) s = remove_from id s.host_registry s

  unfoldable pub remove_host_peer : Bytes → AgentState → Bytes × AgentState
  remove_host_peer body s = on_remove (libraries.read_remove body) s
