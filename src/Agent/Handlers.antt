-- ===== src/Agent/Handlers.antt =====
-- The handlers of src/lib.rs that report the state and that change the pairing of a client. A handler
-- returns its response beside the state that it leaves.
use localscale.Prelude.{
  Bool, true, false, not, ◌&&◌, ◌||◌, Option, none, some, [], ◌++◌, Bytes, codes, bytes_eq, all,
  ◌==◌, if◌then◌else◌, Result, ok, err,
}
use localscale.Prelude.Options.{unwrap_or, or_else, retained}
use localscale.Prelude.Table.{Table, lookup}
use localscale.Codec.Decimal.{decimal}
use localscale.Codec.Trim.{trim}
use localscale.Protocol.Syntax.{is_empty}
use localscale.Transport.Action.{IoError}
use localscale.Agent.Json.{json_string, optional_json, bool_text, parse_json_fields}
use localscale.Agent.Origin.{http_response}
use localscale.Agent.Peers
use localscale.Agent.Peers.{
  PeerRecord, PeerStore, configure, clear, set_approval, same_peer_configuration,
}
use localscale.Agent.State.{default_peer, AgentState, Environment, RuntimeRestart}
use localscale.Agent.Status
use localscale.Agent.Status.{
  PeerTransportStatus, label, is_connected, clear_remote_node_id, clear_remote_virtual_ip,
  set_local_virtual_ip,
}

abbrev pub json_response : Bytes → Bytes → Bytes
json_response status body = http_response status (codes "application/json") body

-- `{"error":"..."}`
abbrev pub error_response : Bytes → Bytes → Bytes
error_response status error = json_response status (codes "{\"error\":\"" ++ (error ++ codes "\"}"))

abbrev pub store_unavailable : Bytes
store_unavailable =
    error_response (codes "503 Service Unavailable") (codes "peer_store_unavailable")

abbrev pub is_blank : Bytes → Bool
is_blank v = is_empty (trim v)

-- `fields.get(key).cloned().filter(|v| !v.trim().is_empty())`
abbrev pub get_filled : Bytes → Table Bytes → Option Bytes
get_filled key fields = retained (λ v. not (is_blank v)) (lookup key fields)

abbrev pub get_or_empty : Bytes → Table Bytes → Bytes
get_or_empty key fields = unwrap_or (lookup key fields) []

module _ (env : Environment) where
  pub service_status : AgentState → Bytes
  service_status s =
      let endpoint =
        if bytes_eq s.mode (codes "host")
        then or_else env.onion_endpoint s.peer.endpoint
        else none in
      json_response (codes "200 OK") (
        codes "{\"mode\":"
        ++ (json_string s.mode
            ++ (codes ",\"state\":"
                ++ (json_string s.service_state
                    ++ (codes ",\"onion_endpoint\":"
                        ++ (optional_json endpoint
                            ++ (codes ",\"peer_configured\":"
                                ++ (bool_text s.peer.configured
                                    ++ (codes ",\"peer_transport\":"
                                        ++ (json_string (label s.peer_transport_status)
                                            ++ codes "}"))))))))))

  pub peer_status : AgentState → Bytes
  peer_status s = json_response (codes "200 OK") (
      codes "{\"configured\":"
      ++ (bool_text s.peer.configured
          ++ (codes ",\"node_id\":"
              ++ (optional_json s.peer.node_id
                  ++ (codes ",\"host_node_id\":"
                      ++ (optional_json s.peer.host_node_id
                          ++ (codes ",\"onion_endpoint\":"
                              ++ (optional_json (or_else s.peer.endpoint env.onion_endpoint)
                                  ++ (codes ",\"virtual_ip\":"
                                      ++ (optional_json s.peer.virtual_ip
                                          ++ (codes ",\"transport\":"
                                              ++ (json_string (label s.peer_transport_status)
                                                  ++ activity s))))))))))))
    where
      activity : AgentState → Bytes
      activity s =
          codes ",\"connected\":"
          ++ (bool_text (is_connected env.now s.peer_transport_status)
              ++ (codes ",\"last_peer_activity_unix\":"
                  ++ (decimal s.peer_transport_status.last_peer_activity_unix
                      ++ (codes ",\"messages_exchanged\":"
                          ++ (decimal s.peer_transport_status.messages_exchanged
                              ++ (codes ",\"approved\":"
                                  ++ (bool_text s.peer.approved
                                      ++ (codes ",\"revoked\":"
                                          ++ (bool_text s.peer.revoked ++ codes "}")))))))))

  pub diagnostics_status : AgentState → Bytes
  diagnostics_status s = json_response (codes "200 OK") (
      codes "{\"service\":"
      ++ (json_string (codes "localscale")
          ++ (codes ",\"loopback\":true,\"external_network\":false,\"peer_configured\":"
              ++ (bool_text s.peer.configured
                  ++ (codes ",\"peer_transport\":"
                      ++ (json_string (label s.peer_transport_status)
                          ++ (codes ",\"peer_connected\":"
                              ++ (bool_text (is_connected env.now s.peer_transport_status)
                                  ++ (codes ",\"last_peer_activity_unix\":"
                                      ++ (decimal s.peer_transport_status.last_peer_activity_unix
                                          ++ (codes ",\"messages_exchanged\":"
                                              ++ (decimal s.peer_transport_status.messages_exchanged
                                                  ++ codes "}"))))))))))))

  unfoldable pub set_service_state : Bytes → AgentState → Bytes × AgentState
  set_service_state text s =
      let t : AgentState = record s { service_state = text } in (service_status t, t)

  abbrev pub virtual_ip_applied :
      Option Bytes → Result IoError (Unit {0}) × PeerStore → AgentState → Bytes × AgentState
  virtual_ip_applied ip (err e, store) s = (
    error_response (codes "404 Not Found") (codes "peer_not_configured"),
    record s { peer_store = some store },
  )
  virtual_ip_applied ip (ok u, store) s =
      let t : AgentState = record s {
        peer_store = some store;
        peer = record (s.peer) { virtual_ip = ip };
        peer_transport_status = set_local_virtual_ip (unwrap_or ip []) s.peer_transport_status;
      } in
      (peer_status t, t)

  -- No bar and no line break, which a heartbeat could not carry.
  abbrev pub is_address : Option Bytes → Bool
  is_address none = true
  is_address (some v) = all (λ c. not (c == b'|' || c == b'\n' || c == b'\r')) v

  abbrev pub on_virtual_ip : Option Bytes → Option PeerStore → AgentState → Bytes × AgentState
  on_virtual_ip ip none s = (store_unavailable, s)
  on_virtual_ip ip (some store) s =
      virtual_ip_applied ip (Peers.set_virtual_ip env.write_fault ip store) s

  abbrev pub on_virtual_ip_fields : Option (Table Bytes) → AgentState → Bytes × AgentState
  on_virtual_ip_fields none s =
      (error_response (codes "400 Bad Request") (codes "invalid_payload"), s)
  on_virtual_ip_fields (some fields) s =
      if not (is_address (get_filled (codes "virtual_ip") fields))
      then (error_response (codes "400 Bad Request") (codes "invalid_virtual_ip"), s)
      else on_virtual_ip (get_filled (codes "virtual_ip") fields) s.peer_store s

  unfoldable pub set_virtual_ip_handler : Bytes → AgentState → Bytes × AgentState
  set_virtual_ip_handler body s = on_virtual_ip_fields (parse_json_fields body) s

  abbrev pub on_cleared : Result IoError (Unit {0}) × PeerStore → AgentState → Bytes × AgentState
  on_cleared (err e, store) s = (
    error_response (codes "500 Internal Server Error") (codes "peer_store_clear_failed"),
    record s { peer_store = some store },
  )
  on_cleared (ok u, store) s =
      let t : AgentState = record s {
        peer_store = some store;
        peer = record default_peer { transport = s.peer.transport };
        peer_transport_enabled = false;
        peer_transport_status = clear_remote_virtual_ip (
            clear_remote_node_id
              (Status.set Status.TransportState.disabled s.peer_transport_status));
      } in
      (peer_status t, t)

  abbrev pub on_reset : Option PeerStore → AgentState → Bytes × AgentState
  on_reset none s = (store_unavailable, s)
  on_reset (some store) s = on_cleared (clear env.clear_fault store) s

  unfoldable pub reset_peer : AgentState → Bytes × AgentState
  reset_peer s = on_reset s.peer_store s

  -- The state of the transport after an approval or a revocation.
  abbrev pub approval_state : Bool → Bool → Status.TransportState
  approval_state restart approved =
      if restart
      then Status.TransportState.restart_required
      else if approved
      then Status.TransportState.unavailable
      else Status.TransportState.disabled

  abbrev pub on_approved :
      Bool → Result IoError (Unit {0}) × PeerStore → AgentState → Bytes × AgentState
  on_approved approved (err e, store) s = (
    error_response (codes "404 Not Found") (codes "peer_not_configured"),
    record s { peer_store = some store },
  )
  on_approved approved (ok u, store) s =
      let t : AgentState = record s {
        peer_store = some store;
        peer = record (s.peer) { approved = approved; revoked = not approved };
        peer_transport_enabled = approved && not s.peer_transport_restart_required;
        peer_transport_status =
            Status.set (approval_state s.peer_transport_restart_required approved)
              s.peer_transport_status;
      } in
      (peer_status t, t)

  abbrev pub on_approval : Bool → Option PeerStore → AgentState → Bytes × AgentState
  on_approval approved none s = (store_unavailable, s)
  on_approval approved (some store) s =
      on_approved approved (set_approval env.write_fault approved store) s

  unfoldable pub set_peer_approval : Bool → AgentState → Bytes × AgentState
  set_peer_approval approved s = on_approval approved s.peer_store s

unfoldable pub request_runtime_restart : AgentState → Bytes × AgentState
request_runtime_restart s =
    if not s.peer_transport_restart_required
    then (error_response (codes "409 Conflict") (codes "restart_not_required"), s)
    else (
      json_response (codes "202 Accepted") (codes "{\"restart\":\"scheduled\"}"),
      record s { runtime_restart = record (s.runtime_restart) { scheduled = true } },
    )

-- `dispatch_runtime_restart`; the thread that it starts sets `requested` 150 milliseconds later, and here at
-- once.
unfoldable pub dispatch_runtime_restart : RuntimeRestart → RuntimeRestart
dispatch_runtime_restart r =
    if r.dispatched then r else record r { dispatched = true; requested = true }
