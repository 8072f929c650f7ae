-- ===== src/Agent/Devices.antt =====
-- `devices_status` and `agent_logs` of src/lib.rs. `none` is a panic, which cutting a text inside a
-- character is.
use localscale.Prelude.{
  ℕ, ◌-◌, Bool, true, false, not, ◌&&◌, Option, none, some, List, [], ◌∷◌, ◌++◌, Bytes, codes,
  bytes_eq, length, drop, slice, leb, ltb, if◌then◌else◌, filter,
}
use localscale.Prelude.Options.{◌>>=◌, unwrap_or, or_else}
use localscale.Prelude.Table.{Table, lookup}
use localscale.Codec.Fields.{join, split_once}
use localscale.Agent.Handlers.{json_response}
use localscale.Agent.HostRegistry.{HostPeerRegistry, HostPeerEntry}
use localscale.Agent.Json.{json_string, bool_text}
use localscale.Agent.State.{AgentState, Environment}
use localscale.Agent.Status.{PeerTransportStatus, label, is_connected}

-- `is_char_boundary`, for the bytes from there on.
abbrev is_boundary : Bytes → Bool
is_boundary [] = true
is_boundary (c ∷ s) = not (leb 0x80 c && ltb c 0xc0)

-- `&text[start..]`
abbrev pub text_from : ℕ → Bytes → Option Bytes
text_from start text = if is_boundary (drop start text) then some (drop start text) else none

-- `&text[..8.min(text.len())]`
abbrev pub first_eight : Bytes → Option Bytes
first_eight text =
    if leb (length text) 8
    then some text
    else if is_boundary (drop 8 text)
    then some (slice text 0 8)
    else none

module _ (env : Environment) where
  -- `{}` of the status of a device with this id.
  abbrev live_status : Option Bytes → Table PeerTransportStatus → Option PeerTransportStatus
  live_status node live = node >>= (λ id. lookup id live)

  abbrev is_live : Option PeerTransportStatus → Bool
  is_live none = false
  is_live (some status) = is_connected env.now status

  abbrev shown_id : HostPeerEntry → Option Bytes → Option Bytes
  shown_id e (some id) = some id
  shown_id e none =
      first_eight e.invitation_id >>= (λ prefix. some (codes "convite-pendente-" ++ prefix))

  abbrev entry_status : Bool → Option Bytes → Bytes
  entry_status true n = codes "connected"
  entry_status false none = codes "pending"
  entry_status false (some id) = codes "offline"

  pub entry_json : Table PeerTransportStatus → HostPeerEntry → Option Bytes
  entry_json live e = shown_id e e.node_id >>= (λ id. some (
      codes "{\"node_id\":"
      ++ (json_string id
          ++ (codes ",\"role\":\"cliente\",\"onion_endpoint\":\"\",\"virtual_ip\":"
              ++ (json_string e.virtual_ip
                  ++ (codes ",\"status\":"
                      ++ (json_string
                            (entry_status (is_live (live_status e.node_id live)) e.node_id)
                          ++ codes ",\"approved\":true,\"revoked\":false}")))))))

  -- One text for each entry, or the panic of one of them.
  pub entries_json : Table PeerTransportStatus → List HostPeerEntry → Option (List Bytes)
  entries_json live [] = some []
  entries_json live (e ∷ es) = do
    text ← entry_json live e
    rest ← entries_json live es
    some (text ∷ rest)

  abbrev entries_of : Option HostPeerRegistry → List HostPeerEntry
  entries_of none = []
  entries_of (some r) = r.entries

  abbrev remote_status : AgentState → Bytes
  remote_status s =
      if s.peer.revoked
      then codes "revoked"
      else if not s.peer.approved
      then codes "pending"
      else if is_connected env.now s.peer_transport_status
      then codes "connected"
      else label s.peer_transport_status

  abbrev endpoint_in : Bytes → Option Bytes → AgentState → Bytes
  endpoint_in mode endpoint s = if bytes_eq s.mode mode then unwrap_or endpoint [] else []

  -- The host of a client.
  pub remote_json : AgentState → Bytes
  remote_json s =
      codes "[{\"node_id\":"
      ++ (json_string (
            unwrap_or (or_else s.peer_transport_status.remote_node_id s.peer.host_node_id)
              (codes "remote-host"))
          ++ (codes ",\"role\":\"host\",\"onion_endpoint\":"
              ++ (json_string (endpoint_in (codes "cliente") s.peer.endpoint s)
                  ++ (codes ",\"virtual_ip\":"
                      ++ (json_string (unwrap_or s.peer_transport_status.remote_virtual_ip [])
                          ++ (codes ",\"status\":"
                              ++ (json_string (remote_status s)
                                  ++ (codes ",\"approved\":"
                                      ++ (bool_text s.peer.approved
                                          ++ (codes ",\"revoked\":"
                                              ++ (bool_text s.peer.revoked ++ codes "}]")))))))))))

  abbrev remote_peers : AgentState → Option Bytes
  remote_peers s =
      if bytes_eq s.mode (codes "host")
      then entries_json s.host_peer_live (filter (λ e. not e.revoked) (entries_of s.host_registry))
        >>= (λ texts. some (codes "[" ++ (join b',' texts ++ codes "]")))
      else if s.peer.configured
      then some (remote_json s)
      else some (codes "[]")

  pub local_json : AgentState → Bytes
  local_json s =
      codes "{\"node_id\":"
      ++ (json_string (unwrap_or s.peer.node_id env.local_device_id)
          ++ (codes ",\"role\":"
              ++ (json_string s.mode
                  ++ (codes ",\"onion_endpoint\":"
                      ++ (json_string (endpoint_in (codes "host") env.onion_endpoint s)
                          ++ (codes ",\"virtual_ip\":"
                              ++ (json_string (unwrap_or s.peer.virtual_ip [])
                                  ++ codes ",\"status\":\"active\"}")))))))

  pub devices_status : AgentState → Option Bytes
  devices_status s = remote_peers s >>= (λ peers. some (
      json_response (codes "200 OK") (
        codes
          "{\"transport\":\"Tor v3 Onion (Strict Isolation)\",\"isolation\":\"tor_only_no_lan\",\"local_device\":"
        ++ (local_json s ++ (codes ",\"remote_peers\":" ++ (peers ++ codes "}"))))))

abbrev pub max_log_response_bytes : ℕ
max_log_response_bytes = 65536

-- What stands behind the first line of the tail.
abbrev behind_line : Bytes → Bytes
behind_line s = elim (split_once b'\n' s) [ none ↦ [] | some (p, q) ↦ q ]

pub log_tail : Bytes → Option Bytes
log_tail contents =
    if ltb max_log_response_bytes (length contents)
    then text_from (length contents - max_log_response_bytes) contents
      >>= (λ tail. some (behind_line tail))
    else some contents

pub agent_logs : Environment → Option Bytes
agent_logs env = log_tail env.log >>= (λ tail.
    some (json_response (codes "200 OK") (codes "{\"lines\":" ++ (json_string tail ++ codes "}"))))
