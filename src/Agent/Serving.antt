-- ===== src/Agent/Serving.antt =====
-- The threads of a host that `start_peer_transport` of src/main.rs starts: the loop that accepts clients, and a
-- loop of heartbeats for each session. Its steps come in any order, together with what the handlers of requests
-- do: remove a device, which also takes it out of the table of the live peers, edit the registry, or set the
-- host's address. The removal of a device is one step here, as is an accepted client. The status of a session is
-- shared between its thread and the table of the live peers, so that the table holds the number of the session:
-- how many were accepted before it.
pub mod Live
pub mod Answering
mod Tests
use localscale.Prelude.{
  ℕ, ◌+◌, ◌==◌, Bool, true, false, Option, none, some, List, [], ◌∷◌, length, Bytes, bytes_eq,
  if◌then◌else◌, Result, ok, err,
}
use localscale.Prelude.Table.{Table, insert, lookup, without}
use localscale.Prelude.Options.{◌>>=◌}
use localscale.Agent.Dialing.{arrive}
use localscale.Agent.HostRegistry.{Json, HostPeerRegistry}
use localscale.Agent.HostRegistry
use localscale.Agent.Status.{
  PeerTransportStatus, connecting, default_status, set, record_peer_activity, set_remote_virtual_ip,
  set_local_virtual_ip,
}
use localscale.Transport.Action.{IoError, TransportError}
use localscale.Transport.Multiplex.{Inboxes, send_pong, channel_receive_ping}
use localscale.Transport.Multiplex.Delivery.{open_boxes}
use localscale.Transport.Session.{AuthenticatedStream}
use localscale.Transport.Wire.{Stream}

pub record HostSession : Type 0 where
  pub peer_node_id : Bytes
  pub session_status : PeerTransportStatus
  pub stream : Stream
  pub reading : Bool
  pub boxes : Inboxes
  pub is_running : Bool

-- `sessions` has the last one first, and `pauses` counts the sleeps of a second.
pub record Serving : Type 0 where
  pub registry : HostPeerRegistry
  pub status : PeerTransportStatus
  pub sessions : List HostSession
  pub live : Table ℕ
  pub pauses : ℕ

-- The session with a number, and a change of it.
unfoldable pub find_session : ℕ → List HostSession → Option HostSession
find_session k [] = none
find_session k (s ∷ ss) = let rest = find_session k ss in if k == length ss then some s else rest

unfoldable pub change_session :
    ℕ → (HostSession → HostSession) → List HostSession → List HostSession
change_session k f [] = []
change_session k f (s ∷ ss) = (if k == length ss then f s else s) ∷ change_session k f ss

-- What a beat of a session meets.
pub record HostInput : Type 0 where
  pub gate : Bool
  pub arrived : List Bytes
  pub received_at : ℕ
  pub sent_at : ℕ
  pub now : Option ℕ

abbrev pub new_host_session : Bytes → Bytes → Stream → HostSession
new_host_session node address stream = record {
  peer_node_id = node;
  session_status = set_local_virtual_ip address default_status;
  stream = stream;
  reading = true;
  boxes = open_boxes [] [];
  is_running = true;
}

abbrev ended : HostSession → HostSession
ended s = record s { is_running = false }

abbrev pub on_sent :
    Option ℕ → Result TransportError (Unit {0}) × Stream → HostSession → HostSession
on_sent now (ok u, stream) s = record s {
  stream = stream;
  session_status = record_peer_activity now 2 s.session_status;
}
on_sent now (err e, stream) s = ended (record s { stream = stream })

pub data Event : Type 0 where
  handshake : Option IoError → Result TransportError (AuthenticatedStream × Stream) → Event
  session_beat : ℕ → HostInput → Event
  device_removal : Option IoError → Bytes → Event
  registry_edit : HostPeerRegistry → Event
  address_edit : Bytes → Event

module _ (local_node_id : Bytes) where
  abbrev pub on_host_ping :
      HostInput → Bytes → Result TransportError (ℕ × Bytes) × Inboxes → HostSession → HostSession
  on_host_ping i address (ok (sequence, peer_address), boxes) s =
      on_sent i.now (send_pong i.sent_at local_node_id sequence address s.stream) (record s {
        boxes = boxes;
        session_status = set_remote_virtual_ip peer_address s.session_status;
      })
  on_host_ping i address (err e, boxes) s = ended (record s { boxes = boxes })

  abbrev pub on_arrived : HostInput → Bytes → Bool × Inboxes → HostSession → HostSession
  on_arrived i address (reading, boxes) s =
      on_host_ping i address (channel_receive_ping reading boxes s.peer_node_id i.received_at)
        (record s { reading = reading })

  -- An iteration of the loop of a session, with the address of the shared status.
  unfoldable pub host_beat : HostInput → Bytes → HostSession → HostSession
  host_beat i address s =
      if s.is_running
      then (if i.gate
          then on_arrived i address (arrive i.arrived (s.reading, s.boxes)) s
          else ended s)
      else s

module _ (json : Json) (local_node_id : Bytes) where
  abbrev bound : Option IoError → Option Bytes → Bytes → HostPeerRegistry → HostPeerRegistry
  bound fault none node r = r
  bound fault (some tag) node r = (HostRegistry.bind json fault tag node r).1

  abbrev pub on_handshake :
      Option IoError → Result TransportError (AuthenticatedStream × Stream) → Serving → Serving
  on_handshake fault (err e) h = record h { pauses = h.pauses + 1 }
  on_handshake fault (ok (peer, stream)) h = record h {
    registry = bound fault peer.matched_key_tag peer.peer_node_id h.registry;
    sessions = new_host_session peer.peer_node_id h.status.local_virtual_ip stream ∷ h.sessions;
    live = insert peer.peer_node_id (length h.sessions) h.live;
  }

  -- A turn of the loop, from what writing the registry and `accept` return.
  unfoldable pub accept_turn :
      Option IoError → Result TransportError (AuthenticatedStream × Stream) → Serving → Serving
  accept_turn fault x h = on_handshake fault x (record h { status = set connecting h.status })

  abbrev pub on_removed : Result IoError (Unit {0}) × HostPeerRegistry → Bytes → Serving → Serving
  on_removed (ok u, r) node h = record h { registry = r; live = without node h.live }
  on_removed (err e, r) node h = record h { registry = r }

  -- What `remove_host_peer` does behind its checks, from what writing the registry returns.
  unfoldable pub remove_device : Option IoError → Bytes → Serving → Serving
  remove_device fault node h = on_removed (HostRegistry.remove json fault node h.registry) node h

  unfoldable pub serving_step : Event → Serving → Serving
  serving_step (handshake fault x) h = accept_turn fault x h
  serving_step (session_beat k i) h = record h {
    sessions = change_session k (host_beat local_node_id i h.status.local_virtual_ip) h.sessions;
  }
  serving_step (device_removal fault node) h = remove_device fault node h
  serving_step (registry_edit r) h = record h { registry = r }
  serving_step (address_edit address) h = record h {
    status = set_local_virtual_ip address h.status;
  }

  unfoldable pub serving_steps : List Event → Serving → Serving
  serving_steps [] h = h
  serving_steps (e ∷ es) h = serving_steps es (serving_step e h)

-- The host as it starts, and the status of a device that `devices_status` sees.
abbrev pub new_serving : HostPeerRegistry → PeerTransportStatus → Serving
new_serving registry status = record {
  registry = registry;
  status = status;
  sessions = [];
  live = [];
  pauses = 0;
}

abbrev pub shown_session : Bytes → Serving → Option HostSession
shown_session node h = lookup node h.live >>= (λ k. find_session k h.sessions)
