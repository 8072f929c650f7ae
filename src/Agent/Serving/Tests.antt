-- ===== src/Agent/Serving/Tests.antt =====
-- A host with two sessions of one device, and a ping behind a packet.
use localscale.Prelude.{◌≡◌, refl, true, none, some, List, [], ◌∷◌, arith, codes, bytes_eq, ok, err}
use localscale.Agent.HostRegistry.{Json, HostPeerRegistry, remove, bind}
use localscale.Agent.Serving.{
  Event, HostInput, handshake, device_removal, remove_device, change_session, serving_step,
  accept_turn, session_beat, host_beat, new_serving, serving_steps, shown_session,
}
use localscale.Agent.Serving.Live.{last_session, removed_at, shown_session-last_session}
use localscale.Agent.Serving.Answering.{waiting_session, pinged_with, host_beat-heartbeat_frame}
use localscale.Agent.Status.{default_status, record_peer_activity, set_remote_virtual_ip}
use localscale.Transport.Action.{unexpected_eof, timeout}
use localscale.Transport.Heartbeat.{heartbeat_frame}
use localscale.Transport.Multiplex.{frame_kind_heartbeat}
use localscale.Transport.Wire.{Stream}
use localscale.Transport.Wire.Frames.{framed}

abbrev idle : Stream
idle = record {
  incoming = [];
  ending = unexpected_eof;
  outgoing = [];
  write_fault = none;
  deadline_fault = none;
}

abbrev quiet : HostInput
quiet = record { gate = true; arrived = []; received_at = 1000; sent_at = 1000; now = some 1000 }

abbrev json : Json
json = record { to_string = λ _. some (codes "[]"); from_str = λ _. none }

abbrev no_entries : HostPeerRegistry
no_entries = record { entries = []; file = none }

abbrev from_box : Event
from_box =
    handshake none
      (ok (record { peer_node_id = codes "box"; matched_key_tag = some (codes "inv") }, idle))

abbrev events : List Event
events =
    from_box
    ∷ session_beat 0 quiet
    ∷ handshake none (err timeout)
    ∷ device_removal none (codes "box")
    ∷ from_box
    ∷ from_box
    ∷ []

shown_session-last_session_example :
    shown_session
      (codes "box")
      (serving_steps json (codes "host") events (new_serving no_entries default_status))
    ≡ last_session
        (removed_at json
          (codes "host")
          (codes "box")
          events
          (new_serving no_entries default_status)
          0)
        (codes "box")
        (serving_steps json (codes "host") events (new_serving no_entries default_status)).sessions
shown_session-last_session_example =
    shown_session-last_session json (codes "host") events no_entries default_status (codes "box")

-- The first of the three sessions was accepted before the removal.
removed_at_one :
    removed_at json (codes "host") (codes "box") events (new_serving no_entries default_status) 0
    ≡ 1
unfolding removed_at serving_step change_session accept_turn remove_device remove bind bytes_eq
removed_at_one = refl

host_beat-heartbeat_frame_example :
    host_beat
      (codes "host")
      (pinged_with
        (codes "p" ∷ [])
        (heartbeat_frame (codes "ping") (codes "box") 980 7 (codes "10.0.0.2"))
        quiet)
      (codes "10.0.0.1")
      (waiting_session (codes "box") default_status idle [])
    ≡ waiting_session
        (codes "box")
        (record_peer_activity
          (some 1000)
          2
          (set_remote_virtual_ip (codes "10.0.0.2") default_status))
        (record idle {
          outgoing = framed (
              frame_kind_heartbeat
              ∷ heartbeat_frame (codes "pong") (codes "host") 1000 7 (codes "10.0.0.1"));
        })
        (codes "p" ∷ [])
host_beat-heartbeat_frame_example =
    host_beat-heartbeat_frame (codes "host") (codes "box") (codes "10.0.0.1") (codes "10.0.0.2") 980
      7 quiet default_status idle (codes "p" ∷ []) [] (omega arith) (omega arith) (omega arith)
      (omega arith) refl refl (omega arith) (omega arith)
