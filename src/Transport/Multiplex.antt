-- ===== src/Transport/Multiplex.antt =====
-- The multiplexed mode of agent/protocol/agent/transport/src/lib.rs: heartbeats and raw packets over one
-- stream. The channels of the reader thread are lists of the payloads that wait; their senders exist while
-- the thread runs. Writers are serialized by a mutex, so that what they write is a row of frames.
pub mod Delivery
mod Tests
use localscale.Prelude.{
  ℕ, zero, suc, ◌≡◌, Bool, true, false, List, [], ◌∷◌, ◌++◌, Bytes, codes, ◌==◌, if◌then◌else◌,
  Result, ok, err, ◌>>=◌, map_err,
}
use localscale.Transport.Action.{TransportError, timeout, protocol, Action}
use localscale.Transport.Wire.{Stream, write_frame, read_frame}
use localscale.Transport.Heartbeat.{heartbeat_frame, receive_ping, receive_pong}

abbrev pub frame_kind_heartbeat : ℕ
frame_kind_heartbeat = 1

abbrev pub frame_kind_packet : ℕ
frame_kind_packet = 2

unfoldable pub write_multiplexed : ℕ → Bytes → Action Stream (Unit {0})
write_multiplexed kind payload = write_frame (kind ∷ payload)

-- `HeartbeatChannel::send_ping`, `send_pong` and `PacketChannel::send_packet`, at a time.
unfoldable pub send_ping : ℕ → Bytes → ℕ → Bytes → Action Stream (Unit {0})
send_ping now node sequence virtual_ip =
    write_multiplexed frame_kind_heartbeat
      (heartbeat_frame (codes "ping") node now sequence virtual_ip)

unfoldable pub send_pong : ℕ → Bytes → ℕ → Bytes → Action Stream (Unit {0})
send_pong now node sequence virtual_ip =
    write_multiplexed frame_kind_heartbeat
      (heartbeat_frame (codes "pong") node now sequence virtual_ip)

unfoldable pub send_packet : Bytes → Action Stream (Unit {0})
send_packet packet = write_multiplexed frame_kind_packet packet

-- One channel: what was delivered and not yet received, and whether its receiver still exists.
pub record Inbox : Type 0 where
  pub waiting : List Bytes
  pub is_connected : Bool

pub record Inboxes : Type 0 where
  pub heartbeats : Inbox
  pub packets : Inbox

-- `Sender::send`: whether it was delivered.
abbrev pub deliver : Bytes → Inbox → Bool × Inbox
deliver payload box =
    if box.is_connected
    then (true, record box { waiting = box.waiting ++ payload ∷ [] })
    else (false, box)

-- The body of the reader loop: whether it goes on.
unfoldable pub route : Bytes → Inboxes → Bool × Inboxes
route [] boxes = (true, boxes)
route (kind ∷ payload) boxes =
    let (sent, heartbeats) = deliver payload boxes.heartbeats in
    let (sent', packets) = deliver payload boxes.packets in
    if kind == frame_kind_heartbeat
    then (sent, record boxes { heartbeats = heartbeats })
    else if kind == frame_kind_packet
    then (sent', record boxes { packets = packets })
    else (true, boxes)

abbrev pub go_on : Bool × Inboxes → Stream → (Stream → Inboxes → Inboxes) → Inboxes
go_on (true, boxes) s rest = rest s boxes
go_on (false, boxes) s rest = boxes

abbrev pub on_frame :
    Result TransportError Bytes × Stream → Inboxes → (Stream → Inboxes → Inboxes) → Inboxes
on_frame (ok framed, s) boxes rest = go_on (route framed boxes) s rest
on_frame (err e, s) boxes rest = boxes

-- The reader thread of `into_multiplexed`, for at most `fuel` frames: it ends at the first error.
unfoldable pub read_loop : ℕ → Stream → Inboxes → Inboxes
read_loop zero s boxes = boxes
read_loop (suc fuel) s boxes = on_frame (read_frame s) boxes (read_loop fuel)

-- `mpsc::RecvTimeoutError`: no message in time, or none ever again.
pub data RecvTimeoutError : Type 0 where
  no_message disconnected : RecvTimeoutError

-- `recv_timeout`, from whether the sender still exists, which is whether the reader thread still runs.
abbrev pub recv_timeout : Bool → Inbox → Result RecvTimeoutError Bytes × Inbox
recv_timeout reading box = elim box.waiting [
  | [] ↦ (err (if reading then no_message else disconnected), box)
  | payload ∷ rest ↦ (ok payload, record box { waiting = rest })
]

-- `map_err(|_| TransportError::Timeout)`
abbrev as_timeout : Result RecvTimeoutError Bytes → Result TransportError Bytes
as_timeout r = map_err (λ _. timeout) r

-- `HeartbeatChannel::receive_ping` and `receive_pong`, and `PacketChannel::receive_packet`.
unfoldable pub channel_receive_ping :
    Bool → Inboxes → Bytes → ℕ → Result TransportError (ℕ × Bytes) × Inboxes
channel_receive_ping reading boxes peer now =
    let (payload, box) = recv_timeout reading boxes.heartbeats in
    ((do p ← as_timeout payload; receive_ping p peer now), record boxes { heartbeats = box })

unfoldable pub channel_receive_pong :
    Bool → Inboxes → Bytes → ℕ → ℕ → Result TransportError Bytes × Inboxes
channel_receive_pong reading boxes peer expected now =
    let (payload, box) = recv_timeout reading boxes.heartbeats in
    (
      (do p ← as_timeout payload; receive_pong p peer expected now),
      record boxes { heartbeats = box },
    )

unfoldable pub receive_packet : Bool → Inboxes → Result TransportError Bytes × Inboxes
receive_packet reading boxes =
    let (payload, box) = recv_timeout reading boxes.packets in
    (as_timeout payload, record boxes { packets = box })
