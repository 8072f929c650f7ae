-- ===== src/Agent/Dialing.antt =====
-- The thread of a client that `start_peer_transport` of src/main.rs starts, which dials its host and exchanges
-- heartbeats. An iteration of its two loops is a step of a machine: what the calls of the system return, what
-- other threads leave in the shared status and what the reader thread delivers is its input.
pub mod Delays
pub mod Answered
pub mod Unread
mod Tests
use localscale.Prelude.{
  ℕ, ◌+◌, ◌*◌, ◌-◌, ◌%◌, ◌^◌, ◌==◌, min, Bool, true, false, Option, none, some, List, [], ◌∷◌,
  Bytes, if◌then◌else◌, Result, ok, err,
}
use localscale.Agent.Arguments.{retry_delay}
use localscale.Agent.Status.{
  PeerTransportStatus, TransportState, connecting, retrying, disabled, set, record_peer_activity,
  set_remote_virtual_ip, set_local_virtual_ip,
}
use localscale.Transport.Action.{TransportError}
use localscale.Transport.Multiplex.{Inboxes, route, send_ping, channel_receive_pong}
use localscale.Transport.Multiplex.Delivery.{open_boxes}
use localscale.Transport.Wire.{Stream}

-- A session: the stream, whether the reader thread runs, what it has delivered, and the last sequence number.
pub record Session : Type 0 where
  pub stream : Stream
  pub reading : Bool
  pub boxes : Inboxes
  pub sequence : ℕ

-- The thread between two iterations. `delays` are its sleeps between two attempts so far, in milliseconds,
-- the last one first.
pub record Dialer : Type 0 where
  pub status : PeerTransportStatus
  pub failures : ℕ
  pub delays : List ℕ
  pub session : Option Session

pub record Input : Type 0 where
  pub gate : Bool
  pub connection : Result TransportError Stream
  pub local_address : Bytes
  pub sent_at : ℕ
  pub arrived : List Bytes
  pub received_at : ℕ
  pub now : Option ℕ
  pub gate_after : Bool

-- The frames that the reader thread reads, until it ends.
unfoldable pub arrive : List Bytes → Bool × Inboxes → Bool × Inboxes
arrive [] r = r
arrive (f ∷ fs) (true, boxes) = arrive fs (route f boxes)
arrive (f ∷ fs) (false, boxes) = (false, boxes)

-- `u32::saturating_add`
abbrev pub saturating_suc : ℕ → ℕ
saturating_suc n = min (n + 1) 4294967295

-- The end of an attempt.
abbrev pub failed : Bool → Dialer → Dialer
failed gate d =
    let failures = saturating_suc d.failures in
    record d {
      failures = failures;
      status = set (if gate then retrying else disabled) d.status;
      delays = (1000 * retry_delay failures) ∷ d.delays;
      session = none;
    }

abbrev pub new_session : Stream → Session
new_session stream = record {
  stream = stream;
  reading = true;
  boxes = open_boxes [] [];
  sequence = 0;
}

abbrev connected_with : Bool → Result TransportError Stream → Dialer → Dialer
connected_with gate (ok stream) d = record d { failures = 0; session = some (new_session stream) }
connected_with gate (err e) d = failed gate d

abbrev pub attempt : Input → Dialer → Dialer
attempt i d =
    if i.gate
    then connected_with i.gate_after i.connection
        (record d { status = set (if d.failures == 0 then connecting else retrying) d.status })
    else record d { status = set disabled d.status; delays = 250 ∷ d.delays }

abbrev pub on_pong : Input → Result TransportError Bytes × Inboxes → Session → Dialer → Dialer
on_pong i (ok address, boxes) s d = record d {
  status = record_peer_activity i.now 2 (set_remote_virtual_ip address d.status);
  session = some (record s { boxes = boxes });
}
on_pong i (err e, boxes) s d = failed i.gate_after d

module _ (node peer : Bytes) where
  abbrev pub await : Input → Bool × Inboxes → Session → Dialer → Dialer
  await i (reading, boxes) s d =
      on_pong i (channel_receive_pong reading boxes peer s.sequence i.received_at)
        (record s { reading = reading }) d

  abbrev pub on_ping : Input → Result TransportError (Unit {0}) × Stream → Session → Dialer → Dialer
  on_ping i (ok u, stream) s d =
      await i (arrive i.arrived (s.reading, s.boxes)) (record s { stream = stream }) d
  on_ping i (err e, stream) s d = failed i.gate_after d

  -- An iteration of the loop of heartbeats.
  abbrev pub beat : Input → Session → Dialer → Dialer
  beat i s d =
      let sequence = (s.sequence + 1) % 2 ^ 64 in
      if i.gate
      then on_ping i (send_ping i.sent_at node sequence i.local_address s.stream)
          (record s { sequence = sequence })
          (record d { status = set_local_virtual_ip i.local_address d.status })
      else failed i.gate_after d

  abbrev pub iterate_in : Option Session → Input → Dialer → Dialer
  iterate_in none i d = attempt i d
  iterate_in (some s) i d = beat i s d

  unfoldable pub iteration : Input → Dialer → Dialer
  iteration i d = iterate_in d.session i d

  unfoldable pub iterations : List Input → Dialer → Dialer
  iterations [] d = d
  iterations (i ∷ is) d = iterations is (iteration i d)

-- The thread as it starts.
abbrev pub new_dialer : PeerTransportStatus → Bytes → Dialer
new_dialer status address = record {
  status = set_local_virtual_ip address status;
  failures = 0;
  delays = [];
  session = none;
}
