-- ===== src/Agent/Tun/Bridge.antt =====
-- The threads that `spawn_tun_bridge` and `spawn_macos_tun_forwarders` of src/main.rs start for a session: one sends
-- what the device hands back, the other writes what the peer sends to the device.
pub mod Tunnel
pub mod Endless
use localscale.Prelude.{
  ℕ, zero, suc, Bool, true, false, Option, none, some, List, [], ◌∷◌, ◌++◌, Bytes, Result, ok, err,
}
use localscale.Agent.Tun.{Platform, linux, macos, read_packet, framed_packet}
use localscale.Transport.Action.{
  IoError, TransportError, timeout, unavailable, not_ready, invalid_endpoint, io, frame, crypto,
  parse, validation, protocol,
}
use localscale.Transport.Multiplex.{Inboxes, send_packet, receive_packet}
use localscale.Transport.Wire.{Stream}

-- What a turn of the sending thread does.
pub data ReadTurn : Type 0 where
  stop skip : ReadTurn
  forward : Bytes → ReadTurn

-- The `match` on what the device returned: at the end of file, the thread ends on Linux and reads again on macOS.
unfoldable pub on_read : Platform → Result IoError Bytes → ReadTurn
on_read linux (err e) = stop
on_read linux (ok []) = stop
on_read linux (ok (b ∷ bs)) = forward (b ∷ bs)
on_read macos framed = elim (read_packet framed) [
  | err e ↦ stop
  | ok [] ↦ skip
  | ok (b ∷ bs) ↦ forward (b ∷ bs)
]

abbrev pub on_sent : Result TransportError (Unit {0}) × Stream → (Stream → Stream) → Stream
on_sent (ok u, s) rest = rest s
on_sent (err e, s) rest = s

abbrev pub on_turn : ReadTurn → Stream → (Stream → Stream) → Stream
on_turn stop s rest = s
on_turn skip s rest = rest s
on_turn (forward p) s rest = on_sent (send_packet p s) rest

-- The sending thread, on the results of its reads.
unfoldable pub forward_to_peer : Platform → List (Result IoError Bytes) → Stream → Stream
forward_to_peer platform [] s = s
forward_to_peer platform (x ∷ xs) s = on_turn (on_read platform x) s (forward_to_peer platform xs)

-- The device as it is written to: the frames so far, and the fault of the next write.
pub record Device : Type 0 where
  pub written : List Bytes
  pub write_fault : Option IoError

-- What is written for a packet.
abbrev pub device_frame : Platform → Bytes → Bytes
device_frame linux packet = packet
device_frame macos packet = framed_packet packet

abbrev pub write_device : Platform → Bytes → Device → Bool × Device
write_device platform packet d = elim d.write_fault [
  | none ↦ (true, record d { written = d.written ++ device_frame platform packet ∷ [] })
  | some e ↦ (false, d)
]

-- The receiving thread: whether it still runs, whether the session's reader thread still does, what waits for
-- it, and the device.
pub record Forwarder : Type 0 where
  pub is_running : Bool
  pub reading : Bool
  pub boxes : Inboxes
  pub device : Device

abbrev pub on_device : Bool → Bool × Device → Inboxes → Forwarder
on_device reading (running, d) boxes = record {
  is_running = running;
  reading = reading;
  boxes = boxes;
  device = d;
}

-- The `match` on what was received: a timeout is tried again, any other error ends the thread.
abbrev pub on_received :
    Platform → Bool → Result TransportError Bytes × Inboxes → Device → Forwarder
on_received platform reading (ok packet, boxes) d =
    on_device reading (write_device platform packet d) boxes
on_received platform reading (err timeout, boxes) d = on_device reading (true, d) boxes
on_received platform reading (err e, boxes) d = on_device reading (false, d) boxes

abbrev pub receive_turn_if : Platform → Bool → Forwarder → Forwarder
receive_turn_if platform false f = f
receive_turn_if platform true f =
    on_received platform f.reading (receive_packet f.reading f.boxes) f.device

-- A turn of the receiving thread, and a row of turns.
unfoldable pub receive_turn : Platform → Forwarder → Forwarder
receive_turn platform f = receive_turn_if platform f.is_running f

unfoldable pub receive_turns : Platform → ℕ → Forwarder → Forwarder
receive_turns platform zero f = f
receive_turns platform (suc n) f = receive_turns platform n (receive_turn platform f)
