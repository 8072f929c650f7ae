-- ===== src/Transport/Multiplex/Tests.antt =====
-- Interleaved sends arrive on their channels.
use localscale.Prelude.{◌≡◌, refl, none, List, [], ◌∷◌, arith, codes}
use localscale.Transport.Action.{unexpected_eof}
use localscale.Transport.Wire.{Stream}
use localscale.Transport.Multiplex.{read_loop}
use localscale.Transport.Multiplex.Delivery.{
  Send, heartbeat, packet, future, send_all, open_boxes, read_loop-send_all,
}

abbrev idle : Stream
idle = record {
  incoming = [];
  ending = unexpected_eof;
  outgoing = [];
  write_fault = none;
  deadline_fault = none;
}

abbrev sends : List Send
sends =
    packet (codes "a")
    ∷ heartbeat (codes "ping")
    ∷ future 4 (codes "x")
    ∷ packet []
    ∷ heartbeat (codes "pong")
    ∷ []

read_loop-send_all_example :
    read_loop 6 (record idle { incoming = (send_all sends idle).1.outgoing }) (open_boxes [] [])
    ≡ open_boxes (codes "ping" ∷ codes "pong" ∷ []) (codes "a" ∷ [] ∷ [])
read_loop-send_all_example =
    read_loop-send_all sends 6 idle idle (omega arith) refl refl (omega arith)
