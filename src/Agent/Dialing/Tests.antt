-- ===== src/Agent/Dialing/Tests.antt =====
-- A client whose gate is closed, then opens, and whose host answers two pings, sends a packet and then is silent.
use localscale.Prelude.{List, refl, true, false, none, some, [], ◌∷◌, arith, codes, err, ok}
use localscale.Agent.Dialing.{Dialer, Input, new_dialer, new_session, iteration, iterations}
use localscale.Agent.Dialing.Delays.{AreBackedOff, IsPaced, iterations-new_dialer}
use localscale.Agent.Dialing.Answered.{Answer, iterations-inputs_of, GoesOn, inputs_of, IsPrompt}
use localscale.Agent.Dialing.Unread.{HasEnded, closed_boxes, iteration-closed_boxes}
use localscale.Agent.Status.{default_status, set_local_virtual_ip}
use localscale.Transport.Action.{unexpected_eof, timeout}
use localscale.Transport.Multiplex.{frame_kind_packet}
use localscale.Transport.Wire.{Stream}

abbrev idle : Stream
idle = record {
  incoming = [];
  ending = unexpected_eof;
  outgoing = [];
  write_fault = none;
  deadline_fault = none;
}

abbrev unreachable : Input
unreachable = record {
  gate = true;
  connection = err timeout;
  local_address = codes "10.0.0.2";
  sent_at = 1000;
  arrived = [];
  received_at = 1001;
  now = some 1001;
  gate_after = true;
}

abbrev start : Dialer
start = new_dialer default_status (codes "10.0.0.2")

abbrev attempts : List Input
attempts =
    unreachable
    ∷ record unreachable { gate = false }
    ∷ record unreachable { connection = ok idle }
    ∷ []

iterations-new_dialer_example :
    AreBackedOff (codes "box") (codes "host") attempts start
    × IsPaced (iterations (codes "box") (codes "host") attempts start)
iterations-new_dialer_example =
    iterations-new_dialer (codes "box") (codes "host") attempts default_status (codes "10.0.0.2")

abbrev reply : Answer
reply = record {
  local_address = codes "10.0.0.2";
  sent_at = 1000;
  packets = codes "p" ∷ [];
  stamp = 1005;
  address = codes "10.0.0.1";
  received_at = 1002;
  now = some 1002;
  gate_after = true;
}

reply-IsPrompt : IsPrompt reply
reply-IsPrompt = (omega arith, (omega arith, (refl, omega arith)))

iterations-inputs_of_example : GoesOn 2 4 (codes "p" ∷ codes "p" ∷ []) start (
    iterations
      (codes "box")
      (codes "host")
      (inputs_of (codes "host") 0 (reply ∷ reply ∷ []))
      (record start { session = some (new_session idle) }))
unfolding set_local_virtual_ip default_status
iterations-inputs_of_example =
    iterations-inputs_of (codes "box") (codes "host") (omega arith) (omega arith)
      (reply ∷ reply ∷ []) idle start (reply-IsPrompt, (reply-IsPrompt, tt)) refl (omega arith)

iteration-closed_boxes_example : HasEnded start (
    iteration
      (codes "box")
      (codes "host")
      (record unreachable { arrived = (frame_kind_packet ∷ codes "p") ∷ [] })
      (record start {
        session =
            some (record { stream = idle; reading = true; boxes = closed_boxes []; sequence = 4 });
      }))
iteration-closed_boxes_example =
    iteration-closed_boxes (codes "box") (codes "host") unreachable (codes "p") [] [] 4 idle start
