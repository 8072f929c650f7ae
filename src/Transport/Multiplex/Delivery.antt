-- ===== src/Transport/Multiplex/Delivery.antt =====
-- Heartbeats and packets that are sent over one stream do not interfere.
use localscale.Prelude.{
  ℕ, zero, suc, ◌+◌, ◌≤◌, ◌≡◌, refl, ap, ◌∙◌, true, none, List, [], ◌∷◌, ◌++◌, append_assoc,
  append-nil, arith, Bytes, All, length, ok,
}
use localscale.Protocol.Frame.{max_frame_size}
use localscale.Transport.Action.{Action, ◌>>◌, pure}
use localscale.Transport.Wire.{Stream}
use localscale.Transport.Wire.Frames.{framed, write_frame_lem, read_frame-framed, read_frame_empty}
use localscale.Transport.Multiplex.{
  Inboxes, write_multiplexed, frame_kind_heartbeat, frame_kind_packet, route, read_loop,
}

-- A send on one of the two channels, or a frame of a kind that this version does not know.
pub data Send : Type 0 where
  heartbeat : Bytes → Send
  packet : Bytes → Send
  future : ℕ → Bytes → Send

abbrev pub kind_of : Send → ℕ
kind_of (heartbeat p) = frame_kind_heartbeat
kind_of (packet p) = frame_kind_packet
kind_of (future k p) = k + 3

abbrev pub payload_of : Send → Bytes
payload_of (heartbeat p) = p
payload_of (packet p) = p
payload_of (future k p) = p

unfoldable pub send_all : List Send → Action Stream (Unit {0})
send_all [] = pure tt
send_all (m ∷ ms) = write_multiplexed (kind_of m) (payload_of m) >> send_all ms

-- The payloads on one channel, in order.
abbrev pub heartbeats_of : List Send → List Bytes
heartbeats_of [] = []
heartbeats_of (heartbeat p ∷ ms) = p ∷ heartbeats_of ms
heartbeats_of (packet p ∷ ms) = heartbeats_of ms
heartbeats_of (future k p ∷ ms) = heartbeats_of ms

abbrev pub packets_of : List Send → List Bytes
packets_of [] = []
packets_of (heartbeat p ∷ ms) = packets_of ms
packets_of (packet p ∷ ms) = p ∷ packets_of ms
packets_of (future k p ∷ ms) = packets_of ms

abbrev pub Fits : Send → Type 0
Fits m = length (payload_of m) + 1 ≤ max_frame_size

abbrev wire : List Send → Bytes
wire [] = []
wire (m ∷ ms) = framed (kind_of m ∷ payload_of m) ++ wire ms

send_all_lem :
    (ms : List Send) (s : Stream)
    → All Fits ms
    → s.write_fault ≡ none
    → send_all ms s ≡ (ok tt, record s { outgoing = s.outgoing ++ wire ms })
unfolding send_all write_multiplexed
send_all_lem [] s h fault = rw append-nil
send_all_lem (m ∷ ms) s h fault =
    rw (write_frame_lem (kind_of m ∷ payload_of m) s (omega arith) fault) (
      send_all_lem ms (record s { outgoing = s.outgoing ++ framed (kind_of m ∷ payload_of m) }) h.1
        fault
      ∙ ap (λ (o : Bytes). (ok tt, record s { outgoing = o }))
          (append_assoc s.outgoing (framed (kind_of m ∷ payload_of m)) (wire ms)))

-- Both receivers exist.
abbrev pub open_boxes : List Bytes → List Bytes → Inboxes
open_boxes hs ps = record {
  heartbeats = record { waiting = hs; is_connected = true };
  packets = record { waiting = ps; is_connected = true };
}

route_lem :
    (m : Send) (hs ps : List Bytes)
    → route (kind_of m ∷ payload_of m) (open_boxes hs ps)
      ≡ (true, open_boxes (hs ++ heartbeats_of (m ∷ [])) (ps ++ packets_of (m ∷ [])))
unfolding route
route_lem (heartbeat p) hs ps = rw append-nil
route_lem (packet p) hs ps = rw append-nil
route_lem (future k p) hs ps = rw (append-nil, append-nil) (ground arith)

heartbeats-split :
    (m : Send) (ms : List Send)
    → heartbeats_of (m ∷ ms) ≡ heartbeats_of (m ∷ []) ++ heartbeats_of ms
heartbeats-split (heartbeat p) ms = refl
heartbeats-split (packet p) ms = refl
heartbeats-split (future k p) ms = refl

packets-split :
    (m : Send) (ms : List Send) → packets_of (m ∷ ms) ≡ packets_of (m ∷ []) ++ packets_of ms
packets-split (heartbeat p) ms = refl
packets-split (packet p) ms = refl
packets-split (future k p) ms = refl

read_loop_step :
    (m : Send) (rest : Bytes) (fuel : ℕ) (s : Stream) (hs ps : List Bytes)
    → Fits m
    → read_loop
        (suc fuel)
        (record s { incoming = framed (kind_of m ∷ payload_of m) ++ rest })
        (open_boxes hs ps)
      ≡ read_loop fuel
          (record s { incoming = rest })
          (open_boxes (hs ++ heartbeats_of (m ∷ [])) (ps ++ packets_of (m ∷ [])))
unfolding read_loop
read_loop_step m rest fuel s hs ps h =
    rw (read_frame-framed (kind_of m ∷ payload_of m) rest s (omega arith), route_lem m hs ps)

read_loop_end :
    (fuel : ℕ) (s : Stream) (boxes : Inboxes)
    → read_loop (suc fuel) (record s { incoming = [] }) boxes ≡ boxes
unfolding read_loop
read_loop_end fuel s boxes = rw (read_frame_empty s)

read_loop_lem :
    (ms : List Send) (fuel : ℕ) (s : Stream) (hs ps : List Bytes)
    → All Fits ms
    → length ms + 1 ≤ fuel
    → read_loop fuel (record s { incoming = wire ms }) (open_boxes hs ps)
      ≡ open_boxes (hs ++ heartbeats_of ms) (ps ++ packets_of ms)
read_loop_lem ms zero s hs ps h enough = absurd (omega arith)
read_loop_lem [] (suc fuel) s hs ps h enough =
    rw (append-nil, append-nil) (read_loop_end fuel s (open_boxes hs ps))
read_loop_lem (m ∷ ms) (suc fuel) s hs ps h enough =
    read_loop_step m (wire ms) fuel s hs ps h.0
    ∙ read_loop_lem ms fuel s (hs ++ heartbeats_of (m ∷ [])) (ps ++ packets_of (m ∷ [])) h.1
        (omega arith)
    ∙ rw (
      append_assoc hs (heartbeats_of (m ∷ [])) (heartbeats_of ms),
      append_assoc ps (packets_of (m ∷ [])) (packets_of ms),
      ← heartbeats-split m ms,
      ← packets-split m ms,
    )

-- Heartbeats, packets and frames of unknown kinds, in any order, each at most 64 KiB with its kind byte,
-- sent over a stream whose writes succeed: the reader thread delivers exactly the heartbeats on the one
-- channel and exactly the packets on the other, each in the order of their sends, once it has read one
-- frame more than was sent.
pub read_loop-send_all :
    (ms : List Send) (fuel : ℕ) (s r : Stream)
    → All Fits ms
    → s.write_fault ≡ none
    → s.outgoing ≡ []
    → length ms + 1 ≤ fuel
    → read_loop fuel (record r { incoming = (send_all ms s).1.outgoing }) (open_boxes [] [])
      ≡ open_boxes (heartbeats_of ms) (packets_of ms)
read_loop-send_all ms fuel s r h fault start enough =
    rw (send_all_lem ms s h fault, start) (read_loop_lem ms fuel r [] [] h enough)
