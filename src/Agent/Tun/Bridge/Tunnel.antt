-- ===== src/Agent/Tun/Bridge/Tunnel.antt =====
-- Packets through a bridge of src/main.rs, from the device of one side to that of the other.
use localscale.Prelude.{
  Bool, ℕ, suc, ◌+◌, ◌≤◌, ◌<◌, ◌≡◌, refl, sym, ap, ◌∙◌, true, none, List, [], ◌∷◌, ◌++◌,
  append_assoc, append-nil, All, Bytes, length, arith, Result, ok, err,
}
use localscale.Agent.Tun.{Platform, linux, macos, read_packet, framed_packet}
use localscale.Agent.Tun.Bridge.{
  Device, Forwarder, forward_to_peer, receive_turns, receive_turn, on_read, on_turn, on_sent,
  forward, device_frame, write_device, on_device,
}
use localscale.Transport.Action.{IoError, TransportError, Action, continue}
use localscale.Transport.Multiplex.{read_loop, send_packet, receive_packet}
use localscale.Transport.Multiplex.Delivery.{
  Send, packet, send_all, open_boxes, read_loop-send_all, heartbeats_of, packets_of, Fits,
}
use localscale.Transport.Wire.{Stream}

-- A packet of at least one byte that fits into the buffer of the reading thread.
abbrev pub IsPacket : Bytes → Type 0
IsPacket p = (0 < length p) × (length p ≤ 65535)

-- What the device hands back for the packets.
abbrev pub reads_of : Platform → List Bytes → List (Result IoError Bytes)
reads_of platform [] = []
reads_of platform (p ∷ ps) = ok (device_frame platform p) ∷ reads_of platform ps

abbrev pub device_frames : Platform → List Bytes → List Bytes
device_frames platform [] = []
device_frames platform (p ∷ ps) = device_frame platform p ∷ device_frames platform ps

abbrev sends_of : List Bytes → List Send
sends_of [] = []
sends_of (p ∷ ps) = packet p ∷ sends_of ps

on_read-device_frame :
    (platform : Platform) (p : Bytes)
    → 0 < length p
    → on_read platform (ok (device_frame platform p)) ≡ forward p
unfolding on_read read_packet framed_packet
on_read-device_frame platform [] h = absurd (omega arith)
on_read-device_frame linux (b ∷ bs) h = refl
on_read-device_frame macos (b ∷ bs) h = ground arith

sent_then :
    (x : Result TransportError (Unit {0}) × Stream) (f : Stream → Stream)
    (k : Action Stream (Unit {0}))
    → ((t : Stream) → f t ≡ (k t).1)
    → on_sent x f ≡ (continue x (λ u. k)).1
sent_then (ok u, t) f k h = h t
sent_then (err e, t) f k h = refl

forward_to_peer-reads_of :
    (platform : Platform) (ps : List Bytes) (s : Stream)
    → All IsPacket ps
    → forward_to_peer platform (reads_of platform ps) s ≡ (send_all (sends_of ps) s).1
unfolding forward_to_peer send_all send_packet
forward_to_peer-reads_of platform [] s h = refl
forward_to_peer-reads_of platform (p ∷ ps) s h =
    ap (λ t. on_turn t s (forward_to_peer platform (reads_of platform ps)))
      (on_read-device_frame platform p h.0.0)
    ∙ sent_then (send_packet p s) _ _ (λ t. forward_to_peer-reads_of platform ps t h.1)

sends_of-Fits : (ps : List Bytes) → All IsPacket ps → All Fits (sends_of ps)
sends_of-Fits [] h = tt
sends_of-Fits (p ∷ ps) h = (omega arith, sends_of-Fits ps h.1)

packets-sends_of : (ps : List Bytes) → packets_of (sends_of ps) ≡ ps
packets-sends_of [] = refl
packets-sends_of (p ∷ ps) = ap (λ qs. p ∷ qs) (packets-sends_of ps)

heartbeats-sends_of : (ps : List Bytes) → heartbeats_of (sends_of ps) ≡ []
heartbeats-sends_of [] = refl
heartbeats-sends_of (p ∷ ps) = heartbeats-sends_of ps

length-sends_of : (ps : List Bytes) → length (sends_of ps) ≡ length ps
length-sends_of [] = refl
length-sends_of (p ∷ ps) = ap suc (length-sends_of ps)

-- The receiving thread with these packets in front of it, and whether the reader thread still runs.
abbrev pub running_with : Bool → List Bytes → Device → Forwarder
running_with reading ps d = record {
  is_running = true;
  reading = reading;
  boxes = open_boxes [] ps;
  device = d;
}

write_device_lem :
    (platform : Platform) (p : Bytes) (d : Device)
    → d.write_fault ≡ none
    → write_device platform p d
      ≡ (true, record d { written = d.written ++ device_frame platform p ∷ [] })
write_device_lem platform p d works = rw works

pub receive_turns-running_with :
    (platform : Platform) (reading : Bool) (ps : List Bytes) (d : Device)
    → d.write_fault ≡ none
    → receive_turns platform (length ps) (running_with reading ps d)
      ≡ running_with reading [] (record d { written = d.written ++ device_frames platform ps })
unfolding receive_turns receive_turn receive_packet
receive_turns-running_with platform reading [] d works =
    ap (λ ws. running_with reading [] (record d { written = ws })) (sym (append-nil d.written))
receive_turns-running_with platform reading (p ∷ ps) d works =
    ap (λ x. receive_turns platform (length ps) (on_device reading x (open_boxes [] ps)))
      (write_device_lem platform p d works)
    ∙ receive_turns-running_with platform reading ps
        (record d { written = d.written ++ device_frame platform p ∷ [] }) works
    ∙ ap (λ ws. running_with reading [] (record d { written = ws }))
        (append_assoc d.written (device_frame platform p ∷ []) (device_frames platform ps))

-- Packets that the device of one side hands back, each of 1 to 65535 bytes, are sent over the session, are read
-- by the other side's thread, and stand on its device in the same order, each of them once and unchanged, whatever
-- the platforms of the two sides: the stream and the device can be written, and the threads take one turn for
-- each packet, the reader one more.
pub receive_turns-forward_to_peer :
    (here there : Platform) (reading : Bool) (ps : List Bytes) (s r : Stream) (d : Device)
    (fuel : ℕ)
    → All IsPacket ps
    → s.write_fault ≡ none
    → s.outgoing ≡ []
    → d.write_fault ≡ none
    → length ps + 1 ≤ fuel
    → receive_turns there (length ps) (record {
      is_running = true;
      reading = reading;
      boxes =
          read_loop fuel
            (record r { incoming = (forward_to_peer here (reads_of here ps) s).outgoing })
            (open_boxes [] []);
      device = d;
    })
      ≡ running_with reading [] (record d { written = d.written ++ device_frames there ps })
receive_turns-forward_to_peer here there reading ps s r d fuel packets fault start works enough =
    let sent = forward_to_peer-reads_of here ps s packets in
    let arrived : read_loop fuel
          (record r { incoming = (forward_to_peer here (reads_of here ps) s).outgoing })
          (open_boxes [] [])
        ≡ open_boxes [] ps =
      ap (λ (t : Stream). read_loop fuel (record r { incoming = t.outgoing }) (open_boxes [] []))
        sent
      ∙ read_loop-send_all (sends_of ps) fuel s r (sends_of-Fits ps packets) fault start
          (omega (arith, length-sends_of ps))
      ∙ ap (λ hs. open_boxes hs (packets_of (sends_of ps))) (heartbeats-sends_of ps)
      ∙ ap (λ qs. open_boxes [] qs) (packets-sends_of ps) in
    ap
      (λ boxes.
        receive_turns there (length ps)
          (record { is_running = true; reading = reading; boxes = boxes; device = d }))
      arrived
    ∙ receive_turns-running_with there reading ps d works
