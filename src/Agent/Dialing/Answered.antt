-- ===== src/Agent/Dialing/Answered.antt =====
-- A session of the dialing thread of src/main.rs with a host that answers.
use localscale.Prelude.{
  ℕ, ◌+◌, ◌*◌, ◌%◌, ◌^◌, ◌≤◌, ◌<◌, ◌≡◌, refl, ap, sym, subst, ◌∙◌, Bool, true, false, Option, none,
  some, List, [], ◌∷◌, ◌++◌, append_assoc, append-nil, All, Bytes, codes, bytes_eq_self, arith, ok,
  err, length, ltb,
}
use localscale.Agent.Dialing.{
  Dialer, Session, Input, iterations, iteration, arrive, await, on_ping, on_pong, new_session,
}
use localscale.Agent.Status.{
  PeerTransportStatus, set, record_peer_activity, set_remote_virtual_ip, set_local_virtual_ip,
}
use localscale.Codec.Decimal.{u64_max}
use localscale.Protocol.Frame.{max_frame_size}
use localscale.Protocol.Syntax.{Fields}
use localscale.Protocol.Validate.{abs_diff}
use localscale.Transport.Action.{TransportError}
use localscale.Transport.Heartbeat.{heartbeat_frame, receive_pong}
use localscale.Transport.Heartbeat.RoundTrip.{receive_pong-heartbeat_frame, heartbeat_frame-fits}
use localscale.Transport.Multiplex.{
  send_ping, channel_receive_pong, route, write_multiplexed, frame_kind_heartbeat,
  frame_kind_packet,
}
use localscale.Transport.Multiplex.Delivery.{open_boxes}
use localscale.Transport.Wire.{Stream}
use localscale.Transport.Wire.Frames.{write_frame_lem, framed}

-- What a host that answers a ping sends, and what the client reads around it.
pub record Answer : Type 0 where
  pub local_address : Bytes
  pub sent_at : ℕ
  pub packets : List Bytes
  pub stamp : ℕ
  pub address : Bytes
  pub received_at : ℕ
  pub now : Option ℕ
  pub gate_after : Bool

abbrev pub packet_frames : List Bytes → List Bytes
packet_frames [] = []
packet_frames (p ∷ ps) = (frame_kind_packet ∷ p) ∷ packet_frames ps

-- Packets, and then the pong.
abbrev pub input_of : Bytes → ℕ → Answer → Input
input_of peer n a = record {
  gate = true;
  connection = err TransportError.timeout;
  local_address = a.local_address;
  sent_at = a.sent_at;
  arrived =
      packet_frames a.packets
      ++ (frame_kind_heartbeat ∷ heartbeat_frame (codes "pong") peer a.stamp n a.address) ∷ [];
  received_at = a.received_at;
  now = a.now;
  gate_after = a.gate_after;
}

abbrev pub next : ℕ → ℕ
next n = (n + 1) % 2 ^ 64

abbrev pub inputs_of : Bytes → ℕ → List Answer → List Input
inputs_of peer n [] = []
inputs_of peer n (a ∷ answers) = input_of peer (next n) a ∷ inputs_of peer (next n) answers

abbrev pub all_packets : List Answer → List Bytes
all_packets [] = []
all_packets (a ∷ answers) = a.packets ++ all_packets answers

-- A pong with a clock at most 30 seconds away, and addresses that fit into a heartbeat.
abbrev pub IsPrompt : Answer → Type 0
IsPrompt a =
    Fields a.address
    × ((a.stamp ≤ u64_max)
        × ((ltb 30 (abs_diff a.received_at a.stamp) ≡ false) × (length a.local_address ≤ 1000)))

abbrev pub running : Stream → List Bytes → ℕ → Session
running stream ps n = record {
  stream = stream;
  reading = true;
  boxes = open_boxes [] ps;
  sequence = n;
}

-- The session goes on after this many beats, without a failure or a sleep between attempts, with these packets.
abbrev pub GoesOn : ℕ → ℕ → List Bytes → Dialer → Dialer → Type 0
GoesOn n m ps d r =
    (r.failures ≡ d.failures)
    × ((r.delays ≡ d.delays)
        × ((r.status.messages_exchanged ≡ m)
            × ((stream : Stream) × (r.session ≡ some (running stream ps n)))))

pub arrive-packet_frames :
    (qs ps : List Bytes) (p : Bytes)
    → arrive (packet_frames qs ++ (frame_kind_heartbeat ∷ p) ∷ []) (true, open_boxes [] ps)
      ≡ (true, open_boxes (p ∷ []) (ps ++ qs))
unfolding arrive route
arrive-packet_frames [] ps p = ap (λ qs. (true, open_boxes (p ∷ []) qs)) (rw append-nil)
arrive-packet_frames (q ∷ qs) ps p =
    arrive-packet_frames qs (ps ++ q ∷ []) p
    ∙ ap (λ rs. (true, open_boxes (p ∷ []) rs)) (append_assoc ps (q ∷ []) qs)

module _ (node peer : Bytes) (peer_text : Fields peer) (node_short : length node ≤ 1000) where
  abbrev ping : ℕ → Answer → Bytes
  ping n a = heartbeat_frame (codes "ping") node a.sent_at n a.local_address

  ping-fits :
      (n : ℕ) (a : Answer) → IsPrompt a → length (frame_kind_heartbeat ∷ ping n a) ≤ max_frame_size
  ping-fits n a h =
      heartbeat_frame-fits (codes "ping") node a.local_address a.sent_at n refl node_short h.1.1.1

  send_ping_lem :
      (n : ℕ) (a : Answer) (stream : Stream)
      → IsPrompt a
      → stream.write_fault ≡ none
      → send_ping a.sent_at node n a.local_address stream ≡ (
        ok tt,
        record stream { outgoing = stream.outgoing ++ framed (frame_kind_heartbeat ∷ ping n a) },
      )
  unfolding send_ping write_multiplexed
  send_ping_lem n a stream h fault =
      write_frame_lem (frame_kind_heartbeat ∷ ping n a) stream (ping-fits n a h) fault

  receive_lem :
      (n : ℕ) (a : Answer) (ps : List Bytes)
      → IsPrompt a
      → n ≤ u64_max
      → channel_receive_pong true
          (open_boxes (heartbeat_frame (codes "pong") peer a.stamp n a.address ∷ []) ps)
          peer
          n
          a.received_at
        ≡ (ok a.address, open_boxes [] ps)
  unfolding channel_receive_pong
  receive_lem n a ps h fits =
      let pong : receive_pong (heartbeat_frame (codes "pong") peer a.stamp n a.address) peer n
            a.received_at
          ≡ ok a.address =
        receive_pong-heartbeat_frame peer a.address peer a.stamp n n a.received_at peer_text h.0
          h.1.0 fits
        ∙ rw (bytes_eq_self peer, h.1.1.0) (ground arith) in
      ap (λ r. (r, open_boxes [] ps)) pong

  abbrev answered_status : Answer → PeerTransportStatus → PeerTransportStatus
  answered_status a t =
      record_peer_activity a.now 2
        (set_remote_virtual_ip a.address (set_local_virtual_ip a.local_address t))

  -- The state of a session that is answered.
  abbrev in_session : Stream → List Bytes → ℕ → Dialer → Dialer
  in_session stream ps n d = record d { session = some (running stream ps n) }

  abbrev pinged : ℕ → Answer → Stream → Stream
  pinged n a stream = record stream {
    outgoing = stream.outgoing ++ framed (frame_kind_heartbeat ∷ ping n a);
  }

  iteration-input_of :
      (n : ℕ) (a : Answer) (stream : Stream) (ps : List Bytes) (d : Dialer)
      → IsPrompt a
      → stream.write_fault ≡ none
      → iteration node peer (input_of peer (next n) a) (in_session stream ps n d)
        ≡ in_session
            (pinged (next n) a stream)
            (ps ++ a.packets)
            (next n)
            (record d { status = answered_status a d.status })
  unfolding iteration
  iteration-input_of n a stream ps d h fault =
      let i = input_of peer (next n) a in
      let s = running stream ps (next n) in
      let t = running (pinged (next n) a stream) ps (next n) in
      let d' = record d {
        status = set_local_virtual_ip a.local_address d.status;
        session = some (running stream ps n);
      } in
      ap (λ x. on_ping node peer i x s d') (send_ping_lem (next n) a stream h fault)
      ∙ ap (λ r. await node peer i r t d')
          (arrive-packet_frames a.packets ps
            (heartbeat_frame (codes "pong") peer a.stamp (next n) a.address))
      ∙ ap (λ r. on_pong i r t d') (receive_lem (next n) a (ps ++ a.packets) h (omega arith))

  iterations-in_session :
      (answers : List Answer) (n : ℕ) (stream : Stream) (ps : List Bytes) (d : Dialer)
      → All IsPrompt answers
      → stream.write_fault ≡ none
      → n < 2 ^ 64
      → d.status.messages_exchanged < 2 ^ 64
      → GoesOn
          ((n + length answers) % 2 ^ 64)
          ((d.status.messages_exchanged + 2 * length answers) % 2 ^ 64)
          (ps ++ all_packets answers)
          d
          (iterations node peer (inputs_of peer n answers) (in_session stream ps n d))
  unfolding iterations record_peer_activity set set_remote_virtual_ip set_local_virtual_ip
  iterations-in_session [] n stream ps d h fault small few = (
    refl,
    (
      refl,
      (
        omega arith,
        (
          stream,
          ap (λ qs. some (running stream qs n)) (sym (append-nil ps))
              ∙ ap (λ k. some (running stream (ps ++ []) k)) (omega arith),
        ),
      ),
    ),
  )
  iterations-in_session (a ∷ answers) n stream ps d h fault small few =
      let d' = record d { status = answered_status a d.status } in
      let m = d.status.messages_exchanged in
      let rest = iterations node peer (inputs_of peer (next n) answers) in
      let goes_on : GoesOn ((next n + length answers) % 2 ^ 64)
          (((m + 2) % 2 ^ 64 + 2 * length answers) % 2 ^ 64)
          ((ps ++ a.packets) ++ all_packets answers) d'
          (rest (in_session (pinged (next n) a stream) (ps ++ a.packets) (next n) d')) =
        iterations-in_session answers (next n) (pinged (next n) a stream) (ps ++ a.packets) d' h.1
          fault (omega arith) (omega arith) in
      let r = rest (iteration node peer (input_of peer (next n) a) (in_session stream ps n d)) in
      let started =
        subst
          (λ x.
            GoesOn ((next n + length answers) % 2 ^ 64)
              (((m + 2) % 2 ^ 64 + 2 * length answers) % 2 ^ 64)
              ((ps ++ a.packets) ++ all_packets answers) d' (rest x))
          (sym (iteration-input_of n a stream ps d h.0 fault)) goes_on in
      (
        started.0,
        (
          started.1.0,
          (
            started.1.1.0 ∙ omega arith,
            (
              started.1.1.1.0,
              started.1.1.1.1
                  ∙ ap
                      (λ qs. some (running started.1.1.1.0 qs ((next n + length answers) % 2 ^ 64)))
                      (append_assoc ps a.packets (all_packets answers))
                  ∙ ap
                      (λ k.
                        some (running started.1.1.1.0 (ps ++ (a.packets ++ all_packets answers)) k))
                      (omega arith),
            ),
          ),
        ),
      )

  -- While the gate is open, the client can write, and the host answers each ping with its sequence number, at
  -- most 30 seconds off the client's clock and behind any row of packets, the session of a client whose node id
  -- is at most 1000 bytes long goes on: no failure is counted and no attempt is waited for, each beat counts two
  -- messages and one sequence number, modulo 2^64, and all packets are delivered in order.
  pub iterations-inputs_of :
      (answers : List Answer) (stream : Stream) (d : Dialer)
      → All IsPrompt answers
      → stream.write_fault ≡ none
      → d.status.messages_exchanged < 2 ^ 64
      → GoesOn
          (length answers % 2 ^ 64)
          ((d.status.messages_exchanged + 2 * length answers) % 2 ^ 64)
          (all_packets answers)
          d
          (iterations node peer
            (inputs_of peer 0 answers)
            (record d { session = some (new_session stream) }))
  iterations-inputs_of answers stream d h fault few =
      subst
        (λ n.
          GoesOn (n % 2 ^ 64) ((d.status.messages_exchanged + 2 * length answers) % 2 ^ 64)
            (all_packets answers) d
            (iterations node peer (inputs_of peer 0 answers)
              (record d { session = some (new_session stream) })))
        (omega arith) (iterations-in_session answers 0 stream [] d h fault (omega arith) few)
