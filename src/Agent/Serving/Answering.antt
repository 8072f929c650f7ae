-- ===== src/Agent/Serving/Answering.antt =====
-- A session of a host in src/main.rs that receives a ping.
use localscale.Prelude.{
  ℕ, ◌≤◌, ◌≡◌, refl, ap, ◌∙◌, true, false, none, List, [], ◌∷◌, ◌++◌, length, Bytes, codes,
  bytes_eq_self, ltb, arith, ok,
}
use localscale.Agent.Dialing.Answered.{packet_frames, arrive-packet_frames}
use localscale.Agent.Serving.{HostSession, HostInput, host_beat, on_arrived, on_host_ping, on_sent}
use localscale.Agent.Status.{PeerTransportStatus, record_peer_activity, set_remote_virtual_ip}
use localscale.Codec.Decimal.{u64_max}
use localscale.Protocol.Syntax.{Fields}
use localscale.Protocol.Validate.{abs_diff}
use localscale.Transport.Heartbeat.{heartbeat_frame, receive_ping}
use localscale.Transport.Heartbeat.RoundTrip.{parse_heartbeat-heartbeat_frame, heartbeat_frame-fits}
use localscale.Transport.Multiplex.{
  send_pong, write_multiplexed, channel_receive_ping, frame_kind_heartbeat,
}
use localscale.Transport.Multiplex.Delivery.{open_boxes}
use localscale.Transport.Wire.{Stream}
use localscale.Transport.Wire.Frames.{write_frame_lem, framed}

-- A session that runs and has received all heartbeats, with the packets that wait.
abbrev pub waiting_session : Bytes → PeerTransportStatus → Stream → List Bytes → HostSession
waiting_session peer status stream ps = record {
  peer_node_id = peer;
  session_status = status;
  stream = stream;
  reading = true;
  boxes = open_boxes [] ps;
  is_running = true;
}

-- A ping behind some packets.
abbrev pub pinged_with : List Bytes → Bytes → HostInput → HostInput
pinged_with qs ping i = record i {
  gate = true;
  arrived = packet_frames qs ++ (frame_kind_heartbeat ∷ ping) ∷ [];
}

module _ (local_node_id peer address peer_address : Bytes) (stamp n : ℕ) where
  abbrev ping : Bytes
  ping = heartbeat_frame (codes "ping") peer stamp n peer_address

  receive_lem :
      (now : ℕ) (ps : List Bytes)
      → Fields peer
      → Fields peer_address
      → stamp ≤ u64_max
      → n ≤ u64_max
      → ltb 30 (abs_diff now stamp) ≡ false
      → channel_receive_ping true (open_boxes (ping ∷ []) ps) peer now
        ≡ (ok (n, peer_address), open_boxes [] ps)
  unfolding channel_receive_ping receive_ping
  receive_lem now ps p v t s near =
      ap (λ r. (r, open_boxes [] ps))
        (parse_heartbeat-heartbeat_frame (codes "ping") peer peer_address stamp n (omega arith) p v
            t s (codes "ping") peer now
          ∙ rw (bytes_eq_self (codes "ping"), bytes_eq_self peer, near) (ground arith))

  -- A session of a host answers a ping of its peer, behind any row of packets, at most 30 seconds off its clock:
  -- it writes the pong with the same sequence number and the host's address, learns the address of the peer,
  -- counts two messages, delivers the packets and goes on. The gate is open, the stream can be written, and
  -- the texts of the pong are at most 1000 bytes long.
  pub host_beat-heartbeat_frame :
      (i : HostInput) (status : PeerTransportStatus) (stream : Stream) (qs ps : List Bytes)
      → Fields peer
      → Fields peer_address
      → stamp ≤ u64_max
      → n ≤ u64_max
      → ltb 30 (abs_diff i.received_at stamp) ≡ false
      → stream.write_fault ≡ none
      → length local_node_id ≤ 1000
      → length address ≤ 1000
      → host_beat local_node_id
          (pinged_with qs ping i)
          address
          (waiting_session peer status stream ps)
        ≡ waiting_session peer
            (record_peer_activity i.now 2 (set_remote_virtual_ip peer_address status))
            (record stream {
              outgoing =
                  stream.outgoing
                  ++ framed (
                      frame_kind_heartbeat
                      ∷ heartbeat_frame (codes "pong") local_node_id i.sent_at n address);
            })
            (ps ++ qs)
  unfolding host_beat send_pong write_multiplexed
  host_beat-heartbeat_frame i status stream qs ps p v t s near fault short short' =
      let j = pinged_with qs ping i in
      let w = waiting_session peer status stream ps in
      let w' = waiting_session peer (set_remote_virtual_ip peer_address status) stream (ps ++ qs) in
      ap (λ r. on_arrived local_node_id j address r w) (arrive-packet_frames qs ps ping)
      ∙ ap (λ r. on_host_ping local_node_id j address r w)
          (receive_lem i.received_at (ps ++ qs) p v t s near)
      ∙ ap (λ x. on_sent i.now x w')
          (write_frame_lem
            (frame_kind_heartbeat
              ∷ heartbeat_frame (codes "pong") local_node_id i.sent_at n address)
            stream
            (heartbeat_frame-fits (codes "pong") local_node_id address i.sent_at n refl short
              short')
            fault)
