-- ===== src/Transport/Heartbeat/RoundTrip.antt =====
-- A heartbeat that one side sends is understood by the other side.
use localscale.Prelude.{
  ℕ, ◌≤◌, ◌≡◌, refl, ap, ◌∙◌, true, List, [], ◌∷◌, ◌++◌, arith, Bytes, codes, All, bytes_eq,
  bytes_eq_self, ok, err, length, length-append, suc, ltb, if◌then◌else◌, ◌&&◌, ◌==◌,
}
use localscale.Codec.Utf8.{is_utf8, is_utf8_ascii}
use localscale.Codec.Fields.{split, split-join, join}
use localscale.Codec.Decimal.{decimal, length-decimal, parse_u64-decimal, u64_max}
use localscale.Protocol.Frame.{max_frame_size}
use localscale.Protocol.Syntax.{Fields}
use localscale.Protocol.Message.{version}
use localscale.Protocol.Message.RoundTrip.{decimal-Fields, join-IsAscii, All-Lacks}
use localscale.Protocol.Validate.{abs_diff}
use localscale.Transport.Action.{protocol}
use localscale.Transport.Heartbeat.{
  heartbeat_frame, parse_fields, parse_heartbeat, receive_pong, receive_ping,
}

version_tag : bytes_eq (codes "v1") (codes "v" ++ decimal version) ≡ true
unfolding bytes_eq decimal
version_tag = refl

module _ (kind node virtual_ip : Bytes) (timestamp sequence : ℕ) (kind_text : Fields kind)
    (node_text : Fields node) (ip_text : Fields virtual_ip) (stamp_fits : timestamp ≤ u64_max)
    (sequence_fits : sequence ≤ u64_max) where
  abbrev sent : Bytes
  sent = heartbeat_frame kind node timestamp sequence virtual_ip

  abbrev sent_fields : List Bytes
  sent_fields = kind ∷ node ∷ decimal timestamp ∷ decimal sequence ∷ virtual_ip ∷ []

  sent-join : sent ≡ join b'|' (codes "v1" ∷ sent_fields)
  unfolding heartbeat_frame decimal
  sent-join = refl

  clean : All Fields (codes "v1" ∷ sent_fields)
  clean = (
    omega arith,
    (kind_text, (node_text, (decimal-Fields timestamp, (decimal-Fields sequence, (ip_text, tt))))),
  )

  -- A heartbeat with clean texts and 64-bit numbers is accepted exactly by a receiver that expects its
  -- kind and its sender and whose clock is at most 30 seconds away; it yields the sequence number and
  -- the virtual address.
  pub parse_heartbeat-heartbeat_frame :
      (expected_kind expected_node : Bytes) (now : ℕ)
      → parse_heartbeat sent expected_kind expected_node now ≡ (
          if bytes_eq kind expected_kind && bytes_eq node expected_node
          then (if ltb 30 (abs_diff now timestamp)
              then err (protocol "stale heartbeat")
              else ok (sequence, virtual_ip))
          else err (protocol "invalid heartbeat"))
  unfolding parse_heartbeat parse_fields
  parse_heartbeat-heartbeat_frame expected_kind expected_node now =
      let ascii : is_utf8 sent ≡ true =
        rw sent-join (is_utf8_ascii _ (join-IsAscii (codes "v1" ∷ sent_fields) clean)) in
      let cut : split b'|' sent ≡ codes "v1" ∷ sent_fields =
        ap (λ (t : Bytes). split b'|' t) sent-join
        ∙ split-join b'|' (codes "v1") sent_fields (All-Lacks (codes "v1" ∷ sent_fields) clean) in
      rw (
        ascii,
        cut,
        version_tag,
        parse_u64-decimal timestamp stamp_fits,
        parse_u64-decimal sequence sequence_fits,
      )

-- A pong that was sent with clean texts and 64-bit numbers acknowledges a ping exactly when it comes
-- from the expected peer, at most 30 seconds away from the receiver's clock, with the expected
-- sequence number; each other case has its own error.
pub receive_pong-heartbeat_frame :
    (node virtual_ip peer : Bytes) (timestamp sequence expected now : ℕ)
    → Fields node
    → Fields virtual_ip
    → timestamp ≤ u64_max
    → sequence ≤ u64_max
    → receive_pong
        (heartbeat_frame (codes "pong") node timestamp sequence virtual_ip)
        peer
        expected
        now
      ≡ (if bytes_eq node peer
          then (if ltb 30 (abs_diff now timestamp)
              then err (protocol "stale heartbeat")
              else if sequence == expected
              then ok virtual_ip
              else err (protocol "unexpected pong sequence"))
          else err (protocol "invalid heartbeat"))
unfolding receive_pong
receive_pong-heartbeat_frame node virtual_ip peer timestamp sequence expected now n v t s =
    let parsed =
      parse_heartbeat-heartbeat_frame (codes "pong") node virtual_ip timestamp sequence
        (omega arith) n v t s (codes "pong") peer now in
    rw (parsed, bytes_eq_self (codes "pong")) (ground arith)

-- A ping frame is never taken for a pong, nor a pong for a ping.
pub heartbeat_kinds :
    (node virtual_ip peer : Bytes) (timestamp sequence expected now : ℕ)
    → Fields node
    → Fields virtual_ip
    → timestamp ≤ u64_max
    → sequence ≤ u64_max
    → (receive_pong
          (heartbeat_frame (codes "ping") node timestamp sequence virtual_ip)
          peer
          expected
          now
        ≡ err (protocol "invalid heartbeat"))
      × (receive_ping (heartbeat_frame (codes "pong") node timestamp sequence virtual_ip) peer now
          ≡ err (protocol "invalid heartbeat"))
unfolding receive_pong receive_ping bytes_eq
heartbeat_kinds node virtual_ip peer timestamp sequence expected now n v t s = (
  rw (
      parse_heartbeat-heartbeat_frame (codes "ping") node virtual_ip timestamp sequence
        (omega arith) n v t s (codes "pong") peer now),
  rw (
      parse_heartbeat-heartbeat_frame (codes "pong") node virtual_ip timestamp sequence
        (omega arith) n v t s (codes "ping") peer now),
)

-- A heartbeat of short texts fits into a frame, with its kind byte.
pub heartbeat_frame-fits :
    (kind node virtual_ip : Bytes) (timestamp sequence : ℕ)
    → length kind ≡ 4
    → length node ≤ 1000
    → length virtual_ip ≤ 1000
    → suc (length (heartbeat_frame kind node timestamp sequence virtual_ip)) ≤ max_frame_size
unfolding heartbeat_frame
heartbeat_frame-fits kind node virtual_ip timestamp sequence k n v =
    let stamp = length-decimal timestamp in
    let number = length-decimal sequence in
    let version_digits = length-decimal version in
    rw
      (
        length-append (decimal version) (codes "|" ++ (kind ++ behind_kind)),
        length-append kind behind_kind,
        length-append node behind_node,
        length-append (decimal timestamp)
            (codes "|" ++ (decimal sequence ++ (codes "|" ++ virtual_ip))),
        length-append (decimal sequence) (codes "|" ++ virtual_ip),
      )
      (omega arith)
  where
    behind_node : Bytes
    behind_node =
        codes "|"
        ++ (decimal timestamp ++ (codes "|" ++ (decimal sequence ++ (codes "|" ++ virtual_ip))))

    behind_kind : Bytes
    behind_kind = codes "|" ++ (node ++ behind_node)
