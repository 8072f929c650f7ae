-- ===== src/Transport/Handshake.antt =====
-- The handshake of `ClienteTransport::connect` with `HostTransport::accept`, behind the SOCKS tunnel:
-- what one side writes is what the other side reads.
pub mod Tests
use localscale.Prelude.{
  ℕ, ◌+◌, ◌*◌, ◌/◌, ◌%◌, ◌≤◌, ◌≡◌, refl, ap, sym, ◌∙◌, true, false, Option, none, some, List, [],
  ◌∷◌, ◌++◌, append-nil, arith, Bytes, All, all, length, Result, ok, err, if◌then◌else◌,
}
use localscale.Prelude.Table.{lookup}
use localscale.Codec.Hex.{hex, hex_digit, length-hex}
use localscale.Codec.Decimal.{u64_max}
use localscale.Protocol.Syntax.{valid_node_id, valid_nonce, is_hexdigit, length-valid_node_id}
use localscale.Protocol.Message.{
  Message, handshake_init, handshake_response, encode_message, IsValid,
}
use localscale.Protocol.Message.RoundTrip.{length-encode_message}
use localscale.Protocol.Frame.{max_frame_size}
use localscale.Protocol.Validate.{Role, host, cliente}
use localscale.Protocol.Envelope.{nonce_len, envelope_bytes}
use localscale.Protocol.Envelope.RoundTrip.{length-envelope_bytes}
use localscale.Protocol.Crypto.{
  Aead, CryptoKey, HandshakeEnvelope, mem, seal_unchecked, envelope_from_bytes, open_envelope,
}
use localscale.Protocol.Crypto.Sealing.{
  IsAead, open-seal, envelope_from_bytes-seal, seal_unchecked_short,
}
use localscale.Transport.Action.{TransportError}
use localscale.Transport.Wire.{Stream}
use localscale.Transport.Wire.Frames.{framed}
use localscale.Transport.Session.{AuthenticatedStream, Candidates, session_nonce, tag_of, unlock}
use localscale.Transport.Session.Unlock.{Fails, seal_unlock}
use localscale.Transport.Host
use localscale.Transport.Host.{Allocator, HostTransport, is_open, accept_stream}
use localscale.Transport.Host.Accept
use localscale.Transport.Host.Accept.{accept_stream_lem}
use localscale.Transport.Cliente
use localscale.Transport.Cliente.{ClienteTransport, send_init, receive_response}
use localscale.Transport.Cliente.Exchange
use localscale.Transport.Cliente.Exchange.{send_init_lem, receive_response_lem}

hex_digit_hexdigit : (n : ℕ) → n ≤ 15 → is_hexdigit (hex_digit n) ≡ true
unfolding hex_digit
hex_digit_hexdigit n h = ground arith

hex_hexdigits : (bs : Bytes) → all is_hexdigit (hex bs) ≡ true
unfolding hex
hex_hexdigits [] = refl
hex_hexdigits (b ∷ bs) = rw (
  hex_digit_hexdigit (b / 16 % 16) (omega arith),
  hex_digit_hexdigit (b % 16) (omega arith),
  hex_hexdigits bs,
)

-- The text of a 24-byte nonce is a nonce of a message.
valid_nonce-hex : (nonce : Bytes) → length nonce ≡ nonce_len → valid_nonce (hex nonce) ≡ true
unfolding valid_nonce
valid_nonce-hex nonce h = rw (length-hex nonce, h, hex_hexdigits nonce)

-- The texts of the handshake are short.
short_text :
    (node nonce : Bytes) (stamp : ℕ)
    → valid_node_id node ≡ true
    → length nonce ≡ nonce_len
    → (length (encode_message (handshake_init node stamp (hex nonce))) ≤ 1000)
      × (length (encode_message (handshake_response node stamp (hex nonce))) ≤ 1000)
short_text node nonce stamp valid len = omega (
  arith,
  length-encode_message node (hex nonce) stamp,
  length-valid_node_id node valid,
  length-hex nonce,
)

module _ (aead : Aead) (ac ah : Allocator) (t : ClienteTransport ac.State)
    (h : HostTransport ah.State) (cs hs : Stream) (nonce : Bytes) (sent now received : ℕ) where
  -- The client sends its init.
  abbrev pub request : Result TransportError (Unit {0}) × Cliente.Connection ac.State
  request = send_init aead ac nonce sent (record { transport = t; stream = cs })

  -- The host accepts what the client wrote.
  abbrev pub admitted : Result TransportError AuthenticatedStream × Host.Connection ah.State
  admitted =
      accept_stream aead ah now
        (record { transport = h; stream = record hs { incoming = request.1.stream.outgoing } })

  -- The client reads what the host wrote.
  abbrev pub answer : Result TransportError AuthenticatedStream × Cliente.Connection ac.State
  answer = receive_response aead ac nonce received (record {
    transport = request.1.transport;
    stream = record (request.1.stream) { incoming = admitted.1.stream.outgoing };
  })

  module _ (laws : IsAead aead) (cf hf : Bytes) (cn : ac.State) (hn : ah.State)
      (front behind : Candidates) (tag : Bytes) (key : CryptoKey)
      (client_ready : (cs.outgoing ≡ []) × (cs.write_fault ≡ none))
      (host_ready : (hs.outgoing ≡ []) × (hs.write_fault ≡ none) × (hs.deadline_fault ≡ none))
      (gate : is_open h.acceptance_gate ≡ true)
      (ids : (valid_node_id t.node_id ≡ true)
        × (valid_node_id h.node_id ≡ true)
        × (t.host_node_id ≡ h.node_id))
      (clocks : (sent ≤ u64_max) × (now ≤ u64_max))
      (sizes : (length nonce ≡ nonce_len) × (length cf ≡ nonce_len) × (length hf ≡ nonce_len))
      (client_nonce : (ac.allocate t.allocator ≡ (ok cf, cn)) × (mem cf t.key.used_nonces ≡ false))
      (host_nonce : (ah.allocate h.allocator ≡ (ok hf, hn)) × (mem hf key.used_nonces ≡ false))
      (offered : h.resolver t.node_id ≡ front ++ (tag, key) ∷ behind)
      (others : (e : HandshakeEnvelope)
        → seal_unchecked aead t.key cliente t.node_id cf
            (encode_message (handshake_init t.node_id sent (hex nonce)))
          ≡ ok e
        → All (Fails aead e t.node_id) front)
      (shared : key.secret ≡ t.key.secret) (unseen : lookup (hex nonce) h.replay.seen ≡ none)
      (unused : lookup (session_nonce cf) h.replay.sessions ≡ none)
      (to_host : (sent ≤ now + 300) × (now ≤ sent + 300))
      (to_client : (now ≤ received + 300) × (received ≤ now + 300)) where
    abbrev init : Bytes
    init = encode_message (handshake_init t.node_id sent (hex nonce))

    abbrev reply : Bytes
    reply = encode_message (handshake_response h.node_id now (hex nonce))

    init-IsValid : IsValid (handshake_init t.node_id sent (hex nonce))
    init-IsValid = (ids.0, (clocks.0, valid_nonce-hex nonce sizes.0))

    reply-IsValid : IsValid (handshake_response t.host_node_id now (hex nonce))
    reply-IsValid = (rw (ids.2) ids.1, (clocks.1, valid_nonce-hex nonce sizes.0))

    module _ (e a : HandshakeEnvelope)
        (made : seal_unchecked aead t.key cliente t.node_id cf init ≡ ok e)
        (fits : length e.bytes ≤ max_frame_size) (named : e.nonce ≡ cf)
        (unlocked : unlock aead h.resolver e.bytes
          ≡ ok (record {
            envelope = e;
            opened = record { plaintext = init; key = key; tag = tag_of tag };
          }))
        (replied : seal_unchecked aead key host h.node_id hf reply ≡ ok a)
        (answer_fits : length a.bytes ≤ max_frame_size) where
      request_lem : request ≡ (ok tt, Exchange.sent aead ac t cs e nonce cf sent cn)
      request_lem =
          send_init_lem aead ac t cs e nonce cf sent cn client_ready.1 fits client_nonce.0
            client_nonce.1 ids.0 made

      -- What one side wrote, as the other side receives it.
      written :
          (o : Bytes) (x : HandshakeEnvelope) → o ≡ [] → o ++ framed x.bytes ≡ framed x.bytes ++ []
      written o x empty = rw (empty, append-nil)

      sent_bytes : request.1.stream.outgoing ≡ framed e.bytes ++ []
      sent_bytes = ap (λ r. r.1.stream.outgoing) request_lem ∙ written cs.outgoing e client_ready.0

      admitted_lem : admitted ≡ (
        ok (record { peer_node_id = t.node_id; matched_key_tag = tag_of tag }),
        Accept.done aead ah h hs [] e a key (tag_of tag) t.node_id (hex nonce) hf sent now hn,
      )
      admitted_lem =
          ap
            (λ (b : Bytes).
              accept_stream aead ah now
                (record { transport = h; stream = record hs { incoming = b } }))
            sent_bytes
          ∙ accept_stream_lem aead ah h hs [] e a key (tag_of tag) t.node_id (hex nonce) hf sent now
              hn gate (host_ready.2) (host_ready.1) fits answer_fits unlocked init-IsValid
              (to_host.0) (to_host.1) unseen (rw named unused) (host_nonce.0) (host_nonce.1) ids.1
              replied

      answer_bytes : admitted.1.stream.outgoing ≡ framed a.bytes ++ []
      answer_bytes = ap (λ r. r.1.stream.outgoing) admitted_lem ∙ written hs.outgoing a host_ready.0

      abbrev parts : Cliente.Connection ac.State
      parts = Exchange.drawn aead ac t cs e nonce cf sent cn

      abbrev used : Cliente.Connection ac.State
      used = Exchange.sent aead ac t cs e nonce cf sent cn

      answer_opens :
          open_envelope aead a parts.transport.key host t.host_node_id
          ≡ ok (encode_message (handshake_response t.host_node_id now (hex nonce)))
      answer_opens = rw ids.2 (
          open-seal aead laws key parts.transport.key host h.node_id hf reply a (sym shared) ids.1
            sizes.2 (omega (arith, (short_text h.node_id nonce now ids.1 sizes.0).1)) replied)

      answer_lem : answer.0 ≡ ok (record { peer_node_id = h.node_id; matched_key_tag = none })
      answer_lem =
          ap
            (λ (r : Result TransportError (Unit {0}) × Cliente.Connection ac.State).
              (receive_response aead ac nonce received (record {
                transport = r.1.transport;
                stream = record (r.1.stream) { incoming = admitted.1.stream.outgoing };
              })).0)
            request_lem
          ∙ ap
              (λ (b : Bytes).
                (receive_response aead ac nonce received (record {
                  transport = parts.transport;
                  stream = record (used.stream) { incoming = b };
                })).0)
              answer_bytes
          ∙ ap (λ r. r.0)
              (receive_response_lem aead ac parts.transport used.stream a nonce [] now received
                answer_fits
                (envelope_from_bytes-seal aead laws key parts.transport.key host h.node_id hf reply
                  a (sym shared) ids.1 sizes.2
                  (omega (arith, (short_text h.node_id nonce now ids.1 sizes.0).1)) replied)
                answer_opens reply-IsValid to_client.0 to_client.1)
          ∙ ap (λ (n : Bytes). ok (record { peer_node_id = n; matched_key_tag = none })) ids.2

    -- A client and a host that share a key, over streams that work: the client's init is sent, the host
    -- accepts it for the client's node id with the tag of the key, and the client accepts the host's
    -- answer. The candidates before the shared key do not open the init; the nonces of both sides are
    -- fresh; the clocks of the init and of its answer are at most 300 seconds apart.
    pub handshake_completes :
        (request.0 ≡ ok tt)
        × (admitted.0 ≡ ok (record { peer_node_id = t.node_id; matched_key_tag = tag_of tag }))
        × (answer.0 ≡ ok (record { peer_node_id = h.node_id; matched_key_tag = none }))
    handshake_completes =
        let short = (short_text t.node_id nonce sent ids.0 sizes.0).0 in
        let short' = (short_text h.node_id nonce now ids.1 sizes.0).1 in
        let (e, made, named, size, unlocks) =
          seal_unlock aead laws t.key t.node_id cf init ids.0 sizes.1 (omega (arith, short)) in
        let (p, replied, shape, same, size') =
          seal_unchecked_short aead laws key host h.node_id hf reply ids.1 sizes.2
            (omega (arith, short')) in
        let a : HandshakeEnvelope = record { bytes = envelope_bytes p; nonce = hf } in
        let fits : length e.bytes ≤ max_frame_size = omega (arith, size, short) in
        let answer_fits : length a.bytes ≤ max_frame_size = omega (
          arith,
          length-envelope_bytes p shape,
          length-valid_node_id p.node_id shape.node_valid,
          size',
          short',
        ) in
        let unlocked = unlocks h.resolver front behind tag key offered (others e made) shared in
        (
          ap (λ r. r.0) (request_lem e a made fits named unlocked replied answer_fits),
          ap (λ r. r.0) (admitted_lem e a made fits named unlocked replied answer_fits),
          answer_lem e a made fits named unlocked replied answer_fits,
        )
