-- ===== src/Transport/Cliente/Exchange.antt =====
-- The two halves of `connect` behind the SOCKS tunnel.
use localscale.Prelude.{
  ℕ, ◌+◌, ◌≤◌, ◌≡◌, refl, ap, ◌∙◌, true, false, none, ◌∷◌, ◌++◌, Bytes, length, bytes_eq_self,
  Result, ok, map_err,
}
use localscale.Codec.Hex.{hex}
use localscale.Protocol.Syntax.{valid_node_id}
use localscale.Protocol.Message.{
  Message, handshake_init, handshake_response, encode_message, parse_message, IsValid,
}
use localscale.Protocol.Message.RoundTrip.{parse_message-encode_message}
use localscale.Protocol.Frame.{max_frame_size}
use localscale.Protocol.Validate.{host, cliente, validate_message, validate_message_complete}
use localscale.Protocol.Crypto.{
  Aead, HandshakeEnvelope, mem, seal_unchecked, envelope_from_bytes, open_envelope,
}
use localscale.Protocol.Crypto.Sealing.{seal_with_allocator_lem}
use localscale.Transport.Action.{
  TransportError, Action, ◌>>=◌, bind_ok, lift, crypto, parse, validation,
}
use localscale.Transport.Wire
use localscale.Transport.Wire.{Stream}
use localscale.Transport.Wire.Frames.{framed, read_frame-framed, write_frame_lem}
use localscale.Transport.Session.{AuthenticatedStream}
use localscale.Transport.Host.{Allocator}
use localscale.Transport.Cliente.{
  ClienteTransport, Connection, on_stream, seal_init, send_init, receive_response, check_response,
}

module _ (aead : Aead) (alloc : Allocator) (t : ClienteTransport alloc.State) (s : Stream) where
  module _ (envelope : HandshakeEnvelope) (nonce fresh : Bytes) (now : ℕ) (next : alloc.State) where
    abbrev pub init_text : Bytes
    init_text = encode_message (handshake_init t.node_id now (hex nonce))

    abbrev start : Connection alloc.State
    start = record { transport = t; stream = s }

    abbrev pub drawn : Connection alloc.State
    drawn = record {
      transport = record t {
        key = record (t.key) { used_nonces = fresh ∷ t.key.used_nonces };
        allocator = next;
      };
      stream = s;
    }

    abbrev pub sent : Connection alloc.State
    sent = record drawn { stream = record s { outgoing = s.outgoing ++ framed envelope.bytes } }

    module _ (writes : s.write_fault ≡ none) (fits : length envelope.bytes ≤ max_frame_size)
        (allocated : alloc.allocate t.allocator ≡ (ok fresh, next))
        (new : mem fresh t.key.used_nonces ≡ false) (valid : valid_node_id t.node_id ≡ true)
        (sealed : seal_unchecked aead t.key cliente t.node_id fresh init_text ≡ ok envelope) where
      seal_step : seal_init aead alloc init_text start ≡ (ok envelope, drawn)
      unfolding seal_init
      seal_step = rw (
        allocated,
        seal_with_allocator_lem aead t.key cliente t.node_id fresh init_text new valid,
        sealed,
      )

      write_step : on_stream (Wire.write_frame envelope.bytes) drawn ≡ (ok tt, sent)
      write_step =
          ap
            (λ (r : Result TransportError (Unit {0}) × Stream).
              let c : Connection alloc.State = record {
                transport = drawn.transport;
                stream = r.1;
              } in
              (r.0, c))
            (write_frame_lem envelope.bytes s fits writes)

      -- The request is the sealed init in one frame, and its nonce is used up.
      pub send_init_lem : send_init aead alloc nonce now start ≡ (ok tt, sent)
      unfolding send_init
      send_init_lem =
          bind_ok (seal_init aead alloc init_text) (λ e. on_stream (Wire.write_frame e.bytes)) start
            seal_step
          ∙ write_step

  module _ (answer : HandshakeEnvelope) (nonce rest : Bytes) (stamp now : ℕ) where
    abbrev response : Message
    response = handshake_response t.host_node_id stamp (hex nonce)

    abbrev waiting : Connection alloc.State
    waiting = record { transport = t; stream = record s { incoming = framed answer.bytes ++ rest } }

    abbrev pub answered : Connection alloc.State
    answered = record { transport = t; stream = record s { incoming = rest } }

    abbrev peer : AuthenticatedStream
    peer = record { peer_node_id = t.host_node_id; matched_key_tag = none }

    -- The steps of `connect` behind the received bytes.
    check_bytes : Bytes → Action (Connection alloc.State) AuthenticatedStream
    check_bytes bytes = do
      envelope ← lift (map_err crypto (envelope_from_bytes bytes))
      text ← lift (map_err crypto (open_envelope aead envelope t.key host t.host_node_id))
      m ← lift (map_err parse (parse_message text))
      u ← lift (map_err validation (validate_message m now cliente))
      lift (check_response t.host_node_id nonce m)

    module _ (fits : length answer.bytes ≤ max_frame_size)
        (received : envelope_from_bytes answer.bytes ≡ ok answer)
        (opened : open_envelope aead answer t.key host t.host_node_id
          ≡ ok (encode_message response))
        (valid : IsValid response) (early : stamp ≤ now + 300) (late : now ≤ stamp + 300) where
      read_step : on_stream Wire.read_frame waiting ≡ (ok answer.bytes, answered)
      read_step =
          ap
            (λ (r : Result TransportError Bytes × Stream).
              let c : Connection alloc.State = record { transport = t; stream = r.1 } in (r.0, c))
            (read_frame-framed answer.bytes rest s fits)

      check_lem : check_bytes answer.bytes answered ≡ (ok peer, answered)
      unfolding check_bytes check_response
      check_lem = rw (
        received,
        opened,
        parse_message-encode_message response valid,
        validate_message_complete response now cliente valid refl (early, late),
        bytes_eq_self t.host_node_id,
        bytes_eq_self (hex nonce),
      )

      -- A response that opens under the key, names the host, echoes the nonce and is at most 300 seconds
      -- off authenticates the stream for the host.
      pub receive_response_lem : receive_response aead alloc nonce now waiting ≡ (ok peer, answered)
      unfolding receive_response check_bytes
      receive_response_lem =
          bind_ok (on_stream Wire.read_frame) check_bytes waiting read_step ∙ check_lem
