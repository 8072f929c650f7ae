-- ===== src/Transport/Host/Accept.antt =====
-- A fresh handshake init from a peer that shares a candidate key is accepted and answered.
use localscale.Prelude.{
  ℕ, ◌+◌, ◌≤◌, ◌≡◌, refl, ap, ◌∙◌, true, false, Option, none, ◌++◌, Bytes, length, Result, ok,
  map_err,
}
use localscale.Prelude.Table.{lookup, lookup-retain-none}
use localscale.Protocol.Syntax.{valid_node_id}
use localscale.Protocol.Message.{
  Message, handshake_init, handshake_response, encode_message, IsValid,
}
use localscale.Protocol.Frame.{max_frame_size}
use localscale.Protocol.Validate.{host, ValidationError, validate_message_complete}
use localscale.Protocol.Replay.{ReplayGuard, PeerRole, accept, accept_session, is_recent}
use localscale.Protocol.Replay.Window.{accept-unknown}
use localscale.Protocol.Replay.Sessions.{accept_session-new, sessions-accept}
use localscale.Protocol.Crypto.{Aead, CryptoKey, HandshakeEnvelope, mem, seal_unchecked}
use localscale.Protocol.Crypto.Sealing.{seal_with_allocator_lem}
use localscale.Transport.Action.{TransportError, ◌>>=◌, ◌>>◌, bind_ok, pure, validation}
use localscale.Transport.Wire
use localscale.Transport.Wire.{Stream}
use localscale.Transport.Wire.Frames.{framed, read_frame-framed, write_frame_lem}
use localscale.Transport.Session.{AuthenticatedStream, Received, Init, session_nonce, unlock}
use localscale.Transport.Session.Unlock.{read_init-encode_message}
use localscale.Transport.Host.{
  Allocator, HostTransport, Connection, is_open, on_stream, on_replay, check_gate, seal_response,
  unlock_received, send_response, greet, admit, accept_stream,
}

module _ (aead : Aead) (alloc : Allocator) (h : HostTransport alloc.State) (s : Stream)
    (rest : Bytes) (envelope answer : HandshakeEnvelope) (key : CryptoKey) (tag : Option Bytes)
    (node nonce fresh : Bytes) (sent now : ℕ) (next : alloc.State) where
  abbrev init : Message
  init = handshake_init node sent nonce

  abbrev received : Received
  received = record {
    envelope = envelope;
    opened = record { plaintext = encode_message init; key = key; tag = tag };
  }

  abbrev parsed : Init
  parsed = record { message = init; node_id = node; nonce = nonce }

  abbrev reply : Bytes
  reply = encode_message (handshake_response h.node_id now nonce)

  abbrev guard : ReplayGuard
  guard = (accept h.replay init now host).1

  abbrev guard' : ReplayGuard
  guard' = (accept_session guard (session_nonce envelope.nonce) node PeerRole.cliente).1

  -- The stream before and behind the frame, and with the answer.
  abbrev before : Stream
  before = record s { incoming = framed envelope.bytes ++ rest }

  abbrev behind : Stream
  behind = record s { incoming = rest }

  abbrev answered : Stream
  answered = record s { incoming = rest; outgoing = s.outgoing ++ framed answer.bytes }

  abbrev start : Connection alloc.State
  start = record { transport = h; stream = before }

  abbrev read : Connection alloc.State
  read = record { transport = h; stream = behind }

  abbrev greeted : Connection alloc.State
  greeted = record { transport = record h { replay = guard }; stream = behind }

  abbrev joined : Connection alloc.State
  joined = record { transport = record h { replay = guard' }; stream = behind }

  abbrev pub done : Connection alloc.State
  done = record { transport = record h { replay = guard'; allocator = next }; stream = answered }

  abbrev peer : AuthenticatedStream
  peer = record { peer_node_id = node; matched_key_tag = tag }

  module _ (gate : is_open h.acceptance_gate ≡ true) (deadline : s.deadline_fault ≡ none)
      (writes : s.write_fault ≡ none) (fits : length envelope.bytes ≤ max_frame_size)
      (answer_fits : length answer.bytes ≤ max_frame_size)
      (unlocked : unlock aead h.resolver envelope.bytes ≡ ok received) (valid : IsValid init)
      (early : sent ≤ now + 300) (late : now ≤ sent + 300)
      (unseen : lookup nonce h.replay.seen ≡ none)
      (unused : lookup (session_nonce envelope.nonce) h.replay.sessions ≡ none)
      (allocated : alloc.allocate h.allocator ≡ (ok fresh, next))
      (new : mem fresh key.used_nonces ≡ false) (host_valid : valid_node_id h.node_id ≡ true)
      (sealed : seal_unchecked aead key host h.node_id fresh reply ≡ ok answer) where
    accepted : (accept h.replay init now host).0 ≡ ok tt
    accepted =
        accept-unknown h.replay init now host nonce refl
          (validate_message_complete init now host valid refl (early, late))
          (lookup-retain-none (is_recent now) nonce h.replay.seen unseen)

    session_accepted :
        (accept_session guard (session_nonce envelope.nonce) node PeerRole.cliente).0 ≡ ok tt
    session_accepted =
        accept_session-new guard (session_nonce envelope.nonce) node PeerRole.cliente valid.0
          (rw (sessions-accept h.replay init now host) unused)

    abbrev drawn : Connection alloc.State
    drawn = record { transport = record h { replay = guard'; allocator = next }; stream = behind }

    seal_step : seal_response aead alloc key reply joined ≡ (ok answer, drawn)
    unfolding seal_response
    seal_step = rw (
      allocated,
      seal_with_allocator_lem aead key host h.node_id fresh reply new host_valid,
      sealed,
    )

    write_step : on_stream (Wire.write_frame answer.bytes) drawn ≡ (ok tt, done)
    write_step =
        ap
          (λ (r : Result TransportError (Unit {0}) × Stream).
            let c : Connection alloc.State = record { transport = drawn.transport; stream = r.1 } in
            (r.0, c))
          (write_frame_lem answer.bytes behind answer_fits writes)

    send_response_lem : send_response aead alloc now received parsed joined ≡ (ok tt, done)
    unfolding send_response
    send_response_lem =
        bind_ok (seal_response aead alloc key reply) (λ e. on_stream (Wire.write_frame e.bytes))
          joined seal_step
        ∙ write_step

    accept_step : on_replay (λ g. accept g init now host) read ≡ (ok tt, greeted)
    accept_step =
        ap (λ (r : Result ValidationError (Unit {0})). (map_err validation r, greeted)) accepted

    session_step :
        on_replay
          (λ g. accept_session g (session_nonce envelope.nonce) node PeerRole.cliente)
          greeted
        ≡ (ok tt, joined)
    session_step =
        ap (λ (r : Result ValidationError (Unit {0})). (map_err validation r, joined))
          session_accepted

    greet_lem : greet aead alloc now received parsed read ≡ (ok peer, done)
    unfolding greet
    greet_lem =
        bind_ok (on_replay (λ g. accept g init now host))
          (λ _.
            on_replay (λ g. accept_session g (session_nonce envelope.nonce) node PeerRole.cliente)
            >> (send_response aead alloc now received parsed >> pure peer))
          read accept_step
        ∙ bind_ok
            (on_replay (λ g. accept_session g (session_nonce envelope.nonce) node PeerRole.cliente))
            (λ _. send_response aead alloc now received parsed >> pure peer) greeted session_step
        ∙ bind_ok (send_response aead alloc now received parsed) (λ _. pure peer) joined
            send_response_lem

    admit_lem : admit aead alloc now envelope.bytes read ≡ greet aead alloc now received parsed read
    unfolding admit unlock_received
    admit_lem = rw (unlocked, read_init-encode_message node nonce sent valid)

    gate_step : check_gate start ≡ (ok tt, start)
    unfolding check_gate
    gate_step = rw gate

    deadline_step : on_stream Wire.set_deadline start ≡ (ok tt, start)
    unfolding Wire.set_deadline
    deadline_step = rw deadline

    read_step : on_stream Wire.read_frame start ≡ (ok envelope.bytes, read)
    read_step =
        ap
          (λ (r : Result TransportError Bytes × Stream).
            let c : Connection alloc.State = record { transport = h; stream = r.1 } in (r.0, c))
          (read_frame-framed envelope.bytes rest s fits)

    -- An init from a peer with a candidate key, valid, at most 300 seconds off and not seen before, on
    -- an open gate: the stream is authenticated for the peer, with the tag of the key; the sealed
    -- answer is written, and the nonce and the session are remembered.
    pub accept_stream_lem : accept_stream aead alloc now start ≡ (ok peer, done)
    unfolding accept_stream
    accept_stream_lem =
        bind_ok check_gate
          (λ _. on_stream Wire.set_deadline >> (on_stream Wire.read_frame >>= admit aead alloc now))
          start gate_step
        ∙ bind_ok (on_stream Wire.set_deadline)
            (λ _. on_stream Wire.read_frame >>= admit aead alloc now) start deadline_step
        ∙ bind_ok (on_stream Wire.read_frame) (admit aead alloc now) start read_step
        ∙ admit_lem
        ∙ greet_lem
