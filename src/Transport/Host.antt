-- ===== src/Transport/Host.antt =====
-- `HostTransport` of agent/protocol/agent/transport/src/lib.rs. The allocator is a parameter, and the
-- clock is read once by an `accept`. A call works on the transport and on the stream that the listener
-- returned; the listener itself and the length of the timeout are left out.
pub mod Accept
use localscale.Prelude.{
  ℕ, ◌≡◌, Bool, true, false, not, Option, none, some, List, [], ◌∷◌, Bytes, Result, ok, err,
  map_err, if◌then◌else◌,
}
use localscale.Protocol.Syntax.{is_empty}
use localscale.Protocol.Message.{
  Message, handshake_init, handshake_response, keepalive, mtu_probe, parse_message, encode_message,
}
use localscale.Protocol.Validate.{Role, host, ValidationError}
use localscale.Protocol.Replay.{ReplayGuard, PeerRole, empty, accept, accept_session}
use localscale.Protocol.Envelope.{CryptoError}
use localscale.Protocol.Crypto.{
  Aead, CryptoKey, HandshakeEnvelope, Sealed, envelope_from_bytes, seal_with_allocator,
}
use localscale.Transport.Action.{
  TransportError, crypto, parse, validation, protocol, Action, ◌>>=◌, ◌>>◌, lift, pure, require,
}
use localscale.Transport.Wire
use localscale.Transport.Wire.{Stream}
use localscale.Transport.Session.{
  AuthenticatedStream, Opened, Candidates, Received, Init, session_nonce, unlock, read_init,
}

-- The caller's `NonceAllocator`, with the state it works on.
pub record Allocator : Type 1 where
  pub State : Type 0
  pub allocate : State → Result CryptoError Bytes × State

pub record HostTransport (S : Type 0) : Type 0 where
  pub resolver : Bytes → Candidates
  pub node_id : Bytes
  pub replay : ReplayGuard
  pub allocator : S
  pub acceptance_gate : Option Bool

-- The transport with the stream that it has accepted.
pub record Connection (S : Type 0) : Type 0 where
  pub transport : HostTransport S
  pub stream : Stream

-- `bind`, on a listener that was bound.
pub bind : {S : Type 0} → (Bytes → Candidates) → Bytes → S → Result TransportError (HostTransport S)
bind resolver node allocator =
    if is_empty node
    then err (protocol "host node id is required")
    else ok (record {
      resolver = resolver;
      node_id = node;
      replay = empty;
      allocator = allocator;
      acceptance_gate = none;
    })

pub set_acceptance_gate : {S : Type 0} → HostTransport S → Bool → HostTransport S
set_acceptance_gate h gate = record h { acceptance_gate = some gate }

abbrev pub is_open : Option Bool → Bool
is_open none = true
is_open (some gate) = gate

module _ {S : Type 0} where
  -- An action of the stream alone.
  abbrev on_stream {ℓ} : {A : Type ℓ} → Action Stream A → Action (Connection S) A
  on_stream m c = let (r, s) = m c.stream in (r, record c { stream = s })

  -- An action of the replay guard alone.
  abbrev on_replay :
      (ReplayGuard → Result ValidationError (Unit {0}) × ReplayGuard)
      → Action (Connection S) (Unit {0})
  on_replay m c =
      let (r, g) = m c.transport.replay in
      (map_err validation r, record c { transport = record (c.transport) { replay = g } })

  check_gate : Action (Connection S) (Unit {0})
  check_gate c = require (is_open c.transport.acceptance_gate) (protocol "peer transport revoked") c

module _ (aead : Aead) (alloc : Allocator) where
  abbrev Host : Type 0
  Host = Connection alloc.State

  -- The response, sealed with a nonce from the allocator.
  seal_response : CryptoKey → Bytes → Action Host HandshakeEnvelope
  seal_response key text c =
      let (nonce, s) = alloc.allocate c.transport.allocator in
      let (sealed, key') = seal_with_allocator aead key host c.transport.node_id nonce text in
      (map_err crypto sealed, record c { transport = record (c.transport) { allocator = s } })

  unlock_received : Bytes → Action Host Received
  unlock_received bytes c = (unlock aead c.transport.resolver bytes, c)

  -- The answer to an init with this nonce.
  send_response : ℕ → Received → Init → Action Host (Unit {0})
  send_response now received init c =
      (do
        sealed ←
            seal_response received.opened.key
              (encode_message (handshake_response c.transport.node_id now init.nonce))
        on_stream (Wire.write_frame sealed.bytes))
        c

  -- `accept` behind the parsed init.
  greet : ℕ → Received → Init → Action Host AuthenticatedStream
  greet now received init = do
    on_replay (λ g. accept g init.message now host)
    on_replay (λ g.
        accept_session g (session_nonce received.envelope.nonce) init.node_id PeerRole.cliente)
    send_response now received init
    pure (record { peer_node_id = init.node_id; matched_key_tag = received.opened.tag })

  -- `accept` behind the received bytes.
  admit : ℕ → Bytes → Action Host AuthenticatedStream
  admit now bytes = do
    received ← unlock_received bytes
    init ← lift (read_init received.opened.plaintext)
    greet now received init

  -- `accept` on the stream that the listener returned, at the time `now`.
  pub accept_stream : ℕ → Action Host AuthenticatedStream
  accept_stream now = do
    check_gate
    on_stream Wire.set_deadline
    bytes ← on_stream Wire.read_frame
    admit now bytes
