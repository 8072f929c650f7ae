-- ===== src/Transport/Cliente.antt =====
-- `ClienteTransport` of agent/protocol/agent/transport/src/lib.rs. The Tor runtime and the allocator
-- are parameters; the random nonce and the two readings of the clock are arguments.
pub mod Exchange
use Prim.Native.String.{String}
use localscale.Prelude.{
  ℕ, ◌≡◌, Bool, true, false, not, ◌&&◌, ◌||◌, Option, none, some, List, [], ◌∷◌, Bytes, bytes_eq,
  ltb, ◌==◌, all, Result, ok, err, map_err, if◌then◌else◌,
}
use localscale.Codec.Hex.{hex}
use localscale.Protocol.Syntax.{is_empty}
use localscale.Protocol.Message.{
  Message, handshake_init, handshake_response, keepalive, mtu_probe, parse_message, encode_message,
}
use localscale.Protocol.Validate.{Role, host, cliente, validate_message}
use localscale.Protocol.Envelope.{CryptoError}
use localscale.Protocol.Crypto.{
  Aead, CryptoKey, HandshakeEnvelope, Sealed, envelope_from_bytes, seal_with_allocator,
  open_envelope,
}
use localscale.Transport.Action.{
  TransportError, unavailable, not_ready, invalid_endpoint, crypto, parse, validation, protocol,
  IoError, from_io, Action, ◌>>=◌, ◌>>◌, lift, pure, require,
}
use localscale.Transport.Wire
use localscale.Transport.Wire.{Stream}
use localscale.Transport.Socks.{connect_socks}
use localscale.Transport.Session.{AuthenticatedStream}
use localscale.Transport.Host.{Allocator}

-- The `TorRuntime` trait: whether it is ready, and whether it has a SOCKS endpoint.
pub record TorRuntime : Type 0 where
  pub is_ready : Bool
  pub has_endpoint : Bool

pub record ClienteTransport (S : Type 0) : Type 0 where
  pub runtime : TorRuntime
  pub key : CryptoKey
  pub node_id : Bytes
  pub host_node_id : Bytes
  pub allocator : S

-- `ClienteTransport::new`
pub new_cliente : {S : Type 0} → TorRuntime → CryptoKey → Bytes → Bytes → S → ClienteTransport S
new_cliente runtime key node host_node allocator = record {
  runtime = runtime;
  key = key;
  node_id = node;
  host_node_id = host_node;
  allocator = allocator;
}

pub record Connection (S : Type 0) : Type 0 where
  pub transport : ClienteTransport S
  pub stream : Stream

-- `u8::is_ascii_control`
abbrev is_ascii_control : ℕ → Bool
is_ascii_control b = ltb b 32 || b == 127

pub valid_endpoint : Bytes → Bool
valid_endpoint h = not (is_empty h) && all (λ b. not (is_ascii_control b || b == b' ')) h

module _ {S : Type 0} where
  abbrev on_stream {ℓ} : {A : Type ℓ} → Action Stream A → Action (Connection S) A
  on_stream m c = let (r, s) = m c.stream in (r, record c { stream = s })

  check_runtime : Action (Connection S) (Unit {0})
  check_runtime c =
      (do
        require c.transport.runtime.is_ready (not_ready "bundled Tor runtime is not ready")
        require c.transport.runtime.has_endpoint
            (unavailable "bundled Tor SOCKS endpoint is unavailable"))
        c

-- The last `match` of `connect`.
pub check_response : Bytes → Bytes → Message → Result TransportError AuthenticatedStream
check_response host_node nonce (handshake_response node timestamp echoed) =
    if bytes_eq node host_node && bytes_eq echoed (hex nonce)
    then ok (record { peer_node_id = node; matched_key_tag = none })
    else err (protocol "invalid handshake response")
check_response host_node nonce _ = err (protocol "invalid handshake response")

module _ (aead : Aead) (alloc : Allocator) where
  abbrev Cliente : Type 0
  Cliente = Connection alloc.State

  seal_init : Bytes → Action Cliente HandshakeEnvelope
  seal_init text c =
      let (nonce, s) = alloc.allocate c.transport.allocator in
      let (sealed, key) =
        seal_with_allocator aead c.transport.key cliente c.transport.node_id nonce text in
      (
        map_err crypto sealed,
        record c { transport = record (c.transport) { key = key; allocator = s } },
      )

  -- `connect` up to the frame that it sends.
  pub send_init : Bytes → ℕ → Action Cliente (Unit {0})
  send_init nonce now c =
      (do
        sealed ← seal_init (encode_message (handshake_init c.transport.node_id now (hex nonce)))
        on_stream (Wire.write_frame sealed.bytes))
        c

  -- `connect` from the frame that it receives.
  pub receive_response : Bytes → ℕ → Action Cliente AuthenticatedStream
  receive_response nonce now c =
      (do
        bytes ← on_stream Wire.read_frame
        envelope ← lift (map_err crypto (envelope_from_bytes bytes))
        text ← lift (
            map_err crypto
              (open_envelope aead envelope c.transport.key host c.transport.host_node_id))
        m ← lift (map_err parse (parse_message text))
        u ← lift (map_err validation (validate_message m now cliente))
        lift (check_response c.transport.host_node_id nonce m))
        c

  -- `connect`, with what the TCP connection to the SOCKS endpoint returned, the random nonce, and the
  -- times of the request and of the response.
  pub connect : Option IoError → Bytes → ℕ → Bytes → ℕ → ℕ → Action Cliente AuthenticatedStream
  connect tcp h port nonce sent received = do
    check_runtime
    require (valid_endpoint h) invalid_endpoint
    elim tcp [ none ↦ pure tt | some e ↦ lift (err (from_io e)) ]
    on_stream (connect_socks h port)
    send_init nonce sent
    receive_response nonce received
