-- ===== src/Transport/Session.antt =====
-- What both ends of agent/protocol/agent/transport/src/lib.rs share: the authenticated stream, the
-- session nonce, the peek at an envelope and the trial of candidate keys.
pub mod Unlock
use localscale.Prelude.{
  ℕ, ◌+◌, ◌≡◌, Bool, not, Option, none, some, List, [], ◌∷◌, ◌++◌, Bytes, codes, length, get_or,
  replicate, slice, ltb, if◌then◌else◌, Result, ok, err, map_err, ◌>>=◌,
}
use localscale.Codec.Endian.{from_be}
use localscale.Codec.Utf8.{is_utf8}
use localscale.Protocol.Syntax.{is_empty}
use localscale.Protocol.Message.{
  Message, handshake_init, handshake_response, keepalive, mtu_probe, parse_message,
}
use localscale.Protocol.Validate.{Role, cliente}
use localscale.Protocol.Envelope.{CryptoError, authentication_failed}
use localscale.Protocol.Crypto.{
  Aead, CryptoKey, HandshakeEnvelope, open_envelope, envelope_from_bytes, clone_for_resolver,
}
use localscale.Transport.Action.{TransportError, crypto, parse, protocol}

-- The peer of an `AuthenticatedStream`; its socket is the stream of the state.
pub record AuthenticatedStream : Type 0 where
  pub peer_node_id : Bytes
  pub matched_key_tag : Option Bytes

-- `session_nonce`: 24 bytes in front of eight zeros.
pub session_nonce : Bytes → Bytes
session_nonce n = n ++ replicate 8 0

abbrev malformed : TransportError
malformed = protocol "malformed client envelope"

pub peek_client_id : Bytes → Result TransportError Bytes
peek_client_id bytes =
    let n = from_be (get_or bytes 5 0 ∷ get_or bytes 6 0 ∷ []) in
    if ltb (length bytes) 7
    then err malformed
    else if ltb (length bytes) (7 + n)
    then err malformed
    else if not (is_utf8 (slice bytes 7 (7 + n)))
    then err (protocol "invalid client node id")
    else ok (slice bytes 7 (7 + n))

-- What `open_with_candidates` returns: the text, the key that opened it and its tag.
pub record Opened : Type 0 where
  pub plaintext : Bytes
  pub key : CryptoKey
  pub tag : Option Bytes

-- A candidate is a tag with its key.
abbrev pub Candidates : Type 0
Candidates = List (Bytes × CryptoKey)

abbrev pub tag_of : Bytes → Option Bytes
tag_of tag = if is_empty tag then none else some tag

module _ (aead : Aead) where
  abbrev first_opened :
      Result CryptoError Bytes
      → Bytes
      → CryptoKey
      → Result TransportError Opened
      → Result TransportError Opened
  first_opened (ok text) tag key rest =
      ok (record { plaintext = text; key = key; tag = tag_of tag })
  first_opened (err e) tag key rest = rest

  pub open_with_candidates : HandshakeEnvelope → Candidates → Bytes → Result TransportError Opened
  open_with_candidates envelope [] claimed = err (crypto authentication_failed)
  open_with_candidates envelope ((tag, key) ∷ candidates) claimed =
      let rest = open_with_candidates envelope candidates claimed in
      first_opened (open_envelope aead envelope key cliente claimed) tag key rest

-- What `accept` knows of a received envelope once a candidate key has opened it.
pub record Received : Type 0 where
  pub envelope : HandshakeEnvelope
  pub opened : Opened

-- The steps of `accept` from the received bytes to the opened envelope.
pub unlock : Aead → (Bytes → Candidates) → Bytes → Result TransportError Received
unlock aead resolver bytes = do
  envelope ← map_err crypto (envelope_from_bytes bytes)
  claimed ← peek_client_id bytes
  opened ← open_with_candidates aead envelope (resolver claimed) claimed
  ok (record { envelope = envelope; opened = opened })

-- A parsed handshake init with its node id and its nonce.
pub record Init : Type 0 where
  pub message : Message
  pub node_id : Bytes
  pub nonce : Bytes

abbrev expect_init : Message → Result TransportError Init
expect_init (handshake_init node timestamp nonce) =
    ok (record { message = handshake_init node timestamp nonce; node_id = node; nonce = nonce })
expect_init (handshake_response node timestamp nonce) = err (protocol "expected handshake init")
expect_init (keepalive node timestamp) = err (protocol "expected handshake init")
expect_init (mtu_probe node mtu) = err (protocol "expected handshake init")

-- The steps of `accept` from the opened text to the init message.
pub read_init : Bytes → Result TransportError Init
read_init text = do m ← map_err parse (parse_message text); expect_init m

-- `impl HostKeyResolver for CryptoKey`
pub single_key : CryptoKey → Bytes → Candidates
single_key key claimed = ([], clone_for_resolver key) ∷ []
