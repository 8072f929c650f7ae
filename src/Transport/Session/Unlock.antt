-- ===== src/Transport/Session/Unlock.antt =====
-- The candidate keys are tried in order, and a sealed init is unlocked by the first that opens it.
use localscale.Prelude.{
  ℕ, ◌+◌, ◌≤◌, ◌≡◌, refl, true, [], ◌∷◌, ◌++◌, arith, Bytes, All, length, ok, err, le→ltb,
}
use localscale.Protocol.Syntax.{valid_node_id, length-valid_node_id}
use localscale.Protocol.Message.{handshake_init, encode_message, IsValid}
use localscale.Protocol.Message.RoundTrip.{parse_message-encode_message}
use localscale.Protocol.Validate.{cliente}
use localscale.Protocol.Envelope.{CryptoError, ParsedEnvelope, envelope_bytes, IsSealed, nonce_len}
use localscale.Protocol.Envelope.RoundTrip.{
  length-envelope_bytes, node_slice, header_word, valid_node_id-utf8,
}
use localscale.Protocol.Crypto.{Aead, CryptoKey, HandshakeEnvelope, open_envelope, seal_unchecked}
use localscale.Protocol.Crypto.Sealing.{
  IsAead, open-seal, envelope_from_bytes-seal, seal_unchecked_short,
}
use localscale.Transport.Session.{
  Candidates, tag_of, peek_client_id, open_with_candidates, unlock, read_init,
}

-- Peeking at a well-formed envelope yields its node id.
pub peek_client_id-envelope_bytes :
    (p : ParsedEnvelope) → IsSealed p → peek_client_id (envelope_bytes p) ≡ ok p.node_id
unfolding peek_client_id
peek_client_id-envelope_bytes p s =
    let long = length-envelope_bytes p s in
    let a = le→ltb (length (envelope_bytes p)) 7 (omega arith) in
    let b = le→ltb (length (envelope_bytes p)) (7 + length p.node_id) (omega arith) in
    rw (header_word p s, a, b, node_slice p s, valid_node_id-utf8 p.node_id s.node_valid)

-- The key does not open the envelope.
abbrev pub Fails : Aead → HandshakeEnvelope → Bytes → Bytes × CryptoKey → Type 0
Fails aead e claimed (tag, key) =
    (x : CryptoError) × (open_envelope aead e key cliente claimed ≡ err x)

-- The first candidate that opens the envelope decides: those before it failed, those behind it are
-- not looked at.
pub open_with_candidates_first :
    (aead : Aead) (e : HandshakeEnvelope) (claimed : Bytes) (front behind : Candidates)
    (tag : Bytes) (key : CryptoKey) (text : Bytes)
    → All (Fails aead e claimed) front
    → open_envelope aead e key cliente claimed ≡ ok text
    → open_with_candidates aead e (front ++ (tag, key) ∷ behind) claimed
      ≡ ok (record { plaintext = text; key = key; tag = tag_of tag })
unfolding open_with_candidates
open_with_candidates_first aead e claimed [] behind tag key text f h = rw h
open_with_candidates_first aead e claimed ((t, k) ∷ front) behind tag key text f h =
    rw (f.0.1) (open_with_candidates_first aead e claimed front behind tag key text f.1 h)

-- The text of a valid init is read as that init.
pub read_init-encode_message :
    (node nonce : Bytes) (timestamp : ℕ)
    → IsValid (handshake_init node timestamp nonce)
    → read_init (encode_message (handshake_init node timestamp nonce))
      ≡ ok (record { message = handshake_init node timestamp nonce; node_id = node; nonce = nonce })
unfolding read_init
read_init-encode_message node nonce timestamp v =
    rw (parse_message-encode_message (handshake_init node timestamp nonce) v)

module _ (aead : Aead) (laws : IsAead aead) (sender : CryptoKey) (node nonce text : Bytes)
    (valid : valid_node_id node ≡ true) (len : length nonce ≡ nonce_len)
    (short : length text ≤ 65000) where
  -- The envelope of a short text: its bytes fit a frame, and a host with the sender's secret among its
  -- candidates unlocks it.
  pub seal_unlock :
      (e : HandshakeEnvelope) × (seal_unchecked aead sender cliente node nonce text ≡ ok e)
      × (e.nonce ≡ nonce)
      × (length e.bytes ≤ length text + 300)
      × ((resolver : Bytes → Candidates) (front behind : Candidates) (tag : Bytes) (key : CryptoKey)
          → resolver node ≡ front ++ (tag, key) ∷ behind
          → All (Fails aead e node) front
          → key.secret ≡ sender.secret
          → unlock aead resolver e.bytes
            ≡ ok (record {
              envelope = e;
              opened = record { plaintext = text; key = key; tag = tag_of tag };
            }))
  unfolding unlock
  seal_unlock =
      let (p, made, sealed, named, size) =
        seal_unchecked_short aead laws sender cliente node nonce text valid len short in
      let e : HandshakeEnvelope = record { bytes = envelope_bytes p; nonce = nonce } in
      let peeked : peek_client_id (envelope_bytes p) ≡ ok node =
        rw named at (peek_client_id-envelope_bytes p sealed) in
      (
        e,
        made,
        refl,
        omega (
          arith,
          length-envelope_bytes p sealed,
          length-valid_node_id p.node_id sealed.node_valid,
          size,
        ),
        λ resolver front behind tag key offered f shared. rw (
          envelope_from_bytes-seal aead laws sender key cliente node nonce text e shared valid len
              (omega arith) made,
          peeked,
          offered,
          open_with_candidates_first aead e node front behind tag key text f (
              open-seal aead laws sender key cliente node nonce text e shared valid len
                (omega arith) made),
        ),
      )
