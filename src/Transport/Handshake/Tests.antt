-- ===== src/Transport/Handshake/Tests.antt =====
-- A whole handshake at the toy cipher: the host knows two candidate keys, and the client uses the second.
use localscale.Prelude.{
  ℕ, ◌+◌, ◌≡◌, refl, true, false, none, some, [], ◌∷◌, arith, Bytes, codes, replicate, ok, err,
  length, bytes_eq, ◌++◌,
}
use localscale.Codec.Hex.{hex, hex_digit}
use localscale.Codec.Decimal.{decimal, digits}
use localscale.Protocol.Syntax.{valid_node_id}
use localscale.Protocol.Message.{handshake_init, encode_message}
use localscale.Protocol.Validate.{cliente}
use localscale.Protocol.Replay.{empty}
use localscale.Protocol.Envelope.{ParsedEnvelope, IsSealed, authentication_failed, envelope_bytes}
use localscale.Protocol.Envelope.RoundTrip.{parse_envelope-envelope_bytes}
use localscale.Protocol.Crypto.Sealing.{same_role_self}
use localscale.Prelude.Table.{lookup}
use localscale.Protocol.Crypto.{CryptoKey, HandshakeEnvelope, seal_unchecked, open_envelope}
use localscale.Protocol.Crypto.Tests.{toy, toy-IsAead, toy_encrypt, toy_decrypt, tag}
use localscale.Transport.Action.{unexpected_eof}
use localscale.Transport.Wire.{Stream}
use localscale.Transport.Session.{Candidates}
use localscale.Transport.Session.Unlock.{Fails}
use localscale.Transport.Host.{Allocator, HostTransport}
use localscale.Transport.Cliente.{ClienteTransport}
use localscale.Transport.Handshake.{request, admitted, answer, handshake_completes}

-- An allocator that counts.
abbrev counting : Allocator
counting = record { State = ℕ; allocate = λ n. (ok (replicate 24 n), n + 1) }

abbrev key_of : ℕ → CryptoKey
key_of n = record { secret = replicate 32 n; sealing_allowed = false; used_nonces = [] }

abbrev candidates : Bytes → Candidates
candidates claimed = (codes "old", key_of 5) ∷ (codes "invite", key_of 7) ∷ []

abbrev client : ClienteTransport ℕ
client = record {
  runtime = record { is_ready = true; has_endpoint = true };
  key = key_of 7;
  node_id = codes "laptop";
  host_node_id = codes "box";
  allocator = 40;
}

abbrev server : HostTransport ℕ
server = record {
  resolver = candidates;
  node_id = codes "box";
  replay = empty;
  allocator = 60;
  acceptance_gate = some true;
}

abbrev idle : Stream
idle = record {
  incoming = [];
  ending = unexpected_eof;
  outgoing = [];
  write_fault = none;
  deadline_fault = none;
}

abbrev nonce : Bytes
nonce = replicate 24 9

laptop_valid : valid_node_id (codes "laptop") ≡ true
unfolding valid_node_id
laptop_valid = refl

box_valid : valid_node_id (codes "box") ≡ true
unfolding valid_node_id
box_valid = refl

abbrev text : Bytes
text = encode_message (handshake_init (codes "laptop") 1000 (hex nonce))

abbrev parsed : ParsedEnvelope
parsed = record {
  role = cliente;
  node_id = codes "laptop";
  nonce = replicate 24 40;
  ciphertext = text ++ replicate 16 7;
}

length-text : length (text ++ replicate 16 7) ≡ 94
unfolding encode_message decimal digits hex hex_digit
length-text = refl

parsed-IsSealed : IsSealed parsed
parsed-IsSealed = record {
  node_valid = laptop_valid;
  nonce_length = refl;
  tagged = omega (arith, length-text);
  fits = omega (arith, length-text);
}

abbrev envelope : HandshakeEnvelope
envelope = record { bytes = envelope_bytes parsed; nonce = replicate 24 40 }

sealed_by_client :
    seal_unchecked toy (key_of 7) cliente (codes "laptop") (replicate 24 40) text ≡ ok envelope
unfolding seal_unchecked toy_encrypt tag
sealed_by_client = refl

decrypt_refused :
    (ad : Bytes) → toy_decrypt (replicate 32 5) (replicate 24 40) ad (text ++ replicate 16 7) ≡ none
unfolding toy_decrypt tag encode_message bytes_eq decimal digits hex hex_digit
decrypt_refused ad = refl

old_key_refused :
    open_envelope toy envelope (key_of 5) cliente (codes "laptop") ≡ err authentication_failed
unfolding open_envelope bytes_eq
old_key_refused = rw (
  laptop_valid,
  parse_envelope-envelope_bytes parsed parsed-IsSealed,
  same_role_self cliente,
  decrypt_refused _,
)

old_key-Fails :
    (e : HandshakeEnvelope)
    → seal_unchecked toy (key_of 7) cliente (codes "laptop") (replicate 24 40) text ≡ ok e
    → Fails toy e (codes "laptop") (codes "old", key_of 5)
old_key-Fails e h =
    let same : envelope ≡ e = ground (arith, sealed_by_client) in
    (authentication_failed, rw (← same) old_key_refused)

abbrev first : Bytes × CryptoKey
first = (codes "old", key_of 5)

handshake_completes_example :
    ((request toy counting counting client server idle idle nonce 1000 1010 1020).0 ≡ ok tt)
    × ((admitted toy counting counting client server idle idle nonce 1000 1010 1020).0
        ≡ ok (record { peer_node_id = codes "laptop"; matched_key_tag = some (codes "invite") }))
    × ((answer toy counting counting client server idle idle nonce 1000 1010 1020).0
        ≡ ok (record { peer_node_id = codes "box"; matched_key_tag = none }))
unfolding lookup
handshake_completes_example =
    handshake_completes toy counting counting client server idle idle nonce 1000 1010 1020
      toy-IsAead (replicate 24 40) (replicate 24 60) 41 61 (first ∷ []) [] (codes "invite")
      (key_of 7) (refl, refl) (refl, refl, refl) refl (laptop_valid, box_valid, refl)
      (omega arith, omega arith) (refl, refl, refl) (refl, refl) (refl, refl) refl
      (λ e made. (old_key-Fails e made, tt)) refl refl refl (omega arith, omega arith)
      (omega arith, omega arith)
