-- ===== src/Protocol/Crypto/Tests.antt =====
-- The theorems on envelopes at a toy cipher that appends 16 bytes of the key to the text.
use localscale.Prelude.{
  ℕ, ◌+◌, ◌≡◌, refl, ap, ◌-◌, [], ◌∷◌, ◌++◌, List, arith, Bytes, IsByte, All, codes, true, false,
  ok, bytes_eq, some, none, Option, length, replicate, take, drop, if◌then◌else◌, length-append,
  bytes_eq_iff, bytes_eq_self, take-append, drop-append, take-append-drop, length-take,
}
use localscale.Protocol.Syntax.{valid_node_id}
use localscale.Protocol.Validate.{host}
use localscale.Protocol.Envelope.{ParsedEnvelope, envelope_bytes, parse_envelope, IsSealed}
use localscale.Protocol.Envelope.RoundTrip.{parse_envelope-envelope_bytes}
use localscale.Protocol.Envelope.Canonical.{envelope_bytes-parse_envelope}
use localscale.Protocol.Crypto.{
  Aead, HandshakeEnvelope, generate, from_secret, seal_unchecked, open_envelope,
}
use localscale.Protocol.Crypto.Nonces.{
  SealCall, with_random, with_allocator, sealed_nonces, sealed_nonces-IsFreshList, IsFreshList,
}
use localscale.Protocol.Crypto.Sealing.{IsAead, open-seal, open_envelope-authentic}

unfoldable pub tag : Bytes → Bytes
tag key = take 16 (key ++ replicate 16 0)

length-tag : (key : Bytes) → length (tag key) ≡ 16
unfolding tag
length-tag key =
    omega (arith, length-take 16 (key ++ replicate 16 0), length-append key (replicate 16 0))

unfoldable pub toy_encrypt : Bytes → Bytes → Bytes → Bytes → Option Bytes
toy_encrypt key nonce ad text = some (text ++ tag key)

unfoldable pub toy_decrypt : Bytes → Bytes → Bytes → Bytes → Option Bytes
toy_decrypt key nonce ad c =
    let cut = length c - 16 in if bytes_eq (drop cut c) (tag key) then some (take cut c) else none

abbrev pub toy : Aead
toy = record { encrypt = toy_encrypt; decrypt = toy_decrypt }

toy_opens :
    (key nonce ad text c : Bytes)
    → toy_encrypt key nonce ad text ≡ some c
    → toy_decrypt key nonce ad c ≡ some text
unfolding toy_encrypt toy_decrypt
toy_opens key nonce ad text c h =
    let e : text ++ tag key ≡ c = ground arith in
    let cut : length (text ++ tag key) - 16 ≡ length text =
      omega (arith, length-append text (tag key), length-tag key) in
    rw (← e, cut, drop-append text (tag key), bytes_eq_self (tag key), take-append text (tag key))

toy_tag_length :
    (key nonce ad text c : Bytes)
    → toy_encrypt key nonce ad text ≡ some c
    → length c ≡ length text + 16
unfolding toy_encrypt
toy_tag_length key nonce ad text c h =
    let e : text ++ tag key ≡ c = ground arith in
    omega (arith, ap (length {A = ℕ}) e, length-append text (tag key), length-tag key)

toy_authentic :
    (key nonce ad c text : Bytes)
    → toy_decrypt key nonce ad c ≡ some text
    → toy_encrypt key nonce ad text ≡ some c
unfolding toy_encrypt toy_decrypt
toy_authentic key nonce ad c text h =
    let cut = length c - 16 in
    ground (arith, bytes_eq_iff (drop cut c) (tag key), take-append-drop cut c)

pub toy-IsAead : IsAead toy
toy-IsAead = record {
  encrypts = λ key nonce ad text h. unfold toy_encrypt in (text ++ tag key, refl);
  opens = toy_opens;
  tag_length = toy_tag_length;
  authentic = toy_authentic;
}

abbrev secret : Bytes
secret = replicate 32 7

abbrev nonce : Bytes
nonce = replicate 24 9

abbrev text : Bytes
text = codes "hi"

abbrev envelope : ParsedEnvelope
envelope = record {
  role = host;
  node_id = codes "box";
  nonce = nonce;
  ciphertext = text ++ replicate 16 7;
}

abbrev sealed : HandshakeEnvelope
sealed = record { bytes = envelope_bytes envelope; nonce = nonce }

box_valid : valid_node_id (codes "box") ≡ true
unfolding valid_node_id
box_valid = refl

envelope-IsSealed : IsSealed envelope
envelope-IsSealed = record {
  node_valid = box_valid;
  nonce_length = refl;
  tagged = omega arith;
  fits = omega arith;
}

parse_envelope-envelope_bytes_example : parse_envelope (envelope_bytes envelope) ≡ ok envelope
parse_envelope-envelope_bytes_example = parse_envelope-envelope_bytes envelope envelope-IsSealed

envelope_in_bytes : All IsByte (envelope_bytes envelope)
unfolding envelope_bytes
envelope_in_bytes = omega arith

envelope_bytes-parse_envelope_example :
    (envelope_bytes envelope ≡ envelope_bytes envelope) × IsSealed envelope
envelope_bytes-parse_envelope_example =
    envelope_bytes-parse_envelope (envelope_bytes envelope) envelope envelope_in_bytes
      parse_envelope-envelope_bytes_example

sealed_by_key : seal_unchecked toy (generate secret) host (codes "box") nonce text ≡ ok sealed
unfolding seal_unchecked generate from_secret toy_encrypt tag
sealed_by_key = refl

same_secret : (from_secret secret false).secret ≡ (generate secret).secret
unfolding generate from_secret
same_secret = refl

open-seal_example : open_envelope toy sealed (from_secret secret false) host (codes "box") ≡ ok text
open-seal_example =
    open-seal toy toy-IsAead (generate secret) (from_secret secret false) host (codes "box") nonce
      text sealed same_secret box_valid refl (omega arith) sealed_by_key

open_envelope-authentic_example :
    (n : Bytes) × (seal_unchecked toy (from_secret secret false) host (codes "box") n text
      ≡ ok (record { bytes = sealed.bytes; nonce = n }))
open_envelope-authentic_example =
    open_envelope-authentic toy toy-IsAead sealed (from_secret secret false) host (codes "box") text
      envelope_in_bytes open-seal_example

abbrev calls : List SealCall
calls =
    with_random host (codes "box") nonce text
    ∷ with_random host (codes "box") nonce text
    ∷ with_allocator host (codes "box") (ok (replicate 24 8)) text
    ∷ []

sealed_nonces-IsFreshList_example :
    IsFreshList (generate secret).used_nonces (sealed_nonces toy (generate secret) calls)
sealed_nonces-IsFreshList_example = sealed_nonces-IsFreshList toy (generate secret) calls
