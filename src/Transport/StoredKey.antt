-- ===== src/Transport/StoredKey.antt =====
-- The transport keys of agent/protocol/agent/transport/src/lib.rs that are derived from an invitation
-- secret. SHA-256 is a parameter. `none` is a panic.
use localscale.Prelude.{
  ◌≡◌, not, false, Option, none, some, ◌++◌, Bytes, All, IsByte, codes, length, strip_prefix,
  strip_prefix-append, ◌==◌, if◌then◌else◌, Result, ok, err,
}
use localscale.Codec.Hex.{
  hex, Decoded, decoded, invalid, panicked, decode_pairs, decode_pairs-hex, length-hex,
}
use localscale.Protocol.Envelope.{CryptoError, invalid_key_length}
use localscale.Protocol.Crypto.{CryptoKey, key_from_bytes, from_secret}

module _ (sha256 : Bytes → Bytes) where
  abbrev or_panic : Result CryptoError CryptoKey → Option CryptoKey
  or_panic (ok key) = some key
  or_panic (err e) = none

  -- The `expect` behind it panics on a digest that is not of 32 bytes.
  pub key_from_invitation_secret : Bytes → Option CryptoKey
  key_from_invitation_secret secret = or_panic (key_from_bytes (sha256 secret))

  unfoldable pub stored_transport_key_from_invitation_secret : Bytes → Bytes
  stored_transport_key_from_invitation_secret secret = codes "key-v1-" ++ hex (sha256 secret)

abbrev key_of_digits : Decoded → Option (Result CryptoError CryptoKey)
key_of_digits (decoded bytes) = some (key_from_bytes bytes)
key_of_digits invalid = some (err invalid_key_length)
key_of_digits panicked = none

abbrev key_of_hex : Option Bytes → Option (Result CryptoError CryptoKey)
key_of_hex none = some (err invalid_key_length)
key_of_hex (some digits) =
    if not (length digits == 64)
    then some (err invalid_key_length)
    else key_of_digits (decode_pairs digits)

unfoldable pub key_from_stored_transport_key : Bytes → Option (Result CryptoError CryptoKey)
key_from_stored_transport_key value = key_of_hex (strip_prefix (codes "key-v1-") value)

-- The stored form of a secret gives the key that the secret itself gives, when the digest is 32 bytes;
-- that key is the digest, and it may not be used to seal with a random nonce.
pub key_from_stored_transport_key-stored :
    (sha256 : Bytes → Bytes) (secret : Bytes)
    → length (sha256 secret) ≡ 32
    → All IsByte (sha256 secret)
    → (key_from_stored_transport_key (stored_transport_key_from_invitation_secret sha256 secret)
        ≡ some (ok (from_secret (sha256 secret) false)))
      × (key_from_invitation_secret sha256 secret ≡ some (from_secret (sha256 secret) false))
unfolding key_from_stored_transport_key stored_transport_key_from_invitation_secret
    key_from_invitation_secret key_from_bytes
key_from_stored_transport_key-stored sha256 secret len bytes = (
  rw (
    strip_prefix-append (codes "key-v1-") (hex (sha256 secret)),
    length-hex (sha256 secret),
    len,
    decode_pairs-hex (sha256 secret) bytes,
    len,
  ),
  rw len,
)
