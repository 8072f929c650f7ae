-- ===== src/Protocol/Crypto.antt =====
-- `CryptoKey` and `HandshakeEnvelope` of agent/protocol/src/lib.rs. The cipher XChaCha20-Poly1305 is a
-- parameter; a method that records a nonce returns its result beside the key that it leaves. Random
-- bytes and the nonce of an allocator come in as arguments. The mutex around the nonces is never
-- poisoned: nothing between its lock and its release can panic.
pub mod Nonces
pub mod Sealing
pub mod Tests
use localscale.Prelude.{
  ℕ, ◌+◌, ◌≡◌, Bool, true, false, not, ◌&&◌, Option, none, some, List, [], ◌∷◌, Bytes, bytes_eq,
  length, ◌==◌, if◌then◌else◌, Result, ok, err, ◌>>=◌, ◌>>◌, ensure, ok_or,
}
use localscale.Protocol.Syntax.{valid_node_id}
use localscale.Protocol.Message.{version}
use localscale.Protocol.Validate.{Role, host, cliente}
use localscale.Protocol.Envelope.{
  CryptoError, invalid_key_length, invalid_node_id, authentication_failed, nonce_reuse,
  unsafe_nonce_policy, ParsedEnvelope, envelope_bytes, parse_envelope, associated_data,
}

-- The third-party cipher: key, nonce, associated data and text.
pub record Aead : Type 0 where
  pub encrypt : Bytes → Bytes → Bytes → Bytes → Option Bytes
  pub decrypt : Bytes → Bytes → Bytes → Bytes → Option Bytes

abbrev pub key_len : ℕ
key_len = 32

pub record CryptoKey : Type 0 where
  pub secret : Bytes
  pub sealing_allowed : Bool
  pub used_nonces : List Bytes

pub from_secret : Bytes → Bool → CryptoKey
from_secret secret allowed = record { secret = secret; sealing_allowed = allowed; used_nonces = [] }

-- `CryptoKey::generate`, from the random bytes that it draws.
pub generate : Bytes → CryptoKey
generate random = from_secret random true

-- `CryptoKey::from_bytes`
unfoldable pub key_from_bytes : Bytes → Result CryptoError CryptoKey
key_from_bytes bytes =
    if not (length bytes == key_len) then err invalid_key_length else ok (from_secret bytes false)

pub clone_for_resolver : CryptoKey → CryptoKey
clone_for_resolver key = from_secret key.secret false

abbrev pub mem : Bytes → List Bytes → Bool
mem n [] = false
mem n (m ∷ ms) = if bytes_eq m n then true else mem n ms

pub record_nonce : CryptoKey → Bytes → Result CryptoError (Unit {0}) × CryptoKey
record_nonce key nonce =
    if mem nonce key.used_nonces
    then (err nonce_reuse, key)
    else (ok tt, record key { used_nonces = nonce ∷ key.used_nonces })

pub record HandshakeEnvelope : Type 0 where
  pub bytes : Bytes
  pub nonce : Bytes

abbrev pub Sealed : Type 0
Sealed = Result CryptoError HandshakeEnvelope

-- `HandshakeEnvelope::from_bytes`
pub envelope_from_bytes : Bytes → Sealed
envelope_from_bytes bytes = do
  parsed ← parse_envelope bytes
  ok (record { bytes = bytes; nonce = parsed.nonce })

pub same_role : Role → Role → Bool
same_role host host = true
same_role host cliente = false
same_role cliente host = false
same_role cliente cliente = true

module _ (aead : Aead) where
  unfoldable pub seal_unchecked : CryptoKey → Role → Bytes → Bytes → Bytes → Sealed
  seal_unchecked key role node nonce plaintext = do
    ciphertext ←
        ok_or (aead.encrypt key.secret nonce (associated_data role node) plaintext)
          authentication_failed
    ok (record {
      bytes =
          envelope_bytes
            (record { role = role; node_id = node; nonce = nonce; ciphertext = ciphertext });
      nonce = nonce;
    })

  abbrev after_record : Result CryptoError (Unit {0}) × CryptoKey → Sealed → Sealed × CryptoKey
  after_record (err e, key) s = (err e, key)
  after_record (ok u, key) s = (s, key)

  pub seal_with_nonce_internal :
      CryptoKey → Role → Bytes → Bytes → Bytes → Bool → Sealed × CryptoKey
  seal_with_nonce_internal key role node nonce plaintext enforce_policy =
      if enforce_policy && not key.sealing_allowed
      then (err unsafe_nonce_policy, key)
      else if not (valid_node_id node)
      then (err invalid_node_id, key)
      else if not enforce_policy
      then (seal_unchecked key role node nonce plaintext, key)
      else after_record (record_nonce key nonce) (seal_unchecked key role node nonce plaintext)

  -- `seal`, with the nonce that `OsRng` fills in.
  pub seal : CryptoKey → Role → Bytes → Bytes → Bytes → Sealed × CryptoKey
  seal key role node random plaintext =
      if not key.sealing_allowed
      then (err unsafe_nonce_policy, key)
      else seal_with_nonce_internal key role node random plaintext true

  pub seal_with_nonce : CryptoKey → Role → Bytes → Bytes → Bytes → Sealed × CryptoKey
  seal_with_nonce key role node nonce plaintext =
      seal_with_nonce_internal key role node nonce plaintext true

  abbrev seal_allocated :
      Result CryptoError (Unit {0}) × CryptoKey → Role → Bytes → Bytes → Bytes → Sealed × CryptoKey
  seal_allocated (err e, key) role node nonce plaintext = (err e, key)
  seal_allocated (ok u, key) role node nonce plaintext =
      seal_with_nonce_internal key role node nonce plaintext false

  -- `seal_with_allocator`, on what `allocator.allocate()` returned.
  pub seal_with_allocator :
      CryptoKey → Role → Bytes → Result CryptoError Bytes → Bytes → Sealed × CryptoKey
  seal_with_allocator key role node (err e) plaintext = (err e, key)
  seal_with_allocator key role node (ok nonce) plaintext =
      seal_allocated (record_nonce key nonce) role node nonce plaintext

  -- `HandshakeEnvelope::open`
  unfoldable pub open_envelope :
      HandshakeEnvelope → CryptoKey → Role → Bytes → Result CryptoError Bytes
  open_envelope envelope key role node = do
    ensure (valid_node_id node) authentication_failed
    parsed ← parse_envelope envelope.bytes
    ensure (same_role parsed.role role && bytes_eq parsed.node_id node) authentication_failed
    ok_or
        (aead.decrypt key.secret parsed.nonce (associated_data parsed.role parsed.node_id)
          parsed.ciphertext)
        authentication_failed
