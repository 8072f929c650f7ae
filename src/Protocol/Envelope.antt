-- ===== src/Protocol/Envelope.antt =====
-- The serialized handshake envelope of agent/protocol/src/lib.rs: `parse_envelope` and the byte layout
-- that sealing writes.
pub mod RoundTrip
pub mod Canonical
use localscale.Prelude.{
  ℕ, ◌+◌, ◌-◌, ◌≤◌, ◌^◌, ◌≡◌, Bool, true, not, ◌&&◌, [], ◌∷◌, ◌++◌, Bytes, codes, bytes_eq, length,
  get_or, slice, ltb, leb, ◌==◌, if◌then◌else◌, Result, ok, err, ◌>>=◌, ◌>>◌, ensure,
}
use localscale.Codec.Endian.{be_u16, be_u32, from_be}
use localscale.Codec.Utf8.{is_utf8}
use localscale.Protocol.Syntax.{valid_node_id}
use localscale.Protocol.Message.{version}
use localscale.Protocol.Validate.{Role, host, cliente}

pub data CryptoError : Type 0 where
  invalid_key_length invalid_node_id authentication_failed nonce_reuse : CryptoError
  unsafe_nonce_policy malformed_envelope : CryptoError

abbrev pub nonce_len : ℕ
nonce_len = 24

abbrev pub magic : Bytes
magic = codes "LSV1"

abbrev pub role_byte : Role → ℕ
role_byte host = 0
role_byte cliente = 1

pub associated_data : Role → Bytes → Bytes
associated_data role node = codes "LS" ++ (version ∷ role_byte role ∷ node)

pub record ParsedEnvelope : Type 0 where
  pub role : Role
  pub node_id : Bytes
  pub nonce : Bytes
  pub ciphertext : Bytes

-- The `extend_from_slice` calls of sealing; the length words truncate as `as u16` and `as u32` do.
unfoldable pub envelope_bytes : ParsedEnvelope → Bytes
envelope_bytes e =
    magic
    ++ (role_byte e.role
        ∷ (be_u16 (length e.node_id)
            ++ (e.node_id ++ (e.nonce ++ (be_u32 (length e.ciphertext) ++ e.ciphertext)))))

parse_role : ℕ → Result CryptoError Role
parse_role b = if b == 0 then ok host else if b == 1 then ok cliente else err malformed_envelope

-- `a.checked_add(b)` on a 64-bit `usize`.
checked_add : ℕ → ℕ → Result CryptoError ℕ
checked_add a b = if ltb (2 ^ 64 - 1) (a + b) then err malformed_envelope else ok (a + b)

parse_body : Bytes → Role → ℕ → Result CryptoError ParsedEnvelope
parse_body bytes role node_len = do
  nonce_start ← checked_add 7 node_len
  len_start ← checked_add nonce_start nonce_len
  end_header ← checked_add len_start 4
  ensure (not (ltb (length bytes) end_header)) malformed_envelope
  let node = slice bytes 7 nonce_start
  ensure (is_utf8 node) malformed_envelope
  ensure (valid_node_id node) malformed_envelope
  let ciphertext_len = from_be (slice bytes len_start end_header)
  end ← checked_add end_header ciphertext_len
  ensure (not (ltb ciphertext_len 16) && end == length bytes) malformed_envelope
  ok (record {
    role = role;
    node_id = node;
    nonce = slice bytes nonce_start len_start;
    ciphertext = slice bytes end_header end;
  })

pub parse_envelope : Bytes → Result CryptoError ParsedEnvelope
parse_envelope bytes = do
  ensure (not (ltb (length bytes) (4 + 1 + 2 + nonce_len + 4))) malformed_envelope
  ensure (bytes_eq (slice bytes 0 4) magic) malformed_envelope
  role ← parse_role (get_or bytes 4 0)
  parse_body bytes role (from_be (get_or bytes 5 0 ∷ get_or bytes 6 0 ∷ []))

-- What every accepted envelope satisfies.
pub record IsSealed (e : ParsedEnvelope) : Type 0 where
  pub node_valid : valid_node_id e.node_id ≡ true
  pub nonce_length : length e.nonce ≡ nonce_len
  pub tagged : 16 ≤ length e.ciphertext
  pub fits : length e.ciphertext ≤ 2 ^ 32 - 1
