-- ===== src/Protocol/Crypto/Sealing.antt =====
-- Opening what was sealed, and what an opened envelope proves.
use localscale.Prelude.{
  ◌+◌, ◌-◌, ◌^◌, ◌≤◌, ◌≡◌, refl, true, false, some, Option-cases, arith, Bytes, IsByte, All, ◌∷◌,
  bytes_eq_iff, bytes_eq_self, length, ok, Result-cases, inl, inr,
}
use localscale.Protocol.Syntax.{valid_node_id}
use localscale.Protocol.Validate.{Role, host, cliente}
use localscale.Protocol.Envelope.{
  ParsedEnvelope, envelope_bytes, parse_envelope, associated_data, IsSealed, nonce_len,
}
use localscale.Protocol.Envelope.RoundTrip.{parse_envelope-envelope_bytes}
use localscale.Protocol.Envelope.Canonical.{envelope_bytes-parse_envelope}
use localscale.Protocol.Crypto.{
  Aead, CryptoKey, HandshakeEnvelope, envelope_from_bytes, seal_unchecked, open_envelope, same_role,
  seal_with_allocator, seal_with_nonce_internal, record_nonce, mem,
}

-- What is relied on of the cipher: short texts are encrypted, decryption undoes encryption, a ciphertext is 16 bytes longer than
-- its text, and only what the same key sealed for the same nonce and data is decrypted.
pub record IsAead (a : Aead) : Type 0 where
  pub encrypts :
      (key nonce ad text : Bytes)
      → length text ≤ 65536
      → (c : Bytes) × (a.encrypt key nonce ad text ≡ some c)
  pub opens :
      (key nonce ad text c : Bytes)
      → a.encrypt key nonce ad text ≡ some c
      → a.decrypt key nonce ad c ≡ some text
  pub tag_length :
      (key nonce ad text c : Bytes)
      → a.encrypt key nonce ad text ≡ some c
      → length c ≡ length text + 16
  pub authentic :
      (key nonce ad c text : Bytes)
      → a.decrypt key nonce ad c ≡ some text
      → a.encrypt key nonce ad text ≡ some c

pub same_role_self : (r : Role) → same_role r r ≡ true
unfolding same_role
same_role_self host = refl
same_role_self cliente = refl

same_role_sound : (r s : Role) → same_role r s ≡ true → r ≡ s
unfolding same_role
same_role_sound host host h = refl
same_role_sound host cliente h = cc
same_role_sound cliente host h = cc
same_role_sound cliente cliente h = refl

module _ (aead : Aead) (laws : IsAead aead) where
  abbrev parsed_of : Role → Bytes → Bytes → Bytes → ParsedEnvelope
  parsed_of role node nonce c = record {
    role = role;
    node_id = node;
    nonce = nonce;
    ciphertext = c;
  }

  -- A short text is sealed, into an envelope that holds its ciphertext.
  pub seal_unchecked_short :
      (key : CryptoKey) (role : Role) (node nonce text : Bytes)
      → valid_node_id node ≡ true
      → length nonce ≡ nonce_len
      → length text ≤ 65000
      → (p : ParsedEnvelope) × (seal_unchecked aead key role node nonce text
          ≡ ok (record { bytes = envelope_bytes p; nonce = nonce }))
        × IsSealed p
        × (p.node_id ≡ node)
        × (length p.ciphertext ≡ length text + 16)
  unfolding seal_unchecked
  seal_unchecked_short key role node nonce text valid len short =
      let (c, made) =
        laws.encrypts key.secret nonce (associated_data role node) text (omega arith) in
      let tag = laws.tag_length key.secret nonce (associated_data role node) text c made in
      (
        parsed_of role node nonce c,
        rw made,
        record { node_valid = valid; nonce_length = len; tagged = omega arith; fits = omega arith },
        refl,
        tag,
      )

  -- A sealed envelope holds a ciphertext of the right length.
  seal_unchecked-eq-ok :
      (key : CryptoKey) (role : Role) (node nonce text : Bytes) (e : HandshakeEnvelope)
      → seal_unchecked aead key role node nonce text ≡ ok e
      → (c : Bytes) × (aead.encrypt key.secret nonce (associated_data role node) text ≡ some c)
        × (e ≡ record { bytes = envelope_bytes (parsed_of role node nonce c); nonce = nonce })
  unfolding seal_unchecked
  seal_unchecked-eq-ok key role node nonce text e h =
      elim (Option-cases (aead.encrypt key.secret nonce (associated_data role node) text)) [
        | inl gone ↦ absurd (ground arith)
        | inr (c, made) ↦ (c, made, ground arith)
      ]

  parse-sealed :
      (key : CryptoKey) (role : Role) (node nonce text c : Bytes)
      → valid_node_id node ≡ true
      → length nonce ≡ nonce_len
      → length text + 16 ≤ 2 ^ 32 - 1
      → aead.encrypt key.secret nonce (associated_data role node) text ≡ some c
      → parse_envelope (envelope_bytes (parsed_of role node nonce c))
        ≡ ok (parsed_of role node nonce c)
  parse-sealed key role node nonce text c valid len fits made =
      let tag = laws.tag_length key.secret nonce (associated_data role node) text c made in
      parse_envelope-envelope_bytes (parsed_of role node nonce c) (record {
        node_valid = valid;
        nonce_length = len;
        tagged = omega arith;
        fits = omega arith;
      })

  module _ (key other : CryptoKey) (role : Role) (node nonce text : Bytes) (e : HandshakeEnvelope)
      (shared : other.secret ≡ key.secret) (valid : valid_node_id node ≡ true)
      (len : length nonce ≡ nonce_len) (fits : length text + 16 ≤ 2 ^ 32 - 1)
      (sealed : seal_unchecked aead key role node nonce text ≡ ok e) where
    -- What one side seals for a valid node id with a 24-byte nonce, a side with the same secret opens to the
    -- same text under the role and the node id that it was sealed for. The text is short enough that its
    -- ciphertext, 16 bytes longer, is at most 2^32 - 1 bytes long.
    pub open-seal : open_envelope aead e other role node ≡ ok text
    unfolding open_envelope
    open-seal =
        let (c, made, shape) = seal_unchecked-eq-ok key role node nonce text e sealed in
        let parsed = parse-sealed key role node nonce text c valid len fits made in
        let opened = laws.opens key.secret nonce (associated_data role node) text c made in
        rw (shape, valid, parsed, same_role_self role, bytes_eq_self node, shared, opened)

    -- The sealed bytes are accepted as an envelope with the nonce that was used.
    pub envelope_from_bytes-seal : envelope_from_bytes e.bytes ≡ ok e
    unfolding envelope_from_bytes
    envelope_from_bytes-seal =
        let (c, made, shape) = seal_unchecked-eq-ok key role node nonce text e sealed in
        let parsed = parse-sealed key role node nonce text c valid len fits made in
        rw (shape, parsed)

  -- The checks that opening makes, for a parsed envelope.
  opened_parts :
      (e : HandshakeEnvelope) (key : CryptoKey) (role : Role) (node text : Bytes)
      (p : ParsedEnvelope)
      → parse_envelope e.bytes ≡ ok p
      → open_envelope aead e key role node ≡ ok text
      → (p.role ≡ role)
        × (p.node_id ≡ node)
        × (aead.decrypt key.secret p.nonce (associated_data p.role p.node_id) p.ciphertext
            ≡ some text)
  unfolding open_envelope
  opened_parts e key role node text p parsed h = (
    same_role_sound p.role role (ground arith),
    (bytes_eq_iff p.node_id node).0 (ground arith),
    ground arith,
  )

  seal_again :
      (key : CryptoKey) (p : ParsedEnvelope) (text : Bytes)
      → aead.encrypt key.secret p.nonce (associated_data p.role p.node_id) text ≡ some p.ciphertext
      → seal_unchecked aead key p.role p.node_id p.nonce text
        ≡ ok (record { bytes = envelope_bytes p; nonce = p.nonce })
  unfolding seal_unchecked
  seal_again key p text made = rw made

  -- An envelope that opens was sealed with the same secret, for this role and node id, with the text
  -- that comes out: an envelope for another role or node id is refused.
  pub open_envelope-authentic :
      (e : HandshakeEnvelope) (key : CryptoKey) (role : Role) (node text : Bytes)
      → All IsByte e.bytes
      → open_envelope aead e key role node ≡ ok text
      → (nonce : Bytes) × (seal_unchecked aead key role node nonce text
          ≡ ok (record { bytes = e.bytes; nonce = nonce }))
  open_envelope-authentic e key role node text bytes h =
      elim (Result-cases (parse_envelope e.bytes)) [
        | inl (p, parsed) ↦
            let (r, n, plain) = opened_parts e key role node text p parsed h in
            let made = laws.authentic key.secret p.nonce _ p.ciphertext text plain in
            (
              p.nonce,
              cc (
                seal_again key p text made,
                r,
                n,
                (envelope_bytes-parse_envelope e.bytes p bytes parsed).0,
              ),
            )
        | inr (c, failed) ↦ absurd (unfold open_envelope in ground arith)
      ]

-- With an unused nonce from the allocator, sealing is the encryption alone.
pub seal_with_allocator_lem :
    (aead : Aead) (key : CryptoKey) (role : Role) (node nonce text : Bytes)
    → mem nonce key.used_nonces ≡ false
    → valid_node_id node ≡ true
    → seal_with_allocator aead key role node (ok nonce) text ≡ (
      seal_unchecked aead key role node nonce text,
      record key { used_nonces = nonce ∷ key.used_nonces },
    )
unfolding seal_with_allocator seal_with_nonce_internal record_nonce seal_unchecked
seal_with_allocator_lem aead key role node nonce text new valid = rw (new, valid)
