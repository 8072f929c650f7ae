-- ===== src/Protocol/Envelope/Canonical.antt =====
-- The bytes that `parse_envelope` accepts are those of the envelope that it returns.
use localscale.Prelude.{
  ℕ, ◌+◌, ◌^◌, ◌≤◌, ◌<◌, ◌≡◌, ◌∙◌, ap, true, [], ◌∷◌, ◌++◌, arith, Bytes, IsByte, All, length, drop,
  slice, drop-slice, drop-length, append-nil, All-slice, length-slice, get_or, Result-cases, inl,
  inr, ok, bytes_eq_sound,
}
use localscale.Codec.Endian.{be_u16, be_u32, from_be, be_u32_word, be_u16-from_be}
use localscale.Protocol.Syntax.{valid_node_id}
use localscale.Protocol.Validate.{Role}
use localscale.Protocol.Envelope.{
  ParsedEnvelope, envelope_bytes, magic, role_byte, parse_envelope, parse_body, checked_add,
  parse_role, IsSealed,
}

-- What the checks of `parse_body` leave, for an envelope `e` in `bytes`.
record Parsed (bytes : Bytes) (role : Role) (n : ℕ) (e : ParsedEnvelope) : Type 0 where
  same_role : e.role ≡ role
  node : e.node_id ≡ slice bytes 7 (7 + n)
  nonce : e.nonce ≡ slice bytes (7 + n) (7 + n + 24)
  ciphertext : e.ciphertext ≡ slice bytes (7 + n + 24 + 4) (length bytes)
  valid : valid_node_id e.node_id ≡ true
  whole : length bytes ≡ 35 + n + from_be (slice bytes (7 + n + 24) (7 + n + 24 + 4))
  tagged : 16 ≤ from_be (slice bytes (7 + n + 24) (7 + n + 24 + 4))

parse_body-Parsed :
    (bytes : Bytes) (role : Role) (n : ℕ) (e : ParsedEnvelope)
    → n ≤ 65535
    → parse_body bytes role n ≡ ok e
    → Parsed bytes role n e
unfolding parse_body checked_add
parse_body-Parsed bytes role n e small h = ground arith

module _ {bytes : Bytes} {role : Role} {n : ℕ} {e : ParsedEnvelope} (p : Parsed bytes role n e)
    (all : All IsByte bytes) where
  abbrev ns : ℕ
  ns = 7 + n

  abbrev ls : ℕ
  ls = 7 + n + 24

  abbrev eh : ℕ
  eh = 7 + n + 24 + 4

  abbrev word : Bytes
  word = slice bytes ls eh

  parts :
      drop 7 bytes
      ≡ slice bytes 7 ns ++ (slice bytes ns ls ++ (word ++ slice bytes eh (length bytes)))
  parts =
      drop-slice bytes 7 ns (omega arith)
      ∙ ap (λ (r : Bytes). slice bytes 7 ns ++ r)
          (drop-slice bytes ns ls (omega arith)
            ∙ ap (λ (r : Bytes). slice bytes ns ls ++ r)
                (drop-slice bytes ls eh (omega arith)
                  ∙ ap (λ (r : Bytes). word ++ r)
                      (drop-slice bytes eh (length bytes) (omega (arith, p.whole))
                        ∙ ap (λ (r : Bytes). slice bytes eh (length bytes) ++ r) (drop-length bytes)
                        ∙ append-nil _)))

  word_lem : (be_u32 (from_be word) ≡ word) × (from_be word < 2 ^ 32)
  word_lem =
      be_u32_word word
        (omega (arith, p.whole, length-slice bytes ls eh (omega arith) (omega (arith, p.whole))))
        (All-slice bytes ls eh all)

  length_node : length e.node_id ≡ n
  length_node = omega (
    arith,
    p.whole,
    ap (length {A = ℕ}) p.node,
    length-slice bytes 7 ns (omega arith) (omega (arith, p.whole)),
  )

  length_nonce : length e.nonce ≡ 24
  length_nonce = omega (
    arith,
    p.whole,
    ap (length {A = ℕ}) p.nonce,
    length-slice bytes ns ls (omega arith) (omega (arith, p.whole)),
  )

  length_ciphertext : length e.ciphertext ≡ from_be word
  length_ciphertext = omega (
    arith,
    p.whole,
    ap (length {A = ℕ}) p.ciphertext,
    length-slice bytes eh (length bytes) (omega (arith, p.whole)) (omega arith),
  )

  Parsed-IsSealed : IsSealed e
  Parsed-IsSealed = record {
    node_valid = p.valid;
    nonce_length = length_nonce;
    tagged = omega (arith, p.tagged, length_ciphertext);
    fits = omega (arith, word_lem.1, length_ciphertext);
  }

  Parsed-tail :
      e.node_id ++ (e.nonce ++ (be_u32 (length e.ciphertext) ++ e.ciphertext)) ≡ drop 7 bytes
  Parsed-tail =
      ap (λ (w : Bytes). e.node_id ++ (e.nonce ++ (w ++ e.ciphertext)))
        (ap (λ (k : ℕ). be_u32 k) length_ciphertext ∙ word_lem.0)
      ∙ cc (p.node, p.nonce, p.ciphertext, parts)

parse_role_sound : (b : ℕ) (role : Role) → parse_role b ≡ ok role → b ≡ role_byte role
unfolding parse_role
parse_role_sound b Role.host h = ground arith
parse_role_sound b Role.cliente h = ground arith

-- The header of accepted bytes.
record Header (bytes : Bytes) (e : ParsedEnvelope) : Type 0 where
  begins : slice bytes 0 4 ≡ magic
  role : Role
  role_known : get_or bytes 4 0 ≡ role_byte role
  body : parse_body bytes role (from_be (get_or bytes 5 0 ∷ get_or bytes 6 0 ∷ [])) ≡ ok e

parse_envelope-Header :
    (bytes : Bytes) (e : ParsedEnvelope)
    → parse_envelope bytes ≡ ok e
    → (35 ≤ length bytes) × Header bytes e
unfolding parse_envelope
parse_envelope-Header bytes e h = elim (Result-cases (parse_role (get_or bytes 4 0))) [
  | inl (role, known) ↦ (
    ground arith,
    record {
      begins = bytes_eq_sound (slice bytes 0 4) magic (ground arith);
      role = role;
      role_known = parse_role_sound (get_or bytes 4 0) role known;
      body = ground arith;
    },
  )
  | inr (e', unknown) ↦ absurd (ground arith)
]

-- The fixed header is what an envelope begins with.
Header-bytes :
    (a b c d r x y : ℕ) (rest : Bytes) (e : ParsedEnvelope)
    → All IsByte (a ∷ b ∷ c ∷ d ∷ r ∷ x ∷ y ∷ rest)
    → Header (a ∷ b ∷ c ∷ d ∷ r ∷ x ∷ y ∷ rest) e
    → (envelope_bytes e ≡ a ∷ b ∷ c ∷ d ∷ r ∷ x ∷ y ∷ rest) × IsSealed e
unfolding envelope_bytes slice
Header-bytes a b c d r x y rest e all h =
    let n = from_be (x ∷ y ∷ []) in
    let small : n ≤ 65535 = omega arith in
    let p = parse_body-Parsed _ h.role n e small h.body in
    let length_word : be_u16 (length e.node_id) ≡ x ∷ y ∷ [] =
      ap (λ (k : ℕ). be_u16 k) (length_node p all)
      ∙ be_u16-from_be x y (omega arith) (omega arith) in
    (
      cc (h.begins, h.role_known, p.same_role, length_word, Parsed-tail p all),
      Parsed-IsSealed p all,
    )

-- Bytes that are accepted as an envelope are the encoding of the envelope that is returned, and that
-- envelope has a valid node id, a 24-byte nonce and a ciphertext of 16 to 2^32 - 1 bytes.
pub envelope_bytes-parse_envelope :
    (bytes : Bytes) (e : ParsedEnvelope)
    → All IsByte bytes
    → parse_envelope bytes ≡ ok e
    → (envelope_bytes e ≡ bytes) × IsSealed e
envelope_bytes-parse_envelope (a ∷ b ∷ c ∷ d ∷ r ∷ x ∷ y ∷ rest) e all h =
    Header-bytes a b c d r x y rest e all (parse_envelope-Header _ e h).1
envelope_bytes-parse_envelope bytes e all h =
    absurd (omega (arith, (parse_envelope-Header _ e h).0))
