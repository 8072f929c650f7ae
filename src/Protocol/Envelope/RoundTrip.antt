-- ===== src/Protocol/Envelope/RoundTrip.antt =====
-- An envelope that was written is read back.
use localscale.Prelude.{
  ℕ, ◌+◌, ◌-◌, ◌^◌, ◌≤◌, ◌≡◌, refl, sym, ◌∙◌, ap, true, [], ◌∷◌, ◌++◌, append_assoc, append-nil,
  arith, Bytes, length, length-append, slice, slice-append, bytes_eq, get_or, slice_of_append, ok,
}
use localscale.Codec.Endian.{be_u16, be_u32, from_be, from_be-be_u16, from_be-be_u32}
use localscale.Codec.Utf8.{is_utf8, is_utf8_ascii}
use localscale.Protocol.Syntax.{
  valid_node_id, valid_node_id-Fields, Fields-IsAscii, length-valid_node_id,
}
use localscale.Protocol.Validate.{Role, host, cliente}
use localscale.Protocol.Envelope.{
  ParsedEnvelope, envelope_bytes, magic, role_byte, parse_envelope, parse_body, checked_add,
  parse_role, IsSealed,
}

pub valid_node_id-utf8 : (v : Bytes) → valid_node_id v ≡ true → is_utf8 v ≡ true
valid_node_id-utf8 v h = is_utf8_ascii v (Fields-IsAscii v (valid_node_id-Fields v h))

-- The checks behind the fixed header pass for bytes of these lengths.
parse_body_lem :
    (bytes : Bytes) (role : Role) (n c : ℕ)
    → n ≤ 65535
    → 16 ≤ c
    → c ≤ 2 ^ 32 - 1
    → length bytes ≡ 35 + n + c
    → valid_node_id (slice bytes 7 (7 + n)) ≡ true
    → from_be (slice bytes (7 + n + 24) (7 + n + 24 + 4)) ≡ c
    → parse_body bytes role n
      ≡ ok (record {
        role = role;
        node_id = slice bytes 7 (7 + n);
        nonce = slice bytes (7 + n) (7 + n + 24);
        ciphertext = slice bytes (7 + n + 24 + 4) (7 + n + 24 + 4 + c);
      })
unfolding parse_body checked_add
parse_body_lem bytes role n c hn hc fits len node word =
    ground (arith, valid_node_id-utf8 (slice bytes 7 (7 + n)))

parse_role-role_byte : (r : Role) → parse_role (role_byte r) ≡ ok r
unfolding parse_role
parse_role-role_byte host = refl
parse_role-role_byte cliente = refl

parse_header :
    (bytes : Bytes) (role : Role)
    → 35 ≤ length bytes
    → bytes_eq (slice bytes 0 4) magic ≡ true
    → parse_role (get_or bytes 4 0) ≡ ok role
    → parse_envelope bytes
      ≡ parse_body bytes role (from_be (get_or bytes 5 0 ∷ get_or bytes 6 0 ∷ []))
unfolding parse_envelope
parse_header bytes role long begins known = ground arith

module _ (e : ParsedEnvelope) (s : IsSealed e) where
  abbrev pub n : ℕ
  n = length e.node_id

  abbrev pub c : ℕ
  c = length e.ciphertext

  abbrev header : Bytes
  header = magic ++ (role_byte e.role ∷ be_u16 n)

  abbrev tail : Bytes
  tail = be_u32 c ++ e.ciphertext

  pub length-envelope_bytes : length (envelope_bytes e) ≡ 35 + n + c
  unfolding envelope_bytes
  length-envelope_bytes =
      omega (
        arith,
        length-append e.node_id (e.nonce ++ tail),
        length-append e.nonce tail,
        s.nonce_length,
      )

  pub node_slice : slice (envelope_bytes e) 7 (7 + n) ≡ e.node_id
  unfolding envelope_bytes
  node_slice = slice-append header e.node_id (e.nonce ++ tail) 7 (7 + n) refl refl

  nonce_slice : slice (envelope_bytes e) (7 + n) (7 + n + 24) ≡ e.nonce
  unfolding envelope_bytes
  nonce_slice =
      slice_of_append (envelope_bytes e) (header ++ e.node_id) e.nonce tail (7 + n) (7 + n + 24)
        (sym (append_assoc header e.node_id (e.nonce ++ tail))) (omega arith)
        (omega (arith, s.nonce_length))

  before_word : envelope_bytes e ≡ (header ++ (e.node_id ++ e.nonce)) ++ tail
  unfolding envelope_bytes
  before_word =
      ap (λ (r : Bytes). header ++ r) (sym (append_assoc e.node_id e.nonce tail))
      ∙ sym (append_assoc header (e.node_id ++ e.nonce) tail)

  before : ℕ
  before = length (header ++ (e.node_id ++ e.nonce))

  before_lem : before ≡ 7 + n + 24
  unfolding before
  before_lem = omega (arith, length-append e.node_id e.nonce, s.nonce_length)

  word_slice : slice (envelope_bytes e) (7 + n + 24) (7 + n + 24 + 4) ≡ be_u32 c
  word_slice =
      slice_of_append (envelope_bytes e) (header ++ (e.node_id ++ e.nonce)) (be_u32 c) e.ciphertext
        _ _ before_word (unfold before in sym before_lem)
        (unfold before in omega (arith, before_lem))

  ciphertext_slice : slice (envelope_bytes e) (7 + n + 24 + 4) (7 + n + 24 + 4 + c) ≡ e.ciphertext
  ciphertext_slice =
      slice_of_append (envelope_bytes e) ((header ++ (e.node_id ++ e.nonce)) ++ be_u32 c)
        e.ciphertext [] _ _
        (before_word
          ∙ sym (append_assoc (header ++ (e.node_id ++ e.nonce)) (be_u32 c) e.ciphertext)
          ∙ ap (λ (r : Bytes). ((header ++ (e.node_id ++ e.nonce)) ++ be_u32 c) ++ r)
              (sym (append-nil e.ciphertext)))
        (unfold before in
          omega (arith, before_lem, length-append (header ++ (e.node_id ++ e.nonce)) (be_u32 c)))
        (unfold before in
          omega (arith, before_lem, length-append (header ++ (e.node_id ++ e.nonce)) (be_u32 c)))

  node_word : from_be (be_u16 n) ≡ n
  node_word = from_be-be_u16 n (omega (arith, length-valid_node_id e.node_id s.node_valid))

  -- The length word and the length of the whole, as a peek at the header reads them.
  pub header_word :
      from_be (get_or (envelope_bytes e) 5 0 ∷ get_or (envelope_bytes e) 6 0 ∷ [])
      ≡ length e.node_id
  unfolding envelope_bytes
  header_word = node_word

  parse_body-envelope_bytes : parse_body (envelope_bytes e) e.role n ≡ ok e
  parse_body-envelope_bytes =
      parse_body_lem (envelope_bytes e) e.role n c
        (omega (arith, length-valid_node_id e.node_id s.node_valid)) s.tagged s.fits
        length-envelope_bytes (rw node_slice s.node_valid)
        (rw word_slice (from_be-be_u32 c (omega (arith, s.fits))))
      ∙ cc (node_slice, nonce_slice, ciphertext_slice)

  -- An envelope with a valid node id, a 24-byte nonce and a ciphertext of 16 to 2^32 - 1 bytes is
  -- parsed back from its bytes.
  pub parse_envelope-envelope_bytes : parse_envelope (envelope_bytes e) ≡ ok e
  unfolding envelope_bytes
  parse_envelope-envelope_bytes =
      parse_header (envelope_bytes e) e.role (omega (arith, length-envelope_bytes))
        (unfold slice bytes_eq in refl) (parse_role-role_byte e.role)
      ∙ ap (λ (k : ℕ). parse_body (envelope_bytes e) e.role k) node_word
      ∙ parse_body-envelope_bytes
