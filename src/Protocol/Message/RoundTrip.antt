-- ===== src/Protocol/Message/RoundTrip.antt =====
-- Printing a message and parsing it back.
use localscale.Prelude.{
  ℕ, ◌≡◌, refl, List, [], ◌∷◌, arith, Bytes, codes, All, strip_prefix, bytes_eq, ok, All-append,
  length, length-append, ◌+◌, ◌≤◌, ◌++◌,
}
use localscale.Codec.Utf8.{is_utf8_ascii, IsAscii}
use localscale.Codec.Fields.{split-join, join, Lacks}
use localscale.Codec.Decimal.{
  decimal, parse_u8, parse_u64-decimal, parse_u16-decimal, decimal-IsDigit, IsDigit, length-decimal,
}
use localscale.Protocol.Syntax.{
  Fields, Fields-Lacks, Fields-IsAscii, valid_node_id-Fields, valid_nonce-Fields,
}
use localscale.Protocol.Message.{
  Message, handshake_init, handshake_response, keepalive, mtu_probe, IsValid, validate_syntax,
  parse_timestamp, parse_phase, parse_version, parse_body, parse_fields, parse_message, checked,
  encode_message, version,
}

digits-Fields : (s : Bytes) → All IsDigit s → Fields s
digits-Fields [] h = tt
digits-Fields (c ∷ s) h = ((omega arith, λ e. absurd (omega arith)), digits-Fields s h.1)

pub decimal-Fields : (n : ℕ) → Fields (decimal n)
decimal-Fields n = digits-Fields (decimal n) (decimal-IsDigit n)

pub join-IsAscii : (fs : List Bytes) → All Fields fs → All IsAscii (join b'|' fs)
join-IsAscii [] h = tt
join-IsAscii (p ∷ []) h = Fields-IsAscii p h.0
join-IsAscii (p ∷ q ∷ ps) h =
    All-append IsAscii p _ (Fields-IsAscii p h.0) (omega arith, join-IsAscii (q ∷ ps) h.1)

pub All-Lacks : (fs : List Bytes) → All Fields fs → All (Lacks b'|') fs
All-Lacks [] h = tt
All-Lacks (p ∷ ps) h = (Fields-Lacks p h.0, All-Lacks ps h.1)

-- Clean fields reach the match of `parse_message` as they were joined.
parse_joined :
    (p : Bytes) (ps : List Bytes)
    → All Fields (p ∷ ps)
    → parse_message (join b'|' (p ∷ ps)) ≡ parse_fields (p ∷ ps)
unfolding parse_message
parse_joined p ps h =
    rw (is_utf8_ascii _ (join-IsAscii (p ∷ ps) h), split-join b'|' p ps (All-Lacks (p ∷ ps) h))

-- The fields that the printer writes.
fields : Message → List Bytes
fields (handshake_init node timestamp nonce) =
    codes "handshake" ∷ codes "init" ∷ node ∷ decimal timestamp ∷ nonce ∷ []
fields (handshake_response node timestamp nonce) =
    codes "handshake" ∷ codes "response" ∷ node ∷ decimal timestamp ∷ nonce ∷ []
fields (keepalive node timestamp) = codes "keepalive" ∷ node ∷ decimal timestamp ∷ []
fields (mtu_probe node mtu) = codes "mtu" ∷ node ∷ decimal mtu ∷ []

encode-join : (m : Message) → encode_message m ≡ join b'|' (codes "v1" ∷ fields m)
unfolding encode_message fields decimal
encode-join (handshake_init node timestamp nonce) = refl
encode-join (handshake_response node timestamp nonce) = refl
encode-join (keepalive node timestamp) = refl
encode-join (mtu_probe node mtu) = refl

fields-Fields : (m : Message) → IsValid m → All Fields (codes "v1" ∷ fields m)
unfolding fields
fields-Fields (handshake_init node timestamp nonce) h = (
  omega arith,
  (
    omega arith,
    (
      omega arith,
      (
        valid_node_id-Fields node h.0,
        (decimal-Fields timestamp, (valid_nonce-Fields nonce h.1.1, tt)),
      ),
    ),
  ),
)
fields-Fields (handshake_response node timestamp nonce) h = (
  omega arith,
  (
    omega arith,
    (
      omega arith,
      (
        valid_node_id-Fields node h.0,
        (decimal-Fields timestamp, (valid_nonce-Fields nonce h.1.1, tt)),
      ),
    ),
  ),
)
fields-Fields (keepalive node timestamp) h =
    (omega arith, (omega arith, (valid_node_id-Fields node h.0, (decimal-Fields timestamp, tt))))
fields-Fields (mtu_probe node mtu) h =
    (omega arith, (omega arith, (valid_node_id-Fields node h.0, (decimal-Fields mtu, tt))))

validate_syntax-IsValid : (m : Message) → IsValid m → validate_syntax m ≡ ok tt
unfolding validate_syntax
validate_syntax-IsValid (handshake_init node timestamp nonce) h = ground arith
validate_syntax-IsValid (handshake_response node timestamp nonce) h = ground arith
validate_syntax-IsValid (keepalive node timestamp) h = ground arith
validate_syntax-IsValid (mtu_probe node mtu) h = ground arith

checked-IsValid : (m : Message) → IsValid m → checked m ≡ ok m
unfolding checked
checked-IsValid m h = rw (validate_syntax-IsValid m h)

parse_version_one : parse_version (codes "v1") ≡ ok 1
unfolding parse_version strip_prefix parse_u8
parse_version_one = refl

parse_fields-fields : (m : Message) → IsValid m → parse_fields (codes "v1" ∷ fields m) ≡ ok m
unfolding parse_fields fields parse_body parse_phase parse_timestamp bytes_eq
parse_fields-fields (handshake_init node timestamp nonce) h =
    rw (parse_version_one, parse_u64-decimal timestamp h.1.0) (checked-IsValid _ h)
parse_fields-fields (handshake_response node timestamp nonce) h =
    rw (parse_version_one, parse_u64-decimal timestamp h.1.0) (checked-IsValid _ h)
parse_fields-fields (keepalive node timestamp) h =
    rw (parse_version_one, parse_u64-decimal timestamp h.1) (checked-IsValid _ h)
parse_fields-fields (mtu_probe node mtu) h =
    rw (parse_version_one, parse_u16-decimal mtu (omega arith)) (checked-IsValid _ h)

-- A well-formed message is parsed back from its printed form.
pub parse_message-encode_message :
    (m : Message) → IsValid m → parse_message (encode_message m) ≡ ok m
parse_message-encode_message m h =
    rw (encode-join m, parse_joined (codes "v1") (fields m) (fields-Fields m h))
      (parse_fields-fields m h)

-- Handshake messages are short.
pub length-encode_message :
    (node nonce : Bytes) (timestamp : ℕ)
    → (length (encode_message (handshake_init node timestamp nonce))
        ≤ length node + length nonce + 64)
      × (length (encode_message (handshake_response node timestamp nonce))
          ≤ length node + length nonce + 64)
unfolding encode_message
length-encode_message node nonce timestamp =
    let stamped = decimal timestamp ++ (codes "|" ++ nonce) in
    let body = node ++ (codes "|" ++ stamped) in
    let a = length-append (decimal timestamp) (codes "|" ++ nonce) in
    let b = length-append node (codes "|" ++ stamped) in
    let c = length-append (decimal version) (codes "|handshake|init|" ++ body) in
    let d = length-append (decimal version) (codes "|handshake|response|" ++ body) in
    let t = length-decimal timestamp in let v = length-decimal version in (omega arith, omega arith)
