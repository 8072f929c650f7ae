-- ===== src/Protocol/Message.antt =====
-- `Message`, `parse_message` and `validate_syntax` of agent/protocol/src/lib.rs, and the printer
-- `encode_message` of agent/protocol/agent/transport/src/lib.rs.
pub mod RoundTrip
pub mod Sound
mod Tests
use localscale.Prelude.{
  ℕ, ◌≤◌, ◌≡◌, Bool, true, not, ◌||◌, List, [], ◌∷◌, ◌++◌, Bytes, codes, ltb, ◌==◌, if◌then◌else◌,
  bytes_eq, strip_prefix, Result, ok, err, ◌>>=◌, ◌>>◌, ensure, ok_or,
}
use localscale.Codec.Utf8.{is_utf8}
use localscale.Codec.Fields.{split}
use localscale.Codec.Decimal.{decimal, parse_u64, parse_u16, parse_u8, u64_max}
use localscale.Protocol.Syntax.{valid_node_id, valid_nonce}

abbrev pub version : ℕ
version = 1

abbrev pub min_mtu : ℕ
min_mtu = 576

abbrev pub max_mtu : ℕ
max_mtu = 9_000

pub data Message : Type 0 where
  handshake_init : Bytes → ℕ → Bytes → Message
  handshake_response : Bytes → ℕ → Bytes → Message
  keepalive : Bytes → ℕ → Message
  mtu_probe : Bytes → ℕ → Message

pub data ParseError : Type 0 where
  invalid_utf8 invalid_field_count invalid_version : ParseError
  unsupported_version : ℕ → ParseError
  unknown_message invalid_timestamp invalid_mtu invalid_node_id invalid_nonce : ParseError

abbrev pub node_of : Message → Bytes
node_of (handshake_init node timestamp nonce) = node
node_of (handshake_response node timestamp nonce) = node
node_of (keepalive node timestamp) = node
node_of (mtu_probe node mtu) = node

-- The arms of the second `match` of `validate_syntax`.
abbrev validate_body : Message → Result ParseError (Unit {0})
validate_body (handshake_init node timestamp nonce) = ensure (valid_nonce nonce) invalid_nonce
validate_body (handshake_response node timestamp nonce) = ensure (valid_nonce nonce) invalid_nonce
validate_body (keepalive node timestamp) = ok tt
validate_body (mtu_probe node mtu) = ensure (not (ltb mtu min_mtu || ltb max_mtu mtu)) invalid_mtu

pub validate_syntax : Message → Result ParseError (Unit {0})
validate_syntax m = do ensure (valid_node_id (node_of m)) invalid_node_id; validate_body m

parse_timestamp : Bytes → Result ParseError ℕ
parse_timestamp value = ok_or (parse_u64 value) invalid_timestamp

pub parse_version : Bytes → Result ParseError ℕ
parse_version field = do
  rest ← ok_or (strip_prefix (codes "v") field) invalid_version
  ok_or (parse_u8 rest) invalid_version

parse_phase : Bytes → Bytes → Bytes → Bytes → Result ParseError Message
parse_phase phase node timestamp nonce =
    if bytes_eq phase (codes "init")
    then (do t ← parse_timestamp timestamp; ok (handshake_init node t nonce))
    else if bytes_eq phase (codes "response")
    then (do t ← parse_timestamp timestamp; ok (handshake_response node t nonce))
    else err unknown_message

-- `validate_syntax(&msg)?; Ok(msg)`
checked : Message → Result ParseError Message
checked m = do validate_syntax m; ok m

-- The arms of the `match` on the kind and the number of fields.
parse_body : Bytes → List Bytes → Result ParseError Message
parse_body kind (phase ∷ node ∷ timestamp ∷ nonce ∷ []) =
    if bytes_eq kind (codes "handshake")
    then (do m ← parse_phase phase node timestamp nonce; checked m)
    else err unknown_message
parse_body kind (node ∷ value ∷ []) =
    if bytes_eq kind (codes "keepalive")
    then (do t ← parse_timestamp value; checked (keepalive node t))
    else if bytes_eq kind (codes "mtu")
    then (do mtu ← ok_or (parse_u16 value) invalid_mtu; checked (mtu_probe node mtu))
    else err unknown_message
parse_body kind _ = err unknown_message

parse_fields : List Bytes → Result ParseError Message
parse_fields (field ∷ kind ∷ rest) = do
  v ← parse_version field
  ensure (v == version) (unsupported_version v)
  parse_body kind rest
parse_fields _ = err invalid_field_count

pub parse_message : Bytes → Result ParseError Message
unfolding parse_fields
parse_message input =
    if not (is_utf8 input) then err invalid_utf8 else parse_fields (split b'|' input)

unfoldable pub encode_message : Message → Bytes
encode_message (handshake_init node timestamp nonce) =
    codes "v"
    ++ (decimal version
        ++ (codes "|handshake|init|"
            ++ (node ++ (codes "|" ++ (decimal timestamp ++ (codes "|" ++ nonce))))))
encode_message (handshake_response node timestamp nonce) =
    codes "v"
    ++ (decimal version
        ++ (codes "|handshake|response|"
            ++ (node ++ (codes "|" ++ (decimal timestamp ++ (codes "|" ++ nonce))))))
encode_message (keepalive node timestamp) =
    codes "v"
    ++ (decimal version ++ (codes "|keepalive|" ++ (node ++ (codes "|" ++ decimal timestamp))))
encode_message (mtu_probe node mtu) =
    codes "v" ++ (decimal version ++ (codes "|mtu|" ++ (node ++ (codes "|" ++ decimal mtu))))

-- What every accepted message satisfies.
abbrev pub IsValidBody : Message → Type 0
IsValidBody (handshake_init node timestamp nonce) =
    (timestamp ≤ u64_max) × (valid_nonce nonce ≡ true)
IsValidBody (handshake_response node timestamp nonce) =
    (timestamp ≤ u64_max) × (valid_nonce nonce ≡ true)
IsValidBody (keepalive node timestamp) = timestamp ≤ u64_max
IsValidBody (mtu_probe node mtu) = (min_mtu ≤ mtu) × (mtu ≤ max_mtu)

abbrev pub IsValid : Message → Type 0
IsValid m = (valid_node_id (node_of m) ≡ true) × IsValidBody m
