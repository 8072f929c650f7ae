-- ===== src/Protocol/Syntax.antt =====
-- The field validators of agent/protocol/src/lib.rs.
use localscale.Prelude.{
  ℕ, ◌≤◌, ◌<◌, ◌≡◌, ◌≢◌, Bool, true, false, not, ◌&&◌, ◌||◌, Option, none, some, [], ◌∷◌, arith,
  Bytes, codes, All, length, all, all-All, leb, ◌==◌, strip_suffix,
}
use localscale.Codec.Utf8.{IsAscii}
use localscale.Codec.Fields.{Lacks}

-- `u8::is_ascii_alphanumeric`, `u8::is_ascii_hexdigit`
abbrev pub is_alphanumeric : ℕ → Bool
is_alphanumeric b =
    (leb b'0' b && leb b b'9') || (leb b'a' b && leb b b'z') || (leb b'A' b && leb b b'Z')

abbrev pub is_hexdigit : ℕ → Bool
is_hexdigit b =
    (leb b'0' b && leb b b'9') || (leb b'a' b && leb b b'f') || (leb b'A' b && leb b b'F')

abbrev pub is_empty : Bytes → Bool
is_empty [] = true
is_empty (c ∷ s) = false

abbrev pub node_byte : ℕ → Bool
node_byte b = is_alphanumeric b || b == b'-' || b == b'_' || b == b'.'

unfoldable pub valid_node_id : Bytes → Bool
valid_node_id v = not (is_empty v) && leb (length v) 128 && all node_byte v

unfoldable pub valid_nonce : Bytes → Bool
valid_nonce v = leb 16 (length v) && leb (length v) 128 && all is_hexdigit v

unfoldable pub valid_invitation_secret : Bytes → Bool
valid_invitation_secret v =
    leb 16 (length v)
    && leb (length v) 128
    && all (λ b. is_alphanumeric b || b == b'-' || b == b'_') v

abbrev pub onion_byte : ℕ → Bool
onion_byte b = (leb b'a' b && leb b b'z') || (leb b'2' b && leb b b'7')

abbrev pub is_onion_label : Option Bytes → Bool
is_onion_label none = false
is_onion_label (some label) = length label == 56 && all onion_byte label

unfoldable pub valid_onion_hostname : Bytes → Bool
valid_onion_hostname v = is_onion_label (strip_suffix (codes ".onion") v)

-- Field text: ASCII without the separator.
abbrev pub IsField : ℕ → Type 0
IsField c = (c < 0x80) × (c ≢ b'|')

abbrev pub Fields : Bytes → Type 0
Fields = All IsField

node_byte-IsField : (c : ℕ) → node_byte c ≡ true → IsField c
node_byte-IsField c h = ground arith

is_hexdigit-IsField : (c : ℕ) → is_hexdigit c ≡ true → IsField c
is_hexdigit-IsField c h = ground arith

pub valid_node_id-Fields : (v : Bytes) → valid_node_id v ≡ true → Fields v
unfolding valid_node_id
valid_node_id-Fields v h = all-All node_byte IsField node_byte-IsField v (ground arith)

pub valid_nonce-Fields : (v : Bytes) → valid_nonce v ≡ true → Fields v
unfolding valid_nonce
valid_nonce-Fields v h = all-All is_hexdigit IsField is_hexdigit-IsField v (ground arith)

pub length-valid_node_id : (v : Bytes) → valid_node_id v ≡ true → (0 < length v) × (length v ≤ 128)
unfolding valid_node_id
length-valid_node_id [] h = cc
length-valid_node_id (c ∷ v) h = ground arith

pub Fields-Lacks : (v : Bytes) → Fields v → Lacks b'|' v
Fields-Lacks [] h = tt
Fields-Lacks (c ∷ v) h = (h.0.1, Fields-Lacks v h.1)

pub Fields-IsAscii : (v : Bytes) → Fields v → All IsAscii v
Fields-IsAscii [] h = tt
Fields-IsAscii (c ∷ v) h = (h.0.0, Fields-IsAscii v h.1)
