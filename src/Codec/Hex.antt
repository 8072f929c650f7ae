-- ===== src/Codec/Hex.antt =====
-- `hex`, and the decoding by two-byte slices of `decode_nonce` and `key_from_stored_transport_key`
-- (agent/protocol/agent/transport/src/lib.rs). Slicing a `str` inside a character panics.
use localscale.Prelude.{
  Bool-cases, inl, inr, true, ℕ, ◌+◌, ◌-◌, ◌*◌, ◌/◌, ◌%◌, ◌<◌, ◌≡◌, refl, Bool, false, ◌&&◌, ◌||◌,
  Option, none, some, [], ◌∷◌, arith, Bytes, IsByte, All, ◌∙◌, sym, ltb, leb, ◌==◌, if◌then◌else◌,
  length,
}
use localscale.Codec.Utf8.{IsAscii}

pub data Decoded : Type 0 where
  decoded : Bytes → Decoded
  invalid : Decoded
  panicked : Decoded

-- One digit of `{b:02x}`.
unfoldable pub hex_digit : ℕ → ℕ
hex_digit n = if ltb n 10 then b'0' + n else 87 + n

unfoldable pub hex : Bytes → Bytes
unfolding hex_digit
hex [] = []
hex (b ∷ bs) = hex_digit (b / 16 % 16) ∷ hex_digit (b % 16) ∷ hex bs

-- `char::to_digit(16)`
unfoldable pub hex_value : ℕ → Option ℕ
hex_value c =
    if leb b'0' c && leb c b'9'
    then some (c - b'0')
    else if leb b'a' c && leb c b'f'
    then some (c - 87)
    else if leb b'A' c && leb c b'F'
    then some (c - 55)
    else none

abbrev join_digits : Option ℕ → Option ℕ → Option ℕ
join_digits (some a) (some b) = some (a * 16 + b)
join_digits (some a) none = none
join_digits none b = none

-- `u8::from_str_radix` on two bytes; a `+` may stand for the first digit.
unfoldable pub hex_pair : ℕ → ℕ → Option ℕ
unfolding hex_value
hex_pair a b = if a == b'+' then hex_value b else join_digits (hex_value a) (hex_value b)

abbrev is_continuation : ℕ → Bool
is_continuation c = leb 0x80 c && ltb c 0xc0

abbrev starts_inside : Bytes → Bool
starts_inside [] = false
starts_inside (c ∷ s) = is_continuation c

abbrev and_byte : Option ℕ → Decoded → Decoded
and_byte none rest = invalid
and_byte (some v) (decoded vs) = decoded (v ∷ vs)
and_byte (some v) invalid = invalid
and_byte (some v) panicked = panicked

unfoldable pub decode_pairs : Bytes → Decoded
decode_pairs [] = decoded []
decode_pairs (a ∷ []) = invalid
decode_pairs (a ∷ b ∷ s) =
    let rest = decode_pairs s in
    if is_continuation a || starts_inside s then panicked else and_byte (hex_pair a b) rest

hex_digit-IsAscii : (n : ℕ) → n < 16 → IsAscii (hex_digit n)
unfolding hex_digit
hex_digit-IsAscii n h = ground arith

hex_value-hex_digit : (n : ℕ) → n < 16 → hex_value (hex_digit n) ≡ some n
unfolding hex_value hex_digit
hex_value-hex_digit n h = ground arith

hex_digit-ne-plus : (n : ℕ) → n < 16 → (hex_digit n == b'+') ≡ false
unfolding hex_digit
hex_digit-ne-plus n h = ground arith

-- Hexadecimal text is ASCII.
pub hex-IsAscii : (bs : Bytes) → All IsAscii (hex bs)
unfolding hex
hex-IsAscii [] = tt
hex-IsAscii (b ∷ bs) =
    (hex_digit-IsAscii _ (omega arith), (hex_digit-IsAscii _ (omega arith), hex-IsAscii bs))

pub length-hex : (bs : Bytes) → length (hex bs) ≡ 2 * length bs
unfolding hex
length-hex [] = refl
length-hex (b ∷ bs) = omega (arith, length-hex bs)

hex_starts : (bs : Bytes) → starts_inside (hex bs) ≡ false
hex_starts [] = unfold hex in refl
hex_starts (b ∷ bs) = unfold hex in ground (arith, hex_digit-IsAscii (b / 16 % 16))

hex_pair-hex_digit :
    (b : ℕ) → IsByte b → hex_pair (hex_digit (b / 16 % 16)) (hex_digit (b % 16)) ≡ some b
unfolding hex_pair
hex_pair-hex_digit b h = ground (
  arith,
  hex_digit-ne-plus (b / 16 % 16),
  hex_value-hex_digit (b / 16 % 16),
  hex_value-hex_digit (b % 16),
)

decode_step :
    (a b : ℕ) (s : Bytes)
    → IsAscii a
    → starts_inside s ≡ false
    → decode_pairs (a ∷ b ∷ s) ≡ and_byte (hex_pair a b) (decode_pairs s)
unfolding decode_pairs
decode_step a b s h e = rw e (ground arith)

-- Bytes come back from their hexadecimal text.
pub decode_pairs-hex : (bs : Bytes) → All IsByte bs → decode_pairs (hex bs) ≡ decoded bs
unfolding hex
decode_pairs-hex [] h = unfold decode_pairs in refl
decode_pairs-hex (b ∷ bs) h =
    decode_step _ _ (hex bs) (hex_digit-IsAscii _ (omega arith)) (hex_starts bs)
    ∙ cc (hex_pair-hex_digit b h.0, decode_pairs-hex bs h.1)

not_panicked-and_byte :
    (o : Option ℕ) (d : Decoded) → (d ≡ panicked → ⊥) → and_byte o d ≡ panicked → ⊥
not_panicked-and_byte none d h e = cc
not_panicked-and_byte (some v) (decoded vs) h e = cc
not_panicked-and_byte (some v) invalid h e = cc
not_panicked-and_byte (some v) panicked h e = h refl

ascii_starts : (s : Bytes) → All IsAscii s → starts_inside s ≡ false
ascii_starts [] h = refl
ascii_starts (c ∷ s) h = ground arith

-- On ASCII text the slices never panic.
pub decode_pairs_ascii : (s : Bytes) → All IsAscii s → decode_pairs s ≡ panicked → ⊥
decode_pairs_ascii [] h e = unfold decode_pairs in cc
decode_pairs_ascii (a ∷ []) h e = unfold decode_pairs in cc
decode_pairs_ascii (a ∷ b ∷ s) h e =
    not_panicked-and_byte (hex_pair a b) (decode_pairs s) (decode_pairs_ascii s h.1.1)
      (sym (decode_step a b s h.0 (ascii_starts s h.1.1)) ∙ e)

hex_value-lt : (c v : ℕ) → hex_value c ≡ some v → v < 16
unfolding hex_value
hex_value-lt c v h = ground arith

join_digits-IsByte :
    (a b : Option ℕ) (v : ℕ)
    → ((x : ℕ) → a ≡ some x → x < 16)
    → ((x : ℕ) → b ≡ some x → x < 16)
    → join_digits a b ≡ some v
    → IsByte v
join_digits-IsByte (some a) (some b) v ha hb h = ground (arith, ha a refl, hb b refl)
join_digits-IsByte (some a) none v ha hb h = absurd (ground arith)
join_digits-IsByte none b v ha hb h = absurd (ground arith)

hex_pair-IsByte : (a b v : ℕ) → hex_pair a b ≡ some v → IsByte v
unfolding hex_pair
hex_pair-IsByte a b v h = elim (Bool-cases (a == b'+')) [
  | inl plus ↦ ground (arith, hex_value-lt b v)
  | inr digit ↦
      join_digits-IsByte (hex_value a) (hex_value b) v (hex_value-lt a) (hex_value-lt b)
        (ground arith)
]

and_byte-decoded :
    (o : Option ℕ) (d : Decoded) (v : Bytes)
    → and_byte o d ≡ decoded v
    → (x : ℕ) × (vs : Bytes) × (o ≡ some x) × (d ≡ decoded vs) × (v ≡ x ∷ vs)
and_byte-decoded none d v h = absurd (cc)
and_byte-decoded (some x) (decoded vs) v h = (x, vs, refl, refl, ground arith)
and_byte-decoded (some x) invalid v h = absurd (cc)
and_byte-decoded (some x) panicked v h = absurd (cc)

step-decoded :
    (test : Bool) (o : Option ℕ) (d : Decoded) (v : Bytes)
    → (if test then panicked else and_byte o d) ≡ decoded v
    → and_byte o d ≡ decoded v
step-decoded true o d v h = absurd (cc)
step-decoded false o d v h = h

-- What is decoded has half as many bytes as the text.
pub decode_pairs_sound :
    (s v : Bytes) → decode_pairs s ≡ decoded v → (length s ≡ 2 * length v) × All IsByte v
unfolding decode_pairs
decode_pairs_sound [] v h = let e : [] ≡ v = ground arith in rw (← e) (refl, tt)
decode_pairs_sound (a ∷ []) v h = absurd (cc)
decode_pairs_sound (a ∷ b ∷ s) v h =
    let (x, vs, first, rest, whole) =
      and_byte-decoded (hex_pair a b) (decode_pairs s) v
        (step-decoded (is_continuation a || starts_inside s) (hex_pair a b) (decode_pairs s) v h) in
    let (len, bytes) = decode_pairs_sound s vs rest in
    rw whole (omega arith, (hex_pair-IsByte a b x first, bytes))
