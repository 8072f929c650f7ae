-- ===== src/Codec/Utf8.antt =====
-- `std::str::from_utf8`: the well-formed sequences of the Unicode standard, read byte by byte.
use localscale.Prelude.{
  ℕ, ◌-◌, ◌<◌, ◌≡◌, refl, Bool, true, false, ◌&&◌, Option, none, some, [], ◌∷◌, arith, Bytes, All,
  ltb, leb, ◌==◌, if◌then◌else◌,
}

-- How many bytes of a sequence are missing, and the range of the next one.
record Need : Type 0 where
  left : ℕ
  low : ℕ
  high : ℕ

abbrev start : Need
start = record { left = 0; low = 0x80; high = 0xbf }

abbrev need : ℕ → ℕ → ℕ → Option Need
need left low high = some (record { left = left; low = low; high = high })

lead : ℕ → Option Need
lead c =
    if ltb c 0x80
    then some start
    else if ltb c 0xc2
    then none
    else if ltb c 0xe0
    then need 1 0x80 0xbf
    else if c == 0xe0
    then need 2 0xa0 0xbf
    else if c == 0xed
    then need 2 0x80 0x9f
    else if ltb c 0xf0
    then need 2 0x80 0xbf
    else if c == 0xf0
    then need 3 0x90 0xbf
    else if ltb c 0xf4
    then need 3 0x80 0xbf
    else if c == 0xf4
    then need 3 0x80 0x8f
    else none

feed : Need → ℕ → Option Need
feed n c =
    if n.left == 0
    then lead c
    else if leb n.low c && leb c n.high
    then need (n.left - 1) 0x80 0xbf
    else none

walk : Need → Bytes → Bool
walk n [] = n.left == 0
walk n (c ∷ s) = elim (feed n c) [ none ↦ false | some m ↦ walk m s ]

unfoldable pub is_utf8 : Bytes → Bool
unfolding walk feed lead
is_utf8 s = walk start s

abbrev pub IsAscii : ℕ → Type 0
IsAscii c = c < 0x80

lead_ascii : (c : ℕ) → IsAscii c → lead c ≡ some start
unfolding lead
lead_ascii c h = ground arith

walk_ascii : (s : Bytes) → All IsAscii s → walk start s ≡ true
unfolding walk feed
walk_ascii [] h = refl
walk_ascii (c ∷ s) h = rw (lead_ascii c h.0, walk) (walk_ascii s h.1)

-- ASCII text is UTF-8.
pub is_utf8_ascii : (s : Bytes) → All IsAscii s → is_utf8 s ≡ true
unfolding is_utf8
is_utf8_ascii s h = walk_ascii s h

two_byte_letter : is_utf8 (0xc3 ∷ 0xa7 ∷ []) ≡ true
unfolding is_utf8
two_byte_letter = refl

surrogate_refused : is_utf8 (0xed ∷ 0xa0 ∷ 0x80 ∷ []) ≡ false
unfolding is_utf8
surrogate_refused = refl
