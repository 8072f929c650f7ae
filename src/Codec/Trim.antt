-- ===== src/Codec/Trim.antt =====
-- `str::trim`: the `White_Space` characters of Unicode at both ends, on the bytes of the text.
use localscale.Prelude.{
  ℕ, zero, suc, ◌<◌, ◌≡◌, refl, Option, none, some, List, [], ◌∷◌, ◌++◌, arith, Bytes, All, length,
  reverse, reverse-reverse, reverse-append_one, All-reverse_onto, strip_prefix,
}

abbrev pub whitespace : List Bytes
whitespace =
    (9 ∷ [])
    ∷ (10 ∷ [])
    ∷ (11 ∷ [])
    ∷ (12 ∷ [])
    ∷ (13 ∷ [])
    ∷ (32 ∷ [])
    ∷ (0xc2 ∷ 0x85 ∷ [])
    ∷ (0xc2 ∷ 0xa0 ∷ [])
    ∷ (0xe1 ∷ 0x9a ∷ 0x80 ∷ [])
    ∷ (0xe2 ∷ 0x80 ∷ 0x80 ∷ [])
    ∷ (0xe2 ∷ 0x80 ∷ 0x81 ∷ [])
    ∷ (0xe2 ∷ 0x80 ∷ 0x82 ∷ [])
    ∷ (0xe2 ∷ 0x80 ∷ 0x83 ∷ [])
    ∷ (0xe2 ∷ 0x80 ∷ 0x84 ∷ [])
    ∷ (0xe2 ∷ 0x80 ∷ 0x85 ∷ [])
    ∷ (0xe2 ∷ 0x80 ∷ 0x86 ∷ [])
    ∷ (0xe2 ∷ 0x80 ∷ 0x87 ∷ [])
    ∷ (0xe2 ∷ 0x80 ∷ 0x88 ∷ [])
    ∷ (0xe2 ∷ 0x80 ∷ 0x89 ∷ [])
    ∷ (0xe2 ∷ 0x80 ∷ 0x8a ∷ [])
    ∷ (0xe2 ∷ 0x80 ∷ 0xa8 ∷ [])
    ∷ (0xe2 ∷ 0x80 ∷ 0xa9 ∷ [])
    ∷ (0xe2 ∷ 0x80 ∷ 0xaf ∷ [])
    ∷ (0xe2 ∷ 0x81 ∷ 0x9f ∷ [])
    ∷ (0xe3 ∷ 0x80 ∷ 0x80 ∷ [])
    ∷ []

abbrev reverse_each : List Bytes → List Bytes
reverse_each [] = []
reverse_each (w ∷ ws) = reverse w ∷ reverse_each ws

-- The text behind the first of the characters that it starts with.
abbrev first_of : Option Bytes → Option Bytes → Option Bytes
first_of (some r) rest = some r
first_of none rest = rest

unfoldable pub strip_one : List Bytes → Bytes → Option Bytes
strip_one [] s = none
strip_one (w ∷ ws) s = let rest = strip_one ws s in first_of (strip_prefix w s) rest

abbrev go_on : Option Bytes → Bytes → (Bytes → Bytes) → Bytes
go_on none s rest = s
go_on (some r) s rest = rest r

-- Each step drops a character, so that as many steps as bytes are enough.
unfoldable pub strip_all : ℕ → List Bytes → Bytes → Bytes
strip_all zero ws s = s
strip_all (suc fuel) ws s = go_on (strip_one ws s) s (strip_all fuel ws)

-- `str::trim_start`
abbrev pub trim_start : Bytes → Bytes
trim_start s = strip_all (length s) whitespace s

unfoldable pub trim : Bytes → Bytes
trim s =
    let front = trim_start s in
    reverse (strip_all (length front) (reverse_each whitespace) (reverse front))

-- Visible ASCII text.
abbrev pub IsVisible : ℕ → Type 0
IsVisible c = (32 < c) × (c < 0x80)

abbrev Blank : Bytes → Type 0
Blank [] = ⊥
Blank (c ∷ w) = IsVisible c → ⊥

strip_prefix-Blank : (w s : Bytes) → Blank w → All IsVisible s → strip_prefix w s ≡ none
unfolding strip_prefix
strip_prefix-Blank [] s b h = absurd b
strip_prefix-Blank (c ∷ w) [] b h = refl
strip_prefix-Blank (c ∷ w) (d ∷ s) b h = ground arith

strip_one_visible :
    (ws : List Bytes) (s : Bytes) → All Blank ws → All IsVisible s → strip_one ws s ≡ none
unfolding strip_one
strip_one_visible [] s b h = refl
strip_one_visible (w ∷ ws) s b h = rw (strip_prefix-Blank w s b.0 h, strip_one_visible ws s b.1 h)

strip_all_visible :
    (fuel : ℕ) (ws : List Bytes) (s : Bytes)
    → All Blank ws
    → All IsVisible s
    → strip_all fuel ws s ≡ s
unfolding strip_all
strip_all_visible zero ws s b h = refl
strip_all_visible (suc fuel) ws s b h = rw (strip_one_visible ws s b h)

-- Visible ASCII text is left alone.
pub trim_visible : (s : Bytes) → All IsVisible s → trim s ≡ s
unfolding trim
trim_visible s h =
    let front = strip_all_visible (length s) whitespace s (omega arith) h in
    rw
      (
        front,
        strip_all_visible (length s) (reverse_each whitespace) (reverse s) (omega arith)
            (All-reverse_onto IsVisible s [] h tt),
      )
      (reverse-reverse s)

strip_prefix_start :
    (w : Bytes) (c : ℕ) (s : Bytes) → Blank w → IsVisible c → strip_prefix w (c ∷ s) ≡ none
unfolding strip_prefix
strip_prefix_start [] c s b h = absurd b
strip_prefix_start (d ∷ w) c s b h = ground arith

strip_one_start :
    (ws : List Bytes) (c : ℕ) (s : Bytes) → All Blank ws → IsVisible c → strip_one ws (c ∷ s) ≡ none
unfolding strip_one
strip_one_start [] c s b h = refl
strip_one_start (w ∷ ws) c s b h = rw (strip_prefix_start w c s b.0 h, strip_one_start ws c s b.1 h)

strip_all_start :
    (fuel : ℕ) (ws : List Bytes) (c : ℕ) (s : Bytes)
    → All Blank ws
    → IsVisible c
    → strip_all fuel ws (c ∷ s) ≡ c ∷ s
unfolding strip_all
strip_all_start zero ws c s b h = refl
strip_all_start (suc fuel) ws c s b h = rw (strip_one_start ws c s b h)

-- A text with a visible ASCII character at both ends is left alone.
pub trim_between :
    (c d : ℕ) (s : Bytes) → IsVisible c → IsVisible d → trim (c ∷ (s ++ d ∷ [])) ≡ c ∷ (s ++ d ∷ [])
unfolding trim
trim_between c d s hc hd =
    let whole = c ∷ (s ++ d ∷ []) in
    let turned : reverse whole ≡ d ∷ reverse (c ∷ s) = reverse-append_one (c ∷ s) d in
    rw
      (
        strip_all_start (length whole) whitespace c (s ++ d ∷ []) (omega arith) hc,
        turned,
        strip_all_start (length whole) (reverse_each whitespace) d (reverse (c ∷ s)) (omega arith)
            hd,
        ← turned,
      )
      (reverse-reverse whole)
