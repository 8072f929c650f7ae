-- ===== src/Codec/Decimal.antt =====
-- `Display` and `FromStr` of the unsigned integers. Printing fills a buffer of 20 digits, which
-- every `u64` fits; parsing accepts one leading `+` and fails on overflow.
use native.Mathlib.Nat.{pow-suc}
use mathlib.Core.List.{cons-ne-nil, concat-ne-nil}
use localscale.Prelude.{
  ℕ, zero, suc, ◌+◌, ◌-◌, ◌*◌, ◌/◌, ◌%◌, ◌^◌, ◌≤◌, ◌<◌, ◌≡◌, refl, ◌≢◌, ◌||◌, Option, none, some,
  [], ◌∷◌, ◌++◌, arith, Bytes, codes, All, ltb, ◌==◌, if◌then◌else◌, Bool-cases, length,
  length-append, inl, inr, All-append, ◌∙◌, ap,
}

abbrev pub u64_max : ℕ
u64_max = 2 ^ 64 - 1

abbrev pub u16_max : ℕ
u16_max = 2 ^ 16 - 1

abbrev pub u8_max : ℕ
u8_max = 255

-- `digits k n` writes the last `k` digits of `n`, without leading zeros.
unfoldable pub digits : ℕ → ℕ → Bytes
digits zero n = []
digits (suc k) n =
    let rest = digits k (n / 10) in
    if ltb n 10 then (b'0' + n) ∷ [] else rest ++ (b'0' + n % 10) ∷ []

unfoldable pub decimal : ℕ → Bytes
unfolding digits
decimal n = digits 20 n

-- `checked_mul(10)` and `checked_add(d)` under the type's maximum.
pub scan : ℕ → Bytes → ℕ → Option ℕ
scan max [] n = some n
scan max (c ∷ s) n =
    let next = n * 10 + (c - b'0') in
    if ltb c b'0' || ltb b'9' c then none else if ltb max next then none else scan max s next

-- A `+` in front of more text.
abbrev strip_plus : Bytes → Bytes
strip_plus [] = []
strip_plus (c ∷ []) = c ∷ []
strip_plus (c ∷ d ∷ s) = if c == b'+' then d ∷ s else c ∷ d ∷ s

abbrev scan_some : ℕ → Bytes → Option ℕ
scan_some max [] = none
scan_some max (c ∷ s) = scan max (c ∷ s) 0

unfoldable pub parse_uint : ℕ → Bytes → Option ℕ
unfolding scan
parse_uint max s = scan_some max (strip_plus s)

unfoldable pub parse_u64 : Bytes → Option ℕ
unfolding parse_uint
parse_u64 = parse_uint u64_max

unfoldable pub parse_u16 : Bytes → Option ℕ
unfolding parse_uint
parse_u16 = parse_uint u16_max

unfoldable pub parse_u8 : Bytes → Option ℕ
unfolding parse_uint
parse_u8 = parse_uint u8_max

abbrev pub IsDigit : ℕ → Type 0
IsDigit c = (b'0' ≤ c) × (c ≤ b'9')

scan-le : (max : ℕ) (s : Bytes) (n r : ℕ) → n ≤ max → scan max s n ≡ some r → r ≤ max
unfolding scan
scan-le max [] n r h e = ground arith
scan-le max (c ∷ s) n r h e = ground (arith, scan-le max s (n * 10 + (c - b'0')) r)

scan_some-le : (max : ℕ) (s : Bytes) (r : ℕ) → scan_some max s ≡ some r → r ≤ max
scan_some-le max [] r e = cc
scan_some-le max (c ∷ s) r e = scan-le max (c ∷ s) 0 r (omega arith) e

-- A parsed number fits its type.
pub parse_uint-le : (max : ℕ) (s : Bytes) (r : ℕ) → parse_uint max s ≡ some r → r ≤ max
unfolding parse_uint
parse_uint-le max s r e = scan_some-le max (strip_plus s) r e

scan-snoc :
    (max : ℕ) (s : Bytes) (n m d : ℕ)
    → scan max s n ≡ some m
    → d < 10
    → m * 10 + d ≤ max
    → scan max (s ++ (b'0' + d) ∷ []) n ≡ some (m * 10 + d)
unfolding scan
scan-snoc max [] n m d e h fits = ground arith
scan-snoc max (c ∷ s) n m d e h fits = ground (arith, scan-snoc max s (n * 10 + (c - b'0')) m d)

tenth-lt : (p n : ℕ) → n < p * 10 → n / 10 < p
tenth-lt p n h = omega arith

scan-digits : (max k n : ℕ) → n < 10 ^ suc k → n ≤ max → scan max (digits (suc k) n) 0 ≡ some n
unfolding digits
scan-digits max zero n h fits = unfold scan in ground arith
scan-digits max (suc k) n h fits = elim (Bool-cases (ltb n 10)) [
  | inl small ↦ rw small (unfold scan in ground arith)
  | inr big ↦
      let shorter : n / 10 < 10 ^ suc k = tenth-lt (10 ^ suc k) n (rw pow-suc at h) in
      let last = n / 10 * 10 + n % 10 in
      let whole : last ≡ n = omega arith in
      let ih = scan-digits max k (n / 10) shorter (omega arith) in
      rw big (
        scan-snoc max (digits (suc k) (n / 10)) 0 (n / 10) (n % 10) ih (omega arith) (omega arith)
        ∙ ap (λ (m : ℕ). some m) whole)
]

-- What is printed is digits only.
pub digits-IsDigit : (k n : ℕ) → All IsDigit (digits k n)
unfolding digits
digits-IsDigit zero n = tt
digits-IsDigit (suc k) n = elim (Bool-cases (ltb n 10)) [
  | inl small ↦ rw small (ground arith)
  | inr big ↦
      rw big (All-append IsDigit (digits k (n / 10)) _ (digits-IsDigit k (n / 10)) (omega arith))
]

pub decimal-IsDigit : (n : ℕ) → All IsDigit (decimal n)
unfolding decimal
decimal-IsDigit n = digits-IsDigit 20 n

digits-ne-nil : (k n : ℕ) → digits (suc k) n ≢ []
unfolding digits
digits-ne-nil k n = elim (Bool-cases (ltb n 10)) [
  | inl small ↦ rw small (cons-ne-nil _ _)
  | inr big ↦ rw big (concat-ne-nil _ _)
]

scan_some-strip :
    (max : ℕ) (s : Bytes) → All IsDigit s → s ≢ [] → scan_some max (strip_plus s) ≡ scan max s 0
scan_some-strip max [] h ne = absurd (ne refl)
scan_some-strip max (c ∷ []) h ne = refl
scan_some-strip max (c ∷ d ∷ s) h ne = ground arith

-- Printing and parsing back gives the number, whatever type of at least its size reads it.
pub parse_uint-decimal : (max n : ℕ) → n ≤ max → n ≤ u64_max → parse_uint max (decimal n) ≡ some n
unfolding parse_uint decimal
parse_uint-decimal max n fits h =
    scan_some-strip max (digits 20 n) (digits-IsDigit 20 n) (digits-ne-nil 19 n)
    ∙ scan-digits max 19 n (omega arith) fits

pub parse_u64-decimal : (n : ℕ) → n ≤ u64_max → parse_u64 (decimal n) ≡ some n
unfolding parse_u64
parse_u64-decimal n h = parse_uint-decimal u64_max n h h

pub parse_u16-decimal : (n : ℕ) → n ≤ u16_max → parse_u16 (decimal n) ≡ some n
unfolding parse_u16
parse_u16-decimal n h = parse_uint-decimal u16_max n h (omega arith)

length-digits : (k n : ℕ) → length (digits k n) ≤ k
unfolding digits
length-digits zero n = omega arith
length-digits (suc k) n = elim (Bool-cases (ltb n 10)) [
  | inl small ↦ rw small (omega arith)
  | inr big ↦ rw big (
      omega
        (arith, length-append (digits k (n / 10)) ((b'0' + n % 10) ∷ []), length-digits k (n / 10)))
]

pub length-decimal : (n : ℕ) → length (decimal n) ≤ 20
unfolding decimal
length-decimal n = length-digits 20 n

decimal_max : decimal u64_max ≡ codes "18446744073709551615"
unfolding decimal
decimal_max = refl
