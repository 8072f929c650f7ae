-- ===== src/Codec/Endian.antt =====
-- `u16::to_be_bytes`, `u32::to_be_bytes` and the matching `from_be_bytes`.
use localscale.Prelude.{
  ℕ, ◌+◌, ◌*◌, ◌/◌, ◌%◌, ◌^◌, ◌<◌, ◌≡◌, [], ◌∷◌, arith, Bytes, IsByte, length, All, length,
}

abbrev pub be_u16 : ℕ → Bytes
be_u16 n = (n / 256 % 256) ∷ (n % 256) ∷ []

abbrev pub be_u32 : ℕ → Bytes
be_u32 n = (n / 16777216 % 256) ∷ (n / 65536 % 256) ∷ (n / 256 % 256) ∷ (n % 256) ∷ []

abbrev pub from_be_acc : ℕ → Bytes → ℕ
from_be_acc n [] = n
from_be_acc n (b ∷ bs) = from_be_acc (n * 256 + b) bs

abbrev pub from_be : Bytes → ℕ
from_be = from_be_acc 0

pub from_be-be_u32 : (n : ℕ) → n < 2 ^ 32 → from_be (be_u32 n) ≡ n
from_be-be_u32 n h = omega arith

pub from_be-be_u16 : (n : ℕ) → n < 2 ^ 16 → from_be (be_u16 n) ≡ n
from_be-be_u16 n h = omega arith

pub All-be_u32 : (n : ℕ) → All IsByte (be_u32 n)
All-be_u32 n = omega arith

pub All-be_u16 : (n : ℕ) → All IsByte (be_u16 n)
All-be_u16 n = omega arith

-- Four bytes are the word that they spell.
pub be_u32-from_be :
    (a b c d : ℕ)
    → IsByte a
    → IsByte b
    → IsByte c
    → IsByte d
    → be_u32 (from_be (a ∷ b ∷ c ∷ d ∷ [])) ≡ a ∷ b ∷ c ∷ d ∷ []
be_u32-from_be a b c d ha hb hc hd = ground arith

-- A slice of four bytes is the word that it spells.
pub be_u32_word :
    (w : Bytes) → length w ≡ 4 → All IsByte w → (be_u32 (from_be w) ≡ w) × (from_be w < 2 ^ 32)
be_u32_word [] l h = absurd (omega arith)
be_u32_word (a ∷ []) l h = absurd (omega arith)
be_u32_word (a ∷ b ∷ []) l h = absurd (omega arith)
be_u32_word (a ∷ b ∷ c ∷ []) l h = absurd (omega arith)
be_u32_word (a ∷ b ∷ c ∷ d ∷ []) l h =
    (be_u32-from_be a b c d h.0 h.1.0 h.1.1.0 h.1.1.1.0, omega arith)
be_u32_word (a ∷ b ∷ c ∷ d ∷ x ∷ w) l h = absurd (omega arith)

pub be_u16-from_be : (a b : ℕ) → IsByte a → IsByte b → be_u16 (from_be (a ∷ b ∷ [])) ≡ a ∷ b ∷ []
be_u16-from_be a b ha hb = ground arith
