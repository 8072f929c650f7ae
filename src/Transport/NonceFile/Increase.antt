-- ===== src/Transport/NonceFile/Increase.antt =====
-- The nonces of a file increase.
use localscale.Prelude.{
  ℕ, suc, ◌+◌, ◌*◌, ◌/◌, ◌%◌, ◌≤◌, ◌≡◌, refl, ap, sym, ◌∙◌, Bool, true, false, not, Bool-cases,
  Option, none, some, List, [], ◌∷◌, arith, Bytes, IsByte, All, bytes_eq, bytes_eq_self, inl, inr,
  length, replicate, ◌==◌, ==_iff, if◌then◌else◌,
}
use localscale.Codec.Endian.{from_be, from_be_acc}
use localscale.Codec.Hex.{
  hex, hex_digit, length-hex, decode_pairs-hex, Decoded, decoded, invalid, panicked,
  decode_pairs_sound,
}
use localscale.Codec.Trim.{trim, trim_visible, IsVisible}
use localscale.Protocol.Envelope.{nonce_reuse}
use localscale.Transport.NonceFile.{
  Environment, FileNonceAllocator, Persisted, done, failed_before_rename, failed_after_rename,
  Outcome, allocated, refused, thread_panicked, persist_next, from_text, from_file, decode_nonce,
  increment, advance, allocate, emit, allocate_all,
}

-- The result of an increment, read behind the digits of `n`: one more, or all zeros and a carry.
record Incremented (n : ℕ) (bs r : Bytes) (carry : Bool) : Type 0 where
  adds : from_be_acc n bs + 1 ≡ (if carry then from_be_acc (n + 1) r else from_be_acc n r)
  same_length : length r ≡ length bs
  in_bytes : All IsByte r
  wraps : carry ≡ true → r ≡ replicate (length bs) 0

push_digit :
    (n b : ℕ) (bs r : Bytes) (carry : Bool)
    → IsByte b
    → Incremented (n * 256 + b) bs r carry
    → Incremented n
        (b ∷ bs)
        (if carry then (b + 1) % 256 ∷ r else b ∷ r)
        (if carry then (b + 1) % 256 == 0 else false)
push_digit n b bs r false h i = record {
  adds = i.adds;
  same_length = ap suc i.same_length;
  in_bytes = (h, i.in_bytes);
  wraps = λ e. absurd (ground arith);
}
push_digit n b bs r true h i = elim (Bool-cases ((b + 1) % 256 == 0)) [
  | inl zero_digit ↦
      let full : b ≡ 255 = ground arith in
      record {
        adds = rw zero_digit (i.adds ∙ ap (λ m. from_be_acc m r) (omega arith));
        same_length = ap suc i.same_length;
        in_bytes = (omega arith, i.in_bytes);
        wraps = λ e. rw full (ap (λ (x : Bytes). 0 ∷ x) (i.wraps refl));
      }
  | inr other ↦
      let small : (b + 1) % 256 ≡ b + 1 = ground arith in
      record {
        adds = rw (other, small) (i.adds ∙ ap (λ m. from_be_acc m r) (omega arith));
        same_length = ap suc i.same_length;
        in_bytes = (omega arith, i.in_bytes);
        wraps = λ e. absurd (cc);
      }
]

abbrev IncrementedPair : ℕ → Bytes → Bytes × Bool → Type 0
IncrementedPair n bs (r, carry) = Incremented n bs r carry

increment_step :
    (n b : ℕ) (bs r : Bytes) (carry : Bool)
    → IsByte b
    → Incremented (n * 256 + b) bs r carry
    → IncrementedPair n
        (b ∷ bs)
        (if carry then ((b + 1) % 256 ∷ r, (b + 1) % 256 == 0) else (b ∷ r, false))
increment_step n b bs r true h i = push_digit n b bs r true h i
increment_step n b bs r false h i = push_digit n b bs r false h i

increment_lem : (bs : Bytes) (n : ℕ) → All IsByte bs → IncrementedPair n bs (increment bs)
unfolding increment
increment_lem [] n h = record { adds = refl; same_length = refl; in_bytes = tt; wraps = λ e. refl }
increment_lem (b ∷ bs) n h =
    increment_step n b bs (increment bs).0 (increment bs).1 h.0 (increment_lem bs (n * 256 + b) h.1)

-- A nonce of 24 bytes.
abbrev pub IsNonce : Bytes → Type 0
IsNonce n = (length n ≡ 24) × All IsByte n

-- Unless all zeros are next, the next nonce is one more.
next_lem :
    (nonce : Bytes)
    → IsNonce nonce
    → bytes_eq (increment nonce).0 (replicate 24 0) ≡ false
    → (from_be (increment nonce).0 ≡ from_be nonce + 1) × IsNonce (increment nonce).0
next_lem nonce h live =
    let i = increment_lem nonce 0 h.1 in
    elim (Bool-cases (increment nonce).1) [
      | inl carried ↦
          absurd (cc (live, i.wraps carried, h.0, bytes_eq_self (replicate {A = ℕ} 24 0)))
      | inr clear ↦ (sym (i.adds ∙ rw clear), (i.same_length ∙ h.0, i.in_bytes))
    ]

hex_digit-IsVisible : (n : ℕ) → n ≤ 15 → IsVisible (hex_digit n)
unfolding hex_digit
hex_digit-IsVisible n h = ground arith

hex-IsVisible : (bs : Bytes) → All IsVisible (hex bs)
unfolding hex
hex-IsVisible [] = tt
hex-IsVisible (b ∷ bs) = (
  hex_digit-IsVisible (b / 16 % 16) (omega arith),
  (hex_digit-IsVisible (b % 16) (omega arith), hex-IsVisible bs),
)

-- A nonce comes back from the file that holds it.
pub decode_nonce-hex : (n : Bytes) → IsNonce n → decode_nonce (trim (hex n)) ≡ decoded n
unfolding decode_nonce
decode_nonce-hex n h =
    rw (trim_visible (hex n) (hex-IsVisible n), length-hex n, h.0) (decode_pairs-hex n h.1)

decode_nonce-IsNonce : (t n : Bytes) → decode_nonce t ≡ decoded n → IsNonce n
unfolding decode_nonce
decode_nonce-IsNonce t n h = elim (Bool-cases (length t == 48)) [
  | inl fits ↦
      let (len, bytes) = decode_pairs_sound t n (ground arith) in
      let total : length t ≡ 48 = (==_iff (length t) 48).0 fits in (omega arith, bytes)
  | inr other ↦ absurd (ground arith)
]

-- The nonces that the file can still hand out are at least `bound`; without a file, nothing was handed out.
abbrev pub Above : ℕ → Option Bytes → Type 0
Above bound none = bound ≡ 0
Above bound (some text) = (n : Bytes) → decode_nonce (trim text) ≡ decoded n → bound ≤ from_be n

-- What one call does: a nonce that it returns is at least the bound, and the file is above that nonce.
abbrev Advanced : ℕ → Outcome × FileNonceAllocator → Type 0
Advanced bound (allocated n, a) = (bound ≤ from_be n) × Above (from_be n + 1) a.file
Advanced bound (refused e, a) = Above bound a.file
Advanced bound (thread_panicked, a) = Above bound a.file

Above-hex : (bound : ℕ) (n : Bytes) → IsNonce n → bound ≤ from_be n → Above bound (some (hex n))
Above-hex bound n h le m e =
    let same : n ≡ m = cc (decode_nonce-hex n h, e) in omega (arith, ap from_be same)

persisted-Advanced :
    (p : Persisted) (nonce following : Bytes) (a : FileNonceAllocator) (bound : ℕ)
    → IsNonce following
    → from_be following ≡ from_be nonce + 1
    → bound ≤ from_be nonce
    → Above bound a.file
    → Advanced bound (persist_next p nonce following a)
persisted-Advanced done nonce following a bound n next le above =
    (le, Above-hex (from_be nonce + 1) following n (omega arith))
persisted-Advanced failed_before_rename nonce following a bound n next le above = above
persisted-Advanced failed_after_rename nonce following a bound n next le above =
    Above-hex bound following n (omega arith)

advance-Advanced :
    (p : Persisted) (nonce : Bytes) (a : FileNonceAllocator) (bound : ℕ)
    → IsNonce nonce
    → bound ≤ from_be nonce
    → Above bound a.file
    → Advanced bound (advance p nonce a)
unfolding advance
advance-Advanced p nonce a bound n le above =
    elim (Bool-cases (bytes_eq (increment nonce).0 (replicate 24 0))) [
      | inl over ↦ rw over above
      | inr live ↦
          let (next, n') = next_lem nonce n live in
          rw live (persisted-Advanced p nonce (increment nonce).0 a bound n' next le above)
    ]

from_file-Advanced :
    (file : Option Bytes) (e : Environment) (a : FileNonceAllocator) (bound : ℕ)
    → a.file ≡ file
    → IsNonce e.random
    → Above bound file
    → Advanced bound (from_file file e a)
from_file-Advanced none e a bound same drawn above =
    advance-Advanced e.persisted e.random a bound drawn (omega arith) (rw same above)
from_file-Advanced (some text) e a bound same drawn above =
    text_case (decode_nonce (trim text)) refl
  where
    text_case :
        (d : Decoded) → decode_nonce (trim text) ≡ d → Advanced bound (from_text d e.persisted a)
    text_case (decoded n) h =
        advance-Advanced e.persisted n a bound (decode_nonce-IsNonce (trim text) n h) (above n h)
          (rw same above)
    text_case invalid h = rw same above
    text_case panicked h = rw same above

guarded-Advanced :
    (test : Bool) (r : Outcome × FileNonceAllocator) (a : FileNonceAllocator) (bound : ℕ)
    → Above bound a.file
    → Advanced bound r
    → Advanced bound (if not test then (refused nonce_reuse, a) else r)
guarded-Advanced true r a bound above h = h
guarded-Advanced false r a bound above h = above

allocate-Advanced :
    (e : Environment) (a : FileNonceAllocator) (bound : ℕ)
    → IsNonce e.random
    → Above bound a.file
    → Advanced bound (allocate e a)
unfolding allocate
allocate-Advanced e a bound drawn above = guarded-Advanced e.is_locked _ a bound above (
    guarded-Advanced e.is_readable _ a bound above
      (from_file-Advanced a.file e a bound refl drawn above))

-- Each entry is larger than those before it, as a number of 192 bits.
abbrev pub IsIncreasing : ℕ → List Bytes → Type 0
IsIncreasing bound [] = Unit
IsIncreasing bound (n ∷ ns) = (bound ≤ from_be n) × IsIncreasing (from_be n + 1) ns

abbrev pub Draws : Environment → Type 0
Draws e = IsNonce e.random

emit-IsIncreasing :
    (r : Outcome × FileNonceAllocator) (bound : ℕ) (rest : List Bytes)
    → Advanced bound r
    → ((next : ℕ) → Above next r.1.file → IsIncreasing next rest)
    → IsIncreasing bound (emit r.0 rest)
emit-IsIncreasing (allocated n, b) bound rest h go_on = (h.0, go_on (from_be n + 1) h.1)
emit-IsIncreasing (refused c, b) bound rest h go_on = go_on bound h
emit-IsIncreasing (thread_panicked, b) bound rest h go_on = go_on bound h

allocate_all-Above :
    (es : List Environment) (a : FileNonceAllocator) (bound : ℕ)
    → All Draws es
    → Above bound a.file
    → IsIncreasing bound (allocate_all a es)
unfolding allocate_all
allocate_all-Above [] a bound drawn above = tt
allocate_all-Above (e ∷ es) a bound drawn above =
    emit-IsIncreasing (allocate e a) bound (allocate_all (allocate e a).1 es)
      (allocate-Advanced e a bound drawn.0 above)
      (λ next h. allocate_all-Above es (allocate e a).1 next drawn.1 h)

Above-zero : (file : Option Bytes) → Above 0 file
Above-zero none = refl
Above-zero (some text) = λ n h. omega arith

-- Over any row of calls on a file with any contents, whatever the system refuses and wherever writing
-- the new file fails: the nonces that are returned increase as big-endian numbers, so that none comes
-- twice. The random bytes are 24 bytes.
pub allocate_all-IsIncreasing :
    (es : List Environment) (a : FileNonceAllocator)
    → All (λ e. (length e.random ≡ 24) × All IsByte e.random) es
    → IsIncreasing 0 (allocate_all a es)
allocate_all-IsIncreasing es a drawn = allocate_all-Above es a 0 drawn (Above-zero a.file)
