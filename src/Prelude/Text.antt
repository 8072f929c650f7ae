-- ===== src/Prelude/Text.antt =====
-- Text and byte slices as lists of bytes, with the comparisons and cuts of Rust's `str` and `[u8]`.
use Prim.Native.Nat.{ℕ, zero, suc, ◌+◌, ◌-◌, ◌<◌, ◌≤◌}
use native.Mathlib.Nat.{zero-add, suc-add}
use Prim.Native.Char.{code}
use Prim.Native.String.{String}
use mathlib.Core.Path.{◌≡◌, refl, sym, ap, ◌∙◌}
use mathlib.Core.Logic.{◌↔◌}
use mathlib.Core.Bool.{Bool, true, false, ◌&&◌}
use mathlib.Core.Option.{Option, none, some}
use mathlib.Core.List.{List, [], ◌∷◌, ◌++◌}
use native.Mathlib.Omega.{arith}
use localscale.Prelude.Tests.{◌==◌, ltb, if◌then◌else◌}
use localscale.Prelude.Lists.{
  length, take, drop, take-append, drop-append, take-append-drop, length-take, length-drop, All,
  All-take, All-drop,
}

abbrev pub Bytes : Type 0
Bytes = List ℕ

-- The bytes of an ASCII literal.
abbrev pub codes : String → Bytes
codes String.[] = []
codes (String.◌∷◌ c s) = code c ∷ codes s

abbrev pub IsByte : ℕ → Type 0
IsByte b = b < 256

-- `a == b` on slices.
unfoldable pub bytes_eq : Bytes → Bytes → Bool
bytes_eq [] [] = true
bytes_eq [] (b ∷ bs) = false
bytes_eq (a ∷ as') [] = false
bytes_eq (a ∷ as') (b ∷ bs) = a == b && bytes_eq as' bs

pub bytes_eq_sound : (a b : Bytes) → bytes_eq a b ≡ true → a ≡ b
unfolding bytes_eq
bytes_eq_sound [] [] h = refl
bytes_eq_sound [] (b ∷ bs) h = cc
bytes_eq_sound (a ∷ as') [] h = cc
bytes_eq_sound (a ∷ as') (b ∷ bs) h = ground (arith, bytes_eq_sound as' bs)

pub bytes_eq_self : (a : Bytes) → bytes_eq a a ≡ true
unfolding bytes_eq
bytes_eq_self [] = refl
bytes_eq_self (a ∷ as') = ground (arith, bytes_eq_self as')

pub bytes_eq_iff : (a b : Bytes) → (bytes_eq a b ≡ true) ↔ (a ≡ b)
bytes_eq_iff a b = (bytes_eq_sound a b, λ e. rw e (bytes_eq_self b))

-- `text.strip_prefix(p)`
unfoldable pub strip_prefix : Bytes → Bytes → Option Bytes
strip_prefix [] s = some s
strip_prefix (p ∷ ps) [] = none
strip_prefix (p ∷ ps) (c ∷ s) = if p == c then strip_prefix ps s else none

pub strip_prefix-append : (p s : Bytes) → strip_prefix p (p ++ s) ≡ some s
unfolding strip_prefix
strip_prefix-append [] s = refl
strip_prefix-append (p ∷ ps) s = ground (arith, strip_prefix-append ps s)

pub strip_prefix_sound : (p t s : Bytes) → strip_prefix p t ≡ some s → t ≡ p ++ s
unfolding strip_prefix
strip_prefix_sound [] t s h = cc
strip_prefix_sound (p ∷ ps) [] s h = cc
strip_prefix_sound (p ∷ ps) (c ∷ t) s h = ground (arith, strip_prefix_sound ps t s)

-- `text.strip_suffix(p)`
unfoldable pub strip_suffix : Bytes → Bytes → Option Bytes
unfolding bytes_eq
strip_suffix p s =
    let cut = length s - length p in
    if ltb (length s) (length p)
    then none
    else if bytes_eq (drop cut s) p
    then some (take cut s)
    else none

-- `&bytes[from..to]` within bounds.
unfoldable pub slice : Bytes → ℕ → ℕ → Bytes
slice s from to = take (to - from) (drop from s)

pub slice-append :
    (xs ys zs : Bytes) (from to : ℕ)
    → from ≡ length xs
    → to ≡ length xs + length ys
    → slice (xs ++ (ys ++ zs)) from to ≡ ys
unfolding slice
slice-append xs ys zs from to p q =
    let e : to - from ≡ length ys = omega arith in
    rw (e, p, drop-append xs (ys ++ zs)) (take-append ys zs)

-- The same where the parts of the text are given by an equation.
pub slice_of_append :
    (whole xs ys zs : Bytes) (from to : ℕ)
    → whole ≡ xs ++ (ys ++ zs)
    → from ≡ length xs
    → to ≡ length xs + length ys
    → slice whole from to ≡ ys
slice_of_append whole xs ys zs from to e p q =
    ap (λ (w : Bytes). slice w from to) e ∙ slice-append xs ys zs from to p q

pub length-slice :
    (s : Bytes) (from to : ℕ) → from ≤ to → to ≤ length s → length (slice s from to) ≡ to - from
unfolding slice
length-slice s from to h k =
    omega (arith, length-take (to - from) (drop from s), length-drop from s)

drop-nil : (n : ℕ) → drop {A = ℕ} n [] ≡ []
drop-nil zero = refl
drop-nil (suc n) = refl

drop-drop : (n m : ℕ) (s : Bytes) → drop n (drop m s) ≡ drop (m + n) s
drop-drop n zero s = rw zero-add
drop-drop n (suc m) [] = rw suc-add (drop-nil n)
drop-drop n (suc m) (c ∷ s) = rw suc-add (drop-drop n m s)

-- What stands behind a cut is the slice up to the next cut and the rest.
pub drop-slice : (s : Bytes) (from to : ℕ) → from ≤ to → drop from s ≡ slice s from to ++ drop to s
unfolding slice
drop-slice s from to h =
    let e : from + (to - from) ≡ to = omega arith in
    let front = take (to - from) (drop from s) in
    sym (take-append-drop (to - from) (drop from s))
    ∙ ap (λ r. front ++ r) (drop-drop (to - from) from s ∙ ap (λ n. drop n s) e)

pub All-slice : (s : Bytes) (from to : ℕ) → All IsByte s → All IsByte (slice s from to)
unfolding slice
All-slice s from to h = All-take IsByte (to - from) (drop from s) (All-drop IsByte from s h)
