-- ===== src/Codec/Fields.antt =====
-- `text.split(sep)` collected into a vector, and its behaviour on joined fields.
use localscale.Prelude.{
  ℕ, zero, suc, strip_prefix, Option, none, some, ◌≡◌, refl, ◌≢◌, List, [], ◌∷◌, ◌++◌, arith, Bytes,
  All, ◌==◌, ◌∙◌, ap, if◌then◌else◌,
}

abbrev pub Lacks : ℕ → Bytes → Type 0
Lacks sep = All (λ c. c ≢ sep)

-- A byte in front of the first field.
abbrev push : ℕ → List Bytes → List Bytes
push c [] = (c ∷ []) ∷ []
push c (p ∷ ps) = (c ∷ p) ∷ ps

-- `text.split_once(sep)`
abbrev after_first : ℕ → Option (Bytes × Bytes) → Option (Bytes × Bytes)
after_first c none = none
after_first c (some (p, s)) = some (c ∷ p, s)

unfoldable pub split_once : ℕ → Bytes → Option (Bytes × Bytes)
split_once sep [] = none
split_once sep (c ∷ s) =
    let rest = split_once sep s in if c == sep then some ([], s) else after_first c rest

pub split_once-append :
    (sep : ℕ) (p s : Bytes) → Lacks sep p → split_once sep (p ++ sep ∷ s) ≡ some (p, s)
unfolding split_once
split_once-append sep [] s h = ground arith
split_once-append sep (c ∷ p) s h = ground (arith, split_once-append sep p s h.1)

-- `text.rsplit_once(sep)`
abbrev last_or : ℕ → ℕ → Bytes → Option (Bytes × Bytes) → Option (Bytes × Bytes)
last_or sep c s (some (p, q)) = some (c ∷ p, q)
last_or sep c s none = if c == sep then some ([], s) else none

unfoldable pub rsplit_once : ℕ → Bytes → Option (Bytes × Bytes)
rsplit_once sep [] = none
rsplit_once sep (c ∷ s) = let rest = rsplit_once sep s in last_or sep c s rest

-- `text.split_once(sep)` for a separator of several bytes.
abbrev found_or : ℕ → Option Bytes → Option (Bytes × Bytes) → Option (Bytes × Bytes)
found_or c (some behind) rest = some ([], behind)
found_or c none rest = after_first c rest

unfoldable pub cut_at : Bytes → Bytes → Option (Bytes × Bytes)
cut_at sep [] = none
cut_at sep (c ∷ s) = let rest = cut_at sep s in found_or c (strip_prefix sep (c ∷ s)) rest

-- `text.split(sep)` for such a separator; each cut drops a byte, so that as many as the text has are
-- enough.
abbrev go_on : Option (Bytes × Bytes) → Bytes → (Bytes → List Bytes) → List Bytes
go_on none s rest = s ∷ []
go_on (some (p, s)) whole rest = p ∷ rest s

unfoldable pub split_at : ℕ → Bytes → Bytes → List Bytes
split_at zero sep s = s ∷ []
split_at (suc fuel) sep s = go_on (cut_at sep s) s (split_at fuel sep)

module _ (sep : ℕ) where
  unfoldable pub split : Bytes → List Bytes
  split [] = [] ∷ []
  split (c ∷ s) = let rest = split s in if c == sep then [] ∷ rest else push c rest

  pub split_last : (p : Bytes) → Lacks sep p → split p ≡ p ∷ []
  unfolding split
  split_last [] h = refl
  split_last (c ∷ p) h = ground (arith, split_last p h.1)

  -- A field that lacks the separator is cut off whole.
  pub split_field : (p s : Bytes) → Lacks sep p → split (p ++ sep ∷ s) ≡ p ∷ split s
  unfolding split
  split_field [] s h = ground arith
  split_field (c ∷ p) s h = ground (arith, split_field p s h.1)

  -- Fields with a separator between two neighbours.
  abbrev pub join : List Bytes → Bytes
  join [] = []
  join (p ∷ []) = p
  join (p ∷ q ∷ ps) = p ++ sep ∷ join (q ∷ ps)

  pub split-join :
      (p : Bytes) (ps : List Bytes) → All (Lacks sep) (p ∷ ps) → split (join (p ∷ ps)) ≡ p ∷ ps
  split-join p [] h = split_last p h.0
  split-join p (q ∷ ps) h =
      split_field p (join (q ∷ ps)) h.0 ∙ ap (λ r. p ∷ r) (split-join q ps h.1)
