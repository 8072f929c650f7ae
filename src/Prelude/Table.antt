-- ===== src/Prelude/Table.antt =====
-- `HashMap` with byte-string keys, as an association list with one entry for each key.
use mathlib.Core.Path.{◌≡◌, refl}
use mathlib.Core.Logic.{◌⊎◌, ◌≢◌, inl, inr}
use mathlib.Core.Bool.{Bool, true, false}
use mathlib.Core.Option.{Option, none, some}
use mathlib.Core.List.{List, [], ◌∷◌}
use native.Mathlib.Omega.{arith}
use localscale.Prelude.Tests.{if◌then◌else◌}
use localscale.Prelude.Text.{Bytes, bytes_eq, bytes_eq_iff}

abbrev pub Table {ℓ} : Type ℓ → Type ℓ
Table V = List (Bytes × V)

module _ {ℓ} {V : Type ℓ} where
  unfoldable pub lookup : Bytes → Table V → Option V
  lookup k [] = none
  lookup k ((j, v) ∷ m) = if bytes_eq j k then some v else lookup k m

  abbrev pub contains_key : Bytes → Table V → Bool
  contains_key k m = elim (lookup k m) [ none ↦ false | some v ↦ true ]

  unfoldable pub without : Bytes → Table V → Table V
  without k [] = []
  without k ((j, v) ∷ m) = let rest = without k m in if bytes_eq j k then rest else (j, v) ∷ rest

  unfoldable pub insert : Bytes → V → Table V → Table V
  unfolding without
  insert k v m = (k, v) ∷ without k m

  -- `retain(|_, v| keep(v))`
  unfoldable pub retain : (V → Bool) → Table V → Table V
  retain keep [] = []
  retain keep ((j, v) ∷ m) = let rest = retain keep m in if keep v then (j, v) ∷ rest else rest

  pub lookup-without :
      (k j : Bytes) (m : Table V)
      → lookup j (without k m) ≡ (if bytes_eq k j then none else lookup j m)
  unfolding lookup without
  lookup-without k j [] = ground arith
  lookup-without k j ((i, v) ∷ m) =
      ground (arith, lookup-without k j m, bytes_eq_iff i k, bytes_eq_iff i j, bytes_eq_iff k j)

  pub lookup-insert :
      (k j : Bytes) (v : V) (m : Table V)
      → lookup j (insert k v m) ≡ (if bytes_eq k j then some v else lookup j m)
  unfolding insert lookup
  lookup-insert k j v m = ground (arith, lookup-without k j m)

  pub lookup-retain-none :
      (keep : V → Bool) (k : Bytes) (m : Table V)
      → lookup k m ≡ none
      → lookup k (retain keep m) ≡ none
  unfolding lookup retain
  lookup-retain-none keep k [] h = refl
  lookup-retain-none keep k ((j, v) ∷ m) h = ground (arith, lookup-retain-none keep k m)

module _ {V : Type 0} where
  -- The key stands in the table with this value.
  abbrev pub Has : Bytes → V → Table V → Type 0
  Has k v [] = ⊥
  Has k v ((j, w) ∷ m) = (j ≡ k) × (w ≡ v) ⊎ Has k v m

  pub Has-retain :
      (keep : V → Bool) (k : Bytes) (v : V) (m : Table V)
      → keep v ≡ true
      → Has k v m
      → Has k v (retain keep m)
  unfolding retain
  Has-retain keep k v [] kept h = h
  Has-retain keep k v ((j, w) ∷ m) kept (inl h) = ground arith
  Has-retain keep k v ((j, w) ∷ m) kept (inr h) = ground (arith, Has-retain keep k v m kept h)

  pub Has-without : (i k : Bytes) (v : V) (m : Table V) → i ≢ k → Has k v m → Has k v (without i m)
  unfolding without
  Has-without i k v [] ne h = h
  Has-without i k v ((j, w) ∷ m) ne (inl h) = ground (arith, bytes_eq_iff j i)
  Has-without i k v ((j, w) ∷ m) ne (inr h) = ground (arith, Has-without i k v m ne h)

  pub Has-insert_self : (k : Bytes) (v : V) (m : Table V) → Has k v (insert k v m)
  unfolding insert
  Has-insert_self k v m = inl (refl, refl)

  pub contains_key-Has : (k : Bytes) (v : V) (m : Table V) → Has k v m → contains_key k m ≡ true
  unfolding lookup
  contains_key-Has k v [] h = elim h [ ]
  contains_key-Has k v ((j, w) ∷ m) (inl h) = ground (arith, bytes_eq_iff j k)
  contains_key-Has k v ((j, w) ∷ m) (inr h) = ground (arith, contains_key-Has k v m h)
