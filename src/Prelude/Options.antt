-- ===== src/Prelude/Options.antt =====
-- `Option` with its `?` operator as bind, and `unwrap_or`.
use mathlib.Core.Bool.{Bool, true, false}
use mathlib.Core.Option.{Option, none, some}

infixl 5 ◌>>=◌
abbrev pub ◌>>=◌ {ℓ κ} : {A : Type ℓ} {B : Type κ} → Option A → (A → Option B) → Option B
none >>= rest = none
some a >>= rest = rest a

abbrev pub unwrap_or {ℓ} : {A : Type ℓ} → Option A → A → A
unwrap_or none a = a
unwrap_or (some b) a = b

abbrev pub is_some {ℓ} : {A : Type ℓ} → Option A → Bool
is_some none = false
is_some (some a) = true

-- `o.or(p)`
abbrev pub or_else {ℓ} : {A : Type ℓ} → Option A → Option A → Option A
or_else (some a) p = some a
or_else none p = p

-- `o.filter(p)`
abbrev pub retained {ℓ} : {A : Type ℓ} → (A → Bool) → Option A → Option A
retained p none = none
retained p (some a) = elim (p a) [ true ↦ some a | false ↦ none ]
