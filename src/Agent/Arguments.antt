-- ===== src/Agent/Arguments.antt =====
-- `parse_args` and `retry_delay` of src/main.rs.
use localscale.Prelude.{
  ℕ, ◌-◌, ◌^◌, ◌≤◌, ◌≡◌, ◌∙◌, refl, Bool, true, false, Option, none, some, List, [], ◌∷◌, min,
  Bytes, codes, All, bytes_eq, if◌then◌else◌, Result, ok, err,
}
use localscale.Codec.Decimal.{decimal, parse_u16, parse_u16-decimal, u16_max}

pub data ArgumentError : Type 0 where
  missing_port invalid_port : ArgumentError
  unknown_argument : Bytes → ArgumentError

pub record Options : Type 0 where
  pub port : ℕ
  pub no_open : Bool

abbrev defaults : Options
defaults = record { port = 8765; no_open = false }

abbrev with_port : Option ℕ → (ℕ → Result ArgumentError Options) → Result ArgumentError Options
with_port none rest = err invalid_port
with_port (some p) rest = rest p

-- The loop, from an index on with the options so far.
unfoldable pub scan_args : List Bytes → Options → Result ArgumentError Options
scan_args [] o = ok o
scan_args (a ∷ []) o =
    if bytes_eq a (codes "--no-open")
    then ok (record o { no_open = true })
    else if bytes_eq a (codes "--port")
    then err missing_port
    else err (unknown_argument a)
scan_args (a ∷ value ∷ rest) o =
    let flagged = scan_args (value ∷ rest) (record o { no_open = true }) in
    let ported = λ (p : ℕ). scan_args rest (record o { port = p }) in
    if bytes_eq a (codes "--no-open")
    then flagged
    else if bytes_eq a (codes "--port")
    then with_port (parse_u16 value) ported
    else err (unknown_argument a)

pub parse_args : List Bytes → Result ArgumentError Options
parse_args [] = ok defaults
parse_args (program ∷ args) = scan_args args defaults

-- `retry_delay`, in seconds.
unfoldable pub retry_delay : ℕ → ℕ
retry_delay failures = 2 ^ min (failures - 1) 5

-- An argument of the command line.
pub data Argument : Type 0 where
  no_open : Argument
  port : ℕ → Argument

abbrev pub words : List Argument → List Bytes
words [] = []
words (no_open ∷ args) = codes "--no-open" ∷ words args
words (port p ∷ args) = codes "--port" ∷ decimal p ∷ words args

-- The options that the arguments set; the last port counts.
abbrev pub apply : List Argument → Options → Options
apply [] o = o
apply (no_open ∷ args) o = apply args (record o { no_open = true })
apply (port p ∷ args) o = apply args (record o { port = p })

abbrev pub IsPort : Argument → Type 0
IsPort no_open = Unit
IsPort (port p) = p ≤ u16_max

scan_flag :
    (s : List Bytes) (o : Options)
    → scan_args (codes "--no-open" ∷ s) o ≡ scan_args s (record o { no_open = true })
unfolding scan_args bytes_eq
scan_flag [] o = refl
scan_flag (w ∷ s) o = refl

scan_port :
    (p : ℕ) (s : List Bytes) (o : Options)
    → p ≤ u16_max
    → scan_args (codes "--port" ∷ decimal p ∷ s) o ≡ scan_args s (record o { port = p })
unfolding scan_args bytes_eq
scan_port p s o h = rw (parse_u16-decimal p h)

scan_args-words :
    (args : List Argument) (o : Options)
    → All IsPort args
    → scan_args (words args) o ≡ ok (apply args o)
scan_args-words [] o h = unfold scan_args in refl
scan_args-words (no_open ∷ args) o h =
    scan_flag (words args) o ∙ scan_args-words args (record o { no_open = true }) h.1
scan_args-words (port p ∷ args) o h =
    scan_port p (words args) o h.0 ∙ scan_args-words args (record o { port = p }) h.1

-- A command line of flags and of ports of at most 16 bits sets the options that it names, the last port
-- if there are several, and 8765 without one.
pub parse_args-words :
    (program : Bytes) (args : List Argument)
    → All IsPort args
    → parse_args (program ∷ words args) ≡ ok (apply args (record { port = 8765; no_open = false }))
unfolding parse_args
parse_args-words program args h = scan_args-words args defaults h
