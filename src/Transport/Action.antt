-- ===== src/Transport/Action.antt =====
-- `TransportError`, and methods that change their object and may fail: what was changed before an
-- error stays changed.
use Prim.Native.String.{String}
use localscale.Prelude.{Result, ok, err, Bool, if◌then◌else◌}
use mathlib.Core.Path.{◌≡◌, ap}
use localscale.Protocol.Message.{ParseError}
use localscale.Protocol.Validate.{ValidationError}
use localscale.Protocol.Envelope.{CryptoError}

-- The kinds of `io::Error` that the code tells apart.
pub data IoError : Type 0 where
  not_found already_exists timed_out would_block unexpected_eof other : IoError

pub data TransportError : Type 0 where
  unavailable : String → TransportError
  not_ready : String → TransportError
  invalid_endpoint : TransportError
  io : IoError → TransportError
  timeout : TransportError
  frame : TransportError
  crypto : CryptoError → TransportError
  parse : ParseError → TransportError
  validation : ValidationError → TransportError
  protocol : String → TransportError

-- `impl From<io::Error> for TransportError`
abbrev pub from_io : IoError → TransportError
from_io timed_out = timeout
from_io not_found = io not_found
from_io already_exists = io already_exists
from_io would_block = io would_block
from_io unexpected_eof = io unexpected_eof
from_io other = io other

abbrev pub Action {ℓ} : Type 0 → Type ℓ → Type ℓ
Action S A = S → Result TransportError A × S

abbrev pub continue {ℓ κ} :
    {S : Type 0} {A : Type ℓ} {B : Type κ}
    → Result TransportError A × S
    → (A → Action S B)
    → Result TransportError B × S
continue (ok a, s) f = f a s
continue (err e, s) f = (err e, s)

infixl 5 ◌>>=◌ ◌>>◌
abbrev pub ◌>>=◌ {ℓ κ} :
    {S : Type 0} {A : Type ℓ} {B : Type κ} → Action S A → (A → Action S B) → Action S B
◌>>=◌ m f s = continue (m s) f

abbrev pub ◌>>◌ {κ} : {S : Type 0} {B : Type κ} → Action S (Unit {0}) → Action S B → Action S B
m >> k = m >>= λ _. k

abbrev pub pure {ℓ} : {S : Type 0} {A : Type ℓ} → A → Action S A
pure a s = (ok a, s)

-- `r?` for a call that leaves the object alone.
abbrev pub lift {ℓ} : {S : Type 0} {A : Type ℓ} → Result TransportError A → Action S A
lift r s = (r, s)

-- `if !test { return Err(e); }`
abbrev pub require : {S : Type 0} → Bool → TransportError → Action S (Unit {0})
require b e s = if b then (ok tt, s) else (err e, s)

-- A step that succeeds hands on its value and its object.
pub bind_ok {ℓ κ} :
    {S : Type 0} {A : Type ℓ} {B : Type κ} (m : Action S A) (f : A → Action S B) (s : S) {a : A}
    {s' : S}
    → m s ≡ (ok a, s')
    → (m >>= f) s ≡ f a s'
bind_ok {S} {A} m f s e = ap (λ (r : Result TransportError A × S). continue r f) e
