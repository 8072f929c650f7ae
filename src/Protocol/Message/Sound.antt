-- ===== src/Protocol/Message/Sound.antt =====
-- What `parse_message` accepts is well formed.
use localscale.Prelude.{
  ℕ, ◌≤◌, ◌≡◌, refl, not, List, [], ◌∷◌, arith, Bytes, Result, ok, err, ◌>>=◌, ok_or, Bool, true,
  false, if◌then◌else◌, ensure, ◌==◌,
}
use localscale.Codec.Utf8.{is_utf8}
use localscale.Codec.Fields.{split}
use localscale.Codec.Decimal.{parse_u64, parse_u16, parse_uint-le, u64_max}
use localscale.Protocol.Message.{
  Message, handshake_init, handshake_response, keepalive, mtu_probe, ParseError, IsValid,
  validate_syntax, parse_timestamp, parse_phase, parse_version, parse_body, parse_fields,
  parse_message, checked, version,
}

-- The timestamp is a `u64`; the other types have none.
abbrev Stamped : Message → Type 0
Stamped (handshake_init node timestamp nonce) = timestamp ≤ u64_max
Stamped (handshake_response node timestamp nonce) = timestamp ≤ u64_max
Stamped (keepalive node timestamp) = timestamp ≤ u64_max
Stamped (mtu_probe node mtu) = Unit

-- A result whose value, if there is one, is a well-formed message.
abbrev Sound : Result ParseError Message → Type 0
Sound r = (m : Message) → r ≡ ok m → IsValid m

parse_timestamp-le : (s : Bytes) (t : ℕ) → parse_timestamp s ≡ ok t → t ≤ u64_max
unfolding parse_timestamp parse_u64
parse_timestamp-le s t h = parse_uint-le u64_max s t (ground arith)

checked-Sound : (m : Message) → Stamped m → Sound (checked m)
unfolding checked validate_syntax
checked-Sound (handshake_init node timestamp nonce) st m h = ground arith
checked-Sound (handshake_response node timestamp nonce) st m h = ground arith
checked-Sound (keepalive node timestamp) st m h = ground arith
checked-Sound (mtu_probe node mtu) st m h = ground arith

parse_phase-Stamped :
    (phase node ts nonce : Bytes) (m : Message) → parse_phase phase node ts nonce ≡ ok m → Stamped m
unfolding parse_phase
parse_phase-Stamped phase node ts nonce (handshake_init _ t _) h =
    parse_timestamp-le ts t (ground arith)
parse_phase-Stamped phase node ts nonce (handshake_response _ t _) h =
    parse_timestamp-le ts t (ground arith)
parse_phase-Stamped phase node ts nonce (keepalive _ t) h = absurd (ground arith)
parse_phase-Stamped phase node ts nonce (mtu_probe _ mtu) h = tt

bind-Sound :
    {A : Type 0} (r : Result ParseError A) (f : A → Result ParseError Message)
    → ((a : A) → r ≡ ok a → Sound (f a))
    → Sound (r >>= f)
bind-Sound (ok a) f h m eq = h a refl m eq
bind-Sound (err e) f h m eq = cc

if_Sound :
    (b : Bool) (r s : Result ParseError Message) → Sound r → Sound s → Sound (if b then r else s)
if_Sound true r s hr hs = hr
if_Sound false r s hr hs = hs

err-Sound : (e : ParseError) → Sound (err e)
err-Sound e m h = cc

parse_body-Sound : (kind : Bytes) (rest : List Bytes) → Sound (parse_body kind rest)
unfolding parse_body
parse_body-Sound kind (phase ∷ node ∷ ts ∷ nonce ∷ []) =
    if_Sound _ _ _
      (bind-Sound (parse_phase phase node ts nonce) checked
        (λ m h. checked-Sound m (parse_phase-Stamped phase node ts nonce m h)))
      (err-Sound _)
parse_body-Sound kind (node ∷ value ∷ []) =
    if_Sound _ _ _
      (bind-Sound (parse_timestamp value) _
        (λ t h. checked-Sound (keepalive node t) (parse_timestamp-le value t h)))
      (if_Sound _ _ _
        (bind-Sound (ok_or (parse_u16 value) _) _ (λ mtu _. checked-Sound (mtu_probe node mtu) tt))
        (err-Sound _))
parse_body-Sound kind _ = err-Sound _

parse_fields-Sound : (fs : List Bytes) → Sound (parse_fields fs)
unfolding parse_fields
parse_fields-Sound (field ∷ kind ∷ rest) =
    bind-Sound (parse_version field) _
      (λ v _. bind-Sound (ensure (v == version) _) _ (λ _ _. parse_body-Sound kind rest))
parse_fields-Sound _ = err-Sound _

-- A message that was parsed from any bytes has a valid node id, a nonce of 16 to 128 hexadecimal
-- digits, a 64-bit timestamp and an MTU in range.
pub parse_message-IsValid : (input : Bytes) (m : Message) → parse_message input ≡ ok m → IsValid m
unfolding parse_message
parse_message-IsValid input =
    if_Sound (not (is_utf8 input)) _ _ (err-Sound _) (parse_fields-Sound (split b'|' input))
