-- ===== src/Agent/Mode.antt =====
-- `parse_mode` of src/lib.rs.
use localscale.Prelude.{
  Bool, not, ◌&&◌, ◌||◌, Option, none, some, Bytes, codes, bytes_eq, all, ltb, ◌==◌, if◌then◌else◌,
  strip_prefix, strip_suffix,
}
use localscale.Prelude.Options.{◌>>=◌}
use localscale.Codec.Fields.{split_once}
use localscale.Codec.Trim.{trim, trim_start}
use localscale.Protocol.Syntax.{is_empty}

-- The `match` at the end.
abbrev accepted : Bytes → Bool → Option Bytes
accepted value contract =
    if bytes_eq value (codes "host") || bytes_eq value (codes "cliente")
    then some value
    else if bytes_eq value (codes "client") && not contract
    then some value
    else none

abbrev only_value : Bytes → Bytes → Bool → Option Bytes
only_value value rest contract =
    if not (all (λ c. not (c == b'\\' || ltb c 0x20)) value)
    then none
    else if not (is_empty (trim rest))
    then none
    else accepted value contract

abbrev behind_key : Bytes → Bytes → Option Bytes
behind_key key rest =
    if bytes_eq key (codes "mode") then strip_prefix (codes ":") (trim_start rest) else none

pub parse_mode : Bytes → Bool → Option Bytes
parse_mode body contract = do
  opened ← strip_prefix (codes "{") (trim body)
  closed ← strip_suffix (codes "}") opened
  quoted ← strip_prefix (codes "\"") (trim closed)
  (key, behind) ← split_once b'"' quoted
  colon ← behind_key key behind
  text ← strip_prefix (codes "\"") (trim_start colon)
  (value, rest) ← split_once b'"' text
  only_value value rest contract
