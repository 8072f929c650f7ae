-- ===== src/Agent/Json.antt =====
-- `json_string`, `optional_json` and `parse_json_fields` of src/lib.rs.
pub mod Records
use localscale.Prelude.{
  ℕ, ◌≡◌, Bool, true, false, ◌||◌, Option, none, some, List, [], ◌∷◌, ◌++◌, Bytes, codes, bytes_eq,
  all, not, ltb, ◌==◌, if◌then◌else◌, strip_prefix, strip_suffix,
}
use localscale.Prelude.Options.{◌>>=◌}
use localscale.Prelude.Table.{Table, insert}
use localscale.Codec.Fields.{split, split_once}
use localscale.Codec.Hex.{hex}
use localscale.Codec.Trim.{trim}
use localscale.Protocol.Syntax.{is_empty}

-- The bytes of a character of more than one byte are pushed as they are.
unfoldable pub escape : ℕ → Bytes
escape c =
    if c == b'"'
    then codes "\\\""
    else if c == b'\\'
    then codes "\\\\"
    else if c == 8
    then codes "\\b"
    else if c == 12
    then codes "\\f"
    else if c == b'\n'
    then codes "\\n"
    else if c == b'\r'
    then codes "\\r"
    else if c == b'\t'
    then codes "\\t"
    else if c == b'<'
    then codes "\\u003c"
    else if c == b'>'
    then codes "\\u003e"
    else if c == b'&'
    then codes "\\u0026"
    else if ltb c 0x20
    then codes "\\u00" ++ hex (c ∷ [])
    else c ∷ []

unfoldable pub escaped : Bytes → Bytes
escaped [] = []
escaped (c ∷ s) = escape c ++ escaped s

unfoldable pub json_string : Bytes → Bytes
json_string v = b'"' ∷ (escaped v ++ b'"' ∷ [])

pub optional_json : Option Bytes → Bytes
optional_json none = codes "null"
optional_json (some v) = json_string v

-- `{}` of a Boolean.
abbrev pub bool_text : Bool → Bytes
bool_text true = codes "true"
bool_text false = codes "false"

-- A text in quotation marks, without them.
abbrev pub unquoted : Bytes → Option Bytes
unquoted v = strip_prefix (codes "\"") v >>= strip_suffix (codes "\"")

abbrev or_literal : Option Bytes → Bytes → Option Bytes
or_literal (some v) text = some v
or_literal none text =
    if bytes_eq text (codes "true") || bytes_eq text (codes "false") then some text else none

abbrev is_refused : ℕ → Bool
is_refused c = ltb c 0x20 || c == b'\\'

-- The body of the loop: the key and the value of an item.
unfoldable pub parse_item : Bytes → Option (Bytes × Bytes)
parse_item item = do
  (before, behind) ← split_once b':' item
  key ← unquoted (trim before)
  value ← or_literal (unquoted (trim behind)) (trim behind)
  if is_empty key || not (all (λ c. not (is_refused c)) value) then none else some (key, value)

unfoldable pub parse_items : List Bytes → Table Bytes → Option (Table Bytes)
parse_items [] output = some output
parse_items (item ∷ items) output = do
  (key, value) ← parse_item item
  parse_items items (insert key value output)

pub parse_json_fields : Bytes → Option (Table Bytes)
parse_json_fields body = do
  opened ← strip_prefix (codes "{") (trim body)
  closed ← strip_suffix (codes "}") opened
  if is_empty (trim closed) then some [] else parse_items (split b',' (trim closed)) []
