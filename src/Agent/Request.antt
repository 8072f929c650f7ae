-- ===== src/Agent/Request.antt =====
-- How `response_for_request_with_state` and `handle_connection` of src/lib.rs take a request apart. The
-- text of a request is UTF-8, which `from_utf8_lossy` leaves as it is.
use localscale.Prelude.{ℕ, Option, none, some, List, [], ◌∷◌, Bytes, codes, length, if◌then◌else◌}
use localscale.Codec.Fields.{split_once, cut_at, split_at}
use localscale.Codec.Trim.{trim, trim_start, strip_one, whitespace}
use localscale.Agent.Origin.{Headers, eq_ignore_ascii_case}

-- What `split_whitespace` gives first: the text in front of the first space, and what stands behind it.
abbrev stopped : ℕ → Option Bytes → Bytes × Bytes → Bytes × Bytes
stopped c (some r) (word, s) = ([], r)
stopped c none (word, s) = (c ∷ word, s)

unfoldable pub first_word : Bytes → Bytes × Bytes
first_word [] = ([], [])
first_word (c ∷ s) = let rest = first_word s in stopped c (strip_one whitespace (c ∷ s)) rest

-- The next word, or the empty text for `unwrap_or("")`.
abbrev pub next_word : Bytes → Bytes × Bytes
next_word s = first_word (trim_start s)

pub record Request : Type 0 where
  pub method : Bytes
  pub target : Bytes
  pub headers : Headers
  pub body : Bytes

-- `(head, body)`
abbrev pub sections : Bytes → Bytes × Bytes
sections text = elim (cut_at (codes "\r\n\r\n") text) [ none ↦ (text, []) | some (p, q) ↦ (p, q) ]

abbrev add_header : Option (Bytes × Bytes) → Headers → Headers
add_header none hs = hs
add_header (some (name, value)) hs = (name, trim value) ∷ hs

-- `filter_map`: a line without a colon is passed over.
unfoldable pub headers_of : List Bytes → Headers
headers_of [] = []
headers_of (line ∷ lines) = let rest = headers_of lines in add_header (split_once b':' line) rest

abbrev request_of : List Bytes → Bytes → Request
request_of [] body = record { method = []; target = []; headers = []; body = body }
request_of (line ∷ lines) body = record {
  method = (next_word line).0;
  target = (next_word (next_word line).1).0;
  headers = headers_of lines;
  body = body;
}

-- `text.split("\r\n")`
abbrev pub lines_of : Bytes → List Bytes
lines_of text = split_at (length text) (codes "\r\n") text

unfoldable pub parse_request : Bytes → Request
parse_request text = request_of (lines_of (sections text).0) (sections text).1

-- The target up to a `?`.
abbrev before_query : Option (Bytes × Bytes) → Bytes → Bytes
before_query none target = target
before_query (some (path, query)) target = path

abbrev pub path_of : Bytes → Bytes
path_of target = before_query (split_once b'?' target) target

-- The value of the first `Host` header, or the empty text.
unfoldable pub host_of : Headers → Bytes
host_of [] = []
host_of ((name, value) ∷ hs) =
    let rest = host_of hs in if eq_ignore_ascii_case name (codes "host") then value else rest
