-- ===== src/Agent/Origin.antt =====
-- The checks of src/lib.rs that let a request through: the method, the `Host` header, and the proof that
-- it comes from the same origin. Also `http_response`.
use localscale.Prelude.{
  ℕ, Bool, true, false, not, ◌&&◌, ◌||◌, Option, none, some, List, [], ◌∷◌, ◌++◌, Bytes, codes,
  bytes_eq, length, leb, ◌==◌, ◌+◌, if◌then◌else◌, strip_prefix, filter,
}
use localscale.Codec.Decimal.{decimal}
use localscale.Codec.Fields.{cut_at}
use localscale.Codec.Trim.{trim}
use localscale.Protocol.Syntax.{is_empty}

abbrev pub Headers : Type 0
Headers = List (Bytes × Bytes)

-- `u8::to_ascii_lowercase`
abbrev pub lower : ℕ → ℕ
lower c = if leb b'A' c && leb c b'Z' then c + 32 else c

unfoldable pub eq_ignore_ascii_case : Bytes → Bytes → Bool
eq_ignore_ascii_case [] [] = true
eq_ignore_ascii_case [] (d ∷ t) = false
eq_ignore_ascii_case (c ∷ s) [] = false
eq_ignore_ascii_case (c ∷ s) (d ∷ t) = lower c == lower d && eq_ignore_ascii_case s t

pub http_response : Bytes → Bytes → Bytes → Bytes
http_response status content_type body =
    codes "HTTP/1.1 "
    ++ (status
        ++ (codes "\r\nContent-Type: "
            ++ (content_type
                ++ (codes "\r\nContent-Length: "
                    ++ (decimal (length body)
                        ++ (codes "\r\nConnection: close\r\n\r\n" ++ body))))))

unfoldable pub is_state_changing_method : Bytes → Bool
is_state_changing_method method = not (
    is_empty method
    || bytes_eq method (codes "GET")
    || bytes_eq method (codes "HEAD")
    || bytes_eq method (codes "OPTIONS"))

-- `text.split(sep).next()`
abbrev pub first_part : ℕ → Bytes → Bytes
first_part sep [] = []
first_part sep (c ∷ s) = let rest = first_part sep s in if c == sep then [] else c ∷ rest

abbrev authority_matches : Option (Bytes × Bytes) → Bytes → Bool
authority_matches none host = false
authority_matches (some (scheme, behind)) host =
    let authority = first_part b'/' behind in
    if is_empty authority || not (eq_ignore_ascii_case scheme (codes "http"))
    then false
    else eq_ignore_ascii_case authority host

unfoldable pub origin_matches_host : Bytes → Bytes → Bool
origin_matches_host value host = authority_matches (cut_at (codes "://") value) host

-- The values of the headers with this name.
abbrev pub values_of : Bytes → Headers → List Bytes
values_of name [] = []
values_of name ((n, v) ∷ hs) =
    let rest = values_of name hs in if eq_ignore_ascii_case n name then trim v ∷ rest else rest

-- Whether there is exactly one value, and it matches the host.
abbrev only_match : List Bytes → Bytes → Bool
only_match [] host = false
only_match (v ∷ []) host = origin_matches_host v host
only_match (v ∷ w ∷ vs) host = false

abbrev origin_or_referer : List Bytes → Headers → Bytes → Bool
origin_or_referer [] headers host = only_match (values_of (codes "Referer") headers) host
origin_or_referer (v ∷ vs) headers host = only_match (v ∷ vs) host

unfoldable pub has_same_origin_proof : Headers → Bytes → Bool
has_same_origin_proof headers host =
    origin_or_referer (values_of (codes "Origin") headers) headers host

abbrev strip_bracket : Option Bytes → Bytes → Bytes
strip_bracket (some inner) host = first_part b']' inner
strip_bracket none host =
    if length (filter (λ c. c == b':') host) == 1 then first_part b':' host else host

abbrev is_local_name : Bytes → Bool
is_local_name host =
    eq_ignore_ascii_case host (codes "localhost")
    || bytes_eq host (codes "127.0.0.1")
    || bytes_eq host (codes "::1")

unfoldable pub is_loopback_host : Bytes → Bool
is_loopback_host host =
    is_local_name (strip_bracket (strip_prefix (codes "[") (trim host)) (trim host))
