-- ===== src/Agent/Tun/Names.antt =====
-- The name of a device of src/tun_linux.rs.
use localscale.Prelude.{
  ℕ, suc, ◌-◌, ◌<◌, ◌≡◌, ◌≢◌, refl, ap, ◌∙◌, Bool, true, false, Bool-cases, inl, inr, leb, ◌>>=◌,
  [], ◌∷◌, ◌++◌, Bytes, All, length, length-append, length-replicate, replicate, arith, Result, ok,
  err, ltb, ◌==◌, if◌then◌else◌,
}
use localscale.Agent.Tun.{until_zero, interface_name_from, request, create_linux, IfReq, ifnamsiz}
use localscale.Transport.Action.{IoError, other}

-- A name without a zero byte.
abbrev pub IsPlain : Bytes → Type 0
IsPlain name = All (λ c. c ≢ 0) name

until_zero-padded :
    (name : Bytes) (n : ℕ) → IsPlain name → until_zero (name ++ replicate (suc n) 0) ≡ name
unfolding until_zero
until_zero-padded [] n plain = refl
until_zero-padded (c ∷ name) n plain = ground (arith, until_zero-padded name n plain.1)

-- The kernel that keeps the name of a request of 16 bytes.
abbrev pub keeps : IfReq → Result IoError Bytes
keeps ifr = if length ifr.ifr_name == ifnamsiz then ok ifr.ifr_name else err other

padded :
    (name : Bytes)
    → length name < 16
    → IsPlain name
    → until_zero (name ++ replicate (16 - length name) 0) ≡ name
padded name short plain =
    let positive : 16 - length name ≡ suc (15 - length name) = omega arith in
    ap (λ n. until_zero (name ++ replicate n 0)) positive
    ∙ until_zero-padded name (15 - length name) plain

length-padded :
    (name : Bytes) → length name < 16 → length (name ++ replicate (16 - length name) 0) ≡ 16
length-padded name short = omega (
  arith,
  length-append name (replicate (16 - length name) 0),
  length-replicate {A = ℕ} (16 - length name) 0,
)

kept_if :
    (b : Bool) (lossy : Bytes → Bytes) (name : Bytes) (raw : Bytes)
    → until_zero raw ≡ name
    → lossy name ≡ name
    → b ≡ true
    → (do r ← (if b then ok raw else err other); ok (interface_name_from lossy r)) ≡ ok name
unfolding interface_name_from
kept_if true lossy name raw cut kept h = ap (λ r. ok (lossy r)) cut ∙ ap (λ r. ok r) kept
kept_if false lossy name raw cut kept h = ground arith

-- A name of at most 15 bytes fills a request of 16 bytes, and a kernel that keeps the name gives the device that
-- name; a longer one is refused before the kernel is asked. The name has no zero byte, and the conversion to text
-- keeps it.
pub create_linux-kept :
    (lossy : Bytes → Bytes) (name : Bytes)
    → IsPlain name
    → lossy name ≡ name
    → create_linux lossy (ok tt) name keeps ≡ (if ltb (length name) 16 then ok name else err other)
unfolding create_linux request
create_linux-kept lossy name plain kept = elim (Bool-cases (ltb (length name) 16)) [
  | inl h ↦
      let short : length name < 16 = ground arith in
      let fits : leb ifnamsiz (length name) ≡ false = ground arith in
      let full : (length (name ++ replicate (16 - length name) 0) == ifnamsiz) ≡ true =
        ground (arith, length-padded name short) in
      rw (fits, h)
        (kept_if _ lossy name (name ++ replicate (16 - length name) 0) (padded name short plain)
          kept full)
  | inr h ↦ let long : leb ifnamsiz (length name) ≡ true = ground arith in rw (long, h)
]
