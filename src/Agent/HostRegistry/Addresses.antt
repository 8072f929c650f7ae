-- ===== src/Agent/HostRegistry/Addresses.antt =====
-- The virtual address of a new device is free.
use localscale.Prelude.{
  ℕ, zero, suc, ◌+◌, ◌≤◌, ◌<◌, ◌≡◌, ◌≢◌, refl, ap, true, false, Bool-cases, some, List, [], ◌∷◌,
  ◌++◌, arith, Bytes, All, inl, inr, ◌⊎◌, ◌==◌, ==_iff, ==_self,
}
use localscale.Codec.Decimal.{
  decimal, parse_u8, parse_uint-decimal, decimal-IsDigit, IsDigit, u8_max,
}
use localscale.Agent.HostRegistry.{
  HostPeerEntry, last_octet, has_dot, is_octet, is_used, first_free, next_free_virtual_ip,
}

abbrev NoDot : Bytes → Type 0
NoDot s = All (λ c. c ≢ b'.') s

digits-NoDot : (s : Bytes) → All IsDigit s → NoDot s
digits-NoDot [] h = tt
digits-NoDot (c ∷ s) h = (λ e. absurd (omega arith), digits-NoDot s h.1)

no_dot : (s : Bytes) → NoDot s → has_dot s ≡ false
no_dot [] h = refl
no_dot (c ∷ s) h = ground (arith, no_dot s h.1)

dot_inside : (p s : Bytes) → has_dot (p ++ b'.' ∷ s) ≡ true
dot_inside [] s = refl
dot_inside (c ∷ p) s = ground (arith, dot_inside p s)

-- The digits behind the last dot are the last octet.
last_octet-append : (p s : Bytes) → NoDot s → last_octet (p ++ b'.' ∷ s) ≡ s
unfolding last_octet
last_octet-append [] s h = rw (no_dot s h)
last_octet-append (c ∷ p) s h = rw (dot_inside p s) (last_octet-append p s h)

octet_lem : (p : Bytes) (n : ℕ) → n ≤ 255 → parse_u8 (last_octet (p ++ b'.' ∷ decimal n)) ≡ some n
unfolding parse_u8
octet_lem p n h =
    rw (last_octet-append p (decimal n) (digits-NoDot (decimal n) (decimal-IsDigit n)))
      (parse_uint-decimal u8_max n (omega arith) (omega arith))

-- An entry with this address uses its last octet.
used_octet :
    (es : List HostPeerEntry) (p : Bytes) (n : ℕ)
    → n ≤ 255
    → is_used es n ≡ false
    → All (λ (e : HostPeerEntry). e.virtual_ip ≢ p ++ b'.' ∷ decimal n) es
unfolding is_used
used_octet [] p n h free = tt
used_octet (e ∷ es) p n h free = (
  λ same. absurd (
      cc (
        free,
        ap (λ (s : Bytes). is_octet n (parse_u8 (last_octet s))) same,
        octet_lem p n h,
        ==_self n,
      )),
  used_octet es p n h (ground arith),
)

-- The search finds the first free candidate, or all are used.
record Found (es : List HostPeerEntry) (left n k : ℕ) : Type 0 where
  low : n ≤ k
  high : k < n + left
  unused : is_used es k ≡ false

later :
    (es : List HostPeerEntry) (left n k : ℕ)
    → n ≤ k
    → k < n + suc left
    → is_used es n ≡ true
    → ((i : ℕ) → n + 1 ≤ i → i < n + 1 + left → is_used es i ≡ true)
    → is_used es k ≡ true
later es left n k low high taken rest = elim (Bool-cases (k == n)) [
  | inl same ↦ cc (taken, (==_iff k n).0 same)
  | inr apart ↦ rest k (ground arith) (omega arith)
]

first_free_cases :
    (es : List HostPeerEntry) (left n : ℕ)
    → Found es left n (first_free es left n)
      ⊎ ((k : ℕ) → n ≤ k → k < n + left → is_used es k ≡ true)
unfolding first_free
first_free_cases es zero n = inr (λ k low high. absurd (omega arith))
first_free_cases es (suc left) n = elim (Bool-cases (is_used es n)) [
  | inr free ↦ rw free (inl (record { low = omega arith; high = omega arith; unused = free }))
  | inl taken ↦ rw taken (elim (first_free_cases es left (n + 1)) [
    | inl f ↦
        inl (record { low = omega (arith, f.low); high = omega (arith, f.high); unused = f.unused })
    | inr none_free ↦ inr (λ k low high. later es left n k low high taken none_free)
  ])
]

-- While one of the addresses from .2 to .254 is free, the address handed out lies among them, and no
-- entry of the registry, revoked or not, has it.
pub next_free_virtual_ip_unused :
    (es : List HostPeerEntry) (prefix : Bytes) (free : ℕ)
    → 2 ≤ free
    → free ≤ 254
    → is_used es free ≡ false
    → (n : ℕ) × (2 ≤ n)
      × (n ≤ 254)
      × (next_free_virtual_ip es prefix ≡ prefix ++ b'.' ∷ decimal n)
      × All (λ (e : HostPeerEntry). e.virtual_ip ≢ next_free_virtual_ip es prefix) es
unfolding next_free_virtual_ip
next_free_virtual_ip_unused es prefix free low high unused = elim (first_free_cases es 253 2) [
  | inl f ↦ (
    first_free es 253 2,
    f.low,
    omega (arith, f.high),
    refl,
    used_octet es prefix (first_free es 253 2) (omega (arith, f.high)) f.unused,
  )
  | inr all_used ↦ absurd (cc (unused, all_used free low (omega arith)))
]
