-- ===== src/Agent/HostRegistry/Candidates.antt =====
-- Which keys a connecting device is tried with.
use localscale.Prelude.{
  ◌≡◌, ◌≢◌, refl, ap, sym, ◌∙◌, Bool, true, false, not, ◌&&◌, Bool-cases, Option, none, some, List,
  [], ◌∷◌, ◌++◌, arith, Bytes, All, bytes_eq_iff, bytes_eq_self, inl, inr, ◌⊎◌, filter,
  if◌then◌else◌,
}
use localscale.Agent.HostRegistry.{
  HostPeerEntry, is_bound_to, is_none, is_pending_for, bind_entries, find, pair_of, pairs, is_match,
  is_pending, exact_or, candidates_for,
}

-- The entry is in the list.
abbrev pub In : HostPeerEntry → List HostPeerEntry → Type 0
In e [] = ⊥
In e (x ∷ xs) = (e ≡ x) ⊎ In e xs

-- A pair of an entry that is not revoked and that is bound to the claimed id, or to none.
abbrev pub IsOffered : List HostPeerEntry → Bytes → Bytes × Bytes → Type 0
IsOffered es claimed c =
    (e : HostPeerEntry) × In e es
    × (pair_of e ≡ c)
    × (e.revoked ≡ false)
    × ((e.node_id ≡ some claimed) ⊎ (e.node_id ≡ none))

is_bound_to_sound :
    (claimed : Bytes) (o : Option Bytes) → is_bound_to claimed o ≡ true → o ≡ some claimed
is_bound_to_sound claimed none h = cc
is_bound_to_sound claimed (some n) h = ap some ((bytes_eq_iff n claimed).0 h)

is_none_sound : (o : Option Bytes) → is_none o ≡ true → o ≡ none
is_none_sound none h = refl
is_none_sound (some n) h = cc

find_sound :
    (p : HostPeerEntry → Bool) (es : List HostPeerEntry) (e : HostPeerEntry)
    → find p es ≡ some e
    → In e es × (p e ≡ true)
find_sound p [] e h = absurd (cc)
find_sound p (x ∷ es) e h = elim (Bool-cases (p x)) [
  | inl hit ↦ let same : x ≡ e = ground arith in (inl (sym same), cc (hit, same))
  | inr miss ↦ let (inside, holds) = find_sound p es e (ground arith) in (inr inside, holds)
]

pending-IsOffered :
    (claimed : Bytes) (es whole : List HostPeerEntry)
    → ((e : HostPeerEntry) → In e es → In e whole)
    → All (IsOffered whole claimed) (pairs (filter is_pending es))
pending-IsOffered claimed [] whole sub = tt
pending-IsOffered claimed (x ∷ es) whole sub =
    let rest = pending-IsOffered claimed es whole (λ e h. sub e (inr h)) in
    elim (Bool-cases (is_pending x)) [
      | inl hit ↦ rw hit (
        (x, sub x (inl refl), refl, ground arith, inr (is_none_sound x.node_id (ground arith))),
        rest,
      )
      | inr miss ↦ rw miss rest
    ]

exact-IsOffered :
    (claimed : Bytes) (es : List HostPeerEntry) (found : Option HostPeerEntry)
    → find (is_match claimed) es ≡ found
    → All (IsOffered es claimed) (exact_or found es)
exact-IsOffered claimed es none h = pending-IsOffered claimed es es (λ e i. i)
exact-IsOffered claimed es (some e) h =
    let (inside, holds) = find_sound (is_match claimed) es e h in
    ((e, inside, refl, ground arith, inl (is_bound_to_sound claimed e.node_id (ground arith))), tt)

-- A device is only tried with keys of entries that are not revoked, and that are bound to the id that it
-- claims or still pending: never with the key of another device.
pub candidates_for_sound :
    (es : List HostPeerEntry) (claimed : Bytes)
    → All (IsOffered es claimed) (candidates_for es claimed)
unfolding candidates_for
candidates_for_sound es claimed = exact-IsOffered claimed es (find (is_match claimed) es) refl

-- The entry behind `bind_entries`.
abbrev bound : Bytes → Bytes → HostPeerEntry → HostPeerEntry
bound inv node e = if is_pending_for inv e then record e { node_id = some node } else e

skipped :
    (inv node : Bytes) (x : HostPeerEntry)
    → is_match node x ≡ false
    → (is_pending_for inv x && not x.revoked) ≡ false
    → is_match node (bound inv node x) ≡ false
skipped inv node x other clear = elim (Bool-cases (is_pending_for inv x)) [
  | inl taken ↦ rw (taken, bytes_eq_self node) (ground arith)
  | inr left ↦ rw left other
]

find_bound :
    (inv node : Bytes) (front behind : List HostPeerEntry) (e : HostPeerEntry)
    → All (λ x. (is_match node x ≡ false) × ((is_pending_for inv x && not x.revoked) ≡ false)) front
    → is_pending_for inv e ≡ true
    → e.revoked ≡ false
    → find (is_match node) (bind_entries inv node (front ++ e ∷ behind))
      ≡ some (record e { node_id = some node })
unfolding bind_entries
find_bound inv node [] behind e clear pending live = rw (pending, bytes_eq_self node, live)
find_bound inv node (x ∷ front) behind e clear pending live =
    rw (skipped inv node x clear.0.0 clear.0.1)
      (find_bound inv node front behind e clear.1 pending live)

-- Once an invitation is bound to a device, that device is tried with its key alone, if no other entry
-- in front of the invitation is bound to the device or has the same id and is pending.
pub candidates_for-bind_entries :
    (inv node : Bytes) (front behind : List HostPeerEntry) (e : HostPeerEntry)
    → All (λ x. (is_match node x ≡ false) × ((is_pending_for inv x && not x.revoked) ≡ false)) front
    → is_pending_for inv e ≡ true
    → e.revoked ≡ false
    → candidates_for (bind_entries inv node (front ++ e ∷ behind)) node ≡ pair_of e ∷ []
unfolding candidates_for
candidates_for-bind_entries inv node front behind e clear pending live =
    rw (find_bound inv node front behind e clear pending live)

pending_unbound : (inv : Bytes) (e : HostPeerEntry) → is_pending_for inv e ≡ true → e.node_id ≡ none
pending_unbound inv e h = is_none_sound e.node_id (ground arith)

taken_other :
    (inv node other : Bytes) (e : HostPeerEntry)
    → other ≢ node
    → is_pending_for inv e ≡ true
    → (is_match other (record e { node_id = some node }) ≡ false) × (is_match other e ≡ false)
taken_other inv node other e ne taken =
    (ground (arith, bytes_eq_iff node other), rw (pending_unbound inv e taken))

find_other :
    (inv node other : Bytes) (es : List HostPeerEntry)
    → other ≢ node
    → find (is_match other) (bind_entries inv node es) ≡ find (is_match other) es
unfolding bind_entries
find_other inv node other [] ne = refl
find_other inv node other (e ∷ es) ne = elim (Bool-cases (is_pending_for inv e)) [
  | inl taken ↦
      let (after, before) = taken_other inv node other e ne taken in
      rw (taken, after, before) (find_other inv node other es ne)
  | inr left ↦ rw (left, find_other inv node other es ne)
]

filter_other :
    (inv node : Bytes) (es : List HostPeerEntry)
    → filter is_pending (bind_entries inv node es)
      ≡ filter is_pending (filter (λ e. not (is_pending_for inv e)) es)
unfolding bind_entries
filter_other inv node [] = refl
filter_other inv node (e ∷ es) = elim (Bool-cases (is_pending_for inv e)) [
  | inl taken ↦ rw taken (filter_other inv node es)
  | inr left ↦ rw (left, filter_other inv node es)
]

exact_other :
    (found : Option HostPeerEntry) (es fs : List HostPeerEntry)
    → filter is_pending es ≡ filter is_pending fs
    → exact_or found es ≡ exact_or found fs
exact_other none es fs h = ap pairs h
exact_other (some e) es fs h = refl

-- For every other device, binding takes the invitation out of the keys that it is tried with, and
-- changes nothing else.
pub candidates_for_others :
    (inv node other : Bytes) (es : List HostPeerEntry)
    → other ≢ node
    → candidates_for (bind_entries inv node es) other
      ≡ exact_or (find (is_match other) es) (filter (λ e. not (is_pending_for inv e)) es)
unfolding candidates_for
candidates_for_others inv node other es ne =
    ap (λ (f : Option HostPeerEntry). exact_or f (bind_entries inv node es))
      (find_other inv node other es ne)
    ∙ exact_other (find (is_match other) es) (bind_entries inv node es)
        (filter (λ e. not (is_pending_for inv e)) es) (filter_other inv node es)
