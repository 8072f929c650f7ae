-- ===== src/Agent/Peers/Consumption.antt =====
-- The calls of `PeerStore` in src/lib.rs, in any row: the markers of the invitations outlive all of them.
use localscale.Prelude.{
  ℕ, ◌+◌, ◌≤◌, ◌≡◌, refl, ap, ◌∙◌, Bool, true, false, not, Bool-cases, inl, inr, Option, none, some,
  List, [], ◌∷◌, Bytes, bytes_eq, bytes_eq_iff, arith, if◌then◌else◌, Result, ok, err,
}
use localscale.Protocol.Crypto.{mem}
use localscale.Transport.Action.{IoError}
use localscale.Agent.Peers.{
  PeerRecord, PeerStore, Marked, done, failed_before, failed_behind, configure, clear,
  consume_invitation_id, set_approval, set_virtual_ip, kept, written, write_record, removed, marked,
  approve_record, with_stored_key, unconfigured, record_body,
}
use localscale.Prelude.Options.{unwrap_or}

-- A call on the store with what the system does.
pub data Call : Type 0 where
  configure_with : Option IoError → PeerRecord → Call
  clear_with : Option IoError → Call
  consume_with : Marked → Bytes → Call
  approve_with : Option IoError → Bool → Call
  virtual_ip_with : Option IoError → Option Bytes → Call

module _ (sha256 : Bytes → Bytes) where
  -- The store behind the call.
  unfoldable pub call : Call → PeerStore → PeerStore
  call (configure_with fault r) s = (configure sha256 fault r s).1
  call (clear_with fault) s = (clear fault s).1
  call (consume_with how id) s = (consume_invitation_id how id s).1
  call (approve_with fault approved) s = (set_approval fault approved s).1
  call (virtual_ip_with fault ip) s = (set_virtual_ip fault ip s).1

  abbrev is_grant : Result IoError Bool → Bool
  is_grant (ok b) = b
  is_grant (err e) = false

  -- Whether the call grants this id.
  abbrev grants : Bytes → Call → PeerStore → Bool
  grants id (consume_with how other) s =
      if bytes_eq other id then is_grant (consume_invitation_id how other s).0 else false
  grants id other s = false

  -- How many of the calls, made in this order, grant the id.
  unfoldable pub count_grants : Bytes → List Call → PeerStore → ℕ
  count_grants id [] s = 0
  count_grants id (c ∷ cs) s =
      let rest = count_grants id cs (call c s) in if grants id c s then 1 + rest else rest

  written-consumed :
      (fault : Option IoError) (body : Bytes) (s : PeerStore)
      → (written fault body s).1.consumed ≡ s.consumed
  written-consumed none body s = refl
  written-consumed (some e) body s = refl

  kept-consumed :
      (r : PeerRecord) (x : Result IoError (Unit {0}) × PeerStore)
      → (kept r x).1.consumed ≡ x.1.consumed
  kept-consumed r (ok u, s) = refl
  kept-consumed r (err e, s) = refl

  stored-consumed :
      (fault : Option IoError) (r : PeerRecord) (s : PeerStore)
      → (kept r (write_record fault r s)).1.consumed ≡ s.consumed
  unfolding write_record
  stored-consumed fault r s =
      kept-consumed r (written fault (record_body r) s) ∙ written-consumed fault (record_body r) s

  removed-consumed :
      (fault : Option IoError) (file : Option Bytes) (s : PeerStore)
      → (removed fault file s).1.consumed ≡ s.consumed
  removed-consumed fault none s = refl
  removed-consumed none (some body) s = refl
  removed-consumed (some e) (some body) s = refl

  approved-consumed :
      (approved : Bool) (fault : Option IoError) (r : Option PeerRecord) (s : PeerStore)
      → (approve_record approved fault r s).1.consumed ≡ s.consumed
  approved-consumed approved fault none s = refl
  approved-consumed approved fault (some r) s =
      stored-consumed fault (record r { approved = approved; revoked = not approved }) s

  mem-cons : (id other : Bytes) (ids : List Bytes) → mem id ids ≡ true → mem id (other ∷ ids) ≡ true
  mem-cons id other ids h = ground arith

  marked-mem :
      (how : Marked) (id other : Bytes) (s : PeerStore)
      → mem id s.consumed ≡ true
      → mem id (marked how other s).1.consumed ≡ true
  marked-mem done id other s h = mem-cons id other s.consumed h
  marked-mem failed_before id other s h = h
  marked-mem failed_behind id other s h = mem-cons id other s.consumed h

  marked_if-mem :
      (b : Bool) (how : Marked) (id other : Bytes) (s : PeerStore)
      → mem id s.consumed ≡ true
      → mem id (if b then (ok false, s) else marked how other s).1.consumed ≡ true
  marked_if-mem true how id other s h = h
  marked_if-mem false how id other s h = marked-mem how id other s h

  -- An id that is marked stays marked.
  call-mem :
      (id : Bytes) (c : Call) (s : PeerStore)
      → mem id s.consumed ≡ true
      → mem id (call c s).consumed ≡ true
  unfolding call configure clear consume_invitation_id set_approval set_virtual_ip
  call-mem id (configure_with fault r) s h =
      ap (mem id) (stored-consumed fault (with_stored_key sha256 r) s) ∙ h
  call-mem id (clear_with fault) s h = ap (mem id) (removed-consumed fault s.file s) ∙ h
  call-mem id (consume_with how other) s h = marked_if-mem (mem other s.consumed) how id other s h
  call-mem id (approve_with fault approved) s h =
      ap (mem id) (approved-consumed approved fault s.peer_record s) ∙ h
  call-mem id (virtual_ip_with fault ip) s h =
      ap (mem id) (
        stored-consumed fault (record (unwrap_or s.peer_record unconfigured) { virtual_ip = ip }) s)
      ∙ h

  consume_invitation_id-marked :
      (how : Marked) (id : Bytes) (s : PeerStore)
      → mem id s.consumed ≡ true
      → consume_invitation_id how id s ≡ (ok false, s)
  unfolding consume_invitation_id
  consume_invitation_id-marked how id s h = rw h

  refused_if : (b g : Bool) → (b ≡ true → g ≡ false) → (if b then g else false) ≡ false
  refused_if true g f = f refl
  refused_if false g f = refl

  -- A marked id is not granted.
  grants-mem :
      (id : Bytes) (c : Call) (s : PeerStore) → mem id s.consumed ≡ true → grants id c s ≡ false
  grants-mem id (consume_with how other) s h =
      refused_if (bytes_eq other id) (is_grant (consume_invitation_id how other s).0) (λ e.
        ap (λ (x : Result IoError Bool × PeerStore). is_grant x.0)
          (consume_invitation_id-marked how other s
            (ap (λ k. mem k s.consumed) ((bytes_eq_iff other id).0 e) ∙ h)))
  grants-mem id (configure_with fault r) s h = refl
  grants-mem id (clear_with fault) s h = refl
  grants-mem id (approve_with fault approved) s h = refl
  grants-mem id (virtual_ip_with fault ip) s h = refl

  granted_if-mem :
      (b : Bool) (how : Marked) (id other : Bytes) (s : PeerStore)
      → bytes_eq other id ≡ true
      → is_grant (if b then (ok false, s) else marked how other s).0 ≡ true
      → mem id (if b then (ok false, s) else marked how other s).1.consumed ≡ true
  granted_if-mem true how id other s same h = ground arith
  granted_if-mem false done id other s same h = ground arith
  granted_if-mem false failed_before id other s same h = ground arith
  granted_if-mem false failed_behind id other s same h = ground arith

  needed_if : (b g : Bool) → (if b then g else false) ≡ true → (b ≡ true) × (g ≡ true)
  needed_if true g h = (refl, h)
  needed_if false g h = ground arith

  -- An id that is granted is marked.
  mem-grants :
      (id : Bytes) (c : Call) (s : PeerStore)
      → grants id c s ≡ true
      → mem id (call c s).consumed ≡ true
  unfolding call consume_invitation_id
  mem-grants id (consume_with how other) s h =
      let both = needed_if (bytes_eq other id) (is_grant (consume_invitation_id how other s).0) h in
      granted_if-mem (mem other s.consumed) how id other s both.0 both.1
  mem-grants id (configure_with fault r) s h = ground arith
  mem-grants id (clear_with fault) s h = ground arith
  mem-grants id (approve_with fault approved) s h = ground arith
  mem-grants id (virtual_ip_with fault ip) s h = ground arith

  count_grants-marked :
      (id : Bytes) (cs : List Call) (s : PeerStore)
      → mem id s.consumed ≡ true
      → count_grants id cs s ≡ 0
  unfolding count_grants
  count_grants-marked id [] s h = refl
  count_grants-marked id (c ∷ cs) s h =
      let none_here = grants-mem id c s h in
      let none_later = count_grants-marked id cs (call c s) (call-mem id c s h) in ground arith

  -- Over any row of calls on the store, whether or not the system lets them succeed, an invitation is granted
  -- at most once; and one whose marker is there is not granted at all.
  pub count_grants-le :
      (id : Bytes) (cs : List Call) (s : PeerStore)
      → (count_grants id cs s ≤ 1) × (mem id s.consumed ≡ true → count_grants id cs s ≡ 0)
  unfolding count_grants
  count_grants-le id [] s = (ground arith, λ h. refl)
  count_grants-le id (c ∷ cs) s = (
    elim (Bool-cases (grants id c s)) [
      | inl granted ↦
          (let none_later = count_grants-marked id cs (call c s) (mem-grants id c s granted) in
            ground arith)
      | inr refused ↦ (let later = (count_grants-le id cs (call c s)).0 in ground arith)
    ],
    λ h. count_grants-marked id (c ∷ cs) s h,
  )
