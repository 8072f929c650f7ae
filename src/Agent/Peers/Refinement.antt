-- ===== src/Agent/Peers/Refinement.antt =====
-- The calls of `PeerStore` in src/lib.rs refine an abstract store, which is one record or none.
use localscale.Prelude.{
  ℕ, ◌≡◌, refl, ap, sym, subst, ◌∙◌, Bool, true, false, not, Option, none, some, List, [], ◌∷◌,
  Bytes, Result, ok, err, if◌then◌else◌,
}
use localscale.Prelude.Options.{unwrap_or}
use localscale.Protocol.Crypto.{mem}
use localscale.Transport.Action.{IoError, not_found}
use localscale.Agent.Peers.{
  PeerRecord, PeerStore, Marked, configure, clear, consume_invitation_id, set_approval,
  set_virtual_ip, write_record, removed, marked, approve_record, with_stored_key, unconfigured,
  record_body, open_store, adopted, checked_record,
}
use localscale.Agent.Peers.Consumption.{
  Call, configure_with, clear_with, consume_with, approve_with, virtual_ip_with, call,
}
use localscale.Agent.Peers.Persistence.{IsStorableRecord, read_record-record_body}
use localscale.Agent.Role.{Metadata, validate_file}

abbrev body_of : Option PeerRecord → Option Bytes
body_of none = none
body_of (some r) = some (record_body r)

-- The file of the store holds its record.
abbrev pub IsSynced : PeerStore → Type 0
IsSynced s = s.file ≡ body_of s.peer_record

-- A store that is synced and has this record.
abbrev Holds : PeerStore → Option PeerRecord → Type 0
Holds s p = (s.peer_record ≡ p) × (s.file ≡ body_of p)

abbrev approve : Bool → PeerRecord → PeerRecord
approve approved r = record r { approved = approved; revoked = not approved }

abbrev approved_record : Bool → Option PeerRecord → Option PeerRecord
approved_record approved none = none
approved_record approved (some r) = some (approve approved r)

module _ (sha256 : Bytes → Bytes) where
  -- What a call means for the one record: a call that fails means nothing.
  unfoldable pub abstract_call : Call → Option PeerRecord → Option PeerRecord
  abstract_call (configure_with none r) p = some (with_stored_key sha256 r)
  abstract_call (clear_with none) p = none
  abstract_call (approve_with none approved) p = approved_record approved p
  abstract_call (virtual_ip_with none ip) p =
      some (record (unwrap_or p unconfigured) { virtual_ip = ip })
  abstract_call (consume_with how id) p = p
  abstract_call (configure_with (some e) r) p = p
  abstract_call (clear_with (some e)) p = p
  abstract_call (approve_with (some e) approved) p = p
  abstract_call (virtual_ip_with (some e) ip) p = p

  -- The calls, made in this order.
  unfoldable pub abstract_calls : List Call → Option PeerRecord → Option PeerRecord
  abstract_calls [] p = p
  abstract_calls (c ∷ cs) p = abstract_calls cs (abstract_call c p)

  unfoldable pub calls : List Call → PeerStore → PeerStore
  calls [] s = s
  calls (c ∷ cs) s = calls cs (call sha256 c s)

  clear-Holds :
      (fault : Option IoError) (p : Option PeerRecord) (s : PeerStore)
      → Holds s p
      → Holds (removed fault (body_of p) s).1 (abstract_call (clear_with fault) p)
  unfolding abstract_call
  clear-Holds none none s h = (refl, h.1)
  clear-Holds none (some r) s h = (refl, refl)
  clear-Holds (some e) none s h = (refl, h.1)
  clear-Holds (some e) (some r) s h = h

  approve-Holds :
      (fault : Option IoError) (approved : Bool) (p : Option PeerRecord) (s : PeerStore)
      → Holds s p
      → Holds (approve_record approved fault p s).1 (abstract_call (approve_with fault approved) p)
  unfolding abstract_call write_record
  approve-Holds none approved none s h = h
  approve-Holds none approved (some r) s h = (refl, refl)
  approve-Holds (some e) approved none s h = h
  approve-Holds (some e) approved (some r) s h = h

  marked-Holds :
      (how : Marked) (id : Bytes) (p : Option PeerRecord) (s : PeerStore)
      → Holds s p
      → Holds (marked how id s).1 p
  marked-Holds Marked.done id p s h = h
  marked-Holds Marked.failed_before id p s h = h
  marked-Holds Marked.failed_behind id p s h = h

  consumed_if-Holds :
      (b : Bool) (how : Marked) (id : Bytes) (p : Option PeerRecord) (s : PeerStore)
      → Holds s p
      → Holds (if b then (ok false, s) else marked how id s).1 p
  consumed_if-Holds true how id p s h = h
  consumed_if-Holds false how id p s h = marked-Holds how id p s h

  call-Holds :
      (c : Call) (p : Option PeerRecord) (s : PeerStore)
      → Holds s p
      → Holds (call sha256 c s) (abstract_call c p)
  unfolding call configure clear consume_invitation_id set_approval set_virtual_ip write_record
      abstract_call
  call-Holds (configure_with none r) p s h = (refl, refl)
  call-Holds (configure_with (some e) r) p s h = h
  call-Holds (clear_with fault) p s h =
      subst (λ f. Holds (removed fault f s).1 (abstract_call (clear_with fault) p)) (sym h.1)
        (clear-Holds fault p s h)
  call-Holds (consume_with how id) p s h = consumed_if-Holds (mem id s.consumed) how id p s h
  call-Holds (approve_with fault approved) p s h =
      subst
        (λ q.
          Holds (approve_record approved fault q s).1
            (abstract_call (approve_with fault approved) p))
        (sym h.0) (approve-Holds fault approved p s h)
  call-Holds (virtual_ip_with none ip) p s h =
      let set_in : Option PeerRecord → PeerRecord =
        λ q. record (unwrap_or q unconfigured) { virtual_ip = ip } in
      (ap (λ q. some (set_in q)) h.0, ap (λ q. some (record_body (set_in q))) h.0)
  call-Holds (virtual_ip_with (some e) ip) p s h = h

  calls-Holds :
      (cs : List Call) (p : Option PeerRecord) (s : PeerStore)
      → Holds s p
      → Holds (calls cs s) (abstract_calls cs p)
  unfolding calls abstract_calls
  calls-Holds [] p s h = h
  calls-Holds (c ∷ cs) p s h =
      calls-Holds cs (abstract_call c p) (call sha256 c s) (call-Holds c p s h)

  -- Opening the file of a store, which may not be there.
  unfoldable pub reopened :
      Metadata → ℕ → Option Bytes → PeerStore → Result IoError (Unit {0}) × PeerStore
  reopened m effective_uid none t =
      open_store sha256 (err not_found) (err not_found) effective_uid none t
  reopened m effective_uid (some body) t = open_store sha256 (ok m) (ok body) effective_uid none t

  abbrev pub IsStorableStore : Option PeerRecord → Type 0
  IsStorableStore none = Unit
  IsStorableStore (some r) = IsStorableRecord r

  reopened-body_of :
      (m : Metadata) (effective_uid : ℕ) (p : Option PeerRecord) (t : PeerStore)
      → validate_file effective_uid m ≡ ok tt
      → IsStorableStore p
      → reopened m effective_uid (body_of p) t ≡ (ok tt, record t { peer_record = p })
  unfolding reopened open_store
  reopened-body_of m effective_uid none t suits storable = refl
  reopened-body_of m effective_uid (some r) t suits storable =
      let read : checked_record sha256 m (ok (record_body r)) effective_uid ≡ ok (r, false) =
        rw (suits, read_record-record_body sha256 r storable) in
      ap (λ x. adopted sha256 none x t) read

  -- Over any row of calls, whatever fails, a store whose file holds its record behaves like the abstract one,
  -- in which a failed call does nothing: its record is the abstract one, and opening its file again gives the
  -- abstract one too, if that can be stored, to a user whom the metadata of the file suit.
  pub calls-refines :
      (cs : List Call) (s t : PeerStore) (effective_uid : ℕ) (m : Metadata)
      → IsSynced s
      → validate_file effective_uid m ≡ ok tt
      → IsStorableStore (abstract_calls cs s.peer_record)
      → ((calls cs s).peer_record ≡ abstract_calls cs s.peer_record)
        × (reopened m effective_uid (calls cs s).file t
            ≡ (ok tt, record t { peer_record = abstract_calls cs s.peer_record }))
  calls-refines cs s t effective_uid m synced suits storable =
      let held = calls-Holds cs s.peer_record s (refl, synced) in
      (
        held.0,
        ap (λ f. reopened m effective_uid f t) held.1
            ∙ reopened-body_of m effective_uid (abstract_calls cs s.peer_record) t suits storable,
      )
