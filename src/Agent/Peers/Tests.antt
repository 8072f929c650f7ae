-- ===== src/Agent/Peers/Tests.antt =====
-- A peer whose key is in its stored form.
use localscale.Prelude.{
  strip_prefix, ◌∷◌, ◌≤◌, bytes_eq, List, ◌≡◌, refl, true, false, none, some, [], arith, Bytes,
  codes, ok,
}
use localscale.Protocol.Crypto.{mem}
use localscale.Agent.Peers.{
  PeerRecord, PeerStore, configure, open_store, with_stored_key, record_body, Marked, clear,
  consume_invitation_id, write_record,
}
use localscale.Agent.Peers.Persistence.{IsStorableRecord, open_store-configure}
use localscale.Agent.Peers.Consumption.{
  Call, configure_with, approve_with, consume_with, clear_with, call, count_grants, count_grants-le,
}
use localscale.Agent.Peers.Refinement.{
  abstract_call, abstract_calls, calls, reopened, IsStorableStore, calls-refines,
}
use localscale.Agent.Role.{Metadata, validate_file}

abbrev identity : Bytes → Bytes
identity s = s

abbrev peer : PeerRecord
peer = record {
  role = codes "cliente";
  node_id = codes "laptop";
  host_node_id = some (codes "desk");
  endpoint = codes "abc.onion";
  invitation_secret = codes "key-v1-00";
  virtual_ip = none;
  approved = false;
  revoked = false;
}

abbrev empty_store : PeerStore
empty_store = record { peer_record = none; file = none; consumed = [] }

peer-IsStorableRecord : IsStorableRecord (with_stored_key identity peer)
unfolding strip_prefix
peer-IsStorableRecord = record {
  role = (ground arith, omega arith);
  node_id = (ground arith, omega arith);
  host_node_id = (ground arith, omega arith);
  endpoint = (ground arith, omega arith);
  invitation_secret = (ground arith, omega arith);
  virtual_ip = tt;
}

abbrev metadata : Metadata
metadata = record { is_file = true; uid = 1000; mode = 384 }

suitable : validate_file 1000 metadata ≡ ok tt
unfolding validate_file
suitable = refl

written :
    (configure identity none peer empty_store).1.file
    ≡ some (record_body (with_stored_key identity peer))
unfolding configure write_record
written = refl

open_store-configure_example :
    ((configure identity none peer empty_store).0 ≡ ok tt)
    × ((configure identity none peer empty_store).1.peer_record
        ≡ some (with_stored_key identity peer))
    × (open_store identity
          (ok metadata)
          (ok (record_body (with_stored_key identity peer)))
          1000
          none
          empty_store
        ≡ (ok tt, record empty_store { peer_record = some (with_stored_key identity peer) }))
open_store-configure_example =
    open_store-configure identity peer empty_store empty_store
      (record_body (with_stored_key identity peer)) 1000 metadata none peer-IsStorableRecord
      suitable written

-- The same invitation three times, once without its marker, and the store cleared between the last two.
abbrev attempts : List Call
attempts =
    consume_with Marked.failed_before (codes "id")
    ∷ consume_with Marked.done (codes "id")
    ∷ clear_with none
    ∷ consume_with Marked.done (codes "id")
    ∷ []

count_grants-le_example :
    (count_grants identity (codes "id") attempts empty_store ≤ 1)
    × (mem (codes "id") empty_store.consumed ≡ true
        → count_grants identity (codes "id") attempts empty_store ≡ 0)
count_grants-le_example = count_grants-le identity (codes "id") attempts empty_store

-- The second of these calls is the one that grants it.
granted_once : count_grants identity (codes "id") attempts empty_store ≡ 1
unfolding count_grants call clear consume_invitation_id bytes_eq
granted_once = refl

-- A peer that is stored and approved, while marking an invitation fails.
abbrev pairing : List Call
pairing =
    configure_with none peer
    ∷ consume_with Marked.failed_before (codes "id")
    ∷ approve_with none true
    ∷ []

abbrev paired : PeerRecord
paired = record (with_stored_key identity peer) { approved = true; revoked = false }

paired-IsStorableStore : IsStorableStore identity (abstract_calls identity pairing none)
unfolding abstract_calls abstract_call strip_prefix
paired-IsStorableStore = record {
  role = (ground arith, omega arith);
  node_id = (ground arith, omega arith);
  host_node_id = (ground arith, omega arith);
  endpoint = (ground arith, omega arith);
  invitation_secret = (ground arith, omega arith);
  virtual_ip = tt;
}

calls-refines_example :
    ((calls identity pairing empty_store).peer_record ≡ abstract_calls identity pairing none)
    × (reopened identity metadata 1000 (calls identity pairing empty_store).file empty_store
        ≡ (ok tt, record empty_store { peer_record = abstract_calls identity pairing none }))
calls-refines_example =
    calls-refines identity pairing empty_store empty_store 1000 metadata refl suitable
      paired-IsStorableStore

-- It is the approved peer that is stored.
paired_stored : abstract_calls identity pairing none ≡ some paired
unfolding abstract_calls abstract_call
paired_stored = refl
