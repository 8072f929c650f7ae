-- ===== src/Agent/Peers/Persistence.antt =====
-- A record survives being written and read.
use localscale.Prelude.{
  ℕ, ◌≡◌, ◌≢◌, refl, ap, ◌∙◌, Bool, true, false, Option, none, some, List, [], ◌∷◌, ◌++◌,
  append_assoc, arith, Bytes, codes, bytes_eq, All, ok,
}
use localscale.Prelude.Options.{unwrap_or, is_some}
use localscale.Prelude.Table.{Table, lookup, insert, without}
use localscale.Codec.Fields.{join}
use localscale.Protocol.Syntax.{is_empty}
use localscale.Transport.Action.{IoError}
use localscale.Agent.Json.{bool_text, parse_json_fields}
use localscale.Agent.Json.Records.{
  IsPlain, Field, text, flag, items, insert_all, parse_json_fields-items, IsPlainField,
  named-IsPlainField,
}
use localscale.Agent.Role.{Metadata, validate_file}
use localscale.Agent.Peers.{
  PeerRecord, PeerStore, record_body, record_of, read_record, non_empty, write_record, open_store,
  configure, with_stored_key, adopted, checked_record,
}

-- A text that the file format can hold.
abbrev pub IsStorable : Bytes → Type 0
IsStorable v = (v ≢ []) × All IsPlain v

abbrev pub IsStorableOption : Option Bytes → Type 0
IsStorableOption none = Unit
IsStorableOption (some v) = IsStorable v

pub record IsStorableRecord (r : PeerRecord) : Type 0 where
  pub role : IsStorable r.role
  pub node_id : IsStorable r.node_id
  pub host_node_id : IsStorableOption r.host_node_id
  pub endpoint : IsStorable r.endpoint
  pub invitation_secret : IsStorable r.invitation_secret
  pub virtual_ip : IsStorableOption r.virtual_ip

abbrev more_fields : PeerRecord → List Field
more_fields r =
    (codes "node_id", text r.node_id)
    ∷ (codes "host_node_id", text (unwrap_or r.host_node_id []))
    ∷ (codes "endpoint", text r.endpoint)
    ∷ (codes "transport_key", text r.invitation_secret)
    ∷ (codes "virtual_ip", text (unwrap_or r.virtual_ip []))
    ∷ (codes "approved", flag r.approved)
    ∷ (codes "revoked", flag r.revoked)
    ∷ []

abbrev field : PeerRecord → List Field
field r = (codes "role", text r.role) ∷ more_fields r

record_body-join :
    (r : PeerRecord) → record_body r ≡ codes "{" ++ (join b',' (items (field r)) ++ codes "}")
unfolding record_body
record_body-join r = simp append_assoc

unwrap-IsPlain : (o : Option Bytes) → IsStorableOption o → All IsPlain (unwrap_or o [])
unwrap-IsPlain none h = tt
unwrap-IsPlain (some v) h = h.1

storable_fields : (r : PeerRecord) → IsStorableRecord r → All IsPlainField (field r)
storable_fields r h = (
  named-IsPlainField (codes "role", text r.role) refl h.role.1,
  (
    named-IsPlainField (codes "node_id", text r.node_id) refl h.node_id.1,
    (
      named-IsPlainField (codes "host_node_id", text (unwrap_or r.host_node_id [])) refl
          (unwrap-IsPlain r.host_node_id h.host_node_id),
      (
        named-IsPlainField (codes "endpoint", text r.endpoint) refl h.endpoint.1,
        (
          named-IsPlainField (codes "transport_key", text r.invitation_secret) refl
              h.invitation_secret.1,
          (
            named-IsPlainField (codes "virtual_ip", text (unwrap_or r.virtual_ip [])) refl
                (unwrap-IsPlain r.virtual_ip h.virtual_ip),
            (
              named-IsPlainField (codes "approved", flag r.approved) refl tt,
              (named-IsPlainField (codes "revoked", flag r.revoked) refl tt, tt),
            ),
          ),
        ),
      ),
    ),
  ),
)

-- The map of the fields that `record_body` writes.
abbrev fields_of : PeerRecord → Table Bytes
fields_of r = insert_all (field r) []

parse-record_body :
    (r : PeerRecord) → IsStorableRecord r → parse_json_fields (record_body r) ≡ some (fields_of r)
parse-record_body r h =
    ap parse_json_fields (record_body-join r)
    ∙ parse_json_fields-items (codes "role", text r.role) (more_fields r) (storable_fields r h)

filled : (v : Bytes) → v ≢ [] → is_empty v ≡ false
filled [] h = absurd (h refl)
filled (c ∷ v) h = refl

option_back : (o : Option Bytes) → IsStorableOption o → non_empty (some (unwrap_or o [])) ≡ o
option_back none h = refl
option_back (some []) h = absurd (h.0 refl)
option_back (some (c ∷ v)) h = refl

flag_back : (b : Bool) → bytes_eq (bool_text b) (codes "true") ≡ b
unfolding bytes_eq
flag_back true = refl
flag_back false = refl

module _ (sha256 : Bytes → Bytes) where
  record_of-fields : (r : PeerRecord) → IsStorableRecord r → record_of sha256 (fields_of r) ≡ r
  unfolding record_of lookup insert without bytes_eq
  record_of-fields r h = rw (
    option_back r.host_node_id h.host_node_id,
    option_back r.virtual_ip h.virtual_ip,
    flag_back r.approved,
    flag_back r.revoked,
  )

  no_legacy : (r : PeerRecord) → is_some (lookup (codes "invitation_secret") (fields_of r)) ≡ false
  unfolding lookup insert without bytes_eq
  no_legacy r = refl

  -- A record whose texts `json_string` leaves alone and that have no comma is read back from its file,
  -- if the texts that a record must have are not empty.
  pub read_record-record_body :
      (r : PeerRecord) → IsStorableRecord r → read_record sha256 (record_body r) ≡ ok (r, false)
  unfolding read_record
  read_record-record_body r h = rw (
    parse-record_body r h,
    record_of-fields r h,
    filled r.role h.role.0,
    filled r.node_id h.node_id.0,
    filled r.endpoint h.endpoint.0,
    filled r.invitation_secret h.invitation_secret.0,
    no_legacy r,
  )

  -- A record that can be stored and that `configure` has written is the record of the store, and opening the
  -- file again gives it back, to a user whom the metadata of the file suit.
  pub open_store-configure :
      (r : PeerRecord) (s t : PeerStore) (body : Bytes) (effective_uid : ℕ) (m : Metadata)
      (fault : Option IoError)
      → IsStorableRecord (with_stored_key sha256 r)
      → validate_file effective_uid m ≡ ok tt
      → (configure sha256 none r s).1.file ≡ some body
      → ((configure sha256 none r s).0 ≡ ok tt)
        × ((configure sha256 none r s).1.peer_record ≡ some (with_stored_key sha256 r))
        × (open_store sha256 (ok m) (ok body) effective_uid fault t
            ≡ (ok tt, record t { peer_record = some (with_stored_key sha256 r) }))
  unfolding configure write_record open_store
  open_store-configure r s t body effective_uid m fault storable suits written =
      let same : record_body (with_stored_key sha256 r) ≡ body = ground arith in
      let read : checked_record sha256 m (ok body) effective_uid
          ≡ ok (with_stored_key sha256 r, false) =
        rw (suits, ← same, read_record-record_body (with_stored_key sha256 r) storable) in
      (refl, refl, ap (λ x. adopted sha256 fault x t) read)
