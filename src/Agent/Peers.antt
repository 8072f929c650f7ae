-- ===== src/Agent/Peers.antt =====
-- `PeerRecord` and `PeerStore` of src/lib.rs: the one record of the peer that this agent is paired with.
-- What the system does is an argument: what reading returns, the metadata of the file, and the first
-- error of the calls that write, all of them before the rename. SHA-256 is a parameter.
pub mod Persistence
pub mod Consumption
pub mod Refinement
pub mod Tests
use localscale.Prelude.{
  ℕ, ◌≡◌, Bool, true, false, not, ◌&&◌, ◌||◌, Option, none, some, List, [], ◌∷◌, ◌++◌, Bytes, codes,
  bytes_eq, if◌then◌else◌, strip_prefix, Result, ok, err, ◌>>=◌, ◌>>◌, ok_or, ensure,
}
use localscale.Prelude.Options.{unwrap_or, is_some, or_else, retained}
use localscale.Prelude.Table.{Table, lookup}
use localscale.Protocol.Syntax.{is_empty}
use localscale.Transport.Action.{IoError, not_found}
use localscale.Transport.StoredKey.{stored_transport_key_from_invitation_secret}
use localscale.Protocol.Crypto.{mem}
use localscale.Agent.Json.{json_string, bool_text, parse_json_fields}
use localscale.Agent.Role.{Metadata, validate_file}

pub record PeerRecord : Type 0 where
  pub role : Bytes
  pub node_id : Bytes
  pub host_node_id : Option Bytes
  pub endpoint : Bytes
  pub invitation_secret : Bytes
  pub virtual_ip : Option Bytes
  pub approved : Bool
  pub revoked : Bool

-- The store with its file, and with the ids of the marker files beside it.
pub record PeerStore : Type 0 where
  pub peer_record : Option PeerRecord
  pub file : Option Bytes
  pub consumed : List Bytes

-- The text that `write_record` writes.
unfoldable pub record_body : PeerRecord → Bytes
record_body r =
    codes "{\"role\":"
    ++ (json_string r.role
        ++ (codes ",\"node_id\":"
            ++ (json_string r.node_id
                ++ (codes ",\"host_node_id\":"
                    ++ (json_string (unwrap_or r.host_node_id [])
                        ++ (codes ",\"endpoint\":"
                            ++ (json_string r.endpoint
                                ++ (codes ",\"transport_key\":"
                                    ++ (json_string r.invitation_secret
                                        ++ (codes ",\"virtual_ip\":"
                                            ++ (json_string (unwrap_or r.virtual_ip [])
                                                ++ (codes ",\"approved\":"
                                                    ++ (bool_text r.approved
                                                        ++ (codes ",\"revoked\":"
                                                            ++ (bool_text r.revoked
                                                            ++ codes "}")))))))))))))))

abbrev written : Option IoError → Bytes → PeerStore → Result IoError (Unit {0}) × PeerStore
written none body s = (ok tt, record s { file = some body })
written (some e) body s = (err e, s)

unfoldable pub write_record :
    Option IoError → PeerRecord → PeerStore → Result IoError (Unit {0}) × PeerStore
write_record fault r s = written fault (record_body r) s

-- Writing a record, and keeping it if that succeeded.
abbrev kept :
    PeerRecord → Result IoError (Unit {0}) × PeerStore → Result IoError (Unit {0}) × PeerStore
kept r (ok u, s) = (ok tt, record s { peer_record = some r })
kept r (err e, s) = (err e, s)

abbrev pub non_empty : Option Bytes → Option Bytes
non_empty = retained (λ v. not (is_empty v))

abbrev is_true : Option Bytes → Bool → Bool
is_true none default_ = default_
is_true (some v) default_ = bytes_eq v (codes "true")

abbrev pub starts_with_key : Bytes → Bool
starts_with_key s = is_some (strip_prefix (codes "key-v1-") s)

module _ (sha256 : Bytes → Bytes) where
  -- The key of a legacy file is derived from its secret.
  abbrev stored_key : Table Bytes → Option Bytes
  stored_key fields =
      or_else (lookup (codes "transport_key") fields)
        (elim (lookup (codes "invitation_secret") fields) [
          | none ↦ none
          | some secret ↦ some (stored_transport_key_from_invitation_secret sha256 secret)
        ])

  unfoldable pub record_of : Table Bytes → PeerRecord
  record_of fields = record {
    role = unwrap_or (lookup (codes "role") fields) [];
    node_id = unwrap_or (lookup (codes "node_id") fields) [];
    host_node_id = non_empty (lookup (codes "host_node_id") fields);
    endpoint = unwrap_or (lookup (codes "endpoint") fields) [];
    invitation_secret = unwrap_or (stored_key fields) [];
    virtual_ip = non_empty (lookup (codes "virtual_ip") fields);
    approved = is_true (lookup (codes "approved") fields) false;
    revoked = is_true (lookup (codes "revoked") fields) true;
  }

  abbrev is_incomplete : PeerRecord → Bool
  is_incomplete r =
      is_empty r.role || is_empty r.node_id || is_empty r.endpoint || is_empty r.invitation_secret

  -- `read_record` on the text of the file, and whether the file has a legacy secret.
  unfoldable pub read_record : Bytes → Result IoError (PeerRecord × Bool)
  read_record body = do
    fields ← ok_or (parse_json_fields body) IoError.other
    ensure (not (is_incomplete (record_of fields))) IoError.other
    ok (record_of fields, is_some (lookup (codes "invitation_secret") fields))

  abbrev rewritten :
      Option IoError → PeerRecord × Bool → PeerStore → Result IoError (Unit {0}) × PeerStore
  rewritten fault (r, true) s = kept r (write_record fault r s)
  rewritten fault (r, false) s = (ok tt, record s { peer_record = some r })

  abbrev adopted :
      Option IoError
      → Result IoError (PeerRecord × Bool)
      → PeerStore
      → Result IoError (Unit {0}) × PeerStore
  adopted fault (ok r) s = rewritten fault r s
  adopted fault (err e) s = (err e, s)

  abbrev checked_record : Metadata → Result IoError Bytes → ℕ → Result IoError (PeerRecord × Bool)
  checked_record m body uid = do validate_file uid m; text ← body; read_record text

  -- `open`, from the metadata of the file and from what reading it returns.
  unfoldable pub open_store :
      Result IoError Metadata
      → Result IoError Bytes
      → ℕ
      → Option IoError
      → PeerStore
      → Result IoError (Unit {0}) × PeerStore
  open_store (ok m) body uid fault s = adopted fault (checked_record m body uid) s
  open_store (err not_found) body uid fault s = (ok tt, record s { peer_record = none })
  open_store (err e) body uid fault s = (err e, s)

  -- The record that `configure` stores.
  abbrev pub with_stored_key : PeerRecord → PeerRecord
  with_stored_key r = if starts_with_key r.invitation_secret then r else record r {
    invitation_secret = stored_transport_key_from_invitation_secret sha256 r.invitation_secret;
  }

  unfoldable pub configure :
      Option IoError → PeerRecord → PeerStore → Result IoError (Unit {0}) × PeerStore
  configure fault r s = kept (with_stored_key r) (write_record fault (with_stored_key r) s)

-- `clear`, with the error of removing a file that is there.
abbrev removed : Option IoError → Option Bytes → PeerStore → Result IoError (Unit {0}) × PeerStore
removed fault none s = (ok tt, record s { peer_record = none })
removed none (some body) s = (ok tt, record s { peer_record = none; file = none })
removed (some e) (some body) s = (err e, s)

unfoldable pub clear : Option IoError → PeerStore → Result IoError (Unit {0}) × PeerStore
clear fault s = removed fault s.file s

-- How far creating a marker file comes: `failed_behind` leaves the marker there.
pub data Marked : Type 0 where
  done failed_before failed_behind : Marked

abbrev marked : Marked → Bytes → PeerStore → Result IoError Bool × PeerStore
marked done id s = (ok true, record s { consumed = id ∷ s.consumed })
marked failed_before id s = (err IoError.other, s)
marked failed_behind id s = (err IoError.other, record s { consumed = id ∷ s.consumed })

-- `consume_invitation_id`; a marker that is there makes `create_new` fail.
unfoldable pub consume_invitation_id : Marked → Bytes → PeerStore → Result IoError Bool × PeerStore
consume_invitation_id how id s = if mem id s.consumed then (ok false, s) else marked how id s

abbrev approve_record :
    Bool → Option IoError → Option PeerRecord → PeerStore → Result IoError (Unit {0}) × PeerStore
approve_record approved fault none s = (err not_found, s)
approve_record approved fault (some r) s =
    let r' : PeerRecord = record r { approved = approved; revoked = not approved } in
    kept r' (write_record fault r' s)

unfoldable pub set_approval :
    Option IoError → Bool → PeerStore → Result IoError (Unit {0}) × PeerStore
set_approval fault approved s = approve_record approved fault s.peer_record s

-- The record of a store that has none yet.
abbrev pub unconfigured : PeerRecord
unconfigured = record {
  role = codes "cliente";
  node_id = codes "local-node";
  host_node_id = none;
  endpoint = codes "pending.onion";
  invitation_secret = codes "unconfigured";
  virtual_ip = none;
  approved = false;
  revoked = false;
}

unfoldable pub set_virtual_ip :
    Option IoError → Option Bytes → PeerStore → Result IoError (Unit {0}) × PeerStore
set_virtual_ip fault ip s =
    let r : PeerRecord = record (unwrap_or s.peer_record unconfigured) { virtual_ip = ip } in
    kept r (write_record fault r s)

-- `==` of two options.
abbrev pub same_option : Option Bytes → Option Bytes → Bool
same_option none none = true
same_option none (some v) = false
same_option (some u) none = false
same_option (some u) (some v) = bytes_eq u v

unfoldable pub same_peer_configuration : PeerRecord → PeerRecord → Bool
same_peer_configuration a b =
    bytes_eq a.role b.role
    && bytes_eq a.node_id b.node_id
    && same_option a.host_node_id b.host_node_id
    && bytes_eq a.endpoint b.endpoint
    && bytes_eq a.invitation_secret b.invitation_secret
    && same_option a.virtual_ip b.virtual_ip
