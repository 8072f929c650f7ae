-- ===== src/Agent/Pairing/Again.antt =====
-- `set_peer_config` of src/lib.rs applied to the same body again, as a desktop profile does at each start.
use localscale.Prelude.{
  ◌≡◌, refl, ap, ◌∙◌, true, Option, none, some, Bytes, codes, bytes_eq_self, strip_prefix-append,
  List, [], ◌∷◌, Bool, if_split, if_true,
}
use localscale.Prelude.Table.{Table}
use localscale.Codec.Hex.{hex}
use localscale.Transport.Action.{IoError}
use localscale.Transport.StoredKey.{stored_transport_key_from_invitation_secret}
use localscale.Agent.Handlers.{get_or_empty, on_approval, set_peer_approval}
use localscale.Agent.Json.{parse_json_fields}
use localscale.Agent.Pairing.{
  set_peer_config, on_config_fields, on_chosen, on_config_record, config_record, chosen_config,
  Chosen, is_same,
}
use localscale.Agent.Peers.{
  PeerRecord, PeerStore, configure, write_record, set_approval, with_stored_key, same_option,
  same_peer_configuration,
}
use localscale.Agent.State.{AgentState, Environment, Libraries}

same_option_self : (o : Option Bytes) → same_option o o ≡ true
same_option_self none = refl
same_option_self (some v) = bytes_eq_self v

same_peer_configuration_self : (r : PeerRecord) → same_peer_configuration r r ≡ true
unfolding same_peer_configuration
same_peer_configuration_self r = rw (
  bytes_eq_self r.role,
  bytes_eq_self r.node_id,
  same_option_self r.host_node_id,
  bytes_eq_self r.endpoint,
  bytes_eq_self r.invitation_secret,
  same_option_self r.virtual_ip,
)

module _ (libraries : Libraries) (env : Environment) where
  -- The key that a configuration stores has the stored form already.
  with_stored_key-config_record :
      (fields : Table Bytes) (chosen : Chosen)
      → with_stored_key libraries.sha256 (config_record libraries env fields chosen)
        ≡ config_record libraries env fields chosen
  unfolding stored_transport_key_from_invitation_secret
  with_stored_key-config_record fields chosen = rw (
      strip_prefix-append (codes "key-v1-")
        (hex (libraries.sha256 (get_or_empty (codes "invitation_secret") fields))))

-- What a record does to the state, for the fault that a write meets.
abbrev under : Environment → Option IoError → Environment
under env fault = record env { write_fault = fault }

module _ (libraries : Libraries) (env : Environment) (r : PeerRecord)
    (stored : with_stored_key libraries.sha256 r ≡ r) where
  abbrev apply : Option IoError → AgentState → AgentState
  apply fault s = (on_config_record libraries (under env fault) r s.peer_store s).1

  same_stored : is_same libraries env (some (with_stored_key libraries.sha256 r)) r ≡ true
  same_stored = ap (λ k. same_peer_configuration k r) stored ∙ same_peer_configuration_self r

  -- A state whose store has this record, or cannot be written, stays.
  apply_same :
      (fault : Option IoError) (store : PeerStore) (s : AgentState)
      → is_same libraries env store.peer_record r ≡ true
      → apply fault (record s { peer_store = some store }) ≡ record s { peer_store = some store }
  apply_same fault store s same = ap (λ (x : Bytes × AgentState). x.1) (if_true _ _ _ same)

  apply_failing :
      (e : IoError) (store : PeerStore) (s : AgentState)
      → apply (some e) (record s { peer_store = some store }) ≡ record s { peer_store = some store }
  unfolding configure write_record
  apply_failing e store s =
      if_split (λ t. t ≡ record s { peer_store = some store }) _ _ _ (λ f. refl) (λ f. refl)

  -- A store that a repetition of the record leaves as it is: none, one that cannot be written, or one that has
  -- the record.
  abbrev IsSettled : Option IoError → Option PeerStore → Type 0
  IsSettled (some e) store = Unit
  IsSettled none none = Unit
  IsSettled none (some store) = is_same libraries env store.peer_record r ≡ true

  settled_same :
      (fault : Option IoError) (store : Option PeerStore) (s : AgentState)
      → IsSettled fault store
      → apply fault (record s { peer_store = store }) ≡ record s { peer_store = store }
  settled_same fault none s h = refl
  settled_same (some e) (some store) s h = apply_failing e store s
  settled_same none (some store) s h = apply_same none store s h

  apply-IsSettled :
      (fault : Option IoError) (store : Option PeerStore) (s : AgentState)
      → IsSettled fault (apply fault (record s { peer_store = store })).peer_store
  unfolding configure write_record
  apply-IsSettled (some e) store s = tt
  apply-IsSettled none none s = tt
  apply-IsSettled none (some store) s =
      if_split (λ (t : AgentState). IsSettled none t.peer_store)
        (is_same libraries env store.peer_record r) _ _ (λ same. same) (λ other. same_stored)

  -- Approving or revoking the peer keeps what a repetition compares.
  approved-IsSettled :
      (approved : Bool) (stored_record : Option PeerRecord) (store : PeerStore) (s : AgentState)
      → is_same libraries env stored_record r ≡ true
      → IsSettled none
          (on_approval
            (under env none)
            approved
            (some (record store { peer_record = stored_record }))
            s).1.peer_store
  unfolding set_approval write_record same_peer_configuration
  approved-IsSettled approved none store s h = h
  approved-IsSettled approved (some existing) store s h = h

  on_approval-IsSettled :
      (approved : Bool) (fault : Option IoError) (store : Option PeerStore) (s : AgentState)
      → IsSettled fault store
      → IsSettled fault
          (on_approval
            (under env fault)
            approved
            store
            (record s { peer_store = store })).1.peer_store
  on_approval-IsSettled approved (some e) store s h = tt
  on_approval-IsSettled approved none none s h = tt
  on_approval-IsSettled approved none (some store) s h =
      approved-IsSettled approved store.peer_record store (record s { peer_store = some store }) h

-- The requests that approve or revoke the peer, one behind the other.
pub approve_all : Environment → List Bool → AgentState → AgentState
approve_all env [] s = s
approve_all env (approved ∷ more) s = approve_all env more (set_peer_approval env approved s).1

module _ (libraries : Libraries) (env : Environment) where
  approvals_settled :
      (r : PeerRecord) (stored : with_stored_key libraries.sha256 r ≡ r) (approvals : List Bool)
      (s : AgentState)
      → IsSettled libraries env r stored env.write_fault s.peer_store
      → apply libraries env r stored env.write_fault (approve_all env approvals s)
        ≡ approve_all env approvals s
  unfolding approve_all set_peer_approval
  approvals_settled r stored [] s h =
      settled_same libraries env r stored env.write_fault s.peer_store s h
  approvals_settled r stored (approved ∷ approvals) s h =
      approvals_settled r stored approvals (set_peer_approval env approved s).1
        (on_approval-IsSettled libraries env r stored approved env.write_fault s.peer_store s h)

  chosen_again :
      (fields : Table Bytes) (chosen : Option Chosen) (approvals : List Bool) (s : AgentState)
      → (on_chosen libraries env fields chosen
          (approve_all env approvals (on_chosen libraries env fields chosen s).1)).1
        ≡ approve_all env approvals (on_chosen libraries env fields chosen s).1
  chosen_again fields none approvals s = refl
  chosen_again fields (some chosen) approvals s =
      let r = config_record libraries env fields chosen in
      let stored = with_stored_key-config_record libraries env fields chosen in
      approvals_settled r stored approvals _
        (apply-IsSettled libraries env r stored env.write_fault s.peer_store s)

  fields_again :
      (fields : Option (Table Bytes)) (approvals : List Bool) (s : AgentState)
      → (on_config_fields libraries env fields
          (approve_all env approvals (on_config_fields libraries env fields s).1)).1
        ≡ approve_all env approvals (on_config_fields libraries env fields s).1
  fields_again none approvals s = refl
  fields_again (some fields) approvals s =
      chosen_again fields (chosen_config libraries env fields) approvals s

  -- Applying a configuration again, in the same environment, after any row of approvals and revocations of the
  -- peer, which may be empty, changes nothing: an approval given since is retained, with the stored record, the
  -- gate and the status. This holds whether the first application stored the configuration, found it there or
  -- failed.
  pub set_peer_config-again :
      (body : Bytes) (approvals : List Bool) (s : AgentState)
      → (set_peer_config libraries env body
          (approve_all env approvals (set_peer_config libraries env body s).1)).1
        ≡ approve_all env approvals (set_peer_config libraries env body s).1
  unfolding set_peer_config
  set_peer_config-again body approvals s = fields_again (parse_json_fields body) approvals s
