-- ===== src/Agent/Gate/Invitations.antt =====
-- The handlers of the invitations in src/lib.rs keep the gate.
use localscale.Prelude.{
  Bool, true, false, not, ◌++◌, codes, Option, none, some, Bytes, Result, ok, err,
}
use localscale.Prelude.Options.{unwrap_or, retained}
use localscale.Transport.Action.{IoError}
use localscale.Transport.StoredKey.{stored_transport_key_from_invitation_secret}
use localscale.Agent.Gate.{IsClosed}
use localscale.Agent.Gate.Pairing.{mark_peer_changed-IsClosed}
use localscale.Agent.Handlers.{is_blank}
use localscale.Agent.HostRegistry.{HostPeerRegistry, add_pending, remove, next_free_virtual_ip}
use localscale.Agent.Invitations
use localscale.Agent.Invitations.{
  Granted, generate_invitation, import_invitation, remove_host_peer, granted, admitted,
  imported_record, host_network_prefix,
}
use localscale.Agent.Pairing.{mark_peer_changed}
use localscale.Agent.Peers.{PeerRecord, PeerStore, consume_invitation_id}
use localscale.Agent.State.{
  AgentState, Environment, Libraries, GenerateInvitationRequest, ImportInvitationRequest,
  InvitationEnvelope,
}
use localscale.Agent.VirtualIp.{LocalVirtualIpStore, set_value}

module _ (libraries : Libraries) (env : Environment) where
  after_address :
      (ip : Bytes) (x : Result IoError (Unit {0}) × LocalVirtualIpStore) (s : AgentState)
      → IsClosed s
      → IsClosed (Invitations.address_set libraries env ip x s)
  after_address ip (err e, store) s h = h
  after_address ip (ok u, store) s h = h

  chosen_address :
      (asked : Option Bytes) (prefix : Bytes) (value : Option Bytes) (store : LocalVirtualIpStore)
      (s : AgentState)
      → IsClosed s
      → IsClosed (Invitations.address_in libraries env asked prefix value store s)
  chosen_address asked prefix (some v) store s h = h
  chosen_address asked prefix none store s h =
      let ip = unwrap_or (retained (λ v. not (is_blank v)) asked) (prefix ++ codes ".1") in
      after_address ip (set_value env.address_fault ip store) s h

  own_address-IsClosed :
      (asked : Option Bytes) (prefix : Bytes) (store : Option LocalVirtualIpStore) (s : AgentState)
      → IsClosed s
      → IsClosed (Invitations.own_address libraries env asked prefix store s)
  own_address-IsClosed asked prefix none s h = h
  own_address-IsClosed asked prefix (some store) s h =
      chosen_address asked prefix store.value store s h

  after_adding :
      (e : InvitationEnvelope) (x : Result IoError (Unit {0}) × HostPeerRegistry) (s : AgentState)
      → IsClosed s
      → IsClosed (Invitations.on_added libraries env e x s).1
  after_adding e (err f, registry) s h = h
  after_adding e (ok u, registry) s h = h

  on_granted-IsClosed :
      (request : GenerateInvitationRequest) (x : Result Bytes (Granted libraries env))
      (s : AgentState)
      → IsClosed s
      → IsClosed (Invitations.on_granted libraries env request x s).1
  on_granted-IsClosed request (err response) s h = h
  on_granted-IsClosed request (ok (e, registry)) s h =
      let prefix = host_network_prefix s in
      let t =
        Invitations.own_address libraries env request.virtual_ip prefix s.host_local_virtual_ip s in
      let named : AgentState = record t {
        peer = record (t.peer) { configured = true; node_id = some request.node_id };
      } in
      after_adding e
        (add_pending libraries.registry_json env.registry_fault e.invitation_id
          (stored_transport_key_from_invitation_secret libraries.sha256 e.invitation_secret)
          (next_free_virtual_ip registry.entries prefix) e.issued_at registry)
        named (own_address-IsClosed request.virtual_ip prefix s.host_local_virtual_ip s h)

  on_generate-IsClosed :
      (request : Option GenerateInvitationRequest) (s : AgentState)
      → IsClosed s
      → IsClosed (Invitations.on_generate libraries env request s).1
  on_generate-IsClosed none s h = h
  on_generate-IsClosed (some request) s h =
      on_granted-IsClosed request (granted libraries env request s) s h

  pub generate_invitation-IsClosed :
      (body : Bytes) (s : AgentState)
      → IsClosed s
      → IsClosed (generate_invitation libraries env body s).1
  unfolding generate_invitation
  generate_invitation-IsClosed body s h = on_generate-IsClosed (libraries.read_generate body) s h

  after_change :
      (x : Result (Unit {0}) (Unit {0}) × AgentState)
      → IsClosed x.1
      → IsClosed (Invitations.on_changed libraries env x).1
  after_change (ok u, s) h = h
  after_change (err u, s) h = h

  after_consuming :
      (r : PeerRecord) (x : Result IoError Bool × PeerStore) (s : AgentState)
      → IsClosed s
      → IsClosed (Invitations.on_consumed libraries env r x s).1
  after_consuming r (ok true, store) s h =
      let t : AgentState = record s { peer_store = some store } in
      after_change (mark_peer_changed libraries env r t)
        (mark_peer_changed-IsClosed libraries env r t h)
  after_consuming r (ok false, store) s h = h
  after_consuming r (err e, store) s h = h

  on_admitted-IsClosed :
      (request : ImportInvitationRequest) (x : Result Bytes (InvitationEnvelope × PeerStore))
      (s : AgentState)
      → IsClosed s
      → IsClosed (Invitations.on_admitted libraries env request x s).1
  on_admitted-IsClosed request (err response) s h = h
  on_admitted-IsClosed request (ok (e, store)) s h =
      after_consuming (imported_record libraries env request e)
        (consume_invitation_id env.marking e.invitation_id store) s h

  on_import-IsClosed :
      (request : Option ImportInvitationRequest) (s : AgentState)
      → IsClosed s
      → IsClosed (Invitations.on_import libraries env request s).1
  on_import-IsClosed none s h = h
  on_import-IsClosed (some request) s h =
      on_admitted-IsClosed request (admitted libraries env request s) s h

  pub import_invitation-IsClosed :
      (body : Bytes) (s : AgentState)
      → IsClosed s
      → IsClosed (import_invitation libraries env body s).1
  unfolding import_invitation
  import_invitation-IsClosed body s h = on_import-IsClosed (libraries.read_import body) s h

  after_removal :
      (id : Bytes) (x : Result IoError (Unit {0}) × HostPeerRegistry) (s : AgentState)
      → IsClosed s
      → IsClosed (Invitations.on_removed libraries env id x s).1
  after_removal id (err e, registry) s h = h
  after_removal id (ok u, registry) s h = h

  remove_from-IsClosed :
      (id : Bytes) (registry : Option HostPeerRegistry) (s : AgentState)
      → IsClosed s
      → IsClosed (Invitations.remove_from libraries env id registry s).1
  remove_from-IsClosed id none s h = h
  remove_from-IsClosed id (some registry) s h =
      after_removal id (remove libraries.registry_json env.registry_fault id registry) s h

  on_remove-IsClosed :
      (id : Option Bytes) (s : AgentState)
      → IsClosed s
      → IsClosed (Invitations.on_remove libraries env id s).1
  on_remove-IsClosed none s h = h
  on_remove-IsClosed (some id) s h = remove_from-IsClosed id s.host_registry s h

  pub remove_host_peer-IsClosed :
      (body : Bytes) (s : AgentState)
      → IsClosed s
      → IsClosed (remove_host_peer libraries env body s).1
  unfolding remove_host_peer
  remove_host_peer-IsClosed body s h = on_remove-IsClosed (libraries.read_remove body) s h
