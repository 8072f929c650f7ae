-- ===== src/Agent/Gate/Pairing.antt =====
-- `mark_peer_changed`, `set_peer_config` and `set_mode` of src/lib.rs keep the gate.
use localscale.Prelude.{Bool, true, false, Option, none, some, Bytes, Result, ok, err}
use localscale.Prelude.Table.{Table}
use localscale.Transport.Action.{IoError}
use localscale.Agent.Gate.{IsClosed, branch-IsClosed, shut}
use localscale.Agent.Handlers.{peer_status}
use localscale.Agent.Json.{parse_json_fields}
use localscale.Agent.Mode.{parse_mode}
use localscale.Agent.Pairing
use localscale.Agent.Pairing.{
  mark_peer_changed, set_peer_config, set_mode, chosen_config, Chosen, config_record,
}
use localscale.Agent.Peers.{PeerRecord, PeerStore, configure}
use localscale.Agent.Role.{RoleStore, set_role}
use localscale.Agent.State.{AgentState, Environment, Libraries}

module _ (libraries : Libraries) (env : Environment) where
  after_marking :
      (r : PeerRecord) (x : Result IoError (Unit {0}) × PeerStore) (s : AgentState)
      → IsClosed s
      → IsClosed (Pairing.on_marked libraries env r x s).1
  after_marking r (err e, store) s h = h
  after_marking r (ok u, store) s h = shut s.runtime_restart

  mark_in-IsClosed :
      (r : PeerRecord) (store : Option PeerStore) (s : AgentState)
      → IsClosed s
      → IsClosed (Pairing.mark_in libraries env r store s).1
  mark_in-IsClosed r none s h = h
  mark_in-IsClosed r (some store) s h =
      after_marking r (configure libraries.sha256 env.write_fault r store) s h

  pub mark_peer_changed-IsClosed :
      (r : PeerRecord) (s : AgentState)
      → IsClosed s
      → IsClosed (mark_peer_changed libraries env r s).1
  unfolding mark_peer_changed
  mark_peer_changed-IsClosed r s h = mark_in-IsClosed r s.peer_store s h

  after_config :
      (r : PeerRecord) (x : Result IoError (Unit {0}) × PeerStore) (s : AgentState)
      → IsClosed s
      → IsClosed (Pairing.on_configured libraries env r x s).1
  after_config r (err e, store) s h = h
  after_config r (ok u, store) s h = shut s.runtime_restart

  on_record :
      (r : PeerRecord) (store : Option PeerStore) (s : AgentState)
      → IsClosed s
      → IsClosed (Pairing.on_config_record libraries env r store s).1
  on_record r none s h = h
  on_record r (some store) s h =
      branch-IsClosed (Pairing.is_same libraries env store.peer_record r) (peer_status env s, s)
        (Pairing.on_configured libraries env r (configure libraries.sha256 env.write_fault r store)
          s)
        (λ e. h) (λ e. after_config r (configure libraries.sha256 env.write_fault r store) s h)

  on_chosen-IsClosed :
      (fields : Table Bytes) (chosen : Option Chosen) (s : AgentState)
      → IsClosed s
      → IsClosed (Pairing.on_chosen libraries env fields chosen s).1
  on_chosen-IsClosed fields none s h = h
  on_chosen-IsClosed fields (some chosen) s h =
      on_record (config_record libraries env fields chosen) s.peer_store s h

  on_fields :
      (fields : Option (Table Bytes)) (s : AgentState)
      → IsClosed s
      → IsClosed (Pairing.on_config_fields libraries env fields s).1
  on_fields none s h = h
  on_fields (some fields) s h = on_chosen-IsClosed fields (chosen_config libraries env fields) s h

  pub set_peer_config-IsClosed :
      (body : Bytes) (s : AgentState)
      → IsClosed s
      → IsClosed (set_peer_config libraries env body s).1
  unfolding set_peer_config
  set_peer_config-IsClosed body s h = on_fields (parse_json_fields body) s h

module _ (env : Environment) where
  with_mode-IsClosed :
      (mode : Bytes) (changed : Bool) (s : AgentState)
      → IsClosed s
      → IsClosed (Pairing.with_mode env mode changed s)
  with_mode-IsClosed mode true s h = shut s.runtime_restart
  with_mode-IsClosed mode false s h = h

  after_role :
      (mode : Bytes) (contract : Bool) (x : Result IoError Bool × RoleStore) (s : AgentState)
      → IsClosed s
      → IsClosed (Pairing.on_role_set env mode contract x s).1
  after_role mode contract (err e, store) s h = h
  after_role mode contract (ok changed, store) s h =
      with_mode-IsClosed mode changed (record s { role_store = some store }) h

  on_store :
      (mode : Bytes) (contract : Bool) (store : Option RoleStore) (s : AgentState)
      → IsClosed s
      → IsClosed (Pairing.on_role_store env mode contract store s).1
  on_store mode contract none s h = h
  on_store mode contract (some store) s h =
      after_role mode contract (set_role env.role_fault (Pairing.persisted_mode env mode) store) s h

  on_mode-IsClosed :
      (mode : Option Bytes) (contract : Bool) (s : AgentState)
      → IsClosed s
      → IsClosed (Pairing.on_mode env mode contract s).1
  on_mode-IsClosed none contract s h = h
  on_mode-IsClosed (some mode) contract s h = on_store mode contract s.role_store s h

  pub set_mode-IsClosed :
      (body : Bytes) (contract : Bool) (s : AgentState)
      → IsClosed s
      → IsClosed (set_mode env body contract s).1
  unfolding set_mode
  set_mode-IsClosed body contract s h = on_mode-IsClosed (parse_mode body contract) contract s h
