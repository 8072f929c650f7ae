-- ===== src/Protocol/Replay/Sessions.antt =====
-- Session nonces are remembered for ever.
use localscale.Prelude.{
  ◌≡◌, refl, Option, none, some, List, [], ◌∷◌, arith, Bytes, bytes_eq, bytes_eq_iff, bytes_eq_self,
  ok, err, if◌then◌else◌, true, ℕ, none,
}
use localscale.Prelude.Table.{lookup, lookup-insert}
use localscale.Protocol.Message.{Message}
use localscale.Protocol.Syntax.{valid_node_id}
use localscale.Protocol.Validate.{Role, wrong_role, replay_detected}
use localscale.Protocol.Replay.{
  ReplayGuard, PeerRole, same_role, Call, message, session, accept, accept_session, after,
  after_all, note_nonce, prune, nonce_of,
}

sessions-note_nonce :
    (g : ReplayGuard) (o : Option Bytes) (now : ℕ) → (note_nonce g o now).1.sessions ≡ g.sessions
unfolding note_nonce
sessions-note_nonce g none now = refl
sessions-note_nonce g (some nonce) now = ground arith

-- Messages leave the sessions alone.
pub sessions-accept :
    (g : ReplayGuard) (m : Message) (now : ℕ) (role : Role)
    → (accept g m now role).1.sessions ≡ g.sessions
unfolding accept prune
sessions-accept g m now role = ground (arith, sessions-note_nonce (prune g now) (nonce_of m) now)

accept_session-keeps :
    (g : ReplayGuard) (nonce other peer : Bytes) (role : PeerRole) (v : Bytes × PeerRole)
    → lookup other g.sessions ≡ some v
    → lookup other (accept_session g nonce peer role).1.sessions ≡ some v
unfolding accept_session
accept_session-keeps g nonce other peer role v h =
    ground (arith, lookup-insert nonce other (peer, role) g.sessions, bytes_eq_iff nonce other)

after-keeps :
    (g : ReplayGuard) (c : Call) (nonce : Bytes) (v : Bytes × PeerRole)
    → lookup nonce g.sessions ≡ some v
    → lookup nonce (after g c).sessions ≡ some v
unfolding after
after-keeps g (message m now role) nonce v h = rw (sessions-accept g m now role) h
after-keeps g (session n peer role) nonce v h = accept_session-keeps g n nonce peer role v h

after_all-keeps :
    (g : ReplayGuard) (cs : List Call) (nonce : Bytes) (v : Bytes × PeerRole)
    → lookup nonce g.sessions ≡ some v
    → lookup nonce (after_all g cs).sessions ≡ some v
unfolding after_all
after_all-keeps g [] nonce v h = h
after_all-keeps g (c ∷ cs) nonce v h =
    after_all-keeps (after g c) cs nonce v (after-keeps g c nonce v h)

accept_session-records :
    (g : ReplayGuard) (nonce peer : Bytes) (role : PeerRole)
    → (accept_session g nonce peer role).0 ≡ ok tt
    → lookup nonce (accept_session g nonce peer role).1.sessions ≡ some (peer, role)
unfolding accept_session
accept_session-records g nonce peer role h =
    ground (arith, lookup-insert nonce nonce (peer, role) g.sessions, bytes_eq_self nonce)

-- A nonce that is not known is accepted for a valid node id.
pub accept_session-new :
    (g : ReplayGuard) (nonce peer : Bytes) (role : PeerRole)
    → valid_node_id peer ≡ true
    → lookup nonce g.sessions ≡ none
    → (accept_session g nonce peer role).0 ≡ ok tt
unfolding accept_session
accept_session-new g nonce peer role v h = ground arith

accept_session-known :
    (g : ReplayGuard) (nonce peer old_peer : Bytes) (role old_role : PeerRole)
    → valid_node_id peer ≡ true
    → lookup nonce g.sessions ≡ some (old_peer, old_role)
    → (accept_session g nonce peer role).0 ≡ (
        if bytes_eq old_peer peer
        then (if same_role old_role role then err replay_detected else err wrong_role)
        else err wrong_role)
unfolding accept_session
accept_session-known g nonce peer old_peer role old_role v h = ground arith

-- A session nonce that was accepted once is never accepted again, whatever calls the guard has
-- answered in between: the same peer and role get `ReplayDetected`, others `WrongRole`.
pub accept_session_once :
    (g : ReplayGuard) (nonce peer : Bytes) (role : PeerRole) (cs : List Call) (peer' : Bytes)
    (role' : PeerRole)
    → (accept_session g nonce peer role).0 ≡ ok tt
    → valid_node_id peer' ≡ true
    → (accept_session (after_all (accept_session g nonce peer role).1 cs) nonce peer' role').0 ≡ (
        if bytes_eq peer peer'
        then (if same_role role role' then err replay_detected else err wrong_role)
        else err wrong_role)
accept_session_once g nonce peer role cs peer' role' first v =
    let g' = (accept_session g nonce peer role).1 in
    accept_session-known (after_all g' cs) nonce peer' peer role' role v
      (after_all-keeps g' cs nonce (peer, role) (accept_session-records g nonce peer role first))
