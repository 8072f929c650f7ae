-- ===== src/Protocol/Replay/Window.antt =====
-- The nonces of recent handshakes: what is replayed is refused while it could still be fresh.
use localscale.Prelude.{
  ℕ, ◌+◌, ◌≤◌, ◌<◌, ◌≡◌, ◌≢◌, Option, none, some, List, [], ◌∷◌, arith, Bytes, bytes_eq_self,
  le→leb, Result-cases, ok, Bool-cases, inl, inr, ap,
}
use localscale.Prelude.Table.{
  Table, lookup, contains_key, Has, Has-retain, Has-without, Has-insert_self, contains_key-Has,
  insert, retain, without, lookup-retain-none, lookup-without,
}
use localscale.Protocol.Message.{Message, handshake_init, handshake_response, keepalive, mtu_probe}
use localscale.Protocol.Validate.{Role, validate_message, validate_message_sound}
use localscale.Protocol.Replay.{
  ReplayGuard, PeerRole, Call, message, session, accept, accept_session, after, after_all,
  note_nonce, prune, nonce_of, is_recent,
}

-- The clock never goes back from one call to the next.
abbrev pub IsClocked : ℕ → List Call → Type 0
IsClocked now [] = Unit
IsClocked now (message m at role ∷ cs) = (now ≤ at) × IsClocked at cs
IsClocked now (session nonce peer role ∷ cs) = IsClocked now cs

abbrev pub last_time : ℕ → List Call → ℕ
last_time now [] = now
last_time now (message m at role ∷ cs) = last_time at cs
last_time now (session nonce peer role ∷ cs) = last_time now cs

clocked-le : (now : ℕ) (cs : List Call) → IsClocked now cs → now ≤ last_time now cs
clocked-le now [] h = omega arith
clocked-le now (message m at role ∷ cs) h = omega (arith, clocked-le at cs h.1)
clocked-le now (session nonce peer role ∷ cs) h = clocked-le now cs h

seen-note_nonce :
    (g : ReplayGuard) (o : Option Bytes) (at : ℕ) (nonce : Bytes) (t : ℕ)
    → Has nonce t g.seen
    → Has nonce t (note_nonce g o at).1.seen
unfolding note_nonce insert
seen-note_nonce g none at nonce t h = h
seen-note_nonce g (some other) at nonce t h = elim (Bool-cases (contains_key other g.seen)) [
  | inl old ↦ rw old h
  | inr new ↦
      let ne : other ≢ nonce =
        λ e. cc (new, ap (λ k. contains_key k g.seen) e, contains_key-Has nonce t g.seen h) in
      rw new (inr (Has-without other nonce t g.seen ne h))
]

-- An entry outlives every message that comes within the window of it.
seen-accept :
    (g : ReplayGuard) (m : Message) (at : ℕ) (role : Role) (nonce : Bytes) (t : ℕ)
    → at ≤ t + 300
    → Has nonce t g.seen
    → Has nonce t (accept g m at role).1.seen
unfolding accept
seen-accept g m at role nonce t recent h = elim (Result-cases (validate_message m at role)) [
  | inl (u, good) ↦ rw good (
      seen-note_nonce (prune g at) (nonce_of m) at nonce t
        (unfold prune in Has-retain (is_recent at) nonce t g.seen (le→leb _ _ (omega arith)) h))
  | inr (e, bad) ↦ rw bad h
]

seen-accept_session :
    (g : ReplayGuard) (nonce peer : Bytes) (role : PeerRole)
    → (accept_session g nonce peer role).1.seen ≡ g.seen
unfolding accept_session
seen-accept_session g nonce peer role = ground arith

seen-after_all :
    (g : ReplayGuard) (cs : List Call) (now : ℕ) (nonce : Bytes) (t : ℕ)
    → IsClocked now cs
    → last_time now cs ≤ t + 300
    → Has nonce t g.seen
    → Has nonce t (after_all g cs).seen
unfolding after_all after
seen-after_all g [] now nonce t clocked recent h = h
seen-after_all g (message m at role ∷ cs) now nonce t clocked recent h =
    seen-after_all (accept g m at role).1 cs at nonce t clocked.1 recent
      (seen-accept g m at role nonce t (omega (arith, clocked-le at cs clocked.1)) h)
seen-after_all g (session n peer role ∷ cs) now nonce t clocked recent h =
    seen-after_all (accept_session g n peer role).1 cs now nonce t clocked recent
      (rw (seen-accept_session g n peer role) h)

accept-records :
    (g : ReplayGuard) (m : Message) (now : ℕ) (role : Role) (nonce : Bytes)
    → nonce_of m ≡ some nonce
    → (accept g m now role).0 ≡ ok tt
    → Has nonce now (accept g m now role).1.seen
unfolding accept note_nonce
accept-records g m now role nonce e h = ground (arith, Has-insert_self nonce now (prune g now).seen)

accept-known :
    (g : ReplayGuard) (m : Message) (at : ℕ) (role : Role) (nonce : Bytes) (t : ℕ)
    → nonce_of m ≡ some nonce
    → at ≤ t + 300
    → Has nonce t g.seen
    → (accept g m at role).0 ≢ ok tt
unfolding accept note_nonce prune
accept-known g m at role nonce t e recent h =
    let kept = Has-retain (is_recent at) nonce t g.seen (le→leb _ _ (omega arith)) h in
    ground (arith, contains_key-Has nonce t (retain (is_recent at) g.seen) kept)

abbrev pub stamp_of : Message → ℕ
stamp_of (handshake_init node timestamp nonce) = timestamp
stamp_of (handshake_response node timestamp nonce) = timestamp
stamp_of (keepalive node timestamp) = timestamp
stamp_of (mtu_probe node mtu) = 0

accept-fresh :
    (g : ReplayGuard) (m : Message) (at : ℕ) (role : Role) (nonce : Bytes)
    → nonce_of m ≡ some nonce
    → (accept g m at role).0 ≡ ok tt
    → at ≤ stamp_of m + 300
unfolding accept
accept-fresh g (handshake_init node t n) at role nonce e h =
    ground (arith, validate_message_sound (handshake_init node t n) at role)
accept-fresh g (handshake_response node t n) at role nonce e h =
    ground (arith, validate_message_sound (handshake_response node t n) at role)
accept-fresh g (keepalive node t) at role nonce e h = cc
accept-fresh g (mtu_probe node mtu) at role nonce e h = cc

-- A handshake message whose timestamp did not lie in the future when it was accepted is never
-- accepted again, in any role and after any further calls on the guard, as long as the clock does
-- not go back.
pub accept_once :
    (g : ReplayGuard) (m : Message) (now : ℕ) (role : Role) (nonce : Bytes) (cs : List Call)
    (at : ℕ) (role' : Role)
    → nonce_of m ≡ some nonce
    → stamp_of m ≤ now
    → (accept g m now role).0 ≡ ok tt
    → IsClocked now cs
    → last_time now cs ≤ at
    → (accept (after_all (accept g m now role).1 cs) m at role').0 ≢ ok tt
accept_once g m now role nonce cs at role' e dated first clocked later again =
    let g' = (accept g m now role).1 in
    let near : at ≤ now + 300 =
      omega (arith, accept-fresh (after_all g' cs) m at role' nonce e again) in
    let kept =
      seen-after_all g' cs now nonce now clocked (omega arith)
        (accept-records g m now role nonce e first) in
    accept-known (after_all g' cs) m at role' nonce now e near kept again

lookup-pruned :
    (nonce : Bytes) (t at : ℕ) (m : Table ℕ)
    → t + 300 < at
    → lookup nonce (retain (is_recent at) (insert nonce t m)) ≡ none
unfolding insert
lookup-pruned nonce t at m late =
    let gone : lookup nonce (without nonce m) ≡ none =
      ground (arith, lookup-without nonce nonce m, bytes_eq_self nonce) in
    unfold retain in ground (arith, lookup-retain-none (is_recent at) nonce (without nonce m) gone)

accept-eq-ok :
    (g : ReplayGuard) (m : Message) (now : ℕ) (role : Role) (nonce : Bytes)
    → nonce_of m ≡ some nonce
    → (accept g m now role).0 ≡ ok tt
    → (accept g m now role).1.seen ≡ insert nonce now (retain (is_recent now) g.seen)
unfolding accept note_nonce prune
accept-eq-ok g m now role nonce e h = ground arith

pub accept-unknown :
    (g : ReplayGuard) (m : Message) (at : ℕ) (role : Role) (nonce : Bytes)
    → nonce_of m ≡ some nonce
    → validate_message m at role ≡ ok tt
    → lookup nonce (retain (is_recent at) g.seen) ≡ none
    → (accept g m at role).0 ≡ ok tt
unfolding accept note_nonce prune
accept-unknown g m at role nonce e valid unknown = ground arith

-- A handshake message dated up to 300 seconds ahead passes a second time: its nonce is forgotten 300
-- seconds after the first call, while its timestamp stays acceptable until 300 seconds after itself.
pub accept_twice :
    (g : ReplayGuard) (m : Message) (now : ℕ) (role : Role) (nonce : Bytes) (at : ℕ)
    → nonce_of m ≡ some nonce
    → (accept g m now role).0 ≡ ok tt
    → validate_message m at role ≡ ok tt
    → now + 300 < at
    → (accept (accept g m now role).1 m at role).0 ≡ ok tt
accept_twice g m now role nonce at e first valid late =
    let forgotten = lookup-pruned nonce now at (retain (is_recent now) g.seen) late in
    let seen = accept-eq-ok g m now role nonce e first in
    accept-unknown (accept g m now role).1 m at role nonce e valid (rw seen forgotten)
