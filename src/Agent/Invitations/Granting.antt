-- ===== src/Agent/Invitations/Granting.antt =====
-- An invitation that `generate_invitation` of src/lib.rs makes is one that `decode_invitation` accepts.
use localscale.Prelude.{
  ℕ, ◌+◌, ◌-◌, ◌≤◌, ◌<◌, min, ◌≡◌, refl, ap, sym, ◌∙◌, Bool, true, false, not, ◌&&◌, Bool-cases,
  inl, inr, Option, none, some, ◌++◌, Bytes, length, ltb, leb, arith, leb→le, le→ltb, if◌then◌else◌,
  if_true, subst, strip_prefix-append, Result, ok, err,
}
use localscale.Codec.Decimal.{u64_max}
use localscale.Protocol.Invitation.{new_invitation, HostInvitation}
use localscale.Protocol.Syntax.{valid_node_id}
use localscale.Protocol.Validate.{ValidationError}
use localscale.Agent.HostRegistry.{HostPeerRegistry}
use localscale.Agent.Envelopes.{
  decode_invitation, is_refused, is_stale, judged, invitation_prefix, invalid_invitation,
  invitation_expired, valid_invitation_id, max_ttl_secs, is_err,
}
use localscale.Agent.Invitations.{Granted, granted, sealed, drawn, placed, envelope, invalid_ttl}
use localscale.Agent.State.{
  AgentState, Environment, Libraries, InvitationEnvelope, GenerateInvitationRequest,
}

-- An address and a secret that were accepted are accepted with every valid sender, and no other.
accepted_parts :
    (node other endpoint secret : Bytes) (i : HostInvitation)
    → new_invitation node endpoint secret ≡ ok i
    → is_err (new_invitation other endpoint secret) ≡ not (valid_node_id other)
unfolding new_invitation
accepted_parts node other endpoint secret i h = elim (Bool-cases (valid_node_id other)) [
  | inl good ↦ ground arith
  | inr bad ↦ ground arith
]

if_not {ℓ} : {A : Type ℓ} (b : Bool) (x y : A) → (if not b then x else y) ≡ (if b then y else x)
if_not true x y = refl
if_not false x y = refl

module _ (libraries : Libraries) (env : Environment) where
  -- What is known of an envelope that was granted.
  record IsGrant (request : GenerateInvitationRequest) (e : InvitationEnvelope) : Type 0 where
    pub version : e.version ≡ 1
    pub sender : e.host_node_id ≡ env.local_device_id
    pub end : e.expires_at ≡ e.issued_at + request.ttl_seconds
    pub least : 60 ≤ request.ttl_seconds
    pub most : request.ttl_seconds ≤ 86400
    pub fits : e.expires_at ≤ u64_max
    pub verdicts :
        (other : Bytes)
        → is_err (new_invitation other e.onion_endpoint e.invitation_secret)
          ≡ not (valid_node_id other)

  abbrev envelope_of :
      InvitationEnvelope → Result Bytes (Granted libraries env) → InvitationEnvelope
  envelope_of e (ok (f, r)) = f
  envelope_of e (err response) = e

  -- The values that an environment may give, one after the other.
  sealed-IsGrant :
      (request : GenerateInvitationRequest) (endpoint id secret : Bytes) (now : ℕ)
      (registry : HostPeerRegistry)
      → (60 ≤ request.ttl_seconds) × (request.ttl_seconds ≤ 86400)
      → (x : Result ValidationError HostInvitation)
      → new_invitation request.node_id endpoint secret ≡ x
      → (e : InvitationEnvelope) (r : HostPeerRegistry)
      → sealed libraries env request
          (envelope libraries env request endpoint now id secret)
          registry
          x
        ≡ ok (e, r)
      → IsGrant request e
  sealed-IsGrant request endpoint id secret now registry bounds (err f) made e r h = ground arith
  sealed-IsGrant request endpoint id secret now registry bounds (ok i) made e r h =
      let sent = envelope libraries env request endpoint now id secret in
      let known : leb sent.expires_at u64_max ≡ true → IsGrant request sent = λ short. record {
        version = refl;
        sender = refl;
        end = refl;
        least = bounds.0;
        most = bounds.1;
        fits = leb→le sent.expires_at u64_max short;
        verdicts = λ other. accepted_parts request.node_id other endpoint secret i made;
      } in
      elim (Bool-cases (leb sent.expires_at u64_max)) [
        | inl fits ↦
            subst (IsGrant request) (ap (envelope_of e) (sym (if_true _ _ _ fits) ∙ h)) (known fits)
        | inr late ↦ ground arith
      ]

  drawn-IsGrant :
      (request : GenerateInvitationRequest) (endpoint : Bytes) (registry : HostPeerRegistry)
      (now : Option ℕ) (id secret : Option Bytes)
      → (60 ≤ request.ttl_seconds) × (request.ttl_seconds ≤ 86400)
      → (e : InvitationEnvelope) (r : HostPeerRegistry)
      → drawn libraries env request endpoint registry now id secret ≡ ok (e, r)
      → IsGrant request e
  drawn-IsGrant request endpoint registry none id secret bounds e r h = ground arith
  drawn-IsGrant request endpoint registry (some now) none secret bounds e r h = ground arith
  drawn-IsGrant request endpoint registry (some now) (some id) none bounds e r h = ground arith
  drawn-IsGrant request endpoint registry (some now) (some id) (some secret) bounds e r h =
      sealed-IsGrant request endpoint id secret now registry bounds
        (new_invitation request.node_id endpoint secret) refl e r h

  placed-IsGrant :
      (request : GenerateInvitationRequest) (endpoint : Option Bytes)
      (registry : Option HostPeerRegistry)
      → (60 ≤ request.ttl_seconds) × (request.ttl_seconds ≤ 86400)
      → (e : InvitationEnvelope) (r : HostPeerRegistry)
      → placed libraries env request endpoint registry ≡ ok (e, r)
      → IsGrant request e
  placed-IsGrant request none registry bounds e r h = ground arith
  placed-IsGrant request (some endpoint) none bounds e r h = ground arith
  placed-IsGrant request (some endpoint) (some registry) bounds e r h =
      drawn-IsGrant request endpoint registry env.now env.random_id env.random_secret bounds e r h

  within :
      (b : Bool) (x : Result Bytes (Granted libraries env)) (e : InvitationEnvelope)
      (r : HostPeerRegistry)
      → (if not b then err invalid_ttl else x) ≡ ok (e, r)
      → (b ≡ true) × (x ≡ ok (e, r))
  within true x e r h = (refl, h)
  within false x e r h = ground arith

  granted-IsGrant :
      (request : GenerateInvitationRequest) (s : AgentState) (e : InvitationEnvelope)
      (r : HostPeerRegistry)
      → granted libraries env request s ≡ ok (e, r)
      → IsGrant request e
  unfolding granted
  granted-IsGrant request s e r h =
      let bounds =
        within (leb 60 request.ttl_seconds && leb request.ttl_seconds max_ttl_secs) _ e r h in
      placed-IsGrant request env.onion_endpoint s.host_registry (ground arith, ground arith) e r
        bounds.1

  -- The fate of the granted envelope at a later time.
  judged-IsGrant :
      (request : GenerateInvitationRequest) (e : InvitationEnvelope) (later : ℕ)
      → IsGrant request e
      → valid_invitation_id e.invitation_id ≡ true
      → e.issued_at ≤ later + 60
      → later < e.expires_at
      → judged e later
        ≡ (if valid_node_id env.local_device_id then ok e else err invalid_invitation)
  judged-IsGrant request e later g id early fresh =
      let in_time : leb e.expires_at later ≡ false = ground arith in
      let in_order : leb e.expires_at e.issued_at ≡ false = ground arith in
      let bounded : ltb max_ttl_secs (e.expires_at - e.issued_at) ≡ false = ground arith in
      let on_clock : ltb (min (later + 60) u64_max) e.issued_at ≡ false = ground arith in
      let sender : is_err (new_invitation e.host_node_id e.onion_endpoint e.invitation_secret)
          ≡ not (valid_node_id env.local_device_id) =
        g.verdicts e.host_node_id ∙ ap (λ n. not (valid_node_id n)) g.sender in
      let refused : is_refused e later ≡ not (valid_node_id env.local_device_id) =
        rw (g.version, id, on_clock, in_time, in_order, bounded, sender) in
      ap
        (λ b.
          if b
          then err (if is_stale e later then invitation_expired else invalid_invitation)
          else ok e)
        refused
      ∙ (ap
            (λ b.
              if not (valid_node_id env.local_device_id)
              then err (if b then invitation_expired else invalid_invitation)
              else ok e)
            in_time
          ∙ if_not (valid_node_id env.local_device_id) (err invalid_invitation) (ok e))

  -- Suppose that `generate_invitation` grants an invitation, that the JSON and base64 libraries read back what
  -- they write of it in at most 4096 bytes, and that its random id is of the 22 characters of such an id. At a
  -- time not more than 60 seconds before it was issued and before it expires, `decode_invitation` then gives
  -- exactly that invitation if the id of the local device is a valid node id, and refuses it as invalid if not.
  pub decode_invitation-granted :
      (request : GenerateInvitationRequest) (s : AgentState) (e : InvitationEnvelope)
      (r : HostPeerRegistry) (json : Bytes) (later : ℕ)
      → granted libraries env request s ≡ ok (e, r)
      → libraries.base64_decode (libraries.base64_encode json) ≡ some json
      → libraries.envelope_from_json json ≡ some e
      → length (libraries.base64_encode json) ≤ 4096
      → valid_invitation_id e.invitation_id ≡ true
      → e.issued_at ≤ later + 60
      → later < e.expires_at
      → decode_invitation libraries (invitation_prefix ++ libraries.base64_encode json) later
        ≡ (if valid_node_id env.local_device_id then ok e else err invalid_invitation)
  unfolding decode_invitation
  decode_invitation-granted request s e r json later h decoded parsed short id early fresh =
      rw
        (
          strip_prefix-append invitation_prefix (libraries.base64_encode json),
          le→ltb 4096 (length (libraries.base64_encode json)) short,
          decoded,
          parsed,
        )
        (judged-IsGrant request e later (granted-IsGrant request s e r h) id early fresh)
