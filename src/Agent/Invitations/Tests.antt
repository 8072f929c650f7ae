-- ===== src/Agent/Invitations/Tests.antt =====
-- An invitation of a host whose device id has a space.
use localscale.Prelude.{
  true, ◌≡◌, refl, ◌++◌, Option, none, some, [], Bytes, codes, arith, strip_suffix, if◌then◌else◌,
  ok, err,
}
use localscale.Protocol.Invitation.{new_invitation}
use localscale.Protocol.Syntax.{valid_node_id, valid_onion_hostname, valid_invitation_secret}
use localscale.Agent.HostRegistry.{HostPeerRegistry}
use localscale.Agent.Envelopes.{
  decode_invitation, invitation_prefix, valid_invitation_id, invalid_invitation,
}
use localscale.Agent.Invitations.{granted, envelope}
use localscale.Agent.Invitations.Granting.{decode_invitation-granted}
use localscale.Agent.Samples
use localscale.Agent.State.{
  AgentState, Environment, Libraries, InvitationEnvelope, GenerateInvitationRequest, default_state,
}

abbrev onion : Bytes
onion = codes "aaaaaaaaaaaaaaaaaaaaaaaaaaaaaaaaaaaaaaaaaaaaaaaaaaaaaaad.onion"

abbrev env : Environment
env = record Samples.env {
  onion_endpoint = some onion;
  local_device_id = codes "my laptop-00001";
  random_id = some (codes "0123456789012345678901");
  random_secret = some (codes "0123456789abcdef");
}

abbrev request : GenerateInvitationRequest
request = record { node_id = codes "desk"; ttl_seconds = 1800; virtual_ip = none }

abbrev registry : HostPeerRegistry
registry = record { entries = []; file = none }

abbrev state : AgentState
state = default_state none none (some registry) none

abbrev sent : InvitationEnvelope
sent =
    envelope Samples.libraries env request onion 1000 (codes "0123456789012345678901")
      (codes "0123456789abcdef")

abbrev read : Bytes → Option InvitationEnvelope
read json = some sent

abbrev libraries : Libraries
libraries = record Samples.libraries { envelope_from_json = read }

sent-granted : granted libraries env request state ≡ ok (sent, registry)
unfolding granted default_state new_invitation valid_node_id valid_onion_hostname
    valid_invitation_secret strip_suffix
sent-granted = refl

sent_id : valid_invitation_id sent.invitation_id ≡ true
unfolding valid_invitation_id
sent_id = refl

decode_invitation-granted_example :
    decode_invitation libraries (invitation_prefix ++ codes "{}") 1000
    ≡ (if valid_node_id (codes "my laptop-00001") then ok sent else err invalid_invitation)
decode_invitation-granted_example =
    decode_invitation-granted libraries env request state sent registry (codes "{}") 1000
      sent-granted refl refl (ground arith) sent_id (ground arith) (ground arith)
