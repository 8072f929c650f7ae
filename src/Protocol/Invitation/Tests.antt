-- ===== src/Protocol/Invitation/Tests.antt =====
-- An invitation for one host.
use localscale.Prelude.{◌≡◌, refl, Bytes, codes, ok, replicate, ◌++◌, strip_suffix}
use localscale.Protocol.Syntax.{valid_node_id, valid_onion_hostname, valid_invitation_secret}
use localscale.Protocol.Invitation.{HostInvitation, new_invitation}

abbrev endpoint : Bytes
endpoint = replicate 56 b'q' ++ codes ".onion"

abbrev invitation : HostInvitation
invitation = record {
  host_node_id = codes "box";
  public_endpoint = endpoint;
  invitation_secret = replicate 20 b'x';
}

made : new_invitation (codes "box") endpoint (replicate 20 b'x') ≡ ok invitation
unfolding new_invitation valid_node_id valid_onion_hostname valid_invitation_secret strip_suffix
made = refl
