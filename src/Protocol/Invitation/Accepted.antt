-- ===== src/Protocol/Invitation/Accepted.antt =====
-- What an accepted invitation gives its client.
use localscale.Prelude.{◌≡◌, true, arith, Bytes, if◌then◌else◌, ok, err}
use localscale.Protocol.Syntax.{valid_node_id, valid_onion_hostname, valid_invitation_secret}
use localscale.Protocol.Validate.{invalid_node_id}
use localscale.Protocol.Invitation.{HostInvitation, new_invitation, from_invitation, client}

-- An invitation that was made gives a configuration to exactly the clients with a valid node id, with
-- the host, the address and the secret that the invitation was made for; its secret and its address are
-- valid.
pub from_invitation-new_invitation :
    (host_node endpoint secret client_node : Bytes) (i : HostInvitation)
    → new_invitation host_node endpoint secret ≡ ok i
    → (from_invitation i client_node ≡ (
        if valid_node_id client_node
        then ok (record {
          client_node_id = client_node;
          host_node_id = host_node;
          public_endpoint = endpoint;
          invitation_secret = secret;
        })
        else err invalid_node_id))
      × (valid_onion_hostname i.public_endpoint ≡ true)
      × (valid_invitation_secret i.invitation_secret ≡ true)
unfolding new_invitation from_invitation client
from_invitation-new_invitation host_node endpoint secret client_node i h =
    (ground arith, ground arith, ground arith)
