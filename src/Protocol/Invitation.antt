-- ===== src/Protocol/Invitation.antt =====
-- `HostInvitation` and `ClientConfig` of agent/protocol/src/lib.rs.
pub mod Accepted
mod Tests
use localscale.Prelude.{◌≡◌, Bool, not, ◌||◌, Bytes, codes, ◌++◌, if◌then◌else◌, Result, ok, err}
use localscale.Protocol.Syntax.{valid_node_id, valid_onion_hostname, valid_invitation_secret}
use localscale.Protocol.Validate.{ValidationError, invalid_node_id, invalid_nonce}
use localscale.Protocol.Replay.{PeerRole}

pub record HostInvitation : Type 0 where
  pub host_node_id : Bytes
  pub public_endpoint : Bytes
  pub invitation_secret : Bytes

-- `HostInvitation::new`
unfoldable pub new_invitation : Bytes → Bytes → Bytes → Result ValidationError HostInvitation
new_invitation host_node endpoint secret =
    if not (valid_node_id host_node)
    then err invalid_node_id
    else if not (valid_onion_hostname endpoint) || not (valid_invitation_secret secret)
    then err invalid_nonce
    else ok (record {
      host_node_id = host_node;
      public_endpoint = endpoint;
      invitation_secret = secret;
    })

pub invitation_diagnostics : HostInvitation → Bytes
invitation_diagnostics i =
    codes "configured host="
    ++ (i.host_node_id
        ++ (codes " endpoint=" ++ (i.public_endpoint ++ codes " transport=unavailable")))

pub record ClientConfig : Type 0 where
  pub client_node_id : Bytes
  pub host_node_id : Bytes
  pub public_endpoint : Bytes
  pub invitation_secret : Bytes

-- `ClientConfig::client`, and `PeerConfig::client`.
unfoldable pub client : Bytes → Bytes → Bytes → Bytes → Result ValidationError ClientConfig
client client_node host_node endpoint secret =
    if not (valid_node_id client_node) || not (valid_node_id host_node)
    then err invalid_node_id
    else if not (valid_onion_hostname endpoint) || not (valid_invitation_secret secret)
    then err invalid_nonce
    else ok (record {
      client_node_id = client_node;
      host_node_id = host_node;
      public_endpoint = endpoint;
      invitation_secret = secret;
    })

pub from_invitation : HostInvitation → Bytes → Result ValidationError ClientConfig
from_invitation i client_node =
    client client_node i.host_node_id i.public_endpoint i.invitation_secret

pub config_role : ClientConfig → PeerRole
config_role c = PeerRole.cliente

pub config_diagnostics : ClientConfig → Bytes
config_diagnostics c =
    codes "configured client="
    ++ (c.client_node_id
        ++ (codes " host="
            ++ (c.host_node_id
                ++ (codes " endpoint=" ++ (c.public_endpoint ++ codes " transport=unavailable")))))
