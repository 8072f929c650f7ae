-- ===== src/Agent/Pairing/Tests.antt =====
-- A host is configured twice, and approved, revoked and approved again in between.
use localscale.Prelude.{◌≡◌, Bytes, codes, Bool, true, false, List, [], ◌∷◌}
use localscale.Agent.Pairing.{set_peer_config}
use localscale.Agent.Pairing.Again.{approve_all, set_peer_config-again}
use localscale.Agent.Samples.{libraries, env, state}
use localscale.Agent.State.{AgentState}

abbrev body : Bytes
body =
    codes
      "{\"role\":\"host\",\"node_id\":\"desk\",\"onion_endpoint\":\"aaaaaaaaaaaaaaaaaaaaaaaaaaaaaaaaaaaaaaaaaaaaaaaaaaaaaaad.onion\",\"invitation_secret\":\"0123456789abcdef\"}"

abbrev once : AgentState
once = (set_peer_config libraries env body state).1

abbrev approvals : List Bool
approvals = true ∷ false ∷ true ∷ []

set_peer_config-again_example :
    (set_peer_config libraries env body (approve_all env approvals once)).1
    ≡ approve_all env approvals once
set_peer_config-again_example = set_peer_config-again libraries env body approvals state
