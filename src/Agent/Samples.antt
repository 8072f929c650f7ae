-- ===== src/Agent/Samples.antt =====
-- Libraries, a system and a state with which the agent is run.
use localscale.Prelude.{Option, none, some, [], Bytes, codes}
use localscale.Agent.Peers.{Marked}
use localscale.Agent.State.{AgentState, Environment, Libraries, InvitationEnvelope, default_state}

abbrev no_envelope : Bytes → Option InvitationEnvelope
no_envelope json = none

abbrev pub libraries : Libraries
libraries = record {
  sha256 = λ s. s;
  base64_encode = λ s. s;
  base64_decode = λ s. some s;
  registry_json = record { to_string = λ es. some []; from_str = λ s. some [] };
  envelope_to_json = λ e. some [];
  envelope_from_json = no_envelope;
  read_generate = λ s. none;
  read_import = λ s. none;
  read_remove = λ s. some s;
}

abbrev pub env : Environment
env = record {
  now = some 1000;
  onion_endpoint = none;
  local_device_id = codes "laptop";
  log = [];
  random_id = none;
  random_secret = none;
  write_fault = none;
  clear_fault = none;
  role_fault = none;
  registry_fault = none;
  address_fault = none;
  marking = Marked.done;
}

abbrev pub state : AgentState
state =
    default_state (some (record { peer_record = none; file = none; consumed = [] })) none none none
