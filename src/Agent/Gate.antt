-- ===== src/Agent/Gate.antt =====
-- The gate of the peer transport in the state of src/lib.rs: `peer_transport_enabled` stays off while
-- `peer_transport_restart_required` is set.
pub mod Approval
pub mod Pairing
pub mod Invitations
use localscale.Prelude.{ℕ, ◌≡◌, refl, Bool, true, false, not, ◌&&◌, arith, if◌then◌else◌, if_split}
use localscale.Agent.State.{AgentState, RuntimeRestart}

-- The gate is closed while a restart is required, and a restart is scheduled only if one is required.
pub record IsGated (enabled required : Bool) (restart : RuntimeRestart) : Type 0 where
  pub closed : required ≡ true → enabled ≡ false
  pub wanted : restart.scheduled ≡ true → required ≡ true

abbrev pub IsClosed : AgentState → Type 0
IsClosed s = IsGated s.peer_transport_enabled s.peer_transport_restart_required s.runtime_restart

pub shut : (restart : RuntimeRestart) → IsGated false true restart
shut restart = record { closed = λ e. refl; wanted = λ e. refl }

pub off :
    {enabled required : Bool} {restart : RuntimeRestart}
    → IsGated enabled required restart
    → IsGated false required restart
off h = record { closed = λ e. refl; wanted = h.wanted }

-- The gate opens only if no restart is required.
pub opened :
    (approved required : Bool) {enabled : Bool} {restart : RuntimeRestart}
    → IsGated enabled required restart
    → IsGated (approved && not required) required restart
opened true true h = record { closed = λ e. refl; wanted = h.wanted }
opened true false h = record { closed = λ e. (ground arith); wanted = h.wanted }
opened false required h = record { closed = λ e. refl; wanted = h.wanted }

-- Scheduling a restart that is required.
pub scheduled-IsGated :
    {enabled required : Bool} {restart : RuntimeRestart}
    → required ≡ true
    → IsGated enabled required restart
    → IsGated enabled required (record restart { scheduled = true })
scheduled-IsGated e h = record { closed = h.closed; wanted = λ f. e }

-- Both branches of a test, on a response of any kind beside the state.
pub branch-IsClosed {ℓ} :
    {A : Type ℓ} (b : Bool) (x y : A × AgentState)
    → (b ≡ true → IsClosed x.1)
    → (b ≡ false → IsClosed y.1)
    → IsClosed (if b then x else y).1
branch-IsClosed = if_split IsClosed
