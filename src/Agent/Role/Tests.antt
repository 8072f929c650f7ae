-- ===== src/Agent/Role/Tests.antt =====
-- A file of the agent's own user, and the role of a client.
use localscale.Prelude.{◌≡◌, refl, true, some, codes, ok}
use localscale.Agent.Role.{Metadata, RoleStore, validate_file}

abbrev own_file : Metadata
own_file = record { is_file = true; uid = 501; mode = 384 }

abbrev store : RoleStore
store = record { role = some (codes "host"); file = some (codes "host\n") }

own_file_suits : validate_file 501 own_file ≡ ok tt
unfolding validate_file
own_file_suits = refl
