-- ===== src/Agent/Server/Tests.antt =====
-- Two connections, of which one ends.
use localscale.Prelude.{◌≡◌, refl, false, arith}
use localscale.Agent.Server.{Listener, stream, idle_listener, turn, drop_guard}
use localscale.Agent.Server.Limit.{take_turn, finish, Reach, here, next, IsBounded, Reach-IsBounded}

abbrev busy : Listener
busy = record { active = 1; workers = 1; refused = 0; interrupted = false }

reached : Reach idle_listener busy
unfolding turn drop_guard
reached =
    next (next (next here (take_turn false stream refl)) (take_turn false stream refl))
      (finish (omega arith))

Reach-IsBounded_example : IsBounded busy × ((turn false stream busy).workers ≡ 2)
Reach-IsBounded_example = Reach-IsBounded reached
