-- ===== src/Agent/Server/Limit.antt =====
-- The limit of connections in the accept loop of src/lib.rs, as a relation between its states: the loop
-- and the workers take turns in any order.
use localscale.Prelude.{◌+◌, ◌≤◌, ◌<◌, ◌≡◌, refl, Bool, true, false, arith, leb, if◌then◌else◌}
use localscale.Agent.Server.{
  Listener, Accepted, stream, broken_stream, would_block, failed, idle_listener, turn, drop_guard,
  admitted,
}

-- A step of the loop, which runs until a restart, or the end of a worker that runs.
pub data Step (l : Listener) : Listener → Type 0 where
  take_turn :
      (requested : Bool) (x : Accepted) → l.interrupted ≡ false → Step l (turn requested x l)
  finish : 0 < l.workers → Step l (drop_guard l)

pub data Reach (l : Listener) : Listener → Type 0 where
  here : Reach l l
  next : {m n : Listener} → Reach l m → Step m n → Reach l n

-- The counter is the number of workers, of which there are at most 16.
abbrev pub IsBounded : Listener → Type 0
IsBounded l = (l.active ≡ l.workers) × (l.workers ≤ 16)

admitted-IsBounded : (l : Listener) → IsBounded l → IsBounded (admitted l)
admitted-IsBounded l h = ground arith

turn-IsBounded :
    (requested : Bool) (x : Accepted) (l : Listener) → IsBounded l → IsBounded (turn requested x l)
unfolding turn
turn-IsBounded true x l h = h
turn-IsBounded false stream l h = admitted-IsBounded l h
turn-IsBounded false broken_stream l h = h
turn-IsBounded false would_block l h = h
turn-IsBounded false failed l h = h

Step-IsBounded : {l m : Listener} → Step l m → IsBounded l → IsBounded m
unfolding drop_guard
Step-IsBounded (take_turn requested x running) h = turn-IsBounded requested x _ h
Step-IsBounded (finish some_run) h = ground arith

-- Whatever connections arrive, and whenever workers end, at most 16 workers run, the counter that the limit is
-- tested on is their number, and so the next connection is refused exactly if 16 of them run.
pub Reach-IsBounded :
    {l : Listener}
    → Reach idle_listener l
    → IsBounded l
      × ((turn false stream l).workers ≡ (if leb 16 l.workers then l.workers else l.workers + 1))
unfolding turn
Reach-IsBounded r = (bounded r, (let h = bounded r in ground arith))
  where
    bounded : {l : Listener} → Reach idle_listener l → IsBounded l
    bounded here = (refl, omega arith)
    bounded (next before step) = Step-IsBounded step (bounded before)
