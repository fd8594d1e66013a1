-- ===== src/Shards/Tests.antt =====
-- Three shards, the least loaded of which has gone down.
use kino.Prelude.{map, ◌&&◌, ◌+◌, ℕ, ◌≡◌, refl, true, false, some, List, [], ◌∷◌, arith, Bool}
use kino.Shards.{least_loaded, least_from, earlier_min, hand_off, handed}
use kino.Shards.Boot.{ready, fails, failed, spawn_from, spawn}
use kino.Shards.Boot.Clean.{IsClean, all_ready, spawn-IsClean}
use kino.Shards.Plane.{accepting, Event, acquire, accepts, takes, goes_down, ends, plane_of, run}
use kino.Shards.Plane.Changes.{held}
use kino.Shards.Plane.Totals.{total, loads_up, any_up, size}
use kino.Shards.Plane.Conserved.{run-plane_of}
use kino.Shards.Failover.{Met, count_live, hand_off-Met}

abbrev loads : List ℕ
loads = 3 ∷ 1 ∷ 2 ∷ []

abbrev all_live : List Bool
all_live = true ∷ true ∷ true ∷ []

abbrev second_down : List Bool
second_down = true ∷ false ∷ true ∷ []

routes_around : hand_off 4 second_down loads all_live ≡ (handed 2, 3 ∷ 1 ∷ 3 ∷ [], second_down)
unfolding hand_off least_loaded least_from earlier_min
routes_around = refl

least : least_loaded loads all_live ≡ some 1
unfolding least_loaded least_from earlier_min
least = refl

hand_off-Met_example : Met second_down 3 all_live (hand_off 4 second_down loads all_live).0
unfolding count_live
hand_off-Met_example = hand_off-Met 4 second_down loads all_live (omega arith)

-- Two shards and two permits: the first shard goes down with a connection that it serves, the next
-- two are routed around it, and the acceptor waits for a permit until one of them ends.
abbrev events : List (Event ℕ)
events =
    acquire
    ∷ accepts 7
    ∷ takes 0
    ∷ goes_down 0
    ∷ acquire
    ∷ accepts 8
    ∷ takes 1
    ∷ acquire
    ∷ accepts 9
    ∷ acquire
    ∷ ends 1 0
    ∷ acquire
    ∷ []

routed : run events (plane_of 2 2) ≡ record {
  acceptor = accepting;
  available = 0;
  loads = 0 ∷ 1 ∷ [];
  live = false ∷ true ∷ [];
  shards =
      record { rx = []; connections = []; up = false }
      ∷ record { rx = 9 ∷ []; connections = []; up = true }
      ∷ [];
  draining = false;
}
unfolding run plane_of hand_off least_loaded least_from earlier_min
routed = refl

run-plane_of_example :
    let p = run events (plane_of 2 2) in
    (p.available + held p.acceptor + total p.shards ≡ 2)
    × (loads_up p.loads p.shards ≡ map size p.shards)
    × ((p.draining && any_up p.shards) ≡ false)
run-plane_of_example = run-plane_of 2 2 events (omega arith)

-- The second shard's runtime cannot be built.
undone : spawn (ready ∷ fails ∷ []) ready ≡ some (record { running = []; senders = [] }, failed)
unfolding spawn spawn_from
undone = refl

spawn-IsClean_example :
    IsClean (all_ready (ready ∷ ready ∷ []) ready) 3 (spawn (ready ∷ ready ∷ []) ready)
spawn-IsClean_example = spawn-IsClean (ready ∷ ready ∷ []) ready
