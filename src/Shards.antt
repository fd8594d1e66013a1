-- ===== src/Shards.antt =====
-- ext/kino/src/io_shards.rs: which I/O shard gets an accepted connection.
-- `up` is whether each shard's receiver is there, so whether `send` to it succeeds; a shard that is
-- found down stays marked in `live`.
pub mod Least
pub mod Failover
pub mod Plane
pub mod Boot
mod Tests
use kino.Prelude.{
  ℕ, zero, suc, ◌+◌, ◌-◌, ◌/◌, ◌^◌, ◌==◌, leb, if◌then◌else◌, Bool, true, false, Option, none, some,
  List, [], ◌∷◌, get_or, set, word,
}

-- `cpus.div_ceil(2)`.
unfoldable pub default_thread_count : ℕ → ℕ
default_thread_count cpus = (cpus + 1) / 2

-- `cpus` is what the operating system reports, 1 if it reports nothing.
unfoldable pub thread_count : ℕ → ℕ → ℕ
thread_count io_threads cpus = if io_threads == 0 then default_thread_count cpus else io_threads

-- `min_by_key` keeps the first of equals.
pub earlier_min : ℕ → ℕ → Option (ℕ × ℕ) → ℕ × ℕ
earlier_min i load none = (i, load)
earlier_min i load (some (j, best)) = if leb load best then (i, load) else (j, best)

pub least_from : ℕ → List ℕ → List Bool → Option (ℕ × ℕ)
least_from i [] live = none
least_from i (load ∷ loads) [] = none
least_from i (load ∷ loads) (up ∷ live) =
    let rest = least_from (i + 1) loads live in if up then some (earlier_min i load rest) else rest

pub least_loaded : List ℕ → List Bool → Option ℕ
least_loaded loads live = elim (least_from 0 loads live) [ none ↦ none | some (i, _) ↦ some i ]

-- The connection went to a shard, or the server stops accepting as no shard is left.
pub data Handoff : Type 0 where
  handed : ℕ → Handoff
  all_down out_of_fuel : Handoff

-- The inner loop of `accept_loop`: `n` rounds are left. The load of the chosen shard goes up before
-- the send and down again if the send fails.
pub hand_off : ℕ → List Bool → List ℕ → List Bool → Handoff × List ℕ × List Bool
hand_off zero up loads live = (out_of_fuel, loads, live)
hand_off (suc n) up loads live = elim (least_loaded loads live) [
  | none ↦ (all_down, loads, live)
  | some i ↦
      let raised = set loads i (word (get_or loads i 0 + 1)) in
      let lowered = set raised i (word (get_or raised i 0 + (2 ^ 64 - 1))) in
      elim (get_or up i false) [
        | true ↦ (handed i, raised, live)
        | false ↦ hand_off n up lowered (set live i false)
      ]
]
