-- ===== src/Shards/Plane.antt =====
-- ext/kino/src/io_shards.rs: `accept_loop`, the shards' loops and `LoadGuard`, as steps of one system.
-- A connection is a value of `A` and holds a permit of the semaphore from before its accept until it
-- is dropped. A step is one of the acceptor's or of one shard's thread, in any order.
pub mod Kept
pub mod Totals
pub mod Changes
pub mod Conserved
use kino.Prelude.{
  ℕ, zero, suc, ◌+◌, ◌-◌, ◌^◌, ltb, if◌then◌else◌, Bool, true, false, Option, none, some, List, [],
  ◌∷◌, ◌++◌, map, length, get_elem?, get_or, set, replicate, word,
}
use kino.Shards.{Handoff, handed, all_down, out_of_fuel, hand_off}

-- Where the acceptor's loop stands: before a permit, before a connection, or past its end.
pub data Phase : Type 0 where
  acquiring accepting stopped : Phase

-- `up` is whether the thread is there to receive; `rx` holds what was handed over.
pub record Shard (A : Type 0) : Type 0 where
  pub rx : List A
  pub connections : List A
  pub up : Bool

pub record Plane (A : Type 0) : Type 0 where
  pub acceptor : Phase
  pub available : ℕ
  pub loads : List ℕ
  pub live : List Bool
  pub shards : List (Shard A)
  pub draining : Bool

-- What happens: a permit is acquired, the shutdown is signalled, an accept or its detachment
-- fails, a connection is accepted; or a shard takes a connection from its channel, one of its
-- connections ends, or its thread ends.
pub data Event (A : Type 0) : Type 0 where
  acquire shutdown accept_fails : Event A
  accepts : A → Event A
  takes goes_down : ℕ → Event A
  ends : ℕ → ℕ → Event A

abbrev pub less_one : List ℕ → ℕ → List ℕ
less_one loads i = set loads i (word (get_or loads i 0 + (2 ^ 64 - 1)))

-- The guards of the tasks that the runtime cancels lower the load; a connection that still is in
-- the channel has no guard yet.
pub lower : ℕ → List ℕ → ℕ → List ℕ
lower zero loads i = loads
lower (suc n) loads i = lower n (less_one loads i) i

module _ {A : Type 0} where
  abbrev pub new_shard : Shard A
  new_shard = record { rx = []; connections = []; up = true }

  unfoldable pub plane_of : ℕ → ℕ → Plane A
  plane_of max_connections shard_count = record {
    acceptor = acquiring;
    available = max_connections;
    loads = replicate shard_count 0;
    live = replicate shard_count true;
    shards = replicate shard_count new_shard;
    draining = false;
  }

  abbrev pub is_up : Shard A → Bool
  is_up s = s.up

  -- The shards that a send comes to.
  abbrev pub ups : List (Shard A) → List Bool
  ups shards = map is_up shards

  -- One send more than there are live shards is enough.
  abbrev pub hand_over : Plane A → Handoff × List ℕ × List Bool
  hand_over p = hand_off (suc (length p.live)) (ups p.shards) p.loads p.live

  abbrev pub pushed : List (Shard A) → ℕ → A → List (Shard A)
  pushed shards i conn = elim (get_elem? shards i) [
    | none ↦ shards
    | some s ↦ set shards i (record s { rx = s.rx ++ conn ∷ [] })
  ]

  -- After the inner loop: with no shard left the connection and its permit are dropped.
  pub placed : Plane A → A → Handoff × List ℕ × List Bool → Plane A
  placed p conn (handed i, loads, live) = record p {
    acceptor = acquiring;
    loads = loads;
    live = live;
    shards = pushed p.shards i conn;
  }
  placed p conn (all_down, loads, live) = record p {
    acceptor = stopped;
    available = p.available + 1;
    loads = loads;
    live = live;
    draining = true;
  }
  placed p conn (out_of_fuel, loads, live) = p

  pub acceptor_step : Phase → Event A → Plane A → Plane A
  unfolding placed
  acceptor_step acquiring acquire p =
      if ltb 0 p.available
      then record p { acceptor = accepting; available = p.available - 1 }
      else p
  acceptor_step acquiring shutdown p = record p { acceptor = stopped }
  acceptor_step accepting shutdown p = record p { acceptor = stopped; available = p.available + 1 }
  acceptor_step accepting accept_fails p = record p {
    acceptor = acquiring;
    available = p.available + 1;
  }
  acceptor_step accepting (accepts conn) p = placed p conn (hand_over p)
  acceptor_step _ _ p = p

  abbrev pub with_first : A → Option (A × List A) → Option (A × List A)
  with_first x none = none
  with_first x (some (y, rest)) = some (y, x ∷ rest)

  -- The element at an index, and the others.
  unfoldable pub pick : List A → ℕ → Option (A × List A)
  pick [] k = none
  pick (x ∷ xs) zero = some (x, xs)
  pick (x ∷ xs) (suc k) = with_first x (pick xs k)

  pub take_step : ℕ → Shard A → Plane A → Plane A
  take_step i s p = elim s.rx [
    | [] ↦ p
    | conn ∷ rest ↦ record p {
      shards = set p.shards i (record s { rx = rest; connections = s.connections ++ conn ∷ [] });
    }
  ]

  -- The task returns, panics or is cancelled: its guard lowers the load, its permit is freed.
  pub end_step : ℕ → ℕ → Shard A → Plane A → Plane A
  unfolding pick
  end_step i k s p = elim (pick s.connections k) [
    | none ↦ p
    | some (_, rest) ↦ record p {
      available = p.available + 1;
      loads = less_one p.loads i;
      shards = set p.shards i (record s { connections = rest });
    }
  ]

  pub down_step : ℕ → Shard A → Plane A → Plane A
  unfolding lower
  down_step i s p = record p {
    available = p.available + length s.rx + length s.connections;
    loads = lower (length s.connections) p.loads i;
    shards = set p.shards i (record { rx = []; connections = []; up = false });
  }

  abbrev pub at_shard : ℕ → (Shard A → Plane A → Plane A) → Plane A → Plane A
  at_shard i f p = elim (get_elem? p.shards i) [ none ↦ p | some s ↦ if s.up then f s p else p ]

  unfoldable pub step : Event A → Plane A → Plane A
  unfolding acceptor_step take_step end_step down_step
  step (takes i) p = at_shard i (take_step i) p
  step (ends i k) p = at_shard i (end_step i k) p
  step (goes_down i) p = at_shard i (down_step i) p
  step acquire p = acceptor_step p.acceptor acquire p
  step shutdown p = acceptor_step p.acceptor shutdown p
  step accept_fails p = acceptor_step p.acceptor accept_fails p
  step (accepts conn) p = acceptor_step p.acceptor (accepts conn) p

  unfoldable pub run : List (Event A) → Plane A → Plane A
  unfolding step
  run [] p = p
  run (e ∷ events) p = run events (step e p)
