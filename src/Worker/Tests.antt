-- ===== src/Worker/Tests.antt =====
-- Workers on small servers.
use kino.Prelude.{
  ℕ, ◌≤◌, ◌<◌, ◌≡◌, refl, ◌⊎◌, true, false, none, some, List, [], ◌∷◌, ◌++◌, map, length,
  length-set, get_elem?, set, arith,
}
use kino.Flume.{Fifo, fifo}
use kino.Slot.{WorkerSlot}
use kino.Sample.{lane_of, awake, server_with}
use kino.Registry.{ServerInner}
use kino.Gvl.{finished, interruptible}
use kino.Gvl.Raised.{Ended}
use kino.Worker.{
  recv_lane, steal, lane_attempt, interrupted_flag, flatten, park, unpark, unpark_after,
  parked_wait, lane_take, take_batch,
}
use kino.Worker.Steal.{Drained, Stole}
use kino.Worker.Take.{parked_wait-Ended, lane_take-Stole, IsWorker}
use kino.Worker.Batch.{take_batch_lem}

abbrev going_home : WorkerSlot (Fifo ℕ)
going_home = record (awake (5 ∷ 6 ∷ [])) { retired = true }

abbrev siblings : List (WorkerSlot (Fifo ℕ))
siblings = awake (1 ∷ []) ∷ awake [] ∷ awake (2 ∷ 3 ∷ []) ∷ []

steals_second : (steal fifo 0 0 siblings).0 ≡ some 2
unfolding steal recv_lane
steals_second = refl

abbrev two : ServerInner (Fifo ℕ)
two = server_with (awake [] ∷ awake [] ∷ [])

-- Another thread puts a request into the first lane.
abbrev arrive : ServerInner (Fifo ℕ) → ServerInner (Fifo ℕ)
arrive server = record server { slots = set server.slots 0 (awake (8 ∷ [])) }

abbrev raise : ServerInner (Fifo ℕ) → ServerInner (Fifo ℕ)
raise server = record server {
  slots = set server.slots 0 (record (awake []) { interrupted = true });
}

abbrev after_wait : ServerInner (Fifo ℕ)
after_wait = record two { park_seq = 1; slots = awake [] ∷ awake [] ∷ [] }

waits_for_arrival : parked_wait fifo 0 (arrive ∷ []) two ≡ finished (some 8) after_wait
unfolding parked_wait flatten unpark_after interruptible interrupted_flag lane_attempt park unpark
waits_for_arrival = refl

arrive-IsWorker : (u : ServerInner (Fifo ℕ)) → IsWorker fifo 0 u → IsWorker fifo 0 (arrive u)
arrive-IsWorker u there = omega (arith, there, length-set u.slots 0 (awake (8 ∷ [])))

raises : (u : ServerInner (Fifo ℕ)) → IsWorker fifo 0 u → interrupted_flag fifo 0 (raise u) ≡ true
unfolding interrupted_flag
raises u there = first u.slots there
  where
    first :
        (slots : List (WorkerSlot (Fifo ℕ)))
        → 0 < length slots
        → elim (get_elem? (set slots 0 (record (awake []) { interrupted = true })) 0) [
          | none ↦ false
          | some slot ↦ slot.interrupted
        ]
          ≡ true
    first [] h = absurd (omega (arith, h))
    first (s ∷ slots) h = refl

parked_wait-Ended_example : Ended (parked_wait fifo 0 (arrive ∷ raise ∷ arrive ∷ []) two)
parked_wait-Ended_example =
    parked_wait-Ended fifo 0 (arrive ∷ []) [] raise arrive two (omega arith) (arrive-IsWorker, _)
      raises

abbrev robbed : ServerInner (Fifo ℕ)
robbed = server_with (awake [] ∷ awake (5 ∷ 6 ∷ []) ∷ [])

lane_take-Stole_example :
    (Drained fifo 0 0 robbed.slots
      × (lane_take fifo 0 (lane_of []) (awake []) [] robbed ≡ parked_wait fifo 0 [] robbed))
    ⊎ ((ctx : ℕ) × (slots' : List (WorkerSlot (Fifo ℕ))) × Stole fifo 0 0 robbed.slots ctx slots'
        × (lane_take fifo 0 (lane_of []) (awake []) [] robbed
            ≡ finished (some ctx) (record robbed { slots = slots' })))
lane_take-Stole_example =
    lane_take-Stole fifo 0 (lane_of []) (awake []) [] robbed refl (omega arith)

abbrev backlog : ServerInner (Fifo ℕ)
backlog = record (server_with (awake [] ∷ [])) { req_rx = lane_of (2 ∷ 3 ∷ 4 ∷ []) }

take_batch_lem_example :
    let (batch, server') = take_batch fifo (λ c. c) (λ c. 10) 7 0 3 1 backlog in
    (rest : List ℕ) × (batch ≡ 1 ∷ rest)
    × (2 ∷ 3 ∷ 4 ∷ [] ≡ rest ++ server'.req_rx.items)
    × (length batch ≤ 3)
    × ((length batch ≡ 3) ⊎ (server'.req_rx.items ≡ []))
    × (slot' : WorkerSlot (Fifo ℕ)) × (get_elem? server'.slots 0 ≡ some slot')
    × (slot'.current ≡ [] ++ map (λ c. c) batch)
take_batch_lem_example =
    take_batch_lem fifo (λ c. c) (λ c. 10) 7 0 3 1 backlog (awake []) refl (omega arith)
