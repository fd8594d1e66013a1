-- ===== src/Dispatch.antt =====
-- ext/kino/src/server.rs, `try_dispatch` and `dispatch_to_lane`: which worker's lane gets a request.
-- One attempt is one atomic action on the slots: each lane is tried under its lock.
pub mod Lane
pub mod Sweep
pub mod Hottest
pub mod Phases
pub mod Outcome
pub mod Preference
pub mod Accounts
mod Tests
use kino.Prelude.{
  ℕ, zero, suc, ◌+◌, ◌%◌, ◌==◌, leb, if◌then◌else◌, Bool, true, false, not, ◌&&◌, ◌||◌, Option,
  none, some, List, [], ◌∷◌, length, get_elem?, set, word,
}
use kino.Flume.{Flume, TrySend, sent, full}
use kino.Slot.{WorkerSlot}
use kino.Registry.{ServerInner, len}

-- What the sweeps over the lanes come to: the slot that took the request, or none, with whether an
-- open lane was met.
pub data Swept (C : Type 0) : Type 0 where
  took : ℕ → WorkerSlot C → Swept C
  missed : Bool → Swept C

-- `Dispatch`; `retry` is `Dispatch::Full`, which hands the request back.
pub data Dispatch : Type 0 where
  dispatched retry closed : Dispatch

module _ (F : Flume) {A : Type 0} where
  open F use {Chan, try_send, items}

  -- The closure `try_lane`: the slot after the send, or none. It also notes an open lane.
  pub try_lane : A → WorkerSlot (Chan A) → Option (WorkerSlot (Chan A))
  try_lane ctx slot =
      if not slot.lane_tx then none else if slot.retired then none else elim slot.lane_rx [
        | none ↦ none
        | some lane ↦ elim (try_send lane ctx) [
          | sent lane' ↦ some (record slot { lane_rx = some lane' })
          | _ ↦ none
        ]
      ]

  -- `for k in k..n`, over the slots from `start` on: `rounds` are left.
  pub sweep :
      (WorkerSlot (Chan A) → Bool)
      → A
      → List (WorkerSlot (Chan A))
      → ℕ
      → ℕ
      → ℕ
      → Bool
      → Swept (Chan A)
  sweep skip ctx slots start zero k any_open = missed any_open
  sweep skip ctx slots start (suc rounds) k any_open =
      let index = word (start + k) % length slots in
      elim (get_elem? slots index) [
        | none ↦ missed any_open
        | some slot ↦ elim (skip slot) [
          | true ↦ sweep skip ctx slots start rounds (k + 1) any_open
          | false ↦ elim (try_lane ctx slot) [
            | some slot' ↦ took index slot'
            | none ↦ sweep skip ctx slots start rounds (k + 1) (any_open || slot.lane_tx)
          ]
        ]
      ]

  pub is_idle_lane : WorkerSlot (Chan A) → Bool
  is_idle_lane slot = slot.parked && elim slot.lane_rx [ none ↦ false | some rx ↦ len F rx == 0 ]

  -- `max_by_key` keeps the last of equals.
  later_max : ℕ → WorkerSlot (Chan A) → Option (ℕ × WorkerSlot (Chan A)) → ℕ × WorkerSlot (Chan A)
  later_max i slot none = (i, slot)
  later_max i slot (some (j, best)) =
      if leb slot.parked_at best.parked_at then (j, best) else (i, slot)

  -- The idle worker that parked last, among the slots from the `i`-th on.
  pub hottest : ℕ → List (WorkerSlot (Chan A)) → Option (ℕ × WorkerSlot (Chan A))
  unfolding is_idle_lane later_max
  hottest i [] = none
  hottest i (slot ∷ slots) =
      let rest = hottest (i + 1) slots in
      if is_idle_lane slot then some (later_max i slot rest) else rest

  try_hottest : A → Option (ℕ × WorkerSlot (Chan A)) → Bool → Swept (Chan A)
  try_hottest ctx none any_open = missed any_open
  try_hottest ctx (some (i, slot)) any_open = elim (try_lane ctx slot) [
    | some slot' ↦ took i slot'
    | none ↦ missed (any_open || slot.lane_tx)
  ]

  -- The three phases: awake lanes, the hottest idle lane, any lane.
  pub awake_phase : A → List (WorkerSlot (Chan A)) → ℕ → Swept (Chan A)
  awake_phase ctx slots start = sweep (λ s. s.parked) ctx slots start (length slots) 0 false

  pub idle_phase : A → List (WorkerSlot (Chan A)) → Swept (Chan A) → Swept (Chan A)
  idle_phase ctx slots (took i slot) = took i slot
  idle_phase ctx slots (missed any_open) = try_hottest ctx (hottest 0 slots) any_open

  any_phase : A → List (WorkerSlot (Chan A)) → ℕ → Swept (Chan A) → Swept (Chan A)
  any_phase ctx slots start (took i slot) = took i slot
  any_phase ctx slots start (missed any_open) =
      sweep (λ s. false) ctx slots start (length slots) 0 any_open

  pub phases : A → List (WorkerSlot (Chan A)) → ℕ → Swept (Chan A)
  phases ctx slots start =
      any_phase ctx slots start (idle_phase ctx slots (awake_phase ctx slots start))

  pub outcome : ServerInner (Chan A) → Swept (Chan A) → ServerInner (Chan A) × Dispatch
  outcome server (took i slot) = (record server { slots = set server.slots i slot }, dispatched)
  outcome server (missed any_open) = (server, if any_open then retry else closed)

  pub try_dispatch : ServerInner (Chan A) → A → ServerInner (Chan A) × Dispatch
  try_dispatch server ctx =
      if length server.slots == 0
      then (server, retry)
      else outcome (record server { lane_cursor = word (server.lane_cursor + 1) })
          (phases ctx server.slots server.lane_cursor)
