-- ===== src/Dispatch/Lane.antt =====
-- One lane: when it takes a request, and what it refuses for.
use kino.Prelude.{
  ◌≤◌, ◌<◌, ◌≡◌, ◌⊎◌, inl, inr, true, false, Bool-cases, none, some, Option-cases, [], ◌∷◌, ◌++◌,
  length, arith,
}
use kino.Flume.{Flume}
use kino.Slot.{WorkerSlot, lane_depth}
use kino.Dispatch.{try_lane}

module _ (F : Flume) {A : Type 0} where
  open F use {Chan, try_send, try_send_cases, items, capacity, receivers}

  -- A lane is bounded and its receiver is there: the slot keeps it.
  abbrev pub IsLane : WorkerSlot (Chan A) → Type 0
  IsLane slot =
      (lane : Chan A)
      → slot.lane_rx ≡ some lane
      → (capacity lane ≡ lane_depth) × (length (items lane) ≤ lane_depth) × (0 < receivers lane)

  -- The slot took the request, at the end of its lane, and is otherwise unchanged.
  pub record Took (ctx : A) (slot slot' : WorkerSlot (Chan A)) : Type 0 where
    pub open_lane : slot.lane_tx ≡ true
    pub active : slot.retired ≡ false
    pub before : Chan A
    pub after : Chan A
    pub has_lane : slot.lane_rx ≡ some before
    pub replaced : slot' ≡ record slot { lane_rx = some after }
    pub appended : items after ≡ items before ++ ctx ∷ []
    pub room : length (items before) < lane_depth
    pub bounded : (capacity after ≡ lane_depth) × (0 < receivers after)

  -- Why a slot takes no request.
  abbrev pub Refuses : WorkerSlot (Chan A) → Type 0
  Refuses slot =
      (slot.lane_tx ≡ false)
      ⊎ (slot.retired ≡ true)
      ⊎ (slot.lane_rx ≡ none)
      ⊎ ((lane : Chan A) × (slot.lane_rx ≡ some lane) × (lane_depth ≤ length (items lane)))

  try_lane-some :
      (ctx : A) (slot slot' : WorkerSlot (Chan A)) (lane : Chan A)
      → IsLane slot
      → slot.lane_rx ≡ some lane
      → try_lane F ctx slot ≡ some slot'
      → Took ctx slot slot'
  unfolding try_lane
  try_lane-some ctx slot slot' lane v e h =
      elim (try_send_cases lane ctx (omega (arith, v lane e))) [
        | inl (lane', s, room, app, cap, snd, rcv) ↦ record {
          open_lane = ground (arith, e);
          active = ground (arith, e);
          before = lane;
          after = lane';
          has_lane = e;
          replaced = ground (arith, e, s);
          appended = app;
          room = ground (arith, v lane e);
          bounded = ground (arith, v lane e);
        }
        | inr (inl f) ↦ absurd (ground (arith, e, f))
        | inr (inr g) ↦ absurd (omega (arith, v lane e, g.1))
      ]

  pub try_lane-Took :
      (ctx : A) (slot slot' : WorkerSlot (Chan A))
      → IsLane slot
      → try_lane F ctx slot ≡ some slot'
      → Took ctx slot slot'
  unfolding try_lane
  try_lane-Took ctx slot slot' v h = elim (Option-cases slot.lane_rx) [
    | inl e ↦ absurd (ground (arith, e))
    | inr (lane, e) ↦ try_lane-some ctx slot slot' lane v e h
  ]

  try_lane-none :
      (ctx : A) (slot : WorkerSlot (Chan A)) (lane : Chan A)
      → IsLane slot
      → slot.lane_rx ≡ some lane
      → try_lane F ctx slot ≡ none
      → Refuses slot
  unfolding try_lane
  try_lane-none ctx slot lane v e h = elim (try_send_cases lane ctx (omega (arith, v lane e))) [
    | inl (lane', s, room, app, cap, snd, rcv) ↦ elim (Bool-cases slot.lane_tx) [
      | inl opened ↦ inr (inl (ground (arith, e, s)))
      | inr shut ↦ inl shut
    ]
    | inr (inl f) ↦ inr (inr (inr (lane, e, omega (arith, v lane e, f.1))))
    | inr (inr g) ↦ absurd (omega (arith, v lane e, g.1))
  ]

  pub try_lane-Refuses :
      (ctx : A) (slot : WorkerSlot (Chan A))
      → IsLane slot
      → try_lane F ctx slot ≡ none
      → Refuses slot
  unfolding try_lane
  try_lane-Refuses ctx slot v h = elim (Option-cases slot.lane_rx) [
    | inl e ↦ inr (inr (inl e))
    | inr (lane, e) ↦ try_lane-none ctx slot lane v e h
  ]
