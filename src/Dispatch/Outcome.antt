-- ===== src/Dispatch/Outcome.antt =====
-- What `try_dispatch` does with a request, on every outcome.
use kino.Prelude.{
  ℕ, ◌+◌, ◌^◌, ◌≤◌, ◌<◌, ◌≡◌, ◌≢◌, refl, ap, sym, ◌∙◌, ◌⊎◌, inl, inr, Bool, true, false, Bool-cases,
  ◌==◌, ==_iff, word, some, List, [], ◌∷◌, length, get_elem?, set, arith,
}
use mathlib.Core.Option.{none-ne-some}
use kino.Flume.{Flume}
use kino.Slot.{WorkerSlot}
use kino.Registry.{ServerInner}
use kino.Dispatch.{
  Swept, took, missed, phases, outcome, try_dispatch, Dispatch, dispatched, retry, closed,
}
use kino.Dispatch.Phases.{Phases, phases-Phases, took-accepts, missed-open, missed-refuses}
use kino.Dispatch.Lane.{IsLane, Took, Refuses, try_lane-Took, try_lane-Refuses}

module _ (F : Flume) {A : Type 0} where
  open F use {Chan}

  -- The request went to the end of one slot's lane, open and not retired; no other slot changed.
  pub record Assigned (ctx : A) (slots slots' : List (WorkerSlot (Chan A))) : Type 0 where
    pub index : ℕ
    pub slot : WorkerSlot (Chan A)
    pub slot' : WorkerSlot (Chan A)
    pub at_index : get_elem? slots index ≡ some slot
    pub took_it : Took F ctx slot slot'
    pub written : slots' ≡ set slots index slot'

  abbrev pub AllSlots : (WorkerSlot (Chan A) → Type 0) → List (WorkerSlot (Chan A)) → Type 0
  AllSlots P slots = (i : ℕ) (slot : WorkerSlot (Chan A)) → get_elem? slots i ≡ some slot → P slot

  -- Three ways that an attempt ends.
  abbrev pub Meets : A → List (WorkerSlot (Chan A)) → List (WorkerSlot (Chan A)) → Dispatch → Type 0
  Meets ctx slots slots' dispatched = Assigned ctx slots slots'
  Meets ctx slots slots' retry =
      (slots' ≡ slots)
      × AllSlots (Refuses F) slots
      × ((slots ≡ [])
          ⊎ (i : ℕ) × (slot : WorkerSlot (Chan A)) × (get_elem? slots i ≡ some slot)
            × (slot.lane_tx ≡ true))
  Meets ctx slots slots' closed =
      (slots' ≡ slots) × (slots ≢ []) × AllSlots (λ slot. slot.lane_tx ≡ false) slots

  nil-of-length : (slots : List (WorkerSlot (Chan A))) → length slots ≡ 0 → slots ≡ []
  nil-of-length [] e = refl
  nil-of-length (s ∷ slots) e = absurd (omega arith)

  refuses-false :
      (slot : WorkerSlot (Chan A)) (b : Bool)
      → (slot.lane_tx ≡ true → b ≡ true)
      → b ≡ false
      → slot.lane_tx ≡ false
  refuses-false slot b h e = ground arith

  swept-Meets :
      (server : ServerInner (Chan A)) (ctx : A) (start : ℕ)
      → start + length server.slots ≤ 2 ^ 64
      → AllSlots (IsLane F) server.slots
      → 0 < length server.slots
      → (r : Swept (Chan A)) → Phases F ctx server.slots start r
      → Meets ctx server.slots (outcome F server r).0.slots (outcome F server r).1
  unfolding outcome
  swept-Meets server ctx start room lanes nonempty (took i slot') p =
      let (slot, here, hit) =
        took-accepts F ctx server.slots start nonempty (took i slot') i slot' p refl in
      record {
        index = i;
        slot = slot;
        slot' = slot';
        at_index = here;
        took_it = try_lane-Took F ctx slot slot' (lanes i slot here) hit;
        written = refl;
      }
  swept-Meets server ctx start room lanes nonempty (missed true) p = (
    refl,
    λ i slot here.
        try_lane-Refuses F ctx slot (lanes i slot here)
          (missed-refuses F ctx server.slots start nonempty (missed true) true room p refl i slot
            here).0,
    inr (missed-open F ctx server.slots start nonempty (missed true) p refl),
  )
  swept-Meets server ctx start room lanes nonempty (missed false) p = (
    refl,
    λ nil. absurd (omega (arith, ap length nil)),
    λ i slot here.
        refuses-false slot false
          (missed-refuses F ctx server.slots start nonempty (missed false) false room p refl i slot
            here).1
          refl,
  )

  -- Every outcome: a request is dispatched to the end of one lane that is open, not retired and not
  -- full; it is handed back only if every slot refuses it and, where there are slots, one is open;
  -- and the server is closed only if every lane is.
  pub try_dispatch-Meets :
      (server : ServerInner (Chan A)) (ctx : A)
      → server.lane_cursor + length server.slots ≤ 2 ^ 64
      → AllSlots (IsLane F) server.slots
      → let (server', d) = try_dispatch F server ctx in Meets ctx server.slots server'.slots d
  unfolding try_dispatch outcome
  try_dispatch-Meets server ctx room lanes = elim (Bool-cases (length server.slots == 0)) [
    | inl empty ↦
        let nil : server.slots ≡ [] = nil-of-length server.slots ((==_iff _ 0).0 empty) in
        rw empty (
          refl,
          λ i slot here. absurd (none-ne-some slot (ap (λ l. get_elem? l i) (sym nil) ∙ here)),
          inl nil,
        )
    | inr some_slots ↦ rw some_slots (
        swept-Meets (record server { lane_cursor = word (server.lane_cursor + 1) }) ctx
          server.lane_cursor room lanes (ground (arith, some_slots))
          (phases F ctx server.slots server.lane_cursor)
          (phases-Phases F ctx server.slots server.lane_cursor))
  ]

  outcome_cases :
      (server : ServerInner (Chan A)) (ctx : A) (start : ℕ)
      → AllSlots (IsLane F) server.slots
      → 0 < length server.slots
      → (r : Swept (Chan A)) → Phases F ctx server.slots start r
      → ((outcome F server r).1 ≡ dispatched)
          × Assigned ctx server.slots (outcome F server r).0.slots
        ⊎ ((outcome F server r).1 ≢ dispatched) × ((outcome F server r).0.slots ≡ server.slots)
  unfolding outcome
  outcome_cases server ctx start lanes nonempty (took i slot') p =
      let (slot, here, hit) =
        took-accepts F ctx server.slots start nonempty (took i slot') i slot' p refl in
      inl (
        refl,
        record {
          index = i;
          slot = slot;
          slot' = slot';
          at_index = here;
          took_it = try_lane-Took F ctx slot slot' (lanes i slot here) hit;
          written = refl;
        },
      )
  outcome_cases server ctx start lanes nonempty (missed true) p = inr (ground arith, refl)
  outcome_cases server ctx start lanes nonempty (missed false) p = inr (ground arith, refl)

  -- Without a condition on the cursor: a request is in one lane after the attempt, or in none.
  pub try_dispatch_cases :
      (server : ServerInner (Chan A)) (ctx : A)
      → AllSlots (IsLane F) server.slots
      → ((try_dispatch F server ctx).1 ≡ dispatched)
          × Assigned ctx server.slots (try_dispatch F server ctx).0.slots
        ⊎ ((try_dispatch F server ctx).1 ≢ dispatched)
          × ((try_dispatch F server ctx).0.slots ≡ server.slots)
  unfolding try_dispatch
  try_dispatch_cases server ctx lanes = elim (Bool-cases (length server.slots == 0)) [
    | inl empty ↦ rw empty (inr (ground arith, refl))
    | inr some_slots ↦ rw some_slots (
        outcome_cases (record server { lane_cursor = word (server.lane_cursor + 1) }) ctx
          server.lane_cursor lanes (ground (arith, some_slots))
          (phases F ctx server.slots server.lane_cursor)
          (phases-Phases F ctx server.slots server.lane_cursor))
  ]
