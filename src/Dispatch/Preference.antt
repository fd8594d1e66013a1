-- ===== src/Dispatch/Preference.antt =====
-- Which slot a request goes to when several would take it.
use kino.Prelude.{
  ℕ, ◌+◌, ◌^◌, ◌≤◌, ◌<◌, ◌≡◌, ◌≢◌, ap, sym, ◌∙◌, inl, inr, Bool, true, false, ◌==◌, word, none,
  some, List, length, get_elem?, get_elem?-lt, set, arith,
}
use mathlib.Core.Option.{none-ne-some}
use kino.Flume.{Flume}
use kino.Slot.{WorkerSlot}
use kino.Registry.{ServerInner}
use kino.Dispatch.{
  try_lane, took, missed, is_idle_lane, phases, awake_phase, outcome, try_dispatch, dispatched,
}
use kino.Dispatch.Phases.{Phases, by_awake, by_hottest, by_any, phases-Phases, idle_phase-missed}
use kino.Dispatch.Hottest.{Hottest, hottest-Hottest, hottest-none}
use kino.Dispatch.Sweep.{sweep-Found, sweep-Passed}

module _ (F : Flume) {A : Type 0} (ctx : A) where
  open F use {Chan}

  -- A slot of the list that would take the request.
  pub record Accepts (slots : List (WorkerSlot (Chan A))) (i : ℕ) (slot slot' : WorkerSlot (Chan A))
      : Type 0 where
    pub at_index : get_elem? slots i ≡ some slot
    pub accepted : try_lane F ctx slot ≡ some slot'

  module _ (server : ServerInner (Chan A))
      (room : server.lane_cursor + length server.slots ≤ 2 ^ 64) where
    -- The attempt gave the request to slot `i`.
    abbrev pub Chose : ℕ → WorkerSlot (Chan A) → Type 0
    Chose i slot =
        (slot' : WorkerSlot (Chan A)) × Accepts server.slots i slot slot'
        × (try_dispatch F server ctx ≡ (
          record server {
            lane_cursor = word (server.lane_cursor + 1);
            slots = set server.slots i slot';
          },
          dispatched,
        ))

    chosen :
        (i : ℕ) (slot slot' : WorkerSlot (Chan A))
        → Accepts server.slots i slot slot'
        → phases F ctx server.slots server.lane_cursor ≡ took i slot'
        → Chose i slot
    unfolding try_dispatch outcome
    chosen i slot slot' a e =
        let some_slots : (length server.slots == 0) ≡ false =
          ground (arith, get_elem?-lt server.slots i slot a.at_index) in
        (slot', a, rw (some_slots, e))

    -- A worker that is awake is preferred: if one would take the request, one gets it.
    pub awake_first :
        (i : ℕ) (slot slot' : WorkerSlot (Chan A))
        → Accepts server.slots i slot slot'
        → slot.parked ≡ false
        → (j : ℕ) × (chosen_slot : WorkerSlot (Chan A)) × (chosen_slot.parked ≡ false)
          × Chose j chosen_slot
    unfolding awake_phase
    awake_first i slot slot' a awake = decide (phases-Phases F ctx server.slots server.lane_cursor)
      where
        nonempty : 0 < length server.slots
        nonempty = omega (arith, get_elem?-lt server.slots i slot a.at_index)

        missed_it :
            (open1 : Bool) → awake_phase F ctx server.slots server.lane_cursor ≡ missed open1 → ⊥
        missed_it open1 e =
            elim (sweep-Passed F (λ t. t.parked) ctx server.slots server.lane_cursor nonempty false
              open1 i slot room e (get_elem?-lt server.slots i slot a.at_index) a.at_index) [
                | inl parked ↦ cc
                | inr (refused, _) ↦ none-ne-some slot' (sym refused ∙ a.accepted)
              ]

        decide :
            Phases F ctx server.slots server.lane_cursor
              (phases F ctx server.slots server.lane_cursor)
            → (j : ℕ) × (chosen_slot : WorkerSlot (Chan A)) × (chosen_slot.parked ≡ false)
              × Chose j chosen_slot
        decide (by_awake j s e q) =
            let found =
              sweep-Found F (λ t. t.parked) ctx server.slots server.lane_cursor nonempty
                (length server.slots) 0 false j s e in
            (
              j,
              found.slot,
              found.unskipped,
              chosen j found.slot s (record { at_index = found.at_index; accepted = found.sent_to })
                  q,
            )
        decide (by_hottest open1 j t s e hot hit q) = absurd (missed_it open1 e)
        decide (by_any open1 open2 e idle q) = absurd (missed_it open1 e)

    -- With every awake worker refusing, the request wakes the idle worker that parked last, if that
    -- one would take it, whatever the other idle workers would do.
    pub Hottest-second :
        (i : ℕ) (slot : WorkerSlot (Chan A))
        → ((k : ℕ) (other : WorkerSlot (Chan A))
            → get_elem? server.slots k ≡ some other
            → other.parked ≡ false
            → try_lane F ctx other ≡ none)
        → get_elem? server.slots i ≡ some slot
        → is_idle_lane F slot ≡ true
        → ((k : ℕ) (other : WorkerSlot (Chan A))
            → Hottest F 0 server.slots k other
            → try_lane F ctx other ≢ none)
        → (j : ℕ) × (chosen_slot : WorkerSlot (Chan A)) × Hottest F 0 server.slots j chosen_slot
          × Chose j chosen_slot
    unfolding awake_phase
    Hottest-second i slot refuse here idle accept =
        decide (phases-Phases F ctx server.slots server.lane_cursor)
      where
        nonempty : 0 < length server.slots
        nonempty = omega (arith, get_elem?-lt server.slots i slot here)

        decide :
            Phases F ctx server.slots server.lane_cursor
              (phases F ctx server.slots server.lane_cursor)
            → (j : ℕ) × (chosen_slot : WorkerSlot (Chan A)) × Hottest F 0 server.slots j chosen_slot
              × Chose j chosen_slot
        decide (by_awake j s e q) =
            let found =
              sweep-Found F (λ t. t.parked) ctx server.slots server.lane_cursor nonempty
                (length server.slots) 0 false j s e in
            absurd (
              none-ne-some s
                (sym (refuse j found.slot found.at_index found.unskipped) ∙ found.sent_to))
        decide (by_hottest open1 j t s e hot hit q) =
            let h = hottest-Hottest F 0 server.slots j t hot in
            (
              j,
              t,
              h,
              chosen j t s
                  (record {
                    at_index =
                        ap (get_elem? server.slots) (omega (arith, h.at_index.1)) ∙ h.at_index.2;
                    accepted = hit;
                  })
                  q,
            )
        decide (by_any open1 open2 e missed_idle q) =
            elim (idle_phase-missed F ctx server.slots open1 open2 missed_idle) [
              | inl none_idle ↦
                  absurd (ground (arith, idle, hottest-none F 0 server.slots i slot none_idle here))
              | inr (j, t, hot, refused) ↦
                  let h = hottest-Hottest F 0 server.slots j t hot in absurd (accept j t h refused)
            ]
