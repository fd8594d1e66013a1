-- ===== src/Dispatch/Hottest.antt =====
-- The idle worker that a burst wakes: the one that parked last.
use kino.Prelude.{
  ℕ, zero, suc, ◌+◌, ◌≤◌, ◌≡◌, ap, subst, sym, inl, inr, true, false, Bool-cases, none, some,
  Option-cases, List, [], ◌∷◌, get_elem?, arith, leb,
}
use mathlib.Core.Option.{none-ne-some}
use kino.Flume.{Flume}
use kino.Slot.{WorkerSlot}
use kino.Dispatch.{is_idle_lane, hottest, later_max}

module _ (F : Flume) {A : Type 0} where
  open F use {Chan}

  -- The hottest idle slot is idle, is where its index says, and no idle slot parked later.
  pub record Hottest (i : ℕ) (slots : List (WorkerSlot (Chan A))) (j : ℕ)
      (slot : WorkerSlot (Chan A)) : Type 0 where
    pub at_index : (k : ℕ) × (j ≡ i + k) × (get_elem? slots k ≡ some slot)
    pub idle : is_idle_lane F slot ≡ true
    pub latest :
        (k : ℕ) (other : WorkerSlot (Chan A))
        → get_elem? slots k ≡ some other
        → is_idle_lane F other ≡ true
        → other.parked_at ≤ slot.parked_at

  pub hottest-none :
      (i : ℕ) (slots : List (WorkerSlot (Chan A))) (k : ℕ) (other : WorkerSlot (Chan A))
      → hottest F i slots ≡ none
      → get_elem? slots k ≡ some other
      → is_idle_lane F other ≡ false
  unfolding hottest
  hottest-none i [] k other e here = cc
  hottest-none i (s ∷ slots) zero other e here = ground arith
  hottest-none i (s ∷ slots) (suc k) other e here =
      hottest-none (i + 1) slots k other (ground arith) here

  abbrev Latest : List (WorkerSlot (Chan A)) → WorkerSlot (Chan A) → Type 0
  Latest slots slot =
      (k : ℕ) (other : WorkerSlot (Chan A))
      → get_elem? slots k ≡ some other
      → is_idle_lane F other ≡ true
      → other.parked_at ≤ slot.parked_at

  Latest-cons :
      (s : WorkerSlot (Chan A)) (slots : List (WorkerSlot (Chan A))) (slot : WorkerSlot (Chan A))
      → (is_idle_lane F s ≡ true → s.parked_at ≤ slot.parked_at)
      → Latest slots slot
      → Latest (s ∷ slots) slot
  Latest-cons s slots slot first rest zero other here idle = ground arith
  Latest-cons s slots slot first rest (suc k) other here idle = rest k other here idle

  Hottest-cons_busy :
      (i : ℕ) (s : WorkerSlot (Chan A)) (slots : List (WorkerSlot (Chan A))) (j : ℕ)
      (slot : WorkerSlot (Chan A))
      → is_idle_lane F s ≡ false
      → Hottest (i + 1) slots j slot
      → Hottest i (s ∷ slots) j slot
  Hottest-cons_busy i s slots j slot busy h = record {
    at_index = (suc h.at_index.0, omega (arith, h.at_index.1), h.at_index.2);
    idle = h.idle;
    latest = Latest-cons s slots slot (λ free. absurd (ground (arith, free, busy))) h.latest;
  }

  Hottest-cons_free :
      (i : ℕ) (s : WorkerSlot (Chan A)) (slots : List (WorkerSlot (Chan A))) (j : ℕ)
      (slot : WorkerSlot (Chan A))
      → (j ≡ i) × (slot ≡ s)
      → is_idle_lane F s ≡ true
      → Latest slots s
      → Hottest i (s ∷ slots) j slot
  Hottest-cons_free i s slots j slot (ej, es) free rest = record {
    at_index = (0, omega (arith, ej), ap some (sym es));
    idle = rw es free;
    latest = rw es (Latest-cons s slots s (λ _. omega arith) rest);
  }

  Hottest-cons_best :
      (i : ℕ) (s : WorkerSlot (Chan A)) (slots : List (WorkerSlot (Chan A))) (j : ℕ)
      (slot : WorkerSlot (Chan A)) (j' : ℕ) (best : WorkerSlot (Chan A))
      → is_idle_lane F s ≡ true
      → Hottest (i + 1) slots j' best
      → later_max F i s (some (j', best)) ≡ (j, slot)
      → Hottest i (s ∷ slots) j slot
  unfolding later_max
  Hottest-cons_best i s slots j slot j' best free h e =
      elim (Bool-cases (leb s.parked_at best.parked_at)) [
        | inl older ↦
            let same : best ≡ slot = ground (arith, older) in
            record {
              at_index = (
                suc h.at_index.0,
                ground (arith, h.at_index.1, older),
                ground (arith, h.at_index.2, older),
              );
              idle = ground (arith, h.idle, older);
              latest =
                  subst (Latest (s ∷ slots)) same
                    (Latest-cons s slots best (λ _. ground arith) h.latest);
            }
        | inr newer ↦
            Hottest-cons_free i s slots j slot (ground (arith, newer)) free
              (λ k other here idle. ground (arith, newer, h.latest k other here idle))
      ]

  pub hottest-Hottest :
      (i : ℕ) (slots : List (WorkerSlot (Chan A))) (j : ℕ) (slot : WorkerSlot (Chan A))
      → hottest F i slots ≡ some (j, slot)
      → Hottest i slots j slot
  unfolding hottest
  hottest-Hottest i [] j slot e = absurd (none-ne-some (j, slot) e)
  hottest-Hottest i (s ∷ slots) j slot e = elim (Bool-cases (is_idle_lane F s)) [
    | inr busy ↦
        Hottest-cons_busy i s slots j slot busy
          (hottest-Hottest (i + 1) slots j slot (ground (arith, busy)))
    | inl free ↦ elim (Option-cases (hottest F (i + 1) slots)) [
      | inl alone ↦
          Hottest-cons_free i s slots j slot (ground (arith, free, alone)) free
            (λ k other here idle.
              absurd (ground (arith, idle, hottest-none (i + 1) slots k other alone here)))
      | inr ((j', best), more) ↦
          Hottest-cons_best i s slots j slot j' best free
            (hottest-Hottest (i + 1) slots j' best more) (ground (arith, free, more))
    ]
  ]
