-- ===== src/Dispatch/Sweep.antt =====
-- One sweep over the lanes, and the choice of the hottest idle lane.
use kino.Prelude.{
  ℕ, zero, suc, ◌+◌, ◌^◌, ◌%◌, ◌≤◌, ◌<◌, ◌≡◌, ap, sym, ◌∙◌, ◌⊎◌, inl, inr, Bool, true, false, ◌||◌,
  Bool-cases, none, some, Option-cases, eq_of_some, List, length, get_elem?, get_elem?-some, word,
  offset_of, offset_of-lt, word-offset_of, arith,
}
use native.Mathlib.Nat.{mod-lt}
use kino.Flume.{Flume}
use kino.Slot.{WorkerSlot}
use kino.Dispatch.{try_lane, sweep, took, missed}

offset_zero : (k : ℕ) → k ≡ k + 0
offset_zero k = omega arith

offset_suc : (k j : ℕ) → k + suc j ≡ k + 1 + j
offset_suc k j = omega arith

module _ (F : Flume) {A : Type 0} where
  open F use {Chan}

  -- The sweep took slot `i`, which it was not to skip.
  pub record Found (skip : WorkerSlot (Chan A) → Bool) (ctx : A)
      (slots : List (WorkerSlot (Chan A))) (i : ℕ) (slot' : WorkerSlot (Chan A)) : Type 0 where
    pub slot : WorkerSlot (Chan A)
    pub at_index : get_elem? slots i ≡ some slot
    pub unskipped : skip slot ≡ false
    pub sent_to : try_lane F ctx slot ≡ some slot'

  module _ (skip : WorkerSlot (Chan A) → Bool) (ctx : A) (slots : List (WorkerSlot (Chan A)))
      (start : ℕ) where
    -- One round: the slot is skipped, refuses, or takes the request.
    abbrev Round : ℕ → ℕ → Bool → Type 0
    Round rounds k any_open =
        (slot : WorkerSlot (Chan A)) × (get_elem? slots (word (start + k) % length slots)
          ≡ some slot)
        × ((skip slot ≡ true)
              × (sweep F skip ctx slots start (suc rounds) k any_open
                  ≡ sweep F skip ctx slots start rounds (k + 1) any_open)
            ⊎ (skip slot ≡ false)
              × (try_lane F ctx slot ≡ none)
              × (sweep F skip ctx slots start (suc rounds) k any_open
                  ≡ sweep F skip ctx slots start rounds (k + 1) (any_open || slot.lane_tx))
            ⊎ (slot' : WorkerSlot (Chan A)) × (skip slot ≡ false)
              × (try_lane F ctx slot ≡ some slot')
              × (sweep F skip ctx slots start (suc rounds) k any_open
                  ≡ took (word (start + k) % length slots) slot'))

    sweep-Round : (rounds k : ℕ) (any_open : Bool) → 0 < length slots → Round rounds k any_open
    unfolding sweep
    sweep-Round rounds k any_open h =
        let (slot, here) =
          get_elem?-some slots (word (start + k) % length slots) (mod-lt (word (start + k)) h) in
        elim (Bool-cases (skip slot)) [
          | inl skipped ↦ (slot, here, inl (skipped, ground (arith, here, skipped)))
          | inr tried ↦ elim (Option-cases (try_lane F ctx slot)) [
            | inl refused ↦
                (slot, here, inr (inl (tried, refused, ground (arith, here, tried, refused))))
            | inr (slot', hit) ↦
                (slot, here, inr (inr (slot', tried, hit, ground (arith, here, tried, hit))))
          ]
        ]

    module _ (nonempty : 0 < length slots) where
      pub sweep-Found :
          (rounds k : ℕ) (any_open : Bool) (i : ℕ) (slot' : WorkerSlot (Chan A))
          → sweep F skip ctx slots start rounds k any_open ≡ took i slot'
          → Found skip ctx slots i slot'
      unfolding sweep
      sweep-Found zero k any_open i slot' e = cc
      sweep-Found (suc rounds) k any_open i slot' e =
          let (slot, here, round) = sweep-Round rounds k any_open nonempty in
          elim round [
            | inl (skipped, same) ↦ sweep-Found rounds (k + 1) any_open i slot' (sym same ∙ e)
            | inr (inl (tried, refused, same)) ↦
                sweep-Found rounds (k + 1) (any_open || slot.lane_tx) i slot' (sym same ∙ e)
            | inr (inr (s, tried, hit, same)) ↦ record {
              slot = slot;
              at_index = ground (arith, here, same, e);
              unskipped = tried;
              sent_to = ground (arith, hit, same, e);
            }
          ]

      -- An open lane that was met before stays reported.
      pub sweep-open :
          (rounds k : ℕ) (any_open any_open' : Bool)
          → sweep F skip ctx slots start rounds k any_open ≡ missed any_open'
          → any_open ≡ true
          → any_open' ≡ true
      unfolding sweep
      sweep-open zero k any_open any_open' e h = cc
      sweep-open (suc rounds) k any_open any_open' e h =
          let (slot, here, round) = sweep-Round rounds k any_open nonempty in
          elim round [
            | inl (skipped, same) ↦ sweep-open rounds (k + 1) any_open any_open' (sym same ∙ e) h
            | inr (inl (tried, refused, same)) ↦
                sweep-open rounds (k + 1) (any_open || slot.lane_tx) any_open' (sym same ∙ e)
                  (ground arith)
            | inr (inr (s, tried, hit, same)) ↦ absurd (ground (arith, same, e))
          ]

      -- What is reported open is a slot with an open lane.
      pub sweep-opened :
          (rounds k : ℕ) (any_open : Bool)
          → sweep F skip ctx slots start rounds k any_open ≡ missed true
          → (any_open ≡ true)
            ⊎ ((i : ℕ) × (slot : WorkerSlot (Chan A)) × (get_elem? slots i ≡ some slot)
                × (slot.lane_tx ≡ true))
      unfolding sweep
      sweep-opened zero k any_open e = inl (ground arith)
      sweep-opened (suc rounds) k any_open e =
          let (slot, here, round) = sweep-Round rounds k any_open nonempty in
          elim round [
            | inl (skipped, same) ↦ sweep-opened rounds (k + 1) any_open (sym same ∙ e)
            | inr (inl (tried, refused, same)) ↦ elim (Bool-cases slot.lane_tx) [
              | inl opened ↦ inr (word (start + k) % length slots, slot, here, opened)
              | inr shut ↦ sweep-opened rounds (k + 1) any_open (ground (arith, same, e, shut))
            ]
            | inr (inr (s, tried, hit, same)) ↦ absurd (ground (arith, same, e))
          ]

      -- What a sweep that took no slot says of a slot: it was to skip it, or the slot refused, and an
      -- open one is reported.
      abbrev pub Passed : Bool → WorkerSlot (Chan A) → Type 0
      Passed any_open slot =
          (skip slot ≡ true)
          ⊎ ((try_lane F ctx slot ≡ none) × (slot.lane_tx ≡ true → any_open ≡ true))

      sweep-Passed_at :
          (rounds k j : ℕ) (any_open any_open' : Bool) (slot : WorkerSlot (Chan A))
          → sweep F skip ctx slots start rounds k any_open ≡ missed any_open'
          → j < rounds
          → get_elem? slots (word (start + (k + j)) % length slots) ≡ some slot
          → Passed any_open' slot
      unfolding sweep
      sweep-Passed_at zero k j any_open any_open' slot e lt here = absurd (omega arith)
      sweep-Passed_at (suc rounds) k zero any_open any_open' slot e lt here =
          let (slot', here', round) = sweep-Round rounds k any_open nonempty in
          let same_slot : slot' ≡ slot = eq_of_some (
            sym here'
            ∙ ap (λ (t : ℕ). get_elem? slots (word (start + t) % length slots)) (offset_zero k)
            ∙ here) in
          elim round [
            | inl (skipped, same) ↦ inl (rw (← same_slot) skipped)
            | inr (inl (tried, refused, same)) ↦ inr (
              rw (← same_slot) refused,
              λ opened.
                  sweep-open rounds (k + 1) (any_open || slot'.lane_tx) any_open' (sym same ∙ e)
                    (ground (arith, same_slot, opened)),
            )
            | inr (inr (s, tried, hit, same)) ↦ absurd (ground (arith, same, e))
          ]
      sweep-Passed_at (suc rounds) k (suc j) any_open any_open' slot e lt here =
          let (slot', here', round) = sweep-Round rounds k any_open nonempty in
          let moved : get_elem? slots (word (start + (k + 1 + j)) % length slots) ≡ some slot =
            ap (λ (t : ℕ). get_elem? slots (word (start + t) % length slots)) (sym (offset_suc k j))
            ∙ here in
          elim round [
            | inl (skipped, same) ↦
                sweep-Passed_at rounds (k + 1) j any_open any_open' slot (sym same ∙ e)
                  (omega arith) moved
            | inr (inl (tried, refused, same)) ↦
                sweep-Passed_at rounds (k + 1) j (any_open || slot'.lane_tx) any_open' slot
                  (sym same ∙ e) (omega arith) moved
            | inr (inr (s, tried, hit, same)) ↦ absurd (ground (arith, same, e))
          ]

      -- A full sweep, from a start that does not wrap, passes every slot.
      pub sweep-Passed :
          (any_open any_open' : Bool) (i : ℕ) (slot : WorkerSlot (Chan A))
          → start + length slots ≤ 2 ^ 64
          → sweep F skip ctx slots start (length slots) 0 any_open ≡ missed any_open'
          → i < length slots
          → get_elem? slots i ≡ some slot
          → Passed any_open' slot
      sweep-Passed any_open any_open' i slot room e lt here =
          sweep-Passed_at (length slots) 0 (offset_of start i (length slots)) any_open any_open'
            slot e (offset_of-lt start i (length slots) lt)
            (ap (get_elem? slots) (
                ap (λ (t : ℕ). word (start + t) % length slots) (omega arith)
                ∙ word-offset_of start i (length slots) room lt)
              ∙ here)
