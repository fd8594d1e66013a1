-- ===== src/Dispatch/Phases.antt =====
-- The three phases of an attempt, and what each says when it ends.
use kino.Prelude.{
  ℕ, ◌+◌, ◌^◌, ◌≤◌, ◌<◌, ◌≡◌, refl, ap, sym, ◌∙◌, ◌⊎◌, inl, inr, Bool, true, false, ◌||◌,
  Bool-cases, none, some, Option-cases, List, length, get_elem?, get_elem?-lt, arith,
}
use kino.Flume.{Flume}
use kino.Slot.{WorkerSlot}
use kino.Dispatch.{
  try_lane, sweep, Swept, took, missed, hottest, phases, awake_phase, idle_phase, any_phase,
  try_hottest,
}
use kino.Dispatch.Hottest.{hottest-Hottest}
use kino.Dispatch.Sweep.{sweep-Found, sweep-opened, sweep-Passed}

module _ (F : Flume) {A : Type 0} where
  open F use {Chan}

  Swept-cases :
      (r : Swept (Chan A))
      → ((b : Bool) × (r ≡ missed b)) ⊎ (i : ℕ) × (s : WorkerSlot (Chan A)) × (r ≡ took i s)
  Swept-cases (missed b) = inl (b, refl)
  Swept-cases (took i s) = inr (i, s, refl)

  -- The second phase takes no request if no lane is idle, or the hottest idle one refuses.
  pub idle_phase-missed :
      (ctx : A) (slots : List (WorkerSlot (Chan A))) (open1 open2 : Bool)
      → idle_phase F ctx slots (missed open1) ≡ missed open2
      → (hottest F 0 slots ≡ none)
        ⊎ (j : ℕ) × (slot : WorkerSlot (Chan A)) × (hottest F 0 slots ≡ some (j, slot))
          × (try_lane F ctx slot ≡ none)
  unfolding idle_phase try_hottest
  idle_phase-missed ctx slots open1 open2 e = elim (Option-cases (hottest F 0 slots)) [
    | inl none_idle ↦ inl none_idle
    | inr ((j, slot), hot) ↦ elim (Option-cases (try_lane F ctx slot)) [
      | inl refused ↦ inr (j, slot, hot, refused)
      | inr (s, hit) ↦ absurd (ground (arith, hot, hit, e))
    ]
  ]

  module _ (ctx : A) (slots : List (WorkerSlot (Chan A))) (start : ℕ) where
    -- Which phase decides.
    pub data Phases (r : Swept (Chan A)) : Type 0 where
      by_awake :
          (i : ℕ) (slot' : WorkerSlot (Chan A))
          → awake_phase F ctx slots start ≡ took i slot'
          → r ≡ took i slot'
          → Phases r
      by_hottest :
          (open1 : Bool) (i : ℕ) (slot slot' : WorkerSlot (Chan A))
          → awake_phase F ctx slots start ≡ missed open1
          → hottest F 0 slots ≡ some (i, slot)
          → try_lane F ctx slot ≡ some slot'
          → r ≡ took i slot'
          → Phases r
      by_any :
          (open1 open2 : Bool)
          → awake_phase F ctx slots start ≡ missed open1
          → idle_phase F ctx slots (missed open1) ≡ missed open2
          → r ≡ sweep F (λ s. false) ctx slots start (length slots) 0 open2
          → Phases r

    by_idle_phase :
        (open1 : Bool)
        → awake_phase F ctx slots start ≡ missed open1
        → Phases (phases F ctx slots start)
    unfolding phases any_phase idle_phase try_hottest
    by_idle_phase open1 e = elim (Option-cases (hottest F 0 slots)) [
      | inl none_idle ↦
          by_any open1 open1 e (ground (arith, none_idle)) (ground (arith, e, none_idle))
      | inr ((i, slot), idle) ↦ elim (Option-cases (try_lane F ctx slot)) [
        | inl refused ↦
            by_any open1 (open1 || slot.lane_tx) e (ground (arith, idle, refused))
              (ground (arith, e, idle, refused))
        | inr (slot', hit) ↦ by_hottest open1 i slot slot' e idle hit (ground (arith, e, idle, hit))
      ]
    ]

    pub phases-Phases : Phases (phases F ctx slots start)
    unfolding phases any_phase idle_phase
    phases-Phases = elim (Swept-cases (awake_phase F ctx slots start)) [
      | inl (open1, e) ↦ by_idle_phase open1 e
      | inr (i, slot', e) ↦ by_awake i slot' e (ground (arith, e))
    ]

    module _ (nonempty : 0 < length slots) where
      hottest_at :
          (i : ℕ) (slot : WorkerSlot (Chan A))
          → hottest F 0 slots ≡ some (i, slot)
          → get_elem? slots i ≡ some slot
      hottest_at i slot e =
          let h = hottest-Hottest F 0 slots i slot e in
          ap (get_elem? slots) (omega (arith, h.at_index.1)) ∙ h.at_index.2

      -- Whoever takes the request, in whichever phase, is a slot that `try_lane` accepts.
      pub took-accepts :
          (r : Swept (Chan A)) (i : ℕ) (slot' : WorkerSlot (Chan A))
          → Phases r
          → r ≡ took i slot'
          → (slot : WorkerSlot (Chan A)) × (get_elem? slots i ≡ some slot)
            × (try_lane F ctx slot ≡ some slot')
      unfolding awake_phase
      took-accepts r i slot' (by_awake j s awake e) q =
          let found =
            sweep-Found F (λ t. t.parked) ctx slots start nonempty (length slots) 0 false i slot'
              (awake ∙ sym e ∙ q) in
          (found.slot, found.at_index, found.sent_to)
      took-accepts r i slot' (by_hottest open1 j slot s awake idle hit e) q =
          (slot, hottest_at i slot (ground (arith, idle, e, q)), ground (arith, hit, e, q))
      took-accepts r i slot' (by_any open1 open2 awake idle e) q =
          let found =
            sweep-Found F (λ t. false) ctx slots start nonempty (length slots) 0 open2 i slot'
              (sym e ∙ q) in
          (found.slot, found.at_index, found.sent_to)

      abbrev pub SomeOpen : Type 0
      SomeOpen =
          (i : ℕ) × (slot : WorkerSlot (Chan A)) × (get_elem? slots i ≡ some slot)
          × (slot.lane_tx ≡ true)

      awake-open :
          (open1 : Bool) → awake_phase F ctx slots start ≡ missed open1 → open1 ≡ true → SomeOpen
      unfolding awake_phase
      awake-open open1 awake e =
          elim (sweep-opened F (λ t. t.parked) ctx slots start nonempty (length slots) 0 false
            (awake ∙ ap missed e)) [ inl impossible ↦ cc | inr found ↦ found ]

      pub missed-open : (r : Swept (Chan A)) → Phases r → r ≡ missed true → SomeOpen
      unfolding awake_phase idle_phase try_hottest
      missed-open r (by_awake j s awake e) q = absurd (ground (arith, e, q))
      missed-open r (by_hottest open1 j slot s awake idle hit e) q = absurd (ground (arith, e, q))
      missed-open r (by_any open1 open2 awake idle e) q =
          elim (sweep-opened F (λ t. false) ctx slots start nonempty (length slots) 0 open2
            (sym e ∙ q)) [
              | inr found ↦ found
              | inl opened ↦ elim (Option-cases (hottest F 0 slots)) [
                | inl none_idle ↦ awake-open open1 awake (ground (arith, none_idle))
                | inr ((i, slot), hot) ↦ elim (Bool-cases slot.lane_tx) [
                  | inl tx ↦ (i, slot, hottest_at i slot hot, tx)
                  | inr shut ↦ elim (Option-cases (try_lane F ctx slot)) [
                    | inl refused ↦ awake-open open1 awake (ground (arith, hot, refused, shut))
                    | inr (s, hit) ↦ absurd (ground (arith, hot, hit))
                  ]
                ]
              ]
            ]

      pub missed-refuses :
          (r : Swept (Chan A)) (any_open : Bool)
          → start + length slots ≤ 2 ^ 64
          → Phases r
          → r ≡ missed any_open
          → (i : ℕ) (slot : WorkerSlot (Chan A)) → get_elem? slots i ≡ some slot
          → (try_lane F ctx slot ≡ none) × (slot.lane_tx ≡ true → any_open ≡ true)
      missed-refuses r any_open room (by_awake j s awake e) q i slot here =
          absurd (ground (arith, e, q))
      missed-refuses r any_open room (by_hottest open1 j slot' s awake idle hit e) q i slot here =
          absurd (ground (arith, e, q))
      missed-refuses r any_open room (by_any open1 open2 awake idle e) q i slot here =
          elim (sweep-Passed F (λ t. false) ctx slots start nonempty open2 any_open i slot room
            (sym e ∙ q) (get_elem?-lt slots i slot here) here) [
              | inl impossible ↦ cc
              | inr passed ↦ passed
            ]
