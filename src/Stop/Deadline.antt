-- ===== src/Stop/Deadline.antt =====
-- The shutdown returns by its deadline.
use kino.Prelude.{
  ℕ, zero, suc, ◌+◌, ◌≤◌, ◌<◌, ◌≡◌, refl, ◌⊎◌, inl, inr, leb, ltb, Bool, true, false, Bool-cases,
  Option, some, List, [], ◌∷◌, arith,
}
use kino.Stop.{wait, shutdown}

-- How a wait ends: at a time when the thread is done or the deadline is past.
abbrev Waited : (longest finish deadline now : ℕ) → Option (ℕ × ℕ) → Type 0
Waited longest finish deadline now ended =
    (t : ℕ) × (k : ℕ) × (ended ≡ some (t, k))
    × (now ≤ t)
    × (t < deadline + longest)
    × ((finish ≤ t) ⊎ (deadline ≤ t) × (t < finish))

wait_lem :
    (naps : ℕ → ℕ) (longest fuel k finish deadline now : ℕ)
    → ((i : ℕ) → naps i < longest)
    → now < deadline + longest
    → deadline < now + fuel
    → 0 < fuel
    → Waited longest finish deadline now (wait naps fuel k finish deadline now)
unfolding wait
wait_lem naps longest zero k finish deadline now naps_lt h enough some_fuel =
    absurd (omega (arith, some_fuel))
wait_lem naps longest (suc fuel) k finish deadline now naps_lt h enough some_fuel =
    elim (Bool-cases (leb finish now)) [
      | inl done ↦ rw done (now, k, refl, omega arith, h, inl (ground (arith, done)))
      | inr busy ↦ elim (Bool-cases (ltb now deadline)) [
        | inr late ↦
            rw (busy, late)
              (now, k, refl, omega arith, h, inr (ground (arith, late), ground (arith, busy)))
        | inl early ↦
            let before : now < deadline = ground (arith, early) in
            let (t, k', e, later, bound, why) =
              wait_lem naps longest fuel (k + 1) finish deadline (now + 1 + naps k) naps_lt
                (omega (arith, before, naps_lt k)) (omega (arith, enough))
                (omega (arith, enough, before)) in
            rw (busy, early) (t, k', e, omega (arith, later), bound, why)
      ]
    ]

-- Each thread is joined, and is done at the end, or is left, and was not done by the deadline.
abbrev pub Joins : ℕ → ℕ → List ℕ → List Bool → Type 0
Joins deadline end [] [] = Unit
Joins deadline end [] (b ∷ joined) = ⊥
Joins deadline end (finish ∷ threads) [] = ⊥
Joins deadline end (finish ∷ threads) (b ∷ joined) =
    ((b ≡ true) × (finish ≤ end) ⊎ (b ≡ false) × (deadline < finish))
    × Joins deadline end threads joined

shutdown-step :
    (naps : ℕ → ℕ) (fuel k deadline now finish : ℕ) (threads : List ℕ) (t k' end : ℕ)
    (joined : List Bool)
    → wait naps fuel k finish deadline now ≡ some (t, k')
    → shutdown naps fuel k' deadline t threads ≡ some (end, joined)
    → shutdown naps fuel k deadline now (finish ∷ threads) ≡ some (end, leb finish t ∷ joined)
unfolding shutdown
shutdown-step naps fuel k deadline now finish threads t k' end joined e same =
    ground (arith, e, same)

-- However much longer than asked the sleeps take, up to a bound, and whatever the threads do: with
-- as many looks as there are milliseconds to the deadline and one more, the shutdown of the shards
-- returns, less than the longest sleep after its deadline if it starts before then, each thread
-- that it joined is done, and each that it left was not done by the deadline.
pub shutdown_lem :
    (naps : ℕ → ℕ) (longest fuel k deadline now : ℕ) (threads : List ℕ)
    → ((i : ℕ) → naps i < longest)
    → now < deadline + longest
    → deadline < now + fuel
    → 0 < fuel
    → (end : ℕ) × (joined : List Bool) × (shutdown naps fuel k deadline now threads
        ≡ some (end, joined))
      × (now ≤ end)
      × (end < deadline + longest)
      × Joins deadline end threads joined
unfolding shutdown
shutdown_lem naps longest fuel k deadline now [] naps_lt h enough some_fuel =
    (now, [], refl, omega arith, h, tt)
shutdown_lem naps longest fuel k deadline now (finish ∷ threads) naps_lt h enough some_fuel =
    let (t, k', e, later, bound, why) =
      wait_lem naps longest fuel k finish deadline now naps_lt h enough some_fuel in
    let (end, joined, same, after, in_time, ok) =
      shutdown_lem naps longest fuel k' deadline t threads naps_lt bound
        (omega (arith, enough, later)) some_fuel in
    (
      end,
      leb finish t ∷ joined,
      shutdown-step naps fuel k deadline now finish threads t k' end joined e same,
      omega (arith, later, after),
      in_time,
      (verdict t end after why, ok),
    )
  where
    verdict :
        (t end : ℕ)
        → t ≤ end
        → ((finish ≤ t) ⊎ (deadline ≤ t) × (t < finish))
        → ((leb finish t ≡ true) × (finish ≤ end) ⊎ (leb finish t ≡ false) × (deadline < finish))
    verdict t end after (inl done) = inl (ground (arith, done), omega (arith, done, after))
    verdict t end after (inr (past, busy)) = inr (ground (arith, busy), omega (arith, past, busy))
