-- ===== src/Shards/Least.antt =====
-- The least loaded shard is the least loaded of those that live.
use kino.Prelude.{
  ℕ, zero, suc, ◌+◌, ◌≤◌, ◌<◌, ◌≡◌, refl, leb→le, subst, sym, inl, inr, leb, Bool, true, false,
  Bool-cases, Option, none, some, eq_of_some, List, [], ◌∷◌, length, get_or, arith,
}
use mathlib.Core.Option.{none-ne-some}
use kino.Shards.{earlier_min, least_from, least_loaded}

-- Shard `k` lives.
abbrev pub Lives : List Bool → ℕ → Type 0
Lives live k = get_or live k false ≡ true

-- What `least_from` found.
abbrev pub IsLeast : ℕ → List ℕ → List Bool → Option (ℕ × ℕ) → Type 0
IsLeast i loads live none = (k : ℕ) → k < length loads → get_or live k false ≡ false
IsLeast i loads live (some (j, best)) =
    (m : ℕ) × (j ≡ i + m)
    × (m < length loads)
    × Lives live m
    × (get_or loads m 0 ≡ best)
    × ((k : ℕ) → k < length loads → Lives live k → best ≤ get_or loads k 0)

IsLeast-dead :
    (i load : ℕ) (loads : List ℕ) (live : List Bool) (r : Option (ℕ × ℕ))
    → IsLeast (i + 1) loads live r
    → IsLeast i (load ∷ loads) (false ∷ live) r
IsLeast-dead i load loads live none h = none_below
  where
    none_below : (k : ℕ) → k < suc (length loads) → get_or (false ∷ live) k false ≡ false
    none_below zero lt = refl
    none_below (suc k) lt = h k (omega (arith, lt))
IsLeast-dead i load loads live (some (j, best)) (m, at, lt, up, here, least) =
    (suc m, omega (arith, at), omega (arith, lt), up, here, below)
  where
    below :
        (k : ℕ) → k < suc (length loads) → Lives (false ∷ live) k → best ≤ get_or (load ∷ loads) k 0
    below zero lt up = absurd (ground (arith, up))
    below (suc k) lt up = least k (omega (arith, lt)) up

IsLeast-live :
    (i load : ℕ) (loads : List ℕ) (live : List Bool) (r : Option (ℕ × ℕ))
    → IsLeast (i + 1) loads live r
    → IsLeast i (load ∷ loads) (true ∷ live) (some (earlier_min i load r))
unfolding earlier_min
IsLeast-live i load loads live none h = (0, omega arith, omega arith, refl, refl, below)
  where
    below :
        (k : ℕ) → k < suc (length loads) → Lives (true ∷ live) k → load ≤ get_or (load ∷ loads) k 0
    below zero lt up = omega arith
    below (suc k) lt up = absurd (ground (arith, h k (omega (arith, lt)), up))
IsLeast-live i load loads live (some (j, best)) (m, at, lt, up, here, least) =
    elim (Bool-cases (leb load best)) [
      | inl first ↦ rw first (0, omega arith, omega arith, refl, refl, λ k. below_first first k)
      | inr later ↦
          rw later (suc m, omega (arith, at), omega (arith, lt), up, here, λ k. below_later later k)
    ]
  where
    below_first :
        leb load best ≡ true
        → (k : ℕ) → k < suc (length loads)
        → Lives (true ∷ live) k
        → load ≤ get_or (load ∷ loads) k 0
    below_first e zero lt up = omega arith
    below_first e (suc k) lt up = omega (arith, least k (omega (arith, lt)) up, leb→le load best e)

    below_later :
        leb load best ≡ false
        → (k : ℕ) → k < suc (length loads)
        → Lives (true ∷ live) k
        → best ≤ get_or (load ∷ loads) k 0
    below_later e zero lt up = ground (arith, e)
    below_later e (suc k) lt up = least k (omega (arith, lt)) up

least_from-IsLeast :
    (i : ℕ) (loads : List ℕ) (live : List Bool) → IsLeast i loads live (least_from i loads live)
unfolding least_from
least_from-IsLeast i [] live = λ k lt. absurd (omega (arith, lt))
least_from-IsLeast i (load ∷ loads) [] = λ k lt. refl
least_from-IsLeast i (load ∷ loads) (false ∷ live) =
    IsLeast-dead i load loads live (least_from (i + 1) loads live)
      (least_from-IsLeast (i + 1) loads live)
least_from-IsLeast i (load ∷ loads) (true ∷ live) =
    IsLeast-live i load loads live (least_from (i + 1) loads live)
      (least_from-IsLeast (i + 1) loads live)

-- The shard chosen lives and has no more connections than any other that lives.
pub least_loaded-Lives :
    (loads : List ℕ) (live : List Bool) (i : ℕ)
    → least_loaded loads live ≡ some i
    → (i < length loads)
      × Lives live i
      × ((k : ℕ) → k < length loads → Lives live k → get_or loads i 0 ≤ get_or loads k 0)
unfolding least_loaded
least_loaded-Lives loads live i e =
    found (least_from 0 loads live) (least_from-IsLeast 0 loads live) e
  where
    found :
        (r : Option (ℕ × ℕ))
        → IsLeast 0 loads live r
        → elim r [ none ↦ none | some (j, _) ↦ some j ] ≡ some i
        → (i < length loads)
          × Lives live i
          × ((k : ℕ) → k < length loads → Lives live k → get_or loads i 0 ≤ get_or loads k 0)
    found none h f = absurd (none-ne-some i f)
    found (some (j, best)) (m, at, lt, up, here, least) f =
        let same : m ≡ i = omega (arith, at, eq_of_some f) in
        subst
          (λ n.
            (n < length loads)
            × Lives live n
            × ((k : ℕ) → k < length loads → Lives live k → get_or loads n 0 ≤ get_or loads k 0))
          same (lt, up, λ k kl ku. omega (arith, here, least k kl ku))

-- No shard is chosen only if none lives.
pub least_loaded-none :
    (loads : List ℕ) (live : List Bool)
    → least_loaded loads live ≡ none
    → (k : ℕ) → k < length loads
    → get_or live k false ≡ false
unfolding least_loaded
least_loaded-none loads live e k lt =
    found (least_from 0 loads live) (least_from-IsLeast 0 loads live) e
  where
    found :
        (r : Option (ℕ × ℕ))
        → IsLeast 0 loads live r
        → elim r [ none ↦ none | some (j, _) ↦ some j ] ≡ none
        → get_or live k false ≡ false
    found none h f = h k lt
    found (some (j, best)) h f = absurd (none-ne-some j (sym f))
