-- ===== src/Shards/Plane/Kept.antt =====
-- What the choice of a shard leaves behind: the loads, and which shards are marked as live.
use kino.Prelude.{
  ℕ, zero, suc, ◌+◌, ◌-◌, ◌^◌, ◌≤◌, ◌<◌, ◌≡◌, ◌==◌, ==_iff, refl, ap, sym, ◌∙◌, subst, inl, inr,
  Bool, true, false, Bool-cases, Option-cases, List, [], ◌∷◌, length, get_or, get_or-set_self,
  get_or-set_ne, set, set-set_self, All, word, arith,
}
use kino.Shards.{Handoff, handed, all_down, out_of_fuel, least_loaded, hand_off}
use kino.Shards.Least.{least_loaded-Lives}
use kino.Shards.Failover.{count_live}
use kino.Shards.Plane.{less_one}

pub All-get_or : (loads : List ℕ) (i : ℕ) → All (λ l. l < 2 ^ 64) loads → get_or loads i 0 < 2 ^ 64
All-get_or [] i h = omega arith
All-get_or (l ∷ loads) zero h = h.0
All-get_or (l ∷ loads) (suc i) h = All-get_or loads i h.1

-- Up by one and down by one.
less_one-word :
    (loads : List ℕ) (i : ℕ)
    → All (λ l. l < 2 ^ 64) loads
    → i < length loads
    → less_one (set loads i (word (get_or loads i 0 + 1))) i ≡ loads
less_one-word loads i small lt =
    let raised : List ℕ = set loads i (word (get_or loads i 0 + 1)) in
    let at : get_or raised i 0 ≡ word (get_or loads i 0 + 1) =
      get_or-set_self loads i (word (get_or loads i 0 + 1)) 0 lt in
    let back : word (get_or raised i 0 + (2 ^ 64 - 1)) ≡ get_or loads i 0 =
      omega (arith, at, All-get_or loads i small) in
    ap (λ (l : ℕ). set raised i l) back ∙ set-set_self loads i (word (get_or loads i 0 + 1)) 0

-- The load of the shard that was chosen goes up by one; no other changes, nor any if none was.
abbrev pub Raised : List ℕ → Handoff → List ℕ → Type 0
Raised loads (handed i) loads' =
    (i < length loads) × (loads' ≡ set loads i (word (get_or loads i 0 + 1)))
Raised loads all_down loads' = loads' ≡ loads
Raised loads out_of_fuel loads' = loads' ≡ loads

abbrev Result : Type 0
Result = Handoff × List ℕ × List Bool

pub hand_off-Raised :
    (n : ℕ) (up : List Bool) (loads : List ℕ) (live : List Bool)
    → All (λ l. l < 2 ^ 64) loads
    → let r = hand_off n up loads live in Raised loads r.0 r.1
unfolding hand_off
hand_off-Raised zero up loads live small = refl
hand_off-Raised (suc n) up loads live small = elim (Option-cases (least_loaded loads live)) [
  | inl e ↦
      let eq : (all_down, loads, live) ≡ hand_off (suc n) up loads live = ground (arith, e) in
      subst (λ (r : Result). Raised loads r.0 r.1) eq refl
  | inr (i, e) ↦
      let (lt, _, _) = least_loaded-Lives loads live i e in
      let raised : List ℕ = set loads i (word (get_or loads i 0 + 1)) in
      elim (Bool-cases (get_or up i false)) [
        | inl good ↦
            let eq : (handed i, raised, live) ≡ hand_off (suc n) up loads live =
              ground (arith, e, good) in
            subst (λ (r : Result). Raised loads r.0 r.1) eq (lt, refl)
        | inr down ↦
            let eq : hand_off n up (less_one raised i) (set live i false)
                ≡ hand_off (suc n) up loads live =
              ground (arith, e, down) in
            let back : hand_off n up loads (set live i false)
                ≡ hand_off n up (less_one raised i) (set live i false) =
              ap (λ ls. hand_off n up ls (set live i false))
                (sym (less_one-word loads i small lt)) in
            subst (λ (r : Result). Raised loads r.0 r.1) (back ∙ eq)
              (hand_off-Raised n up loads (set live i false) small)
      ]
]

-- A shard that receives is not marked down.
abbrev Marks : List Bool → List Bool → List Bool → Type 0
Marks up live live' =
    (k : ℕ) → get_or up k false ≡ true → get_or live' k false ≡ get_or live k false

keeps : (up live : List Bool) (i : ℕ) → get_or up i false ≡ false → Marks up live (set live i false)
keeps up live i down k here = elim (Bool-cases (i == k)) [
  | inl same ↦
      let e : i ≡ k = (==_iff i k).0 same in
      absurd (ground (arith, down, here, ap (λ (j : ℕ). get_or up j false) e))
  | inr other ↦ get_or-set_ne live i k false false (ground (arith, other))
]

pub count_live-le : (live : List Bool) → count_live live ≤ length live
unfolding count_live
count_live-le [] = omega arith
count_live-le (true ∷ live) = omega (arith, count_live-le live)
count_live-le (false ∷ live) = omega (arith, count_live-le live)

pub hand_off-Marks :
    (n : ℕ) (up : List Bool) (loads : List ℕ) (live : List Bool)
    → Marks up live (hand_off n up loads live).2
unfolding hand_off
hand_off-Marks zero up loads live = λ k here. refl
hand_off-Marks (suc n) up loads live = elim (Option-cases (least_loaded loads live)) [
  | inl e ↦
      let eq : (all_down, loads, live) ≡ hand_off (suc n) up loads live = ground (arith, e) in
      subst (λ (r : Result). Marks up live r.2) eq (λ k here. refl)
  | inr (i, e) ↦
      let raised : List ℕ = set loads i (word (get_or loads i 0 + 1)) in
      elim (Bool-cases (get_or up i false)) [
        | inl good ↦
            let eq : (handed i, raised, live) ≡ hand_off (suc n) up loads live =
              ground (arith, e, good) in
            subst (λ (r : Result). Marks up live r.2) eq (λ k here. refl)
        | inr down ↦
            let eq : hand_off n up (less_one raised i) (set live i false)
                ≡ hand_off (suc n) up loads live =
              ground (arith, e, down) in
            let rest = hand_off-Marks n up (less_one raised i) (set live i false) in
            let kept : Marks up live (set live i false) = keeps up live i down in
            subst (λ (r : Result). Marks up live r.2) eq (λ k here. rest k here ∙ kept k here)
      ]
]
