-- ===== src/Shards/Failover.antt =====
-- A connection is handed to a shard that is up, past any that have gone down.
use kino.Prelude.{
  ℕ, zero, suc, ◌+◌, ◌<◌, ◌≡◌, ◌==◌, ==_iff, refl, ap, sym, ◌∙◌, subst, inl, inr, Bool, true, false,
  Bool-cases, Option-cases, List, [], ◌∷◌, length, length-set, get_or, get_or-set_ne, set, word,
  ◌^◌, ◌-◌, arith,
}
use kino.Shards.{Handoff, handed, all_down, out_of_fuel, least_loaded, hand_off}
use kino.Shards.Least.{Lives, least_loaded-Lives, least_loaded-none}

unfoldable pub count_live : List Bool → ℕ
count_live [] = 0
count_live (up ∷ live) = let rest = count_live live in elim up [ true ↦ suc rest | false ↦ rest ]

count_live-set :
    (live : List Bool) (i : ℕ) → Lives live i → count_live live ≡ count_live (set live i false) + 1
unfolding count_live
count_live-set [] i up = absurd (ground (arith, up))
count_live-set (b ∷ live) zero up = ground (arith, up)
count_live-set (true ∷ live) (suc i) up = omega (arith, count_live-set live i up)
count_live-set (false ∷ live) (suc i) up = count_live-set live i up

get_or-set_dead : (live : List Bool) (i : ℕ) → get_or (set live i false) i false ≡ false
get_or-set_dead [] i = refl
get_or-set_dead (b ∷ live) zero = refl
get_or-set_dead (b ∷ live) (suc i) = get_or-set_dead live i

-- A shard marked down no longer lives, and the others live as before.
Lives-set : (live : List Bool) (i k : ℕ) → Lives (set live i false) k → Lives live k
Lives-set live i k up = elim (Bool-cases (i == k)) [
  | inl same ↦
      let e : i ≡ k = (==_iff i k).0 same in
      absurd (
        ground
          (arith, up, get_or-set_dead live i, ap (λ (j : ℕ). get_or (set live i false) j false) e))
  | inr other ↦ sym (get_or-set_ne live i k false false (ground (arith, other))) ∙ up
]

-- Where a connection may go.
abbrev pub Met : List Bool → ℕ → List Bool → Handoff → Type 0
Met up shards live (handed i) = (get_or up i false ≡ true) × Lives live i × (i < shards)
Met up shards live all_down = (k : ℕ) → k < shards → Lives live k → get_or up k false ≡ false
Met up shards live out_of_fuel = ⊥

again :
    (up : List Bool) (shards i : ℕ) (live : List Bool) (h : Handoff)
    → get_or up i false ≡ false
    → Met up shards (set live i false) h
    → Met up shards live h
again up shards i live (handed j) down (good, lives, lt) = (good, Lives-set live i j lives, lt)
again up shards i live all_down down none_up = λ k lt lives. elim (Bool-cases (i == k)) [
  | inl same ↦ ap (λ (j : ℕ). get_or up j false) (sym ((==_iff i k).0 same)) ∙ down
  | inr other ↦ none_up k lt (get_or-set_ne live i k false false (ground (arith, other)) ∙ lives)
]
again up shards i live out_of_fuel down h = h

-- A connection goes to a live shard whose receiver is there, if there is one, and the server stops
-- accepting only if there is none; one round more than there are live shards is enough.
pub hand_off-Met :
    (n : ℕ) (up : List Bool) (loads : List ℕ) (live : List Bool)
    → count_live live < n
    → Met up (length loads) live (hand_off n up loads live).0
unfolding hand_off
hand_off-Met zero up loads live enough = absurd (omega (arith, enough))
hand_off-Met (suc n) up loads live enough = elim (Option-cases (least_loaded loads live)) [
  | inl e ↦
      let eq : all_down ≡ (hand_off (suc n) up loads live).0 = ground (arith, e) in
      subst (λ h. Met up (length loads) live h) eq
        (λ k lt lives. absurd (ground (arith, least_loaded-none loads live e k lt, lives)))
  | inr (i, e) ↦
      let (lt, lives, _) = least_loaded-Lives loads live i e in
      let raised : List ℕ = set loads i (word (get_or loads i 0 + 1)) in
      let lowered : List ℕ = set raised i (word (get_or raised i 0 + (2 ^ 64 - 1))) in
      let rest =
        hand_off-Met n up lowered (set live i false)
          (omega (arith, enough, count_live-set live i lives)) in
      let same : length lowered ≡ length loads =
        length-set raised i (word (get_or raised i 0 + (2 ^ 64 - 1)))
        ∙ length-set loads i (word (get_or loads i 0 + 1)) in
      elim (Bool-cases (get_or up i false)) [
        | inl good ↦
            let eq : handed i ≡ (hand_off (suc n) up loads live).0 = ground (arith, e, good) in
            subst (λ h. Met up (length loads) live h) eq (good, lives, lt)
        | inr down ↦
            let eq : (hand_off n up lowered (set live i false)).0
                ≡ (hand_off (suc n) up loads live).0 =
              ground (arith, e, down) in
            subst (λ h. Met up (length loads) live h) eq
              (again up (length loads) i live (hand_off n up lowered (set live i false)).0 down (
                subst
                  (λ m. Met up m (set live i false) (hand_off n up lowered (set live i false)).0)
                  same rest))
      ]
]
