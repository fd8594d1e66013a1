-- ===== src/Shards/Plane/Totals.antt =====
-- The connections of the shards, counted, and how a change of one shard shows in the counts.
use kino.Prelude.{
  Bool, map, inl, inr, Bool-cases, if◌then◌else◌, ◌||◌, ℕ, zero, suc, ◌+◌, ◌-◌, ◌^◌, ◌≤◌, ◌<◌, ◌≡◌,
  refl, ap, sym, ◌∙◌, subst, true, false, Option, none, some, eq_of_some, List, [], ◌∷◌, length,
  get_elem?, get_or, set, All, word, arith,
}
use mathlib.Core.Option.{none-ne-some}
use kino.Shards.Plane.{Shard, ups, pick, with_first, less_one, lower}

module _ {A : Type 0} where
  abbrev pub size : Shard A → ℕ
  size s = length s.rx + length s.connections

  unfoldable pub total : List (Shard A) → ℕ
  total [] = 0
  total (s ∷ shards) = size s + total shards

  -- The load of a shard that is up counts its connections, and one that is down has none.
  pub record IsFit (load : ℕ) (s : Shard A) : Type 0 where
    pub small : load < 2 ^ 64
    pub counts : s.up ≡ true → load ≡ size s
    pub empty : s.up ≡ false → size s ≡ 0

  abbrev pub Fits : List ℕ → List (Shard A) → Type 0
  Fits [] [] = Unit
  Fits [] (s ∷ shards) = ⊥
  Fits (l ∷ loads) [] = ⊥
  Fits (l ∷ loads) (s ∷ shards) = IsFit l s × Fits loads shards

  -- The loads of the shards that are up; one that is down has none.
  pub loads_up : List ℕ → List (Shard A) → List ℕ
  loads_up [] shards = []
  loads_up (l ∷ loads) [] = []
  loads_up (l ∷ loads) (s ∷ shards) = (if s.up then l else 0) ∷ loads_up loads shards

  pub any_up : List (Shard A) → Bool
  any_up [] = false
  any_up (s ∷ shards) = s.up || any_up shards

  pub loads_up-size :
      (loads : List ℕ) (shards : List (Shard A))
      → Fits loads shards
      → loads_up loads shards ≡ map size shards
  unfolding loads_up
  loads_up-size [] [] h = refl
  loads_up-size [] (s ∷ shards) h = absurd h
  loads_up-size (l ∷ loads) [] h = absurd h
  loads_up-size (l ∷ loads) (s ∷ shards) h =
      let rest = loads_up-size loads shards h.1 in
      elim (Bool-cases s.up) [
        | inl up ↦ rw up (λ i. h.0.counts up i ∷ rest i)
        | inr down ↦ rw down (λ i. sym (h.0.empty down) i ∷ rest i)
      ]

  pub any_up-false :
      (shards : List (Shard A))
      → ((k : ℕ) → get_or (ups shards) k false ≡ true → ⊥)
      → any_up shards ≡ false
  unfolding any_up
  any_up-false [] none_up = refl
  any_up-false (s ∷ shards) none_up = elim (Bool-cases s.up) [
    | inl up ↦ absurd (none_up 0 up)
    | inr down ↦ rw down (any_up-false shards (λ k. none_up (suc k)))
  ]

  pub total-set :
      (shards : List (Shard A)) (i : ℕ) (s s' : Shard A)
      → get_elem? shards i ≡ some s
      → total (set shards i s') + size s ≡ total shards + size s'
  unfolding total
  total-set [] i s s' here = absurd (none-ne-some s here)
  total-set (x ∷ shards) zero s s' here = omega (arith, ap size (eq_of_some here))
  total-set (x ∷ shards) (suc i) s s' here = omega (arith, total-set shards i s s' here)

  pub size-le-total :
      (shards : List (Shard A)) (i : ℕ) (s : Shard A)
      → get_elem? shards i ≡ some s
      → size s ≤ total shards
  unfolding total
  size-le-total [] i s here = absurd (none-ne-some s here)
  size-le-total (x ∷ shards) zero s here = omega (arith, ap size (eq_of_some here))
  size-le-total (x ∷ shards) (suc i) s here = omega (arith, size-le-total shards i s here)

  pub Fits-get_elem? :
      (loads : List ℕ) (shards : List (Shard A)) (i : ℕ) (s : Shard A)
      → Fits loads shards
      → get_elem? shards i ≡ some s
      → IsFit (get_or loads i 0) s
  Fits-get_elem? [] [] i s h here = absurd (none-ne-some s here)
  Fits-get_elem? [] (x ∷ shards) i s h here = absurd h
  Fits-get_elem? (l ∷ loads) [] i s h here = absurd h
  Fits-get_elem? (l ∷ loads) (x ∷ shards) zero s h here = subst (IsFit l) (eq_of_some here) h.0
  Fits-get_elem? (l ∷ loads) (x ∷ shards) (suc i) s h here =
      Fits-get_elem? loads shards i s h.1 here

  pub Fits-set :
      (loads : List ℕ) (shards : List (Shard A)) (i l : ℕ) (s : Shard A)
      → Fits loads shards
      → IsFit l s
      → Fits (set loads i l) (set shards i s)
  Fits-set [] [] i l s h fit = h
  Fits-set [] (x ∷ shards) i l s h fit = absurd h
  Fits-set (k ∷ loads) [] i l s h fit = absurd h
  Fits-set (k ∷ loads) (x ∷ shards) zero l s h fit = (fit, h.1)
  Fits-set (k ∷ loads) (x ∷ shards) (suc i) l s h fit = (h.0, Fits-set loads shards i l s h.1 fit)

  pub Fits-small :
      (loads : List ℕ) (shards : List (Shard A)) → Fits loads shards → All (λ l. l < 2 ^ 64) loads
  Fits-small [] shards h = tt
  Fits-small (l ∷ loads) [] h = absurd h
  Fits-small (l ∷ loads) (s ∷ shards) h = (h.0.small, Fits-small loads shards h.1)

  pub Fits-length :
      (loads : List ℕ) (shards : List (Shard A)) → Fits loads shards → length loads ≡ length shards
  Fits-length [] [] h = refl
  Fits-length [] (s ∷ shards) h = absurd h
  Fits-length (l ∷ loads) [] h = absurd h
  Fits-length (l ∷ loads) (s ∷ shards) h = ap suc (Fits-length loads shards h.1)

  pub ups-get_or :
      (shards : List (Shard A)) (i : ℕ)
      → get_or (ups shards) i false ≡ true
      → (s : Shard A) × (get_elem? shards i ≡ some s) × (s.up ≡ true)
  ups-get_or [] i up = absurd (ground (arith, up))
  ups-get_or (s ∷ shards) zero up = (s, refl, up)
  ups-get_or (s ∷ shards) (suc i) up = ups-get_or shards i up

  -- A change of a shard that is up brings up no other.
  pub ups-set :
      (shards : List (Shard A)) (i k : ℕ) (s s' : Shard A)
      → get_elem? shards i ≡ some s
      → s.up ≡ true
      → get_or (ups (set shards i s')) k false ≡ true
      → get_or (ups shards) k false ≡ true
  ups-set [] i k s s' here up h = h
  ups-set (x ∷ shards) zero zero s s' here up h = ap (λ (y : Shard A). y.up) (eq_of_some here) ∙ up
  ups-set (x ∷ shards) zero (suc k) s s' here up h = h
  ups-set (x ∷ shards) (suc i) zero s s' here up h = h
  ups-set (x ∷ shards) (suc i) (suc k) s s' here up h = ups-set shards i k s s' here up h

  pub length-pick :
      (xs : List A) (k : ℕ) (y : A) (rest : List A)
      → pick xs k ≡ some (y, rest)
      → length xs ≡ suc (length rest)
  unfolding pick
  length-pick [] k y rest h = absurd (none-ne-some (y, rest) h)
  length-pick (x ∷ xs) zero y rest h = ap (λ (r : A × List A). suc (length r.1)) (eq_of_some h)
  length-pick (x ∷ xs) (suc k) y rest h =
      after (λ z others. length-pick xs k z others) (pick xs k) refl h
    where
      after :
          ((z : A) (others : List A)
            → pick xs k ≡ some (z, others)
            → length xs ≡ suc (length others))
          → (o : Option (A × List A)) → pick xs k ≡ o
          → with_first x o ≡ some (y, rest)
          → suc (length xs) ≡ suc (length rest)
      after ih none e f = absurd (none-ne-some (y, rest) f)
      after ih (some (z, others)) e f =
          omega (arith, ih z others e, ap (λ (r : A × List A). length r.1) (eq_of_some f))

set-set {ℓ} : {A : Type ℓ} (xs : List A) (i : ℕ) (a b : A) → set (set xs i a) i b ≡ set xs i b
set-set [] i a b = refl
set-set (x ∷ xs) zero a b = refl
set-set (x ∷ xs) (suc i) a b = ap (◌∷◌ x) (set-set xs i a b)

pub set-get_or {ℓ} : {A : Type ℓ} (xs : List A) (i : ℕ) (d : A) → set xs i (get_or xs i d) ≡ xs
set-get_or [] i d = refl
set-get_or (x ∷ xs) zero d = refl
set-get_or (x ∷ xs) (suc i) d = ap (◌∷◌ x) (set-get_or xs i d)

still : (loads : List ℕ) (i : ℕ) → get_or (less_one loads i) i 0 < 2 ^ 64
still [] i = omega arith
still (l ∷ loads) zero = omega arith
still (l ∷ loads) (suc i) = still loads i

-- Only the one load falls.
pub lower-set :
    (n : ℕ) (loads : List ℕ) (i : ℕ)
    → get_or loads i 0 < 2 ^ 64
    → (l : ℕ) × (l < 2 ^ 64) × (lower n loads i ≡ set loads i l)
unfolding lower
lower-set zero loads i small = (get_or loads i 0, small, sym (set-get_or loads i 0))
lower-set (suc n) loads i small =
    let w = word (get_or loads i 0 + (2 ^ 64 - 1)) in
    let (l, lt, e) = lower-set n (less_one loads i) i (still loads i) in
    (l, lt, e ∙ set-set loads i w l)
