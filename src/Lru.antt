-- ===== src/Lru.antt =====
-- What the code uses of lru, its crate of bounded caches, as an interface, with keys that are bytes.
-- `entries` lists the cache's pairs; their order is the crate's own and the laws do not mention it.
-- `get` promotes the entry it finds. `get_mut` gives the entry with the way to write it back, and
-- `put` the cache with the values that it dropped: the one that the key had, or the one that the
-- cache had no room for.
pub mod Listed
use kino.Prelude.{ℕ, ◌+◌, ◌≤◌, ◌<◌, ◌≡◌, ◌⊎◌, Option, none, some, List, [], ◌∷◌, ◌++◌, arith}

module _ {A : Type 0} where
  -- The total weight of the items; a weight of 1 for one item and 0 for the others counts it.
  abbrev pub weigh : (A → ℕ) → List A → ℕ
  weigh w [] = 0
  weigh w (x ∷ xs) = w x + weigh w xs

  pub weigh-append : (w : A → ℕ) (xs ys : List A) → weigh w (xs ++ ys) ≡ weigh w xs + weigh w ys
  weigh-append w [] ys = omega arith
  weigh-append w (x ∷ xs) ys = omega (arith, weigh-append w xs ys)

  -- Two lists hold the same items, as often.
  abbrev pub SameItems : List A → List A → Type 0
  SameItems xs ys = (w : A → ℕ) → weigh w xs ≡ weigh w ys

abbrev pub Key : Type 0
Key = List ℕ

pub record Lru : Type 1 where
  pub Cache : Type 0 → Type 0
  pub entries : {V : Type 0} → Cache V → List (Key × V)
  pub capacity : {V : Type 0} → Cache V → ℕ
  pub new : {V : Type 0} → ℕ → Cache V
  pub get : {V : Type 0} → Key → Cache V → Option V × Cache V
  pub get_mut : {V : Type 0} → Key → Cache V → Option (V × (V → Cache V))
  pub put : {V : Type 0} → Key → V → Cache V → Cache V × List V
  pub new_lem :
      {V : Type 0} (n : ℕ) → (entries (new {V = V} n) ≡ []) × (capacity (new {V = V} n) ≡ n)
  pub get_cases :
      {V : Type 0} (k : Key) (c : Cache V)
      → (get k c ≡ (none, c))
        ⊎ ((v : V) × (c' : Cache V) × (rest : List (Key × V)) × (get k c ≡ (some v, c'))
            × SameItems (entries c) ((k, v) ∷ rest)
            × SameItems (entries c') (entries c)
            × (capacity c' ≡ capacity c))
  pub get_mut_cases :
      {V : Type 0} (k : Key) (c : Cache V)
      → (get_mut k c ≡ none) × (get k c ≡ (none, c))
        ⊎ ((v : V) × (back : V → Cache V) × (rest : List (Key × V)) × (get_mut k c ≡ some (v, back))
            × SameItems (entries c) ((k, v) ∷ rest)
            × ((v' : V) → SameItems (entries (back v')) ((k, v') ∷ rest))
            × ((v' : V) → capacity (back v') ≡ capacity c))
  pub put_absent :
      {V : Type 0} (k : Key) (v : V) (c : Cache V)
      → get k c ≡ (none, c)
      → 0 < capacity c
      → weigh (λ e. 1) (entries c) ≤ capacity c
      → ((w : V → ℕ)
          → weigh (λ e. w (e.1)) (entries (put k v c).0) + weigh w (put k v c).1
            ≡ w v + weigh (λ e. w (e.1)) (entries c))
        × ((w : Key × V → ℕ) → weigh w (entries (put k v c).0) ≤ w (k, v) + weigh w (entries c))
        × (weigh (λ e. 1) (entries (put k v c).0) ≤ capacity c)
        × (capacity (put k v c).0 ≡ capacity c)
