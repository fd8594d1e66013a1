-- ===== src/Lru/Listed.antt =====
-- A cache that meets the laws of `Lru`: the entries, the one used last in front.
use kino.Prelude.{
  subst, sym, ◌∙◌, ℕ, ◌+◌, ◌≤◌, ◌<◌, ◌≡◌, refl, ◌⊎◌, inl, inr, ltb, if◌then◌else◌, true, Bool-cases,
  Option, none, some, List, [], ◌∷◌, ap, length, arith,
}
use kino.Control.{same_text}
use kino.Lru.{Lru, Key, weigh, SameItems}

pub record Listed (V : Type 0) : Type 0 where
  pub entries : List (Key × V)
  pub capacity : ℕ

pub same_text→eq : (a b : Key) → same_text a b ≡ true → a ≡ b
unfolding same_text
same_text→eq [] [] h = refl
same_text→eq [] (y ∷ ys) h = absurd (ground (arith, h))
same_text→eq (x ∷ xs) [] h = absurd (ground (arith, h))
same_text→eq (x ∷ xs) (y ∷ ys) h =
    let e : x ≡ y = ground (arith, h) in
    let es : xs ≡ ys = same_text→eq xs ys (ground (arith, h)) in ap (λ z. z ∷ xs) e ∙ ap (◌∷◌ y) es

pub same_text_self : (a : List ℕ) → same_text a a ≡ true
unfolding same_text
same_text_self [] = refl
same_text_self (x ∷ xs) = ground (arith, same_text_self xs)

module _ {V : Type 0} where
  -- The value under a key, and the entries without it.
  find : Key → List (Key × V) → Option (V × List (Key × V))
  find k [] = none
  find k (e ∷ es) =
      let rest = find k es in
      if same_text k e.0
      then some (e.1, es)
      else elim rest [ none ↦ none | some (v, others) ↦ some (v, e ∷ others) ]

  pub split_last : Key × V → List (Key × V) → List (Key × V) × (Key × V)
  split_last e [] = ([], e)
  split_last e (e' ∷ es) = let (front, last) = split_last e' es in (e ∷ front, last)

  -- The entries cut to make room for one more, and what was cut.
  make_room : ℕ → List (Key × V) → List (Key × V) × List V
  make_room cap [] = ([], [])
  make_room cap (e ∷ es) =
      let (front, last) = split_last e es in
      if ltb (length (e ∷ es)) cap then (e ∷ es, []) else (front, last.1 ∷ [])

  unfoldable pub listed_get : Key → Listed V → Option V × Listed V
  unfolding find
  listed_get k c = elim (find k c.entries) [
    | none ↦ (none, c)
    | some (v, rest) ↦ (some v, record c { entries = (k, v) ∷ rest })
  ]

  pub listed_get_mut : Key → Listed V → Option (V × (V → Listed V))
  unfolding find
  listed_get_mut k c = elim (find k c.entries) [
    | none ↦ none
    | some (v, rest) ↦ some (v, λ v'. record c { entries = (k, v') ∷ rest })
  ]

  pub listed_put : Key → V → Listed V → Listed V × List V
  unfolding find make_room
  listed_put k v c = elim (find k c.entries) [
    | some (old, rest) ↦ (record c { entries = (k, v) ∷ rest }, old ∷ [])
    | none ↦
        let (kept, dropped) = make_room c.capacity c.entries in
        (record c { entries = (k, v) ∷ kept }, dropped)
  ]

  abbrev Found : Key → List (Key × V) → Type 0
  Found k es =
      (find k es ≡ none)
      ⊎ ((v : V) × (rest : List (Key × V)) × (find k es ≡ some (v, rest))
          × SameItems es ((k, v) ∷ rest))

  find_cases : (k : Key) (es : List (Key × V)) → Found k es
  unfolding find
  find_cases k [] = inl refl
  find_cases k (e ∷ es) = elim (Bool-cases (same_text k e.0)) [
    | inl hit ↦ inr (
      e.1,
      es,
      ground (arith, hit),
      λ w. ap (λ k'. w (k', e.1) + weigh w es) (sym (same_text→eq k e.0 hit)),
    )
    | inr miss ↦ elim (find_cases k es) [
      | inl none_left ↦ inl (ground (arith, miss, none_left))
      | inr (v, rest, found, same) ↦
          inr (v, e ∷ rest, ground (arith, miss, found), λ w. omega (arith, same w))
    ]
  ]

  weigh-split_last :
      (w : Key × V → ℕ) (e : Key × V) (es : List (Key × V))
      → weigh w (split_last e es).0 + w (split_last e es).1 ≡ w e + weigh w es
  unfolding split_last
  weigh-split_last w e [] = omega arith
  weigh-split_last w e (e' ∷ es) = omega (arith, weigh-split_last w e' es)

  length-weigh : (es : List (Key × V)) → weigh (λ e. 1) es ≡ length es
  length-weigh [] = refl
  length-weigh (e ∷ es) = omega (arith, length-weigh es)

  make_room_lem :
      (cap : ℕ) (es : List (Key × V))
      → weigh (λ e. 1) es ≤ cap
      → 0 < cap
      → ((w : V → ℕ)
          → weigh (λ e. w (e.1)) (make_room cap es).0 + weigh w (make_room cap es).1
            ≡ weigh (λ e. w (e.1)) es)
        × ((w : Key × V → ℕ) → weigh w (make_room cap es).0 ≤ weigh w es)
        × (weigh (λ e. 1) (make_room cap es).0 < cap)
  unfolding make_room
  make_room_lem cap [] h pos = (λ w. omega arith, λ w. omega arith, omega arith)
  make_room_lem cap (e ∷ es) h pos = elim (Bool-cases (ltb (length (e ∷ es)) cap)) [
    | inl room ↦ rw room (λ w. omega arith, λ w. omega arith, ground (arith, length-weigh es))
    | inr full ↦ rw full (
      λ w. omega (arith, weigh-split_last (λ e. w (e.1)) e es),
      λ w. omega (arith, weigh-split_last w e es),
      omega (arith, weigh-split_last (λ e. 1) e es),
    )
  ]

  pub listed_get_cases :
      (k : Key) (c : Listed V)
      → (listed_get k c ≡ (none, c))
        ⊎ ((v : V) × (c' : Listed V) × (rest : List (Key × V)) × (listed_get k c ≡ (some v, c'))
            × SameItems c.entries ((k, v) ∷ rest)
            × SameItems c'.entries c.entries
            × (c'.capacity ≡ c.capacity))
  unfolding listed_get
  listed_get_cases k c = elim (find_cases k c.entries) [
    | inl e ↦ inl (ground (arith, e))
    | inr (v, rest, found, same) ↦ inr (
      v,
      record c { entries = (k, v) ∷ rest },
      rest,
      ground (arith, found),
      same,
      λ w. sym (same w),
      refl,
    )
  ]

  pub listed_get_mut_cases :
      (k : Key) (c : Listed V)
      → (listed_get_mut k c ≡ none) × (listed_get k c ≡ (none, c))
        ⊎ ((v : V) × (back : V → Listed V) × (rest : List (Key × V)) × (listed_get_mut k c
              ≡ some (v, back))
            × SameItems c.entries ((k, v) ∷ rest)
            × ((v' : V) → SameItems (back v').entries ((k, v') ∷ rest))
            × ((v' : V) → (back v').capacity ≡ c.capacity))
  unfolding listed_get listed_get_mut
  listed_get_mut_cases k c = elim (find_cases k c.entries) [
    | inl e ↦ inl (ground (arith, e))
    | inr (v, rest, found, same) ↦ inr (
      v,
      λ v'. record c { entries = (k, v') ∷ rest },
      rest,
      ground (arith, found),
      same,
      λ v' w. refl,
      λ v'. refl,
    )
  ]

  abbrev Put : Key → V → Listed V → Listed V × List V → Type 0
  Put k v c r =
      ((w : V → ℕ)
        → weigh (λ e. w (e.1)) r.0.entries + weigh w r.1 ≡ w v + weigh (λ e. w (e.1)) c.entries)
      × ((w : Key × V → ℕ) → weigh w r.0.entries ≤ w (k, v) + weigh w c.entries)
      × (weigh (λ e. 1) r.0.entries ≤ c.capacity)
      × (r.0.capacity ≡ c.capacity)

  put_eq :
      (k : Key) (v : V) (c : Listed V)
      → find k c.entries ≡ none
      → (
        record c { entries = (k, v) ∷ (make_room c.capacity c.entries).0 },
        (make_room c.capacity c.entries).1,
      )
        ≡ listed_put k v c
  unfolding listed_put
  put_eq k v c e = ground (arith, e)

  pub listed_put_absent :
      (k : Key) (v : V) (c : Listed V)
      → listed_get k c ≡ (none, c)
      → 0 < c.capacity
      → weigh (λ e. 1) c.entries ≤ c.capacity
      → Put k v c (listed_put k v c)
  unfolding listed_get
  listed_put_absent k v c absent pos bound = elim (find_cases k c.entries) [
    | inl e ↦
        let (conserved, fewer, room) = make_room_lem c.capacity c.entries bound pos in
        subst (Put k v c) (put_eq k v c e)
          (λ w. omega (arith, conserved w), λ w. omega (arith, fewer w), omega (arith, room), refl)
    | inr (v', rest, found, same) ↦ absurd (ground (arith, found, absent))
  ]

abbrev pub listed : Lru
listed = record {
  Cache = Listed;
  entries = λ c. c.entries;
  capacity = λ c. c.capacity;
  new = λ n. record { entries = []; capacity = n };
  get = listed_get;
  get_mut = listed_get_mut;
  put = listed_put;
  new_lem = λ n. (refl, refl);
  get_cases = listed_get_cases;
  get_mut_cases = listed_get_mut_cases;
  put_absent = listed_put_absent;
}
