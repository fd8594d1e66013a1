-- ===== src/EnvStrings/Kept.antt =====
-- What the critical sections of one cache keep, whatever the other caches hold.
use kino.Prelude.{
  ℕ, ◌≤◌, ◌<◌, ◌≡◌, refl, sym, ap, subst, ◌∙◌, ◌⊎◌, inl, inr, Option, none, some, List, [], ◌∷◌,
  ◌++◌, map, length, arith,
}
use kino.Pin.{PinSlab}
use kino.Lru.{Lru, Key, weigh, weigh-append, SameItems}
use kino.EnvStrings.{CachedStr}
use kino.EnvStrings.Caches.{Shelf, strs_of, lookup, store, settle}
use kino.EnvStrings.Root.{Holds, IsRooted, SameItems-IsRooted, drop_strs-Holds, length-drop_strs}

pub weigh-strs_of :
    {V : Type 0} (w : CachedStr → ℕ) (strs : V → List CachedStr) (vs : List V)
    → weigh w (strs_of strs vs) ≡ weigh (λ v. weigh w (strs v)) vs
unfolding strs_of
weigh-strs_of w strs [] = refl
weigh-strs_of w strs (v ∷ vs) =
    omega (arith, weigh-append w (strs v) (strs_of strs vs), weigh-strs_of w strs vs)

pub weigh-map :
    {A B : Type 0} (w : B → ℕ) (f : A → B) (xs : List A)
    → weigh w (map f xs) ≡ weigh (λ x. w (f x)) xs
weigh-map w f [] = refl
weigh-map w f (x ∷ xs) = omega (arith, weigh-map w f xs)

module _ (L : Lru) {V : Type 0} where
  open L use {Cache, entries, capacity}

  -- The strings that a cache owns.
  abbrev pub held_in : (V → List CachedStr) → Cache V → List CachedStr
  held_in strs cache = strs_of strs (map (λ e. e.1) (entries cache))

  pub weigh-held_in :
      (w : CachedStr → ℕ) (strs : V → List CachedStr) (cache : Cache V)
      → weigh w (held_in strs cache) ≡ weigh (λ e. weigh w (strs (e.1))) (entries cache)
  weigh-held_in w strs cache =
      weigh-strs_of w strs (map (λ e. e.1) (entries cache))
      ∙ weigh-map (λ v. weigh w (strs v)) (λ e. e.1) (entries cache)

  pub record IsKept (strs : V → List CachedStr) (others : List CachedStr) (cap len : ℕ)
      (shelf : Shelf L V) : Type 0 where
    pub holds : Holds shelf.slab (held_in strs shelf.cache ++ others)
    pub bound : weigh (λ e. 1) (entries shelf.cache) ≤ cap
    pub cap_eq : capacity shelf.cache ≡ cap
    pub slots_len : length shelf.slab.slots ≡ len

  same_entries :
      (strs : V → List CachedStr) (others : List CachedStr) (cap len : ℕ) (shelf : Shelf L V)
      (cache' : Cache V)
      → SameItems (entries cache') (entries shelf.cache)
      → capacity cache' ≡ capacity shelf.cache
      → IsKept strs others cap len shelf
      → IsKept strs others cap len (record shelf { cache = cache' })
  same_entries strs others cap len shelf cache' same cap_same k = record {
    holds =
        SameItems-IsRooted shelf.slab.slots (held_in strs shelf.cache ++ others)
          (held_in strs cache' ++ others)
          (λ w. omega (
            arith,
            weigh-append w (held_in strs shelf.cache) others,
            weigh-append w (held_in strs cache') others,
            weigh-held_in w strs shelf.cache,
            weigh-held_in w strs cache',
            same (λ e. weigh w (strs (e.1))),
          ))
          k.holds;
    bound = omega (arith, same (λ e. 1), k.bound);
    cap_eq = cap_same ∙ k.cap_eq;
    slots_len = k.slots_len;
  }

  pub lookup-IsKept :
      {T : Type 0} (read : V → T) (strs : V → List CachedStr) (others : List CachedStr)
      (cap len : ℕ) (key : Key) (shelf : Shelf L V)
      → IsKept strs others cap len shelf
      → IsKept strs others cap len (lookup L read key shelf).1
  unfolding lookup
  lookup-IsKept read strs others cap len key shelf k = elim (L.get_cases key shelf.cache) [
    | inl e ↦ subst (IsKept strs others cap len) (ap (λ r. record shelf { cache = r.1 }) (sym e)) k
    | inr (v, c', rest, e, here, same, cap_same) ↦
        subst (IsKept strs others cap len) (ap (λ r. record shelf { cache = r.1 }) (sym e))
          (same_entries strs others cap len shelf c' same cap_same k)
  ]

  -- An attempt to root the strings of an entry.
  abbrev pub Rooted : (V → List CachedStr) → List CachedStr → PinSlab → PinSlab × Option V → Type 0
  Rooted strs xs slab r =
      (length (r.0).slots ≡ length slab.slots)
      × ((r.1 ≡ none) × ((r.0).slots ≡ slab.slots)
          ⊎ ((v : V) × (r.1 ≡ some v) × Holds (r.0) (strs v ++ xs)))

  stored :
      (strs : V → List CachedStr) (others : List CachedStr) (cap len : ℕ) (key : Key)
      (shelf : Shelf L V) (slab' : PinSlab) (v : V)
      → 0 < cap
      → L.get key shelf.cache ≡ (none, shelf.cache)
      → IsKept strs others cap len shelf
      → length slab'.slots ≡ length shelf.slab.slots
      → Holds slab' (strs v ++ (held_in strs shelf.cache ++ others))
      → IsKept strs others cap len (store L strs key (slab', some v) shelf)
  unfolding store
  stored strs others cap len key shelf slab' v pos miss k same_len held =
      let put =
        L.put_absent key v shelf.cache miss (omega (arith, k.cap_eq, pos))
          (omega (arith, k.bound, k.cap_eq)) in
      let cache' = (L.put key v shelf.cache).0 in
      let dropped = (L.put key v shelf.cache).1 in
      let same : SameItems (strs v ++ (held_in strs shelf.cache ++ others))
          (strs_of strs dropped ++ (held_in strs cache' ++ others)) =
        λ w. omega (
          arith,
          put.0 (λ u. weigh w (strs u)),
          weigh-append w (strs v) (held_in strs shelf.cache ++ others),
          weigh-append w (held_in strs shelf.cache) others,
          weigh-append w (strs_of strs dropped) (held_in strs cache' ++ others),
          weigh-append w (held_in strs cache') others,
          weigh-held_in w strs shelf.cache,
          weigh-held_in w strs cache',
          weigh-strs_of w strs dropped,
        ) in
      record {
        holds = drop_strs-Holds slab' (strs_of strs dropped) (held_in strs cache' ++ others) (
            SameItems-IsRooted slab'.slots (strs v ++ (held_in strs shelf.cache ++ others))
              (strs_of strs dropped ++ (held_in strs cache' ++ others)) same held);
        bound = omega (arith, put.2, k.cap_eq);
        cap_eq = put.3 ∙ k.cap_eq;
        slots_len = (length-drop_strs slab' (strs_of strs dropped)).0 ∙ same_len ∙ k.slots_len;
      }

  pub store-IsKept :
      (strs : V → List CachedStr) (others : List CachedStr) (cap len : ℕ) (key : Key)
      (shelf : Shelf L V) (r : PinSlab × Option V)
      → 0 < cap
      → L.get key shelf.cache ≡ (none, shelf.cache)
      → IsKept strs others cap len shelf
      → Rooted strs (held_in strs shelf.cache ++ others) shelf.slab r
      → IsKept strs others cap len (store L strs key r shelf)
  unfolding store
  store-IsKept strs others cap len key shelf (slab', o) pos miss k (same_len, inl (e, same)) =
      subst (λ o'. IsKept strs others cap len (store L strs key (slab', o') shelf)) (sym e)
        (record {
          holds =
              subst (λ slots. IsRooted slots (held_in strs shelf.cache ++ others)) (sym same)
                k.holds;
          bound = k.bound;
          cap_eq = k.cap_eq;
          slots_len = same_len ∙ k.slots_len;
        })
  store-IsKept strs others cap len key shelf (slab', o) pos miss k (same_len, inr (v, e, held)) =
      subst (λ o'. IsKept strs others cap len (store L strs key (slab', o') shelf)) (sym e)
        (stored strs others cap len key shelf slab' v pos miss k same_len held)

  pub settle-IsKept :
      {T : Type 0} (read : V → T) (strs : V → List CachedStr)
      (root_it : PinSlab → PinSlab × Option V) (others : List CachedStr) (cap len : ℕ) (key : Key)
      (fresh : T) (shelf : Shelf L V)
      → 0 < cap
      → IsKept strs others cap len shelf
      → Rooted strs (held_in strs shelf.cache ++ others) shelf.slab (root_it shelf.slab)
      → IsKept strs others cap len (settle L read strs root_it key fresh shelf).1
  unfolding settle
  settle-IsKept read strs root_it others cap len key fresh shelf pos k rooted =
      elim (L.get_cases key shelf.cache) [
        | inl e ↦
            let eq : store L strs key (root_it shelf.slab) shelf
                ≡ (settle L read strs root_it key fresh shelf).1 =
              ground (arith, e) in
            subst (IsKept strs others cap len) eq
              (store-IsKept strs others cap len key shelf (root_it shelf.slab) pos e k rooted)
        | inr (v, c', rest, e, here, same, cap_same) ↦
            let eq : record shelf { cache = c' } ≡ (settle L read strs root_it key fresh shelf).1 =
              ground (arith, e) in
            subst (IsKept strs others cap len) eq
              (same_entries strs others cap len shelf c' same cap_same k)
      ]
