-- ===== src/EnvStrings/Fill.antt =====
-- The critical sections of an authority: an entry that gains its full authority keeps the rest.
use kino.Prelude.{
  ℕ, ◌+◌, ◌<◌, ◌≡◌, ◌≢◌, refl, sym, ap, subst, ◌∙◌, inl, inr, Option, none, some, List, ◌∷◌, ◌++◌,
  map, length, arith,
}
use kino.Pin.{PinSlab}
use kino.Lru.{Lru, Key, weigh, weigh-append, SameItems}
use kino.EnvStrings.{RString, CachedStr, HostEntry, root_host, host_strs, fill_host}
use kino.EnvStrings.Caches.{Shelf, strs_of, store, adopt, settle_full}
use kino.EnvStrings.Root.{Holds, IsRooted, SameItems-IsRooted, Rooting, root_cases}
use kino.EnvStrings.Kept.{
  IsKept, Rooted, held_in, weigh-held_in, weigh-strs_of, weigh-map, store-IsKept,
}

-- After `fill_host` the entry's strings are rooted, with one more if it gained its authority.
pub record Filled (slab : PinSlab) (xs : List CachedStr) (r : RString × PinSlab × HostEntry)
    : Type 0 where
  pub holds : Holds (r.1) (host_strs (r.2) ++ xs)
  pub len : length (r.1).slots ≡ length slab.slots

filled :
    (slab slab' : PinSlab) (n p c : CachedStr) (host : RString) (xs : List CachedStr)
    → Rooting slab host (n ∷ p ∷ xs) c slab'
    → Filled slab xs (c.value, slab', record { name = n; port = p; host = some c })
unfolding host_strs
filled slab slab' n p c host xs rc = record {
  holds =
      SameItems-IsRooted slab'.slots (c ∷ n ∷ p ∷ xs) (n ∷ p ∷ c ∷ xs) (λ w. omega arith) rc.holds;
  len = rc.len;
}

pub fill_host-Filled :
    (slab : PinSlab) (n p : CachedStr) (h : Option CachedStr) (host : RString) (xs : List CachedStr)
    → host.raw ≢ 0
    → Holds slab (host_strs (record { name = n; port = p; host = h }) ++ xs)
    → Filled slab xs (fill_host slab (record { name = n; port = p; host = h }) host)
unfolding fill_host host_strs
fill_host-Filled slab n p (some cached) host xs live held = record { holds = held; len = refl }
fill_host-Filled slab n p none host xs live held =
    elim (root_cases slab host (n ∷ p ∷ xs) live held) [
      | inl (slab', e, same, _) ↦
          let entry : HostEntry = record { name = n; port = p; host = none } in
          let eq : (host, slab', entry) ≡ fill_host slab entry host = ground (arith, e) in
          subst (Filled slab xs) eq (record {
            holds = subst (λ slots. IsRooted slots (n ∷ p ∷ xs)) (sym same) held;
            len = ap length same;
          })
      | inr (c, slab', e, rc) ↦
          let entry : HostEntry = record { name = n; port = p; host = none } in
          let eq : (c.value, slab', record entry { host = some c }) ≡ fill_host slab entry host =
            ground (arith, e) in
          subst (Filled slab xs) eq (filled slab slab' n p c host xs rc)
    ]

module _ (L : Lru) where
  open L use {Cache, entries, capacity}

  -- The shelf after an entry was filled and written back.
  written_back :
      (others : List CachedStr) (cap len : ℕ) (key : Key) (host : RString)
      (shelf : Shelf L HostEntry) (entry : HostEntry) (back : HostEntry → Cache HostEntry)
      (rest : List (Key × HostEntry))
      → host.raw ≢ 0
      → SameItems (entries shelf.cache) ((key, entry) ∷ rest)
      → ((v : HostEntry) → SameItems (entries (back v)) ((key, v) ∷ rest))
      → ((v : HostEntry) → capacity (back v) ≡ capacity shelf.cache)
      → IsKept L host_strs others cap len shelf
      → let (found, slab', entry') = fill_host shelf.slab entry host in
        IsKept L host_strs others cap len (record { slab = slab'; cache = back entry' })
  written_back others cap len key host shelf entry back rest live here there cap_same k =
      let xs : List CachedStr = strs_of host_strs (map (λ e. e.1) rest) ++ others in
      let entry' = (fill_host shelf.slab entry host).2 in
      let slab' = (fill_host shelf.slab entry host).1 in
      let weigh_rest : (w : CachedStr → ℕ)
          → weigh w xs
            ≡ weigh (λ (e : Key × HostEntry). weigh w (host_strs (e.1))) rest + weigh w others =
        λ w. omega (
          arith,
          weigh-append w (strs_of host_strs (map (λ e. e.1) rest)) others,
          weigh-strs_of w host_strs (map (λ e. e.1) rest),
          weigh-map (λ v. weigh w (host_strs v)) (λ (e : Key × HostEntry). e.1) rest,
        ) in
      let before : SameItems (held_in L host_strs shelf.cache ++ others) (host_strs entry ++ xs) =
        λ w. omega (
          arith,
          weigh-append w (held_in L host_strs shelf.cache) others,
          weigh-append w (host_strs entry) xs,
          weigh_rest w,
          weigh-held_in L w host_strs shelf.cache,
          here (λ e. weigh w (host_strs (e.1))),
        ) in
      let after : SameItems (host_strs entry' ++ xs) (held_in L host_strs (back entry') ++ others) =
        λ w. omega (
          arith,
          weigh-append w (held_in L host_strs (back entry')) others,
          weigh-append w (host_strs entry') xs,
          weigh_rest w,
          weigh-held_in L w host_strs (back entry'),
          there entry' (λ e. weigh w (host_strs (e.1))),
        ) in
      let f : Filled shelf.slab xs (fill_host shelf.slab entry host) =
        fill_host-Filled shelf.slab entry.name entry.port entry.host host xs live (
          SameItems-IsRooted shelf.slab.slots (held_in L host_strs shelf.cache ++ others)
            (host_strs entry ++ xs) before k.holds) in
      record {
        holds =
            SameItems-IsRooted slab'.slots (host_strs entry' ++ xs)
              (held_in L host_strs (back entry') ++ others) after f.holds;
        bound = omega (arith, here (λ e. 1), there entry' (λ e. 1), k.bound);
        cap_eq = cap_same entry' ∙ k.cap_eq;
        slots_len = f.len ∙ k.slots_len;
      }

  pub adopt-IsKept :
      (others : List CachedStr) (cap len : ℕ) (key : Key) (pair : RString × RString)
      (host : RString) (shelf : Shelf L HostEntry)
      → host.raw ≢ 0
      → IsKept L host_strs others cap len shelf
      → IsKept L host_strs others cap len (adopt L key pair host shelf).1
  unfolding adopt
  adopt-IsKept others cap len key pair host shelf live k = elim (L.get_mut_cases key shelf.cache) [
    | inl (e, miss) ↦
        let eq : shelf ≡ (adopt L key pair host shelf).1 = ground (arith, e) in
        subst (IsKept L host_strs others cap len) eq k
    | inr (entry, back, rest, e, here, there, cap_same) ↦
        let (found, slab', entry') = fill_host shelf.slab entry host in
        let eq : record { slab = slab'; cache = back entry' } ≡ (adopt L key pair host shelf).1 =
          ground (arith, e) in
        subst (IsKept L host_strs others cap len) eq
          (written_back others cap len key host shelf entry back rest live here there cap_same k)
  ]

  pub settle_full-IsKept :
      (others : List CachedStr) (cap len : ℕ) (key : Key) (pair : RString × RString)
      (host : RString) (shelf : Shelf L HostEntry)
      → 0 < cap
      → host.raw ≢ 0
      → IsKept L host_strs others cap len shelf
      → Rooted L host_strs
          (held_in L host_strs shelf.cache ++ others)
          shelf.slab
          (root_host shelf.slab pair.0 pair.1 (some host))
      → IsKept L host_strs others cap len (settle_full L key pair host shelf).1
  unfolding settle_full
  settle_full-IsKept others cap len key pair host shelf pos live k rooted =
      elim (L.get_mut_cases key shelf.cache) [
        | inl (e, miss) ↦
            let r = root_host shelf.slab pair.0 pair.1 (some host) in
            let eq : store L host_strs key r shelf ≡ (settle_full L key pair host shelf).1 =
              ground (arith, e) in
            subst (IsKept L host_strs others cap len) eq
              (store-IsKept L host_strs others cap len key shelf r pos miss k rooted)
        | inr (entry, back, rest, e, here, there, cap_same) ↦
            let (found, slab', entry') = fill_host shelf.slab entry host in
            let eq : record { slab = slab'; cache = back entry' }
                ≡ (settle_full L key pair host shelf).1 =
              ground (arith, e) in
            subst (IsKept L host_strs others cap len) eq (
              written_back others cap len key host shelf entry back rest live here there cap_same k)
      ]
