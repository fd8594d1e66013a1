-- ===== src/EnvStrings/Caches.antt =====
-- env_strings.rs, `get_or_insert`, and the caches as one state.
use kino.Prelude.{Option, none, some, List, [], ◌∷◌, ◌++◌}
use kino.Pin.{PinSlab, with_capacity}
use kino.Lru.{Lru, Key}
use kino.EnvStrings.{
  RString, CachedStr, HostEntry, root, root_host, drop_strs, str_strs, host_strs, name_port,
  fill_host, host_cache_cap, addr_cache_cap, value_cache_cap, cache_slab_capacity,
}

-- The strings of every value.
unfoldable pub strs_of : {V : Type 0} → (V → List CachedStr) → List V → List CachedStr
strs_of strs [] = []
strs_of strs (v ∷ vs) = strs v ++ strs_of strs vs

module _ (L : Lru) where
  open L use {Cache}

  -- One cache and the slab that it shares with the others.
  pub record Shelf (V : Type 0) : Type 0 where
    pub slab : PinSlab
    pub cache : Cache V

  -- `EnvStrings`, its part that changes.
  pub record EnvStrings : Type 0 where
    pub slab : PinSlab
    pub hosts : Cache HostEntry
    pub addrs : Cache CachedStr
    pub values : Cache CachedStr

  unfoldable pub init : EnvStrings
  unfolding with_capacity
  init = record {
    slab = with_capacity cache_slab_capacity;
    hosts = L.new host_cache_cap;
    addrs = L.new addr_cache_cap;
    values = L.new value_cache_cap;
  }

  abbrev pub host_shelf : EnvStrings → Shelf HostEntry
  host_shelf s = record { slab = s.slab; cache = s.hosts }

  abbrev pub with_hosts : Shelf HostEntry → EnvStrings → EnvStrings
  with_hosts shelf s = record s { slab = shelf.slab; hosts = shelf.cache }

  abbrev pub addr_shelf : EnvStrings → Shelf CachedStr
  addr_shelf s = record { slab = s.slab; cache = s.addrs }

  abbrev pub with_addrs : Shelf CachedStr → EnvStrings → EnvStrings
  with_addrs shelf s = record s { slab = shelf.slab; addrs = shelf.cache }

  abbrev pub value_shelf : EnvStrings → Shelf CachedStr
  value_shelf s = record { slab = s.slab; cache = s.values }

  abbrev pub with_values : Shelf CachedStr → EnvStrings → EnvStrings
  with_values shelf s = record s { slab = shelf.slab; values = shelf.cache }

  module _ {V : Type 0} where
    -- The insert of the second critical section; what `put` drops clears its slots.
    unfoldable pub store : (V → List CachedStr) → Key → PinSlab × Option V → Shelf V → Shelf V
    store strs key (slab', none) shelf = record shelf { slab = slab' }
    store strs key (slab', some entry) shelf =
        let (cache', dropped) = L.put key entry shelf.cache in
        record { slab = drop_strs slab' (strs_of strs dropped); cache = cache' }

  module _ {V T : Type 0} where
    -- The first critical section.
    unfoldable pub lookup : (V → T) → Key → Shelf V → Option T × Shelf V
    lookup read key shelf =
        let (hit, cache') = L.get key shelf.cache in
        (elim hit [ some v ↦ some (read v) | none ↦ none ], record shelf { cache = cache' })

    -- The second critical section.
    unfoldable pub settle :
        (V → T)
        → (V → List CachedStr)
        → (PinSlab → PinSlab × Option V)
        → Key
        → T
        → Shelf V
        → T × Shelf V
    unfolding store
    settle read strs root_it key fresh shelf =
        let (hit, cache') = L.get key shelf.cache in
        elim hit [
          | some v ↦ (read v, record shelf { cache = cache' })
          | none ↦ (fresh, store strs key (root_it shelf.slab) (record shelf { cache = cache' }))
        ]

    -- `view` and `write` name the cache; `fresh` is what `build` makes.
    unfoldable pub get_or_insert :
        (EnvStrings → Shelf V)
        → (Shelf V → EnvStrings → EnvStrings)
        → (V → T)
        → (V → List CachedStr)
        → (T → PinSlab → PinSlab × Option V)
        → (EnvStrings → EnvStrings)
        → Key
        → T
        → EnvStrings
        → T × EnvStrings
    unfolding lookup settle
    get_or_insert view write read strs root_it meanwhile key fresh s =
        let (hit, shelf) = lookup read key (view s) in
        let s' = write shelf s in
        elim hit [
          | some found ↦ (found, s')
          | none ↦
              let (value, shelf') =
                settle read strs (root_it fresh) key fresh (view (meanwhile s')) in
              (value, write shelf' (meanwhile s'))
        ]

  -- `set_host_env`, as far as the caches go: the strings for SERVER_NAME and SERVER_PORT.
  unfoldable pub host_env :
      (EnvStrings → EnvStrings)
      → Key
      → RString × RString
      → EnvStrings
      → (RString × RString) × EnvStrings
  unfolding get_or_insert
  host_env meanwhile host fresh s =
      get_or_insert host_shelf with_hosts name_port host_strs
        (λ pair slab. root_host slab pair.0 pair.1 none) meanwhile host fresh s

  unfoldable pub addr_env :
      (EnvStrings → EnvStrings) → Key → RString → EnvStrings → RString × EnvStrings
  unfolding get_or_insert
  addr_env meanwhile ip fresh s =
      get_or_insert addr_shelf with_addrs (λ c. c.value) str_strs (λ string slab. root slab string)
        meanwhile ip fresh s

  unfoldable pub value_env :
      (EnvStrings → EnvStrings) → Key → RString → EnvStrings → RString × EnvStrings
  unfolding get_or_insert
  value_env meanwhile value fresh s =
      get_or_insert value_shelf with_values (λ c. c.value) str_strs
        (λ string slab. root slab string) meanwhile value fresh s

  -- `set_authority_env` reads the entry under the lock, with its full authority if it has one.
  unfoldable pub read_full : HostEntry → (RString × RString) × Option RString
  unfolding name_port
  read_full entry = (name_port entry, elim entry.host [ some h ↦ some h.value | none ↦ none ])

  -- The second critical section on an entry without the full authority.
  unfoldable pub adopt :
      Key
      → RString × RString
      → RString
      → Shelf HostEntry
      → ((RString × RString) × RString) × Shelf HostEntry
  unfolding fill_host
  adopt key pair host shelf = elim (L.get_mut key shelf.cache) [
    | some (entry, back) ↦
        let (found, slab', entry') = fill_host shelf.slab entry host in
        ((pair, found), record { slab = slab'; cache = back entry' })
    | none ↦ ((pair, host), shelf)
  ]

  -- The second critical section on a miss.
  unfoldable pub settle_full :
      Key
      → RString × RString
      → RString
      → Shelf HostEntry
      → ((RString × RString) × RString) × Shelf HostEntry
  unfolding fill_host store
  settle_full key pair host shelf = elim (L.get_mut key shelf.cache) [
    | some (entry, back) ↦
        let (found, slab', entry') = fill_host shelf.slab entry host in
        ((name_port entry, found), record { slab = slab'; cache = back entry' })
    | none ↦
        ((pair, host), store host_strs key (root_host shelf.slab pair.0 pair.1 (some host)) shelf)
  ]

  unfoldable pub after_peek :
      (EnvStrings → EnvStrings)
      → Key
      → RString × RString
      → RString
      → Option ((RString × RString) × Option RString)
      → EnvStrings
      → ((RString × RString) × RString) × EnvStrings
  unfolding adopt settle_full
  after_peek meanwhile key fresh host (some (pair, some full)) s = ((pair, full), s)
  after_peek meanwhile key fresh host (some (pair, none)) s =
      let (found, shelf) = adopt key pair host (host_shelf (meanwhile s)) in
      (found, with_hosts shelf (meanwhile s))
  after_peek meanwhile key fresh host none s =
      let (found, shelf) = settle_full key fresh host (host_shelf (meanwhile s)) in
      (found, with_hosts shelf (meanwhile s))

  -- `set_authority_env`, as far as the caches go: the strings for SERVER_NAME, SERVER_PORT, HTTP_HOST.
  unfoldable pub authority_env :
      (EnvStrings → EnvStrings)
      → Key
      → RString × RString
      → RString
      → EnvStrings
      → ((RString × RString) × RString) × EnvStrings
  unfolding lookup after_peek
  authority_env meanwhile authority fresh host s =
      let (hit, shelf) = lookup read_full authority (host_shelf s) in
      after_peek meanwhile authority fresh host hit (with_hosts shelf s)
