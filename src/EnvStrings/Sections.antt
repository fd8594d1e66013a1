-- ===== src/EnvStrings/Sections.antt =====
-- The critical sections of every worker on the shared caches, in any order.
use kino.Prelude.{
  ℕ, ◌≤◌, ◌≡◌, refl, sym, ap, subst, inl, inr, Option, none, some, List, [], ◌∷◌, ◌++◌, length,
  arith,
}
use kino.Pin.{PinSlab}
use kino.Lru.{Lru, Key, weigh, weigh-append, SameItems}
use kino.EnvStrings.{
  Ruby, RString, CachedStr, HostEntry, root, root_host, host_strs, str_strs, name_port,
  host_cache_cap, addr_cache_cap, value_cache_cap, cache_slab_capacity,
}
use kino.EnvStrings.Caches.{
  EnvStrings, Shelf, lookup, settle, adopt, settle_full, read_full, host_shelf, with_hosts,
  addr_shelf, with_addrs, value_shelf, with_values,
}
use kino.EnvStrings.Root.{Holds, SameItems-IsRooted, root_cases}
use kino.EnvStrings.Rooted.{Live, root_host-HostRooted}
use kino.EnvStrings.Kept.{IsKept, Rooted, held_in, lookup-IsKept, settle-IsKept}
use kino.EnvStrings.Fill.{adopt-IsKept, settle_full-IsKept}

-- One critical section of some worker; the texts are those of the strings that it allocated.
pub data Section : Type 0 where
  look_host look_authority look_addr look_value : Key → Section
  settle_host : Key → List ℕ → List ℕ → Section
  adopt_authority : Key → RString × RString → List ℕ → Section
  settle_authority : Key → List ℕ → List ℕ → List ℕ → Section
  settle_addr settle_value : Key → List ℕ → Section

module _ (L : Lru) where
  -- The strings that the caches own.
  abbrev pub held : EnvStrings L → List CachedStr
  held s =
      held_in L host_strs s.hosts ++ (held_in L str_strs s.addrs ++ held_in L str_strs s.values)

  -- Every cached string's slot holds its VALUE, no two have one slot, no other slot is occupied,
  -- and no cache is over its capacity.
  pub record IsSound (s : EnvStrings L) : Type 0 where
    pub holds : Holds s.slab (held s)
    pub hosts_bound : weigh (λ e. 1) (L.entries s.hosts) ≤ host_cache_cap
    pub addrs_bound : weigh (λ e. 1) (L.entries s.addrs) ≤ addr_cache_cap
    pub values_bound : weigh (λ e. 1) (L.entries s.values) ≤ value_cache_cap
    pub hosts_cap : L.capacity s.hosts ≡ host_cache_cap
    pub addrs_cap : L.capacity s.addrs ≡ addr_cache_cap
    pub values_cap : L.capacity s.values ≡ value_cache_cap
    pub slots_len : length s.slab.slots ≡ cache_slab_capacity

  abbrev host_others : EnvStrings L → List CachedStr
  host_others s = held_in L str_strs s.addrs ++ held_in L str_strs s.values

  abbrev addr_others : EnvStrings L → List CachedStr
  addr_others s = held_in L host_strs s.hosts ++ held_in L str_strs s.values

  abbrev value_others : EnvStrings L → List CachedStr
  value_others s = held_in L host_strs s.hosts ++ held_in L str_strs s.addrs

  swap_first : (xs ys zs : List CachedStr) → SameItems (xs ++ (ys ++ zs)) (ys ++ (xs ++ zs))
  swap_first xs ys zs w = omega (
    arith,
    weigh-append w xs (ys ++ zs),
    weigh-append w ys zs,
    weigh-append w ys (xs ++ zs),
    weigh-append w xs zs,
  )

  swap_last : (xs ys zs : List CachedStr) → SameItems (xs ++ (ys ++ zs)) (zs ++ (xs ++ ys))
  swap_last xs ys zs w = omega (
    arith,
    weigh-append w xs (ys ++ zs),
    weigh-append w ys zs,
    weigh-append w zs (xs ++ ys),
    weigh-append w xs ys,
  )

  abbrev HostsKept : List CachedStr → Shelf L HostEntry → Type 0
  HostsKept others = IsKept L host_strs others host_cache_cap cache_slab_capacity

  abbrev AddrsKept : List CachedStr → Shelf L CachedStr → Type 0
  AddrsKept others = IsKept L str_strs others addr_cache_cap cache_slab_capacity

  abbrev ValuesKept : List CachedStr → Shelf L CachedStr → Type 0
  ValuesKept others = IsKept L str_strs others value_cache_cap cache_slab_capacity

  hosts-Kept : (s : EnvStrings L) → IsSound s → HostsKept (host_others s) (host_shelf L s)
  hosts-Kept s v = record {
    holds = v.holds;
    bound = v.hosts_bound;
    cap_eq = v.hosts_cap;
    slots_len = v.slots_len;
  }

  hosts-Sound :
      (s : EnvStrings L) (shelf : Shelf L HostEntry)
      → IsSound s
      → HostsKept (host_others s) shelf
      → IsSound (with_hosts L shelf s)
  hosts-Sound s shelf v k = record {
    holds = k.holds;
    hosts_bound = k.bound;
    addrs_bound = v.addrs_bound;
    values_bound = v.values_bound;
    hosts_cap = k.cap_eq;
    addrs_cap = v.addrs_cap;
    values_cap = v.values_cap;
    slots_len = k.slots_len;
  }

  addrs-Kept : (s : EnvStrings L) → IsSound s → AddrsKept (addr_others s) (addr_shelf L s)
  addrs-Kept s v = record {
    holds =
        SameItems-IsRooted s.slab.slots (held s) (held_in L str_strs s.addrs ++ addr_others s)
          (swap_first (held_in L host_strs s.hosts) (held_in L str_strs s.addrs)
            (held_in L str_strs s.values))
          v.holds;
    bound = v.addrs_bound;
    cap_eq = v.addrs_cap;
    slots_len = v.slots_len;
  }

  addrs-Sound :
      (s : EnvStrings L) (shelf : Shelf L CachedStr)
      → IsSound s
      → AddrsKept (addr_others s) shelf
      → IsSound (with_addrs L shelf s)
  addrs-Sound s shelf v k = record {
    holds =
        SameItems-IsRooted shelf.slab.slots (held_in L str_strs shelf.cache ++ addr_others s)
          (held (with_addrs L shelf s))
          (swap_first (held_in L str_strs shelf.cache) (held_in L host_strs s.hosts)
            (held_in L str_strs s.values))
          k.holds;
    hosts_bound = v.hosts_bound;
    addrs_bound = k.bound;
    values_bound = v.values_bound;
    hosts_cap = v.hosts_cap;
    addrs_cap = k.cap_eq;
    values_cap = v.values_cap;
    slots_len = k.slots_len;
  }

  values-Kept : (s : EnvStrings L) → IsSound s → ValuesKept (value_others s) (value_shelf L s)
  values-Kept s v = record {
    holds =
        SameItems-IsRooted s.slab.slots (held s) (held_in L str_strs s.values ++ value_others s)
          (swap_last (held_in L host_strs s.hosts) (held_in L str_strs s.addrs)
            (held_in L str_strs s.values))
          v.holds;
    bound = v.values_bound;
    cap_eq = v.values_cap;
    slots_len = v.slots_len;
  }

  values-Sound :
      (s : EnvStrings L) (shelf : Shelf L CachedStr)
      → IsSound s
      → ValuesKept (value_others s) shelf
      → IsSound (with_values L shelf s)
  values-Sound s shelf v k = record {
    holds =
        SameItems-IsRooted shelf.slab.slots (held_in L str_strs shelf.cache ++ value_others s)
          (held (with_values L shelf s))
          (λ w. sym (
            swap_last (held_in L host_strs s.hosts) (held_in L str_strs s.addrs)
              (held_in L str_strs shelf.cache) w))
          k.holds;
    hosts_bound = v.hosts_bound;
    addrs_bound = v.addrs_bound;
    values_bound = k.bound;
    hosts_cap = v.hosts_cap;
    addrs_cap = v.addrs_cap;
    values_cap = k.cap_eq;
    slots_len = k.slots_len;
  }

module _ (L : Lru) (ruby : Ruby) where
  open ruby use {frozen}

  unfoldable pub run : Section → EnvStrings L → EnvStrings L
  run (look_host key) s = with_hosts L (lookup L name_port key (host_shelf L s)).1 s
  run (look_authority key) s = with_hosts L (lookup L (read_full L) key (host_shelf L s)).1 s
  run (look_addr key) s = with_addrs L (lookup L (λ c. c.value) key (addr_shelf L s)).1 s
  run (look_value key) s = with_values L (lookup L (λ c. c.value) key (value_shelf L s)).1 s
  run (settle_host key name port) s =
      with_hosts L
        (settle L name_port host_strs (λ slab. root_host slab (frozen name) (frozen port) none) key
          (frozen name, frozen port) (host_shelf L s)).1
        s
  run (adopt_authority key pair host) s =
      with_hosts L (adopt L key pair (frozen host) (host_shelf L s)).1 s
  run (settle_authority key name port host) s =
      with_hosts L (settle_full L key (frozen name, frozen port) (frozen host) (host_shelf L s)).1 s
  run (settle_addr key text) s =
      with_addrs L
        (settle L (λ c. c.value) str_strs (λ slab. root slab (frozen text)) key (frozen text)
          (addr_shelf L s)).1
        s
  run (settle_value key text) s =
      with_values L
        (settle L (λ c. c.value) str_strs (λ slab. root slab (frozen text)) key (frozen text)
          (value_shelf L s)).1
        s

  unfoldable pub run_all : List Section → EnvStrings L → EnvStrings L
  unfolding run
  run_all [] s = s
  run_all (section ∷ rest) s = run_all rest (run section s)

  host_attempt :
      (s : EnvStrings L) (name port : List ℕ) (host : Option RString)
      → Live host
      → IsSound L s
      → Rooted L host_strs (held L s) s.slab (root_host s.slab (frozen name) (frozen port) host)
  host_attempt s name port host live v =
      elim (root_host-HostRooted s.slab (frozen name) (frozen port) host (held L s)
        (ruby.raw-frozen name) (ruby.raw-frozen port) live v.holds) [
          | inl (e, same, _) ↦ (ap length same, inl (e, same))
          | inr (entry, e, r) ↦ (r.len, inr (entry, e, r.holds))
        ]

  str_attempt :
      (slab : PinSlab) (text : List ℕ) (xs : List CachedStr)
      → Holds slab xs
      → Rooted L str_strs xs slab (root slab (frozen text))
  unfolding str_strs
  str_attempt slab text xs h = elim (root_cases slab (frozen text) xs (ruby.raw-frozen text) h) [
    | inl (slab', e, same, _) ↦
        subst (Rooted L str_strs xs slab) (sym e) (ap length same, inl (refl, same))
    | inr (c, slab', e, r) ↦
        subst (Rooted L str_strs xs slab) (sym e) (r.len, inr (c, refl, r.holds))
  ]

  pub run-IsSound : (section : Section) (s : EnvStrings L) → IsSound L s → IsSound L (run section s)
  unfolding run
  run-IsSound (look_host key) s v = hosts-Sound L s _ v (
      lookup-IsKept L name_port host_strs (host_others L s) _ _ key (host_shelf L s)
        (hosts-Kept L s v))
  run-IsSound (look_authority key) s v = hosts-Sound L s _ v (
      lookup-IsKept L (read_full L) host_strs (host_others L s) _ _ key (host_shelf L s)
        (hosts-Kept L s v))
  run-IsSound (look_addr key) s v = addrs-Sound L s _ v (
      lookup-IsKept L (λ c. c.value) str_strs (addr_others L s) _ _ key (addr_shelf L s)
        (addrs-Kept L s v))
  run-IsSound (look_value key) s v = values-Sound L s _ v (
      lookup-IsKept L (λ c. c.value) str_strs (value_others L s) _ _ key (value_shelf L s)
        (values-Kept L s v))
  run-IsSound (settle_host key name port) s v = hosts-Sound L s _ v (
      settle-IsKept L name_port host_strs (λ slab. root_host slab (frozen name) (frozen port) none)
        (host_others L s) _ _ key (frozen name, frozen port) (host_shelf L s) (omega arith)
        (hosts-Kept L s v) (host_attempt s name port none tt v))
  run-IsSound (adopt_authority key pair host) s v = hosts-Sound L s _ v (
      adopt-IsKept L (host_others L s) _ _ key pair (frozen host) (host_shelf L s)
        (ruby.raw-frozen host) (hosts-Kept L s v))
  run-IsSound (settle_authority key name port host) s v = hosts-Sound L s _ v (
      settle_full-IsKept L (host_others L s) _ _ key (frozen name, frozen port) (frozen host)
        (host_shelf L s) (omega arith) (ruby.raw-frozen host) (hosts-Kept L s v)
        (host_attempt s name port (some (frozen host)) (ruby.raw-frozen host) v))
  run-IsSound (settle_addr key text) s v = addrs-Sound L s _ v (
      settle-IsKept L (λ c. c.value) str_strs (λ slab. root slab (frozen text)) (addr_others L s) _
        _ key (frozen text) (addr_shelf L s) (omega arith) (addrs-Kept L s v)
        (str_attempt s.slab text _ (addrs-Kept L s v).holds))
  run-IsSound (settle_value key text) s v = values-Sound L s _ v (
      settle-IsKept L (λ c. c.value) str_strs (λ slab. root slab (frozen text)) (value_others L s) _
        _ key (frozen text) (value_shelf L s) (omega arith) (values-Kept L s v)
        (str_attempt s.slab text _ (values-Kept L s v).holds))
