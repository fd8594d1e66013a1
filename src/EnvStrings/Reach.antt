-- ===== src/EnvStrings/Reach.antt =====
-- The caches after any number of critical sections.
use kino.Prelude.{
  ℕ, ◌+◌, ◌*◌, ◌^◌, ◌≤◌, ◌≡◌, ◌≢◌, refl, ap, ◌∙◌, ◌⊎◌, inl, inr, Option, none, some, List, [], ◌∷◌,
  ◌++◌, length, length-replicate, get_or-replicate, arith,
}
use kino.Pin.{with_capacity}
use kino.Lru.{Lru, weigh, weigh-append}
use kino.EnvStrings.{
  Ruby, RString, CachedStr, HostEntry, root, root_host, host_strs, str_strs, host_cache_cap,
  addr_cache_cap, value_cache_cap, cache_slab_capacity,
}
use kino.EnvStrings.Caches.{
  EnvStrings, init, lookup, read_full, host_shelf, host_env, addr_env, value_env, authority_env,
  get_or_insert, after_peek,
}
use kino.EnvStrings.Root.{root_cases, at_slot}
use kino.EnvStrings.Rooted.{root_host-HostRooted, insert-room}
use kino.EnvStrings.Kept.{held_in, weigh-held_in}
use kino.EnvStrings.Sections.{
  Section, look_host, look_authority, look_addr, look_value, settle_host, adopt_authority,
  settle_authority, settle_addr, settle_value, run, run_all, held, IsSound, run-IsSound,
}

weigh-empty : {A : Type 0} (w : A → ℕ) (xs : List A) → xs ≡ [] → weigh w xs ≡ 0
weigh-empty w xs e = ap (weigh w) e

-- A weight on which every item weighs no more than `n`.
weigh-le :
    {A : Type 0} (w : A → ℕ) (n : ℕ) (xs : List A)
    → ((x : A) → w x ≤ n)
    → weigh w xs ≤ n * weigh (λ x. 1) xs
weigh-le w n [] h = omega arith
weigh-le w n (x ∷ xs) h = ground (arith, h x, weigh-le w n xs h)

length-weigh : {A : Type 0} (xs : List A) → weigh (λ x. 1) xs ≡ length xs
length-weigh [] = refl
length-weigh (x ∷ xs) = omega (arith, length-weigh xs)

host_strs-le : (entry : HostEntry) → weigh (λ x. 1) (host_strs entry) ≤ 3
unfolding host_strs
host_strs-le entry = ground arith

str_strs-le : (s : CachedStr) → weigh (λ x. 1) (str_strs s) ≤ 1
unfolding str_strs
str_strs-le s = omega arith

module _ (L : Lru) where
  weigh-held_empty :
      {V : Type 0} (w : CachedStr → ℕ) (strs : V → List CachedStr) (n : ℕ)
      → weigh w (held_in L strs (L.new n)) ≡ 0
  weigh-held_empty w strs n =
      weigh-held_in L w strs (L.new n)
      ∙ weigh-empty (λ e. weigh w (strs (e.1))) (L.entries (L.new n)) (L.new_lem n).0

  pub init-IsSound : IsSound L (init L)
  unfolding init with_capacity
  init-IsSound =
      let nothing : (w : CachedStr → ℕ) → weigh w (held L (init L)) ≡ 0 = λ w. omega (
        arith,
        weigh-append w (held_in L host_strs (L.new host_cache_cap)) (
            held_in L str_strs (L.new addr_cache_cap)
            ++ held_in L str_strs (L.new value_cache_cap)),
        weigh-append w (held_in L str_strs (L.new addr_cache_cap))
            (held_in L str_strs (L.new value_cache_cap)),
        weigh-held_empty w host_strs host_cache_cap,
        weigh-held_empty w str_strs addr_cache_cap,
        weigh-held_empty w str_strs value_cache_cap,
      ) in
      record {
        holds = record {
          ledger = λ i lt.
              ground (arith, nothing (at_slot i), get_or-replicate {A = ℕ} cache_slab_capacity i 0);
          rooted = nothing _;
        };
        hosts_bound = ground (
          arith,
          weigh-empty (λ e. 1) (L.entries (L.new {V = HostEntry} host_cache_cap))
              (L.new_lem host_cache_cap).0,
        );
        addrs_bound = ground (
          arith,
          weigh-empty (λ e. 1) (L.entries (L.new {V = CachedStr} addr_cache_cap))
              (L.new_lem addr_cache_cap).0,
        );
        values_bound = ground (
          arith,
          weigh-empty (λ e. 1) (L.entries (L.new {V = CachedStr} value_cache_cap))
              (L.new_lem value_cache_cap).0,
        );
        hosts_cap = (L.new_lem host_cache_cap).1;
        addrs_cap = (L.new_lem addr_cache_cap).1;
        values_cap = (L.new_lem value_cache_cap).1;
        slots_len = length-replicate {A = ℕ} cache_slab_capacity 0;
      }

  -- All the caches together own fewer strings than the slab has slots, by five.
  pub length-held : (s : EnvStrings L) → IsSound L s → length (held L s) + 5 ≤ cache_slab_capacity
  length-held s v = omega (
    arith,
    length-weigh (held L s),
    weigh-append (λ x. 1) (held_in L host_strs s.hosts)
        (held_in L str_strs s.addrs ++ held_in L str_strs s.values),
    weigh-append (λ x. 1) (held_in L str_strs s.addrs) (held_in L str_strs s.values),
    weigh-held_in L (λ x. 1) host_strs s.hosts,
    weigh-held_in L (λ x. 1) str_strs s.addrs,
    weigh-held_in L (λ x. 1) str_strs s.values,
    weigh-le (λ e. weigh (λ x. 1) (host_strs (e.1))) 3 (L.entries s.hosts)
        (λ e. host_strs-le (e.1)),
    weigh-le (λ e. weigh (λ x. 1) (str_strs (e.1))) 1 (L.entries s.addrs) (λ e. str_strs-le (e.1)),
    weigh-le (λ e. weigh (λ x. 1) (str_strs (e.1))) 1 (L.entries s.values) (λ e. str_strs-le (e.1)),
    v.hosts_bound,
    v.addrs_bound,
    v.values_bound,
  )

module _ (L : Lru) (ruby : Ruby) where
  open ruby use {frozen}

  run_all-IsSound :
      (sections : List Section) (s : EnvStrings L)
      → IsSound L s
      → IsSound L (run_all L ruby sections s)
  unfolding run_all
  run_all-IsSound [] s v = v
  run_all-IsSound (section ∷ rest) s v =
      run_all-IsSound rest (run L ruby section s) (run-IsSound L ruby section s v)

  -- Whatever critical sections the workers run on the caches, and in whatever order: every cached
  -- string's slot of the slab holds its VALUE, no two cached strings have one slot, no slot is
  -- occupied but theirs, and no cache is over its capacity.
  pub run_all-init-IsSound :
      (sections : List Section) → IsSound L (run_all L ruby sections (init L))
  run_all-init-IsSound sections = run_all-IsSound sections (init L) (init-IsSound L)

  -- The slab of the caches is never full: after any critical sections, short of the wrap of the
  -- slab's cursor, an entry with a host string and a string alone are rooted.
  pub root_host-never_refused :
      (sections : List Section) (name port host text : List ℕ)
      → (run_all L ruby sections (init L)).slab.cursor + cache_slab_capacity + 2 ≤ 2 ^ 64
      → let s = run_all L ruby sections (init L) in
        ((root_host s.slab (frozen name) (frozen port) (some (frozen host))).1 ≢ none)
        × ((root s.slab (frozen text)).1 ≢ none)
  unfolding root
  root_host-never_refused sections name port host text room =
      let s = run_all L ruby sections (init L) in
      let v = run_all-init-IsSound sections in
      let len = length-held L s v in
      (
        λ e.
            elim (root_host-HostRooted s.slab (frozen name) (frozen port) (some (frozen host))
              (held L s) (ruby.raw-frozen name) (ruby.raw-frozen port) (ruby.raw-frozen host)
              v.holds) [
                | inl (_, _, refused) ↦
                    refused (omega (arith, len, v.slots_len)) (omega (arith, room, v.slots_len))
                | inr (entry, found, _) ↦ absurd (ground (arith, e, found))
              ],
        λ e. elim (root_cases s.slab (frozen text) (held L s) (ruby.raw-frozen text) v.holds) [
          | inl (_, _, _, refused) ↦
              insert-room s.slab (frozen text).raw (held L s) v.holds
                (omega (arith, len, v.slots_len)) (omega (arith, room, v.slots_len)) refused
          | inr (c, _, found, _) ↦ absurd (ground (arith, e, found))
        ],
      )

  run_all-append :
      (xs ys : List Section) (s : EnvStrings L)
      → run_all L ruby (xs ++ ys) s ≡ run_all L ruby ys (run_all L ruby xs s)
  unfolding run_all
  run_all-append [] ys s = refl
  run_all-append (x ∷ xs) ys s = run_all-append xs ys (run L ruby x s)

  -- A call is its first critical section alone, or with its second one after other workers'.
  abbrev pub Sectioned : Section → List Section → Section → EnvStrings L → EnvStrings L → Type 0
  Sectioned look others settled s s' =
      (s' ≡ run L ruby look s) ⊎ (s' ≡ run_all L ruby (look ∷ (others ++ settled ∷ [])) s)

  second :
      (look : Section) (others : List Section) (settled : Section) (s : EnvStrings L)
      → run_all L ruby (look ∷ (others ++ settled ∷ [])) s
        ≡ run L ruby settled (run_all L ruby others (run L ruby look s))
  unfolding run_all
  second look others settled s = run_all-append others (settled ∷ []) (run L ruby look s)

  -- The calls that set SERVER_NAME and SERVER_PORT, REMOTE_ADDR, and a header's value are made of
  -- the critical sections above: a lookup alone, or a lookup, whatever the other workers run
  -- meanwhile, and the settling of a fresh value.
  env_calls-Sectioned :
      (others : List Section) (key name port text : List ℕ) (s : EnvStrings L)
      → let meanwhile = run_all L ruby others in
        Sectioned
          (look_host key)
          others
          (settle_host key name port)
          s
          (host_env L meanwhile key (frozen name, frozen port) s).1
        × Sectioned
            (look_addr key)
            others
            (settle_addr key text)
            s
            (addr_env L meanwhile key (frozen text) s).1
        × Sectioned
            (look_value key)
            others
            (settle_value key text)
            s
            (value_env L meanwhile key (frozen text) s).1
  unfolding host_env addr_env value_env get_or_insert run lookup
  env_calls-Sectioned others key name port text s = (
    elim (L.get_cases key s.hosts) [
      | inl e ↦ inr (ground (arith, e, second (look_host key) others (settle_host key name port) s))
      | inr (v, c', rest, e, _, _, _) ↦ inl (ground (arith, e))
    ],
    elim (L.get_cases key s.addrs) [
      | inl e ↦ inr (ground (arith, e, second (look_addr key) others (settle_addr key text) s))
      | inr (v, c', rest, e, _, _, _) ↦ inl (ground (arith, e))
    ],
    elim (L.get_cases key s.values) [
      | inl e ↦ inr (ground (arith, e, second (look_value key) others (settle_value key text) s))
      | inr (v, c', rest, e, _, _, _) ↦ inl (ground (arith, e))
    ],
  )

  pub peek_cases :
      (o : Option ((RString × RString) × Option RString))
      → (o ≡ none)
        ⊎ ((pair : RString × RString) × (o ≡ some (pair, none)))
        ⊎ ((pair : RString × RString) × (full : RString) × (o ≡ some (pair, some full)))
  peek_cases none = inl refl
  peek_cases (some (pair, none)) = inr (inl (pair, refl))
  peek_cases (some (pair, some full)) = inr (inr (pair, full, refl))

  -- The call that sets SERVER_NAME, SERVER_PORT and HTTP_HOST from an authority is a lookup alone
  -- if the entry has its full authority; else, after the other workers' critical sections, an
  -- entry found adopts the authority, or one with all three strings is settled.
  pub authority_env-run_all :
      (others : List Section) (key name port host : List ℕ) (s : EnvStrings L)
      → let s' =
          (authority_env L
            (run_all L ruby others)
            key
            (frozen name, frozen port)
            (frozen host)
            s).1 in
        (s' ≡ run L ruby (look_authority key) s)
        ⊎ ((pair : RString × RString) × (s'
              ≡ run_all L ruby
                  (look_authority key ∷ (others ++ adopt_authority key pair host ∷ []))
                  s))
        ⊎ (s'
            ≡ run_all L ruby
                (look_authority key ∷ (others ++ settle_authority key name port host ∷ []))
                s)
  unfolding authority_env after_peek run
  authority_env-run_all others key name port host s =
      let s1 = run L ruby (look_authority key) s in
      elim (peek_cases (lookup L (read_full L) key (host_shelf L s)).0) [
        | inl e ↦ inr (
            inr (
              ground (
                arith,
                e,
                second (look_authority key) others (settle_authority key name port host) s,
              )))
        | inr (inl (pair, e)) ↦ inr (
            inl (
              pair,
              ground
                  (arith, e, second (look_authority key) others (adopt_authority key pair host) s),
            ))
        | inr (inr (pair, full, e)) ↦ inl (ground (arith, e))
      ]
