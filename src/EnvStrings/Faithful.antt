-- ===== src/EnvStrings/Faithful.antt =====
-- The calls that look up or settle a text give their key's own text, whatever other workers do.
use kino.Prelude.{
  ℕ, ◌≡◌, refl, sym, ap, subst, ◌∙◌, inl, inr, none, Option-cases, List, [], ◌∷◌, All, arith,
}
use kino.Lru.{Lru, Key, weigh}
use kino.EnvStrings.{Ruby, RString, CachedStr, root, root_host, host_strs, str_strs, name_port}
use kino.EnvStrings.Caches.{
  EnvStrings, Shelf, init, lookup, settle, read_full, host_shelf, addr_shelf, with_addrs,
  value_shelf, with_values, addr_env, value_env, get_or_insert,
}
use kino.EnvStrings.Right.{
  wrong_text, wrong_str, wrong_host, right_text, text_of_right, IsRightIn, HasRoom,
  lookup-IsRightIn, settle-IsRightIn, root-value, root_host-none,
}
use kino.EnvStrings.Sections.{
  Section, look_host, look_authority, look_addr, look_value, settle_host, adopt_authority,
  settle_authority, settle_addr, settle_value, run, run_all, IsSound, run-IsSound,
}
use kino.EnvStrings.Reach.{init-IsSound}
use kino.EnvStrings.Honest.{IsHonest, IsFaithful, adopt-RightAfter, settle_full-RightAfter}

module _ (L : Lru) (ruby : Ruby) where
  open L use {Cache, entries, capacity}
  open ruby use {frozen}

  pub hosts_room : (s : EnvStrings L) → IsSound L s → HasRoom L wrong_host s.hosts
  hosts_room s v = (omega (arith, v.hosts_cap), omega (arith, v.hosts_cap, v.hosts_bound))

  addrs_room : (s : EnvStrings L) → IsSound L s → HasRoom L wrong_str s.addrs
  addrs_room s v = (omega (arith, v.addrs_cap), omega (arith, v.addrs_cap, v.addrs_bound))

  values_room : (s : EnvStrings L) → IsSound L s → HasRoom L wrong_str s.values
  values_room s v = (omega (arith, v.values_cap), omega (arith, v.values_cap, v.values_bound))

  -- A section of a cache of strings that settles the key's own text.
  str_settled :
      (key : Key) (text : List ℕ) (shelf : Shelf L CachedStr)
      → text ≡ key
      → HasRoom L wrong_str shelf.cache
      → IsRightIn L wrong_str shelf.cache
      → let r =
          settle L
            (λ c. c.value)
            str_strs
            (λ slab. root slab (frozen text))
            key
            (frozen text)
            shelf in
        IsRightIn L wrong_str (r.1).cache × ((r.0).text ≡ key)
  str_settled key text shelf same room r =
      let fresh_right : (frozen text).text ≡ key = ruby.text-frozen text ∙ same in
      let settled =
        settle-IsRightIn L wrong_str (λ c. c.value) str_strs (λ slab. root slab (frozen text)) key
          (frozen text) shelf
          (λ c e.
            ap (λ string. wrong_text string key) (root-value shelf.slab (frozen text) c e)
            ∙ right_text (frozen text) key fresh_right)
          room r in
      (
        settled.0,
        elim settled.1 [
          | inl e ↦ ap (λ string. string.text) e ∙ fresh_right
          | inr (c, e, right) ↦ ap (λ string. string.text) e ∙ text_of_right c.value key right
        ],
      )

  pub run-IsFaithful :
      (section : Section) (s : EnvStrings L)
      → IsHonest section
      → IsFaithful L s
      → IsFaithful L (run L ruby section s)
  unfolding run
  run-IsFaithful (look_host key) s h v = record {
    sound = run-IsSound L ruby (look_host key) s v.sound;
    hosts = (lookup-IsRightIn L wrong_host name_port key (host_shelf L s) v.hosts).0;
    addrs = v.addrs;
    values = v.values;
  }
  run-IsFaithful (look_authority key) s h v = record {
    sound = run-IsSound L ruby (look_authority key) s v.sound;
    hosts = (lookup-IsRightIn L wrong_host (read_full L) key (host_shelf L s) v.hosts).0;
    addrs = v.addrs;
    values = v.values;
  }
  run-IsFaithful (look_addr key) s h v = record {
    sound = run-IsSound L ruby (look_addr key) s v.sound;
    hosts = v.hosts;
    addrs = (lookup-IsRightIn L wrong_str (λ c. c.value) key (addr_shelf L s) v.addrs).0;
    values = v.values;
  }
  run-IsFaithful (look_value key) s h v = record {
    sound = run-IsSound L ruby (look_value key) s v.sound;
    hosts = v.hosts;
    addrs = v.addrs;
    values = (lookup-IsRightIn L wrong_str (λ c. c.value) key (value_shelf L s) v.values).0;
  }
  run-IsFaithful (settle_host key name port) s h v = record {
    sound = run-IsSound L ruby (settle_host key name port) s v.sound;
    hosts =
        (settle-IsRightIn L wrong_host name_port host_strs
          (λ slab. root_host slab (frozen name) (frozen port) none) key (frozen name, frozen port)
          (host_shelf L s)
          (λ entry e. ground (arith, root_host-none s.slab (frozen name) (frozen port) entry e))
          (hosts_room s v.sound) v.hosts).0;
    addrs = v.addrs;
    values = v.values;
  }
  run-IsFaithful (adopt_authority key pair host) s h v = record {
    sound = run-IsSound L ruby (adopt_authority key pair host) s v.sound;
    hosts =
        (adopt-RightAfter L key pair (frozen host) (host_shelf L s) (ruby.text-frozen host ∙ h)
          v.hosts).0;
    addrs = v.addrs;
    values = v.values;
  }
  run-IsFaithful (settle_authority key name port host) s h v = record {
    sound = run-IsSound L ruby (settle_authority key name port host) s v.sound;
    hosts =
        (settle_full-RightAfter L key (frozen name, frozen port) (frozen host) (host_shelf L s)
          (ruby.text-frozen host ∙ h) (hosts_room s v.sound) v.hosts).0;
    addrs = v.addrs;
    values = v.values;
  }
  run-IsFaithful (settle_addr key text) s h v = record {
    sound = run-IsSound L ruby (settle_addr key text) s v.sound;
    hosts = v.hosts;
    addrs = (str_settled key text (addr_shelf L s) h (addrs_room s v.sound) v.addrs).0;
    values = v.values;
  }
  run-IsFaithful (settle_value key text) s h v = record {
    sound = run-IsSound L ruby (settle_value key text) s v.sound;
    hosts = v.hosts;
    addrs = v.addrs;
    values = (str_settled key text (value_shelf L s) h (values_room s v.sound) v.values).0;
  }

  pub run_all-IsFaithful :
      (sections : List Section) (s : EnvStrings L)
      → All IsHonest sections
      → IsFaithful L s
      → IsFaithful L (run_all L ruby sections s)
  unfolding run_all
  run_all-IsFaithful [] s h v = v
  run_all-IsFaithful (section ∷ rest) s (here, there) v =
      run_all-IsFaithful rest (run L ruby section s) there (run-IsFaithful section s here v)

  pub init-IsFaithful : IsFaithful L (init L)
  unfolding init
  init-IsFaithful = record {
    sound = init-IsSound L;
    hosts = ap (weigh wrong_host) (L.new_lem 256).0;
    addrs = ap (weigh wrong_str) (L.new_lem 1024).0;
    values = ap (weigh wrong_str) (L.new_lem 512).0;
  }

  -- What a call gives: a string with the key's own text, and caches that are faithful still.
  abbrev pub Gives : Key → RString × EnvStrings L → Type 0
  Gives key r = ((r.0).text ≡ key) × IsFaithful L (r.1)

  pub value_env-Gives :
      (others : List Section) (key : Key) (s : EnvStrings L)
      → All IsHonest others
      → IsFaithful L s
      → Gives key (value_env L (run_all L ruby others) key (frozen key) s)
  unfolding value_env get_or_insert run
  value_env-Gives others key s honest v =
      let looked = lookup-IsRightIn L wrong_str (λ c. c.value) key (value_shelf L s) v.values in
      let s1 = run L ruby (look_value key) s in
      let v1 : IsFaithful L s1 = run-IsFaithful (look_value key) s tt v in
      let s2 = run_all L ruby others s1 in
      let v2 : IsFaithful L s2 = run_all-IsFaithful others s1 honest v1 in
      elim (Option-cases (lookup L (λ c. c.value) key (value_shelf L s)).0) [
        | inr (t, e) ↦
            let (c, same, right) = looked.1 t e in
            let eq : (t, s1) ≡ value_env L (run_all L ruby others) key (frozen key) s =
              ground (arith, e) in
            subst (Gives key) eq (ap (λ x. x.text) (sym same) ∙ text_of_right c.value key right, v1)
        | inl e ↦
            let r =
              settle L (λ c. c.value) str_strs (λ slab. root slab (frozen key)) key (frozen key)
                (value_shelf L s2) in
            let eq : (r.0, with_values L r.1 s2)
                ≡ value_env L (run_all L ruby others) key (frozen key) s =
              ground (arith, e) in
            subst (Gives key) eq (
              (str_settled key key (value_shelf L s2) refl (values_room s2 v2.sound) v2.values).1,
              run-IsFaithful (settle_value key key) s2 refl v2,
            )
      ]

  pub addr_env-Gives :
      (others : List Section) (key : Key) (s : EnvStrings L)
      → All IsHonest others
      → IsFaithful L s
      → Gives key (addr_env L (run_all L ruby others) key (frozen key) s)
  unfolding addr_env get_or_insert run
  addr_env-Gives others key s honest v =
      let looked = lookup-IsRightIn L wrong_str (λ c. c.value) key (addr_shelf L s) v.addrs in
      let s1 = run L ruby (look_addr key) s in
      let v1 : IsFaithful L s1 = run-IsFaithful (look_addr key) s tt v in
      let s2 = run_all L ruby others s1 in
      let v2 : IsFaithful L s2 = run_all-IsFaithful others s1 honest v1 in
      elim (Option-cases (lookup L (λ c. c.value) key (addr_shelf L s)).0) [
        | inr (t, e) ↦
            let (c, same, right) = looked.1 t e in
            let eq : (t, s1) ≡ addr_env L (run_all L ruby others) key (frozen key) s =
              ground (arith, e) in
            subst (Gives key) eq (ap (λ x. x.text) (sym same) ∙ text_of_right c.value key right, v1)
        | inl e ↦
            let r =
              settle L (λ c. c.value) str_strs (λ slab. root slab (frozen key)) key (frozen key)
                (addr_shelf L s2) in
            let eq : (r.0, with_addrs L r.1 s2)
                ≡ addr_env L (run_all L ruby others) key (frozen key) s =
              ground (arith, e) in
            subst (Gives key) eq (
              (str_settled key key (addr_shelf L s2) refl (addrs_room s2 v2.sound) v2.addrs).1,
              run-IsFaithful (settle_addr key key) s2 refl v2,
            )
      ]
