-- ===== src/EnvStrings/HostCalls.antt =====
-- The calls on the cache of hosts keep the caches faithful, and give an authority's own text.
use kino.Prelude.{ℕ, ◌≡◌, refl, sym, ap, subst, ◌∙◌, inl, inr, some, Option-cases, List, All, arith}
use kino.Lru.{Lru, Key}
use kino.EnvStrings.{Ruby, RString, HostEntry, name_port}
use kino.EnvStrings.Caches.{
  EnvStrings, lookup, adopt, settle_full, read_full, host_shelf, with_hosts, host_env,
  authority_env, get_or_insert, after_peek,
}
use kino.EnvStrings.Right.{wrong_text, wrong_host, text_of_right, lookup-IsRightIn}
use kino.EnvStrings.Sections.{
  Section, look_host, look_authority, settle_host, adopt_authority, settle_authority, run, run_all,
}
use kino.EnvStrings.Reach.{peek_cases}
use kino.EnvStrings.Honest.{IsHonest, IsFaithful, adopt-RightAfter, settle_full-RightAfter}
use kino.EnvStrings.Faithful.{run-IsFaithful, run_all-IsFaithful, hosts_room}

module _ (L : Lru) (ruby : Ruby) where
  open ruby use {frozen}

  pub host_env-IsFaithful :
      (others : List Section) (key name port : List ℕ) (s : EnvStrings L)
      → All IsHonest others
      → IsFaithful L s
      → IsFaithful L (host_env L (run_all L ruby others) key (frozen name, frozen port) s).1
  unfolding host_env get_or_insert run
  host_env-IsFaithful others key name port s honest v =
      let s1 = run L ruby (look_host key) s in
      let v1 : IsFaithful L s1 = run-IsFaithful L ruby (look_host key) s tt v in
      let s2 = run_all L ruby others s1 in
      let v2 : IsFaithful L s2 = run_all-IsFaithful L ruby others s1 honest v1 in
      elim (Option-cases (lookup L name_port key (host_shelf L s)).0) [
        | inr (t, e) ↦
            let eq : s1 ≡ (host_env L (run_all L ruby others) key (frozen name, frozen port) s).1 =
              ground (arith, e) in
            subst (IsFaithful L) eq v1
        | inl e ↦
            let eq : run L ruby (settle_host key name port) s2
                ≡ (host_env L (run_all L ruby others) key (frozen name, frozen port) s).1 =
              ground (arith, e) in
            subst (IsFaithful L) eq (run-IsFaithful L ruby (settle_host key name port) s2 tt v2)
      ]

  abbrev pub GivesFull : Key → ((RString × RString) × RString) × EnvStrings L → Type 0
  GivesFull key r = ((r.0).1.text ≡ key) × IsFaithful L (r.1)

  full_right :
      (key : Key) (entry : HostEntry) (pair : RString × RString) (full : RString)
      → read_full L entry ≡ (pair, some full)
      → wrong_host (key, entry) ≡ 0
      → full.text ≡ key
  unfolding read_full
  full_right key entry pair full e right = elim (Option-cases entry.host) [
    | inl none_left ↦ absurd (ground (arith, e, none_left))
    | inr (c, there) ↦
        let same : c.value ≡ full = ground (arith, e, there) in
        let right_c : wrong_text c.value key ≡ 0 = ground (arith, there, right) in
        ap (λ x. x.text) (sym same) ∙ text_of_right c.value key right_c
  ]

  -- Whatever the other workers settle meanwhile, each under its key's own text, the string that an
  -- authority's call gives for HTTP_HOST is the authority.
  pub authority_env-GivesFull :
      (others : List Section) (key name port : List ℕ) (s : EnvStrings L)
      → All IsHonest others
      → IsFaithful L s
      → GivesFull key
          (authority_env L (run_all L ruby others) key (frozen name, frozen port) (frozen key) s)
  unfolding authority_env after_peek run
  authority_env-GivesFull others key name port s honest v =
      let fresh_right = ruby.text-frozen key in
      let looked = lookup-IsRightIn L wrong_host (read_full L) key (host_shelf L s) v.hosts in
      let s1 = run L ruby (look_authority key) s in
      let v1 : IsFaithful L s1 = run-IsFaithful L ruby (look_authority key) s tt v in
      let s2 = run_all L ruby others s1 in
      let v2 : IsFaithful L s2 = run_all-IsFaithful L ruby others s1 honest v1 in
      let call =
        authority_env L (run_all L ruby others) key (frozen name, frozen port) (frozen key) s in
      elim (peek_cases L ruby (lookup L (read_full L) key (host_shelf L s)).0) [
        | inl e ↦
            let r = settle_full L key (frozen name, frozen port) (frozen key) (host_shelf L s2) in
            let eq : (r.0, with_hosts L r.1 s2) ≡ call = ground (arith, e) in
            subst (GivesFull key) eq (
              (settle_full-RightAfter L key (frozen name, frozen port) (frozen key)
                  (host_shelf L s2) fresh_right (hosts_room L ruby s2 v2.sound) v2.hosts).1,
              run-IsFaithful L ruby (settle_authority key name port key) s2 refl v2,
            )
        | inr (inl (pair, e)) ↦
            let r = adopt L key pair (frozen key) (host_shelf L s2) in
            let eq : (r.0, with_hosts L r.1 s2) ≡ call = ground (arith, e) in
            subst (GivesFull key) eq (
              (adopt-RightAfter L key pair (frozen key) (host_shelf L s2) fresh_right v2.hosts).1,
              run-IsFaithful L ruby (adopt_authority key pair key) s2 refl v2,
            )
        | inr (inr (pair, full, e)) ↦
            let (entry, read, right) = looked.1 (pair, some full) e in
            let eq : ((pair, full), s1) ≡ call = ground (arith, e) in
            subst (GivesFull key) eq (full_right key entry pair full read right, v1)
      ]
