-- ===== src/EnvStrings/Honest.antt =====
-- Critical sections that settle each key's own text keep the caches right, and so do the calls.
use kino.Prelude.{◌≡◌, subst, inl, inr, Option, none, some, Option-cases, List, ◌∷◌, arith}
use kino.Pin.{PinSlab}
use kino.Lru.{Lru, Key, SameItems}
use kino.EnvStrings.{
  RString, CachedStr, HostEntry, root, root_host, host_strs, name_port, fill_host,
}
use kino.EnvStrings.Caches.{EnvStrings, Shelf, store, adopt, settle_full}
use kino.EnvStrings.Right.{
  wrong_str, wrong_host, right_text, text_of_right, IsRightIn, HasRoom, store-IsRightIn, root-value,
  root_host-full_right,
}
use kino.EnvStrings.Sections.{
  Section, look_host, look_authority, look_addr, look_value, settle_host, adopt_authority,
  settle_authority, settle_addr, settle_value, IsSound,
}

-- A section that settles a text settles the key's.
abbrev pub IsHonest : Section → Type 0
IsHonest (look_host key) = Unit
IsHonest (look_authority key) = Unit
IsHonest (look_addr key) = Unit
IsHonest (look_value key) = Unit
IsHonest (settle_host key name port) = Unit
IsHonest (adopt_authority key pair host) = host ≡ key
IsHonest (settle_authority key name port host) = host ≡ key
IsHonest (settle_addr key text) = text ≡ key
IsHonest (settle_value key text) = text ≡ key

module _ (L : Lru) where
  open L use {Cache, entries, capacity}

  pub record IsFaithful (s : EnvStrings L) : Type 0 where
    pub sound : IsSound L s
    pub hosts : IsRightIn L wrong_host s.hosts
    pub addrs : IsRightIn L wrong_str s.addrs
    pub values : IsRightIn L wrong_str s.values

  fill_right :
      (slab : PinSlab) (key : Key) (n p : CachedStr) (h : Option CachedStr) (host : RString)
      → host.text ≡ key
      → wrong_host (key, record { name = n; port = p; host = h }) ≡ 0
      → let (found, slab', entry') =
          fill_host slab (record { name = n; port = p; host = h }) host in
        (found.text ≡ key) × (wrong_host (key, entry') ≡ 0)
  unfolding fill_host
  fill_right slab key n p (some c) host same r = (text_of_right c.value key r, r)
  fill_right slab key n p none host same r = elim (Option-cases (root slab host).1) [
    | inl e ↦ ground (arith, e, same)
    | inr (c, e) ↦ ground (arith, e, same, root-value slab host c e, right_text host key same)
  ]

  abbrev pub RightAfter : Key → ((RString × RString) × RString) × Shelf L HostEntry → Type 0
  RightAfter key r = IsRightIn L wrong_host (r.1).cache × ((r.0).1.text ≡ key)

  written :
      (key : Key) (host : RString) (shelf : Shelf L HostEntry) (entry : HostEntry)
      (back : HostEntry → Cache HostEntry) (rest : List (Key × HostEntry))
      → host.text ≡ key
      → SameItems (entries shelf.cache) ((key, entry) ∷ rest)
      → ((v : HostEntry) → SameItems (entries (back v)) ((key, v) ∷ rest))
      → IsRightIn L wrong_host shelf.cache
      → let (found, slab', entry') = fill_host shelf.slab entry host in
        IsRightIn L wrong_host (back entry') × (found.text ≡ key)
  written key host shelf entry back rest same here there r =
      let f =
        fill_right shelf.slab key entry.name entry.port entry.host host same
          (omega (arith, here wrong_host, r)) in
      let entry' = (fill_host shelf.slab entry host).2 in
      (omega (arith, there entry' wrong_host, here wrong_host, f.1, r), f.0)

  pub adopt-RightAfter :
      (key : Key) (pair : RString × RString) (host : RString) (shelf : Shelf L HostEntry)
      → host.text ≡ key
      → IsRightIn L wrong_host shelf.cache
      → RightAfter key (adopt L key pair host shelf)
  unfolding adopt
  adopt-RightAfter key pair host shelf same r = elim (L.get_mut_cases key shelf.cache) [
    | inl (e, miss) ↦
        let eq : ((pair, host), shelf) ≡ adopt L key pair host shelf = ground (arith, e) in
        subst (RightAfter key) eq (r, same)
    | inr (entry, back, rest, e, here, there, _) ↦
        let (found, slab', entry') = fill_host shelf.slab entry host in
        let eq : ((pair, found), record { slab = slab'; cache = back entry' })
            ≡ adopt L key pair host shelf =
          ground (arith, e) in
        subst (RightAfter key) eq (written key host shelf entry back rest same here there r)
  ]

  pub settle_full-RightAfter :
      (key : Key) (pair : RString × RString) (host : RString) (shelf : Shelf L HostEntry)
      → host.text ≡ key
      → HasRoom L wrong_host shelf.cache
      → IsRightIn L wrong_host shelf.cache
      → RightAfter key (settle_full L key pair host shelf)
  unfolding settle_full
  settle_full-RightAfter key pair host shelf same room r = elim (L.get_mut_cases key shelf.cache) [
    | inl (e, miss) ↦
        let rooted = root_host shelf.slab pair.0 pair.1 (some host) in
        let eq : ((pair, host), store L host_strs key rooted shelf)
            ≡ settle_full L key pair host shelf =
          ground (arith, e) in
        subst (RightAfter key) eq (
          store-IsRightIn L wrong_host host_strs key rooted.0 rooted.1 shelf
              (λ entry found.
                root_host-full_right shelf.slab pair.0 pair.1 host key entry same found)
              miss room r,
          same,
        )
    | inr (entry, back, rest, e, here, there, _) ↦
        let (found, slab', entry') = fill_host shelf.slab entry host in
        let eq : ((name_port entry, found), record { slab = slab'; cache = back entry' })
            ≡ settle_full L key pair host shelf =
          ground (arith, e) in
        subst (RightAfter key) eq (written key host shelf entry back rest same here there r)
  ]
