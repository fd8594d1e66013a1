-- ===== src/EnvStrings.antt =====
-- ext/kino/src/env_strings.rs: the frozen strings that the Rack envs share.
-- A Ruby string is its VALUE, a number, with its bytes. The caches are shared by every worker; each
-- function below that takes a cache is one critical section, so what other workers do between two
-- sections of one call is an argument, `meanwhile`.
pub mod Names
pub mod Caches
pub mod Root
pub mod Rooted
pub mod Fill
pub mod Right
pub mod Honest
pub mod Sections
pub mod Reach
pub mod Faithful
pub mod HostCalls
pub mod Kept
mod Tests
use kino.Prelude.{
  ℕ, ◌+◌, ◌*◌, ltb, if◌then◌else◌, Bool, ◌≡◌, ◌≢◌, Option, none, some, List, [], ◌∷◌,
}
use mathlib.Core.Option
use kino.Pin.{PinSlab, insert, release}
use kino.Lru.{Lru, Key}

pub record RString : Type 0 where
  pub raw : ℕ
  pub text : List ℕ

-- What Ruby gives: a fresh frozen string with the bytes, whose VALUE is not the slab's empty mark.
pub record Ruby : Type 0 where
  pub frozen : List ℕ → RString
  pub text-frozen : (text : List ℕ) → (frozen text).text ≡ text
  pub raw-frozen : (text : List ℕ) → (frozen text).raw ≢ 0

pub record CachedStr : Type 0 where
  pub value : RString
  pub slot : ℕ

pub record HostEntry : Type 0 where
  pub name : CachedStr
  pub port : CachedStr
  pub host : Option CachedStr

abbrev pub host_cache_cap : ℕ
host_cache_cap = 256

abbrev pub addr_cache_cap : ℕ
addr_cache_cap = 1024

abbrev pub value_cache_cap : ℕ
value_cache_cap = 512

abbrev pub cache_slab_capacity : ℕ
cache_slab_capacity = (host_cache_cap + 1) * 3 + (addr_cache_cap + 1) + (value_cache_cap + 1)

abbrev pub value_intern_max_len : ℕ
value_intern_max_len = 512

-- `CachedStr::root`.
pub root : PinSlab → RString → PinSlab × Option CachedStr
root slab string =
    let (slab', slot) = insert slab string.raw in
    (slab', Option.map (λ i. record { value = string; slot = i }) slot)

-- `CachedStr::drop`.
pub drop_str : PinSlab → CachedStr → PinSlab
drop_str slab s = release slab s.slot

pub drop_strs : PinSlab → List CachedStr → PinSlab
unfolding drop_str
drop_strs slab [] = slab
drop_strs slab (s ∷ rest) = drop_strs (drop_str slab s) rest

-- The strings that an entry owns.
pub str_strs : CachedStr → List CachedStr
str_strs s = s ∷ []

pub host_strs : HostEntry → List CachedStr
host_strs entry = entry.name ∷ entry.port ∷ elim entry.host [ none ↦ [] | some h ↦ h ∷ [] ]

-- `HostEntry::root`, the host string's part: the name and the port are rooted.
pub root_full : PinSlab → CachedStr → CachedStr → Option RString → PinSlab × Option HostEntry
unfolding root drop_strs
root_full slab name port none = (slab, some (record { name = name; port = port; host = none }))
root_full slab name port (some host) =
    let (slab', h) = root slab host in
    elim h [
      | some h' ↦ (slab', some (record { name = name; port = port; host = some h' }))
      | none ↦ (drop_strs slab' (port ∷ name ∷ []), none)
    ]

-- `HostEntry::root`: what is rooted already is dropped when a later string finds no slot.
pub root_host : PinSlab → RString → RString → Option RString → PinSlab × Option HostEntry
unfolding root root_full drop_strs
root_host slab name port host =
    let (slab1, n) = root slab name in
    elim n [
      | none ↦ (slab1, none)
      | some name' ↦
          let (slab2, p) = root slab1 port in
          elim p [
            | none ↦ (drop_strs slab2 (name' ∷ []), none)
            | some port' ↦ root_full slab2 name' port' host
          ]
    ]

pub name_port : HostEntry → RString × RString
name_port entry = (entry.name.value, entry.port.value)

pub fill_host : PinSlab → HostEntry → RString → RString × PinSlab × HostEntry
unfolding root
fill_host slab entry host = elim entry.host [
  | some cached ↦ (cached.value, slab, entry)
  | none ↦
      let (slab', h) = root slab host in
      elim h [
        | some cached ↦ (cached.value, slab', record entry { host = some cached })
        | none ↦ (host, slab', entry)
      ]
]
