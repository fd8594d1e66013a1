-- ===== src/EnvStrings/Right.antt =====
-- The cached strings are those of their keys: values and addresses under the bytes that they are
-- for, and an entry's full authority under the authority.
use kino.Prelude.{
  ℕ, ◌≤◌, ◌<◌, ◌≡◌, refl, sym, ap, subst, ◌∙◌, ◌⊎◌, inl, inr, if◌then◌else◌, Option, none, some,
  List, arith,
}
use kino.Control.{same_text}
use kino.Pin.{PinSlab}
use kino.Lru.{Lru, Key, weigh}
use kino.Lru.Listed.{same_text→eq, same_text_self}
use kino.EnvStrings.{RString, CachedStr, HostEntry, root, root_full, root_host}
use kino.EnvStrings.Caches.{Shelf, lookup, settle, store}

-- Counts the strings that are not their key's.
abbrev pub wrong_text : RString → Key → ℕ
wrong_text string key = if same_text string.text key then 0 else 1

abbrev pub wrong_str : Key × CachedStr → ℕ
wrong_str e = wrong_text e.1.value e.0

abbrev wrong_full : Key → Option CachedStr → ℕ
wrong_full key none = 0
wrong_full key (some h) = wrong_text h.value key

abbrev pub wrong_host : Key × HostEntry → ℕ
wrong_host e = wrong_full e.0 e.1.host

pub right_text : (string : RString) (key : Key) → string.text ≡ key → wrong_text string key ≡ 0
right_text string key e =
    ap (λ b. if b then 0 else 1) (ap (same_text string.text) (sym e) ∙ same_text_self string.text)

pub text_of_right : (string : RString) (key : Key) → wrong_text string key ≡ 0 → string.text ≡ key
text_of_right string key e = same_text→eq string.text key (ground (arith, e))

module _ (L : Lru) where
  open L use {Cache, entries, capacity}

  module _ {V : Type 0} (wrong : Key × V → ℕ) where
    abbrev pub IsRightIn : Cache V → Type 0
    IsRightIn cache = weigh wrong (entries cache) ≡ 0

    -- A cache that `put` may be called on.
    abbrev pub HasRoom : Cache V → Type 0
    HasRoom cache = (0 < capacity cache) × (weigh (λ e. 1) (entries cache) ≤ capacity cache)

    pub lookup-IsRightIn :
        {T : Type 0} (read : V → T) (key : Key) (shelf : Shelf L V)
        → IsRightIn shelf.cache
        → IsRightIn (lookup L read key shelf).1.cache
          × ((t : T)
              → (lookup L read key shelf).0 ≡ some t
              → (v : V) × (read v ≡ t) × (wrong (key, v) ≡ 0))
    unfolding lookup
    lookup-IsRightIn read key shelf r = elim (L.get_cases key shelf.cache) [
      | inl e ↦
          (subst IsRightIn (ap (λ p. p.1) (sym e)) r, λ t found. absurd (ground (arith, e, found)))
      | inr (v, c', rest, e, here, same, _) ↦ (
        subst IsRightIn (ap (λ p. p.1) (sym e)) (same wrong ∙ r),
        λ t found. (v, ground (arith, e, found), omega (arith, here wrong, r)),
      )
    ]

    pub store-IsRightIn :
        (strs : V → List CachedStr) (key : Key) (slab : PinSlab) (o : Option V) (shelf : Shelf L V)
        → ((v : V) → o ≡ some v → wrong (key, v) ≡ 0)
        → L.get key shelf.cache ≡ (none, shelf.cache)
        → HasRoom shelf.cache
        → IsRightIn shelf.cache
        → IsRightIn (store L strs key (slab, o) shelf).cache
    unfolding store
    store-IsRightIn strs key slab none shelf h miss room r = r
    store-IsRightIn strs key slab (some v) shelf h miss room r =
        let put = L.put_absent key v shelf.cache miss room.0 room.1 in
        omega (arith, put.1 wrong, h v refl, r)

    pub settle-IsRightIn :
        {T : Type 0} (read : V → T) (strs : V → List CachedStr)
        (root_it : PinSlab → PinSlab × Option V) (key : Key) (fresh : T) (shelf : Shelf L V)
        → ((v : V) → (root_it shelf.slab).1 ≡ some v → wrong (key, v) ≡ 0)
        → HasRoom shelf.cache
        → IsRightIn shelf.cache
        → IsRightIn (settle L read strs root_it key fresh shelf).1.cache
          × (((settle L read strs root_it key fresh shelf).0 ≡ fresh)
              ⊎ ((v : V) × ((settle L read strs root_it key fresh shelf).0 ≡ read v)
                  × (wrong (key, v) ≡ 0)))
    unfolding settle
    settle-IsRightIn read strs root_it key fresh shelf h room r =
        elim (L.get_cases key shelf.cache) [
          | inl e ↦
              let stored =
                store-IsRightIn strs key (root_it shelf.slab).0 (root_it shelf.slab).1 shelf h e
                  room r in
              let eq : store L strs key (root_it shelf.slab) shelf
                  ≡ (settle L read strs root_it key fresh shelf).1 =
                ground (arith, e) in
              (subst IsRightIn (ap (λ (s : Shelf L V). s.cache) eq) stored, inl (ground (arith, e)))
          | inr (v, c', rest, e, here, same, _) ↦
              let eq : c' ≡ (settle L read strs root_it key fresh shelf).1.cache =
                ground (arith, e) in
              (
                subst IsRightIn eq (same wrong ∙ r),
                inr (v, ground (arith, e), omega (arith, here wrong, r)),
              )
        ]

-- What `root` roots is the string that it was given.
pub root-value :
    (slab : PinSlab) (string : RString) (c : CachedStr)
    → (root slab string).1 ≡ some c
    → c.value ≡ string
unfolding root
root-value slab string c e = ground (arith, e)

pub root_host-none :
    (slab : PinSlab) (name port : RString) (entry : HostEntry)
    → (root_host slab name port none).1 ≡ some entry
    → entry.host ≡ none
unfolding root_host root_full
root_host-none slab name port entry e = ground (arith, e)

pub root_host-full_right :
    (slab : PinSlab) (name port host : RString) (key : Key) (entry : HostEntry)
    → host.text ≡ key
    → (root_host slab name port (some host)).1 ≡ some entry
    → wrong_host (key, entry) ≡ 0
unfolding root_host root_full root
root_host-full_right slab name port host key entry same e =
    ground (arith, e, right_text host key same)
