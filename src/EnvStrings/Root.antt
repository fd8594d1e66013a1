-- ===== src/EnvStrings/Root.antt =====
-- Rooting cached strings in the slab and dropping them.
use kino.Prelude.{
  ℕ, ◌+◌, ◌≤◌, ◌<◌, ◌≡◌, ◌≢◌, refl, sym, ap, subst, ◌∙◌, ◌⊎◌, inl, inr, ltb, ◌==◌, ==_iff,
  if◌then◌else◌, ◌&&◌, not, Bool-cases, none, some, Option-cases, List, [], ◌∷◌, ◌++◌, length,
  get_or, set, length-set, get_or-set_self, get_or-set_ne, arith,
}
use kino.Pin.{PinSlab, insert, release}
use kino.Pin.Claim.{insert-some, insert-none, insert_cursor, release-insert_slots}
use kino.Lru.{weigh, SameItems}
use kino.EnvStrings.{RString, CachedStr, root, drop_str, drop_strs}

-- Counts the strings of one slot.
abbrev pub at_slot : ℕ → CachedStr → ℕ
at_slot i s = if s.slot == i then 1 else 0

abbrev pub occupied : List ℕ → ℕ → ℕ
occupied slots i = if get_or slots i 0 == 0 then 0 else 1

-- Counts the strings whose slot does not hold their VALUE.
abbrev pub unrooted : List ℕ → CachedStr → ℕ
unrooted slots s =
    if ltb s.slot (length slots) && (get_or slots s.slot 0 == s.value.raw) && not (s.value.raw == 0)
    then 0
    else 1

-- Every string's slot holds its VALUE, and the slab roots these strings and nothing else, each in
-- a slot of its own.
pub record IsRooted (slots : List ℕ) (strs : List CachedStr) : Type 0 where
  pub ledger : (i : ℕ) → i < length slots → weigh (at_slot i) strs ≡ occupied slots i
  pub rooted : weigh (unrooted slots) strs ≡ 0

pub SameItems-IsRooted :
    (slots : List ℕ) (xs ys : List CachedStr)
    → SameItems xs ys
    → IsRooted slots xs
    → IsRooted slots ys
SameItems-IsRooted slots xs ys same r = record {
  ledger = λ i lt. sym (same (at_slot i)) ∙ r.ledger i lt;
  rooted = sym (same (unrooted slots)) ∙ r.rooted;
}

unrooted-set :
    (slots : List ℕ) (i v : ℕ) (s : CachedStr)
    → at_slot i s ≡ 0
    → unrooted (set slots i v) s ≡ unrooted slots s
unrooted-set slots i v s ne =
    let other : i ≢ s.slot = λ e. absurd (ground (arith, ne, e)) in
    ground (arith, length-set slots i v, get_or-set_ne slots i s.slot v 0 other)

-- A write to a slot that no string has unroots none of them.
weigh-unrooted-set :
    (slots : List ℕ) (i v : ℕ) (xs : List CachedStr)
    → weigh (at_slot i) xs ≡ 0
    → weigh (unrooted (set slots i v)) xs ≡ weigh (unrooted slots) xs
weigh-unrooted-set slots i v [] h = refl
weigh-unrooted-set slots i v (s ∷ xs) h =
    let here : at_slot i s ≡ 0 = omega arith in
    omega (arith, unrooted-set slots i v s here, weigh-unrooted-set slots i v xs (omega (arith, h)))

occupied-set_ne :
    (slots : List ℕ) (i j v : ℕ) → i ≢ j → occupied (set slots i v) j ≡ occupied slots j
occupied-set_ne slots i j v ne =
    ap (λ (x : ℕ). if x == 0 then 0 else 1) (get_or-set_ne slots i j v 0 ne)

-- Writing a VALUE to an empty slot roots a string there.
pub IsRooted-set :
    (slots : List ℕ) (i : ℕ) (string : RString) (xs : List CachedStr)
    → i < length slots
    → get_or slots i 0 ≡ 0
    → string.raw ≢ 0
    → IsRooted slots xs
    → IsRooted (set slots i string.raw) (record { value = string; slot = i } ∷ xs)
IsRooted-set slots i string xs lt free live r = record { ledger = entry; rooted = here }
  where
    none_here : weigh (at_slot i) xs ≡ 0
    none_here = ground (arith, r.ledger i lt, free)

    written : get_or (set slots i string.raw) i 0 ≡ string.raw
    written = get_or-set_self slots i string.raw 0 lt

    entry :
        (j : ℕ)
        → j < length (set slots i string.raw)
        → weigh (at_slot j) (record { value = string; slot = i } ∷ xs)
          ≡ occupied (set slots i string.raw) j
    entry j h = elim (Bool-cases (i == j)) [
      | inl e ↦
          let same : i ≡ j = (==_iff i j).0 e in
          subst
            (λ k.
              weigh (at_slot k) (record { value = string; slot = i } ∷ xs)
              ≡ occupied (set slots i string.raw) k)
            same (ground (arith, none_here, written, live))
      | inr e ↦
          let ne : i ≢ j = λ eq. absurd (ground (arith, e, eq)) in
          ground (
            arith,
            e,
            occupied-set_ne slots i j string.raw ne,
            r.ledger j (omega (arith, h, length-set slots i string.raw)),
          )
    ]

    here : weigh (unrooted (set slots i string.raw)) (record { value = string; slot = i } ∷ xs) ≡ 0
    here = ground (
      arith,
      written,
      live,
      length-set slots i string.raw,
      weigh-unrooted-set slots i string.raw xs none_here,
      r.rooted,
    )

-- Clearing a string's slot drops the string and unroots no other.
pub IsRooted-clear :
    (slots : List ℕ) (s : CachedStr) (xs : List CachedStr)
    → IsRooted slots (s ∷ xs)
    → IsRooted (set slots s.slot 0) xs
IsRooted-clear slots s xs r = record { ledger = entry; rooted = here }
  where
    own : (s.slot < length slots) × (get_or slots s.slot 0 ≡ s.value.raw) × (s.value.raw ≢ 0)
    own = ground (arith, r.rooted)

    none_here : weigh (at_slot s.slot) xs ≡ 0
    none_here = ground (arith, r.ledger s.slot (own.0), own.1, own.2)

    entry :
        (j : ℕ)
        → j < length (set slots s.slot 0)
        → weigh (at_slot j) xs ≡ occupied (set slots s.slot 0) j
    entry j h = elim (Bool-cases (s.slot == j)) [
      | inl e ↦
          subst (λ k. weigh (at_slot k) xs ≡ occupied (set slots s.slot 0) k)
            ((==_iff s.slot j).0 e)
            (ground (arith, none_here, get_or-set_self slots s.slot 0 0 (own.0)))
      | inr e ↦
          let ne : s.slot ≢ j = λ eq. absurd (ground (arith, e, eq)) in
          ground (
            arith,
            e,
            occupied-set_ne slots s.slot j 0 ne,
            r.ledger j (omega (arith, h, length-set slots s.slot 0)),
          )
    ]

    here : weigh (unrooted (set slots s.slot 0)) xs ≡ 0
    here = omega (arith, weigh-unrooted-set slots s.slot 0 xs none_here, r.rooted)

abbrev pub Holds : PinSlab → List CachedStr → Type 0
Holds slab xs = IsRooted slab.slots xs

pub drop_strs-Holds :
    (slab : PinSlab) (ds xs : List CachedStr) → Holds slab (ds ++ xs) → Holds (drop_strs slab ds) xs
unfolding drop_strs drop_str release
drop_strs-Holds slab [] xs r = r
drop_strs-Holds slab (d ∷ ds) xs r =
    drop_strs-Holds (release slab d.slot) ds xs (IsRooted-clear slab.slots d (ds ++ xs) r)

pub length-drop_strs :
    (slab : PinSlab) (ds : List CachedStr)
    → (length (drop_strs slab ds).slots ≡ length slab.slots)
      × ((drop_strs slab ds).cursor ≡ slab.cursor)
unfolding drop_strs drop_str release
length-drop_strs slab [] = (refl, refl)
length-drop_strs slab (d ∷ ds) =
    let (len, cur) = length-drop_strs (release slab d.slot) ds in
    (len ∙ length-set slab.slots d.slot 0, cur)

-- Rooting a string finds no slot and changes none, or roots it; clearing its slot undoes that.
pub record Rooting (slab : PinSlab) (string : RString) (xs : List CachedStr) (c : CachedStr)
    (slab' : PinSlab) : Type 0 where
  pub value : c.value ≡ string
  pub holds : Holds slab' (c ∷ xs)
  pub len : length slab'.slots ≡ length slab.slots
  pub cur : slab'.cursor ≤ slab.cursor + 1
  pub undone : set slab'.slots c.slot 0 ≡ slab.slots

pub root_cases :
    (slab : PinSlab) (string : RString) (xs : List CachedStr)
    → string.raw ≢ 0
    → Holds slab xs
    → ((slab' : PinSlab) × (root slab string ≡ (slab', none))
        × (slab'.slots ≡ slab.slots)
        × ((insert slab string.raw).1 ≡ none))
      ⊎ ((c : CachedStr) × (slab' : PinSlab) × (root slab string ≡ (slab', some c))
          × Rooting slab string xs c slab')
unfolding root
root_cases slab string xs live r = elim (Option-cases (insert slab string.raw).1) [
  | inl e ↦ inl ((insert slab string.raw).0, ground (arith, e), insert-none slab string.raw e, e)
  | inr (i, e) ↦
      let (lt, free, written) = insert-some slab string.raw i e in
      inr (
        record { value = string; slot = i },
        (insert slab string.raw).0,
        ground (arith, e),
        record {
          value = refl;
          holds =
              subst (λ slots. IsRooted slots (record { value = string; slot = i } ∷ xs))
                (sym written) (IsRooted-set slab.slots i string xs lt free live r);
          len = ap length written ∙ length-set slab.slots i string.raw;
          cur = insert_cursor slab string.raw;
          undone = release-insert_slots slab string.raw i e;
        },
      )
]
