-- ===== src/EnvStrings/Rooted.antt =====
-- Rooting a host's strings, and why the slab has room.
use kino.Prelude.{
  ℕ, zero, suc, ◌+◌, ◌^◌, ◌≤◌, ◌<◌, ◌≡◌, ◌≢◌, refl, ap, subst, ◌∙◌, ◌⊎◌, inl, inr, ltb,
  if◌then◌else◌, Option, none, some, List, [], ◌∷◌, ◌++◌, length, set, arith,
}
use kino.Pin.{PinSlab, insert, release}
use kino.Pin.Claim.{insert-none_iff}
use kino.Lru.{weigh}
use kino.EnvStrings.{
  RString, CachedStr, HostEntry, root_full, root_host, drop_str, drop_strs, host_strs, name_port,
}
use kino.EnvStrings.Root.{at_slot, SameItems-IsRooted, Holds, Rooting, root_cases}

-- How many of the strings have one of the first `n` slots.
total : ℕ → List CachedStr → ℕ
total zero xs = 0
total (suc n) xs = total n xs + weigh (at_slot n) xs

total-cons :
    (n : ℕ) (s : CachedStr) (xs : List CachedStr)
    → total n (s ∷ xs) ≡ total n xs + (if ltb s.slot n then 1 else 0)
unfolding total
total-cons zero s xs = ground arith
total-cons (suc n) s xs = ground (arith, total-cons n s xs)

total-le : (n : ℕ) (xs : List CachedStr) → total n xs ≤ length xs
unfolding total
total-le zero [] = omega arith
total-le (suc n) [] = omega (arith, total-le n [])
total-le n (s ∷ xs) = ground (arith, total-cons n s xs, total-le n xs)

le-total :
    (n : ℕ) (xs : List CachedStr) → ((i : ℕ) → i < n → 1 ≤ weigh (at_slot i) xs) → n ≤ total n xs
unfolding total
le-total zero xs h = omega arith
le-total (suc n) xs h =
    omega (arith, h n (omega arith), le-total n xs (λ i lt. h i (omega (arith, lt))))

-- A slab with fewer strings than slots has a slot for one more.
pub insert-room :
    (slab : PinSlab) (value : ℕ) (xs : List CachedStr)
    → Holds slab xs
    → length xs < length slab.slots
    → slab.cursor + length slab.slots ≤ 2 ^ 64
    → (insert slab value).1 ≢ none
insert-room slab value xs r fewer room refused =
    let full = (insert-none_iff slab value room).0 refused in
    let held : (i : ℕ) → i < length slab.slots → 1 ≤ weigh (at_slot i) xs =
      λ i lt. ground (arith, full i lt, r.ledger i lt) in
    absurd
      (omega (arith, fewer, le-total (length slab.slots) xs held, total-le (length slab.slots) xs))

abbrev pub Live : Option RString → Type 0
Live none = Unit
Live (some string) = string.raw ≢ 0

-- What became of an attempt to root an entry.
pub record HostRooting (slab : PinSlab) (name port : RString) (host : Option RString)
    (xs : List CachedStr) (entry : HostEntry) (slab' : PinSlab) : Type 0 where
  pub pair : name_port entry ≡ (name, port)
  pub holds : Holds slab' (host_strs entry ++ xs)
  pub len : length slab'.slots ≡ length slab.slots
  pub most : length (host_strs entry) ≤ 3

abbrev pub HostRooted :
    PinSlab
    → RString
    → RString
    → Option RString
    → List CachedStr
    → PinSlab × Option HostEntry
    → Type 0
HostRooted slab name port host xs r =
    (r.1 ≡ none)
      × (r.0.slots ≡ slab.slots)
      × ((length xs + 3 ≤ length slab.slots) → (slab.cursor + length slab.slots + 2 ≤ 2 ^ 64) → ⊥)
    ⊎ ((entry : HostEntry) × (r.1 ≡ some entry) × HostRooting slab name port host xs entry r.0)

root_full-HostRooted :
    (slab slab1 slab2 : PinSlab) (n p : CachedStr) (name port : RString) (host : Option RString)
    (xs : List CachedStr)
    → Live host
    → Rooting slab name xs n slab1
    → Rooting slab1 port (n ∷ xs) p slab2
    → HostRooted slab name port host xs (root_full slab2 n p host)
unfolding root_full name_port host_strs drop_strs drop_str release
root_full-HostRooted slab slab1 slab2 n p name port none xs live rn rp = inr (
  record { name = n; port = p; host = none },
  refl,
  record {
    pair = ground (arith, rn.value, rp.value);
    holds = SameItems-IsRooted slab2.slots (p ∷ n ∷ xs) (n ∷ p ∷ xs) (λ w. omega arith) rp.holds;
    len = rp.len ∙ rn.len;
    most = omega arith;
  },
)
root_full-HostRooted slab slab1 slab2 n p name port (some h) xs live rn rp =
    elim (root_cases slab2 h (p ∷ n ∷ xs) live rp.holds) [
      | inl (slab3, e, same, refused) ↦
          let eq : (drop_strs slab3 (p ∷ n ∷ []), none) ≡ root_full slab2 n p (some h) =
            ground (arith, e) in
          subst (HostRooted slab name port (some h) xs) eq (
            inl (
              refl,
              ap (λ slots. set (set slots p.slot 0) n.slot 0) same
                  ∙ ap (λ slots. set slots n.slot 0) rp.undone
                  ∙ rn.undone,
              λ fewer room.
                  insert-room slab2 h.raw (p ∷ n ∷ xs) rp.holds
                    (omega (arith, fewer, rp.len, rn.len))
                    (omega (arith, room, rp.len, rn.len, rp.cur, rn.cur)) refused,
            ))
      | inr (c, slab3, e, rc) ↦
          let entry : HostEntry = record { name = n; port = p; host = some c } in
          let eq : (slab3, some entry) ≡ root_full slab2 n p (some h) = ground (arith, e) in
          subst (HostRooted slab name port (some h) xs) eq (
            inr (
              entry,
              refl,
              record {
                pair = ground (arith, rn.value, rp.value);
                holds =
                    SameItems-IsRooted slab3.slots (c ∷ p ∷ n ∷ xs) (n ∷ p ∷ c ∷ xs)
                      (λ w. omega arith) rc.holds;
                len = rc.len ∙ rp.len ∙ rn.len;
                most = omega arith;
              },
            ))
    ]

-- Rooting a host's strings roots all of them, or, when the slab is full, leaves the slots as they
-- were; a slab with three slots to spare does not refuse.
pub root_host-HostRooted :
    (slab : PinSlab) (name port : RString) (host : Option RString) (xs : List CachedStr)
    → name.raw ≢ 0
    → port.raw ≢ 0
    → Live host
    → Holds slab xs
    → HostRooted slab name port host xs (root_host slab name port host)
unfolding root_host drop_strs drop_str release
root_host-HostRooted slab name port host xs live_name live_port live_host r =
    elim (root_cases slab name xs live_name r) [
      | inl (slab1, e, same, refused) ↦
          let eq : (slab1, none) ≡ root_host slab name port host = ground (arith, e) in
          subst (HostRooted slab name port host xs) eq (
            inl (
              refl,
              same,
              λ fewer room.
                  insert-room slab name.raw xs r (omega (arith, fewer)) (omega (arith, room))
                    refused,
            ))
      | inr (n, slab1, e, rn) ↦ elim (root_cases slab1 port (n ∷ xs) live_port rn.holds) [
        | inl (slab2, e2, same, refused) ↦
            let eq : (drop_strs slab2 (n ∷ []), none) ≡ root_host slab name port host =
              ground (arith, e, e2) in
            subst (HostRooted slab name port host xs) eq (
              inl (
                refl,
                ap (λ slots. set slots n.slot 0) same ∙ rn.undone,
                λ fewer room.
                    insert-room slab1 port.raw (n ∷ xs) rn.holds (omega (arith, fewer, rn.len))
                      (omega (arith, room, rn.len, rn.cur)) refused,
              ))
        | inr (p, slab2, e2, rp) ↦
            let eq : root_full slab2 n p host ≡ root_host slab name port host =
              ground (arith, e, e2) in
            subst (HostRooted slab name port host xs) eq
              (root_full-HostRooted slab slab1 slab2 n p name port host xs live_host rn rp)
      ]
    ]
