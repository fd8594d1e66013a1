-- ===== src/Shards/Plane/Conserved.antt =====
-- Every connection holds one permit, and the loads count the connections of each shard.
use kino.Prelude.{
  map, ◌&&◌, ℕ, zero, suc, ◌+◌, ◌-◌, ◌^◌, ◌≤◌, ◌<◌, ◌≡◌, refl, ap, sym, ◌∙◌, subst, inl, inr, ltb,
  Bool, true, false, Bool-cases, List, [], ◌∷◌, ◌++◌, length, length-append, get_elem?-lt, get_or,
  set, replicate, word, arith,
}
use kino.Shards.{Handoff, handed, all_down, out_of_fuel}
use kino.Shards.Failover.{Met, hand_off-Met}
use kino.Shards.Plane.{
  Phase, acquiring, accepting, stopped, Shard, Plane, Event, acquire, shutdown, accept_fails,
  accepts, takes, goes_down, ends, new_shard, plane_of, ups, hand_over, pushed, placed,
  acceptor_step, take_step, end_step, down_step, step, run,
}
use kino.Shards.Plane.Changes.{
  held, IsConserved, take_step-IsConserved, down_step-IsConserved, end_step-IsConserved,
  at_shard-IsConserved,
}
use kino.Shards.Plane.Kept.{Raised, hand_off-Raised, hand_off-Marks, count_live-le}
use kino.Shards.Plane.Totals.{
  size, total, Fits, total-set, size-le-total, Fits-get_elem?, Fits-set, Fits-small, Fits-length,
  ups-get_or, ups-set, loads_up, loads_up-size, any_up, any_up-false,
}

-- What the inner loop gives: the shard chosen is up, or none is.
abbrev Chosen : List Bool → Handoff → Type 0
Chosen up (handed i) = get_or up i false ≡ true
Chosen up all_down = (k : ℕ) → get_or up k false ≡ true → ⊥
Chosen up out_of_fuel = ⊥

module _ {A : Type 0} (max_connections : ℕ) where
  -- The connection goes to the shard that was chosen, whose load is raised for it.
  pushed-IsConserved :
      (p : Plane A) (conn : A) (i : ℕ) (loads : List ℕ) (live : List Bool)
      → max_connections < 2 ^ 64
      → IsConserved max_connections p
      → p.acceptor ≡ accepting
      → get_or (ups p.shards) i false ≡ true
      → loads ≡ set p.loads i (word (get_or p.loads i 0 + 1))
      → ((k : ℕ)
          → get_or (ups p.shards) k false ≡ true
          → get_or live k false ≡ get_or p.live k false)
      → IsConserved max_connections (placed p conn (handed i, loads, live))
  unfolding placed
  pushed-IsConserved p conn i loads live small v at up_here e marks =
      let (s, here, up) = ups-get_or p.shards i up_here in
      let s' : Shard A = record s { rx = s.rx ++ conn ∷ [] } in
      let fit = Fits-get_elem? p.loads p.shards i s v.fits here in
      let more : size s' ≡ size s + 1 = omega (arith, length-append s.rx (conn ∷ [])) in
      let l = word (get_or p.loads i 0 + 1) in
      let in_all : get_or p.loads i 0 + 1 ≤ max_connections =
        omega (arith, fit.counts up, size-le-total p.shards i s here, v.permits, ap held at) in
      let eq : set p.shards i s' ≡ pushed p.shards i conn = ground (arith, here) in
      record {
        permits =
            omega (arith, v.permits, ap held at, more, total-set p.shards i s s' here, ap total eq);
        fits = subst (Fits loads) eq (
            subst (λ ls. Fits ls (set p.shards i s')) (sym e)
              (Fits-set p.loads p.shards i l s' v.fits (record {
                small = omega arith;
                counts = λ h. omega (arith, more, fit.counts up, in_all, small);
                empty = λ h. absurd (ground (arith, h, up));
              })));
        marked = λ k h.
            let old =
              ups-set p.shards i k s s' here up
                (subst (λ ss. get_or (ups ss) k false ≡ true) (sym eq) h) in
            marks k old ∙ v.marked k old;
        drained = λ d k h. v.drained d k (
            ups-set p.shards i k s s' here up
              (subst (λ ss. get_or (ups ss) k false ≡ true) (sym eq) h));
      }

  abbrev Placed : Plane A → Handoff × List ℕ × List Bool → Type 0
  Placed p r =
      Raised p.loads r.0 r.1
      × ((k : ℕ)
          → get_or (ups p.shards) k false ≡ true
          → get_or r.2 k false ≡ get_or p.live k false)
      × Chosen (ups p.shards) r.0

  chosen :
      (p : Plane A) (h : Handoff)
      → IsConserved max_connections p
      → Met (ups p.shards) (length p.loads) p.live h
      → Chosen (ups p.shards) h
  chosen p (handed i) v met = met.0
  chosen p all_down v met = λ k up.
      let (s, here, _) = ups-get_or p.shards k up in
      let lt = get_elem?-lt p.shards k s here in
      absurd (
        ground (
          arith,
          met k (omega (arith, lt, Fits-length p.loads p.shards v.fits)) (v.marked k up),
          up,
        ))
  chosen p out_of_fuel v met = met

  hand_over-Placed : (p : Plane A) → IsConserved max_connections p → Placed p (hand_over p)
  hand_over-Placed p v =
      let n = suc (length p.live) in
      let up = ups p.shards in
      let met = hand_off-Met n up p.loads p.live (omega (arith, count_live-le p.live)) in
      (
        hand_off-Raised n up p.loads p.live (Fits-small p.loads p.shards v.fits),
        hand_off-Marks n up p.loads p.live,
        chosen p (hand_over p).0 v met,
      )

  placed-IsConserved :
      (p : Plane A) (conn : A) (r : Handoff × List ℕ × List Bool)
      → max_connections < 2 ^ 64
      → IsConserved max_connections p
      → p.acceptor ≡ accepting
      → Placed p r
      → IsConserved max_connections (placed p conn r)
  unfolding placed
  placed-IsConserved p conn (handed i, loads, live) small v at (raised, marks, up) =
      pushed-IsConserved p conn i loads live small v at up raised.1 marks
  placed-IsConserved p conn (all_down, loads, live) small v at (raised, marks, none_up) = record {
    permits = omega (arith, v.permits, ap held at);
    fits = subst (λ ls. Fits ls p.shards) (sym raised) v.fits;
    marked = λ k h. marks k h ∙ v.marked k h;
    drained = λ d. none_up;
  }
  placed-IsConserved p conn (out_of_fuel, loads, live) small v at (raised, marks, never) =
      absurd never

  -- A change of the acceptor alone.
  turned-IsConserved :
      (p : Plane A) (a : Phase) (available : ℕ)
      → IsConserved max_connections p
      → available + held a ≡ p.available + held p.acceptor
      → IsConserved max_connections (record p { acceptor = a; available = available })
  turned-IsConserved p a available v balance = record {
    permits = omega (arith, v.permits, balance);
    fits = v.fits;
    marked = v.marked;
    drained = v.drained;
  }

  acceptor_step-IsConserved :
      (a : Phase) (e : Event A) (p : Plane A)
      → max_connections < 2 ^ 64
      → IsConserved max_connections p
      → p.acceptor ≡ a
      → IsConserved max_connections (acceptor_step a e p)
  unfolding acceptor_step
  acceptor_step-IsConserved acquiring acquire p small v at = elim (Bool-cases (ltb 0 p.available)) [
    | inl free ↦
        let eq : record p { acceptor = accepting; available = p.available - 1 }
            ≡ acceptor_step acquiring acquire p =
          ground (arith, free) in
        subst (IsConserved max_connections) eq
          (turned-IsConserved p accepting (p.available - 1) v (ground (arith, free, ap held at)))
    | inr none_free ↦
        let eq : p ≡ acceptor_step acquiring acquire p = ground (arith, none_free) in
        subst (IsConserved max_connections) eq v
  ]
  acceptor_step-IsConserved acquiring shutdown p small v at =
      turned-IsConserved p stopped p.available v (omega (arith, ap held at))
  acceptor_step-IsConserved accepting shutdown p small v at =
      turned-IsConserved p stopped (p.available + 1) v (omega (arith, ap held at))
  acceptor_step-IsConserved accepting accept_fails p small v at =
      turned-IsConserved p acquiring (p.available + 1) v (omega (arith, ap held at))
  acceptor_step-IsConserved accepting (accepts conn) p small v at =
      placed-IsConserved p conn (hand_over p) small v at (hand_over-Placed p v)
  acceptor_step-IsConserved _ _ p small v at = v

  step-IsConserved :
      (e : Event A) (p : Plane A)
      → max_connections < 2 ^ 64
      → IsConserved max_connections p
      → IsConserved max_connections (step e p)
  unfolding step
  step-IsConserved (takes i) p small v =
      at_shard-IsConserved max_connections p i (take_step i) v
        (λ s. take_step-IsConserved max_connections p i s v)
  step-IsConserved (ends i k) p small v =
      at_shard-IsConserved max_connections p i (end_step i k) v
        (λ s. end_step-IsConserved max_connections p i k s v)
  step-IsConserved (goes_down i) p small v =
      at_shard-IsConserved max_connections p i (down_step i) v
        (λ s. down_step-IsConserved max_connections p i s v)
  step-IsConserved acquire p small v = acceptor_step-IsConserved p.acceptor acquire p small v refl
  step-IsConserved shutdown p small v = acceptor_step-IsConserved p.acceptor shutdown p small v refl
  step-IsConserved accept_fails p small v =
      acceptor_step-IsConserved p.acceptor accept_fails p small v refl
  step-IsConserved (accepts conn) p small v =
      acceptor_step-IsConserved p.acceptor (accepts conn) p small v refl

  run-IsConserved :
      (events : List (Event A)) (p : Plane A)
      → max_connections < 2 ^ 64
      → IsConserved max_connections p
      → IsConserved max_connections (run events p)
  unfolding run
  run-IsConserved [] p small v = v
  run-IsConserved (e ∷ events) p small v =
      run-IsConserved events (step e p) small (step-IsConserved e p small v)

new_shards :
    (A : Type 0) (n : ℕ)
    → Fits (replicate n 0) (replicate n (new_shard {A = A}))
      × (total (replicate n (new_shard {A = A})) ≡ 0)
      × ((k : ℕ)
          → get_or (ups (replicate n (new_shard {A = A}))) k false ≡ true
          → get_or (replicate n true) k false ≡ true)
unfolding total
new_shards A zero = (tt, refl, λ k h. h)
new_shards A (suc n) =
    let (fits, no_conns, live) = new_shards A n in
    (
      (record { small = omega arith; counts = λ h. refl; empty = λ h. refl }, fits),
      omega (arith, no_conns),
      λ k. below live k,
    )
  where
    below :
        ((k : ℕ)
          → get_or (ups (replicate n (new_shard {A = A}))) k false ≡ true
          → get_or (replicate n true) k false ≡ true)
        → (k : ℕ) → get_or (true ∷ ups (replicate n (new_shard {A = A}))) k false ≡ true
        → get_or (true ∷ replicate n true) k false ≡ true
    below live zero h = refl
    below live (suc k) h = live k h

-- Whatever the acceptor, the shards' threads and the clients do, in any order: the permits that are
-- free, held by the acceptor and held by the connections that are queued or served add up to
-- `max_connections`, which these never exceed; the load of each shard that is up is the number of its
-- connections, and one that is down has none; and while the server drains for want of shards, no
-- shard is up.
pub run-plane_of :
    {A : Type 0} (max_connections shard_count : ℕ) (events : List (Event A))
    → max_connections < 2 ^ 64
    → let p = run events (plane_of max_connections shard_count) in
      (p.available + held p.acceptor + total p.shards ≡ max_connections)
      × (loads_up p.loads p.shards ≡ map size p.shards)
      × ((p.draining && any_up p.shards) ≡ false)
unfolding plane_of
run-plane_of {A} max_connections shard_count events small =
    let (fits, no_conns, live) = new_shards A shard_count in
    let first : IsConserved max_connections (plane_of {A = A} max_connections shard_count) =
      record {
        permits = omega (arith, no_conns);
        fits = fits;
        marked = live;
        drained = λ d. absurd (ground (arith, d));
      } in
    let p = run events (plane_of {A = A} max_connections shard_count) in
    let v =
      run-IsConserved max_connections events (plane_of max_connections shard_count) small first in
    (
      v.permits,
      loads_up-size p.loads p.shards v.fits,
      elim (Bool-cases p.draining) [
        | inl d ↦ rw d (any_up-false p.shards (v.drained d))
        | inr serves ↦ rw serves refl
      ],
    )
