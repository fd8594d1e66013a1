-- ===== src/Shards/Plane/Changes.antt =====
-- The steps of a shard's thread: a connection keeps its permit, and its shard's load counts it.
use kino.Prelude.{
  ℕ, ◌+◌, ◌-◌, ◌^◌, ◌≡◌, refl, ap, sym, ◌∙◌, subst, inl, inr, true, false, Bool-cases, Option-cases,
  some, List, [], ◌∷◌, ◌++◌, length, length-append, get_elem?, get_or, set, word, arith,
}
use kino.Shards.Plane.{
  Phase, acquiring, accepting, stopped, Shard, Plane, ups, pick, less_one, lower, take_step,
  end_step, down_step, at_shard,
}
use kino.Shards.Plane.Totals.{
  size, total, IsFit, Fits, total-set, Fits-get_elem?, Fits-set, ups-set, length-pick, set-get_or,
  lower-set,
}

-- The permit of an acceptor that waits for a connection.
abbrev pub held : Phase → ℕ
held acquiring = 0
held accepting = 1
held stopped = 0

module _ {A : Type 0} (max_connections : ℕ) where
  pub record IsConserved (p : Plane A) : Type 0 where
    pub permits : p.available + held p.acceptor + total p.shards ≡ max_connections
    pub fits : Fits p.loads p.shards
    pub marked : (k : ℕ) → get_or (ups p.shards) k false ≡ true → get_or p.live k false ≡ true
    pub drained : p.draining ≡ true → (k : ℕ) → get_or (ups p.shards) k false ≡ true → ⊥

  -- A change of one shard, which is up.
  abbrev changed : Plane A → ℕ → Shard A → ℕ → List ℕ → Plane A
  changed p i s available loads = record p {
    available = available;
    loads = loads;
    shards = set p.shards i s;
  }

  changed-IsConserved :
      (p : Plane A) (i : ℕ) (s s' : Shard A) (available l : ℕ) (loads : List ℕ)
      → IsConserved p
      → get_elem? p.shards i ≡ some s
      → s.up ≡ true
      → available + size s' ≡ p.available + size s
      → IsFit l s'
      → loads ≡ set p.loads i l
      → IsConserved (changed p i s' available loads)
  changed-IsConserved p i s s' available l loads v here up balance fit e = record {
    permits = omega (arith, v.permits, balance, total-set p.shards i s s' here);
    fits =
        subst (λ ls. Fits ls (set p.shards i s')) (sym e)
          (Fits-set p.loads p.shards i l s' v.fits fit);
    marked = λ k h. v.marked k (ups-set p.shards i k s s' here up h);
    drained = λ d k h. v.drained d k (ups-set p.shards i k s s' here up h);
  }

  pub take_step-IsConserved :
      (p : Plane A) (i : ℕ) (s : Shard A)
      → IsConserved p
      → get_elem? p.shards i ≡ some s
      → s.up ≡ true
      → IsConserved (take_step i s p)
  unfolding take_step
  take_step-IsConserved p i s v here up = after s.rx refl
    where
      after :
          (rx : List A)
          → s.rx ≡ rx
          → IsConserved (elim rx [
            | [] ↦ p
            | conn ∷ rest ↦ record p {
              shards =
                  set p.shards i (record s { rx = rest; connections = s.connections ++ conn ∷ [] });
            }
          ])
      after [] e = v
      after (conn ∷ rest) e =
          let s' : Shard A = record s { rx = rest; connections = s.connections ++ conn ∷ [] } in
          let fit = Fits-get_elem? p.loads p.shards i s v.fits here in
          let same : size s' ≡ size s =
            omega (arith, ap length e, length-append s.connections (conn ∷ [])) in
          changed-IsConserved p i s s' p.available (get_or p.loads i 0) p.loads v here up
            (omega (arith, same))
            (record {
              small = fit.small;
              counts = λ h. fit.counts h ∙ sym same;
              empty = λ h. same ∙ fit.empty h;
            })
            (sym (set-get_or p.loads i 0))

  pub down_step-IsConserved :
      (p : Plane A) (i : ℕ) (s : Shard A)
      → IsConserved p
      → get_elem? p.shards i ≡ some s
      → s.up ≡ true
      → IsConserved (down_step i s p)
  unfolding down_step
  down_step-IsConserved p i s v here up =
      let fit = Fits-get_elem? p.loads p.shards i s v.fits here in
      let (l, small, e) = lower-set (length s.connections) p.loads i fit.small in
      changed-IsConserved p i s (record { rx = []; connections = []; up = false })
        (p.available + length s.rx + length s.connections) l
        (lower (length s.connections) p.loads i) v here up (omega arith)
        (record { small = small; counts = λ h. absurd (ground (arith, h)); empty = λ h. refl }) e

  pub end_step-IsConserved :
      (p : Plane A) (i k : ℕ) (s : Shard A)
      → IsConserved p
      → get_elem? p.shards i ≡ some s
      → s.up ≡ true
      → IsConserved (end_step i k s p)
  unfolding end_step
  end_step-IsConserved p i k s v here up = elim (Option-cases (pick s.connections k)) [
    | inl e ↦ let eq : p ≡ end_step i k s p = ground (arith, e) in subst IsConserved eq v
    | inr ((conn, rest), e) ↦
        let s' : Shard A = record s { connections = rest } in
        let fit = Fits-get_elem? p.loads p.shards i s v.fits here in
        let one_less = length-pick s.connections k conn rest e in
        let l = word (get_or p.loads i 0 + (2 ^ 64 - 1)) in
        let eq : changed p i s' (p.available + 1) (less_one p.loads i) ≡ end_step i k s p =
          ground (arith, e) in
        subst IsConserved eq (
          changed-IsConserved p i s s' (p.available + 1) l (less_one p.loads i) v here up
            (omega (arith, one_less))
            (record {
              small = omega arith;
              counts = λ h. omega (arith, fit.counts h, fit.small, one_less);
              empty = λ h. absurd (ground (arith, h, up));
            })
            refl)
  ]

  pub at_shard-IsConserved :
      (p : Plane A) (i : ℕ) (f : Shard A → Plane A → Plane A)
      → IsConserved p
      → ((s : Shard A) → get_elem? p.shards i ≡ some s → s.up ≡ true → IsConserved (f s p))
      → IsConserved (at_shard i f p)
  at_shard-IsConserved p i f v keep = elim (Option-cases (get_elem? p.shards i)) [
    | inl e ↦ let eq : p ≡ at_shard i f p = ground (arith, e) in subst IsConserved eq v
    | inr (s, e) ↦ elim (Bool-cases s.up) [
      | inl up ↦
          let eq : f s p ≡ at_shard i f p = ground (arith, e, up) in
          subst IsConserved eq (keep s e up)
      | inr down ↦ let eq : p ≡ at_shard i f p = ground (arith, e, down) in subst IsConserved eq v
    ]
  ]
