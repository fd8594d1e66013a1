-- ===== src/Gvl/Raised.antt =====
-- A wait ends once its flag is raised.
use kino.Prelude.{
  ◌≡◌, ◌≢◌, inl, inr, Bool, true, Bool-cases, Option, Option-cases, List, [], ◌∷◌, ◌++◌, All, arith,
}
use kino.Gvl.{Wait, pending, interruptible}

module _ {S T : Type 0} where
  -- The wait came to an end.
  abbrev pub Ended : Wait S T → Type 0
  Ended w = (s : S) → w ≢ pending s

  module _ (flag : S → Bool) (attempt : S → Option T × S) (P : S → Type 0) where
    raised_stops :
        (tick : S → S) (ticks : List (S → S)) (s : S)
        → flag s ≡ true
        → Ended (interruptible flag attempt (tick ∷ ticks) s)
    unfolding interruptible
    raised_stops tick ticks s up s' e = ground (arith, up, e)

    first_attempt :
        (tick : S → S) (ticks : List (S → S)) (s : S)
        → Ended (interruptible flag attempt ticks (attempt (tick s)).1)
        → Ended (interruptible flag attempt (tick ∷ ticks) s)
    unfolding interruptible
    first_attempt tick ticks s ended s' e = elim (Bool-cases (flag s)) [
      | inl up ↦ ground (arith, up, e)
      | inr down ↦ elim (Option-cases (attempt (tick s)).0) [
        | inl none_yet ↦ ended s' (ground (arith, down, none_yet, e))
        | inr (t, got) ↦ ground (arith, down, got, e)
      ]
    ]

    -- Whatever happens `before`, the wait is over one attempt after `raise`, if an attempt keeps a
    -- raised flag and the state stays one in which `raise` raises it.
    pub raised-Ended :
        (before after : List (S → S)) (raise next : S → S) (s : S)
        → ((u : S) → P u → P (attempt u).1)
        → All (λ (tick : S → S). (u : S) → P u → P (tick u)) before
        → ((u : S) → P u → flag (attempt (raise u)).1 ≡ true)
        → P s
        → Ended (interruptible flag attempt (before ++ raise ∷ next ∷ after) s)
    raised-Ended [] after raise next s kept ticks raises p =
        first_attempt raise (next ∷ after) s
          (raised_stops next after (attempt (raise s)).1 (raises s p))
    raised-Ended (tick ∷ before) after raise next s kept ticks raises p =
        first_attempt tick (before ++ raise ∷ next ∷ after) s (
          raised-Ended before after raise next (attempt (tick s)).1 kept ticks.1 raises
            (kept (tick s) (ticks.0 s p)))
