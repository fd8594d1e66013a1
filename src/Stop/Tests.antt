-- ===== src/Stop/Tests.antt =====
-- A thread that stops at once, and one that is wedged past the deadline; each sleep takes 2 ms.
use kino.Prelude.{ℕ, ◌+◌, ◌≤◌, ◌<◌, ◌≡◌, refl, some, List, Bool, [], ◌∷◌, true, false, arith}
use kino.Stop.{wait, shutdown}
use kino.Stop.Deadline.{Joins, shutdown_lem}

abandons : shutdown (λ i. 1) 6 0 5 0 (2 ∷ 90 ∷ 4 ∷ []) ≡ some (6, true ∷ false ∷ true ∷ [])
unfolding shutdown wait
abandons = refl

shutdown_lem_example :
    (end : ℕ) × (joined : List Bool) × (shutdown (λ i. 1) 6 0 5 0 (2 ∷ 90 ∷ 4 ∷ [])
      ≡ some (end, joined))
    × (0 ≤ end)
    × (end < 5 + 2)
    × Joins 5 end (2 ∷ 90 ∷ 4 ∷ []) joined
shutdown_lem_example =
    shutdown_lem (λ i. 1) 2 6 0 5 0 (2 ∷ 90 ∷ 4 ∷ []) (λ i. omega arith) (omega arith) (omega arith)
      (omega arith)
