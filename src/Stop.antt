-- ===== src/Stop.antt =====
-- ext/kino/src/registry.rs, `RuntimeHandle::shutdown` on shards: joining the threads by a deadline.
-- Times are milliseconds; a thread is known by the time at which it finishes. A sleep takes at least
-- the millisecond that the loop asks for: `naps k` is how much longer the k-th sleep takes.
pub mod Deadline
mod Tests
use kino.Prelude.{
  ℕ, zero, suc, ◌+◌, leb, ltb, if◌then◌else◌, Bool, Option, none, some, List, [], ◌∷◌,
}

-- `while !thread.is_finished() && now < deadline`, for at most `fuel` looks: when it ends, and the
-- number of the next sleep.
pub wait : (ℕ → ℕ) → ℕ → ℕ → ℕ → ℕ → ℕ → Option (ℕ × ℕ)
wait naps zero k finish deadline now = none
wait naps (suc fuel) k finish deadline now =
    let later = wait naps fuel (k + 1) finish deadline (now + 1 + naps k) in
    if leb finish now then some (now, k) else if ltb now deadline then later else some (now, k)

-- When the loop over the threads ends, and which of them it joined; none where the fuel runs out.
pub shutdown : (ℕ → ℕ) → ℕ → ℕ → ℕ → ℕ → List ℕ → Option (ℕ × List Bool)
shutdown naps fuel k deadline now [] = some (now, [])
shutdown naps fuel k deadline now (finish ∷ threads) = elim (wait naps fuel k finish deadline now) [
  | none ↦ none
  | some (now', k') ↦ elim (shutdown naps fuel k' deadline now' threads) [
    | none ↦ none
    | some (end, joined) ↦ some (end, leb finish now' ∷ joined)
  ]
]
