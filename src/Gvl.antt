-- ===== src/Gvl.antt =====
-- ext/kino/src/gvl.rs, `interruptible`: the loop in which a native call waits without Ruby's lock.
-- The state is shared. Each element of `ticks` is what the other threads do before one attempt is
-- over; the wait is observed for as many attempts as the list has. A panic of the attempt, which
-- Rust turns into a Ruby error, is not modelled.
pub mod Raised
use kino.Prelude.{Bool, true, false, Option, none, some, List, [], ◌∷◌}

-- `Ok(None)`, `Ok(Some(result))`, or no end within the ticks observed.
pub data Wait (S T : Type 0) : Type 0 where
  interrupted : S → Wait S T
  finished : T → S → Wait S T
  pending : S → Wait S T

module _ {S T : Type 0} where
  unfoldable pub interruptible : (S → Bool) → (S → Option T × S) → List (S → S) → S → Wait S T
  interruptible flag attempt [] s = pending s
  interruptible flag attempt (tick ∷ ticks) s = elim (flag s) [
    | true ↦ interrupted s
    | false ↦
        let (result, s') = attempt (tick s) in
        elim result [ some t ↦ finished t s' | none ↦ interruptible flag attempt ticks s' ]
  ]

  -- The state in which the wait was left or last seen.
  unfoldable pub state_of : Wait S T → S
  state_of (interrupted s) = s
  state_of (finished t s) = s
  state_of (pending s) = s
