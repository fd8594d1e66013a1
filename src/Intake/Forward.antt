-- ===== src/Intake/Forward.antt =====
-- The body that a worker can read is a prefix of the client's, within the cap.
use kino.Prelude.{
  ℕ, zero, suc, subst, ◌+◌, ◌^◌, ◌≤◌, ◌<◌, ◌≡◌, refl, ap, ◌⊎◌, inl, inr, true, false, Option, none,
  some, All, ltb, Bool-cases, ◌&&◌, List, [], ◌∷◌, ◌++◌, length, word, arith,
}
use kino.Response.{BodyAbandon, oversize, timed_out}
use kino.Intake.{Forwarded, Frame, data_frame, other_frame, ended, stalled, forward}

-- The data that the client sent, frame by frame.
unfoldable pub data_of : List Frame → List (List ℕ)
data_of [] = []
data_of (data_frame bytes taken ∷ frames) = bytes ∷ data_of frames
data_of (other_frame ∷ frames) = data_of frames
data_of (ended ∷ frames) = data_of frames
data_of (stalled ∷ frames) = data_of frames

-- Within the cap, if there is one.
abbrev pub Fits : ℕ → ℕ → Type 0
Fits max_body total = (max_body ≡ 0) ⊎ (total ≤ max_body)

unfoldable pub bytes_in : List (List ℕ) → ℕ
bytes_in [] = 0
bytes_in (c ∷ cs) = length c + bytes_in cs

word_small : (n : ℕ) → n < 2 ^ 64 → word n ≡ n
word_small n h = omega (arith, h)

-- Why the forwarder stops after the frames that it hands on: nothing is left to hand on since the
-- body has ended, the client is silent past the deadline, the next frame takes the body over the
-- cap, or the request handle is gone. `total` counts the bytes before.
abbrev pub Stopped : ℕ → ℕ → List Frame → Option BodyAbandon → Type 0
Stopped max_body total [] why = why ≡ none
Stopped max_body total (ended ∷ frames) why = why ≡ none
Stopped max_body total (stalled ∷ frames) why = why ≡ some timed_out
Stopped max_body total (other_frame ∷ frames) why = ⊥
Stopped max_body total (data_frame bytes taken ∷ frames) why =
    (why ≡ some oversize) × (0 < max_body) × (max_body < total + length bytes)
    ⊎ (why ≡ none) × (taken ≡ false) × Fits max_body (total + length bytes)

Fits-still : (max_body total : ℕ) → Fits max_body total → Fits max_body (total + 0)
Fits-still max_body total within = subst (Fits max_body) (omega arith) within

under_cap :
    (max_body total : ℕ) → (ltb 0 max_body && ltb max_body total) ≡ false → Fits max_body total
under_cap zero total under = inl refl
under_cap (suc n) total under = inr (ground (arith, under))

-- A frame that does not stop the forwarder by itself.
abbrev pub Passes : Frame → Type 0
Passes (data_frame bytes taken) = taken ≡ true
Passes other_frame = Unit
Passes ended = ⊥
Passes stalled = ⊥

-- The frames that were pulled and handed on, and those at which the forwarder stopped.
abbrev pub Handed : ℕ → ℕ → List Frame → Forwarded → Type 0
Handed max_body total frames sent =
    (used : List Frame) × (rest : List Frame) × (frames ≡ used ++ rest)
    × All Passes used
    × (sent.chunks ≡ data_of used)
    × Fits max_body (total + bytes_in sent.chunks)
    × Stopped max_body (total + bytes_in sent.chunks) rest sent.abandoned

-- Of a body of fewer than 2^64 bytes, of which those counted before are within the cap, the
-- forwarder hands on the data of the frames, unchanged and in order, with a cap or without one,
-- never more bytes than the cap, and stops only where the body ends, the client is silent past the
-- deadline, the next frame does not fit under the cap or is not taken; the two of these that
-- abandon the body do so with their own reason.
pub forward-data_of :
    (max_body total : ℕ) (frames : List Frame)
    → total + bytes_in (data_of frames) < 2 ^ 64
    → Fits max_body total
    → Handed max_body total frames (forward max_body total frames)
unfolding forward data_of bytes_in
forward-data_of max_body total [] room within =
    ([], [], refl, tt, refl, Fits-still max_body total within, refl)
forward-data_of max_body total (ended ∷ frames) room within =
    ([], ended ∷ frames, refl, tt, refl, Fits-still max_body total within, refl)
forward-data_of max_body total (stalled ∷ frames) room within =
    ([], stalled ∷ frames, refl, tt, refl, Fits-still max_body total within, refl)
forward-data_of max_body total (other_frame ∷ frames) room within =
    let (used, rest, e, pass, same, fits, why) =
      forward-data_of max_body total frames room within in
    (other_frame ∷ used, rest, ap (◌∷◌ other_frame) e, (tt, pass), same, fits, why)
forward-data_of max_body total (data_frame bytes taken ∷ frames) room within =
    let total' : ℕ = word (total + length bytes) in
    let small : total' ≡ total + length bytes =
      word_small (total + length bytes) (omega (arith, room)) in
    elim (Bool-cases (ltb 0 max_body && ltb max_body total')) [
      | inl over ↦ rw over (
        [],
        data_frame bytes taken ∷ frames,
        refl,
        tt,
        refl,
        Fits-still max_body total within,
        inl (refl, ground (arith, over), ground (arith, over, small)),
      )
      | inr under ↦
          let fits : Fits max_body total' = under_cap max_body total' under in
          elim (Bool-cases taken) [
            | inr gone ↦
                rw (under, gone)
                  (
                    [],
                    data_frame bytes false ∷ frames,
                    refl,
                    tt,
                    refl,
                    Fits-still max_body total within,
                    inr (refl, refl, subst (Fits max_body) (omega (arith, small)) fits),
                  )
            | inl up ↦
                let (used, rest, e, pass, same, bound, why) =
                  forward-data_of max_body total' frames (omega (arith, room, small)) fits in
                let sum : total' + bytes_in (forward max_body total' frames).chunks
                    ≡ total + (length bytes + bytes_in (forward max_body total' frames).chunks) =
                  omega (arith, small) in
                rw (under, up)
                  (
                    data_frame bytes true ∷ used,
                    rest,
                    ap (◌∷◌ (data_frame bytes true)) e,
                    (refl, pass),
                    ap (◌∷◌ bytes) same,
                    subst (Fits max_body) sum bound,
                    subst (λ n. Stopped max_body n rest (forward max_body total' frames).abandoned)
                        sum why,
                  )
          ]
    ]
