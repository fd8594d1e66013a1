-- ===== src/Stream/Once.antt =====
-- A chunk goes out once or not at all, in the order of the writes.
use kino.Prelude.{
  ℕ, ◌<◌, ◌≡◌, refl, sym, ap, subst, ◌∙◌, ◌⊎◌, inl, inr, Bool, Bool-cases, true, false, Option,
  none, some, Option-cases, eq_of_some, List, [], ◌∷◌, ◌++◌, append_assoc, All, arith,
}
use mathlib.Core.Option.{none-ne-some}
use kino.Flume.{Flume, received}
use kino.Gvl.{Wait, interrupted, finished, pending, interruptible}
use kino.Response.{FrameResult, frame, body_sender}
use kino.Stream.{
  Stream, ChunkResult, ok, not_started, interrupted_error, write_attempt, after_write, write_chunk,
  body_bytes,
}

module _ (F : Flume) where
  open F use {Chan, items, capacity, receivers}

  -- The frames that were written: those delivered, then those in the channel.
  abbrev pub written : Stream F → List FrameResult
  written s = s.delivered ++ elim s.responder.frames [ none ↦ [] | some frames ↦ items frames ]

  -- The frame channel has a capacity.
  abbrev pub HasRoom : Stream F → Type 0
  HasRoom s = (frames : Chan FrameResult) → s.responder.frames ≡ some frames → 0 < capacity frames

  -- What happens between two attempts writes no frame: the client receives what is there.
  abbrev pub IsReader : (Stream F → Stream F) → Type 0
  IsReader tick = (s : Stream F) → HasRoom s → (written (tick s) ≡ written s) × HasRoom (tick s)

  -- The client has gone: the frame channel is given up, or has no receiver.
  abbrev pub HasGone : Stream F → Type 0
  HasGone s = (frames : Chan FrameResult) → s.responder.frames ≡ some frames → receivers frames ≡ 0

  -- One attempt.
  abbrev Tried : FrameResult → Stream F → Option Bool × Stream F → Type 0
  Tried chunk s r =
      (r.0 ≡ some true) × (written r.1 ≡ written s ++ chunk ∷ [])
      ⊎ (r.0 ≡ some false) × (written r.1 ≡ written s) × HasGone r.1
      ⊎ (r.0 ≡ none) × (written r.1 ≡ written s) × HasRoom r.1

  write_attempt-Tried :
      (chunk : FrameResult) (s : Stream F) → HasRoom s → Tried chunk s (write_attempt F chunk s)
  unfolding write_attempt
  write_attempt-Tried chunk s room = elim (Option-cases s.responder.frames) [
    | inl e ↦
        let eq : (some false, s) ≡ write_attempt F chunk s = ground (arith, e) in
        subst (Tried chunk s) eq
          (inr (inl (refl, refl, λ other here. absurd (none-ne-some other (sym e ∙ here)))))
    | inr (frames, e) ↦ elim (F.try_send_cases frames chunk (room frames e)) [
      | inl (frames', r, _, appended, _, _, _) ↦
          let s' : Stream F = record s {
            responder = record s.responder { frames = some frames' };
          } in
          let eq : (some true, s') ≡ write_attempt F chunk s = ground (arith, e, r) in
          subst (Tried chunk s) eq (
            inl (
              refl,
              ap (λ l. s.delivered ++ l) appended
                  ∙ sym (append_assoc s.delivered (items frames) (chunk ∷ []))
                  ∙ ap
                      (λ (o : Option (Chan FrameResult)).
                        (s.delivered ++ elim o [ none ↦ [] | some c ↦ items c ]) ++ chunk ∷ [])
                      (sym e),
            ))
      | inr (inl (r, _)) ↦
          let eq : (none, s) ≡ write_attempt F chunk s = ground (arith, e, r) in
          subst (Tried chunk s) eq (inr (inr (refl, refl, room)))
      | inr (inr (r, unread)) ↦
          let eq : (some false, s) ≡ write_attempt F chunk s = ground (arith, e, r) in
          subst (Tried chunk s) eq (
            inr (
              inl (
                refl,
                refl,
                λ other here. subst (λ c. receivers c ≡ 0) (eq_of_some (sym e ∙ here)) unread,
              )))
    ]
  ]

  -- How a wait to write ends: the frame went out at the end, or not at all.
  abbrev Wrote : FrameResult → Stream F → Wait (Stream F) Bool → Type 0
  Wrote chunk s (interrupted s') = written s' ≡ written s
  Wrote chunk s (finished true s') = written s' ≡ written s ++ chunk ∷ []
  Wrote chunk s (finished false s') = (written s' ≡ written s) × HasGone s'
  Wrote chunk s (pending s') = written s' ≡ written s

  Wrote-trans :
      (chunk : FrameResult) (s s' : Stream F) (w : Wait (Stream F) Bool)
      → written s' ≡ written s
      → Wrote chunk s' w
      → Wrote chunk s w
  Wrote-trans chunk s s' (interrupted t) e h = h ∙ e
  Wrote-trans chunk s s' (finished true t) e h = h ∙ ap (λ l. l ++ chunk ∷ []) e
  Wrote-trans chunk s s' (finished false t) e (h, gone) = (h ∙ e, gone)
  Wrote-trans chunk s s' (pending t) e h = h ∙ e

  waits-Wrote :
      (chunk : FrameResult) (ticks : List (Stream F → Stream F)) (s : Stream F)
      → All IsReader ticks
      → HasRoom s
      → Wrote chunk s (interruptible (λ t. t.interrupted) (write_attempt F chunk) ticks s)
  unfolding interruptible
  waits-Wrote chunk [] s readers room = refl
  waits-Wrote chunk (tick ∷ ticks) s (reads, readers) room =
      let Here : Wait (Stream F) Bool → Type 0 = Wrote chunk s in
      let wait = interruptible (λ t. t.interrupted) (write_attempt F chunk) (tick ∷ ticks) s in
      let (same, room') = reads s room in
      let r = write_attempt F chunk (tick s) in
      elim (Bool-cases s.interrupted) [
        | inl up ↦ let eq : interrupted s ≡ wait = ground (arith, up) in subst Here eq refl
        | inr down ↦ elim (write_attempt-Tried chunk (tick s) room') [
          | inl (e, went) ↦
              let eq : finished true r.1 ≡ wait = ground (arith, down, e) in
              subst Here eq (went ∙ ap (λ l. l ++ chunk ∷ []) same)
          | inr (inl (e, kept, gone)) ↦
              let eq : finished false r.1 ≡ wait = ground (arith, down, e) in
              subst Here eq (kept ∙ same, gone)
          | inr (inr (e, kept, room'')) ↦
              let rest = waits-Wrote chunk ticks r.1 readers room'' in
              let eq : interruptible (λ t. t.interrupted) (write_attempt F chunk) ticks r.1 ≡ wait =
                ground (arith, down, e) in
              subst Here eq (
                Wrote-trans chunk s r.1
                  (interruptible (λ t. t.interrupted) (write_attempt F chunk) ticks r.1)
                  (kept ∙ same) rest)
        ]
      ]

  -- How `write_chunk` ends.
  abbrev pub Once : List ℕ → Stream F → Wait (Stream F) ChunkResult → Type 0
  Once bytes s (interrupted s') = ⊥
  Once bytes s (finished ok s') =
      (written s' ≡ written s ++ frame bytes ∷ []) ⊎ (written s' ≡ written s) × HasGone s'
  Once bytes s (finished not_started s') = (s' ≡ s) × (body_sender F s.responder ≡ none)
  Once bytes s (finished interrupted_error s') = written s' ≡ written s
  Once bytes s (pending s') = written s' ≡ written s

  after_write-Once :
      (bytes : List ℕ) (s : Stream F) (w : Wait (Stream F) Bool)
      → Wrote (frame bytes) s w
      → Once bytes s (after_write F w)
  unfolding after_write
  after_write-Once bytes s (interrupted t) h = h
  after_write-Once bytes s (finished true t) h = inl h
  after_write-Once bytes s (finished false t) h = inr h
  after_write-Once bytes s (pending t) h = h

  -- While the client only reads, of a frame channel with a capacity, a chunk that is written goes
  -- out once, whole and after all that was written before it; the call returns without it only if
  -- the client has gone; it is not written while the wait goes on or if it is interrupted; and a
  -- stream that was not started or is finished refuses it and is unchanged.
  pub write_chunk-Once :
      (bytes : List ℕ) (tmp : ℕ) (flagged : Bool) (ticks : List (Stream F → Stream F))
      (s : Stream F)
      → All IsReader ticks
      → HasRoom s
      → Once bytes s (write_chunk F bytes tmp flagged ticks s)
  unfolding write_chunk
  write_chunk-Once bytes tmp flagged ticks s readers room =
      elim (Option-cases (body_sender F s.responder)) [
        | inl e ↦
            let eq : finished not_started s ≡ write_chunk F bytes tmp flagged ticks s =
              ground (arith, e) in
            subst (Once bytes s) eq (refl, e)
        | inr (frames, e) ↦
            let pinned : Stream F = record s {
              pin_slab = (body_bytes s.pin_slab bytes tmp flagged).0;
            } in
            let wait =
              interruptible (λ (t : Stream F). t.interrupted) (write_attempt F (frame bytes)) ticks
                pinned in
            let eq : after_write F wait ≡ write_chunk F bytes tmp flagged ticks s =
              ground (arith, e) in
            subst (Once bytes s) eq (
              after_write-Once bytes s wait
                (waits-Wrote (frame bytes) ticks pinned readers (λ c here. room c here)))
      ]

  -- The client receives one frame.
  unfoldable pub deliver : Stream F → Stream F
  deliver s = elim s.responder.frames [
    | none ↦ s
    | some frames ↦ elim (F.try_recv frames) [
      | received f frames' ↦ record s {
        delivered = s.delivered ++ f ∷ [];
        responder = record s.responder { frames = some frames' };
      }
      | _ ↦ s
    ]
  ]

  abbrev Reads : Stream F → Stream F → Type 0
  Reads s s' = (written s' ≡ written s) × HasRoom s'

  pub deliver-IsReader : IsReader deliver
  unfolding deliver
  deliver-IsReader s room = elim (Option-cases s.responder.frames) [
    | inl e ↦ let eq : s ≡ deliver s = ground (arith, e) in subst (Reads s) eq (refl, room)
    | inr (frames, e) ↦ elim (F.try_recv_cases frames) [
      | inl (f, frames', r, oldest, cap_same, _, _) ↦
          let s' : Stream F = record s {
            delivered = s.delivered ++ f ∷ [];
            responder = record s.responder { frames = some frames' };
          } in
          let eq : s' ≡ deliver s = ground (arith, e, r) in
          subst (Reads s) eq (
            append_assoc s.delivered (f ∷ []) (items frames')
                ∙ ap (λ l. s.delivered ++ l) (sym oldest)
                ∙ ap
                    (λ (o : Option (Chan FrameResult)).
                      s.delivered ++ elim o [ none ↦ [] | some c ↦ items c ])
                    (sym e),
            λ other here.
                subst (λ c. 0 < capacity c) (eq_of_some here)
                  (omega (arith, cap_same, room frames e)),
          )
      | inr (inl (r, _, _)) ↦
          let eq : s ≡ deliver s = ground (arith, e, r) in subst (Reads s) eq (refl, room)
      | inr (inr (r, _, _)) ↦
          let eq : s ≡ deliver s = ground (arith, e, r) in subst (Reads s) eq (refl, room)
    ]
  ]
