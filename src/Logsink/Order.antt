-- ===== src/Logsink/Order.antt =====
-- Lines are written in the order in which they were queued, and a closed sink writes them all.
use kino.Prelude.{
  ℕ, zero, suc, ◌≤◌, ◌<◌, ◌≡◌, refl, sym, ap, subst, ◌∙◌, inl, inr, Bool, true, false,
  if◌then◌else◌, List, [], ◌∷◌, ◌++◌, append_assoc, length, arith,
}
use kino.Flume.{Flume}
use kino.Logsink.{Line, LineSink, write_line, drain_lines, flush, flusher_round}

-- What happens to a sink: a thread writes a line, or the flusher has a round.
pub data Event : Type 0 where
  writes : Line → Event
  flushes : Event

module _ (F : Flume) where
  open F use {Chan, items, capacity, senders}

  -- The sink after the events, with the lines that were queued.
  unfoldable pub run : List Event → LineSink F × List Line → LineSink F × List Line
  unfolding write_line flusher_round
  run [] r = r
  run (writes line ∷ events) (s, queued) =
      let (s', went) = write_line F s line in
      run events (s', if went then queued ++ line ∷ [] else queued)
  run (flushes ∷ events) (s, queued) = run events (flusher_round F s, queued)

  -- All lines: those written, then those in the channel.
  abbrev pub all_lines : LineSink F → List Line
  all_lines s = s.out ++ items s.rx

  abbrev pub Same : LineSink F → LineSink F → Type 0
  Same s s' =
      (all_lines s' ≡ all_lines s)
      × (capacity s'.rx ≡ capacity s.rx)
      × (senders s'.rx ≡ senders s.rx)

  -- One line from the channel to the output.
  pub moved :
      (s : LineSink F) (line : Line) (rx : Chan Line)
      → items s.rx ≡ line ∷ items rx
      → capacity rx ≡ capacity s.rx
      → senders rx ≡ senders s.rx
      → Same s (record s { rx = rx; out = s.out ++ line ∷ [] })
  moved s line rx oldest cap_same senders_same = (
    append_assoc s.out (line ∷ []) (items rx) ∙ ap (λ l. s.out ++ l) (sym oldest),
    cap_same,
    senders_same,
  )

  no_items : {A : Type 0} (xs : List A) → length xs ≤ 0 → xs ≡ []
  no_items [] h = refl
  no_items (x ∷ xs) h = absurd (omega (arith, h))

  pub drain_lines-Same :
      (n : ℕ) (s : LineSink F)
      → length (items s.rx) ≤ n
      → Same s (drain_lines F n s) × (items (drain_lines F n s).rx ≡ [])
  unfolding drain_lines
  drain_lines-Same zero s h = ((refl, refl, refl), no_items (items s.rx) h)
  drain_lines-Same (suc n) s h = elim (F.try_recv_cases s.rx) [
    | inl (line, rx, r, oldest, cap_same, senders_same, _) ↦
        let s1 : LineSink F = record s { rx = rx; out = s.out ++ line ∷ [] } in
        let (one_lines, one_cap, one_senders) = moved s line rx oldest cap_same senders_same in
        let ((lines, cap, snds), none_left) =
          drain_lines-Same n s1 (omega (arith, h, ap length oldest)) in
        let eq : drain_lines F n s1 ≡ drain_lines F (suc n) s = ground (arith, r) in
        subst (λ t. Same s t × (items t.rx ≡ [])) eq
          ((lines ∙ one_lines, cap ∙ one_cap, snds ∙ one_senders), none_left)
    | inr (inl (r, e, _)) ↦
        let eq : s ≡ drain_lines F (suc n) s = ground (arith, r) in
        subst (λ t. Same s t × (items t.rx ≡ [])) eq ((refl, refl, refl), e)
    | inr (inr (r, e, _)) ↦
        let eq : s ≡ drain_lines F (suc n) s = ground (arith, r) in
        subst (λ t. Same s t × (items t.rx ≡ [])) eq ((refl, refl, refl), e)
  ]

  flusher_round-Same : (s : LineSink F) → Same s (flusher_round F s)
  unfolding flusher_round
  flusher_round-Same s = elim (F.try_recv_cases s.rx) [
    | inl (line, rx, r, oldest, cap_same, senders_same, _) ↦
        let s1 : LineSink F = record s { rx = rx; out = s.out ++ line ∷ [] } in
        let (one_lines, one_cap, one_senders) = moved s line rx oldest cap_same senders_same in
        let n = length (items rx) in
        let ((lines, cap, snds), _) = drain_lines-Same n s1 (omega arith) in
        let eq : flush F (drain_lines F n s1) ≡ flusher_round F s = ground (arith, r) in
        subst (Same s) eq (lines ∙ one_lines, cap ∙ one_cap, snds ∙ one_senders)
    | inr (inl (r, _, _)) ↦
        let eq : s ≡ flusher_round F s = ground (arith, r) in subst (Same s) eq (refl, refl, refl)
    | inr (inr (r, _, _)) ↦
        let eq : record (flush F s) { exited = true } ≡ flusher_round F s = ground (arith, r) in
        subst (Same s) eq (refl, refl, refl)
  ]

  -- A line that is queued goes to the end; one that is dropped changes nothing.
  abbrev Queues : LineSink F → Line → LineSink F × Bool → Type 0
  Queues s line r =
      (all_lines r.0 ≡ (if r.1 then all_lines s ++ line ∷ [] else all_lines s))
      × (capacity r.0.rx ≡ capacity s.rx)

  write_line-Queues :
      (s : LineSink F) (line : Line) → 0 < capacity s.rx → Queues s line (write_line F s line)
  unfolding write_line
  write_line-Queues s line room = elim (F.try_send_cases s.rx line room) [
    | inl (rx, r, _, appended, cap_same, _, _) ↦
        let eq : (record s { rx = rx }, true) ≡ write_line F s line = ground (arith, r) in
        subst (Queues s line) eq (
          ap (λ l. s.out ++ l) appended ∙ sym (append_assoc s.out (items s.rx) (line ∷ [])),
          cap_same,
        )
    | inr (inl (r, _)) ↦
        let eq : (s, false) ≡ write_line F s line = ground (arith, r) in
        subst (Queues s line) eq (refl, refl)
    | inr (inr (r, _)) ↦
        let eq : (s, false) ≡ write_line F s line = ground (arith, r) in
        subst (Queues s line) eq (refl, refl)
  ]

  if_append :
      (b : Bool) (all queued : List Line) (line : Line)
      → all ≡ queued
      → (if b then all ++ line ∷ [] else all) ≡ (if b then queued ++ line ∷ [] else queued)
  if_append true all queued line e = ap (λ l. l ++ line ∷ []) e
  if_append false all queued line e = e

  -- Whatever threads write and whenever the flusher runs, the lines written, followed by those in
  -- the channel, are exactly the lines that were queued, in the order in which they were queued.
  pub run-all_lines :
      (events : List Event) (s : LineSink F) (queued : List Line)
      → 0 < capacity s.rx
      → all_lines s ≡ queued
      → let (s', queued') = run events (s, queued) in all_lines s' ≡ queued'
  unfolding run
  run-all_lines [] s queued room e = e
  run-all_lines (writes line ∷ events) s queued room e =
      let (lines, cap) = write_line-Queues s line room in
      run-all_lines events (write_line F s line).0 _ (omega (arith, cap, room))
        (lines ∙ if_append (write_line F s line).1 (all_lines s) queued line e)
  run-all_lines (flushes ∷ events) s queued room e =
      let (lines, cap, _) = flusher_round-Same s in
      run-all_lines events (flusher_round F s) queued (omega (arith, cap, room)) (lines ∙ e)
