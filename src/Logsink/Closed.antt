-- ===== src/Logsink/Closed.antt =====
-- What becomes of a sink whose device is closed.
use kino.Prelude.{
  ◌≡◌, refl, sym, ap, subst, ◌∙◌, inl, inr, true, [], ◌∷◌, ◌++◌, append-nil, length, arith,
}
use kino.Flume.{Flume}
use kino.Logsink.{LineSink, dropped_sink, drain_lines, flush, flusher_round}
use kino.Logsink.Order.{all_lines, drain_lines-Same, moved}

module _ (F : Flume) where
  open F use {Chan, items, senders}

  abbrev Drained : LineSink F → LineSink F → Type 0
  Drained s s' = (all_lines F s' ≡ all_lines F s) × (items s'.rx ≡ []) × (senders s'.rx ≡ 0)

  -- All the lines of the first are written and flushed, and the flusher of the second has exited.
  abbrev pub Finished : LineSink F → LineSink F → Type 0
  Finished s s' = (s'.out ≡ all_lines F s) × (s'.flushed ≡ all_lines F s) × (s'.exited ≡ true)

  -- With no sender, a round leaves nothing in the channel.
  flusher_round-Drained : (s : LineSink F) → senders s.rx ≡ 0 → Drained s (flusher_round F s)
  unfolding flusher_round
  flusher_round-Drained s none_sends = elim (F.try_recv_cases s.rx) [
    | inl (line, rx, r, oldest, cap_same, senders_same, _) ↦
        let s1 : LineSink F = record s { rx = rx; out = s.out ++ line ∷ [] } in
        let (one_lines, _, one_senders) = moved F s line rx oldest cap_same senders_same in
        let n = length (items rx) in
        let ((lines, _, snds), none_left) = drain_lines-Same F n s1 (omega arith) in
        let eq : flush F (drain_lines F n s1) ≡ flusher_round F s = ground (arith, r) in
        subst (Drained s) eq (lines ∙ one_lines, none_left, snds ∙ one_senders ∙ none_sends)
    | inr (inl (_, _, some_sends)) ↦ absurd (omega (arith, some_sends, none_sends))
    | inr (inr (r, e, _)) ↦
        let eq : record (flush F s) { exited = true } ≡ flusher_round F s = ground (arith, r) in
        subst (Drained s) eq (refl, e, none_sends)
  ]

  -- With no sender and nothing in the channel, a round is the last.
  flusher_round-Finished :
      (s : LineSink F) → senders s.rx ≡ 0 → items s.rx ≡ [] → Finished s (flusher_round F s)
  unfolding flusher_round
  flusher_round-Finished s none_sends nothing = elim (F.try_recv_cases s.rx) [
    | inl (line, rx, _, oldest, _, _, _) ↦ absurd (omega (arith, ap length (sym oldest ∙ nothing)))
    | inr (inl (_, _, some_sends)) ↦ absurd (omega (arith, some_sends, none_sends))
    | inr (inr (r, _, _)) ↦
        let eq : record (flush F s) { exited = true } ≡ flusher_round F s = ground (arith, r) in
        let all : s.out ≡ all_lines F s = sym (ap (λ l. s.out ++ l) nothing ∙ append-nil s.out) in
        subst (Finished s) eq (all, all, refl)
  ]

  -- When the only sender of a sink is dropped, two rounds of the flusher write and flush every line
  -- that was queued, in order after those written before, and the flusher exits.
  pub dropped_sink-Finished :
      (s : LineSink F)
      → senders s.rx ≡ 1
      → Finished s (flusher_round F (flusher_round F (dropped_sink F s)))
  dropped_sink-Finished s one_sender =
      let s' = dropped_sink F s in
      let (same, _, one_less, _) = F.drop_sender_lem s.rx in
      let (lines, nothing, none_sends) =
        flusher_round-Drained s' (omega (arith, one_less, one_sender)) in
      let all : all_lines F (flusher_round F s') ≡ all_lines F s =
        lines ∙ ap (λ l. s.out ++ l) same in
      let (out, flushed, exited) = flusher_round-Finished (flusher_round F s') none_sends nothing in
      (out ∙ all, flushed ∙ all, exited)
