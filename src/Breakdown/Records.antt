-- ===== src/Breakdown/Records.antt =====
-- ext/kino/src/access_log.rs: the two records of a request, as bytes.
-- `now` is the stamp of the local clock, `millis` how a number of nanoseconds is printed as
-- milliseconds with one decimal, and `kilo` how a count is printed in thousands with one.
use kino.Prelude.{ℕ, Bool, Option, none, some, List, [], ◌∷◌, ◌++◌, codes}
use kino.Env.Decimal.{decimal, digits}
use kino.Names.{dim, status_sgr}
use kino.Names.Lines.{styled}
use kino.Breakdown.{Timing, Count, kino_time, write_count}

module _ (now : List ℕ) (millis kilo : ℕ → List ℕ) where
  abbrev count_text : Count → List ℕ
  count_text (Count.plain n) = digits 19 n
  count_text (Count.decimal n) = kilo n ++ codes "k"
  count_text (Count.thousands n) = digits 19 n ++ codes "k"

  abbrev gc_text : Option (ℕ × ℕ) → List ℕ
  gc_text none = []
  gc_text (some (gc, allocs)) =
      codes " [gc "
      ++ (millis gc ++ (codes "ms; " ++ (count_text (write_count allocs) ++ codes " obj]")))

  pub write_breakdown : ℕ → Timing → List ℕ
  unfolding write_count kino_time digits
  write_breakdown total timing =
      codes "(ruby "
      ++ (millis timing.ruby
          ++ (codes "ms"
              ++ (gc_text timing.gc
                  ++ (codes "; kino "
                      ++ (millis (kino_time total timing)
                          ++ (codes "ms; wait " ++ (millis timing.wait ++ codes "ms)")))))))

  pub stamped : List ℕ → Bool → List ℕ
  unfolding styled
  stamped record_text color = styled (codes dim) now color ++ (32 ∷ record_text)

  -- The arrow is U+2192, and in the completion U+2190, in UTF-8.
  unfoldable pub arrival : Bool → List ℕ → List ℕ → List ℕ → List ℕ
  unfolding stamped
  arrival color method target ip =
      let line =
        226 ∷ (134 ∷ (146 ∷ (32 ∷ (method ++ (32 ∷ (target ++ (codes "  from " ++ ip))))))) in
      stamped (styled (codes "1;97") line color) color

  pub completion_line : ℕ → List ℕ → List ℕ → ℕ → List ℕ
  unfolding decimal
  completion_line status method target total =
      226
      ∷ (134
          ∷ (144
              ∷ (32
                  ∷ (decimal status
                      ++ (32
                          ∷ (method
                              ++ (32
                                  ∷ (target ++ (codes "  " ++ (millis total ++ codes "ms"))))))))))

  abbrev tinted : ℕ → List ℕ → Bool → List ℕ
  tinted status line color = elim (status_sgr status) [
    | some code ↦ styled (codes code) line color
    | none ↦ line
  ]

  abbrev timing_text : Bool → ℕ → Option Timing → List ℕ
  timing_text color total none = []
  timing_text color total (some timing) =
      32 ∷ styled (codes dim) (write_breakdown total timing) color

  -- One newline here and one of the sink's: a blank line follows.
  unfoldable pub completion : Bool → ℕ → List ℕ → List ℕ → ℕ → Option Timing → List ℕ
  unfolding stamped completion_line status_sgr write_breakdown
  completion color status method target total timing =
      stamped (tinted status (completion_line status method target total) color) color
      ++ (timing_text color total timing ++ (10 ∷ []))
