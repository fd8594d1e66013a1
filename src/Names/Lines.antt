-- ===== src/Names/Lines.antt =====
-- ext/kino/src/log.rs, style.rs: the text of a log line. A byte of 27 is ESC.
use kino.Prelude.{ℕ, Bool, true, false, ◌&&◌, not, Option, none, some, List, [], ◌∷◌, ◌++◌, codes}
use kino.Control.{same_text}
use kino.Env.Decimal.{digits}
use kino.Names.{Level, Stream, parse, stream, sgr}

-- What the environment says of a stream: whether it is a terminal, and the variables.
pub record Terminal : Type 0 where
  pub is_terminal : Bool
  pub no_color : Option (List ℕ)
  pub term : Option (List ℕ)

unfoldable pub enabled : Terminal → Bool
enabled t =
    t.is_terminal
    && elim t.no_color [ none ↦ true | some _ ↦ false ]
    && elim t.term [ none ↦ true | some name ↦ not (same_text name (codes "dumb")) ]

unfoldable pub styled : List ℕ → List ℕ → Bool → List ℕ
styled code text true = (27 ∷ 91 ∷ code) ++ ((109 ∷ text) ++ (27 ∷ codes "[0m"))
styled code text false = text

-- A u32 has ten digits at most.
unfoldable pub label : ℕ → List ℕ → List ℕ
label pid source = codes "kino[" ++ (digits 9 pid ++ (codes "] " ++ (source ++ codes ":")))

unfoldable pub format_line : Level → List ℕ → List ℕ → Bool → List ℕ
unfolding styled
format_line level tag message color = styled (codes (sgr level)) tag color ++ (32 ∷ message)

-- The stream and the line, with its newline, 10.
unfoldable pub emit : (Stream → Terminal) → ℕ → Level → List ℕ → List ℕ → Stream × List ℕ
unfolding format_line label enabled
emit terminals pid level source message =
    let to = stream level in
    (to, format_line level (label pid source) message (enabled (terminals to)) ++ 10 ∷ [])

-- None is the ArgumentError, with nothing written.
unfoldable pub log_line :
    (Stream → Terminal) → ℕ → List ℕ → List ℕ → List ℕ → Option (Stream × List ℕ)
unfolding emit
log_line terminals pid level source message = elim (parse level) [
  | none ↦ none
  | some known ↦ some (emit terminals pid known source message)
]
