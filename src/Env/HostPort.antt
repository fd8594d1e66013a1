-- ===== src/Env/HostPort.antt =====
-- request.rs, `split_host_port`: a host's name and port.
use kino.Prelude.{
  ℕ, ◌≤◌, ◌≡◌, ◌≢◌, refl, ◌==◌, if◌then◌else◌, Option, none, some, List, [], ◌∷◌, ◌++◌, arith,
}
use kino.Env.Decimal.{decimal, parse_u16, parse_u16-decimal, AllDigits, decimal-AllDigits}

-- `rsplit_once`: the texts before and after the last `sep`.
unfoldable pub rsplit_once : ℕ → List ℕ → Option (List ℕ × List ℕ)
rsplit_once sep [] = none
rsplit_once sep (c ∷ text) =
    let rest = rsplit_once sep text in
    elim rest [
      | some (before, after) ↦ some (c ∷ before, after)
      | none ↦ if c == sep then some ([], text) else none
    ]

unfoldable pub named : List ℕ → ℕ → List ℕ → List ℕ → List ℕ × ℕ
unfolding parse_u16
named host default_port name port = elim (parse_u16 port) [
  | some p ↦ (name, p)
  | none ↦ (host, default_port)
]

-- The ':' is 58.
unfoldable pub split_host_port : List ℕ → ℕ → List ℕ × ℕ
unfolding named rsplit_once
split_host_port host default_port = elim (rsplit_once 58 host) [
  | some ([], port) ↦ (host, default_port)
  | some (c ∷ name, port) ↦ named host default_port (c ∷ name) port
  | none ↦ (host, default_port)
]

rsplit_once-digits : (text : List ℕ) → AllDigits text → rsplit_once 58 text ≡ none
unfolding rsplit_once
rsplit_once-digits [] h = refl
rsplit_once-digits (c ∷ text) (here, rest) = ground (arith, rsplit_once-digits text rest)

rsplit_once-append :
    (name text : List ℕ) → AllDigits text → rsplit_once 58 (name ++ 58 ∷ text) ≡ some (name, text)
unfolding rsplit_once
rsplit_once-append [] text h = ground (arith, rsplit_once-digits text h)
rsplit_once-append (c ∷ name) text h = ground (arith, rsplit_once-append name text h)

-- A host written as a name, of any bytes but not empty, then ':' and the port in decimal, is split
-- into that name and port again, whatever the default port.
pub split_host_port-decimal :
    (name : List ℕ) (port default_port : ℕ)
    → name ≢ []
    → port ≤ 65535
    → split_host_port (name ++ 58 ∷ decimal port) default_port ≡ (name, port)
unfolding split_host_port named
split_host_port-decimal [] port default_port ne le = absurd (ne refl)
split_host_port-decimal (c ∷ name) port default_port ne le = ground (
  arith,
  rsplit_once-append (c ∷ name) (decimal port) (decimal-AllDigits port le),
  parse_u16-decimal port le,
)
