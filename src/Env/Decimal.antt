-- ===== src/Env/Decimal.antt =====
-- Ports as texts: what `u16::to_string` and `str::parse::<u16>` give.
use kino.Prelude.{
  ℕ, zero, suc, ◌+◌, ◌-◌, ◌*◌, ◌/◌, ◌%◌, ◌≤◌, ◌<◌, ◌≡◌, refl, sym, ap, ◌∙◌, ltb, leb, ◌==◌,
  if◌then◌else◌, Bool-cases, ◌&&◌, Option, none, some, List, [], ◌∷◌, ◌++◌, arith, inl, inr,
}

-- The digits of a number below 10 ^ (n + 1); 48 is '0'.
unfoldable pub digits : ℕ → ℕ → List ℕ
digits zero p = (48 + p) ∷ []
digits (suc n) p =
    let front = digits n (p / 10) in if ltb p 10 then (48 + p) ∷ [] else front ++ (48 + p % 10) ∷ []

-- A u16 has five digits at most.
unfoldable pub decimal : ℕ → List ℕ
unfolding digits
decimal p = digits 4 p

-- Each digit multiplies and adds, and overflow refuses the text.
pub parse_digits : ℕ → List ℕ → Option ℕ
parse_digits value [] = some value
parse_digits value (c ∷ text) =
    let next = value * 10 + (c - 48) in
    let rest = parse_digits next text in
    if leb 48 c && leb c 57 && leb next 65535 then rest else none

-- A '+', 43, may stand before the digits, of which there is at least one.
unfoldable pub parse_u16 : List ℕ → Option ℕ
unfolding parse_digits
parse_u16 [] = none
parse_u16 (c ∷ []) = parse_digits 0 (c ∷ [])
parse_u16 (c ∷ (d ∷ text)) =
    if c == 43 then parse_digits 0 (d ∷ text) else parse_digits 0 (c ∷ (d ∷ text))

abbrev then_digit : ℕ → Option ℕ → Option ℕ
then_digit c none = none
then_digit c (some value) = parse_digits value (c ∷ [])

parse_digits-snoc :
    (value : ℕ) (text : List ℕ) (c : ℕ)
    → parse_digits value (text ++ c ∷ []) ≡ then_digit c (parse_digits value text)
unfolding parse_digits
parse_digits-snoc value [] c = refl
parse_digits-snoc value (d ∷ text) c =
    elim (Bool-cases (leb 48 d && leb d 57 && leb (value * 10 + (d - 48)) 65535)) [
      | inl e ↦ rw e (parse_digits-snoc (value * 10 + (d - 48)) text c)
      | inr e ↦ rw e refl
    ]

-- A number of at most 10 ^ (n + 1), in range for a port.
bound : ℕ → ℕ
bound zero = 10
bound (suc n) = 10 * bound n

parse_digits-digits : (n p : ℕ) → p < bound n → p ≤ 65535 → parse_digits 0 (digits n p) ≡ some p
unfolding digits parse_digits bound
parse_digits-digits zero p lt le = ground arith
parse_digits-digits (suc n) p lt le = elim (Bool-cases (ltb p 10)) [
  | inl small ↦ ground (arith, small)
  | inr large ↦
      let front = parse_digits-digits n (p / 10) (omega (arith, lt)) (omega (arith, le)) in
      rw large (
        parse_digits-snoc 0 (digits n (p / 10)) (48 + p % 10)
        ∙ ap (then_digit (48 + p % 10)) front
        ∙ ground arith)
]

-- Digits start with a digit.
digits-head :
    (n p : ℕ) → p < bound n → (c : ℕ) × (rest : List ℕ) × (digits n p ≡ c ∷ rest) × (48 ≤ c)
unfolding digits bound
digits-head zero p lt = (48 + p, [], refl, omega arith)
digits-head (suc n) p lt = elim (Bool-cases (ltb p 10)) [
  | inl small ↦ (48 + p, [], ground (arith, small), omega arith)
  | inr large ↦
      let (c, rest, e, h) = digits-head n (p / 10) (omega (arith, lt)) in
      (c, rest ++ (48 + p % 10) ∷ [], ground (arith, large, e), h)
]

parse_u16-digit :
    (c : ℕ) (text : List ℕ) → 48 ≤ c → parse_u16 (c ∷ text) ≡ parse_digits 0 (c ∷ text)
unfolding parse_u16
parse_u16-digit c [] h = refl
parse_u16-digit c (d ∷ text) h = ground arith

-- A port that is printed is read again.
pub parse_u16-decimal : (p : ℕ) → p ≤ 65535 → parse_u16 (decimal p) ≡ some p
unfolding decimal bound
parse_u16-decimal p le =
    let (c, rest, e, h) = digits-head 4 p (omega (arith, le)) in
    ap parse_u16 e
    ∙ parse_u16-digit c rest h
    ∙ ap (parse_digits 0) (sym e)
    ∙ parse_digits-digits 4 p (omega (arith, le)) le

-- No digit is ':', 58.
abbrev pub AllDigits : List ℕ → Type 0
AllDigits [] = Unit
AllDigits (c ∷ text) = (c < 58) × AllDigits text

AllDigits-snoc : (text : List ℕ) (c : ℕ) → AllDigits text → c < 58 → AllDigits (text ++ c ∷ [])
AllDigits-snoc [] c h lt = (lt, tt)
AllDigits-snoc (d ∷ text) c (here, rest) lt = (here, AllDigits-snoc text c rest lt)

digits-AllDigits : (n p : ℕ) → p < bound n → AllDigits (digits n p)
unfolding digits bound
digits-AllDigits zero p lt = (omega (arith, lt), tt)
digits-AllDigits (suc n) p lt = elim (Bool-cases (ltb p 10)) [
  | inl small ↦ rw small (ground (arith, small), tt)
  | inr large ↦ rw large (
      AllDigits-snoc (digits n (p / 10)) (48 + p % 10)
        (digits-AllDigits n (p / 10) (omega (arith, lt))) (omega arith))
]

pub decimal-AllDigits : (p : ℕ) → p ≤ 65535 → AllDigits (decimal p)
unfolding decimal bound
decimal-AllDigits p le = digits-AllDigits 4 p (omega (arith, le))
