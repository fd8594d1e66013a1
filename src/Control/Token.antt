-- ===== src/Control/Token.antt =====
-- The token check without an early exit is equality.
use kino.Prelude.{
  ℕ, zero, suc, ◌*◌, ◌/◌, ◌<◌, ◌≡◌, ◌↔◌, refl, ap, sym, ◌∙◌, inl, inr, eq_of_some, Option-cases,
  true, Option, none, some, List, [], ◌∷◌, ◌++◌, length, All, codes, arith,
}
use mathlib.Core.Option.{none-ne-some}
use kino.Control.{xor, or, strip_prefix, differ, presented, token_ok}

abbrev pow2 : ℕ → ℕ
pow2 zero = 1
pow2 (suc w) = 2 * pow2 w

xor_zero : (w a b : ℕ) → a < pow2 w → b < pow2 w → xor w a b ≡ 0 → a ≡ b
unfolding xor
xor_zero zero a b ha hb e = omega (arith, ha, hb)
xor_zero (suc w) a b ha hb e = omega (
  arith,
  ha,
  hb,
  e,
  xor_zero w (a / 2) (b / 2) (omega (arith, ha)) (omega (arith, hb)) (omega (arith, e)),
)

xor_self : (w a : ℕ) → xor w a a ≡ 0
unfolding xor
xor_self zero a = refl
xor_self (suc w) a = omega (arith, xor_self w (a / 2))

or_zero : (w a b : ℕ) → a < pow2 w → b < pow2 w → or w a b ≡ 0 → (a ≡ 0) × (b ≡ 0)
unfolding or
or_zero zero a b ha hb e = omega (arith, ha, hb)
or_zero (suc w) a b ha hb e =
    let rest =
      or_zero w (a / 2) (b / 2) (omega (arith, ha)) (omega (arith, hb)) (omega (arith, e)) in
    omega (arith, e, rest)

or_self : (w : ℕ) → or w 0 0 ≡ 0
unfolding or
or_self zero = refl
or_self (suc w) = omega (arith, or_self w)

xor_bound : (w a b : ℕ) → xor w a b < pow2 w
unfolding xor
xor_bound zero a b = omega arith
xor_bound (suc w) a b = omega (arith, xor_bound w (a / 2) (b / 2))

or_bound : (w a b : ℕ) → or w a b < pow2 w
unfolding or
or_bound zero a b = omega arith
or_bound (suc w) a b = omega (arith, or_bound w (a / 2) (b / 2))

-- A text of bytes.
abbrev pub AreBytes : List ℕ → Type 0
AreBytes cs = All (λ c. c < 256) cs

differ_zero :
    (diff : ℕ) (e p : List ℕ)
    → diff < 256
    → AreBytes e
    → AreBytes p
    → length e ≡ length p
    → differ diff e p ≡ 0
    → (diff ≡ 0) × (e ≡ p)
unfolding differ
differ_zero diff [] [] hd he hp l d = (d, refl)
differ_zero diff [] (y ∷ p) hd he hp l d = absurd (omega (arith, l))
differ_zero diff (x ∷ e) [] hd he hp l d = absurd (omega (arith, l))
differ_zero diff (x ∷ e) (y ∷ p) hd he hp l d =
    let (z, same) =
      differ_zero (or 8 diff (xor 8 x y)) e p (or_bound 8 diff (xor 8 x y)) he.1 hp.1
        (omega (arith, l)) d in
    let (d0, x0) = or_zero 8 diff (xor 8 x y) hd (xor_bound 8 x y) z in
    (d0, ground (arith, same, xor_zero 8 x y he.0 hp.0 x0))

differ_self : (e : List ℕ) → differ 0 e e ≡ 0
unfolding differ
differ_self [] = refl
differ_self (x ∷ e) = ground (arith, xor_self 8 x, or_self 8, differ_self e)

strip-append : (prefix text : List ℕ) → strip_prefix prefix (prefix ++ text) ≡ some text
unfolding strip_prefix
strip-append [] text = refl
strip-append (p ∷ prefix) text = ground (arith, strip-append prefix text)

strip-some :
    (prefix text rest : List ℕ) → strip_prefix prefix text ≡ some rest → text ≡ prefix ++ rest
unfolding strip_prefix
strip-some [] text rest e = eq_of_some e
strip-some (p ∷ prefix) [] rest e = absurd (none-ne-some rest e)
strip-some (p ∷ prefix) (c ∷ text) rest e = ground (arith, strip-some prefix text rest)

-- The header that carries a token.
abbrev pub bearer : List ℕ → Option (List ℕ)
bearer token = some (codes "Bearer " ++ token)

presented-bearer :
    (authorization : Option (List ℕ)) (x : ℕ) (token : List ℕ)
    → presented authorization ≡ x ∷ token
    → authorization ≡ bearer (x ∷ token)
unfolding presented
presented-bearer none x token e = ground (arith, e)
presented-bearer (some header) x token e =
    elim (Option-cases (strip_prefix (codes "Bearer ") header)) [
      | inl n ↦ absurd (ground (arith, n, e))
      | inr (rest, s) ↦ ap some (
          strip-some (codes "Bearer ") header rest s
          ∙ ap (λ t. codes "Bearer " ++ t) (ground (arith, s, e)))
    ]

presented-bearer' : (token : List ℕ) → presented (bearer token) ≡ token
unfolding presented
presented-bearer' token = ground (arith, strip-append (codes "Bearer ") token)

-- A token that is not empty is accepted exactly in the header `Bearer <token>`, on
-- texts of bytes.
pub token_ok_iff :
    (x : ℕ) (expected : List ℕ) (authorization : Option (List ℕ))
    → AreBytes (x ∷ expected)
    → AreBytes (presented authorization)
    → (token_ok (x ∷ expected) authorization ≡ true) ↔ (authorization ≡ bearer (x ∷ expected))
unfolding token_ok
token_ok_iff x expected authorization he hp = (
  λ ok.
      let same_length : length (x ∷ expected) ≡ length (presented authorization) = ground arith in
      let zero_diff : differ 0 (x ∷ expected) (presented authorization) ≡ 0 = ground arith in
      let (_, same) =
        differ_zero 0 (x ∷ expected) (presented authorization) (omega arith) he hp same_length
          zero_diff in
      presented-bearer authorization x expected (sym same),
  λ e. rw e (ground (arith, presented-bearer' (x ∷ expected), differ_self (x ∷ expected))),
)
