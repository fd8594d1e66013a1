-- ===== src/Names/Cgi.antt =====
-- Header names and their env keys.
use kino.Prelude.{ℕ, ◌<◌, ◌≡◌, ◌≢◌, refl, ◌⊎◌, List, [], ◌∷◌, map, All, arith}
use kino.Names.{cgi_char, cgi_name}

-- A character of a header name as HTTP hands it over: lower case, and no underscore.
abbrev pub IsPlain : ℕ → Type 0
IsPlain c = (c ≢ 95) × ((c < 65) ⊎ (90 < c))

cgi_char_lem : (a b : ℕ) → IsPlain a → IsPlain b → cgi_char a ≡ cgi_char b → a ≡ b
unfolding cgi_char
cgi_char_lem a b ha hb e = ground (arith, ha, hb, e)

map-cgi_char :
    (xs ys : List ℕ) → All IsPlain xs → All IsPlain ys → map cgi_char xs ≡ map cgi_char ys → xs ≡ ys
map-cgi_char [] [] hx hy e = refl
map-cgi_char [] (y ∷ ys) hx hy e = absurd (ground (arith, e))
map-cgi_char (x ∷ xs) [] hx hy e = absurd (ground (arith, e))
map-cgi_char (x ∷ xs) (y ∷ ys) hx hy e =
    let head : cgi_char x ≡ cgi_char y = ground (arith, e) in
    let tail : map cgi_char xs ≡ map cgi_char ys = ground (arith, e) in
    ground (arith, cgi_char_lem x y hx.0 hy.0 head, map-cgi_char xs ys hx.1 hy.1 tail)

-- Two header names in lower case and without underscores that share an env key are the same name.
pub cgi_name_lem :
    (xs ys : List ℕ) → All IsPlain xs → All IsPlain ys → cgi_name xs ≡ cgi_name ys → xs ≡ ys
unfolding cgi_name
cgi_name_lem xs ys hx hy e = map-cgi_char xs ys hx hy (ground (arith, e))
