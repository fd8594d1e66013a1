-- ===== src/Control/Route.antt =====
-- Which requests the control endpoint answers with data, and which without credentials.
use kino.Prelude.{
  ℕ, ◌≡◌, ◌==◌, ap, subst, ◌∙◌, ◌⊎◌, inl, inr, refl, ◌||◌, Bool, true, false, Bool-cases, Option,
  none, some, List, [], ◌∷◌, ◌++◌, String, codes, arith,
}
use kino.Registry.{state_ready}
use kino.Control.Token.{AreBytes, bearer, token_ok_iff}
use kino.Control.{
  presented, StatsSnapshot, state_name, RouteBody, stats_json, metrics_text, text, token_ok,
  same_text, before_query, ready_answer, authorized, data_answer, route,
}

-- A body that shows the server's figures.
abbrev pub IsData : RouteBody → Type 0
IsData body = (body ≡ stats_json) ⊎ (body ≡ metrics_text)

not_text : (t : List ℕ) {A : Type 0} → IsData (text t) → A
not_text t (inl e) = absurd (ground (arith, e))
not_text t (inr e) = absurd (ground (arith, e))

data_answer-allowed :
    (path : List ℕ) (allowed : Bool)
    → IsData (data_answer path allowed).2
    → ((data_answer path allowed).0 ≡ 200) × (allowed ≡ true)
unfolding data_answer
data_answer-allowed path true shown = ground arith
data_answer-allowed path false shown = not_text _ shown

authorized-some :
    (authorization token : Option (List ℕ))
    → authorized authorization token ≡ true
    → (token ≡ none)
      ⊎ ((expected : List ℕ) × (token ≡ some expected) × (token_ok expected authorization ≡ true))
unfolding authorized
authorized-some authorization none ok = inl refl
authorized-some authorization (some expected) ok = inr (expected, refl, ok)

ready_answer-text : (s : StatsSnapshot) {A : Type 0} → IsData (ready_answer s).2 → A
unfolding ready_answer
ready_answer-text s shown = elim (Bool-cases (s.state == state_ready)) [
  | inl up ↦ not_text (codes "ok\n") (subst (λ r. IsData r) (ground (arith, up)) shown)
  | inr down ↦
      not_text (codes (state_name s) ++ 10 ∷ [])
        (subst (λ r. IsData r) (ground (arith, down)) shown)
]

-- Every answer but the two of `data_answer` is a text.
routed :
    (method target : List ℕ) (authorization token : Option (List ℕ)) (snapshot : StatsSnapshot)
    → IsData (route method target authorization token snapshot).2
    → ((same_text method (codes "GET") || same_text method (codes "HEAD")) ≡ true)
      × (route method target authorization token snapshot
          ≡ data_answer (before_query target) (authorized authorization token))
unfolding route
routed method target authorization token snapshot shown =
    elim (Bool-cases (same_text method (codes "GET") || same_text method (codes "HEAD"))) [
      | inr other ↦
          not_text (codes "method not allowed\n")
            (subst (λ r. IsData r) (ground (arith, other)) shown)
      | inl get ↦ elim (Bool-cases (same_text (before_query target) (codes "/live"))) [
        | inl live ↦
            not_text (codes "ok\n") (subst (λ r. IsData r) (ground (arith, get, live)) shown)
        | inr a ↦ elim (Bool-cases (same_text (before_query target) (codes "/ready"))) [
          | inl ready ↦
              ready_answer-text snapshot
                (subst (λ r. IsData r) (ground (arith, get, a, ready)) shown)
          | inr b ↦
              elim (Bool-cases (
                same_text (before_query target) (codes "/stats")
                || same_text (before_query target) (codes "/metrics"))) [
                  | inl figures ↦ (get, ground (arith, get, a, b, figures))
                  | inr c ↦
                      not_text (codes "not found\n")
                        (subst (λ r. IsData r) (ground (arith, get, a, b, c)) shown)
                ]
        ]
      ]
    ]

carries :
    (authorization token : Option (List ℕ))
    → AreBytes (presented authorization)
    → ((expected : List ℕ) → token ≡ some expected → AreBytes expected)
    → (token ≡ none)
      ⊎ ((expected : List ℕ) × (token ≡ some expected) × (token_ok expected authorization ≡ true))
    → (token ≡ none)
      ⊎ (token ≡ some [])
      ⊎ ((expected : List ℕ) × (token ≡ some expected) × (authorization ≡ bearer expected))
carries authorization token sent set (inl e) = inl e
carries authorization token sent set (inr ([], e, ok)) = inr (inl e)
carries authorization token sent set (inr (x ∷ expected, e, ok)) = inr (
    inr (x ∷ expected, e, (token_ok_iff x expected authorization (set (x ∷ expected) e) sent).0 ok))

-- On texts of bytes, the figures are shown only for a GET or HEAD, with status 200, and only where no
-- token or an empty one is configured, or where the Authorization header is `Bearer ` and the token.
pub route-IsData :
    (method target : List ℕ) (authorization token : Option (List ℕ)) (snapshot : StatsSnapshot)
    → AreBytes (presented authorization)
    → ((expected : List ℕ) → token ≡ some expected → AreBytes expected)
    → IsData (route method target authorization token snapshot).2
    → ((route method target authorization token snapshot).0 ≡ 200)
      × ((same_text method (codes "GET") || same_text method (codes "HEAD")) ≡ true)
      × ((token ≡ none)
          ⊎ (token ≡ some [])
          ⊎ ((expected : List ℕ) × (token ≡ some expected) × (authorization ≡ bearer expected)))
route-IsData method target authorization token snapshot sent set shown =
    let (get, same) = routed method target authorization token snapshot shown in
    let (ok, allowed) =
      data_answer-allowed (before_query target) (authorized authorization token)
        (subst (λ (r : ℕ × String × RouteBody). IsData r.2) same shown) in
    (
      ap (λ (r : ℕ × String × RouteBody). r.0) same ∙ ok,
      get,
      carries authorization token sent set (authorized-some authorization token allowed),
    )
