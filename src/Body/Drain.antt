-- ===== src/Body/Drain.antt =====
-- The greedy drain of a body's channel keeps the bytes and their order.
use kino.Prelude.{
  ℕ, zero, suc, ◌+◌, ◌-◌, ◌≤◌, ◌<◌, ◌≡◌, refl, ap, sym, subst, ◌∙◌, ◌⊎◌, inl, inr, ltb, ltb→lt,
  Bool-cases, Option, none, some, Option-cases, List, [], ◌∷◌, ◌++◌, append_assoc, append-nil,
  length, length-append, take, drop, arith,
}
use kino.Flume.{Flume}
use kino.Body.{Ctx, keep_rest, piece, drain, waiting_chunks}

pub take-drop : (n : ℕ) (xs : List ℕ) → take n xs ++ drop n xs ≡ xs
take-drop zero xs = refl
take-drop (suc n) [] = refl
take-drop (suc n) (x ∷ xs) = ap (◌∷◌ x) (take-drop n xs)

pub length-take : (n : ℕ) (xs : List ℕ) → n ≤ length xs → length (take n xs) ≡ n
length-take zero xs h = refl
length-take (suc n) [] h = absurd (omega (arith, h))
length-take (suc n) (x ∷ xs) h = ap suc (length-take n xs (omega (arith, h)))

-- The bytes of the chunks, in order.
unfoldable pub concat : List (List ℕ) → List ℕ
concat [] = []
concat (c ∷ cs) = c ++ concat cs

module _ (F : Flume) where
  open F use {Chan, items, try_recv, try_recv_cases}

  abbrev pub left : Option (List ℕ) → List ℕ
  left none = []
  left (some bytes) = bytes

  abbrev pub chunks : Option (Chan (List ℕ)) → List (List ℕ)
  chunks none = []
  chunks (some rx) = items rx

  -- The bytes that the request's body has yet to give out.
  abbrev pub unread : Ctx F → List ℕ
  unread ctx = left ctx.leftover ++ concat (chunks ctx.body_rx)

  pub piece-keep_rest :
      (room : ℕ) (more : List ℕ) (rx : Chan (List ℕ)) (ctx : Ctx F)
      → ctx.leftover ≡ none
      → (piece F room more ++ left (keep_rest F room more rx ctx).leftover ≡ more)
        × (length (piece F room more) ≤ room)
        × ((keep_rest F room more rx ctx).body_rx ≡ some rx)
        × ((length (piece F room more) ≡ room) ⊎ ((keep_rest F room more rx ctx).leftover ≡ none))
  unfolding piece keep_rest
  piece-keep_rest room more rx ctx none_left = elim (Bool-cases (ltb room (length more))) [
    | inl long ↦ rw long (
      take-drop room more,
      omega (arith, length-take room more (ground arith)),
      refl,
      inl (length-take room more (ground arith)),
    )
    | inr short ↦ rw (short, none_left) (append-nil more, ground arith, refl, inr refl)
  ]

  -- Where the drain can start.
  abbrev pub Ready : ℕ → List ℕ → Ctx F → Type 0
  Ready max_len out ctx = (length out ≤ max_len) × ((length out ≡ max_len) ⊎ (ctx.leftover ≡ none))

  abbrev Ready' : ℕ → List ℕ → Ctx F → Type 0
  Ready' max_len out ctx =
      (length out ≤ max_len)
      × ((length out ≡ max_len) ⊎ (chunks ctx.body_rx ≡ []) × (ctx.leftover ≡ none))

  abbrev pub Drained : ℕ → List ℕ → Ctx F → List ℕ × Ctx F → Type 0
  Drained max_len out ctx (out', ctx') =
      (out' ++ unread ctx' ≡ out ++ unread ctx)
      × (length out' ≤ max_len)
      × ((length out' ≡ max_len) ⊎ (chunks ctx'.body_rx ≡ []) × (ctx'.leftover ≡ none))

  one_chunk :
      (max_len : ℕ) (out more : List ℕ) (rx rx' : Chan (List ℕ)) (ctx : Ctx F) (r : List ℕ × Ctx F)
      → length out < max_len
      → ctx.leftover ≡ none
      → ctx.body_rx ≡ some rx
      → items rx ≡ more ∷ items rx'
      → Drained max_len
          (out ++ piece F (max_len - length out) more)
          (keep_rest F (max_len - length out) more rx' ctx)
          r
      → Drained max_len out ctx r
  unfolding concat
  one_chunk max_len out more rx rx' ctx (out', ctx') room none_left here oldest
        (order, bound, full) =
      (
        order ∙ append_assoc out (piece F (max_len - length out) more) _ ∙ ap (λ l. out ++ l) moved,
        bound,
        full,
      )
    where
      p :
          (piece F (max_len - length out) more
              ++ left (keep_rest F (max_len - length out) more rx' ctx).leftover
            ≡ more)
          × (length (piece F (max_len - length out) more) ≤ max_len - length out)
          × ((keep_rest F (max_len - length out) more rx' ctx).body_rx ≡ some rx')
          × ((length (piece F (max_len - length out) more) ≡ max_len - length out)
              ⊎ ((keep_rest F (max_len - length out) more rx' ctx).leftover ≡ none))
      p = piece-keep_rest (max_len - length out) more rx' ctx none_left

      moved :
          piece F (max_len - length out) more
            ++ unread (keep_rest F (max_len - length out) more rx' ctx)
          ≡ unread ctx
      moved =
          sym (
            append_assoc (piece F (max_len - length out) more)
              (left (keep_rest F (max_len - length out) more rx' ctx).leftover)
              (concat (chunks (keep_rest F (max_len - length out) more rx' ctx).body_rx)))
          ∙ ap (λ l. l ++ concat (chunks (keep_rest F (max_len - length out) more rx' ctx).body_rx))
              (p.0)
          ∙ ap (λ o. more ++ concat (chunks o)) (p.2)
          ∙ ap concat (sym oldest)
          ∙ sym (rw (none_left, here) refl)

  full_drain :
      (n max_len : ℕ) (out : List ℕ) (ctx : Ctx F)
      → length out ≡ max_len
      → (out, ctx) ≡ drain F n max_len out ctx
  unfolding drain
  full_drain zero max_len out ctx e = refl
  full_drain (suc n) max_len out ctx e = ground arith

  no_items : (xs : List (List ℕ)) → length xs ≤ 0 → xs ≡ []
  no_items [] h = refl
  no_items (x ∷ xs) h = absurd (omega (arith, h))

  fewer :
      (rx rx' : Chan (List ℕ)) (more : List ℕ) (ctx ctx' : Ctx F)
      → ctx.body_rx ≡ some rx
      → ctx'.body_rx ≡ some rx'
      → items rx ≡ more ∷ items rx'
      → waiting_chunks F ctx ≡ waiting_chunks F ctx' + 1
  unfolding waiting_chunks
  fewer rx rx' more ctx ctx' e e' oldest = ground (arith, e, e', ap length oldest)

  stop :
      (max_len : ℕ) (out : List ℕ) (ctx : Ctx F) (r : List ℕ × Ctx F)
      → (out, ctx) ≡ r
      → Ready' max_len out ctx
      → Drained max_len out ctx r
  stop max_len out ctx r e h = subst (λ r. Drained max_len out ctx r) e (refl, h.0, h.1)

  pub drain-Drained :
      (n max_len : ℕ) (out : List ℕ) (ctx : Ctx F)
      → Ready max_len out ctx
      → waiting_chunks F ctx ≤ n
      → Drained max_len out ctx (drain F n max_len out ctx)
  unfolding drain waiting_chunks keep_rest
  drain-Drained n max_len out ctx (bound, inl full) enough =
      stop max_len out ctx (drain F n max_len out ctx) (full_drain n max_len out ctx full)
        (bound, inl full)
  drain-Drained zero max_len out ctx (bound, inr none_left) enough = (
    refl,
    bound,
    elim (Option-cases ctx.body_rx) [
      | inl e ↦ inr (rw e (refl, none_left))
      | inr (rx, e) ↦ inr (rw e (no_items (items rx) (ground (arith, e)), none_left))
    ],
  )
  drain-Drained (suc n) max_len out ctx (bound, inr none_left) enough =
      elim (Bool-cases (ltb (length out) max_len)) [
        | inl room ↦ elim (Option-cases ctx.body_rx) [
          | inl e ↦
              stop max_len out ctx (drain F (suc n) max_len out ctx) (ground (arith, room, e))
                (bound, inr (rw e (refl, none_left)))
          | inr (rx, e) ↦ elim (try_recv_cases rx) [
            | inl (more, rx', r, oldest, _, _, _) ↦
                let k : ℕ = max_len - length out in
                let (whole, short, same, cut) = piece-keep_rest k more rx' ctx none_left in
                let rest =
                  drain-Drained n max_len (out ++ piece F k more) (keep_rest F k more rx' ctx)
                    (
                      omega (
                        arith,
                        length-append out (piece F k more),
                        short,
                        ltb→lt (length out) max_len room,
                      ),
                      elim cut [
                        | inl c ↦ inl (
                            omega (
                              arith,
                              length-append out (piece F k more),
                              c,
                              ltb→lt (length out) max_len room,
                            ))
                        | inr c ↦ inr c
                      ],
                    )
                    (omega
                      (arith, fewer rx rx' more ctx (keep_rest F k more rx' ctx) e same oldest)) in
                one_chunk max_len out more rx rx' ctx (drain F (suc n) max_len out ctx)
                  (ground (arith, room)) none_left e oldest (rw (room, e, r) rest)
            | inr (inl (r, empty_rx, _)) ↦
                stop max_len out ctx (drain F (suc n) max_len out ctx) (ground (arith, room, e, r))
                  (bound, inr (rw e (empty_rx, none_left)))
            | inr (inr (r, empty_rx, _)) ↦
                stop max_len out ctx (drain F (suc n) max_len out ctx) (ground (arith, room, e, r))
                  (bound, inr (rw e (empty_rx, none_left)))
          ]
        ]
        | inr full ↦
            stop max_len out ctx (drain F (suc n) max_len out ctx) (ground (arith, full))
              (bound, inl (ground arith))
      ]
