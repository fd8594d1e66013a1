-- ===== src/Body/Read.antt =====
-- No byte of a body is lost, doubled or moved by the way it is cut into reads.
use kino.Prelude.{
  ℕ, ◌≤◌, ◌≡◌, refl, ap, sym, subst, ◌∙◌, ◌⊎◌, inl, inr, ltb, max, true, false, Bool-cases, Option,
  none, some, List, [], ◌∷◌, ◌++◌, append_assoc, length, take, drop, arith,
}
use kino.Flume.{Flume, received}
use kino.Gvl.{Wait, finished, interruptible}
use kino.Response.{Responder, BodyAbandon, oversize, timed_out, abandon_body}
use kino.Body.{
  Ctx, BodyRead, chunk, eof, disconnected_read, body_too_large, body_timeout, body_attempt,
  waiting_chunks, assemble, received_read, after_recv, read_body,
}
use kino.Body.Drain.{take-drop, length-take, concat, left, chunks, unread, Drained, drain-Drained}

-- The forwarder hangs up, after it has abandoned the body or not.
abbrev pub hung_up : {C : Type 0} → Responder C → Option BodyAbandon → Responder C
hung_up r none = r
hung_up r (some why) = abandon_body r why

-- What the app meets at the end of the body.
abbrev pub met : Option BodyAbandon → BodyRead
met none = eof
met (some oversize) = body_too_large
met (some timed_out) = body_timeout

module _ (F : Flume) where
  open F use {Chan, items, try_recv, try_recv_cases}

  assemble-Drained :
      (max_len : ℕ) (first : List ℕ) (ctx : Ctx F)
      → ctx.leftover ≡ none
      → Drained F max_len first ctx (assemble F max_len first ctx)
  unfolding assemble
  assemble-Drained max_len first ctx none_left = elim (Bool-cases (ltb max_len (length first))) [
    | inl long ↦
        rw (long, none_left)
          (
            sym (
                  append_assoc (take max_len first) (drop max_len first)
                    (concat (chunks F ctx.body_rx)))
                ∙ ap (λ l. l ++ concat (chunks F ctx.body_rx)) (take-drop max_len first),
            omega (arith, cut long),
            inl (cut long),
          )
    | inr short ↦ rw short (
        drain-Drained F (waiting_chunks F ctx) max_len first ctx (ground arith, inr none_left)
          (omega arith))
  ]
    where
      cut : ltb max_len (length first) ≡ true → length (take max_len first) ≡ max_len
      cut long = length-take max_len first (ground arith)

  -- A read gave `out`, and `bytes` are the body's bytes at the time.
  abbrev pub Gave : ℕ → List ℕ → Wait (Ctx F) BodyRead → Type 0
  Gave max_len bytes w =
      (out : List ℕ) × (ctx' : Ctx F) × (w ≡ finished (chunk out) ctx')
      × (out ++ unread F ctx' ≡ bytes)
      × (length out ≤ max_len)
      × ((length out ≡ max_len) ⊎ (unread F ctx' ≡ []))

  received_read-Gave :
      (max_len : ℕ) (first : List ℕ) (ctx : Ctx F)
      → ctx.leftover ≡ none
      → Gave max_len (first ++ concat (chunks F ctx.body_rx)) (received_read F max_len first ctx)
  unfolding received_read concat
  received_read-Gave max_len first ctx none_left =
      let (order, bound, full) = assemble-Drained max_len first ctx none_left in
      (
        (assemble F max_len first ctx).0,
        (assemble F max_len first ctx).1,
        refl,
        order ∙ ap (λ o. first ++ (left F o ++ concat (chunks F ctx.body_rx))) none_left,
        bound,
        elim full [ inl e ↦ inl e | inr (c, l) ↦ inr (rw (c, l) refl) ],
      )

  bytes_now :
      (ctx : Ctx F) (rx rx' : Chan (List ℕ)) (bytes : List ℕ)
      → ctx.leftover ≡ none
      → ctx.body_rx ≡ some rx
      → items rx ≡ bytes ∷ items rx'
      → unread F ctx ≡ bytes ++ concat (items rx')
  unfolding concat
  bytes_now ctx rx rx' bytes l b oldest = rw (l, b) (ap concat oldest)

  first_receive :
      (limit : ℕ) (tick : Ctx F → Ctx F) (ticks : List (Ctx F → Ctx F)) (ctx : Ctx F)
      (rx rx' rx'' : Chan (List ℕ)) (bytes : List ℕ)
      → ctx.leftover ≡ none
      → ctx.body_rx ≡ some rx
      → ctx.interrupted ≡ false
      → (tick ctx).body_rx ≡ some rx'
      → try_recv rx' ≡ received bytes rx''
      → read_body F limit (tick ∷ ticks) ctx
        ≡ received_read F (max limit 1) bytes (record (tick ctx) { body_rx = some rx'' })
  unfolding read_body interruptible body_attempt after_recv
  first_receive limit tick ticks ctx rx rx' rx'' bytes l b down b' r =
      ground (arith, l, b, down, b', r)

  -- A read that has the rest of a cut chunk gives the next bytes of the body, in order and at most
  -- `max(limit, 1)` of them; the bytes that stay are exactly the others, and it gives fewer only if
  -- it gives all that have arrived.
  pub read_body-leftover :
      (limit : ℕ) (ticks : List (Ctx F → Ctx F)) (ctx : Ctx F) (first : List ℕ)
      → ctx.leftover ≡ some first
      → Gave (max limit 1) (unread F ctx) (read_body F limit ticks ctx)
  unfolding read_body
  read_body-leftover limit ticks ctx first e =
      rw e (received_read-Gave (max limit 1) first (record ctx { leftover = none }) refl)

  -- A read that waits for the channel and receives a chunk gives the next bytes of the body, in
  -- order and at most `max(limit, 1)` of them; the bytes that stay are exactly the others, and it
  -- gives fewer only if it gives all that have arrived.
  pub read_body-Gave :
      (limit : ℕ) (tick : Ctx F → Ctx F) (ticks : List (Ctx F → Ctx F)) (ctx : Ctx F)
      (rx rx' : Chan (List ℕ)) (first : List ℕ) (rest : List (List ℕ))
      → ctx.leftover ≡ none
      → ctx.body_rx ≡ some rx
      → ctx.interrupted ≡ false
      → (tick ctx).leftover ≡ none
      → (tick ctx).body_rx ≡ some rx'
      → items rx' ≡ first ∷ rest
      → Gave (max limit 1) (unread F (tick ctx)) (read_body F limit (tick ∷ ticks) ctx)
  read_body-Gave limit tick ticks ctx rx rx' first rest l b down l' b' arrived =
      elim (try_recv_cases rx') [
        | inl (bytes, rx'', r, oldest, _, _, _) ↦
            let taken : Ctx F = record (tick ctx) { body_rx = some rx'' } in
            let now : unread F (tick ctx) ≡ bytes ++ concat (items rx'') =
              bytes_now (tick ctx) rx' rx'' bytes l' b' oldest in
            subst (λ w. Gave (max limit 1) (unread F (tick ctx)) w)
              (sym (first_receive limit tick ticks ctx rx rx' rx'' bytes l b down b' r))
              (subst (λ l. Gave (max limit 1) l (received_read F (max limit 1) bytes taken))
                (sym now) (received_read-Gave (max limit 1) bytes taken l'))
        | inr (inl (r, none_yet, _)) ↦ absurd (ground (arith, none_yet, arrived))
        | inr (inr (r, none_yet, _)) ↦ absurd (ground (arith, none_yet, arrived))
      ]

  disconnected_read-met :
      {C : Type 0} (responder : Responder C) (why : Option BodyAbandon) (ctx : Ctx F)
      → responder.body_abandoned_code ≡ 0
      → ctx.abandoned_code ≡ (hung_up responder why).body_abandoned_code
      → disconnected_read F ctx ≡ met why
  unfolding disconnected_read abandon_body
  disconnected_read-met responder none ctx clean code = ground (arith, clean, code)
  disconnected_read-met responder (some oversize) ctx clean code = ground (arith, clean, code)
  disconnected_read-met responder (some timed_out) ctx clean code = ground (arith, clean, code)

  -- The reason that the forwarder gives the responder of an intact body when it hangs up reaches
  -- the app: the read that waits meanwhile, with nothing left of a chunk and not interrupted, and
  -- finds the channel empty and without senders, ends with the error of a body that is too large or
  -- too slow, for just this reason, and with the end of file without one.
  pub read_body-ended :
      {C : Type 0} (responder : Responder C) (why : Option BodyAbandon) (limit : ℕ)
      (tick : Ctx F → Ctx F) (ticks : List (Ctx F → Ctx F)) (ctx : Ctx F) (rx rx' : Chan (List ℕ))
      → ctx.leftover ≡ none
      → ctx.body_rx ≡ some rx
      → ctx.interrupted ≡ false
      → (tick ctx).body_rx ≡ some rx'
      → items rx' ≡ []
      → F.senders rx' ≡ 0
      → responder.body_abandoned_code ≡ 0
      → (tick ctx).abandoned_code ≡ (hung_up responder why).body_abandoned_code
      → read_body F limit (tick ∷ ticks) ctx ≡ finished (met why) (tick ctx)
  unfolding read_body interruptible body_attempt after_recv
  read_body-ended responder why limit tick ticks ctx rx rx' l b down b' e s clean code =
      elim (try_recv_cases rx') [
        | inl (bytes, rx'', r, oldest, _, _, _) ↦ absurd (ground (arith, oldest, e))
        | inr (inl (r, _, alive)) ↦ absurd (omega (arith, alive, s))
        | inr (inr (r, _, _)) ↦
            let raised = disconnected_read-met responder why (tick ctx) clean code in
            let ended : read_body F limit (tick ∷ ticks) ctx
                ≡ finished (disconnected_read F (tick ctx)) (tick ctx) =
              ground (arith, l, b, down, b', r) in
            ended ∙ ap (λ x. finished x (tick ctx)) raised
      ]
