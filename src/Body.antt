-- ===== src/Body.antt =====
-- ext/kino/src/request.rs: reading a request's body, and answering in one shot.
-- Bytes are numbers. The chunks of the body come through a channel; `interrupted` is the flag of the
-- request's worker slot, and `abandoned_code` the responder's. Ruby strings are lists of bytes.
pub mod Drain
pub mod Read
mod Tests
use kino.Prelude.{
  ℕ, zero, suc, ◌+◌, ◌-◌, ◌==◌, ltb, max, if◌then◌else◌, Bool, true, false, not, ◌&&◌, ◌||◌, Option,
  none, some, List, [], ◌∷◌, ◌++◌, length, take, drop,
}
use kino.Flume.{Flume, TryRecv, received, empty}
use kino.Gvl.{Wait, interrupted, finished, pending, interruptible}

pub record RequestCtx (C : Type 0) : Type 0 where
  pub leftover : Option (List ℕ)
  pub body_rx : Option C
  pub interrupted : Bool
  pub abandoned_code : ℕ

-- `Ok(Some(chunk))`, `Ok(None)` and the three errors.
pub data BodyRead : Type 0 where
  chunk : List ℕ → BodyRead
  eof body_too_large body_timeout interrupted_error : BodyRead

module _ (F : Flume) where
  open F use {Chan, items, senders, try_recv}

  abbrev pub Ctx : Type 0
  Ctx = RequestCtx (Chan (List ℕ))

  unfoldable pub body_possible : Ctx → Bool
  body_possible ctx = elim ctx.leftover [ some _ ↦ true | none ↦ false ] || elim ctx.body_rx [
    | none ↦ false
    | some rx ↦ not ((length (items rx) == 0) && (senders rx == 0))
  ]

  -- `recv_timeout` for one tick.
  pub body_attempt : Ctx → Option (Option (List ℕ)) × Ctx
  body_attempt ctx = elim ctx.body_rx [
    | none ↦ (none, ctx)
    | some rx ↦ elim (try_recv rx) [
      | received bytes rx' ↦ (some (some bytes), record ctx { body_rx = some rx' })
      | empty ↦ (none, ctx)
      | TryRecv.disconnected ↦ (some none, ctx)
    ]
  ]

  -- What of `more` goes out, and what is left over for the next read.
  pub keep_rest : ℕ → List ℕ → Chan (List ℕ) → Ctx → Ctx
  keep_rest room more rx ctx =
      if ltb room (length more)
      then record ctx { body_rx = some rx; leftover = some (drop room more) }
      else record ctx { body_rx = some rx }

  pub piece : ℕ → List ℕ → List ℕ
  piece room more = if ltb room (length more) then take room more else more

  -- The greedy drain: `n` receives are left.
  pub drain : ℕ → ℕ → List ℕ → Ctx → List ℕ × Ctx
  drain zero max_len out ctx = (out, ctx)
  drain (suc n) max_len out ctx =
      if ltb (length out) max_len
      then elim ctx.body_rx [
        | none ↦ (out, ctx)
        | some rx ↦ elim (try_recv rx) [
          | received more rx' ↦
              let room = max_len - length out in
              drain n max_len (out ++ piece room more) (keep_rest room more rx' ctx)
          | _ ↦ (out, ctx)
        ]
      ]
      else (out, ctx)

  -- No more receives than messages in the channel.
  pub waiting_chunks : Ctx → ℕ
  waiting_chunks ctx = elim ctx.body_rx [ none ↦ 0 | some rx ↦ length (items rx) ]

  -- From the first chunk in hand to the end of the call.
  pub assemble : ℕ → List ℕ → Ctx → List ℕ × Ctx
  assemble max_len first ctx =
      if ltb max_len (length first)
      then (take max_len first, record ctx { leftover = some (drop max_len first) })
      else drain (waiting_chunks ctx) max_len first ctx

  pub disconnected_read : Ctx → BodyRead
  disconnected_read ctx =
      if ctx.abandoned_code == 1
      then body_too_large
      else if ctx.abandoned_code == 2
      then body_timeout
      else eof

  pub received_read : ℕ → List ℕ → Ctx → Wait Ctx BodyRead
  received_read max_len first ctx =
      let (out, ctx') = assemble max_len first ctx in finished (chunk out) ctx'

  pub after_recv : ℕ → Wait Ctx (Option (List ℕ)) → Wait Ctx BodyRead
  after_recv max_len (interrupted ctx) = finished interrupted_error ctx
  after_recv max_len (pending ctx) = pending ctx
  after_recv max_len (finished none ctx) = finished (disconnected_read ctx) ctx
  after_recv max_len (finished (some first) ctx) = received_read max_len first ctx

  -- The wait wakes on the flag of the request's slot.
  abbrev pub block_on :
      (Ctx → Option (Option (List ℕ)) × Ctx) → List (Ctx → Ctx) → Ctx → Wait Ctx (Option (List ℕ))
  block_on attempt ticks ctx = interruptible (λ c. c.interrupted) attempt ticks ctx

  pub read_body : ℕ → List (Ctx → Ctx) → Ctx → Wait Ctx BodyRead
  read_body limit ticks ctx =
      let max_len = max limit 1 in
      elim ctx.leftover [
        | some first ↦ received_read max_len first (record ctx { leftover = none })
        | none ↦ elim ctx.body_rx [
          | none ↦ finished eof ctx
          | some rx ↦ after_recv max_len (block_on body_attempt ticks ctx)
        ]
      ]
