-- ===== src/Intake/Enqueue.antt =====
-- The requests in flight are counted in and out, and every response is branded.
use kino.Prelude.{
  ℕ, ◌+◌, ◌^◌, ◌<◌, ◌≡◌, refl, ◌∙◌, ◌⊎◌, inl, inr, Bool, true, false, Bool-cases, Option, none,
  some, List, [], ◌∷◌, ◌++◌, String, All, word, codes, arith,
}
use kino.Flume.{Flume, TrySend, sent, full}
use kino.Registry.{ServerInner}
use kino.Response.{HyperResponse}
use kino.Dispatch.{Dispatch, dispatched, retry, closed, try_dispatch}
use kino.Dispatch.Accounts.{try_dispatch-in_flight}
use kino.Intake.{
  Ticks, after_attempt, dispatch_to_lane, send_async, send_shared, enqueue, unavailable, Head,
  answered, dropped, elapsed, aborted, Lapse, timeout, client_gone, lapsed, await_head,
  after_enqueue, respond, branded_response, handle_request, branded, has_header, same_name,
  is_oversize,
}

has_header-append :
    (name : String) (headers more : List (String × List ℕ))
    → has_header name more ≡ true
    → has_header name (headers ++ more) ≡ true
unfolding has_header
has_header-append name [] more h = h
has_header-append name ((key, value) ∷ headers) more h =
    ground (arith, has_header-append name headers more h)

branded-server : (r : HyperResponse) → has_header "server" (branded r).headers ≡ true
unfolding branded has_header same_name
branded-server r = elim (Bool-cases (has_header "server" r.headers)) [
  | inl set ↦ rw set set
  | inr unset ↦ rw unset (has_header-append "server" r.headers (("server", codes "Kino") ∷ []) own)
]
  where
    own : has_header "server" (("server", codes "Kino") ∷ []) ≡ true
    own = refl

pub TrySend-cases :
    {C : Type 0} (t : TrySend C)
    → ((c : C) × (t ≡ sent c)) ⊎ (t ≡ full) ⊎ (t ≡ TrySend.disconnected)
TrySend-cases (sent c) = inl (c, refl)
TrySend-cases full = inr (inl refl)
TrySend-cases TrySend.disconnected = inr (inr refl)

lapsed-client_gone : (lapse : Lapse) → lapsed lapse ≡ none → lapse ≡ client_gone
unfolding lapsed
lapsed-client_gone timeout e = absurd (ground (arith, e))
lapsed-client_gone client_gone e = refl

-- A response names a server; without one, the client has aborted.
abbrev pub Ended : Lapse → Head → Option HyperResponse → Type 0
Ended lapse head none = (lapse ≡ client_gone) ⊎ (head ≡ aborted)
Ended lapse head (some response) = has_header "server" response.headers ≡ true

module _ (F : Flume) {A : Type 0} where
  open F use {Chan, try_send}

  -- A thread that leaves the count alone.
  abbrev pub Leaves : (ServerInner (Chan A) → ServerInner (Chan A)) → Type 0
  Leaves tick = (u : ServerInner (Chan A)) → (tick u).in_flight ≡ u.in_flight

  after_attempt-in_flight :
      (lapse : Lapse) (ticks : Ticks (Chan A)) (ctx : A) (server : ServerInner (Chan A))
      (d : Dispatch)
      → All Leaves ticks
      → (after_attempt F lapse ticks ctx (server, d)).0.in_flight ≡ server.in_flight
  unfolding after_attempt
  after_attempt-in_flight lapse ticks ctx server dispatched l = refl
  after_attempt-in_flight lapse ticks ctx server closed l = refl
  after_attempt-in_flight lapse [] ctx server retry l = refl
  after_attempt-in_flight lapse (tick ∷ ticks) ctx server retry l =
      after_attempt-in_flight lapse ticks ctx (try_dispatch F (tick server) ctx).0
        (try_dispatch F (tick server) ctx).1 l.1
      ∙ try_dispatch-in_flight F (tick server) ctx
      ∙ l.0 server

  send_async-in_flight :
      (lapse : Lapse) (ticks : Ticks (Chan A)) (server : ServerInner (Chan A)) (ctx : A)
      → All Leaves ticks
      → (send_async F lapse ticks server ctx).0.in_flight ≡ server.in_flight
  unfolding send_async
  send_async-in_flight lapse [] server ctx l = refl
  send_async-in_flight lapse (tick ∷ ticks) server ctx l =
      elim (TrySend-cases (try_send (tick server).req_rx ctx)) [
        | inl (rx, e) ↦ ground (arith, e, l.0 server)
        | inr (inl e) ↦
            ground (arith, e, send_async-in_flight lapse ticks (tick server) ctx l.1, l.0 server)
        | inr (inr e) ↦ ground (arith, e, l.0 server)
      ]

  enqueue-in_flight :
      (lapse : Lapse) (ticks : Ticks (Chan A)) (server : ServerInner (Chan A)) (ctx : A)
      → All Leaves ticks
      → (enqueue F lapse ticks server ctx).0.in_flight ≡ server.in_flight
  unfolding enqueue send_shared dispatch_to_lane
  enqueue-in_flight lapse ticks server ctx l = ground (
    arith,
    after_attempt-in_flight lapse ticks ctx (try_dispatch F server ctx).0
        (try_dispatch F server ctx).1 l,
    try_dispatch-in_flight F server ctx,
    send_async-in_flight lapse ticks server ctx l,
  )

  after_enqueue-in_flight :
      (head : Head) (server : ServerInner (Chan A)) (queued : Option Bool)
      → (after_enqueue F head (server, queued)).0.in_flight ≡ server.in_flight
  unfolding after_enqueue await_head unavailable
  after_enqueue-in_flight head server none = refl
  after_enqueue-in_flight head server (some false) = refl
  after_enqueue-in_flight (answered r) server (some true) = refl
  after_enqueue-in_flight dropped server (some true) = refl
  after_enqueue-in_flight elapsed server (some true) = refl
  after_enqueue-in_flight aborted server (some true) = refl

  respond-in_flight :
      (too_large : Bool) (lapse : Lapse) (ticks : Ticks (Chan A)) (server : ServerInner (Chan A))
      (ctx : A) (head : Head)
      → All Leaves ticks
      → (respond F too_large lapse ticks server ctx head).0.in_flight ≡ server.in_flight
  unfolding respond
  respond-in_flight true lapse ticks server ctx head l = refl
  respond-in_flight false lapse ticks server ctx head l =
      after_enqueue-in_flight head (enqueue F lapse ticks server ctx).0
        (enqueue F lapse ticks server ctx).1
      ∙ enqueue-in_flight lapse ticks server ctx l

  after_attempt-none :
      (lapse : Lapse) (ticks : Ticks (Chan A)) (ctx : A) (server : ServerInner (Chan A))
      (d : Dispatch)
      → (after_attempt F lapse ticks ctx (server, d)).1 ≡ none
      → lapse ≡ client_gone
  unfolding after_attempt
  after_attempt-none lapse ticks ctx server dispatched e = absurd (ground (arith, e))
  after_attempt-none lapse ticks ctx server closed e = absurd (ground (arith, e))
  after_attempt-none lapse [] ctx server retry e = lapsed-client_gone lapse e
  after_attempt-none lapse (tick ∷ ticks) ctx server retry e =
      after_attempt-none lapse ticks ctx (try_dispatch F (tick server) ctx).0
        (try_dispatch F (tick server) ctx).1 e

  send_async-none :
      (lapse : Lapse) (ticks : Ticks (Chan A)) (server : ServerInner (Chan A)) (ctx : A)
      → (send_async F lapse ticks server ctx).1 ≡ none
      → lapse ≡ client_gone
  unfolding send_async
  send_async-none lapse [] server ctx e = lapsed-client_gone lapse e
  send_async-none lapse (tick ∷ ticks) server ctx e =
      elim (TrySend-cases (try_send (tick server).req_rx ctx)) [
        | inl (rx, went) ↦ absurd (ground (arith, e, went))
        | inr (inl still) ↦ send_async-none lapse ticks (tick server) ctx (ground (arith, e, still))
        | inr (inr gone) ↦ absurd (ground (arith, e, gone))
      ]

  enqueue-none :
      (lapse : Lapse) (ticks : Ticks (Chan A)) (server : ServerInner (Chan A)) (ctx : A)
      → (enqueue F lapse ticks server ctx).1 ≡ none
      → lapse ≡ client_gone
  unfolding enqueue send_shared dispatch_to_lane
  enqueue-none lapse ticks server ctx e = ground (
    arith,
    e,
    after_attempt-none lapse ticks ctx (try_dispatch F server ctx).0 (try_dispatch F server ctx).1,
    send_async-none lapse ticks server ctx,
  )

  after_enqueue-Ended :
      (lapse : Lapse) (head : Head) (server : ServerInner (Chan A)) (queued : Option Bool)
      → (queued ≡ none → lapse ≡ client_gone)
      → Ended lapse head (branded_response (after_enqueue F head (server, queued)).1)
  unfolding after_enqueue await_head unavailable branded_response
  after_enqueue-Ended lapse head server none gone = inl (gone refl)
  after_enqueue-Ended lapse head server (some false) gone = branded-server _
  after_enqueue-Ended lapse (answered r) server (some true) gone = branded-server r
  after_enqueue-Ended lapse dropped server (some true) gone = branded-server _
  after_enqueue-Ended lapse elapsed server (some true) gone = branded-server _
  after_enqueue-Ended lapse aborted server (some true) gone = inr refl

  respond-Ended :
      (too_large : Bool) (lapse : Lapse) (ticks : Ticks (Chan A)) (server : ServerInner (Chan A))
      (ctx : A) (head : Head)
      → Ended lapse head (branded_response (respond F too_large lapse ticks server ctx head).1)
  unfolding respond branded_response
  respond-Ended true lapse ticks server ctx head = branded-server _
  respond-Ended false lapse ticks server ctx head =
      after_enqueue-Ended lapse head (enqueue F lapse ticks server ctx).0
        (enqueue F lapse ticks server ctx).1 (λ e. enqueue-none lapse ticks server ctx e)

  -- However a request ends, refused, unanswered, answered or dropped by hyper in the wait for room or
  -- for the head, the count of requests in flight is back where it was when the other threads leave
  -- it alone; there is a response unless the client aborts, and it names a server.
  pub handle_request-in_flight :
      (content_length : Option ℕ) (lapse : Lapse) (ticks : Ticks (Chan A))
      (server : ServerInner (Chan A)) (ctx : A) (head : Head)
      → server.in_flight < 2 ^ 64
      → All Leaves ticks
      → let (server', response) = handle_request F content_length lapse ticks server ctx head in
        (server'.in_flight ≡ server.in_flight) × Ended lapse head response
  unfolding handle_request
  handle_request-in_flight content_length lapse ticks server ctx head room l = (
    omega (
      arith,
      room,
      respond-in_flight (is_oversize server.max_body_size content_length) lapse ticks
          (record server { in_flight = word (server.in_flight + 1) }) ctx head l,
    ),
    respond-Ended (is_oversize server.max_body_size content_length) lapse ticks
        (record server { in_flight = word (server.in_flight + 1) }) ctx head,
  )
