-- ===== src/Control/Head.antt =====
-- A HEAD request is answered as the GET request, without the body.
use kino.Prelude.{ℕ, ◌≡◌, refl, Option, List, [], codes}
use kino.Control.{StatsSnapshot, text, same_text, route, handle}

-- A HEAD request gets the status, the content type and the challenge of the GET request for the
-- same target, and an empty body.
handle_head :
    (target : List ℕ) (authorization token : Option (List ℕ)) (snapshot : StatsSnapshot)
    → handle (codes "HEAD") target authorization token snapshot
      ≡ record (handle (codes "GET") target authorization token snapshot) { body = text [] }
unfolding handle same_text route
handle_head target authorization token snapshot = refl
