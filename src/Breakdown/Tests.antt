-- ===== src/Breakdown/Tests.antt =====
-- The record of a request, printed without colours.
use kino.Prelude.{◌/◌, ◌≡◌, refl, false, some, [], ◌∷◌, ◌++◌, codes}
use kino.Env.Decimal.{digits}
use kino.Breakdown.Records.{completion}

uncolored :
    completion
      (codes "now")
      (λ n. digits 19 (n / 1000000))
      (λ n. codes "1.5")
      false
      200
      (codes "GET")
      (codes "/u")
      12000000
      (some (record { wait = 1000000; ruby = 9000000; gc = some (2000000, 1500) }))
    ≡ codes "now "
      ++ ((226 ∷ 134 ∷ 144 ∷ [])
          ++ codes " 200 GET /u  12ms (ruby 9ms [gc 2ms; 1.5k obj]; kino 2ms; wait 1ms)\n")
unfolding completion digits
uncolored = refl
