-- ===== src/SqlServer/Examples.antt =====
-- Runs of the definitions of mt2.
use cse.Base.{◌+◌, ◌≡◌, refl, true, false, none, some, List, [], ◌∷◌, ◌++◌, length, replicate, All}
use cse.SqlServer.{
  Bytes, cmdstr, send_string, received, Event, timeout, ready, closed, serve, same_string,
}
use cse.SqlServer.Service.{Harmless, clients_in, commented, serve-service}

-- A client, then a service that sends something else.
abbrev before : List Event
before = ready true none ∷ timeout ∷ ready false (some (received (b'x' ∷ []))) ∷ []

before-Harmless : All Harmless before
unfolding same_string
before-Harmless = (tt, (tt, (refl, tt)))

serve-service_example :
    (serve
        (before
          ++ ready true (some (received (send_string (length cmdstr ∷ []) cmdstr 0 []).0)) ∷ [])
        0
      ≡ closed (0 + clients_in before + 1))
    × (serve (before ++ ready true (some (received commented)) ∷ []) 0
        ≡ serve [] (0 + clients_in before + 1))
serve-service_example = serve-service before [] true 0 before-Harmless

abbrev answer : Bytes
answer = replicate 64 7
