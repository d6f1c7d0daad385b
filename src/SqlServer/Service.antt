-- ===== src/SqlServer/Service.antt =====
-- When the server of mt2/Q2server.c ends.
use cse.Base.{
  ℕ, ◌+◌, ◌≡◌, ap, ◌∙◌, Bool, true, false, none, some, List, [], ◌∷◌, ◌++◌, arith, if◌then◌else◌,
  length, take, All,
}
use cse.SqlServer.{
  Bytes, cmdstr, send_string, same_string, failed, received, Event, timeout, interrupted,
  poll_failed, ready, closed, in_size, serve,
}

-- An event that the server goes on after.
abbrev pub Harmless : Event → Type 0
Harmless timeout = Unit
Harmless interrupted = Unit
Harmless poll_failed = ⊥
Harmless (ready client none) = Unit
Harmless (ready client (some failed)) = ⊥
Harmless (ready client (some (received inbuf))) = same_string cmdstr (take in_size inbuf) ≡ false

abbrev pub clients_of : Event → ℕ
clients_of (ready true service) = 1
clients_of event = 0

unfoldable pub clients_in : List Event → ℕ
clients_in [] = 0
clients_in (event ∷ events) = clients_of event + clients_in events

serve-Harmless :
    (events later : List Event) (n : ℕ)
    → All Harmless events
    → serve (events ++ later) n ≡ serve later (n + clients_in events)
unfolding serve clients_in
serve-Harmless [] later n h = ap (serve later) (omega arith)
serve-Harmless (timeout ∷ events) later n h =
    serve-Harmless events later n h.1 ∙ ap (serve later) (omega arith)
serve-Harmless (interrupted ∷ events) later n h =
    serve-Harmless events later n h.1 ∙ ap (serve later) (omega arith)
serve-Harmless (poll_failed ∷ events) later n h = elim h.0 [ ]
serve-Harmless (ready true none ∷ events) later n h =
    serve-Harmless events later (n + 1) h.1 ∙ ap (serve later) (omega arith)
serve-Harmless (ready false none ∷ events) later n h =
    serve-Harmless events later n h.1 ∙ ap (serve later) (omega arith)
serve-Harmless (ready client (some failed) ∷ events) later n h = elim h.0 [ ]
serve-Harmless (ready true (some (received inbuf)) ∷ events) later n h =
    rw h.0 (serve-Harmless events later (n + 1) h.1 ∙ ap (serve later) (omega arith))
serve-Harmless (ready false (some (received inbuf)) ∷ events) later n h =
    rw h.0 (serve-Harmless events later n h.1 ∙ ap (serve later) (omega arith))

-- '$die!', the string that the comments of mt2/Q2server.c and mt2/Q2service.c speak of.
abbrev pub commented : Bytes
commented = b'$' ∷ b'd' ∷ b'i' ∷ b'e' ∷ b'!' ∷ 0 ∷ []

abbrev pub client_count : Bool → ℕ
client_count client = if client then 1 else 0

-- The server goes on through timeouts, interrupts, clients and strings on the port for services other
-- than the one it waits for, and it ends when what a service program sends in one piece comes in one
-- piece; by then it has started a client for each connection to the port for clients, that of the same
-- round included. The string '$die!' of the comments is one of those others: the code waits for one with
-- a backslash in front, and goes on behind this one.
pub serve-service :
    (events later : List Event) (client : Bool) (n : ℕ)
    → All Harmless events
    → (serve
          (events
            ++ ready client (some (received (send_string (length cmdstr ∷ []) cmdstr 0 []).0))
              ∷ later)
          n
        ≡ closed (n + clients_in events + client_count client))
      × (serve (events ++ ready client (some (received commented)) ∷ later) n
          ≡ serve later (n + clients_in events + client_count client))
unfolding serve send_string same_string
serve-service events later true n h = (serve-Harmless events _ n h, serve-Harmless events _ n h)
serve-service events later false n h = (
  serve-Harmless events _ n h ∙ ap closed (omega arith),
  serve-Harmless events _ n h ∙ ap (serve later) (omega arith),
)
