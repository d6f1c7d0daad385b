-- ===== src/Pipes/Examples.antt =====
-- Runs of the definitions of lab6/pipes.c.
use cse.Base.{ℕ, ◌≡◌, some, List, [], ◌∷◌, All, arith}
use cse.Pipes.{relay}
use cse.Pipes.Relay.{Safe, line, shift, relay-line}

-- "Hi."
abbrev message : List ℕ
message = b'H' ∷ b'i' ∷ b'.' ∷ []

message-Safe : All Safe message
message-Safe = (
  (omega arith, omega arith, ground arith, ground arith),
  (
    (omega arith, omega arith, ground arith, ground arith),
    ((omega arith, omega arith, ground arith, ground arith), tt),
  ),
)

relay-line_example : relay (line message) ≡ some (line (shift message), line message)
relay-line_example = relay-line message message-Safe
