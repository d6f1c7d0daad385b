-- ===== src/SqlServer.antt =====
-- The clients and the server of mt2: readString and the loops of Q2client.c, the loop of Q2service.c,
-- and the loop of Q2server.c over what `poll` reports. A buffer is the list of its bytes.
use cse.Base.{
  ℕ, zero, suc, ◌+◌, ◌-◌, ◌*◌, Bool, true, false, ◌||◌, Option, none, some, List, [], ◌∷◌, ◌++◌,
  ltb, leb, ◌==◌, if◌then◌else◌, length, take, drop, ◌>>=◌, ◌>>◌, assert,
}
mod Lines
mod Service
mod Examples

abbrev pub Bytes : Type 0
Bytes = List ℕ

abbrev pub newline : ℕ
newline = 10

-- `EOF` as a `char`.
abbrev pub eof_char : ℕ
eof_char = 255

-- readString with `l` bytes of memory, of which `i` are written: the line with its newline, or NULL,
-- and the rest of the input. A write outside the memory is a fault.
unfoldable pub read_from : (i l : ℕ) → (input : Bytes) → Option (Option Bytes × Bytes)
read_from i l [] = some (none, [])
read_from i l (ch ∷ input) =
    let grown = if i == l - 2 then l * 2 else l in
    let more = read_from (suc i) grown input in
    if ch == newline
    then (assert (ltb (suc i) l) >> some (some (newline ∷ []), input))
    else (if ch == eof_char
        then some (none, input)
        else (assert (ltb i grown)
            >> (more >>= λ r. some ((elim r.0 [ none ↦ none | some s ↦ some (ch ∷ s) ]), r.1))))

abbrev pub read_string : Bytes → Option (Option Bytes × Bytes)
read_string input = read_from 0 2 input

-- The loop of both clients that sends a string, for the numbers of bytes that `send` takes: every
-- round starts at the first byte. What is on the wire, and whether the loop has ended.
unfoldable pub send_string :
    (counts : List ℕ) → (str : Bytes) → (sent : ℕ) → (wire : Bytes) → Bytes × Bool
send_string [] str sent wire = (wire, leb (length str) sent)
send_string (k ∷ counts) str sent wire =
    let rest = send_string counts str (sent + k) (wire ++ take k str) in
    if leb (length str) sent then (wire, true) else rest

-- `sizeof(rxbuf)`
abbrev pub rx_size : ℕ
rx_size = 64

-- The loop of Q2client that prints an answer, where every `recv` takes what there is, up to the size
-- of the buffer: what is printed, and whether the loop waits for more. An answer that is empty is the
-- end of the connection, or a wait.
unfoldable pub show_answer : (rounds : ℕ) → (answer : Bytes) → Bytes × Bool
show_answer zero answer = ([], true)
show_answer (suc rounds) answer =
    let rest = show_answer rounds (drop rx_size answer) in
    if length answer == 0
    then ([], true)
    else (if leb rx_size (length answer)
        then (take rx_size answer ++ rest.0, rest.1)
        else (answer, false))

-- The string of the service: a backslash, `$die!`, and its NUL.
abbrev pub cmdstr : Bytes
cmdstr = b'\\' ∷ b'$' ∷ b'd' ∷ b'i' ∷ b'e' ∷ b'!' ∷ 0 ∷ []

-- `strncmp` of two strings gives 0.
unfoldable pub same_string : (s t : Bytes) → Bool
same_string [] [] = true
same_string [] (d ∷ t) = d == 0
same_string (c ∷ s) [] = c == 0
same_string (c ∷ s) (d ∷ t) =
    let rest = same_string s t in if c == d then (if c == 0 then true else rest) else false

-- What `recv` gives the server on a connection to its port for services.
pub data Received : Type 0 where
  failed : Received
  received : Bytes → Received

-- What `poll` reports: nothing, an interrupt, an error, or connections to one of the ports or both.
pub data Event : Type 0 where
  timeout interrupted poll_failed : Event
  ready : (client : Bool) → (service : Option Received) → Event

-- The server listens, is closed or has exited, with the number of clients that it has started.
pub data Status : Type 0 where
  listening closed exited : (clients : ℕ) → Status

-- `sizeof(inbuf) - 1`
abbrev pub in_size : ℕ
in_size = 255

unfoldable pub serve : List Event → (clients : ℕ) → Status
serve [] clients = listening clients
serve (timeout ∷ events) clients = serve events clients
serve (interrupted ∷ events) clients = serve events clients
serve (poll_failed ∷ events) clients = closed clients
serve (ready client none ∷ events) clients = serve events (if client then clients + 1 else clients)
serve (ready client (some failed) ∷ events) clients =
    exited (if client then clients + 1 else clients)
serve (ready client (some (received inbuf)) ∷ events) clients =
    let rest = serve events (if client then clients + 1 else clients) in
    if same_string cmdstr (take in_size inbuf)
    then closed (if client then clients + 1 else clients)
    else rest
