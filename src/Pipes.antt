-- ===== src/Pipes.antt =====
-- The message that lab6/pipes.c sends through two children: write_message, read_message with its
-- growing buffer, cs_encrypt and cs_decrypt. A pipe is the list of the bytes in it; a buffer is the
-- list of its bytes, and what stands behind a list is a NUL.
use cse.Base.{
  ℕ, zero, suc, ◌+◌, ◌-◌, ◌*◌, ◌%◌, ◌^◌, ◌≤◌, ◌<◌, ◌≡◌, refl, Bool, true, false, ◌||◌, Option, none,
  some, List, [], ◌∷◌, ◌++◌, arith, ltb, ◌==◌, if◌then◌else◌, ◌>>=◌, ◌>>◌, assert,
}
mod Relay
mod Examples

abbrev pub newline : ℕ
newline = 10

abbrev pub buffer_size : ℕ
buffer_size = 20

unfoldable pub write_message : List ℕ → List ℕ
write_message [] = []
write_message (c ∷ message) = let rest = write_message message in if c == 0 then [] else c ∷ rest

-- The loop of read_message with `cursor == buf + i` and the capacity `bcap`: a write outside the
-- buffer is a fault, and so is a read that fails because the pipe is empty and closed (`exit`).
-- The message, without the NUL behind it, and what is left in the pipe.
unfoldable pub read_from : (i bcap : ℕ) → List ℕ → Option (List ℕ × List ℕ)
read_from i bcap [] = none
read_from i bcap (c ∷ pipe) =
    let grown = if i == bcap - 2 then bcap * 2 else bcap in
    let more = read_from (suc i) grown pipe in
    assert (ltb i bcap)
    >> (if c == newline
        then (assert (ltb (suc i) grown) >> some (c ∷ [], pipe))
        else (more >>= λ r. some (c ∷ r.0, r.1)))

abbrev pub read_message : List ℕ → Option (List ℕ × List ℕ)
read_message pipe = read_from 0 buffer_size pipe

-- The loop stops at a newline, and at a NUL, since `strlen` is computed again in each round.
unfoldable pub cs_encrypt : List ℕ → List ℕ
cs_encrypt [] = []
cs_encrypt (c ∷ message) =
    let rest = cs_encrypt message in
    let next = (c + 1) % 2 ^ 8 in
    if c == 0 || c == newline
    then c ∷ message
    else (if next == 0 then next ∷ message else next ∷ rest)

unfoldable pub cs_decrypt : List ℕ → List ℕ
cs_decrypt [] = []
cs_decrypt (c ∷ message) =
    let rest = cs_decrypt message in
    let next = (c + 255) % 2 ^ 8 in
    if c == 0 || c == newline
    then c ∷ message
    else (if next == 0 then next ∷ message else next ∷ rest)

-- The parent's message through child 1, child 2 and back: what child 2 and the parent print.
unfoldable pub relay : List ℕ → Option (List ℕ × List ℕ)
relay msg = do
  first ← read_message (write_message msg)
  second ← read_message (write_message (cs_encrypt first.0))
  back ← read_message (write_message second.0)
  some (second.0, cs_decrypt back.0)
