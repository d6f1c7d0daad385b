-- ===== src/FileServer.antt =====
-- The commands of ps6/command.h on a socket, and the loops of ps6/client.c, ps6/command.c and
-- ps6/server.c around `send` and `recv`. A direction of the socket is the list of the bytes in it.
-- What the kernel answers to the calls of a loop is a list: an error, or the number of bytes moved.
use cse.Base.{
  ℕ, ◌+◌, ◌-◌, ◌*◌, ◌/◌, ◌%◌, ◌^◌, ◌<◌, ◌≡◌, Bool, true, false, List, [], ◌∷◌, ◌++◌, leb, ◌==◌,
  if◌then◌else◌, length, take, drop,
}
mod Loops
mod Files
mod Wire
mod Listing
mod Calls
mod Serve
mod Ask
mod Spec
mod Server
mod Client
mod Pending
mod Session
mod Partial
mod Examples

abbrev pub Bytes : Type 0
Bytes = List ℕ

-- `exit(-1)` of checkError; a fault of the C program; a call that waits for more answers.
pub data Stop : Type 0 where
  exited faulted waiting : Stop

pub data Result {ℓ} (A : Type ℓ) : Type ℓ where
  ok : A → Result A
  stop : Stop → Result A

infixl 5 ◌>>=◌ ◌>>◌
abbrev pub ◌>>=◌ {ℓ κ} : {A : Type ℓ} {B : Type κ} → Result A → (A → Result B) → Result B
ok a >>= f = f a
stop s >>= f = stop s

abbrev pub ◌>>◌ {κ} : {B : Type κ} → Result (Unit {0}) → Result B → Result B
m >> k = m >>= λ _. k

abbrev pub guard : Bool → Stop → Result (Unit {0})
guard true s = ok tt
guard false s = stop s

-- The status of a call of `send` or `recv`: below 0, or the number of bytes moved.
pub data Answer : Type 0 where
  failed : Answer
  moved : ℕ → Answer

abbrev pub check_error : Answer → Result ℕ
check_error failed = stop exited
check_error (moved k) = ok k

-- `sizeof(dst) - nb` of a `size_t` and an `ssize_t`.
unfoldable pub unsigned_left : (size nb : ℕ) → ℕ
unsigned_left size nb = (size + 2 ^ 64 - nb % 2 ^ 64) % 2 ^ 64

-- Bytes that `recv` writes to the start of a buffer.
unfoldable pub overlay : Bytes → Bytes → Bytes
overlay got buf = got ++ drop (length got) buf

-- GLORP: every round sends from the start of `src`. What is on the wire behind the loop.
unfoldable pub glorp : List Answer → (src : Bytes) → (nb : ℕ) → (wire : Bytes) → Result Bytes
glorp [] src nb wire = stop waiting
glorp (a ∷ answers) src nb wire = do
  k ← check_error a
  let rest = glorp answers src (nb + k) (wire ++ take k src)
  if unsigned_left (length src) (nb + k) == 0 then ok (wire ++ take k src) else rest

-- SLURP: every round writes to the start of `dst`. The object and what is left on the wire.
unfoldable pub slurp :
    List Answer → (dst : Bytes) → (nb : ℕ) → (wire : Bytes) → Result (Bytes × Bytes)
slurp [] dst nb wire = stop waiting
slurp (a ∷ answers) dst nb wire = do
  k ← check_error a
  let got = overlay (take k wire) dst
  let rest = slurp answers got (nb + k) (drop k wire)
  if unsigned_left (length dst) (nb + k) == 0 then ok (got, drop k wire) else rest

-- The loop of sendFileOverSocket, whose test `sz - nb > 0` is signed.
unfoldable pub send_rounds : List Answer → (buf : Bytes) → (nb : ℕ) → (wire : Bytes) → Result Bytes
send_rounds [] buf nb wire = stop waiting
send_rounds (a ∷ answers) buf nb wire = do
  k ← check_error a
  let rest = send_rounds answers buf (nb + k) (wire ++ take k buf)
  if leb (length buf) (nb + k) then ok (wire ++ take k buf) else rest

-- The loops of receiveFileOverSocket and get_payload for `size` bytes.
unfoldable pub recv_rounds :
    List Answer → (buf : Bytes) → (size nb : ℕ) → (wire : Bytes) → Result (Bytes × Bytes)
recv_rounds [] buf size nb wire = stop waiting
recv_rounds (a ∷ answers) buf size nb wire = do
  k ← check_error a
  let got = overlay (take k wire) buf
  let rest = recv_rounds answers got size (nb + k) (drop k wire)
  if leb size (nb + k) then ok (got, drop k wire) else rest

-- The loop of the server for the list of files. The status is not checked: after an error `rem` is
-- greater than before and `sent` is smaller, and the next round reads before `msg`.
unfoldable pub send_list :
    List Answer → (msg : Bytes) → (rem sent : ℕ) → (wire : Bytes) → Result Bytes
send_list [] msg rem sent wire = if rem == 0 then ok wire else stop waiting
send_list (failed ∷ answers) msg rem sent wire =
    let rest = send_list answers msg (rem + 1) (sent - 1) wire in
    if rem == 0 then ok wire else (if sent == 0 then stop faulted else rest)
send_list (moved k ∷ answers) msg rem sent wire =
    let rest = send_list answers msg (rem - k) (sent + k) (wire ++ take k (drop sent msg)) in
    if rem == 0 then ok wire else rest

-- An `int` in memory, the lowest byte first, and back.
abbrev pub int_bytes : ℕ → Bytes
int_bytes w = w % 2 ^ 8 ∷ w / 2 ^ 8 % 2 ^ 8 ∷ w / 2 ^ 16 % 2 ^ 8 ∷ w / 2 ^ 24 % 2 ^ 8 ∷ []

abbrev pub bytes_int : Bytes → ℕ
bytes_int (a ∷ b ∷ c ∷ d ∷ bs) = a + b * 2 ^ 8 + c * 2 ^ 16 + d * 2 ^ 24
bytes_int bs = 0

-- The order of the bytes of a number on the network: htonl and ntohl of the C library.
pub record Network : Type 0 where
  pub htonl : ℕ → ℕ
  pub ntohl : ℕ → ℕ

pub record IsLawful (N : Network) : Type 0 where
  pub htonl-lt : (w : ℕ) → w < 2 ^ 32 → N.htonl w < 2 ^ 32
  pub ntohl-lt : (w : ℕ) → w < 2 ^ 32 → N.ntohl w < 2 ^ 32
  pub ntohl-htonl : (w : ℕ) → w < 2 ^ 32 → N.ntohl (N.htonl w) ≡ w
  pub ntohl-ntohl : (w : ℕ) → w < 2 ^ 32 → N.ntohl (N.ntohl w) ≡ w

abbrev pub cc_ls : ℕ
cc_ls = 0

abbrev pub cc_get : ℕ
cc_get = 1

abbrev pub cc_put : ℕ
cc_put = 2

abbrev pub cc_exit : ℕ
cc_exit = 3

abbrev pub pl_txt : ℕ
pl_txt = 0

abbrev pub pl_file : ℕ
pl_file = 1

pub record Command : Type 0 where
  pub code : ℕ
  pub arg : Bytes

pub record Payload : Type 0 where
  pub code : ℕ
  pub length : ℕ

-- `sizeof(c.arg)`, `sizeof(Command)`, `sizeof(Payload)`
abbrev pub arg_size : ℕ
arg_size = 256

abbrev pub command_size : ℕ
command_size = 260

abbrev pub payload_size : ℕ
payload_size = 8

-- The bytes of the structs in memory, and the structs of such bytes.
unfoldable pub command_bytes : Command → Bytes
command_bytes c = int_bytes c.code ++ c.arg

unfoldable pub payload_bytes : Payload → Bytes
payload_bytes p = int_bytes p.code ++ int_bytes p.length

unfoldable pub command_of : Bytes → Command
command_of bs = record { code = bytes_int (take 4 bs); arg = drop 4 bs }

unfoldable pub payload_of : Bytes → Payload
payload_of bs = record { code = bytes_int (take 4 bs); length = bytes_int (drop 4 bs) }

-- The string in a buffer: the bytes before the first NUL.
unfoldable pub c_string : Bytes → Bytes
c_string [] = []
c_string (c ∷ cs) = let rest = c_string cs in if c == 0 then [] else c ∷ rest
