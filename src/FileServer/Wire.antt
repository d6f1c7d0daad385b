-- ===== src/FileServer/Wire.antt =====
-- The structs of ps6/command.h over the socket: their sizes, and that a struct that is sent is read
-- back.
use cse.Base.{
  ℕ, zero, suc, ◌-◌, ◌^◌, ◌<◌, ◌≡◌, ◌≢◌, refl, [], ◌∷◌, ◌++◌, false, arith, ◌==◌, length, replicate,
  All, length-append, length-replicate, lt→ltb,
}
use cse.FileServer.{
  Bytes, ok, Command, Payload, int_bytes, bytes_int, command_bytes, command_of, payload_bytes,
  payload_of, c_string, arg_size, command_size, payload_size,
}
use cse.FileServer.Client.{scan_arg}

pub bytes_int-int_bytes : (w : ℕ) → w < 2 ^ 32 → bytes_int (int_bytes w) ≡ w
bytes_int-int_bytes w h = omega arith

pub payload_of-payload_bytes :
    (p : Payload) → p.code < 2 ^ 32 → p.length < 2 ^ 32 → payload_of (payload_bytes p) ≡ p
unfolding payload_of payload_bytes
payload_of-payload_bytes p hc hl =
    rw (bytes_int-int_bytes p.code hc, bytes_int-int_bytes p.length hl) refl

pub command_of-command_bytes : (c : Command) → c.code < 2 ^ 32 → command_of (command_bytes c) ≡ c
unfolding command_of command_bytes
command_of-command_bytes c hc = rw (bytes_int-int_bytes c.code hc) refl

pub length-payload_bytes : (p : Payload) → length (payload_bytes p) ≡ payload_size
unfolding payload_bytes
length-payload_bytes p = refl

pub length-command_bytes :
    (c : Command) → length c.arg ≡ arg_size → length (command_bytes c) ≡ command_size
unfolding command_bytes
length-command_bytes c h = omega (arith, h)

-- A name of a file as C has it: no NUL, and short enough for `c.arg`.
abbrev pub IsText : Bytes → Type 0
IsText = All (λ c. c ≢ 0)

c_string_nul : (n : ℕ) → c_string (replicate n 0) ≡ []
unfolding c_string
c_string_nul zero = refl
c_string_nul (suc n) = refl

pub c_string-append : (text : Bytes) (n : ℕ) → IsText text → c_string (text ++ replicate n 0) ≡ text
unfolding c_string
c_string-append [] n h = c_string_nul n
c_string-append (c ∷ text) n h =
    let here : (c == 0) ≡ false = ground (arith, h.0) in rw (here, c_string-append text n h.1) refl

abbrev pub padded : Bytes → Bytes
padded name = name ++ replicate (arg_size - length name) 0

pub length-padded : (name : Bytes) → length name < arg_size → length (padded name) ≡ arg_size
length-padded name h = omega (
  arith,
  length-append name (replicate (arg_size - length name) 0),
  length-replicate {A = ℕ} (arg_size - length name) 0,
  h,
)

pub scan_arg-padded : (name : Bytes) → length name < arg_size → scan_arg name ≡ ok (padded name)
unfolding scan_arg
scan_arg-padded name h = rw (lt→ltb (length name) arg_size h) refl
