-- ===== src/FileServer/Client.antt =====
-- ps6/client.c: the commands of the client and its main loop over the words of the input. When the
-- client waits in `recv`, the server goes on until it waits itself; this is the parameter `wait`.
use cse.Base.{
  ℕ, ◌-◌, ◌^◌, List, [], ◌∷◌, ◌++◌, Bool, true, false, ltb, ◌==◌, ◌||◌, if◌then◌else◌, length,
  replicate,
}
use cse.FileServer.{
  Bytes, Result, ok, stop, waiting, faulted, guard, ◌>>=◌, ◌>>◌, Answer, glorp, slurp, recv_rounds,
  Network, Command, Payload, arg_size, payload_size, command_size, command_bytes, payload_bytes,
  payload_of, cc_ls, cc_get, cc_put, cc_exit, pl_txt, pl_file, c_string,
}
use cse.FileServer.Files.{
  FileSystem, get_file_size, send_file_over_socket, receive_file_over_socket,
}
use cse.FileServer.Server.{Link, send_once}

-- What the client prints behind a command.
pub data Output : Type 0 where
  got : Bytes → Output
  unexpected : ℕ → Output
  transfer_done : Output

-- The files of the client, its output and the socket.
pub record Client (F : FileSystem) : Type 0 where
  pub mine : F.State
  pub out : List Output
  pub link : Link F

abbrev pub dot_download : Bytes
dot_download = b'.' ∷ b'd' ∷ b'o' ∷ b'w' ∷ b'n' ∷ b'l' ∷ b'o' ∷ b'a' ∷ b'd' ∷ []

-- `scanf("%s", c.arg)` into `Command c = {0}`.
unfoldable pub scan_arg : Bytes → Result Bytes
scan_arg name = do
  guard (ltb (length name) arg_size) faulted
  ok (name ++ replicate (arg_size - length name) 0)

-- Whether `strncmp(opcode, prefix, strlen(prefix)) == 0`.
abbrev pub starts_with : (opcode prefix : Bytes) → Bool
starts_with opcode [] = true
starts_with [] (p ∷ prefix) = false
starts_with (c ∷ opcode) (p ∷ prefix) =
    let rest = starts_with opcode prefix in if c == p then rest else false

abbrev pub ls_word : Bytes
ls_word = b'l' ∷ b's' ∷ []

abbrev pub get_word : Bytes
get_word = b'g' ∷ b'e' ∷ b't' ∷ []

abbrev pub put_word : Bytes
put_word = b'p' ∷ b'u' ∷ b't' ∷ []

abbrev pub exit_word : Bytes
exit_word = b'e' ∷ b'x' ∷ b'i' ∷ b't' ∷ []

module _ (N : Network) (F : FileSystem) (rounds : ℕ → List Answer)
    (wait : Link F → Result (Link F)) where
  unfoldable pub get_payload : (wire : Bytes) → Result (Payload × Bytes × Bytes)
  get_payload wire = do
    (bs, wire) ← slurp (rounds payload_size) (replicate payload_size 0) 0 wire
    let code = N.ntohl (payload_of bs).code
    let size = N.ntohl (payload_of bs).length
    guard (ltb size (2 ^ 31)) faulted
    (buf, wire) ← recv_rounds (rounds size) (replicate size 0) size 0 wire
    let p : Payload = record { code = code; length = size }
    ok (p, buf, wire)

  unfoldable pub ask : (code : ℕ) → (arg : Bytes) → Link F → Result (Link F)
  ask code arg l = do
    let c : Command = record { code = N.htonl code; arg = arg }
    up ← glorp (rounds command_size) (command_bytes c) 0 l.up
    ok (record l { up = up })

  unfoldable pub do_ls_command : Client F → Result (Client F)
  do_ls_command c = do
    l ← ask cc_ls (replicate arg_size 0) c.link
    l ← wait l
    (p, buf, down) ← get_payload l.down
    let said = if p.code == pl_txt then got (c_string buf) else unexpected p.code
    ok (record c { link = record l { down = down }; out = c.out ++ said ∷ [] })

  unfoldable pub do_get_command : (name : Bytes) → Client F → Result (Client F)
  do_get_command name c = do
    arg ← scan_arg name
    l ← ask cc_get arg c.link
    l ← wait l
    (bs, down) ← slurp (rounds payload_size) (replicate payload_size 0) 0 l.down
    let size = N.ntohl (payload_of bs).length
    (mine, down) ← receive_file_over_socket F rounds c.mine (c_string arg) dot_download size down
    ok (record c {
      mine = mine;
      link = record l { down = down };
      out = c.out ++ transfer_done ∷ [];
    })

  unfoldable pub do_put_command : (name : Bytes) → Client F → Result (Client F)
  do_put_command name c = do
    arg ← scan_arg name
    l ← ask cc_put arg c.link
    size ← get_file_size F rounds c.mine (c_string arg)
    let p : Payload = record { code = N.ntohl pl_file; length = N.ntohl size }
    up ← glorp (rounds payload_size) (payload_bytes p) 0 l.up
    up ← send_file_over_socket F rounds c.mine (c_string arg) up
    ok (record c { link = record l { up = up }; out = c.out ++ transfer_done ∷ [] })

  unfoldable pub do_exit_command : Client F → Result (Client F)
  do_exit_command c = do
    let e : Command = record { code = N.htonl cc_exit; arg = replicate arg_size 0 }
    up ← send_once (rounds command_size) (command_bytes e) c.link.up
    ok (record c { link = record c.link { up = up } })

  -- The loop of `main` over the words that `scanf` reads, into `char opcode[32]`. Behind the last
  -- word the loop does not end, unless the word is `exit`.
  unfoldable pub main_loop : (words : List Bytes) → Client F → Result (Client F)
  main_loop [] c = stop waiting
  main_loop (opcode ∷ []) c =
      guard (ltb (length opcode) 32) faulted
      >> (if starts_with opcode ls_word
          then (do_ls_command c >>= λ c. stop waiting)
          else (if starts_with opcode get_word || starts_with opcode put_word
              then stop waiting
              else (if starts_with opcode exit_word then do_exit_command c else stop waiting)))
  main_loop (opcode ∷ word ∷ words) c =
      let skip = main_loop (word ∷ words) c in
      guard (ltb (length opcode) 32) faulted
      >> (if starts_with opcode ls_word
          then (do_ls_command c >>= main_loop (word ∷ words))
          else (if starts_with opcode get_word
              then (do_get_command word c >>= main_loop words)
              else (if starts_with opcode put_word
                  then (do_put_command word c >>= main_loop words)
                  else (if starts_with opcode exit_word then do_exit_command c else skip))))
