-- ===== src/FileServer/Server.antt =====
-- The child of ps6/server.c, handleNewConnection.
use cse.Base.{
  ℕ, zero, suc, ◌+◌, Bool, true, false, List, [], ◌∷◌, ◌++◌, ◌==◌, length, take, drop,
  if◌then◌else◌,
}
use cse.FileServer.{
  Bytes, Result, ok, stop, waiting, faulted, check_error, guard, ◌>>=◌, ◌>>◌, Answer, send_list,
  Network, Command, Payload, command_size, payload_size, command_of, payload_bytes, payload_of,
  cc_ls, cc_get, cc_put, cc_exit, pl_txt, pl_file, c_string,
}
use cse.FileServer.Files.{
  FileSystem, make_file_list, get_file_size, send_file_over_socket, receive_file_over_socket,
}

-- The socket, as bytes to the server and bytes to the client, and the files of the server.
pub record Link (F : FileSystem) : Type 0 where
  pub up : Bytes
  pub down : Bytes
  pub files : F.State

abbrev pub dot_upload : Bytes
dot_upload = b'.' ∷ b'u' ∷ b'p' ∷ b'l' ∷ b'o' ∷ b'a' ∷ b'd' ∷ []

-- A single `send` or `recv` of a struct. The bytes that `recv` leaves out are not initialised.
unfoldable pub send_once : List Answer → (bytes wire : Bytes) → Result Bytes
send_once [] bytes wire = stop waiting
send_once (a ∷ answers) bytes wire = do k ← check_error a; ok (wire ++ take k bytes)

unfoldable pub recv_once : List Answer → (size : ℕ) → (wire : Bytes) → Result (Bytes × Bytes)
recv_once [] size wire = stop waiting
recv_once (a ∷ answers) size wire = do
  k ← check_error a
  guard (k == size) faulted
  ok (take size wire, drop size wire)

module _ (N : Network) (F : FileSystem) (rounds : ℕ → List Answer) where
  unfoldable pub serve_ls : Link F → Result (Link F)
  serve_ls l = do
    msg ← make_file_list (F.names l.files)
    let p : Payload = record { code = N.htonl pl_txt; length = N.htonl (length msg + 1) }
    let size = length msg + 1
    down ← send_once (rounds payload_size) (payload_bytes p) l.down
    down ← send_list (rounds size) (msg ++ 0 ∷ []) size 0 down
    ok (record l { down = down })

  unfoldable pub serve_get : (arg : Bytes) → Link F → Result (Link F)
  serve_get arg l = do
    size ← get_file_size F rounds l.files arg
    let p : Payload = record { code = N.htonl pl_file; length = N.htonl size }
    down ← send_once (rounds payload_size) (payload_bytes p) l.down
    down ← send_file_over_socket F rounds l.files arg down
    ok (record l { down = down })

  unfoldable pub serve_put : (arg : Bytes) → Link F → Result (Link F)
  serve_put arg l = do
    (bs, up) ← recv_once (rounds payload_size) payload_size l.up
    let p = payload_of bs
    (files, up) ← receive_file_over_socket F rounds l.files arg dot_upload (N.ntohl p.length) up
    ok (record l { up = up; files = files })

  -- The `switch`: whether the server is done, and the link. Another code does nothing.
  unfoldable pub serve_command : Command → Link F → Result (Bool × Link F)
  serve_command c l =
      let code = N.ntohl c.code in
      let arg = c_string c.arg in
      if code == cc_ls
      then (serve_ls l >>= λ l. ok (false, l))
      else (if code == cc_get
          then (serve_get arg l >>= λ l. ok (false, l))
          else (if code == cc_put
              then (serve_put arg l >>= λ l. ok (false, l))
              else ok (code == cc_exit, l)))

  -- The loop, up to the end or to the `recv` that waits for a command. Every round takes a command
  -- out of `up`, so that one round more than `up` has bytes is enough.
  unfoldable pub handle_new_connection : (fuel : ℕ) → Link F → Result (Bool × Link F)
  handle_new_connection zero l = stop waiting
  handle_new_connection (suc fuel) l =
      let next = recv_once (rounds command_size) command_size l.up >>= λ r.
      serve_command (command_of r.0) (record l { up = r.1 }) >>= λ r.
      if r.0 then ok (true, r.1) else handle_new_connection fuel r.1 in
      if length l.up == 0 then ok (false, l) else next
