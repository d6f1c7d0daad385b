-- ===== src/FileServer/Serve.antt =====
-- The rounds of handleNewConnection in ps6/server.c, where every call moves all its bytes.
use cse.Base.{
  ℕ, suc, ◌+◌, ◌^◌, ◌<◌, ◌≡◌, refl, ◌∙◌, List, [], ◌∷◌, ◌++◌, true, false, some, arith, ◌==◌,
  if◌then◌else◌, length, replicate, length-append, append_assoc, length-replicate,
}
use cse.FileServer.{
  Bytes, ok, ◌>>=◌, Answer, moved, Network, IsLawful, Payload, command_bytes, payload_bytes,
  command_size, payload_size, arg_size, cc_ls, cc_get, cc_put, cc_exit, pl_txt, pl_file,
}
use cse.FileServer.Files.{FileSystem}
use cse.FileServer.Server.{
  serve_ls, serve_get, serve_put, serve_command, handle_new_connection, dot_upload,
}
use cse.FileServer.Wire.{
  length-command_bytes, length-payload_bytes, command_of-command_bytes, payload_of-payload_bytes,
  padded, length-padded, c_string-append,
}
use cse.FileServer.Listing.{lines, make_file_list-lines}
use cse.FileServer.Loops.{send_list_whole}
use cse.FileServer.Calls.{
  IsName, command_for, recv_once-append, send_once-append, get_file_size-length, send_file-append,
  receive_file-writes,
}

module _ (N : Network) (law : IsLawful N) (F : FileSystem) (rounds : ℕ → List Answer)
    (whole : (n : ℕ) → rounds n ≡ moved n ∷ []) where
  -- A round of the loop takes a command with its argument and goes on behind `serve_command`.
  serve-next :
      (code : ℕ) (arg rest : Bytes) (fuel : ℕ) (down : Bytes) (files : F.State)
      → code < 2 ^ 32
      → length arg ≡ arg_size
      → handle_new_connection N F rounds (suc fuel) (record {
        up = command_bytes (command_for N law F rounds whole code arg) ++ rest;
        down = down;
        files = files;
      })
        ≡ (serve_command N F rounds
              (command_for N law F rounds whole code arg)
              (record { up = rest; down = down; files = files })
            >>= λ r. if r.0 then ok (true, r.1) else handle_new_connection N F rounds fuel r.1)
  unfolding handle_new_connection
  serve-next code arg rest fuel down files hc ha =
      let c = command_for N law F rounds whole code arg in
      let size = length-command_bytes c ha in
      let some_bytes : (length (command_bytes c ++ rest) == 0) ≡ false =
        ground (arith, length-append (command_bytes c) rest, size) in
      rw
        (
          some_bytes,
          recv_once-append N law F rounds whole (command_bytes c) rest command_size size,
          command_of-command_bytes c (law.htonl-lt code hc),
        )
        refl

  abbrev pub list_bytes : (names : List Bytes) → Bytes
  list_bytes names =
      payload_bytes (record { code = N.htonl pl_txt; length = N.htonl (length (lines names) + 1) })
      ++ (lines names ++ 0 ∷ [])

  abbrev pub file_bytes : Bytes → Bytes
  file_bytes bytes =
      payload_bytes (record { code = N.htonl pl_file; length = N.htonl (length bytes) }) ++ bytes

  abbrev pub put_bytes : (name bytes : Bytes) → Bytes
  put_bytes name bytes =
      (command_bytes (command_for N law F rounds whole cc_put (padded name))
        ++ payload_bytes (record { code = N.ntohl pl_file; length = N.ntohl (length bytes) }))
      ++ bytes

  serve_ls-list_bytes :
      (up down : Bytes) (files : F.State)
      → serve_ls N F rounds (record { up = up; down = down; files = files })
        ≡ ok (record { up = up; down = down ++ list_bytes (F.names files); files = files })
  unfolding serve_ls
  serve_ls-list_bytes up down files =
      let text = lines (F.names files) in
      let p : Payload = record { code = N.htonl pl_txt; length = N.htonl (length text + 1) } in
      rw
        (
          make_file_list-lines (F.names files),
          send_once-append N law F rounds whole (payload_bytes p) down payload_size
              (length-payload_bytes p),
          whole (length text + 1),
          send_list_whole (text ++ 0 ∷ []) (down ++ payload_bytes p) (length text + 1)
              (length-append text (0 ∷ [])),
          append_assoc,
        )
        refl

  serve_get-file_bytes :
      (up down arg bytes : Bytes) (files : F.State)
      → F.read files arg ≡ some bytes
      → length bytes < 2 ^ 31
      → serve_get N F rounds arg (record { up = up; down = down; files = files })
        ≡ ok (record { up = up; down = down ++ file_bytes bytes; files = files })
  unfolding serve_get
  serve_get-file_bytes up down arg bytes files r h =
      let p : Payload = record { code = N.htonl pl_file; length = N.htonl (length bytes) } in
      rw
        (
          get_file_size-length N law F rounds whole files arg bytes r h,
          send_once-append N law F rounds whole (payload_bytes p) down payload_size
              (length-payload_bytes p),
          send_file-append N law F rounds whole files arg bytes (down ++ payload_bytes p) r h,
          append_assoc,
        )
        refl

  serve_put-writes :
      (name bytes rest down : Bytes) (files : F.State)
      → IsName name
      → length bytes < 2 ^ 31
      → serve_put N F rounds name (record {
        up =
            payload_bytes (record { code = N.ntohl pl_file; length = N.ntohl (length bytes) })
            ++ (bytes ++ rest);
        down = down;
        files = files;
      })
        ≡ ok (record { up = rest; down = down; files = F.write files (name ++ dot_upload) bytes })
  unfolding serve_put
  serve_put-writes name bytes rest down files n h =
      let p : Payload = record { code = N.ntohl pl_file; length = N.ntohl (length bytes) } in
      let big : length bytes < 2 ^ 32 = omega arith in
      rw
        (
          recv_once-append N law F rounds whole (payload_bytes p) (bytes ++ rest) payload_size
              (length-payload_bytes p),
          payload_of-payload_bytes p (law.ntohl-lt pl_file (omega arith)) (law.ntohl-lt _ big),
          law.ntohl-ntohl (length bytes) big,
          receive_file-writes N law F rounds whole files name dot_upload bytes rest n (omega arith)
              h,
        )
        refl

  -- The rounds for the four commands.
  pub serve-ls :
      (rest : Bytes) (fuel : ℕ) (down : Bytes) (files : F.State)
      → handle_new_connection N F rounds (suc fuel) (record {
        up = command_bytes (command_for N law F rounds whole cc_ls (replicate arg_size 0)) ++ rest;
        down = down;
        files = files;
      })
        ≡ handle_new_connection N F rounds fuel
            (record { up = rest; down = down ++ list_bytes (F.names files); files = files })
  unfolding serve_command
  serve-ls rest fuel down files =
      serve-next cc_ls (replicate arg_size 0) rest fuel down files (omega arith)
        (length-replicate {A = ℕ} arg_size 0)
      ∙ rw (law.ntohl-htonl cc_ls (omega arith), serve_ls-list_bytes rest down files) refl

  pub serve-get :
      (name bytes rest : Bytes) (fuel : ℕ) (down : Bytes) (files : F.State)
      → IsName name
      → F.read files name ≡ some bytes
      → length bytes < 2 ^ 31
      → handle_new_connection N F rounds (suc fuel) (record {
        up = command_bytes (command_for N law F rounds whole cc_get (padded name)) ++ rest;
        down = down;
        files = files;
      })
        ≡ handle_new_connection N F rounds fuel
            (record { up = rest; down = down ++ file_bytes bytes; files = files })
  unfolding serve_command
  serve-get name bytes rest fuel down files n r h =
      serve-next cc_get (padded name) rest fuel down files (omega arith)
        (length-padded name n.short)
      ∙ rw
          (
            law.ntohl-htonl cc_get (omega arith),
            c_string-append name _ n.text,
            serve_get-file_bytes rest down name bytes files r h,
          )
          refl

  pub serve-put :
      (name bytes rest : Bytes) (fuel : ℕ) (down : Bytes) (files : F.State)
      → IsName name
      → length bytes < 2 ^ 31
      → handle_new_connection N F rounds
          (suc fuel)
          (record { up = put_bytes name bytes ++ rest; down = down; files = files })
        ≡ handle_new_connection N F rounds fuel
            (record { up = rest; down = down; files = F.write files (name ++ dot_upload) bytes })
  unfolding serve_command
  serve-put name bytes rest fuel down files n h =
      let p : Payload = record { code = N.ntohl pl_file; length = N.ntohl (length bytes) } in
      let c = command_bytes (command_for N law F rounds whole cc_put (padded name)) in
      let pieces : put_bytes name bytes ++ rest ≡ c ++ (payload_bytes p ++ (bytes ++ rest)) =
        append_assoc (c ++ payload_bytes p) bytes rest
        ∙ append_assoc c (payload_bytes p) (bytes ++ rest) in
      rw pieces (
        serve-next cc_put (padded name) _ fuel down files (omega arith) (length-padded name n.short)
        ∙ rw
            (
              law.ntohl-htonl cc_put (omega arith),
              c_string-append name _ n.text,
              serve_put-writes name bytes rest down files n h,
            )
            refl)

  pub serve-exit :
      (rest : Bytes) (fuel : ℕ) (down : Bytes) (files : F.State)
      → handle_new_connection N F rounds (suc fuel) (record {
        up =
            command_bytes (command_for N law F rounds whole cc_exit (replicate arg_size 0)) ++ rest;
        down = down;
        files = files;
      })
        ≡ ok (true, record { up = rest; down = down; files = files })
  unfolding serve_command
  serve-exit rest fuel down files =
      serve-next cc_exit (replicate arg_size 0) rest fuel down files (omega arith)
        (length-replicate {A = ℕ} arg_size 0)
      ∙ rw (law.ntohl-htonl cc_exit (omega arith)) refl
