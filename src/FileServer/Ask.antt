-- ===== src/FileServer/Ask.antt =====
-- The commands of ps6/client.c, where every call moves all its bytes: what they put on the wire, and
-- what they make of the answer.
use cse.Base.{
  ℕ, ◌+◌, ◌^◌, ◌<◌, ◌≡◌, refl, sym, ap, subst, append-nil, ◌∙◌, List, [], ◌∷◌, ◌++◌, some, arith,
  length, replicate, length-append, lt→ltb, append_assoc, length-replicate,
}
use cse.FileServer.{
  Bytes, Result, ok, Answer, moved, Network, IsLawful, Command, Payload, command_bytes,
  payload_bytes, command_size, payload_size, arg_size, cc_ls, cc_get, cc_put, cc_exit, pl_txt,
  pl_file, glorp, slurp, recv_rounds,
}
use cse.FileServer.Files.{FileSystem, receive_file_over_socket}
use cse.FileServer.Server.{Link}
use cse.FileServer.Client.{
  Client, Output, got, transfer_done, get_payload, ask, do_ls_command, do_get_command,
  do_put_command, do_exit_command, dot_download,
}
use cse.FileServer.Wire.{
  length-command_bytes, length-payload_bytes, payload_of-payload_bytes, padded, length-padded,
  c_string-append, IsText, scan_arg-padded,
}
use cse.FileServer.Listing.{lines}
use cse.FileServer.Loops.{glorp_whole, slurp_whole, recv_rounds_whole}
use cse.FileServer.Calls.{
  IsName, command_for, get_file_size-length, send_file-append, receive_file-writes,
  send_once-append,
}
use cse.FileServer.Serve.{list_bytes, file_bytes, put_bytes}

module _ (N : Network) (law : IsLawful N) (F : FileSystem) (rounds : ℕ → List Answer)
    (whole : (n : ℕ) → rounds n ≡ moved n ∷ []) (wait : Link F → Result (Link F)) where
  glorp-append :
      (src wire : Bytes) (n : ℕ)
      → length src ≡ n
      → n < 2 ^ 32
      → glorp (rounds n) src 0 wire ≡ ok (wire ++ src)
  glorp-append src wire n e h = rw (whole n, ← e) (glorp_whole [] src wire (omega arith))

  slurp-payload :
      (p : Payload) (rest : Bytes)
      → slurp (rounds payload_size) (replicate payload_size 0) 0 (payload_bytes p ++ rest)
        ≡ ok (payload_bytes p, rest)
  unfolding payload_bytes
  slurp-payload p rest = rw (whole payload_size) (
      slurp_whole [] (replicate payload_size 0) (payload_bytes p) rest (length-payload_bytes p)
        (omega (arith, length-payload_bytes p)))

  ask-append :
      (code : ℕ) (arg up down : Bytes) (files : F.State)
      → length arg ≡ arg_size
      → ask N F rounds wait code arg (record { up = up; down = down; files = files })
        ≡ ok (record {
          up = up ++ command_bytes (record { code = N.htonl code; arg = arg });
          down = down;
          files = files;
        })
  unfolding ask
  ask-append code arg up down files h =
      let c : Command = record { code = N.htonl code; arg = arg } in
      rw (glorp-append (command_bytes c) up command_size (length-command_bytes c h) (omega arith))
        refl

  recv-all :
      (src : Bytes) (n : ℕ)
      → length src ≡ n
      → recv_rounds (rounds n) (replicate n 0) n 0 src ≡ ok (src, [])
  recv-all src n e =
      subst (λ m. recv_rounds (rounds m) (replicate m 0) m 0 src ≡ ok (src, [])) e
        (ap (recv_rounds (rounds (length src)) (replicate (length src) 0) (length src) 0)
            (sym (append-nil src))
          ∙ rw (whole (length src)) (
              recv_rounds_whole [] (replicate (length src) 0) src []
                (sym (length-replicate (length src) 0))))

  -- The answer to `ls` is the text of the list.
  get_payload-list :
      (names : List Bytes)
      → length (lines names) + 1 < 2 ^ 31
      → get_payload N F rounds wait (list_bytes N law F rounds whole names)
        ≡ ok
            (record { code = pl_txt; length = length (lines names) + 1 }, lines names ++ 0 ∷ [], [])
  unfolding get_payload
  get_payload-list names h =
      let size = length (lines names) + 1 in
      let big : size < 2 ^ 32 = omega arith in
      let p : Payload = record { code = N.htonl pl_txt; length = N.htonl size } in
      rw
        (
          slurp-payload p (lines names ++ 0 ∷ []),
          payload_of-payload_bytes p (law.htonl-lt pl_txt (omega arith)) (law.htonl-lt size big),
          law.ntohl-htonl size big,
          law.ntohl-htonl pl_txt (omega arith),
          lt→ltb size (2 ^ 31) h,
          recv-all (lines names ++ 0 ∷ []) size (length-append (lines names) (0 ∷ [])),
        )
        refl

  pub do_ls-prints :
      (mine : F.State) (out : List Output) (up : Bytes) (files : F.State) (names : List Bytes)
      (l : Link F)
      → wait (record {
        up = up ++ command_bytes (command_for N law F rounds whole cc_ls (replicate arg_size 0));
        down = [];
        files = files;
      })
        ≡ ok (record l { down = list_bytes N law F rounds whole names })
      → length (lines names) + 1 < 2 ^ 31
      → IsText (lines names)
      → do_ls_command N F rounds wait
          (record { mine = mine; out = out; link = record { up = up; down = []; files = files } })
        ≡ ok (record {
          mine = mine;
          out = out ++ got (lines names) ∷ [];
          link = record l { down = [] };
        })
  unfolding do_ls_command
  do_ls-prints mine out up files names l w h text =
      rw
        (
          ask-append cc_ls (replicate arg_size 0) up [] files (length-replicate {A = ℕ} arg_size 0),
          w,
          get_payload-list names h,
          c_string-append (lines names) 1 text,
        )
        refl

  pub do_get-saves :
      (name bytes : Bytes) (mine : F.State) (out : List Output) (up : Bytes) (files : F.State)
      (l : Link F)
      → IsName name
      → length bytes < 2 ^ 31
      → wait (record {
        up = up ++ command_bytes (command_for N law F rounds whole cc_get (padded name));
        down = [];
        files = files;
      })
        ≡ ok (record l { down = file_bytes N law F rounds whole bytes })
      → do_get_command N F rounds wait name
          (record { mine = mine; out = out; link = record { up = up; down = []; files = files } })
        ≡ ok (record {
          mine = F.write mine (name ++ dot_download) bytes;
          out = out ++ transfer_done ∷ [];
          link = record l { down = [] };
        })
  unfolding do_get_command
  do_get-saves name bytes mine out up files l n h w =
      let big : length bytes < 2 ^ 32 = omega arith in
      let p : Payload = record { code = N.htonl pl_file; length = N.htonl (length bytes) } in
      let received : receive_file_over_socket F rounds mine name dot_download (length bytes) bytes
          ≡ ok (F.write mine (name ++ dot_download) bytes, []) =
        ap (receive_file_over_socket F rounds mine name dot_download (length bytes))
          (sym (append-nil bytes))
        ∙ receive_file-writes N law F rounds whole mine name dot_download bytes [] n (omega arith)
            h in
      rw
        (
          scan_arg-padded name n.short,
          ask-append cc_get (padded name) up [] files (length-padded name n.short),
          w,
          slurp-payload p bytes,
          payload_of-payload_bytes p (law.htonl-lt pl_file (omega arith)) (law.htonl-lt _ big),
          law.ntohl-htonl (length bytes) big,
          c_string-append name _ n.text,
          received,
        )
        refl

  pub do_put-sends :
      (name bytes : Bytes) (mine : F.State) (out : List Output) (up : Bytes) (files : F.State)
      → IsName name
      → F.read mine name ≡ some bytes
      → length bytes < 2 ^ 31
      → do_put_command N F rounds wait name
          (record { mine = mine; out = out; link = record { up = up; down = []; files = files } })
        ≡ ok (record {
          mine = mine;
          out = out ++ transfer_done ∷ [];
          link = record {
            up = up ++ put_bytes N law F rounds whole name bytes;
            down = [];
            files = files;
          };
        })
  unfolding do_put_command
  do_put-sends name bytes mine out up files n r h =
      let c = command_bytes (record { code = N.htonl cc_put; arg = padded name }) in
      let p : Payload = record { code = N.ntohl pl_file; length = N.ntohl (length bytes) } in
      let joined : ((up ++ c) ++ payload_bytes p) ++ bytes
          ≡ up ++ ((c ++ payload_bytes p) ++ bytes) =
        ap (λ r. r ++ bytes) (append_assoc up c (payload_bytes p))
        ∙ append_assoc up (c ++ payload_bytes p) bytes in
      rw
        (
          scan_arg-padded name n.short,
          ask-append cc_put (padded name) up [] files (length-padded name n.short),
          c_string-append name _ n.text,
          get_file_size-length N law F rounds whole mine name bytes r h,
          glorp-append (payload_bytes p) (up ++ c) payload_size (length-payload_bytes p)
              (omega arith),
          send_file-append N law F rounds whole mine name bytes ((up ++ c) ++ payload_bytes p) r h,
        )
        (rw joined refl)

  pub do_exit-sends :
      (c : Client F)
      → do_exit_command N F rounds wait c
        ≡ ok (record c {
          link = record c.link {
            up =
                c.link.up
                ++ command_bytes (command_for N law F rounds whole cc_exit (replicate arg_size 0));
          };
        })
  unfolding do_exit_command
  do_exit-sends c =
      let e : Command = record { code = N.htonl cc_exit; arg = replicate arg_size 0 } in
      rw
        (send_once-append N law F rounds whole (command_bytes e) c.link.up command_size
          (length-command_bytes e (length-replicate {A = ℕ} arg_size 0)))
        refl
