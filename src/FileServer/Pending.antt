-- ===== src/FileServer/Pending.antt =====
-- The files that a client of ps6/client.c has sent and the server has not read: what is on the wire,
-- and what ps6/server.c does with it when it goes on.
use cse.Base.{
  ℕ, zero, suc, ◌+◌, ◌-◌, ◌^◌, ◌≤◌, ◌<◌, ◌≡◌, refl, sym, ap, append-nil, ◌∙◌, List, [], ◌∷◌, ◌++◌,
  false, Bool, arith, length, length-append, append_assoc, All,
}
use cse.FileServer.{
  Bytes, Result, ok, ◌>>=◌, Answer, moved, Network, IsLawful, cc_put, payload_bytes, pl_file,
  command_bytes,
}
use cse.FileServer.Files.{FileSystem}
use cse.FileServer.Server.{Link, handle_new_connection, dot_upload}
use cse.FileServer.Wire.{length-command_bytes, padded, length-padded}
use cse.FileServer.Calls.{IsName, command_for}
use cse.FileServer.Serve.{put_bytes, serve-put}
use cse.FileServer.Spec.{let_server}

-- A file under way to the server.
abbrev pub Pending : Type 0
Pending = List (Bytes × Bytes)

abbrev pub Sound : Bytes × Bytes → Type 0
Sound p = IsName p.0 × length p.1 < 2 ^ 31

module _ (N : Network) (law : IsLawful N) (F : FileSystem) (rounds : ℕ → List Answer)
    (whole : (n : ℕ) → rounds n ≡ moved n ∷ []) where
  unfoldable pub pending_bytes : Pending → Bytes
  pending_bytes [] = []
  pending_bytes (p ∷ ps) = put_bytes N law F rounds whole p.0 p.1 ++ pending_bytes ps

  unfoldable pub save_all : Pending → F.State → F.State
  save_all [] files = files
  save_all (p ∷ ps) files = save_all ps (F.write files (p.0 ++ dot_upload) p.1)

  serve-pending :
      (ps : Pending) (rest down : Bytes) (files : F.State) (fuel n : ℕ)
      → fuel ≡ length ps + n
      → All Sound ps
      → handle_new_connection N F rounds fuel
          (record { up = pending_bytes ps ++ rest; down = down; files = files })
        ≡ handle_new_connection N F rounds n
            (record { up = rest; down = down; files = save_all ps files })
  unfolding pending_bytes save_all
  serve-pending [] rest down files fuel n e h =
      ap
        (λ k. handle_new_connection N F rounds k (record { up = rest; down = down; files = files }))
        (e ∙ omega arith)
  serve-pending (p ∷ ps) rest down files zero n e h =
      let none_left : 1 ≤ 0 = omega (arith, e) in elim none_left [ ]
  serve-pending (p ∷ ps) rest down files (suc fuel) n e h =
      rw (append_assoc (put_bytes N law F rounds whole p.0 p.1) (pending_bytes ps) rest) (
        serve-put N law F rounds whole p.0 p.1 (pending_bytes ps ++ rest) fuel down files h.0.0
          h.0.1
        ∙ serve-pending ps rest down (F.write files (p.0 ++ dot_upload) p.1) fuel n (omega arith)
            h.1)

  length-pending_bytes : (ps : Pending) → All Sound ps → length ps ≤ length (pending_bytes ps)
  unfolding pending_bytes
  length-pending_bytes [] h = omega arith
  length-pending_bytes (p ∷ ps) h =
      let c = command_for N law F rounds whole cc_put (padded p.0) in
      omega (
        arith,
        length-pending_bytes ps h.1,
        length-append (put_bytes N law F rounds whole p.0 p.1) (pending_bytes ps),
        length-append (command_bytes c) (put_head p),
        length-append (command_bytes c ++ put_head p) p.1,
        length-command_bytes c (length-padded p.0 h.0.0.short),
      )
    where
      put_head : Bytes × Bytes → Bytes
      put_head p = payload_bytes (record { code = N.ntohl pl_file; length = N.ntohl (length p.1) })

  handle_idle :
      (fuel : ℕ) (l : Link F)
      → l.up ≡ []
      → handle_new_connection N F rounds (suc fuel) l ≡ ok (false, l)
  unfolding handle_new_connection
  handle_idle fuel l e = rw e refl

  -- The server, when it waits, has saved the pending files and answered the command behind them.
  pub pending-round :
      (ps : Pending) (cmd : Bytes) (files : F.State) (r : Result (Bool × Link F))
      → All Sound ps
      → 0 < length cmd
      → ((fuel : ℕ)
          → handle_new_connection N F rounds
              (suc (suc fuel))
              (record { up = cmd ++ []; down = []; files = save_all ps files })
            ≡ r)
      → handle_new_connection N F rounds
          (suc (length (pending_bytes ps ++ cmd)))
          (record { up = pending_bytes ps ++ cmd; down = []; files = files })
        ≡ r
  pending-round ps cmd files r h some_bytes round =
      let fuel = suc (length (pending_bytes ps ++ cmd)) in
      let n = length (pending_bytes ps ++ cmd) - length ps - 1 in
      let enough : fuel ≡ length ps + suc (suc n) =
        omega (arith, length-append (pending_bytes ps) cmd, length-pending_bytes ps h) in
      ap
        (λ c.
          handle_new_connection N F rounds fuel
            (record { up = pending_bytes ps ++ c; down = []; files = files }))
        (sym (append-nil cmd))
      ∙ serve-pending ps (cmd ++ []) [] files fuel (suc (suc n)) enough h
      ∙ round n

  pub let_server-answers :
      (ps : Pending) (cmd : Bytes) (files : F.State) (l : Link F)
      → All Sound ps
      → 0 < length cmd
      → l.up ≡ []
      → ((fuel : ℕ)
          → handle_new_connection N F rounds
              (suc fuel)
              (record { up = cmd ++ []; down = []; files = save_all ps files })
            ≡ handle_new_connection N F rounds fuel l)
      → let_server N F rounds (record { up = pending_bytes ps ++ cmd; down = []; files = files })
        ≡ ok l
  unfolding let_server
  let_server-answers ps cmd files l h some_bytes idle round =
      ap (λ o. o >>= λ r. ok r.1)
        (pending-round ps cmd files (ok (false, l)) h some_bytes
          (λ fuel. round (suc fuel) ∙ handle_idle fuel l idle))

  pub pending_bytes-append :
      (ps : Pending) (p : Bytes × Bytes)
      → pending_bytes (ps ++ p ∷ []) ≡ pending_bytes ps ++ put_bytes N law F rounds whole p.0 p.1
  unfolding pending_bytes
  pending_bytes-append [] p = append-nil _
  pending_bytes-append (q ∷ ps) p =
      ap (λ r. put_bytes N law F rounds whole q.0 q.1 ++ r) (pending_bytes-append ps p)
      ∙ sym (append_assoc (put_bytes N law F rounds whole q.0 q.1) (pending_bytes ps) _)

  pub save_all-append :
      (ps : Pending) (p : Bytes × Bytes) (files : F.State)
      → save_all (ps ++ p ∷ []) files ≡ F.write (save_all ps files) (p.0 ++ dot_upload) p.1
  unfolding save_all
  save_all-append [] p files = refl
  save_all-append (q ∷ ps) p files = save_all-append ps p (F.write files (q.0 ++ dot_upload) q.1)
