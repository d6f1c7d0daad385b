-- ===== src/FileServer/Session.antt =====
-- A session of ps6/client.c and ps6/server.c against its specification.
use cse.Base.{
  ℕ, suc, ◌+◌, ◌^◌, ◌<◌, ◌≡◌, refl, ap, ◌∙◌, List, [], ◌∷◌, ◌++◌, true, false, Bool, some, none,
  arith, ltb, length, replicate, All, length-replicate, Bool-cases, inl, inr, Option, ltb→lt,
  All-append,
}
use cse.FileServer.{
  Bytes, Stop, Result, ok, ◌>>=◌, ◌>>◌, guard, Answer, moved, Network, IsLawful, command_bytes,
  arg_size, cc_ls, cc_get, cc_exit,
}
use cse.FileServer.Files.{FileSystem}
use cse.FileServer.Server.{Link}
use cse.FileServer.Client.{
  dot_download, do_ls_command, do_get_command, do_put_command, Client, Output, main_loop, got,
  transfer_done,
}
use cse.FileServer.Wire.{length-command_bytes, padded, length-padded, IsText}
use cse.FileServer.Listing.{lines, lines-IsText}
use cse.FileServer.Calls.{IsName, command_for}
use cse.FileServer.Serve.{list_bytes, file_bytes, serve-ls, serve-get, serve-exit}
use cse.FileServer.Ask.{do_ls-prints, do_get-saves, do_put-sends, do_exit-sends}
use cse.FileServer.Spec.{
  Request, list, get, put, words, World, perform, perform_all, sendable, let_server, finish,
  session,
}
use cse.FileServer.Pending.{
  Pending, Sound, pending_bytes, save_all, pending-round, let_server-answers, pending_bytes-append,
  save_all-append,
}

-- What a result that is no error says of the tests before it.
guard-bind {ℓ κ} :
    {A : Type ℓ} {B : Type κ} (b : Bool) (s : Stop) (m : Result A) (k : A → Result B) {x : B}
    → (guard b s >> m >>= k) ≡ ok x
    → (b ≡ true) × ((m >>= k) ≡ ok x)
guard-bind true s m k h = (refl, h)
guard-bind false s m k h = cc

sendable-bind {ℓ κ} :
    {A : Type ℓ} {B : Type κ} (file : Option Bytes) (g : Bytes → Result A) (k : A → Result B)
    {x : B}
    → (sendable file >>= g >>= k) ≡ ok x
    → (bytes : Bytes) × (file ≡ some bytes) × (length bytes < 2 ^ 31) × ((g bytes >>= k) ≡ ok x)
unfolding sendable
sendable-bind none g k h = cc
sendable-bind (some bytes) g k h = elim (Bool-cases (ltb (length bytes) (2 ^ 31))) [
  | inl e ↦ (bytes, refl, ltb→lt _ _ e, rw e at h)
  | inr e ↦ let clash = rw e at h in cc
]

-- The names that `get` and `put` are given.
abbrev pub Named : Request → Type 0
Named list = Unit
Named (get name) = IsName name
Named (put name) = IsName name

words_cons : (rs : List Request) → (w : Bytes) × (ws : List Bytes) × (words rs ≡ w ∷ ws)
unfolding words
words_cons [] = (_, _, refl)
words_cons (list ∷ rs) = (_, _, refl)
words_cons (get name ∷ rs) = (_, _, refl)
words_cons (put name ∷ rs) = (_, _, refl)

module _ (N : Network) (law : IsLawful N) (F : FileSystem) (rounds : ℕ → List Answer)
    (whole : (n : ℕ) → rounds n ≡ moved n ∷ [])
    (named : (s : F.State) → All IsText (F.names s)) where
  -- The client between two commands, with the pending files on the wire.
  abbrev between : (mine : F.State) → Pending → (files : F.State) → List Output → Client F
  between mine ps files out = record {
    mine = mine;
    out = out;
    link = record { up = pending_bytes N law F rounds whole ps; down = []; files = files };
  }

  abbrev seen : (mine : F.State) → Pending → (files : F.State) → List Output → World F
  seen mine ps files out = record {
    mine = mine;
    theirs = save_all N law F rounds whole ps files;
    out = out;
  }

  abbrev to_end : List Bytes → Client F → Result (Bool × World F)
  to_end ws c = main_loop N F rounds (let_server N F rounds) ws c >>= finish N F rounds

  -- The client when the server has caught up.
  abbrev caught_up : (mine : F.State) → Pending → (files : F.State) → List Output → Client F
  caught_up mine ps files out = between mine [] (save_all N law F rounds whole ps files) out

  words-list :
      (rs : List Request) (c c' : Client F)
      → do_ls_command N F rounds (let_server N F rounds) c ≡ ok c'
      → to_end (words (list ∷ rs)) c ≡ to_end (words rs) c'
  unfolding words main_loop
  words-list rs c c' e = let (w, ws, f) = words_cons rs in rw (f, e) refl

  words-get :
      (name : Bytes) (rs : List Request) (c c' : Client F)
      → do_get_command N F rounds (let_server N F rounds) name c ≡ ok c'
      → to_end (words (get name ∷ rs)) c ≡ to_end (words rs) c'
  unfolding words main_loop
  words-get name rs c c' e = rw e refl

  words-put :
      (name : Bytes) (rs : List Request) (c c' : Client F)
      → do_put_command N F rounds (let_server N F rounds) name c ≡ ok c'
      → to_end (words (put name ∷ rs)) c ≡ to_end (words rs) c'
  unfolding words main_loop
  words-put name rs c c' e = rw e refl

  length-request :
      (code : ℕ) (arg : Bytes)
      → length arg ≡ arg_size
      → 0 < length (command_bytes (command_for N law F rounds whole code arg))
  length-request code arg h =
      omega (arith, length-command_bytes (command_for N law F rounds whole code arg) h)

  abbrev no_arg : Bytes
  no_arg = replicate arg_size 0

  finish-pending :
      (mine : F.State) (ps : Pending) (files : F.State) (out : List Output)
      → All Sound ps
      → finish N F rounds (record {
        mine = mine;
        out = out;
        link = record {
          up =
              pending_bytes N law F rounds whole ps
              ++ command_bytes (command_for N law F rounds whole cc_exit no_arg);
          down = [];
          files = files;
        };
      })
        ≡ ok (true, seen mine ps files out)
  unfolding finish
  finish-pending mine ps files out h =
      let seen_by : Bool × Link F → Bool × World F =
        λ r. (r.0, record { mine = mine; theirs = r.1.files; out = out }) in
      ap (λ o. o >>= λ r. ok (seen_by r))
        (pending-round N law F rounds whole ps _ files _ h
          (length-request cc_exit no_arg (length-replicate {A = ℕ} arg_size 0))
          (λ fuel. serve-exit N law F rounds whole [] (suc fuel) [] _))

  words-exit :
      (mine : F.State) (ps : Pending) (files : F.State) (out : List Output)
      → All Sound ps
      → to_end (words []) (between mine ps files out) ≡ ok (true, seen mine ps files out)
  unfolding words main_loop
  words-exit mine ps files out h =
      rw (do_exit-sends N law F rounds whole (let_server N F rounds) (between mine ps files out))
        (finish-pending mine ps files out h)

  -- The state of the client behind each command.
  list-prints :
      (mine : F.State) (ps : Pending) (files : F.State) (out : List Output)
      → All Sound ps
      → length (lines (F.names (save_all N law F rounds whole ps files))) + 1 < 2 ^ 31
      → do_ls_command N F rounds (let_server N F rounds) (between mine ps files out)
        ≡ ok (
            caught_up mine ps files
              (out ++ got (lines (F.names (save_all N law F rounds whole ps files))) ∷ []))
  unfolding pending_bytes
  list-prints mine ps files out h short =
      let saved = save_all N law F rounds whole ps files in
      let names = F.names saved in
      let l : Link F = record {
        up = [];
        down = list_bytes N law F rounds whole names;
        files = saved;
      } in
      do_ls-prints N law F rounds whole (let_server N F rounds) mine out _ files names l
        (let_server-answers N law F rounds whole ps _ files l h
          (length-request cc_ls no_arg (length-replicate {A = ℕ} arg_size 0)) refl
          (λ fuel. serve-ls N law F rounds whole [] fuel [] saved))
        short (lines-IsText names (named saved))

  get-saves :
      (name bytes : Bytes) (mine : F.State) (ps : Pending) (files : F.State) (out : List Output)
      → All Sound ps
      → IsName name
      → F.read (save_all N law F rounds whole ps files) name ≡ some bytes
      → length bytes < 2 ^ 31
      → do_get_command N F rounds (let_server N F rounds) name (between mine ps files out)
        ≡ ok (
            caught_up
              (F.write mine (name ++ dot_download) bytes)
              ps
              files
              (out ++ transfer_done ∷ []))
  unfolding pending_bytes
  get-saves name bytes mine ps files out h n r short =
      let saved = save_all N law F rounds whole ps files in
      let l : Link F = record {
        up = [];
        down = file_bytes N law F rounds whole bytes;
        files = saved;
      } in
      do_get-saves N law F rounds whole (let_server N F rounds) name bytes mine out _ files l n
        short
        (let_server-answers N law F rounds whole ps _ files l h
          (length-request cc_get (padded name) (length-padded name n.short)) refl
          (λ fuel. serve-get N law F rounds whole name bytes [] fuel [] saved n r short))

  put-sends :
      (name bytes : Bytes) (mine : F.State) (ps : Pending) (files : F.State) (out : List Output)
      → IsName name
      → F.read mine name ≡ some bytes
      → length bytes < 2 ^ 31
      → do_put_command N F rounds (let_server N F rounds) name (between mine ps files out)
        ≡ ok (between mine (ps ++ (name, bytes) ∷ []) files (out ++ transfer_done ∷ []))
  put-sends name bytes mine ps files out n r short =
      rw (pending_bytes-append N law F rounds whole ps (name, bytes)) (
        do_put-sends N law F rounds whole (let_server N F rounds) name bytes mine out _ files n r
          short)

  -- The rest of a session, from a client with pending files.
  to_end-perform :
      (rs : List Request) (mine : F.State) (ps : Pending) (files : F.State) (out : List Output)
      {w : World F}
      → All Sound ps
      → All Named rs
      → perform_all F rs (seen mine ps files out) ≡ ok w
      → to_end (words rs) (between mine ps files out) ≡ ok (true, w)
  unfolding perform_all perform save_all
  to_end-perform [] mine ps files out h n e =
      words-exit mine ps files out h ∙ ap (λ r. r >>= λ x. ok (true, x)) e
  to_end-perform (list ∷ rs) mine ps files out h n e =
      let (small, rest) = guard-bind _ _ _ (perform_all F rs) e in
      words-list rs _ _ (list-prints mine ps files out h (ltb→lt _ _ small))
      ∙ to_end-perform rs mine [] (save_all N law F rounds whole ps files) _ tt n.1 rest
  to_end-perform (get name ∷ rs) mine ps files out h n e =
      let (bytes, r, small, rest) = sendable-bind _ _ (perform_all F rs) e in
      words-get name rs _ _ (get-saves name bytes mine ps files out h n.0 r small)
      ∙ to_end-perform rs _ [] (save_all N law F rounds whole ps files) _ tt n.1 rest
  to_end-perform (put name ∷ rs) mine ps files out h n e =
      let (bytes, r, small, rest) = sendable-bind _ _ (perform_all F rs) e in
      words-put name rs _ _ (put-sends name bytes mine ps files out n.0 r small)
      ∙ to_end-perform rs mine (ps ++ (name, bytes) ∷ []) files _
          (All-append _ ps _ h ((n.0, small), tt)) n.1
          (rw (save_all-append N law F rounds whole ps (name, bytes) files) rest)

-- A session of any requests, where ntohl undoes htonl and itself, every call of `send` and `recv`
-- moves all its bytes in its first round, the names in a directory hold no NUL, the names in the
-- requests hold none and fit into a command, and the specification gives a result (the files that are
-- sent exist, and they and the list have an `int` as size): it ends, the server is done, and the files
-- of both sides and the output are those of the specification, though the server reads what `put`
-- sends only when the client waits for an answer, or behind its end.
pub session-perform_all :
    (N : Network) (law : IsLawful N) (F : FileSystem) (rounds : ℕ → List Answer)
    (whole : (n : ℕ) → rounds n ≡ moved n ∷ []) (named : (s : F.State) → All IsText (F.names s))
    (rs : List Request) (mine theirs : F.State) {w : World F}
    → All Named rs
    → perform_all F rs (record { mine = mine; theirs = theirs; out = [] }) ≡ ok w
    → session N F rounds rs mine theirs ≡ ok (true, w)
unfolding session pending_bytes save_all
session-perform_all N law F rounds whole named rs mine theirs n e =
    to_end-perform N law F rounds whole named rs mine [] theirs [] tt n e
