-- ===== src/FileServer/Spec.antt =====
-- What a session of ps6/client.c with ps6/server.c does to the files of both sides, and the session
-- as the two programs run it: the server goes on whenever the client waits, and behind its end.
use cse.Base.{ℕ, suc, ◌+◌, ◌^◌, List, [], ◌∷◌, ◌++◌, Option, Bool, ltb, length}
use cse.FileServer.{Bytes, Result, ok, faulted, guard, ◌>>=◌, ◌>>◌, Answer, Network}
use cse.FileServer.Files.{FileSystem, opened}
use cse.FileServer.Server.{Link, handle_new_connection, dot_upload}
use cse.FileServer.Client.{
  Client, Output, got, transfer_done, main_loop, ls_word, get_word, put_word, exit_word,
  dot_download,
}
use cse.FileServer.Listing.{lines}

pub data Request : Type 0 where
  list : Request
  get : Bytes → Request
  put : Bytes → Request

-- The words of the input, with `exit` at the end.
unfoldable pub words : List Request → List Bytes
words [] = exit_word ∷ []
words (list ∷ rs) = ls_word ∷ words rs
words (get name ∷ rs) = get_word ∷ name ∷ words rs
words (put name ∷ rs) = put_word ∷ name ∷ words rs

-- A file that is sent exists and has a size that is an `int`.
unfoldable pub sendable : Option Bytes → Result Bytes
sendable file = do bytes ← opened file; guard (ltb (length bytes) (2 ^ 31)) faulted; ok bytes

module _ (F : FileSystem) where
  pub record World : Type 0 where
    pub mine : F.State
    pub theirs : F.State
    pub out : List Output

  -- `ls` prints the list of the server's files, `get` copies a file of the server to the client and
  -- `put` one of the client to the server, each under a new name.
  unfoldable pub perform : Request → World → Result World
  perform list w = do
    let text = lines (F.names w.theirs)
    guard (ltb (length text + 1) (2 ^ 31)) faulted
    ok (record w { out = w.out ++ got text ∷ [] })
  perform (get name) w = do
    bytes ← sendable (F.read w.theirs name)
    ok (record w {
      mine = F.write w.mine (name ++ dot_download) bytes;
      out = w.out ++ transfer_done ∷ [];
    })
  perform (put name) w = do
    bytes ← sendable (F.read w.mine name)
    ok (record w {
      theirs = F.write w.theirs (name ++ dot_upload) bytes;
      out = w.out ++ transfer_done ∷ [];
    })

  unfoldable pub perform_all : List Request → World → Result World
  perform_all [] w = ok w
  perform_all (r ∷ rs) w = do w ← perform r w; perform_all rs w

module _ (N : Network) (F : FileSystem) (rounds : ℕ → List Answer) where
  -- The server goes on until it waits for a command.
  unfoldable pub let_server : Link F → Result (Link F)
  let_server l = handle_new_connection N F rounds (suc (length l.up)) l >>= λ r. ok r.1

  -- The server when the client has ended: whether it is done, and the files and the output.
  unfoldable pub finish : Client F → Result (Bool × World F)
  finish c = do
    r ← handle_new_connection N F rounds (suc (length c.link.up)) c.link
    ok (r.0, record { mine = c.mine; theirs = r.1.files; out = c.out })

  unfoldable pub session : List Request → (mine theirs : F.State) → Result (Bool × World F)
  session rs mine theirs = do
    let l : Link F = record { up = []; down = []; files = theirs }
    c ← main_loop N F rounds let_server (words rs) (record { mine = mine; out = []; link = l })
    finish c
