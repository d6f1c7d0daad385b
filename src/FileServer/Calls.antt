-- ===== src/FileServer/Calls.antt =====
-- The calls of ps6/server.c and ps6/command.c that send and receive, where each moves all its bytes.
use cse.Base.{
  ℕ, ◌^◌, ◌<◌, ◌≡◌, refl, sym, List, [], ◌∷◌, ◌++◌, some, arith, length, replicate, take-length,
  ==_self, length-append, lt→ltb, take-append_length, drop-append_length, length-replicate,
}
use cse.FileServer.{Bytes, ok, Answer, moved, Network, IsLawful, Command, arg_size}
use cse.FileServer.Files.{
  FileSystem, get_file_size, send_file_over_socket, receive_file_over_socket, file_name,
}
use cse.FileServer.Server.{send_once, recv_once}
use cse.FileServer.Wire.{IsText}
use cse.FileServer.Loops.{send_rounds_whole, recv_rounds_whole}

-- A name that fits into the argument of a command.
pub record IsName (name : Bytes) : Type 0 where
  pub text : IsText name
  pub short : length name < arg_size

pub fits :
    (name ext : Bytes) → IsName name → length ext < 200 → file_name name ext ≡ ok (name ++ ext)
unfolding file_name
fits name ext n e =
    rw (lt→ltb (length (name ++ ext)) 512 (omega (arith, length-append name ext, n.short, e))) refl

module _ (N : Network) (law : IsLawful N) (F : FileSystem) (rounds : ℕ → List Answer)
    (whole : (n : ℕ) → rounds n ≡ moved n ∷ []) where
  abbrev pub command_for : (code : ℕ) → (arg : Bytes) → Command
  command_for code arg = record { code = N.htonl code; arg = arg }

  pub recv_once-append :
      (src rest : Bytes) (n : ℕ)
      → length src ≡ n
      → recv_once (rounds n) n (src ++ rest) ≡ ok (src, rest)
  unfolding recv_once
  recv_once-append src rest n e =
      rw (whole n, ← e, ==_self (length src), take-append_length, drop-append_length) refl

  pub send_once-append :
      (bytes wire : Bytes) (n : ℕ)
      → length bytes ≡ n
      → send_once (rounds n) bytes wire ≡ ok (wire ++ bytes)
  unfolding send_once
  send_once-append bytes wire n e = rw (whole n, ← e, take-length) refl

  pub get_file_size-length :
      (s : F.State) (name bytes : Bytes)
      → F.read s name ≡ some bytes
      → length bytes < 2 ^ 31
      → get_file_size F rounds s name ≡ ok (length bytes)
  unfolding get_file_size
  get_file_size-length s name bytes r h = rw (r, lt→ltb (length bytes) (2 ^ 31) h) refl

  pub send_file-append :
      (s : F.State) (name bytes wire : Bytes)
      → F.read s name ≡ some bytes
      → length bytes < 2 ^ 31
      → send_file_over_socket F rounds s name wire ≡ ok (wire ++ bytes)
  unfolding send_file_over_socket
  send_file-append s name bytes wire r h =
      rw
        (
          get_file_size-length s name bytes r h,
          r,
          whole (length bytes),
          send_rounds_whole [] bytes wire,
        )
        refl

  pub receive_file-writes :
      (s : F.State) (name ext bytes wire : Bytes)
      → IsName name
      → length ext < 200
      → length bytes < 2 ^ 31
      → receive_file_over_socket F rounds s name ext (length bytes) (bytes ++ wire)
        ≡ ok (F.write s (name ++ ext) bytes, wire)
  unfolding receive_file_over_socket
  receive_file-writes s name ext bytes wire n e h =
      rw
        (
          lt→ltb (length bytes) (2 ^ 31) h,
          whole (length bytes),
          recv_rounds_whole [] (replicate (length bytes) 0) bytes wire
              (sym (length-replicate (length bytes) 0)),
          fits name ext n e,
        )
        refl
