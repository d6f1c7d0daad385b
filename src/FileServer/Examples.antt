-- ===== src/FileServer/Examples.antt =====
-- Runs of the definitions of ps6, with files in memory and a kernel that moves all bytes at once.
use cse.Base.{
  ◌≢◌, ℕ, ◌+◌, ◌*◌, ◌/◌, ◌%◌, ◌^◌, ◌<◌, ◌≡◌, refl, List, [], ◌∷◌, ◌++◌, Option, none, some, Bool,
  true, false, arith, ◌==◌, if◌then◌else◌, map, All, Bool-cases, inl, inr, replicate,
}
use cse.FileServer.{
  Bytes, ok, stop, waiting, Answer, moved, Network, IsLawful, c_string, send_list, glorp,
}
use cse.FileServer.Files.{FileSystem, make_file_list, file_name, receive_file_over_socket}
use cse.FileServer.Client.{got, transfer_done, dot_download}
use cse.FileServer.Server.{dot_upload}
use cse.FileServer.Wire.{IsText}
use cse.FileServer.Listing.{lines, make_file_list-lines}
use cse.FileServer.Loops.{Transfers, done, part, send_list-sends}
use cse.FileServer.Partial.{receive_file-pieces, glorp-stuck}
use cse.FileServer.Calls.{IsName}
use cse.FileServer.Spec.{Request, list, get, put, World, session, perform, perform_all, sendable}
use cse.FileServer.Session.{Named, session-perform_all}

-- A machine that has the lowest byte of a number first.
abbrev swap : ℕ → ℕ
swap w =
    w % 2 ^ 8 * 2 ^ 24
    + w / 2 ^ 8 % 2 ^ 8 * 2 ^ 16
    + w / 2 ^ 16 % 2 ^ 8 * 2 ^ 8
    + w / 2 ^ 24 % 2 ^ 8

swap-lt : (w : ℕ) → swap w < 2 ^ 32
swap-lt w = omega arith

swap-swap : (w : ℕ) → w < 2 ^ 32 → swap (swap w) ≡ w
swap-swap w h = omega arith

abbrev machine : Network
machine = record { htonl = swap; ntohl = swap }

machine-IsLawful : IsLawful machine
machine-IsLawful = record {
  htonl-lt = λ w h. swap-lt w;
  ntohl-lt = λ w h. swap-lt w;
  ntohl-htonl = swap-swap;
  ntohl-ntohl = swap-swap;
}

abbrev same : Bytes → Bytes → Bool
same [] [] = true
same [] (y ∷ ys) = false
same (x ∷ xs) [] = false
same (x ∷ xs) (y ∷ ys) = let rest = same xs ys in if x == y then rest else false

abbrev lookup : List (Bytes × Bytes) → Bytes → Option Bytes
lookup [] name = none
lookup (f ∷ files) name = let rest = lookup files name in if same f.0 name then some f.1 else rest

abbrev memory : FileSystem
memory = record {
  State = List (Bytes × Bytes);
  names = map (λ f. c_string f.0);
  read = lookup;
  write = λ files name bytes. (name, bytes) ∷ files;
}

c_string-IsText : (bytes : Bytes) → IsText (c_string bytes)
unfolding c_string
c_string-IsText [] = tt
c_string-IsText (c ∷ cs) = elim (Bool-cases (c == 0)) [
  | inl e ↦ rw e tt
  | inr e ↦ rw e (ground arith, c_string-IsText cs)
]

memory-named : (files : List (Bytes × Bytes)) → All IsText (map (λ f. c_string f.0) files)
memory-named [] = tt
memory-named (f ∷ files) = (c_string-IsText f.0, memory-named files)

abbrev at_once : ℕ → List Answer
at_once n = moved n ∷ []

abbrev a_name : Bytes
a_name = b'a' ∷ []

abbrev b_name : Bytes
b_name = b'b' ∷ []

abbrev a_text : Bytes
a_text = b'h' ∷ b'i' ∷ []

abbrev b_text : Bytes
b_text = b'y' ∷ b'o' ∷ 0 ∷ []

abbrev requests : List Request
requests = put a_name ∷ list ∷ get b_name ∷ put b_name ∷ []

-- The client has two files, the server one.
abbrev mine : List (Bytes × Bytes)
mine = (a_name, a_text) ∷ (b_name, a_text) ∷ []

abbrev theirs : List (Bytes × Bytes)
theirs = (b_name, b_text) ∷ []

abbrev saved : List (Bytes × Bytes)
saved = (a_name ++ dot_upload, a_text) ∷ theirs

abbrev outcome : World memory
outcome = record {
  mine = (b_name ++ dot_download, b_text) ∷ mine;
  theirs = (b_name ++ dot_upload, a_text) ∷ saved;
  out =
      transfer_done
      ∷ got (lines (map (λ f. c_string f.0) saved))
      ∷ transfer_done
      ∷ transfer_done
      ∷ [];
}

a_name-IsName : IsName a_name
a_name-IsName = record { text = (ground arith, tt); short = omega arith }

b_name-IsName : IsName b_name
b_name-IsName = record { text = (ground arith, tt); short = omega arith }

requests-Named : All Named requests
requests-Named = (a_name-IsName, (tt, (b_name-IsName, (b_name-IsName, tt))))

performed :
    perform_all memory requests (record { mine = mine; theirs = theirs; out = [] }) ≡ ok outcome
unfolding perform_all perform sendable lines c_string
performed = refl

session-perform_all_example :
    session machine memory at_once requests mine theirs ≡ ok (true, outcome)
session-perform_all_example =
    session-perform_all machine machine-IsLawful memory at_once (λ n. refl) memory-named requests
      mine theirs requests-Named performed

make_file_list-lines_example :
    make_file_list (a_name ∷ b_name ∷ []) ≡ ok (lines (a_name ∷ b_name ∷ []))
make_file_list-lines_example = make_file_list-lines (a_name ∷ b_name ∷ [])

-- Three bytes in two pieces.
pieces : Transfers (moved 1 ∷ moved 2 ∷ []) 3
pieces = part 0 (part 1 done)

send_list-sends_example : send_list (moved 1 ∷ moved 2 ∷ []) b_text 3 0 [] ≡ ok ([] ++ b_text)
send_list-sends_example = send_list-sends b_text [] pieces

-- "hi!" in two pieces, saved under the name of a download
in_two : ℕ → List Answer
in_two n = moved 2 ∷ moved 1 ∷ []

a_download : file_name a_name dot_download ≡ ok (a_name ++ dot_download)
unfolding file_name
a_download = refl

in_two_pieces : in_two 3 ≡ moved 2 ∷ moved 1 ∷ []
unfolding in_two
in_two_pieces = refl

receive_file-pieces_example :
    (receive_file_over_socket memory in_two theirs a_name dot_download 3
        (a_text ++ ((b'!' ∷ []) ++ []))
      ≡ ok ((a_name ++ dot_download, b'!' ∷ b'i' ∷ 0 ∷ []) ∷ theirs, []))
    × ((b'!' ∷ b'i' ∷ 0 ∷ []) ≢ a_text ++ b'!' ∷ [])
receive_file-pieces_example =
    receive_file-pieces memory in_two theirs a_name dot_download (a_name ++ dot_download) [] [] b'h'
      b'!' (b'i' ∷ []) [] (omega arith) (omega arith) a_download in_two_pieces

glorp-stuck_example : glorp (moved 1 ∷ replicate 4 (moved 3)) b_text 0 [] ≡ stop waiting
glorp-stuck_example =
    glorp-stuck b_text [] 1 3 (omega arith) (omega arith) (omega arith) (omega arith)
