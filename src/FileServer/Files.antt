-- ===== src/FileServer/Files.antt =====
-- ps6/command.c: the list of the files of a directory, and whole files over the socket. The file
-- system and the kernel's answers are parameters.
use cse.Base.{ℕ, ◌+◌, ◌^◌, List, [], ◌∷◌, ◌++◌, Option, none, some, ltb, length, replicate}
use cse.FileServer.{
  Bytes, Result, ok, stop, faulted, guard, ◌>>=◌, ◌>>◌, Answer, send_rounds, recv_rounds,
}

-- A directory with its files: the names that readdir gives, fopen with fread, and fwrite.
pub record FileSystem : Type 1 where
  pub State : Type 0
  pub names : State → List Bytes
  pub read : State → Bytes → Option Bytes
  pub write : State → Bytes → Bytes → State

abbrev pub newline : ℕ
newline = 10

-- The first loop of makeFileList, then the second, which `strcat`s to a text of `cap` bytes.
unfoldable pub count_bytes : List Bytes → (ttl : ℕ) → ℕ
count_bytes [] ttl = ttl
count_bytes (name ∷ names) ttl = count_bytes names (ttl + (length name + 1))

unfoldable pub concat_names : List Bytes → (cap : ℕ) → (txt : Bytes) → Result Bytes
concat_names [] cap txt = ok txt
concat_names (name ∷ names) cap txt = do
  let txt = txt ++ (name ++ newline ∷ [])
  guard (ltb (length txt) cap) faulted
  concat_names names cap txt

unfoldable pub make_file_list : List Bytes → Result Bytes
make_file_list names = concat_names names (count_bytes names 0 + 10) []

-- `strcpy(fn, fname); strcat(fn, ext)` in `char fn[512]`.
unfoldable pub file_name : (fname ext : Bytes) → Result Bytes
file_name fname ext = do guard (ltb (length (fname ++ ext)) 512) faulted; ok (fname ++ ext)

-- `fopen` of a file that is not there gives NULL, which `fseek` and `fread` take as a file.
abbrev pub opened : Option Bytes → Result Bytes
opened none = stop faulted
opened (some bytes) = ok bytes

module _ (F : FileSystem) (rounds : ℕ → List Answer) where
  -- `(int)sz`
  unfoldable pub get_file_size : F.State → Bytes → Result ℕ
  get_file_size s name = do
    bytes ← opened (F.read s name)
    guard (ltb (length bytes) (2 ^ 31)) faulted
    ok (length bytes)

  unfoldable pub send_file_over_socket : F.State → (name wire : Bytes) → Result Bytes
  send_file_over_socket s name wire = do
    size ← get_file_size s name
    bytes ← opened (F.read s name)
    send_rounds (rounds size) bytes 0 wire

  -- A size of 2 ^ 31 and more is a negative `int`.
  unfoldable pub receive_file_over_socket :
      F.State → (fname ext : Bytes) → (size : ℕ) → (wire : Bytes) → Result (F.State × Bytes)
  receive_file_over_socket s fname ext size wire = do
    guard (ltb size (2 ^ 31)) faulted
    (buf, wire) ← recv_rounds (rounds size) (replicate size 0) size 0 wire
    fn ← file_name fname ext
    ok (F.write s fn buf, wire)
