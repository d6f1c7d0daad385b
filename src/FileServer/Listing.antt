-- ===== src/FileServer/Listing.antt =====
-- makeFileList of ps6/command.c: the text, and that it fits in the buffer of the first loop.
use cse.Base.{
  ℕ, ◌+◌, ◌<◌, ◌≡◌, sym, ap, ◌∙◌, List, [], ◌∷◌, ◌++◌, arith, true, ltb, length, All, length-append,
  append_assoc, lt→ltb, append-nil, All-append,
}
use cse.FileServer.{Bytes, ok}
use cse.FileServer.Files.{newline, count_bytes, concat_names, make_file_list}
use cse.FileServer.Wire.{IsText}

-- The names, each with a newline behind it.
unfoldable pub lines : List Bytes → Bytes
lines [] = []
lines (name ∷ names) = (name ++ newline ∷ []) ++ lines names

count_bytes-lines :
    (names : List Bytes) (ttl : ℕ) → count_bytes names ttl ≡ ttl + length (lines names)
unfolding count_bytes lines
count_bytes-lines [] ttl = omega arith
count_bytes-lines (name ∷ names) ttl = omega (
  arith,
  count_bytes-lines names (ttl + (length name + 1)),
  length-append (name ++ newline ∷ []) (lines names),
  length-append name (newline ∷ []),
)

concat_names-lines :
    (names : List Bytes) (room : ℕ) (txt : Bytes)
    → length txt + length (lines names) < room
    → concat_names names room txt ≡ ok (txt ++ lines names)
unfolding concat_names lines
concat_names-lines [] room txt h = ap ok (sym (append-nil txt))
concat_names-lines (name ∷ names) room txt h =
    let line = name ++ newline ∷ [] in
    let longer = length-append line (lines names) in
    let written = length-append txt line in
    let fits : ltb (length (txt ++ line)) room ≡ true =
      lt→ltb _ _ (omega (arith, longer, written)) in
    rw fits (
      concat_names-lines names room (txt ++ line) (omega (arith, longer, written))
      ∙ ap ok (append_assoc txt line (lines names)))

-- Whatever names a directory has, the buffer of makeFileList is large enough, and the text is the
-- names with a newline behind each.
pub make_file_list-lines : (names : List Bytes) → make_file_list names ≡ ok (lines names)
unfolding make_file_list
make_file_list-lines names =
    concat_names-lines names _ [] (omega (arith, count_bytes-lines names 0))

pub lines-IsText : (names : List Bytes) → All IsText names → IsText (lines names)
unfolding lines
lines-IsText [] h = tt
lines-IsText (name ∷ names) h =
    All-append _ (name ++ newline ∷ []) (lines names)
      (All-append _ name (newline ∷ []) h.0 (omega arith, tt)) (lines-IsText names h.1)
