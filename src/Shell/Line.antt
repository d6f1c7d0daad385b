-- ===== src/Shell/Line.antt =====
-- The start of makeCommand in ps5/shellp.c: reading a line into `buffer[1024]` and trimming it.
use cse.Base.{
  ℕ, zero, suc, ◌≤◌, ◌<◌, ◌≡◌, refl, ap, Bool, true, false, Option, none, some, List, [], ◌∷◌, ◌++◌,
  arith, ltb, ◌==◌, if◌then◌else◌, length, All, ◌>>◌, assert, lt→ltb,
}
use cse.Shell.Chars.{is_space}

abbrev pub buffer_size : ℕ
buffer_size = 1024

-- What `getchar` gives: characters, then the end of the file.
abbrev pub Input : Type 0
Input = List ℕ

pub record Line : Type 0 where
  pub text : List ℕ
  pub rest : Input
  pub at_eof : Bool

-- `while (i < sizeof(buffer) && (ch = getchar()) != '\n' && ch != EOF) buffer[i++] = ch;`, with the
-- room that is left. `ch` is not read again when the buffer is full.
unfoldable pub read_chars : (room : ℕ) → Input → Line
read_chars zero input = record { text = []; rest = input; at_eof = false }
read_chars (suc room) [] = record { text = []; rest = []; at_eof = true }
read_chars (suc room) (ch ∷ input) =
    let more = read_chars room input in
    if ch == 10
    then record { text = []; rest = input; at_eof = false }
    else record more { text = ch ∷ more.text }

-- `buffer[i] = 0;` behind the characters read: a fault outside the buffer.
unfoldable pub read_line : Input → Option Line
unfolding read_chars
read_line input =
    let l = read_chars buffer_size input in assert (ltb (length l.text) buffer_size) >> some l

-- `trimString`, and the same loop in makeCommand: blanks at the end go.
unfoldable pub trim_string : List ℕ → List ℕ
trim_string [] = []
trim_string (c ∷ s) =
    let s' = trim_string s in elim s' [ [] ↦ if is_space c then [] else c ∷ [] | d ∷ t ↦ c ∷ d ∷ t ]

-- No character of a text ends the line.
abbrev pub NoNewline : List ℕ → Type 0
NoNewline text = All (λ c. (c == 10) ≡ false) text

read_chars-line :
    (room : ℕ) (text : List ℕ) (rest : Input)
    → NoNewline text
    → length text < room
    → read_chars room (text ++ 10 ∷ rest) ≡ record { text = text; rest = rest; at_eof = false }
unfolding read_chars
read_chars-line zero text rest n h = absurd (omega arith)
read_chars-line (suc room) [] rest n h = refl
read_chars-line (suc room) (c ∷ text) rest n h =
    rw (n.0, read_chars-line room text rest n.1 (omega arith))

read_chars-full :
    (room : ℕ) (text : List ℕ) (rest : Input)
    → NoNewline text
    → room ≤ length text
    → length (read_chars room (text ++ rest)).text ≡ room
unfolding read_chars
read_chars-full zero text rest n h = refl
read_chars-full (suc room) [] rest n h = elim h [ ]
read_chars-full (suc room) (c ∷ text) rest n h =
    rw n.0 (ap suc (read_chars-full room text rest n.1 (omega arith)))

-- A line of fewer than 1024 characters is read as it stands, up to its newline.
pub read_line-line :
    (text : List ℕ) (rest : Input)
    → NoNewline text
    → length text < 1024
    → read_line (text ++ 10 ∷ rest) ≡ some (record { text = text; rest = rest; at_eof = false })
unfolding read_line
read_line-line text rest n h = rw (read_chars-line 1024 text rest n h, lt→ltb (length text) 1024 h)

-- A line of 1024 characters or more makes makeCommand write its NUL behind the buffer.
pub read_line-overflow :
    (text : List ℕ) (rest : Input)
    → NoNewline text
    → 1024 ≤ length text
    → read_line (text ++ rest) ≡ none
unfolding read_line
read_line-overflow text rest n h = rw (read_chars-full 1024 text rest n h)
