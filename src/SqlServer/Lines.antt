-- ===== src/SqlServer/Lines.antt =====
-- What the client of mt2/Q2client.c reads from its input and prints of an answer.
use cse.Base.{
  ℕ, suc, ◌+◌, ◌-◌, ◌*◌, ◌≤◌, ◌≡◌, ◌≢◌, refl, true, false, some, [], ◌∷◌, ◌++◌, arith, ltb, ◌==◌,
  if◌then◌else◌, All,
}
use cse.SqlServer.{Bytes, newline, eof_char, read_from, read_string}

-- The characters of a line.
abbrev pub Plain : ℕ → Type 0
Plain c = (c ≢ newline) × (c ≢ eof_char)

read_from-line :
    (i l : ℕ) (text rest : Bytes)
    → i + 2 ≤ l
    → All Plain text
    → read_from i l (text ++ newline ∷ rest) ≡ some (some (text ++ newline ∷ []), rest)
unfolding read_from
read_from-line i l [] rest h p = let room : ltb (suc i) l ≡ true = ground arith in rw room refl
read_from-line i l (c ∷ text) rest h p =
    rw
      (
        different c newline p.0.0,
        different c eof_char p.0.1,
        written i l h,
        read_from-line (suc i) _ text rest (grows i l h) p.1,
      )
      refl
  where
    different : (c d : ℕ) → c ≢ d → (c == d) ≡ false
    different c d h = ground arith

    written : (i l : ℕ) → i + 2 ≤ l → ltb i (if i == l - 2 then l * 2 else l) ≡ true
    written i l h = ground arith

    grows : (i l : ℕ) → i + 2 ≤ l → suc i + 2 ≤ (if i == l - 2 then l * 2 else l)
    grows i l h = ground arith

-- readString returns a line of any length, without the character that looks like the end of the
-- input, with its newline, and never writes outside its memory.
pub read_string-line :
    (text rest : Bytes)
    → All Plain text
    → read_string (text ++ newline ∷ rest) ≡ some (some (text ++ newline ∷ []), rest)
read_string-line text rest h = read_from-line 0 2 text rest (omega arith) h
