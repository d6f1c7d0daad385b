-- ===== src/MatrixMult/File.antt =====
-- matrix_from_file and matrix_print of ps7/matrix.c. `strtol` and the conversion of `printf` are
-- parameters; the values are those that fit in an `int`.
use cse.Base.{
  ℕ, zero, suc, ◌+◌, ◌-◌, ◌*◌, ◌^◌, ◌<◌, ◌≡◌, ◌⊎◌, not, Option, some, List, [], ◌∷◌, ◌++◌, ◌==◌,
  length, get_elem?, ◌>>=◌, ◌>>◌, assert, All,
}
use cse.Base.Int.{ℤ, pos, negsuc}
use cse.MatrixMult.{Matrix, matrix_sizeof}

abbrev pub Bytes : Type 0
Bytes = List ℕ

abbrev pub space : ℕ
space = 32

abbrev pub newline : ℕ
newline = 10

-- `strtol(start, &end, 0)`: the number and what stands behind it, which is `start` where there is no
-- number. `printf("%d", x)`: the text of a number.
pub record Numerals : Type 0 where
  pub strtol : Bytes → ℤ × Bytes
  pub show : ℤ → Bytes

abbrev pub IsBlank : ℕ → Type 0
IsBlank c = (c ≡ space) ⊎ (c ≡ newline)

abbrev pub IsInt : ℤ → Type 0
IsInt (pos n) = n < 2 ^ 31
IsInt (negsuc n) = n < 2 ^ 31

-- The text of an `int` is read back, with blanks before it and a blank behind it.
pub record IsReadable (P : Numerals) : Type 0 where
  pub strtol-show :
      (lead : Bytes) (x : ℤ) (c : ℕ) (text : Bytes)
      → All IsBlank lead
      → IsInt x
      → IsBlank c
      → P.strtol (lead ++ (P.show x ++ c ∷ text)) ≡ (x, c ∷ text)
  pub show_some : (x : ℤ) → 0 < length (P.show x)

-- A number of rows or columns; `matrix_make` fails for those that are not above 0.
abbrev pub count_of : ℤ → ℕ
count_of (pos n) = n
count_of (negsuc n) = 0

module _ (P : Numerals) where
  -- `strtol` and `assert(start != end)`
  unfoldable pub read_number : Bytes → Option (ℤ × Bytes)
  read_number start =
      let (v, end) = P.strtol start in assert (not (length end == length start)) >> some (v, end)

  -- The loop over the cells, and the function.
  unfoldable pub read_cells : (rounds : ℕ) → Bytes → Option (List ℤ)
  read_cells zero start = some []
  read_cells (suc rounds) start = do
    (v, start) ← read_number start
    vs ← read_cells rounds start
    some (v ∷ vs)

  unfoldable pub matrix_from_file : Bytes → Option Matrix
  matrix_from_file fmap = do
    (rows, end) ← read_number fmap
    (cols, start) ← read_number end
    _ ← matrix_sizeof (count_of rows) (count_of cols)
    cells ← read_cells (count_of rows * count_of cols) start
    some (record { r = count_of rows; c = count_of cols; cells = cells })

  -- The inner loop of matrix_print with `rounds` columns before the last, from index `i` on, and the
  -- loop over the rows.
  unfoldable pub print_row : List ℤ → (rounds i : ℕ) → Option Bytes
  print_row cells zero i = do x ← get_elem? cells i; some (P.show x ++ newline ∷ [])
  print_row cells (suc rounds) i = do
    x ← get_elem? cells i
    rest ← print_row cells rounds (i + 1)
    some (P.show x ++ space ∷ rest)

  unfoldable pub print_rows : Matrix → (rounds r : ℕ) → Option Bytes
  print_rows m zero r = some []
  print_rows m (suc rounds) r = do
    row ← print_row m.cells (m.c - 1) (r * m.c)
    rest ← print_rows m rounds (r + 1)
    some (row ++ rest)

  abbrev pub matrix_print : Matrix → Option Bytes
  matrix_print m = print_rows m m.r 0
