-- ===== src/MatrixDet.antt =====
-- The determinant of final/matrix.c, by minors in one thread and with the columns split over several.
-- The `int` arithmetic is that of runs without overflow.
pub mod Total
pub mod Expansion
pub mod Split
mod Examples
use cse.Base.{
  ℕ, zero, suc, ◌+◌, ◌-◌, ◌*◌, ◌/◌, ◌%◌, Option, none, some, List, [], ◌∷◌, ◌++◌, leb, ltb, ◌==◌,
  if◌then◌else◌, length, get_elem?, take, drop, ◌>>=◌, ◌>>◌, assert,
}
use cse.Base.Int.{ℤ, pos, negsuc, ◌+ℤ◌, ◌-ℤ◌, ◌*ℤ◌}

pub record Matrix : Type 0 where
  pub r : ℕ
  pub c : ℕ
  pub cells : List ℤ

-- `memcpy` of `n` numbers from an index on; a read outside the matrix is a fault.
unfoldable pub copy : List ℤ → (src n : ℕ) → Option (List ℤ)
copy cells src n = assert (leb (src + n) (length cells)) >> some (take n (drop src cells))

-- The rounds of `make_submatrix` from a row on: each leaves out the column `excl`.
unfoldable pub sub_rows : Matrix → (excl rounds row : ℕ) → Option (List ℤ)
sub_rows m excl zero row = some []
sub_rows m excl (suc rounds) row = do
  before ← copy m.cells (row * m.c) excl
  behind ← copy m.cells (row * m.c + excl + 1) (m.c - excl - 1)
  rest ← sub_rows m excl rounds (row + 1)
  some ((before ++ behind) ++ rest)

unfoldable pub make_submatrix : Matrix → (excl : ℕ) → Option Matrix
make_submatrix m excl = do
  assert (m.r == m.c)
  cells ← sub_rows m excl (m.r - 1) 1
  some (record { r = m.r - 1; c = m.c - 1; cells = cells })

abbrev pub sign : ℕ → ℤ
sign col = if col % 2 == 0 then pos 1 else negsuc 0

-- `sign * m->data[col] * detMatrix(sub)`
unfoldable pub det_term : (Matrix → Option ℤ) → Matrix → (col : ℕ) → Option ℤ
det_term det m col = do
  sub ← make_submatrix m col
  x ← get_elem? m.cells col
  d ← det sub
  some (sign col *ℤ x *ℤ d)

-- `total +=` that, for the columns from `col` on.
unfoldable pub det_loop : (Matrix → Option ℤ) → Matrix → (rounds col : ℕ) → ℤ → Option ℤ
det_loop det m zero col total = some total
det_loop det m (suc rounds) col total = do
  t ← det_term det m col
  det_loop det m rounds (col + 1) (total +ℤ t)

-- The recursion goes one row down each time; the fuel is more than the rows.
unfoldable pub det_from : ℕ → Matrix → Option ℤ
det_from zero m = none
det_from (suc fuel) m =
    let one = get_elem? m.cells 0 in
    let two = (do
      p0 ← get_elem? m.cells 0
      p3 ← get_elem? m.cells 3
      p1 ← get_elem? m.cells 1
      p2 ← get_elem? m.cells 2
      some (p0 *ℤ p3 -ℤ p1 *ℤ p2)) in
    let larger = det_loop (det_from fuel) m m.c 0 (pos 0) in
    assert (m.c == m.r)
    >> (if m.c == 0
        then some (pos 1)
        else (if m.c == 1 then one else (if m.c == 2 then two else larger)))

unfoldable pub det_matrix : Matrix → Option ℤ
det_matrix m = det_from (m.c + 1) m

-- One worker: `nterms` columns from `start` on.
unfoldable pub matrix_det_thread : Matrix → (start nterms : ℕ) → Option ℤ
matrix_det_thread m start nterms = det_loop det_matrix m nterms start (pos 0)

-- The workers but the first one, each behind the last, and the sum of what they return.
unfoldable pub join_workers : Matrix → (workers start nterms : ℕ) → ℤ → Option ℤ
join_workers m zero start nterms retval = some retval
join_workers m (suc workers) start nterms retval = do
  result ← matrix_det_thread m start nterms
  join_workers m workers (start + nterms) nterms (retval +ℤ result)

-- No worker is a division by zero.
unfoldable pub det_matrix_par : Matrix → (nbw : ℕ) → Option ℤ
det_matrix_par m nbw = do
  assert (m.c == m.r)
  assert (ltb 0 nbw)
  first ← matrix_det_thread m 0 (m.c / nbw + m.c % nbw)
  join_workers m (nbw - 1) (m.c / nbw + m.c % nbw) (m.c / nbw) (pos 0 +ℤ first)
