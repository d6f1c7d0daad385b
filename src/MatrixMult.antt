-- ===== src/MatrixMult.antt =====
-- The product of two matrices in ps7/matrix.c, in one process and split over several. The `int`
-- arithmetic is that of runs without overflow.
pub mod Rows
pub mod Workers
mod File
mod RoundTrip
mod Examples
use cse.Base.{
  ℕ, zero, suc, ◌+◌, ◌*◌, ◌/◌, ◌%◌, Option, none, some, List, [], ◌∷◌, ◌++◌, ltb, ◌==◌,
  if◌then◌else◌, length, get_elem?, set, ◌>>=◌, ◌>>◌, assert,
}
use cse.Base.Int.{ℤ, pos, ◌+ℤ◌, ◌*ℤ◌}

pub record Matrix : Type 0 where
  pub r : ℕ
  pub c : ℕ
  pub cells : List ℤ

-- `matrix_sizeof`: the header has two `int`; a failed `assert` is a fault.
unfoldable pub matrix_sizeof : (r c : ℕ) → Option ℕ
matrix_sizeof r c = assert (ltb 0 r) >> (assert (ltb 0 c) >> some (8 + r * c * 4))

-- `len` rounds of `acc += *a * *b`, with indices for the pointers.
unfoldable pub dot_loop : List ℤ → List ℤ → (len a b stride : ℕ) → ℤ → Option ℤ
dot_loop xs ys zero a b stride acc = some acc
dot_loop xs ys (suc len) a b stride acc = do
  x ← get_elem? xs a
  y ← get_elem? ys b
  dot_loop xs ys len (a + 1) (b + stride) stride (acc +ℤ x *ℤ y)

abbrev pub dot_prod : List ℤ → List ℤ → (a b len stride : ℕ) → Option ℤ
dot_prod xs ys a b len stride = dot_loop xs ys len a b stride (pos 0)

-- The writes to the cells of the result, in their order.
abbrev pub Writes : Type 0
Writes = List (ℕ × ℤ)

-- A write outside the result is a fault.
unfoldable pub run : Writes → List ℤ → Option (List ℤ)
run [] cells = some cells
run ((i, v) ∷ ws) cells = assert (ltb i (length cells)) >> run ws (set cells i v)

-- The inner loop of `matrix_mult` in row `r`, from column `c` on.
unfoldable pub mult_row : (a b res : Matrix) → (r rounds c : ℕ) → Option Writes
mult_row a b res r zero c = some []
mult_row a b res r (suc rounds) c = do
  v ← dot_prod a.cells b.cells (a.c * r) c a.c b.c
  ws ← mult_row a b res r rounds (c + 1)
  some ((r * res.c + c, v) ∷ ws)

unfoldable pub mult_rows : (a b res : Matrix) → (rounds r : ℕ) → Option Writes
mult_rows a b res zero r = some []
mult_rows a b res (suc rounds) r = do
  ws ← mult_row a b res r b.c 0
  vs ← mult_rows a b res rounds (r + 1)
  some (ws ++ vs)

-- The result is neither of the factors, so its writes can follow all reads.
unfoldable pub matrix_mult : (a b res : Matrix) → Option Matrix
matrix_mult a b res = do
  assert (a.c == b.r)
  ws ← mult_rows a b res a.r 0
  cells ← run ws res.cells
  some (record res { cells = cells })

-- The inner loop of `do_partial_mult`, with the index `resptr`.
unfoldable pub partial_row : (a b : Matrix) → (startrow r rounds c resptr : ℕ) → Option Writes
partial_row a b startrow r zero c resptr = some []
partial_row a b startrow r (suc rounds) c resptr = do
  v ← dot_prod a.cells b.cells (a.c * startrow + a.c * r) c a.c b.c
  ws ← partial_row a b startrow r rounds (c + 1) (resptr + 1)
  some ((resptr, v) ∷ ws)

unfoldable pub partial_rows : (a b : Matrix) → (startrow rounds r resptr : ℕ) → Option Writes
partial_rows a b startrow zero r resptr = some []
partial_rows a b startrow (suc rounds) r resptr = do
  ws ← partial_row a b startrow r b.c 0 resptr
  vs ← partial_rows a b startrow rounds (r + 1) (resptr + b.c)
  some (ws ++ vs)

-- The writes of one child.
unfoldable pub do_partial_mult : (a b res : Matrix) → (nrows startrow : ℕ) → Option Writes
do_partial_mult a b res nrows startrow = partial_rows a b startrow nrows 0 (startrow * res.c)

-- `worker_rows`: the first `extra` workers get a row more.
unfoldable pub worker_rows : (nworkers extra rows_each : ℕ) → List ℕ
worker_rows zero extra rows_each = []
worker_rows (suc n) zero rows_each = rows_each ∷ worker_rows n zero rows_each
worker_rows (suc n) (suc extra) rows_each = (rows_each + 1) ∷ worker_rows n extra rows_each

-- The children, in the order in which they are forked.
unfoldable pub fork_workers : (a b res : Matrix) → List ℕ → (startrow : ℕ) → Option (List Writes)
fork_workers a b res [] startrow = some []
fork_workers a b res (n ∷ rows) startrow = do
  ws ← do_partial_mult a b res n startrow
  rest ← fork_workers a b res rows (startrow + n)
  some (ws ∷ rest)

-- What the children of `matrix_mult_par` write; no worker is a division by zero.
unfoldable pub matrix_mult_par : (nworkers : ℕ) → (a b res : Matrix) → Option (List Writes)
matrix_mult_par nworkers a b res = do
  assert (a.c == b.r)
  assert (ltb 0 nworkers)
  fork_workers a b res (worker_rows nworkers (a.r % nworkers) (a.r / nworkers)) 0

-- The writes of two processes in an order that keeps the order of each.
pub data Shuffle : Writes → Writes → Writes → Type 0 where
  nil : Shuffle [] [] []
  left : {w : ℕ × ℤ} {ws vs us : Writes} → Shuffle ws vs us → Shuffle (w ∷ ws) vs (w ∷ us)
  right : {v : ℕ × ℤ} {ws vs us : Writes} → Shuffle ws vs us → Shuffle ws (v ∷ vs) (v ∷ us)

-- The same for all children.
pub data Schedule : List Writes → Writes → Type 0 where
  idle : Schedule [] []
  worker :
      {ws vs us : Writes} {rest : List Writes}
      → Shuffle ws vs us
      → Schedule rest vs
      → Schedule (ws ∷ rest) us
