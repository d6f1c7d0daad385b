-- ===== src/MatrixMult/Rows.antt =====
-- What matrix_mult and do_partial_mult of ps7/matrix.c write, as lists of writes.
use cse.Base.{
  ℕ, zero, suc, ◌+◌, ◌*◌, ◌/◌, ◌%◌, All, All-append, subst, ◌≤◌, ◌<◌, ◌≡◌, refl, ap, sym, ap₂, ◌∙◌,
  some, List, [], ◌∷◌, ◌++◌, append_assoc, arith, length, get_elem?, get_or,
}
use native.Mathlib.Nat.{mul-add-div_right, mul-add-mod_self_right, div-eq_of_lt, mod-eq_of_lt}
use cse.Base.Int.{ℤ, pos, ◌+ℤ◌, ◌*ℤ◌}
use cse.MatrixMult.{
  Matrix, dot_loop, dot_prod, Writes, mult_row, mult_rows, partial_row, partial_rows,
  do_partial_mult,
}

-- A matrix has all its cells.
abbrev pub IsMatrix : Matrix → Type 0
IsMatrix m = length m.cells ≡ m.r * m.c

dot_from : List ℤ → List ℤ → (len a b stride : ℕ) → ℤ → ℤ
dot_from xs ys zero a b stride acc = acc
dot_from xs ys (suc len) a b stride acc =
    dot_from xs ys len (a + 1) (b + stride) stride
      (acc +ℤ get_or xs a (pos 0) *ℤ get_or ys b (pos 0))

-- The number in row `i` and column `j` of the product.
unfoldable pub entry : Matrix → Matrix → (i j : ℕ) → ℤ
unfolding dot_from
entry a b i j = dot_from a.cells b.cells a.c (a.c * i) j b.c (pos 0)

get_elem?-get_or :
    (xs : List ℤ) (i : ℕ) → i < length xs → get_elem? xs i ≡ some (get_or xs i (pos 0))
get_elem?-get_or [] i h = elim h [ ]
get_elem?-get_or (x ∷ xs) zero h = refl
get_elem?-get_or (x ∷ xs) (suc i) h = get_elem?-get_or xs i (omega arith)

stride_step : (b k stride : ℕ) → b + stride + k * stride ≡ b + (k + 1) * stride
stride_step b k stride = grind arith

dot_loop-some :
    (xs ys : List ℤ) (len a b stride : ℕ) (acc : ℤ)
    → a + len ≤ length xs
    → ((k : ℕ) → k < len → b + k * stride < length ys)
    → dot_loop xs ys len a b stride acc ≡ some (dot_from xs ys len a b stride acc)
unfolding dot_loop dot_from
dot_loop-some xs ys zero a b stride acc inside column = refl
dot_loop-some xs ys (suc len) a b stride acc inside column =
    rw
      (
        get_elem?-get_or xs a (omega arith),
        get_elem?-get_or ys b (omega (arith, column 0 (omega arith))),
      )
      (dot_loop-some xs ys len (a + 1) (b + stride) stride _ (omega arith)
        (λ k h. omega (arith, column (k + 1) (omega arith), stride_step b k stride)))

cell_inside : (rows cols i j : ℕ) → i < rows → j < cols → j + i * cols < rows * cols
cell_inside rows cols i j h k = grind arith

row_inside : (rows cols i : ℕ) → i < rows → cols * i + cols ≤ rows * cols
row_inside rows cols i h = grind arith

pub dot_prod-entry :
    (a b : Matrix) (i j : ℕ)
    → IsMatrix a
    → IsMatrix b
    → a.c ≡ b.r
    → i < a.r
    → j < b.c
    → dot_prod a.cells b.cells (a.c * i) j a.c b.c ≡ some (entry a b i j)
unfolding entry
dot_prod-entry a b i j whole_a whole_b fit row column =
    dot_loop-some a.cells b.cells a.c (a.c * i) j b.c (pos 0)
      (omega (arith, row_inside a.r a.c i row, whole_a))
      (λ k h. omega (arith, cell_inside b.r b.c k j (omega arith) column, whole_b))

-- The writes of one row from a cell and a column on, and of whole rows.
unfoldable pub row_writes : Matrix → Matrix → (i rounds j cell : ℕ) → Writes
row_writes a b i zero j cell = []
row_writes a b i (suc rounds) j cell =
    (cell, entry a b i j) ∷ row_writes a b i rounds (j + 1) (cell + 1)

unfoldable pub rows_writes : Matrix → Matrix → (rounds i : ℕ) → Writes
unfolding row_writes
rows_writes a b zero i = []
rows_writes a b (suc rounds) i = row_writes a b i b.c 0 (i * b.c) ++ rows_writes a b rounds (i + 1)

mul_add : (k m n : ℕ) → k * m + k * n ≡ k * (m + n)
mul_add k m n = grind arith

pub rows_writes-add :
    (a b : Matrix) (m n i : ℕ)
    → rows_writes a b (m + n) i ≡ rows_writes a b m i ++ rows_writes a b n (i + m)
unfolding rows_writes
rows_writes-add a b zero n i = ap₂ (rows_writes a b) (omega arith) (omega arith)
rows_writes-add a b (suc m) n i =
    rw (suc_add m n, rows_writes-add a b m n (i + 1), shift i m)
      (sym (
        append_assoc (row_writes a b i b.c 0 (i * b.c)) (rows_writes a b m (i + 1))
          (rows_writes a b n (i + suc m))))
  where
    suc_add : (m n : ℕ) → suc m + n ≡ suc (m + n)
    suc_add m n = omega arith

    shift : (i m : ℕ) → i + 1 + m ≡ i + suc m
    shift i m = omega arith

module _ (a b : Matrix) (whole_a : IsMatrix a) (whole_b : IsMatrix b) (fit : a.c ≡ b.r) where
  mult_row-some :
      (res : Matrix) (i rounds j : ℕ)
      → i < a.r
      → j + rounds ≤ b.c
      → mult_row a b res i rounds j ≡ some (row_writes a b i rounds j (i * res.c + j))
  unfolding mult_row row_writes
  mult_row-some res i zero j row h = refl
  mult_row-some res i (suc rounds) j row h =
      rw
        (
          dot_prod-entry a b i j whole_a whole_b fit row (omega arith),
          mult_row-some res i rounds (j + 1) row (omega arith),
        )
        (ap (λ k. some ((i * res.c + j, entry a b i j) ∷ row_writes a b i rounds (j + 1) k))
          (omega arith))

  partial_row-some :
      (startrow i rounds j cell : ℕ)
      → startrow + i < a.r
      → j + rounds ≤ b.c
      → partial_row a b startrow i rounds j cell
        ≡ some (row_writes a b (startrow + i) rounds j cell)
  unfolding partial_row row_writes
  partial_row-some startrow i zero j cell row h = refl
  partial_row-some startrow i (suc rounds) j cell row h =
      rw
        (
          mul_add a.c startrow i,
          dot_prod-entry a b (startrow + i) j whole_a whole_b fit row (omega arith),
          partial_row-some startrow i rounds (j + 1) (cell + 1) row (omega arith),
        )
        refl

  pub mult_rows-some :
      (res : Matrix) (rounds i : ℕ)
      → res.c ≡ b.c
      → i + rounds ≤ a.r
      → mult_rows a b res rounds i ≡ some (rows_writes a b rounds i)
  unfolding mult_rows rows_writes
  mult_rows-some res zero i wide h = refl
  mult_rows-some res (suc rounds) i wide h =
      rw
        (
          mult_row-some res i b.c 0 (omega arith) (omega arith),
          mult_rows-some res rounds (i + 1) wide (omega arith),
        )
        (ap (λ k. some (row_writes a b i b.c 0 k ++ rows_writes a b rounds (i + 1)))
          (ap (λ k. i * k + 0) wide ∙ omega arith))

  partial_rows-some :
      (startrow rounds i : ℕ)
      → startrow + i + rounds ≤ a.r
      → partial_rows a b startrow rounds i ((startrow + i) * b.c)
        ≡ some (rows_writes a b rounds (startrow + i))
  unfolding partial_rows rows_writes
  partial_rows-some startrow zero i h = refl
  partial_rows-some startrow (suc rounds) i h =
      rw
        (
          partial_row-some startrow i b.c 0 ((startrow + i) * b.c) (omega arith) (omega arith),
          next_row (startrow + i) b.c,
          add_one startrow i,
          partial_rows-some startrow rounds (i + 1) (omega arith),
        )
        refl
    where
      next_row : (k n : ℕ) → k * n + n ≡ (k + 1) * n
      next_row k n = grind arith

      add_one : (k n : ℕ) → k + n + 1 ≡ k + (n + 1)
      add_one k n = omega arith

  pub do_partial_mult-some :
      (res : Matrix) (nrows startrow : ℕ)
      → res.c ≡ b.c
      → startrow + nrows ≤ a.r
      → do_partial_mult a b res nrows startrow ≡ some (rows_writes a b nrows startrow)
  unfolding do_partial_mult
  do_partial_mult-some res nrows startrow wide h =
      ap (partial_rows a b startrow nrows 0)
        (ap (λ k. startrow * k) wide ∙ ap (λ k. k * b.c) (omega arith))
      ∙ partial_rows-some startrow nrows 0 (omega arith)
      ∙ ap (λ k. some (rows_writes a b nrows k)) (omega arith)

-- Every write is inside the result and gives its cell the number of its row and column.
abbrev pub Right : Matrix → Matrix → ℕ × ℤ → Type 0
Right a b (cell, v) = (cell < a.r * b.c) × (v ≡ entry a b (cell / b.c) (cell % b.c))

row_writes-Right :
    (a b : Matrix) (i rounds j : ℕ)
    → i < a.r
    → j + rounds ≤ b.c
    → All (Right a b) (row_writes a b i rounds j (i * b.c + j))
unfolding row_writes
row_writes-Right a b i zero j row h = tt
row_writes-Right a b i (suc rounds) j row h =
    let inside : j < b.c = omega arith in
    let some_column : 0 < b.c = omega arith in
    (
      (
        omega (arith, cell_inside a.r b.c i j row inside),
        ap₂ (entry a b)
            (sym (
              mul-add-div_right some_column i j
              ∙ ap (λ k. i + k) (div-eq_of_lt inside)
              ∙ omega arith))
            (sym (mul-add-mod_self_right i b.c j ∙ mod-eq_of_lt inside)),
      ),
      subst (λ k. All (Right a b) (row_writes a b i rounds (j + 1) k)) (omega arith)
          (row_writes-Right a b i rounds (j + 1) row (omega arith)),
    )

pub rows_writes-Right :
    (a b : Matrix) (rounds i : ℕ) → i + rounds ≤ a.r → All (Right a b) (rows_writes a b rounds i)
unfolding rows_writes
rows_writes-Right a b zero i h = tt
rows_writes-Right a b (suc rounds) i h =
    All-append (Right a b) (row_writes a b i b.c 0 (i * b.c)) (rows_writes a b rounds (i + 1))
      (subst (λ k. All (Right a b) (row_writes a b i b.c 0 k)) (omega arith)
        (row_writes-Right a b i b.c 0 (omega arith) (omega arith)))
      (rows_writes-Right a b rounds (i + 1) (omega arith))
