-- ===== src/MatrixMult/RoundTrip.antt =====
-- matrix_print and matrix_from_file of ps7/matrix.c: what is printed is read back.
use cse.Base.{
  ℕ, zero, suc, ◌+◌, ◌-◌, ◌*◌, ◌^◌, ◌≤◌, ◌<◌, ◌≡◌, inl, inr, refl, sym, ap, ap₂, ◌∙◌, subst, false,
  some, List, [], ◌∷◌, ◌++◌, append_assoc, arith, lt→ltb, ◌==◌, length, get_elem?, take, drop,
  length-append, take-length, Gives, gives, Gives-bind, Gives-mono, All,
}
use cse.Base.Int.{ℤ, pos}
use cse.MatrixMult.{Matrix, matrix_sizeof}
use cse.MatrixMult.File.{
  Bytes, space, newline, Numerals, IsBlank, IsInt, IsReadable, read_number, read_cells,
  matrix_from_file, print_row, print_rows, matrix_print,
}

next :
    (cells : List ℤ) (i : ℕ)
    → All IsInt cells
    → i < length cells
    → (x : ℤ) × (get_elem? cells i ≡ some x)
      × ((k : ℕ) → take (suc k) (drop i cells) ≡ x ∷ take k (drop (i + 1) cells))
      × IsInt x
next [] i ints h = elim h [ ]
next (x ∷ cells) zero ints h = (x, refl, (λ k. refl), ints.0)
next (x ∷ cells) (suc i) ints h =
    let (y, e, f, int) = next cells i ints.1 (omega arith) in
    let later : suc (i + 1) ≡ suc i + 1 = omega arith in
    (y, e, (λ k. f k ∙ ap (λ j. y ∷ take k (drop j (x ∷ cells))) later), int)

add_zero : (k : ℕ) → k ≡ 0 + k
add_zero k = omega arith

take_nil : (k : ℕ) → take {A = ℤ} k [] ≡ []
take_nil zero = refl
take_nil (suc k) = refl

drop_nil : (k : ℕ) → drop {A = ℤ} k [] ≡ []
drop_nil zero = refl
drop_nil (suc k) = refl

take-add : (m n : ℕ) (xs : List ℤ) → take (m + n) xs ≡ take m xs ++ take n (drop m xs)
take-add zero n xs = ap (λ k. take k xs) (omega arith)
take-add (suc m) n [] = take_nil (suc m + n) ∙ sym (take_nil n)
take-add (suc m) n (x ∷ xs) =
    let more : suc m + n ≡ suc (m + n) = omega arith in
    ap (λ k. take k (x ∷ xs)) more ∙ ap (λ r. x ∷ r) (take-add m n xs)

drop-add : (m n : ℕ) (xs : List ℤ) → drop (m + n) xs ≡ drop n (drop m xs)
drop-add zero n xs = ap (λ k. drop k xs) (omega arith)
drop-add (suc m) n [] = drop_nil (suc m + n) ∙ sym (drop_nil n)
drop-add (suc m) n (x ∷ xs) =
    let more : suc m + n ≡ suc (m + n) = omega arith in
    ap (λ k. drop k (x ∷ xs)) more ∙ drop-add m n xs

-- The cells of one row and those of the rows behind it.
rows_add :
    (c rounds r : ℕ) (cells : List ℤ)
    → 0 < c
    → take (suc (c - 1)) (drop (r * c) cells) ++ take (rounds * c) (drop ((r + 1) * c) cells)
      ≡ take (suc rounds * c) (drop (r * c) cells)
rows_add c rounds r cells h =
    let size : suc (c - 1) ≡ c = omega arith in
    let next_row : (r + 1) * c ≡ r * c + c = grind arith in
    let all : suc rounds * c ≡ c + rounds * c = grind arith in
    ap₂ (λ k xs. take k (drop (r * c) cells) ++ take (rounds * c) xs) size
      (ap (λ k. drop k cells) next_row ∙ drop-add (r * c) c cells)
    ∙ sym (take-add c (rounds * c) (drop (r * c) cells))
    ∙ ap (λ k. take k (drop (r * c) cells)) (sym all)

module _ (P : Numerals) where
  -- A text of numbers, each with a blank behind it.
  data Numbers : Bytes → List ℤ → Type 0 where
    nothing : Numbers [] []
    number :
        {text : Bytes} {xs : List ℤ} (x : ℤ) (c : ℕ)
        → IsBlank c
        → IsInt x
        → Numbers text xs
        → Numbers (P.show x ++ c ∷ text) (x ∷ xs)

  Numbers-append :
      {s t : Bytes} {xs ys : List ℤ} → Numbers s xs → Numbers t ys → Numbers (s ++ t) (xs ++ ys)
  Numbers-append nothing k = k
  Numbers-append {t = t} {ys = ys} (number {text} {xs} x c b i h) k =
      subst (λ u. Numbers u (x ∷ (xs ++ ys))) (sym (append_assoc (P.show x) (c ∷ text) t))
        (number x c b i (Numbers-append h k))

  -- A matrix as C has it: no side is 0, all is `int`, and there is a cell for each place.
  pub record IsMatrix (m : Matrix) : Type 0 where
    pub rows : 0 < m.r
    pub columns : 0 < m.c
    pub small : (m.r < 2 ^ 31) × (m.c < 2 ^ 31)
    pub ints : All IsInt m.cells
    pub full : length m.cells ≡ m.r * m.c

  print_row-Numbers :
      (cells : List ℤ) (rounds i : ℕ)
      → All IsInt cells
      → i + suc rounds ≤ length cells
      → Gives (λ t. Numbers t (take (suc rounds) (drop i cells))) (print_row P cells rounds i)
  unfolding print_row
  print_row-Numbers cells zero i ints h =
      let (x, e, f, int) = next cells i ints (omega arith) in
      rw (e, f) (gives (number x newline (inr refl) int nothing))
  print_row-Numbers cells (suc rounds) i ints h =
      let (x, e, f, int) = next cells i ints (omega arith) in
      rw (e, f)
        (Gives-bind (print_row-Numbers cells rounds (i + 1) ints (omega arith))
          (λ t n. gives (number x space (inl refl) int n)))

  print_rows-Numbers :
      (m : Matrix) (rounds r : ℕ)
      → 0 < m.c
      → All IsInt m.cells
      → (r + rounds) * m.c ≤ length m.cells
      → Gives
          (λ t. Numbers t (take (rounds * m.c) (drop (r * m.c) m.cells)))
          (print_rows P m rounds r)
  unfolding print_rows
  print_rows-Numbers m zero r pos_c ints h =
      let none_left : 0 * m.c ≡ 0 = grind arith in rw none_left (gives nothing)
  print_rows-Numbers m (suc rounds) r pos_c ints h =
      let size : suc (m.c - 1) ≡ m.c = omega arith in
      let all : (r + suc rounds) * m.c ≡ r * m.c + m.c + rounds * m.c = grind arith in
      let others : (r + 1 + rounds) * m.c ≡ (r + suc rounds) * m.c =
        ap (λ k. k * m.c) (omega arith) in
      Gives-bind (print_row-Numbers m.cells (m.c - 1) (r * m.c) ints (omega (arith, size, all, h)))
        (λ row n.
          Gives-bind (print_rows-Numbers m rounds (r + 1) pos_c ints (omega (arith, others, h)))
            (λ rest k. gives (
              subst (Numbers (row ++ rest)) (rows_add m.c rounds r m.cells pos_c)
                (Numbers-append n k))))

  read_number-show :
      (Q : IsReadable P) (lead : Bytes) (x : ℤ) (c : ℕ) (text : Bytes)
      → All IsBlank lead
      → IsInt x
      → IsBlank c
      → read_number P (lead ++ (P.show x ++ c ∷ text)) ≡ some (x, c ∷ text)
  unfolding read_number
  read_number-show Q lead x c text blanks int b =
      let shorter : (length (c ∷ text) == length (lead ++ (P.show x ++ c ∷ text))) ≡ false =
        ground (
          arith,
          Q.show_some x,
          length-append lead (P.show x ++ c ∷ text),
          length-append (P.show x) (c ∷ text),
        ) in
      rw (Q.strtol-show lead x c text blanks int b, shorter) refl

  read_cells-Numbers :
      (Q : IsReadable P) (lead : Bytes) {text : Bytes} {xs : List ℤ}
      → All IsBlank lead
      → Numbers text xs
      → read_cells P (length xs) (lead ++ text) ≡ some xs
  unfolding read_cells
  read_cells-Numbers Q lead blanks nothing = refl
  read_cells-Numbers Q lead blanks (number {text} {xs} x c b int n) =
      rw (read_number-show Q lead x c text blanks int b, read_cells-Numbers Q (c ∷ []) (b, tt) n)
        refl

  -- A matrix with at least one row and column, and a cell for each place, all of them `int`, which
  -- matrix_print prints below a line with its sides, is read back by matrix_from_file, where strtol
  -- reads what printf writes: printing does not fail, and reading gives the same matrix.
  pub from_file-print :
      (Q : IsReadable P) (m : Matrix)
      → IsMatrix m
      → Gives
          (λ text.
            matrix_from_file P (P.show (pos m.r) ++ space ∷ (P.show (pos m.c) ++ newline ∷ text))
            ≡ some m)
          (matrix_print P m)
  unfolding matrix_from_file matrix_sizeof
  from_file-print Q m v =
      let none_before : 0 * m.c ≡ 0 = grind arith in
      let fits : (0 + m.r) * m.c ≤ length m.cells =
        subst (λ k. k * m.c ≤ length m.cells) (add_zero m.r) (omega (arith, v.full)) in
      let all : take (m.r * m.c) (drop (0 * m.c) m.cells) ≡ m.cells =
        ap₂ (λ k j. take k (drop j m.cells)) (sym v.full) none_before ∙ take-length m.cells in
      Gives-mono (print_rows-Numbers m m.r 0 v.columns v.ints fits) (λ text n.
        let cells : read_cells P (m.r * m.c) (newline ∷ text) ≡ some m.cells =
          ap (λ k. read_cells P k (newline ∷ text)) (sym v.full)
          ∙ read_cells-Numbers Q (newline ∷ []) (inr refl, tt) (subst (Numbers text) all n) in
        rw
          (
            read_number-show Q [] (pos m.r) space _ tt v.small.0 (inl refl),
            read_number-show Q (space ∷ []) (pos m.c) newline text (inl refl, tt) v.small.1
                (inr refl),
            lt→ltb 0 m.r v.rows,
            lt→ltb 0 m.c v.columns,
            cells,
          )
          refl)
