-- ===== src/MatrixDet/Total.antt =====
-- detMatrix of final/matrix.c reads nothing outside a matrix, and its recursion ends.
use cse.Base.{
  ℕ, zero, suc, ◌+◌, ◌-◌, ◌*◌, ◌≤◌, ◌<◌, ◌≡◌, ◌≢◌, refl, ap, ap₂, sym, ◌∙◌, true, false, Bool-cases,
  inl, inr, if◌then◌else◌, Option, some, List, ◌++◌, arith, leb, ◌==◌, length, get_elem?, drop,
  length-append, length-take, length-drop, get_elem?-of_lt, ◌>>=◌, Gives, gives, Gives-bind,
}
use cse.Base.Int.{ℤ, pos, ◌-ℤ◌, ◌+ℤ◌, ◌*ℤ◌}
use cse.MatrixDet.{Matrix, copy, sub_rows, make_submatrix, det_term, det_loop, det_from, det_matrix}

-- Square, with all its cells.
abbrev pub IsSquare : Matrix → Type 0
IsSquare m = (m.r ≡ m.c) × (length m.cells ≡ m.r * m.c)

le→leb : (a b : ℕ) → a ≤ b → leb a b ≡ true
le→leb a b h = ground arith

eq→== : (a b : ℕ) → a ≡ b → (a == b) ≡ true
eq→== a b h = ground arith

copy-Gives :
    (cells : List ℤ) (src n : ℕ)
    → src + n ≤ length cells
    → Gives (λ xs. length xs ≡ n) (copy cells src n)
unfolding copy
copy-Gives cells src n h =
    rw (le→leb (src + n) (length cells) h)
      (gives (omega (arith, length-take n (drop src cells), length-drop src cells)))

get_elem?-Gives :
    (cells : List ℤ) (i : ℕ) → i < length cells → Gives (λ _. Unit {0}) (get_elem? cells i)
get_elem?-Gives cells i h = let (x, e) = get_elem?-of_lt cells i h in rw e (gives tt)

row_end : (row r c : ℕ) → row < r → row * c + c ≤ r * c
row_end row r c h = grind arith

sub_rows-Gives :
    (m : Matrix) (excl rounds row : ℕ)
    → length m.cells ≡ m.r * m.c
    → excl < m.c
    → row + rounds ≤ m.r
    → Gives (λ cells. length cells ≡ rounds * (m.c - 1)) (sub_rows m excl rounds row)
unfolding sub_rows
sub_rows-Gives m excl zero row whole col fits = gives (omega arith)
sub_rows-Gives m excl (suc n) row whole col fits =
    let inside = row_end row m.r m.c (omega arith) in
    Gives-bind (copy-Gives m.cells (row * m.c) excl (omega arith)) (λ before size_before.
      Gives-bind (copy-Gives m.cells (row * m.c + excl + 1) (m.c - excl - 1) (omega arith))
        (λ behind size_behind.
          Gives-bind (sub_rows-Gives m excl n (row + 1) whole col (omega arith)) (λ rest size_rest.
            gives (
              length-append (before ++ behind) rest
              ∙ total m.c excl n before behind rest col size_before size_behind size_rest))))
  where
    total :
        (c excl n : ℕ) (before behind rest : List ℤ)
        → excl < c
        → length before ≡ excl
        → length behind ≡ c - excl - 1
        → length rest ≡ n * (c - 1)
        → length (before ++ behind) + length rest ≡ suc n * (c - 1)
    total c excl n before behind rest h e f g = omega (arith, length-append before behind)

make_submatrix-IsSquare :
    (m : Matrix) (excl : ℕ)
    → IsSquare m
    → excl < m.c
    → Gives (λ s. IsSquare s × (s.c ≡ m.c - 1)) (make_submatrix m excl)
unfolding make_submatrix
make_submatrix-IsSquare m excl square col = rw (eq→== m.r m.c square.0) (
    Gives-bind (sub_rows-Gives m excl (m.r - 1) 1 square.1 col (omega (arith, square.0)))
      (λ cells size. gives ((ap (λ n. n - 1) square.0, size), refl)))

module _ (det : Matrix → Option ℤ) (m : Matrix) (square : IsSquare m)
    (step : (s : Matrix) → IsSquare s → s.c ≡ m.c - 1 → Gives (λ _. Unit {0}) (det s)) where
  det_term-Gives : (col : ℕ) → col < m.c → Gives (λ _. Unit {0}) (det_term det m col)
  unfolding det_term
  det_term-Gives col inside = Gives-bind (make_submatrix-IsSquare m col square inside) (λ s good.
      Gives-bind
        (get_elem?-Gives m.cells col
          (omega (arith, square.0, square.1, row_end 0 m.r m.c (omega (arith, square.0)))))
        (λ x _. Gives-bind (step s good.0 good.1) (λ d _. gives tt)))

  det_loop-Gives :
      (rounds col : ℕ) (t : ℤ)
      → col + rounds ≤ m.c
      → Gives (λ _. Unit {0}) (det_loop det m rounds col t)
  unfolding det_loop
  det_loop-Gives zero col t inside = gives tt
  det_loop-Gives (suc n) col t inside =
      Gives-bind (det_term-Gives col (omega arith))
        (λ a _. det_loop-Gives n (col + 1) (t +ℤ a) (omega arith))

-- Each side of a test returns.
if-Gives :
    (a b : ℕ) {x y : Option ℤ}
    → (a ≡ b → Gives (λ _. Unit {0}) x)
    → (a ≢ b → Gives (λ _. Unit {0}) y)
    → Gives (λ _. Unit {0}) (if a == b then x else y)
if-Gives a b same other = elim (Bool-cases (a == b)) [
  | inl e ↦ rw e (same (==→eq a b e))
  | inr e ↦ rw e (other (==→ne a b e))
]
  where
    ==→eq : (a b : ℕ) → (a == b) ≡ true → a ≡ b
    ==→eq a b e = ground arith

    ==→ne : (a b : ℕ) → (a == b) ≡ false → a ≢ b
    ==→ne a b e = ground arith

area : (m : Matrix) → IsSquare m → (n : ℕ) → m.c ≡ n → length m.cells ≡ n * n
area m square n e = square.1 ∙ ap₂ ◌*◌ (square.0 ∙ e) e

det_from-Gives :
    (fuel : ℕ) (m : Matrix) → IsSquare m → m.c < fuel → Gives (λ _. Unit {0}) (det_from fuel m)
unfolding det_from
det_from-Gives zero m square enough = elim enough [ ]
det_from-Gives (suc fuel) m square enough = rw (eq→== m.c m.r (sym square.0)) (
    if-Gives m.c 0 (λ _. gives tt)
      (λ some_row.
        if-Gives m.c 1 (λ e. get_elem?-Gives m.cells 0 (omega (arith, area m square 1 e)))
          (λ one.
            if-Gives m.c 2 (λ e. four_cells m.cells (area m square 2 e))
              (λ two.
                det_loop-Gives (det_from fuel) m square
                  (λ s good smaller. det_from-Gives fuel s good (omega arith)) m.c 0 (pos 0)
                  (omega arith)))))
  where
    four_cells :
        (cells : List ℤ)
        → length cells ≡ 4
        → Gives
            (λ _. Unit {0})
            (get_elem? cells 0 >>= λ p0. get_elem? cells 3 >>= λ p3.
              get_elem? cells 1 >>= λ p1. get_elem? cells 2 >>= λ p2. some (p0 *ℤ p3 -ℤ p1 *ℤ p2))
    four_cells cells size = Gives-bind (get_elem?-Gives cells 0 (omega arith)) (λ p0 _.
        Gives-bind (get_elem?-Gives cells 3 (omega arith)) (λ p3 _.
          Gives-bind (get_elem?-Gives cells 1 (omega arith))
            (λ p1 _. Gives-bind (get_elem?-Gives cells 2 (omega arith)) (λ p2 _. gives tt))))

pub det_matrix-Gives : (m : Matrix) → IsSquare m → Gives (λ _. Unit {0}) (det_matrix m)
unfolding det_matrix
det_matrix-Gives m square = det_from-Gives (m.c + 1) m square (omega arith)
