-- ===== src/MatrixDet/Expansion.antt =====
-- detMatrix of final/matrix.c as the sum over all columns, for each number of rows.
use cse.Base.{
  ℕ, zero, suc, ◌+◌, ◌-◌, ◌*◌, ◌<◌, ◌≡◌, ◌≢◌, refl, later, under, ap, ap₂, sym, ◌∙◌, subst, true,
  false, Option, some, List, [], ◌∷◌, arith, ◌==◌, length, get_elem?, ◌>>=◌, Bool-cases, inl, inr,
}
use cse.Base.Int.{+ℤ_zero, pos_part, neg_part, sub_ℕ, ℤ, pos, negsuc, ◌+ℤ◌, ◌-ℤ◌, ◌*ℤ◌}
use cse.MatrixDet.{
  Matrix, copy, sub_rows, make_submatrix, sign, det_term, det_loop, det_from, det_matrix,
}

pub one-mul : (a : ℤ) → pos 1 *ℤ a ≡ a
unfolding ◌*ℤ◌
one-mul a = ground arith

pub mul-one : (a : ℤ) → a *ℤ pos 1 ≡ a
unfolding ◌*ℤ◌
mul-one a = ground arith

pub neg : ℤ → ℤ
neg (pos zero) = pos 0
neg (pos (suc n)) = negsuc n
neg (negsuc n) = pos (suc n)

pub pos_part-neg : (a : ℤ) → pos_part (neg a) ≡ neg_part a
unfolding neg
pos_part-neg a = ground arith

pub neg_part-neg : (a : ℤ) → neg_part (neg a) ≡ pos_part a
unfolding neg
neg_part-neg a = ground arith

pub neg-sub_ℕ : (m n : ℕ) → sub_ℕ m n ≡ neg (sub_ℕ n m)
unfolding neg
neg-sub_ℕ m n = ground arith

pub neg-mul : (a b : ℤ) → neg a *ℤ b ≡ neg (a *ℤ b)
unfolding ◌*ℤ◌
neg-mul a b =
    rw (pos_part-neg a, neg_part-neg a)
      (ap₂ sub_ℕ {x = neg_part a * pos_part b + pos_part a * neg_part b} (omega arith) (omega arith)
        ∙ neg-sub_ℕ (pos_part a * neg_part b + neg_part a * pos_part b)
            (pos_part a * pos_part b + neg_part a * neg_part b))

pub minus_one : (a : ℤ) → negsuc 0 *ℤ a ≡ neg a
unfolding ◌*ℤ◌ neg
minus_one a = ground arith

pub add-neg : (a b : ℤ) → a +ℤ neg b ≡ a -ℤ b
unfolding ◌-ℤ◌ ◌+ℤ◌
add-neg a b = rw (pos_part-neg b, neg_part-neg b) refl

-- The sum of the two terms of a matrix of two rows.
pub two_terms :
    (p0 p1 p2 p3 : ℤ) → pos 0 +ℤ pos 1 *ℤ p0 *ℤ p3 +ℤ negsuc 0 *ℤ p1 *ℤ p2 ≡ p0 *ℤ p3 -ℤ p1 *ℤ p2
two_terms p0 p1 p2 p3 =
    rw (one-mul p0, minus_one p1, neg-mul p1 p2, +ℤ_zero (p0 *ℤ p3)) (add-neg (p0 *ℤ p3) (p1 *ℤ p2))

pub one_term : (p : ℤ) → pos 0 +ℤ pos 1 *ℤ p *ℤ pos 1 ≡ p
one_term p = rw (one-mul p, mul-one p) (+ℤ_zero p)

pub shrunk : Matrix → List ℤ → Matrix
shrunk m cells = record { r = m.r - 1; c = m.c - 1; cells = cells }

-- What follows `make_submatrix` sees a matrix that is one smaller.
pub make_submatrix-under :
    (m : Matrix) (col : ℕ) (f g : Matrix → Option ℤ)
    → ((cells : List ℤ) → f (shrunk m cells) ≡ g (shrunk m cells))
    → (make_submatrix m col >>= f) ≡ (make_submatrix m col >>= g)
unfolding make_submatrix shrunk
make_submatrix-under m col f g h = elim (Bool-cases (m.r == m.c)) [
  | inl square ↦
      let o = sub_rows m col (m.r - 1) 1 in
      rw square (
        later o (λ cells. some (shrunk m cells)) f
        ∙ under o _ _ h
        ∙ sym (later o (λ cells. some (shrunk m cells)) g))
  | inr other ↦ rw other refl
]

-- A term has the same value for every fuel that is the size.
pub det_term-fuel :
    (m : Matrix) (col : ℕ) → 0 < m.c → det_term (det_from m.c) m col ≡ det_term det_matrix m col
unfolding det_term det_matrix shrunk
det_term-fuel m col h = make_submatrix-under m col _ _ (λ cells.
    under (get_elem? m.cells col) _ _ (λ x.
      let enough : m.c ≡ m.c - 1 + 1 = omega arith in
      ap (λ k. det_from k (shrunk m cells) >>= λ d. some (sign col *ℤ x *ℤ d)) enough))

pub det_loop-fuel :
    (m : Matrix) (rounds col : ℕ) (t : ℤ)
    → 0 < m.c
    → det_loop (det_from m.c) m rounds col t ≡ det_loop det_matrix m rounds col t
unfolding det_loop
det_loop-fuel m zero col t h = refl
det_loop-fuel m (suc rounds) col t h =
    rw (det_term-fuel m col h)
      (under (det_term det_matrix m col) _ _ (λ a. det_loop-fuel m rounds (col + 1) (t +ℤ a) h))

-- One row.
pub det_matrix-one :
    (p : ℤ)
    → let m : Matrix = record { r = 1; c = 1; cells = p ∷ [] } in
      det_loop det_matrix m 1 0 (pos 0) ≡ det_matrix m
unfolding det_loop det_term make_submatrix sub_rows det_matrix det_from
det_matrix-one p = ap some (one_term p)

pub det_matrix-two :
    (p0 p1 p2 p3 : ℤ)
    → let m : Matrix = record { r = 2; c = 2; cells = p0 ∷ p1 ∷ p2 ∷ p3 ∷ [] } in
      det_loop det_matrix m 2 0 (pos 0) ≡ det_matrix m
unfolding det_loop det_term make_submatrix sub_rows det_matrix det_from copy
det_matrix-two p0 p1 p2 p3 = ap some (two_terms p0 p1 p2 p3)

pub det_from-larger :
    (fuel : ℕ) (m : Matrix)
    → m.r ≡ m.c
    → 0 < m.c
    → m.c ≢ 1
    → m.c ≢ 2
    → det_from (suc fuel) m ≡ det_loop (det_from fuel) m m.c 0 (pos 0)
unfolding det_from
det_from-larger fuel m square positive one two =
    rw
      (
        test_true m.c m.r (sym square),
        test_false m.c 0 (omega arith),
        test_false m.c 1 one,
        test_false m.c 2 two,
      )
      refl
  where
    test_true : (m n : ℕ) → m ≡ n → (m == n) ≡ true
    test_true m n h = ground arith

    test_false : (m n : ℕ) → m ≢ n → (m == n) ≡ false
    test_false m n h = ground arith

-- Three rows and more.
pub det_matrix-larger :
    (m : Matrix) (k : ℕ)
    → m.r ≡ m.c
    → m.c ≡ suc (suc (suc k))
    → det_loop det_matrix m m.c 0 (pos 0) ≡ det_matrix m
unfolding det_matrix
det_matrix-larger m k square size =
    let positive : 0 < m.c = omega arith in
    sym (det_loop-fuel m m.c 0 (pos 0) positive)
    ∙ sym (det_from-larger m.c m square positive (omega arith) (omega arith))
    ∙ (let next : suc m.c ≡ m.c + 1 = omega arith in ap (λ n. det_from n m) next)

pub not_zero : (n : ℕ) → suc n ≡ 0 → ⊥
not_zero n e = omega arith

pub uncons :
    (n : ℕ) (xs : List ℤ)
    → length xs ≡ suc n
    → (x : ℤ) × (ys : List ℤ) × (xs ≡ x ∷ ys) × (length ys ≡ n)
uncons n [] h = elim (not_zero n (sym h)) [ ]
uncons n (x ∷ ys) h = (x, ys, refl, omega arith)

pub nil_of : (xs : List ℤ) → length xs ≡ 0 → xs ≡ []
nil_of [] h = refl
nil_of (x ∷ xs) h = elim (not_zero (length xs) h) [ ]

-- A square matrix of `n` rows; the loop over its columns gives what `det_matrix` does.
unfoldable pub ByLoop : ℕ → ℕ → List ℤ → Type 0
ByLoop r c cells =
    let m : Matrix = record { r = r; c = c; cells = cells } in
    det_loop det_matrix m c 0 (pos 0) ≡ det_matrix m

pub square-ByLoop : (n : ℕ) (cells : List ℤ) → 0 < n → length cells ≡ n * n → ByLoop n n cells
unfolding ByLoop
square-ByLoop zero cells h whole = elim h [ ]
square-ByLoop (suc zero) cells h whole =
    let (p, ys, e, left) = uncons 0 cells whole in
    subst (ByLoop 1 1) (sym (e ∙ ap (λ xs. p ∷ xs) (nil_of ys left))) (det_matrix-one p)
square-ByLoop (suc (suc zero)) cells h whole =
    let (p0, ys0, e0, l0) = uncons 3 cells whole in
    let (p1, ys1, e1, l1) = uncons 2 ys0 l0 in
    let (p2, ys2, e2, l2) = uncons 1 ys1 l1 in
    let (p3, ys3, e3, l3) = uncons 0 ys2 l2 in
    subst (ByLoop 2 2)
      (sym (
        e0
        ∙ ap (λ xs. p0 ∷ xs)
            (e1
              ∙ ap (λ xs. p1 ∷ xs)
                  (e2 ∙ ap (λ xs. p2 ∷ xs) (e3 ∙ ap (λ xs. p3 ∷ xs) (nil_of ys3 l3))))))
      (det_matrix-two p0 p1 p2 p3)
square-ByLoop (suc (suc (suc k))) cells h whole =
    det_matrix-larger (record { r = suc (suc (suc k)); c = suc (suc (suc k)); cells = cells }) k
      refl refl
