-- ===== src/MatrixDet/Split.antt =====
-- detMatrixPar of final/matrix.c against detMatrix.
use cse.Base.{
  ℕ, zero, suc, ◌+◌, ◌-◌, ◌*◌, ◌/◌, ◌%◌, ◌<◌, ◌≡◌, Gives-value, later, under, ap, ap₂, sym, ◌∙◌,
  subst, true, Option, some, arith, ◌==◌, ◌>>=◌, lt→ltb,
}
use cse.MatrixDet.Total.{IsSquare, det_matrix-Gives}
use native.Mathlib.Nat.{div-add-mod}
use cse.Base.Int.{+ℤ_zero, +ℤ_zero_right, ℤ, pos, ◌+ℤ◌, +ℤ_assoc}
use cse.MatrixDet.{
  Matrix, det_term, det_loop, det_matrix, matrix_det_thread, join_workers, det_matrix_par,
}
use cse.MatrixDet.Expansion.{ByLoop, square-ByLoop}

module _ (det : Matrix → Option ℤ) (m : Matrix) where
  -- A total that is there before is added in the end.
  det_loop-total :
      (rounds col : ℕ) (t : ℤ)
      → det_loop det m rounds col t ≡ (det_loop det m rounds col (pos 0) >>= λ x. some (t +ℤ x))
  unfolding det_loop
  det_loop-total zero col t = ap some (sym (+ℤ_zero_right t))
  det_loop-total (suc rounds) col t =
      under (det_term det m col) _ _ (λ a.
        det_loop-total rounds (col + 1) (t +ℤ a)
        ∙ under (det_loop det m rounds (col + 1) (pos 0)) _ _ (λ x. ap some (+ℤ_assoc t a x))
        ∙ sym (
            later (det_loop det m rounds (col + 1) (pos 0)) (λ x. some (a +ℤ x))
              (λ x. some (t +ℤ x)))
        ∙ ap (λ o. o >>= λ x. some (t +ℤ x))
            (sym (det_loop-total rounds (col + 1) a)
              ∙ ap (det_loop det m rounds (col + 1)) (sym (+ℤ_zero a))))
      ∙ sym (
          later (det_term det m col) (λ a. det_loop det m rounds (col + 1) (pos 0 +ℤ a))
            (λ x. some (t +ℤ x)))

  -- The columns can be taken in two parts.
  det_loop-add :
      (j k col : ℕ) (t : ℤ)
      → det_loop det m (j + k) col t
        ≡ (det_loop det m j col t >>= λ x. det_loop det m k (col + j) x)
  unfolding det_loop
  det_loop-add zero k col t = ap₂ (λ n c. det_loop det m n c t) (omega arith) (omega arith)
  det_loop-add (suc j) k col t =
      ap (λ n. det_loop det m n col t) (suc_add j k)
      ∙ under (det_term det m col) _ _ (λ a.
        det_loop-add j k (col + 1) (t +ℤ a)
        ∙ under (det_loop det m j (col + 1) (t +ℤ a)) _ _
            (λ x. ap (λ c. det_loop det m k c x) (omega arith)))
      ∙ sym (
          later (det_term det m col) (λ a. det_loop det m j (col + 1) (t +ℤ a))
            (λ x. det_loop det m k (col + suc j) x))
    where
      suc_add : (m n : ℕ) → suc m + n ≡ suc (m + n)
      suc_add m n = omega arith

join_workers-loop :
    (m : Matrix) (workers start nterms : ℕ) (t : ℤ)
    → join_workers m workers start nterms t ≡ det_loop det_matrix m (workers * nterms) start t
unfolding join_workers matrix_det_thread det_loop
join_workers-loop m zero start nterms t =
    let none_left : 0 ≡ 0 * nterms = omega arith in
    ap (λ n. det_loop det_matrix m n start t) none_left
join_workers-loop m (suc n) start nterms t =
    under (det_loop det_matrix m nterms start (pos 0)) _ _
      (λ x. join_workers-loop m n (start + nterms) nterms (t +ℤ x))
    ∙ sym (
        later (det_loop det_matrix m nterms start (pos 0)) (λ x. some (t +ℤ x))
          (det_loop det_matrix m (n * nterms) (start + nterms)))
    ∙ ap (λ o. o >>= det_loop det_matrix m (n * nterms) (start + nterms))
        (sym (det_loop-total det_matrix m nterms start t))
    ∙ sym (det_loop-add det_matrix m nterms (n * nterms) start t)
    ∙ ap (λ k. det_loop det_matrix m k start t) (one_more n nterms)
  where
    one_more : (n k : ℕ) → k + n * k ≡ suc n * k
    one_more n k = grind arith

-- The workers together go through all columns.
det_matrix_par-loop :
    (m : Matrix) (nbw : ℕ)
    → m.r ≡ m.c
    → 0 < nbw
    → det_matrix_par m nbw ≡ det_loop det_matrix m m.c 0 (pos 0)
unfolding det_matrix_par matrix_det_thread
det_matrix_par-loop m nbw square some_worker =
    let w = m.c / nbw in
    let first = w + m.c % nbw in
    let from_zero : first ≡ 0 + first = omega arith in
    rw (same m.c m.r (sym square), lt→ltb 0 nbw some_worker)
      (under (det_loop det_matrix m first 0 (pos 0)) _ _ (λ x.
          ap (join_workers m (nbw - 1) first w) (+ℤ_zero x)
          ∙ join_workers-loop m (nbw - 1) first w x
          ∙ ap (λ k. det_loop det_matrix m ((nbw - 1) * w) k x) from_zero)
        ∙ sym (det_loop-add det_matrix m first ((nbw - 1) * w) 0 (pos 0))
        ∙ ap (λ n. det_loop det_matrix m n 0 (pos 0)) (all m.c nbw some_worker))
  where
    same : (m n : ℕ) → m ≡ n → (m == n) ≡ true
    same m n e = ground arith

    pull : (k w r : ℕ) → w + r + (suc k - 1) * w ≡ suc k * w + r
    pull k w r = rw (pred k) (grind arith)
      where
        pred : (k : ℕ) → suc k - 1 ≡ k
        pred k = omega arith

    all : (c n : ℕ) → 0 < n → c / n + c % n + (n - 1) * (c / n) ≡ c
    all c zero h = elim h [ ]
    all c (suc k) h = pull k (c / suc k) (c % suc k) ∙ div-add-mod c (suc k)

same_value :
    (m : Matrix) (nbw : ℕ) → IsSquare m → 0 < m.c → 0 < nbw → det_matrix_par m nbw ≡ det_matrix m
unfolding ByLoop
same_value m nbw square some_row some_worker =
    det_matrix_par-loop m nbw square.0 some_worker
    ∙ subst (λ r. ByLoop r m.c m.cells) (sym square.0)
        (square-ByLoop m.c m.cells some_row (square.1 ∙ ap (λ r. r * m.c) square.0))

-- `detMatrix` of a square matrix with all its cells and at least one row returns a number, with no
-- read outside a matrix, and the threads of `detMatrixPar` together return the same, for any number
-- of workers but 0.
pub det_matrix_par-det_matrix :
    (m : Matrix) (nbw : ℕ)
    → IsSquare m
    → 0 < m.c
    → 0 < nbw
    → (d : ℤ) × (det_matrix m ≡ some d) × (det_matrix_par m nbw ≡ some d)
det_matrix_par-det_matrix m nbw square some_row some_worker =
    let (d, e, _) = Gives-value (det_matrix-Gives m square) in
    (d, e, same_value m nbw square some_row some_worker ∙ e)
