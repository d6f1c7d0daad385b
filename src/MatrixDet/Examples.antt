-- ===== src/MatrixDet/Examples.antt =====
-- A run of the determinants of final/matrix.c.
use cse.Base.{◌≡◌, refl, some, [], ◌∷◌, arith}
use cse.Base.Int.{ℤ, pos, negsuc}
use cse.MatrixDet.{Matrix, det_matrix, det_matrix_par}
use cse.MatrixDet.Split.{det_matrix_par-det_matrix}

abbrev three : Matrix
three = record {
  r = 3;
  c = 3;
  cells = pos 1 ∷ pos 2 ∷ pos 3 ∷ pos 4 ∷ pos 5 ∷ negsuc 5 ∷ pos 7 ∷ negsuc 7 ∷ pos 10 ∷ [];
}

three-det : det_matrix three ≡ some (negsuc 362)
unfolding det_matrix cse.MatrixDet.det_from cse.MatrixDet.det_loop cse.MatrixDet.det_term
    cse.MatrixDet.make_submatrix cse.MatrixDet.sub_rows cse.MatrixDet.copy cse.Base.Int.◌+ℤ◌
    cse.Base.Int.◌*ℤ◌ cse.Base.Int.◌-ℤ◌
three-det = refl

det_matrix_par-det_matrix_example :
    (d : ℤ) × (det_matrix three ≡ some d) × (det_matrix_par three 2 ≡ some d)
det_matrix_par-det_matrix_example =
    det_matrix_par-det_matrix three 2 (refl, refl) (omega arith) (omega arith)
