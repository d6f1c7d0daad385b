-- ===== src/MatrixMult/Examples.antt =====
-- A run of the products of ps7/matrix.c.
use cse.Base.{
  ℕ, zero, suc, ◌≡◌, ◌<◌, refl, true, some, List, [], ◌∷◌, ◌++◌, ◌||◌, ◌==◌, if◌then◌else◌, length,
  replicate, length-append, All, Gives, arith,
}
use cse.Base.Int.{ℤ, pos, negsuc}
use cse.MatrixMult.{Matrix, Writes, run, matrix_mult, matrix_mult_par, Schedule}
use cse.MatrixMult.File.{
  Bytes, space, newline, Numerals, IsBlank, IsReadable, matrix_from_file, matrix_print,
}
use cse.MatrixMult.RoundTrip.{IsMatrix, from_file-print}
use cse.MatrixMult.Workers.{matrix_mult_par-schedules}

abbrev left_factor : Matrix
left_factor = record { r = 3; c = 2; cells = pos 1 ∷ pos 2 ∷ pos 3 ∷ pos 4 ∷ negsuc 0 ∷ pos 0 ∷ [] }

abbrev right_factor : Matrix
right_factor = record { r = 2; c = 2; cells = pos 5 ∷ pos 6 ∷ pos 7 ∷ negsuc 1 ∷ [] }

abbrev result : Matrix
result = record { r = 3; c = 2; cells = pos 0 ∷ pos 0 ∷ pos 0 ∷ pos 0 ∷ pos 0 ∷ pos 0 ∷ [] }

matrix_mult_par-schedules_example :
    (wss : List Writes) × (matrix_mult_par 2 left_factor right_factor result ≡ some wss)
    × ((us : Writes)
        → Schedule wss us
        → (cells : List ℤ) × (run us result.cells ≡ some cells)
          × (matrix_mult left_factor right_factor result ≡ some (record result { cells = cells })))
matrix_mult_par-schedules_example =
    matrix_mult_par-schedules 2 left_factor right_factor result (omega arith) refl refl refl refl
      refl refl

-- Numbers in unary: a sign, as many strokes as the number has, and an end.
abbrev stroke : ℕ
stroke = b'1'

abbrev last_stroke : ℕ
last_stroke = b'0'

abbrev sign : ℕ
sign = b'-'

strokes : Bytes → ℕ × Bytes
strokes [] = (0, [])
strokes (c ∷ text) =
    let rest = strokes text in if c == stroke then (suc rest.0, rest.1) else (0, text)

unary_strtol : Bytes → ℤ × Bytes
unary_strtol [] = (pos 0, [])
unary_strtol (c ∷ text) =
    let rest = unary_strtol text in
    let below = strokes text in
    let above = strokes (c ∷ text) in
    if c == space || c == newline
    then rest
    else (if c == sign then (negsuc below.0, below.1) else (pos above.0, above.1))

unary_show : ℤ → Bytes
unary_show (pos n) = replicate n stroke ++ last_stroke ∷ []
unary_show (negsuc n) = sign ∷ (replicate n stroke ++ last_stroke ∷ [])

abbrev unary : Numerals
unary = record { strtol = unary_strtol; show = unary_show }

strokes_all :
    (n : ℕ) (text : Bytes) → strokes ((replicate n stroke ++ last_stroke ∷ []) ++ text) ≡ (n, text)
unfolding strokes
strokes_all zero text = refl
strokes_all (suc n) text = rw (strokes_all n text) refl

unary_lead :
    (lead : Bytes) (x : ℤ) (text : Bytes)
    → All IsBlank lead
    → unary_strtol (lead ++ (unary_show x ++ text)) ≡ (x, text)
unfolding unary_strtol unary_show
unary_lead [] (pos zero) text b = rw (strokes_all zero text) refl
unary_lead [] (pos (suc n)) text b = rw (strokes_all (suc n) text) refl
unary_lead [] (negsuc n) text b = rw (strokes_all n text) refl
unary_lead (c ∷ lead) x text b =
    let blank : (c == space || c == newline) ≡ true = blank_test c b.0 in
    rw (blank, unary_lead lead x text b.1) refl
  where
    blank_test : (c : ℕ) → IsBlank c → (c == space || c == newline) ≡ true
    blank_test c b = ground arith

unary_some : (x : ℤ) → 0 < length (unary_show x)
unfolding unary_show
unary_some (pos n) = omega (arith, length-append (replicate n stroke) (last_stroke ∷ []))
unary_some (negsuc n) = omega arith

unary-IsReadable : IsReadable unary
unary-IsReadable = record {
  strtol-show = λ lead x c text b int d. unary_lead lead x (c ∷ text) b;
  show_some = unary_some;
}

right_factor-IsMatrix : IsMatrix unary right_factor
right_factor-IsMatrix = record {
  rows = omega arith;
  columns = omega arith;
  small = (omega arith, omega arith);
  ints = (omega arith, (omega arith, (omega arith, (omega arith, tt))));
  full = refl;
}

from_file-print_example :
    Gives
      (λ text.
        matrix_from_file unary
          (unary_show (pos 2) ++ space ∷ (unary_show (pos 2) ++ newline ∷ text))
        ≡ some right_factor)
      (matrix_print unary right_factor)
from_file-print_example = from_file-print unary unary-IsReadable right_factor right_factor-IsMatrix
