-- ===== src/MatrixMult/Workers.antt =====
-- The workers of matrix_mult_par in ps7/matrix.c against matrix_mult.
use cse.Base.{
  ℕ, zero, suc, ◌+◌, ◌*◌, ◌/◌, ◌%◌, min, ◌≤◌, ◌<◌, ◌≡◌, refl, ap, ap₂, sym, ◌∙◌, true, some, List,
  [], ◌∷◌, ◌++◌, arith, ◌==◌, length, set, length-set, All, lt→ltb,
}
use native.Mathlib.Nat.{div-add-mod, mod-lt}
use cse.Base.Int.{ℤ}
use cse.MatrixMult.{
  Matrix, Writes, run, matrix_mult, worker_rows, fork_workers, matrix_mult_par, Shuffle, nil, left,
  right, Schedule, idle, worker,
}
use cse.MatrixMult.Rows.{
  IsMatrix, entry, rows_writes, rows_writes-add, mult_rows-some, do_partial_mult-some, Right,
  rows_writes-Right,
}

-- Two writes of one value function: they commute.
set_comm :
    (xs : List ℤ) (i j : ℕ) (v w : ℤ)
    → (i ≡ j → v ≡ w)
    → set (set xs i v) j w ≡ set (set xs j w) i v
set_comm [] i j v w h = refl
set_comm (x ∷ xs) zero zero v w h = ap (λ u. u ∷ xs) (sym (h refl))
set_comm (x ∷ xs) zero (suc j) v w h = refl
set_comm (x ∷ xs) (suc i) zero v w h = refl
set_comm (x ∷ xs) (suc i) (suc j) v w h = ap (λ r. x ∷ r) (set_comm xs i j v w (λ e. h (ap suc e)))

-- The writes in their order, without bounds.
apply : Writes → List ℤ → List ℤ
apply [] cells = cells
apply ((i, v) ∷ ws) cells = apply ws (set cells i v)

-- All writes of the workers, one worker after the other.
in_turn : List Writes → Writes
in_turn [] = []
in_turn (ws ∷ rest) = ws ++ in_turn rest

sum : List ℕ → ℕ
sum [] = 0
sum (n ∷ rows) = n + sum rows

sum-worker_rows : (n extra each : ℕ) → sum (worker_rows n extra each) ≡ n * each + min extra n
unfolding sum worker_rows
sum-worker_rows zero extra each = omega arith
sum-worker_rows (suc n) zero each = grind (arith, sum-worker_rows n zero each)
sum-worker_rows (suc n) (suc extra) each = grind (arith, sum-worker_rows n extra each)

apply-append :
    (ws vs : Writes) (cells : List ℤ) → apply (ws ++ vs) cells ≡ apply vs (apply ws cells)
unfolding apply
apply-append [] vs cells = refl
apply-append ((i, v) ∷ ws) vs cells = apply-append ws vs (set cells i v)

module _ (a b : Matrix) where
  run-apply :
      (ws : Writes) (cells : List ℤ)
      → All (Right a b) ws
      → length cells ≡ a.r * b.c
      → run ws cells ≡ some (apply ws cells)
  unfolding run apply
  run-apply [] cells h size = refl
  run-apply ((i, v) ∷ ws) cells h size =
      rw (lt→ltb i (length cells) (omega (arith, h.0.0)))
        (run-apply ws (set cells i v) h.1 (length-set cells i v ∙ size))

  apply-set :
      (i : ℕ) (v : ℤ) (ws : Writes) (cells : List ℤ)
      → Right a b (i, v)
      → All (Right a b) ws
      → apply ws (set cells i v) ≡ set (apply ws cells) i v
  unfolding apply
  apply-set i v [] cells e h = refl
  apply-set i v ((j, w) ∷ ws) cells e h =
      ap (apply ws) (
        set_comm cells i j v w
          (λ same. e.1 ∙ ap (λ k. entry a b (k / b.c) (k % b.c)) same ∙ sym h.0.1))
      ∙ apply-set i v ws (set cells j w) e h.1

  apply-Shuffle :
      {ws vs us : Writes} (cells : List ℤ)
      → Shuffle ws vs us
      → All (Right a b) ws
      → All (Right a b) vs
      → (apply us cells ≡ apply (ws ++ vs) cells) × All (Right a b) us
  unfolding apply
  apply-Shuffle cells nil hw hv = (refl, tt)
  apply-Shuffle cells (left {w = (i, v)} s) hw hv =
      let (e, h) = apply-Shuffle (set cells i v) s hw.1 hv in (e, (hw.0, h))
  apply-Shuffle {ws} cells (right {v = (i, v)} {vs = vs} s) hw hv =
      let (e, h) = apply-Shuffle (set cells i v) s hw hv.1 in
      (
        e
            ∙ (apply-append ws vs (set cells i v)
                ∙ ap (apply vs) (apply-set i v ws cells hv.0 hw)
                ∙ sym (apply-append ws ((i, v) ∷ vs) cells)),
        (hv.0, h),
      )

  apply-Schedule :
      {wss : List Writes} {us : Writes} (cells : List ℤ)
      → Schedule wss us
      → All (All (Right a b)) wss
      → (apply us cells ≡ apply (in_turn wss) cells) × All (Right a b) us
  unfolding in_turn apply
  apply-Schedule cells idle h = (refl, tt)
  apply-Schedule cells (worker {ws} {vs} {rest = rest} s t) h =
      let (e, hv) = apply-Schedule (apply ws cells) t h.1 in
      let (f, hu) = apply-Shuffle cells s h.0 hv in
      (f ∙ apply-append ws vs cells ∙ e ∙ sym (apply-append ws (in_turn rest) cells), hu)

  worker_writes : List ℕ → ℕ → List Writes
  worker_writes [] start = []
  worker_writes (n ∷ rows) start = rows_writes a b n start ∷ worker_writes rows (start + n)

  in_turn-worker_writes :
      (rows : List ℕ) (start : ℕ)
      → in_turn (worker_writes rows start) ≡ rows_writes a b (sum rows) start
  unfolding in_turn worker_writes sum rows_writes
  in_turn-worker_writes [] start = refl
  in_turn-worker_writes (n ∷ rows) start =
      ap (λ r. rows_writes a b n start ++ r) (in_turn-worker_writes rows (start + n))
      ∙ sym (rows_writes-add a b n (sum rows) start)

  worker_writes-Right :
      (rows : List ℕ) (start : ℕ)
      → start + sum rows ≤ a.r
      → All (All (Right a b)) (worker_writes rows start)
  unfolding worker_writes sum
  worker_writes-Right [] start h = tt
  worker_writes-Right (n ∷ rows) start h = (
    rows_writes-Right a b n start (omega arith),
    worker_writes-Right rows (start + n) (omega arith),
  )

  module _ (res : Matrix) (whole_a : IsMatrix a) (whole_b : IsMatrix b) (fit : a.c ≡ b.r)
      (wide : res.c ≡ b.c) where
    fork_workers-some :
        (rows : List ℕ) (start : ℕ)
        → start + sum rows ≤ a.r
        → fork_workers a b res rows start ≡ some (worker_writes rows start)
    unfolding fork_workers worker_writes sum
    fork_workers-some [] start h = refl
    fork_workers-some (n ∷ rows) start h =
        rw
          (
            do_partial_mult-some a b whole_a whole_b fit res n start wide (omega arith),
            fork_workers-some rows (start + n) (omega arith),
          )
          refl

-- However the children of `matrix_mult_par` are scheduled, their writes fault nowhere and leave what
-- `matrix_mult` computes: for at least one worker, whole factors that fit, and a result of their size.
pub matrix_mult_par-schedules :
    (nworkers : ℕ) (a b res : Matrix)
    → 0 < nworkers
    → IsMatrix a
    → IsMatrix b
    → a.c ≡ b.r
    → IsMatrix res
    → res.r ≡ a.r
    → res.c ≡ b.c
    → (wss : List Writes) × (matrix_mult_par nworkers a b res ≡ some wss)
      × ((us : Writes)
          → Schedule wss us
          → (cells : List ℤ) × (run us res.cells ≡ some cells)
            × (matrix_mult a b res ≡ some (record res { cells = cells })))
unfolding matrix_mult_par matrix_mult
matrix_mult_par-schedules nworkers a b res some_worker whole_a whole_b fit whole tall wide =
    let rows = worker_rows nworkers (a.r % nworkers) (a.r / nworkers) in
    let all = total_rows nworkers a.r some_worker in
    let size : length res.cells ≡ a.r * b.c = whole ∙ ap₂ ◌*◌ tall wide in
    let turn = in_turn-worker_writes a b rows 0 ∙ ap (λ k. rows_writes a b k 0) all in
    (
      worker_writes a b rows 0,
      rw (fits a.c b.r fit, lt→ltb 0 nworkers some_worker)
          (fork_workers-some a b res whole_a whole_b fit wide rows 0 (omega (arith, all))),
      λ us t.
          let (e, right_us) =
            apply-Schedule a b res.cells t (worker_writes-Right a b rows 0 (omega (arith, all))) in
          let sequential = rows_writes-Right a b a.r 0 (omega arith) in
          (
            apply (rows_writes a b a.r 0) res.cells,
            run-apply a b us res.cells right_us size
                ∙ ap some (e ∙ ap (λ ws. apply ws res.cells) turn),
            rw
                (
                  fits a.c b.r fit,
                  mult_rows-some a b whole_a whole_b fit res a.r 0 wide (omega arith),
                  run-apply a b (rows_writes a b a.r 0) res.cells sequential size,
                )
                refl,
          ),
    )
  where
    fits : (m n : ℕ) → m ≡ n → (m == n) ≡ true
    fits m n e = ground arith

    total_rows : (n r : ℕ) → 0 < n → sum (worker_rows n (r % n) (r / n)) ≡ r
    total_rows n r h = omega (arith, sum-worker_rows n (r % n) (r / n), div-add-mod r n, mod-lt r h)
