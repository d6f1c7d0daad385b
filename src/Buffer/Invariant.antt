-- ===== src/Buffer/Invariant.antt =====
-- No task of lab8 is lost or overwritten, whichever process runs next.
use cse.Base.{
  ℕ, zero, suc, ◌+◌, ◌≤◌, ◌<◌, ◌≡◌, refl, sym, ap, ◌∙◌, subst, none, some, List, [], ◌∷◌, ◌++◌,
  length, get_elem?, set, All, arith,
}
use cse.Base.Int.{pos}
use mathlib.Core.Option.{some-injective}
use cse.Buffer.{Task}
use cse.Buffer.Ring.{Holds}
use cse.Buffer.System.{
  solve_loop, solve, Worker, claimed, working, reserved, filed, Main, filling, filled, collecting,
  promised, collected, finished, System,
}

-- 0 + 1 + ... + n
unfoldable pub sum_to : ℕ → ℕ
sum_to zero = 0
sum_to (suc n) = sum_to n + suc n

-- The sum of these for the queries below `n`.
unfoldable pub sum_below : ℕ → ℕ
sum_below zero = 0
sum_below (suc n) = sum_below n + sum_to n

abbrev pub Solved : Task → Type 0
Solved t = t.answer ≡ pos (sum_to t.query)

abbrev pub total : {A : Type 0} → (A → ℕ) → List A → ℕ
total f [] = 0
total f (x ∷ xs) = f x + total f xs

abbrev pub weight : (ℕ → ℕ) → List Task → ℕ
weight f = total (λ t. f t.query)

-- The sum of the values of `f` below `n`.
unfoldable pub values_below : (ℕ → ℕ) → ℕ → ℕ
values_below f zero = 0
values_below f (suc n) = values_below f n + f n

-- What a worker adds to the counts: a task promised to it, one that it has, a slot that is kept for
-- it, an answer that it has not told of.
abbrev pub claims : Worker → ℕ
claims claimed = 1
claims w = 0

abbrev pub holds : Worker → ℕ
holds (working t) = 1
holds (reserved t) = 1
holds w = 0

abbrev pub keeps : Worker → ℕ
keeps (reserved t) = 1
keeps w = 0

abbrev pub files : Worker → ℕ
files filed = 1
files w = 0

abbrev pub value : (ℕ → ℕ) → Worker → ℕ
value f (working t) = f t.query
value f (reserved t) = f t.query
value f w = 0

abbrev pub Honest : Worker → Type 0
Honest (working t) = Solved t
Honest (reserved t) = Solved t
Honest w = Unit

-- The same for `main`, which makes `n` requests.
abbrev pub unposted : Main → ℕ
unposted (filled i) = 1
unposted p = 0

abbrev pub sent : ℕ → Main → ℕ
sent n (filling i) = i
sent n (filled i) = i + 1
sent n p = n

abbrev pub promises : Main → ℕ
promises (promised i) = 1
promises p = 0

abbrev pub emptied : Main → ℕ
emptied (collected i t) = 1
emptied p = 0

abbrev pub received : ℕ → Main → ℕ
received n (filling i) = 0
received n (filled i) = 0
received n (collecting i) = i
received n (promised i) = i
received n (collected i t) = i + 1
received n finished = n

abbrev pub main_value : (ℕ → ℕ) → Main → ℕ
main_value f (collected i t) = f t.query
main_value f p = 0

abbrev pub Sound : ℕ → Main → Type 0
Sound n (filling i) = i ≤ n
Sound n (filled i) = i < n
Sound n (collecting i) = i ≤ n
Sound n (promised i) = i < n
Sound n (collected i t) = (i < n) × Solved t
Sound n finished = Unit

-- What holds between the steps, for buffers of `n` requests and `m` answers: the first holds `xs` and
-- the second `ys`, the semaphores count what is in them, no answer is without a slot, and every query
-- that was made is once in a buffer, with a worker, with `main`, or among the `checked`, whose answers are
-- in `check`: for every `f` its values there add up to those at the queries made.
pub record InvAt (n m : ℕ) (s : System) (p : Main) : Type 0 where
  pub xs : List Task
  pub ys : List Task
  pub checked : List ℕ
  pub requests : Holds s.requests xs
  pub answers : Holds s.answers ys
  pub requests_cap : s.requests.cap ≡ n
  pub answers_cap : s.answers.cap ≡ m
  pub tasks : s.tasks + total claims s.workers + unposted p ≡ length xs
  pub asw : s.asw + total files s.workers + promises p ≡ length ys
  pub slots : s.slots + total keeps s.workers + length ys + emptied p ≡ m
  pub count : length xs + total holds s.workers + length ys + received n p ≡ sent n p
  pub once :
      (f : ℕ → ℕ)
      → weight f xs + total (value f) s.workers + weight f ys + main_value f p + total f checked
        ≡ values_below f (sent n p)
  pub check : s.check ≡ pos (total sum_to checked)
  pub solved : All Solved ys
  pub honest : All Honest s.workers
  pub sound : Sound n p

abbrev pub Inv : (n m : ℕ) → System → Type 0
Inv n m s = InvAt n m s s.main

nothing_there : {A : Type 0} {x : A} → none ≡ some x → ⊥
nothing_there e = cc

pub total-set :
    {A : Type 0} (f : A → ℕ) (xs : List A) (i : ℕ) (x y : A)
    → get_elem? xs i ≡ some x
    → total f (set xs i y) + f x ≡ total f xs + f y
total-set f [] i x y e = elim (nothing_there e) [ ]
total-set f (z ∷ xs) zero x y e = omega (arith, ap f (some-injective _ _ e))
total-set f (z ∷ xs) (suc i) x y e = omega (arith, total-set f xs i x y e)

-- A list that is not empty.
pub uncons : {A : Type 0} (xs : List A) → 0 < length xs → (x : A) × (ys : List A) × (xs ≡ x ∷ ys)
uncons [] h = elim h [ ]
uncons (x ∷ xs) h = (x, xs, refl)

pub total-append :
    {A : Type 0} (f : A → ℕ) (xs ys : List A) → total f (xs ++ ys) ≡ total f xs + total f ys
total-append f [] ys = omega arith
total-append f (x ∷ xs) ys = omega (arith, total-append f xs ys)

pub All-set :
    {A : Type 0} (P : A → Type 0) (xs : List A) (i : ℕ) (y : A)
    → All P xs
    → P y
    → All P (set xs i y)
All-set P [] i y h p = tt
All-set P (x ∷ xs) zero y h p = (p, h.1)
All-set P (x ∷ xs) (suc i) y h p = (h.0, All-set P xs i y h.1 p)

pub All-get :
    {A : Type 0} (P : A → Type 0) (xs : List A) (i : ℕ) (x : A)
    → All P xs
    → get_elem? xs i ≡ some x
    → P x
All-get P [] i x h e = elim (nothing_there e) [ ]
All-get P (y ∷ xs) zero x h e = subst P (some-injective _ _ e) h.0
All-get P (y ∷ xs) (suc i) x h e = All-get P xs i x h.1 e

solve_loop-sum_to : (n i : ℕ) → solve_loop n (i + 1) (sum_to i) ≡ sum_to (i + n)
unfolding solve_loop sum_to
solve_loop-sum_to zero i = ap sum_to {x = i} (omega arith)
solve_loop-sum_to (suc n) i =
    ap (solve_loop n (i + 1 + 1)) (next i)
    ∙ solve_loop-sum_to n (i + 1)
    ∙ ap sum_to {x = i + 1 + n} (omega arith)
  where
    next : (i : ℕ) → sum_to i + (i + 1) ≡ sum_to (i + 1)
    next i = let e : suc i ≡ i + 1 = omega arith in ap (λ k. sum_to i + k) (sym e) ∙ ap sum_to e

-- `solve` answers a query with the sum of the numbers up to it.
pub solve-Solved : (pid : ℕ) (t : Task) → Solved (solve pid t)
unfolding solve solve_loop sum_to
solve-Solved pid t =
    let first : t.query + 1 ≡ suc t.query = omega arith in
    let last : 0 + t.query ≡ t.query = omega arith in
    ap pos (ap (λ n. solve_loop n 0 0) first ∙ solve_loop-sum_to t.query 0 ∙ ap sum_to last)
