-- ===== src/LinkedList/Deque.antt =====
-- The list of ps3/list.c as its clients see it: numbers in a row, at both ends of which they push and pop.
use cse.Base.{
  suc, ◌≡◌, refl, sym, ap, ◌∙◌, subst, inl, inr, none, some, Option, List, [], ◌∷◌, ◌++◌, ◌>>=◌,
  Gives-value,
}
use cse.Base.Int.{ℤ}
use cse.LinkedList.{Heap, IntList, push_back_list, pop_back_list, push_front_list, pop_front_list}
use cse.LinkedList.Chain.{values-snoc, Cells, values, IsList, rsplit}
use cse.LinkedList.Ends.{push_front-cons, pop_front-cons, push_back-append}
use cse.LinkedList.Back.{pop_back-append, pop-empty}

pub data Op : Type 0 where
  push_back : ℤ → Op
  push_front : ℤ → Op
  pop_back : Op
  pop_front : Op

-- The numbers that a client pops.
unfoldable pub run : Heap → IntList → List Op → Option (List ℤ)
run h list [] = some []
run h list (push_back num ∷ ops) = do (h, list) ← push_back_list h list num; run h list ops
run h list (push_front num ∷ ops) = let (h, list) = push_front_list h list num in run h list ops
run h list (pop_back ∷ ops) = do
  (x, h, list) ← pop_back_list h list
  xs ← run h list ops
  some (x ∷ xs)
run h list (pop_front ∷ ops) = do
  (x, h, list) ← pop_front_list h list
  xs ← run h list ops
  some (x ∷ xs)

-- The last number, and those before it.
abbrev pub unsnoc : ℤ → List ℤ → List ℤ × ℤ
unsnoc x [] = ([], x)
unsnoc x (y ∷ ys) = let (zs, z) = unsnoc y ys in (x ∷ zs, z)

unfoldable pub run_deque : List ℤ → List Op → Option (List ℤ)
run_deque xs [] = some []
run_deque xs (push_back num ∷ ops) = run_deque (xs ++ num ∷ []) ops
run_deque xs (push_front num ∷ ops) = run_deque (num ∷ xs) ops
run_deque [] (pop_back ∷ ops) = none
run_deque (x ∷ xs) (pop_back ∷ ops) = do
  ys ← run_deque (unsnoc x xs).0 ops
  some ((unsnoc x xs).1 ∷ ys)
run_deque [] (pop_front ∷ ops) = none
run_deque (x ∷ xs) (pop_front ∷ ops) = do ys ← run_deque xs ops; some (x ∷ ys)

-- A pop from a list that ends in `x`.
run_deque-snoc :
    (xs : List ℤ) (x : ℤ) (ops : List Op)
    → run_deque (xs ++ x ∷ []) (pop_back ∷ ops) ≡ (run_deque xs ops >>= λ ys. some (x ∷ ys))
unfolding run_deque
run_deque-snoc [] x ops = refl
run_deque-snoc (y ∷ xs) x ops = rw (unsnoc-snoc y xs x) refl
  where
    unsnoc-snoc : (y : ℤ) (xs : List ℤ) (x : ℤ) → unsnoc y (xs ++ x ∷ []) ≡ (y ∷ xs, x)
    unsnoc-snoc y [] x = refl
    unsnoc-snoc y (z ∷ xs) x = rw (unsnoc-snoc z xs x) refl

-- What a client of the list of `cs` pops, whatever it pushes and pops at both ends, is what it pops
-- from a list of the numbers; both stop at the same pop, the first one of an empty list.
pub run-run_deque :
    (ops : List Op) (h : Heap) (list : IntList) (cs : Cells)
    → IsList h list cs
    → run h list ops ≡ run_deque (values cs) ops
unfolding run run_deque
run-run_deque [] h list cs v = refl
run-run_deque (push_back num ∷ ops) h list cs v =
    let ((h', list'), e, (v', _)) = Gives-value (push_back-append num v) in
    rw e (
      run-run_deque ops h' list' (cs ++ (suc h.brk, num) ∷ []) v'
      ∙ ap (λ xs. run_deque xs ops) (values-snoc cs (suc h.brk) num))
run-run_deque (push_front num ∷ ops) h list cs v =
    let (h', list') = push_front_list h list num in
    run-run_deque ops h' list' ((suc h.brk, num) ∷ cs) (push_front-cons num v).0
run-run_deque (pop_back ∷ ops) h list cs v = elim (rsplit cs) [
  | inl e ↦ rw (e, (pop-empty (subst (IsList h list) e v)).0) refl
  | inr (ds, (t, x), e) ↦
      let ((r, h', list'), popped, (same, (v', _))) =
        Gives-value (pop_back-append ds t x (subst (IsList h list) e v)) in
      rw (popped, same, run-run_deque ops h' list' ds v')
        (sym (
          ap (λ cs. run_deque (values cs) (pop_back ∷ ops)) e
          ∙ ap (λ xs. run_deque xs (pop_back ∷ ops)) (values-snoc ds t x)
          ∙ run_deque-snoc (values ds) x ops))
]
run-run_deque (pop_front ∷ ops) h list [] v = rw ((pop-empty v).1) refl
run-run_deque (pop_front ∷ ops) h list ((a, x) ∷ cs) v =
    let ((r, h', list'), e, (same, (v', _))) = Gives-value (pop_front-cons v) in
    rw (e, same, run-run_deque ops h' list' cs v') refl
