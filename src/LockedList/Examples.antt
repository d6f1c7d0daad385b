-- ===== src/LockedList/Examples.antt =====
-- Runs of the definitions of lab10/dllist.c.
use cse.Base.{ℕ, ◌≡◌, refl, none, some, List, [], ◌∷◌, Gives, ◌>>=◌}
use cse.Base.Int.{ℤ, pos, negsuc}
use cse.LockedList.{
  init_list, entering, looking, System, run, start, print_list_forward, move, advance, look,
  insert_before, set_next, set_prv, is_free, holds, print_from,
}
use cse.LockedList.Runs.{IsSorted, run-IsSorted}
use cse.LockedList.Progress.{Progress, run-progress}

abbrev vals : List ℤ
vals = pos 3 ∷ negsuc 0 ∷ pos 2 ∷ []

-- All take turns.
abbrev turns : List ℕ
turns = 0 ∷ 1 ∷ 0 ∷ 2 ∷ 1 ∷ 1 ∷ 2 ∷ 2 ∷ 1 ∷ 2 ∷ 2 ∷ 2 ∷ 1 ∷ 1 ∷ []

prints :
    (run (start vals) turns >>= λ s. print_list_forward 4 s.list)
    ≡ some (negsuc 0 ∷ pos 2 ∷ pos 3 ∷ [])
unfolding run move advance look insert_before set_next set_prv is_free holds print_from
prints = refl

run-IsSorted_example : Gives IsSorted (run (start vals) turns)
run-IsSorted_example = run-IsSorted vals turns

-- Thread 1 waits for the lock of the list, which thread 0 has.
abbrev waiting : System
waiting = record {
  list = init_list;
  threads =
      record { val = pos 3; phase = looking none none }
      ∷ record { val = negsuc 0; phase = entering }
      ∷ [];
}

run-waiting : run (start (pos 3 ∷ negsuc 0 ∷ [])) (0 ∷ 1 ∷ []) ≡ some waiting
unfolding run move advance is_free holds
run-waiting = refl

run-progress_example : Progress waiting
run-progress_example =
    run-progress (pos 3 ∷ negsuc 0 ∷ []) (0 ∷ 1 ∷ []) waiting 1
      (record { val = negsuc 0; phase = entering }) run-waiting refl refl
