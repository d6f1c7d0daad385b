-- ===== src/TreeMt/Examples.antt =====
-- Runs of the tree of ps8/treeMT.c.
use cse.Base.{ℕ, ◌≡◌, refl, List, [], ◌∷◌, Gives}
use cse.Base.Int.{ℤ, pos, negsuc}
use mathlib.Core.List.{Perm}
use cse.TreeMt.{null, node, Tree}
use cse.TreeMt.Threads.{run, start}
use cse.TreeMt.Growth.{insert_list}
use cse.TreeMt.Linear.{returned_vals, run-insert_list}
use cse.TreeMt.Order.{IsSearchTree}

-- 4 with -2 below it
abbrev two : Tree
two = record { root = node (node null (negsuc 1) null) (pos 4) null }

two-IsSearchTree : IsSearchTree two.root
two-IsSearchTree = ((refl, tt, tt), tt, (tt, tt, tt, tt), tt)

-- Both threads look at the root before either goes on.
abbrev turns : List ℕ
turns = 0 ∷ 1 ∷ 0 ∷ 1 ∷ 0 ∷ 1 ∷ 0 ∷ 1 ∷ 1 ∷ 1 ∷ []

run-insert_list_example :
    Gives
      (λ s.
        (log : List ℤ) × (s.root ≡ insert_list two.root log) × Perm log (returned_vals s.threads))
      (run (start two.root (pos 3 ∷ pos 6 ∷ [])) turns)
run-insert_list_example = run-insert_list two.root (pos 3 ∷ pos 6 ∷ []) turns
