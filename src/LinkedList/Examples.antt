-- ===== src/LinkedList/Examples.antt =====
-- Runs of the list of ps3/list.c.
use cse.Base.{
  ◌≡◌, ◌⊎◌, refl, none, some, Option, List, [], ◌∷◌, ◌==◌, if◌then◌else◌, All, arith, Gives,
}
use cse.Base.Int.{pos}
use cse.Base.Sorted.{Sorted}
use mathlib.Core.List.{Perm}
use cse.LinkedList.{Ptr, IlNode, Heap, IntList, load, sort_list, free_list, push_back_list}
use cse.LinkedList.Chain.{Cells, values, IsList, Frame}
use cse.LinkedList.Sort.{sort_list-sorts}
use cse.LinkedList.Free.{free_list-frees}
use cse.LinkedList.Deque.{
  Op, push_back, push_front, pop_back, pop_front, run, run_deque, run-run_deque,
}

abbrev node_at : Ptr → Option IlNode
node_at p =
    if p == 1
    then some (record { next = 2; number = pos 8 })
    else (if p == 2 then some (record { next = 0; number = pos 5 }) else none)

abbrev two_nodes : Heap
two_nodes = record { node = node_at; brk = 2 }

abbrev two : IntList
two = record { head = 1; tail = 2; len = 2 }

abbrev cells : Cells
cells = (1, pos 8) ∷ (2, pos 5) ∷ []

two-IsList : IsList two_nodes two cells
unfolding load
two-IsList = record {
  head = refl;
  tail = refl;
  len = refl;
  seg = (refl, (refl, tt));
  distinct = (((λ e. omega arith), tt), (tt, tt));
  allocated = (omega arith, (omega arith, tt));
}

abbrev some_ops : List Op
some_ops =
    push_back (pos 4)
    ∷ push_front (pos 3)
    ∷ pop_back
    ∷ pop_front
    ∷ pop_back
    ∷ pop_back
    ∷ pop_back
    ∷ []

run-run_deque_example : run two_nodes two some_ops ≡ run_deque (values cells) some_ops
run-run_deque_example = run-run_deque some_ops two_nodes two cells two-IsList

sort_list-sorts_example :
    Gives
      (λ (h', list').
        (ds : Cells) × IsList h' list' ds
        × Sorted (values ds)
        × Perm ds cells
        × Frame two_nodes h' cells)
      (sort_list two_nodes two)
sort_list-sorts_example = sort_list-sorts two-IsList

free_list-frees_example :
    Gives
      (λ (h', list').
        (list'.head ≡ 0)
        × (list'.len ≡ 0)
        × (list'.tail ≡ two.tail)
        × All (λ d. load h' d.0 ≡ none) cells
        × Frame two_nodes h' cells
        × ((cells ≡ []) ⊎ (push_back_list h' list' (pos 1) ≡ none)))
      (free_list two_nodes two)
free_list-frees_example = free_list-frees cells (pos 1) two-IsList
