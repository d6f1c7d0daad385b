-- ===== src/ListQueue/Examples.antt =====
-- A run of the queue of ps3/queue.c.
use cse.Base.{◌≡◌, refl, none, List, [], ◌∷◌}
use cse.Base.Int.{pos}
use cse.LinkedList.{Heap, init_list}
use cse.LinkedList.Chain.{IsList}
use cse.ListQueue.{init_queue, Op, enqueue, dequeue, run}
use cse.ListQueue.Fifo.{IsQueue, run_fifo, run-run_fifo}

abbrev no_nodes : Heap
no_nodes = record { node = λ p. none; brk = 0 }

init-IsQueue : IsQueue no_nodes init_queue []
init-IsQueue =
    let empty : IsList no_nodes init_list [] = record {
      head = refl;
      tail = refl;
      len = refl;
      seg = tt;
      distinct = tt;
      allocated = tt;
    } in
    record { cs = []; ds = []; one = empty; two = empty; apart = tt; content = refl }

abbrev some_ops : List Op
some_ops = enqueue (pos 4) ∷ enqueue (pos 5) ∷ dequeue ∷ enqueue (pos 6) ∷ dequeue ∷ dequeue ∷ []

run-run_fifo_example : run no_nodes init_queue some_ops ≡ run_fifo [] some_ops
run-run_fifo_example = run-run_fifo some_ops no_nodes init_queue [] init-IsQueue
