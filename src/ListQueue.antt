-- ===== src/ListQueue.antt =====
-- The stack on the linked list, ps3/LStack.c, and the queue of two such stacks, ps3/queue.c.
pub mod Flip
pub mod Fifo
mod Examples
use cse.Base.{
  ℕ, zero, suc, ◌+◌, Bool, Option, none, some, List, [], ◌∷◌, ◌==◌, if◌then◌else◌, ◌>>=◌,
}
use cse.Base.Int.{ℤ}
use cse.LinkedList.{Heap, IntList, init_list, free_list, push_back_list, pop_back_list, length_list}

abbrev pub init_stack : IntList
init_stack = init_list

abbrev pub push_stack : Heap → IntList → ℤ → Option (Heap × IntList)
push_stack h stack number = push_back_list h stack number

abbrev pub pop_stack : Heap → IntList → Option (ℤ × Heap × IntList)
pop_stack h stack = pop_back_list h stack

abbrev pub free_stack : Heap → IntList → Option (Heap × IntList)
free_stack h stack = free_list h stack

unfoldable pub is_empty : IntList → Bool
is_empty stack = length_list stack == 0

pub record Queue : Type 0 where
  pub one : IntList
  pub two : IntList

abbrev pub init_queue : Queue
init_queue = record { one = init_stack; two = init_stack }

unfoldable pub en_queue : Heap → Queue → ℤ → Option (Heap × Queue)
en_queue h q number = do (h, one) ← push_stack h q.one number; some (h, record q { one = one })

-- The loop of `deQueue`: each round takes one element off the first stack.
unfoldable pub flip_loop : Heap → (fuel : ℕ) → Queue → Option (Heap × Queue)
flip_loop h zero q = none
flip_loop h (suc fuel) q =
    let round = (do
      (x, h, one) ← pop_stack h q.one
      (h, two) ← push_stack h q.two x
      flip_loop h fuel (record { one = one; two = two })) in
    if is_empty q.one then some (h, q) else round

unfoldable pub de_queue : Heap → Queue → Option (ℤ × Heap × Queue)
de_queue h q = do
  (h, q) ← if is_empty q.two then flip_loop h (q.one.len + 1) q else some (h, q)
  (x, h, two) ← pop_stack h q.two
  some (x, h, record q { two = two })

unfoldable pub free_queue : Heap → Queue → Option (Heap × Queue)
free_queue h q = do
  (h, one) ← free_stack h q.one
  (h, two) ← free_stack h q.two
  some (h, record { one = one; two = two })

-- What a client of the queue does.
pub data Op : Type 0 where
  enqueue : ℤ → Op
  dequeue : Op

-- The numbers that the client gets.
unfoldable pub run : Heap → Queue → List Op → Option (List ℤ)
run h q [] = some []
run h q (enqueue number ∷ ops) = do (h, q) ← en_queue h q number; run h q ops
run h q (dequeue ∷ ops) = do (x, h, q) ← de_queue h q; xs ← run h q ops; some (x ∷ xs)
