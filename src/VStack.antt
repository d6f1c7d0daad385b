-- ===== src/VStack.antt =====
-- The stack of ps3/VStack.c: a vector that starts with room for one number.
mod Bound
use cse.Base.{Bool, Option, ◌==◌}
use cse.Base.Int.{ℤ}
use cse.Vector.{
  IntVector, init_vector, push_back_vector, pop_back_vector, free_vector, length_vector,
}

abbrev pub Stack : Type 0
Stack = IntVector

unfoldable pub init_stack : Stack
init_stack = init_vector 1

unfoldable pub push_stack : Stack → ℤ → Option Stack
push_stack = push_back_vector

unfoldable pub pop_stack : Stack → Option (ℤ × Stack)
pop_stack = pop_back_vector

unfoldable pub free_stack : Stack → Stack
free_stack = free_vector

unfoldable pub is_empty : Stack → Bool
is_empty stack = length_vector stack == 0
