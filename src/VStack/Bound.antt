-- ===== src/VStack/Bound.antt =====
-- How many numbers the stack of ps3/VStack.c can hold.
use cse.Base.{◌≡◌, refl, none, some, ◌>>=◌}
use cse.Base.Int.{ℤ}
use cse.Vector.{
  init_vector, load, store, make_room, expand_vector, push_back_vector, pop_back_vector,
}
use cse.VStack.{init_stack, push_stack, pop_stack}

-- A new stack takes one number and gives it back, but a second number on top of the first is written
-- behind the block of the vector.
pub push_stack-twice :
    (x y : ℤ)
    → ((push_stack init_stack x >>= pop_stack >>= λ r. some r.0) ≡ some x)
      × ((push_stack init_stack x >>= λ s. push_stack s y) ≡ none)
unfolding init_stack push_stack pop_stack init_vector push_back_vector pop_back_vector make_room
    expand_vector load store
push_stack-twice x y = (refl, refl)
