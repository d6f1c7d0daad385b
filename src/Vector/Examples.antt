-- ===== src/Vector/Examples.antt =====
-- Runs of the vector of ps3/vector.c.
use cse.Base.{◌≡◌, refl, none, some, List, [], ◌∷◌, arith, Gives}
use cse.Base.Int.{ℤ, pos}
use cse.Base.Sorted.{Sorted}
use mathlib.Core.List.{Perm}
use cse.Vector.{IntVector, push_back_vector, push_front_vector, pop_front_vector, sort_vector}
use cse.Vector.Cells.{Contents, IsValid}
use cse.Vector.Ends.{full-faults}
use cse.Vector.Sort.{sort_vector-sorts}

-- 7 and 5 in a block of three cells
abbrev two : IntVector
two = record { buf = some (pos 7) ∷ some (pos 5) ∷ none ∷ []; len = 2; cap = 3 }

-- 7 and 5 in a block of two cells
abbrev full : IntVector
full = record { buf = some (pos 7) ∷ some (pos 5) ∷ []; len = 2; cap = 2 }

abbrev numbers : List ℤ
numbers = pos 7 ∷ pos 5 ∷ []

two-Contents : Contents two numbers (none ∷ [])
two-Contents = record { cells = refl; count = refl }

two-IsValid : IsValid two
two-IsValid = record { block = refl; small = omega arith; fits = omega arith }

full-faults_example :
    (push_back_vector full (pos 9) ≡ none)
    × (push_front_vector full (pos 9) ≡ none)
    × (pop_front_vector full ≡ none)
full-faults_example = full-faults full (pos 9) refl refl

sort_vector-sorts_example :
    Gives
      (λ w.
        (ys : List ℤ) × Contents w ys (none ∷ [])
        × Sorted ys
        × Perm ys numbers
        × (w.len ≡ 2)
        × (w.cap ≡ 3))
      (sort_vector two)
sort_vector-sorts_example = sort_vector-sorts numbers two-Contents
