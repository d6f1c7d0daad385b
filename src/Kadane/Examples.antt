-- ===== src/Kadane/Examples.antt =====
-- Runs of lab3/kadane.c.
use cse.Base.{none, ◌<◌, ◌^◌, ◌≡◌, refl, some, List, [], ◌∷◌, suc, length, arith, Gives}
use cse.Base.Int.{ℤ, pos, negsuc, ◌+ℤ◌, ◌≤ℤ◌}
use cse.Kadane.{kadane}
use cse.Kadane.Greatest.{counted, kadane-greatest}
use cse.Kadane.Rounds.{IsSum, prefix_sum, rest_size}

-- Of 3, -4 and 5 the last alone has the greatest sum, but `kadane` takes all three, for a sum of 7.
three-kadane :
    kadane (pos 3 ∷ negsuc 3 ∷ pos 5 ∷ []) 3 ≡ some (record { start = 0; end = 2; sum = pos 7 })
unfolding kadane cse.Kadane.kadane_loop cse.Kadane.extend cse.Kadane.extended cse.Kadane.better
    cse.Base.Int.◌+ℤ◌
three-kadane = refl

-- 2 ^ 30 alone is added to itself.
too_big : kadane (pos 1073741824 ∷ []) 1 ≡ none
unfolding kadane cse.Kadane.kadane_loop cse.Kadane.extend cse.Kadane.extended cse.Base.Int.◌+ℤ◌
too_big = refl

three_small : rest_size (counted (pos 3) ∷ negsuc 3 ∷ pos 5 ∷ []) 0 < 2 ^ 31
unfolding rest_size counted cse.Base.Int.◌+ℤ◌
three_small = omega arith

kadane-greatest_example :
    let ys = counted (pos 3) ∷ negsuc 3 ∷ pos 5 ∷ [] in
    Gives
      (λ r. IsSum ys (length ys) r × (prefix_sum ys 3 ≤ℤ prefix_sum ys 2 +ℤ r.sum))
      (kadane (pos 3 ∷ negsuc 3 ∷ pos 5 ∷ []) 3)
kadane-greatest_example =
    kadane-greatest (pos 3) (negsuc 3 ∷ pos 5 ∷ []) 2 2 three_small (omega arith) (omega arith)
