-- ===== src/Kadane.antt =====
-- The greatest sum of a subarray in lab3/kadane.c; a sum that is no `int` is a fault.
pub mod Rounds
pub mod Greatest
mod Examples
use cse.Base.{
  Bool, ◌||◌, ◌^◌, ltb, assert, ◌>>◌, ℕ, zero, suc, ◌+◌, Option, none, some, List, if◌then◌else◌,
  get_elem?, ◌>>=◌,
}
use cse.Base.Int.{ℤ, pos, negsuc, ◌+ℤ◌, leb_ℤ, ltb_ℤ}

pub record SubArray : Type 0 where
  pub start : ℕ
  pub end : ℕ
  pub sum : ℤ

abbrev pub is_int : ℤ → Bool
is_int (pos n) = ltb n (2 ^ 31)
is_int (negsuc n) = ltb n (2 ^ 31)

-- The best subarray that ends at `prev.end`, when the number there is `x`.
unfoldable pub extended : SubArray → ℤ → SubArray
extended prev x =
    if leb_ℤ prev.sum (pos 0)
    then record prev { start = prev.end; sum = x }
    else record prev { sum = prev.sum +ℤ x }

-- The addition overflows when its result is no `int`.
unfoldable pub extend : SubArray → ℤ → Option SubArray
extend prev x = do assert (leb_ℤ prev.sum (pos 0) || is_int (prev.sum +ℤ x)); some (extended prev x)

unfoldable pub better : (best prev : SubArray) → SubArray
better best prev =
    if ltb_ℤ best.sum prev.sum
    then record { sum = prev.sum; start = prev.start; end = prev.end }
    else best

-- The rounds of the loop from `j` on.
unfoldable pub kadane_loop : List ℤ → (rounds j : ℕ) → (best prev : SubArray) → Option SubArray
kadane_loop numbers zero j best prev = some best
kadane_loop numbers (suc rounds) j best prev = do
  x ← get_elem? numbers j
  now ← extend prev x
  kadane_loop numbers rounds (j + 1) (better best now) (record now { end = now.end + 1 })

-- A read outside the array is a fault.
unfoldable pub kadane : (numbers : List ℤ) → (length : ℕ) → Option SubArray
kadane numbers length = do
  x ← get_elem? numbers 0
  kadane_loop numbers length 0 (record { start = 0; end = 0; sum = x })
      (record { start = 0; end = 0; sum = x })
