-- ===== src/Union/Orders.antt =====
-- Reading back what setUnion stored, and what the comparisons of lab5/union.c order by.
use cse.Base.{
  ℕ, zero, suc, ◌+◌, ◌-◌, ◌%◌, ◌^◌, ◌≤◌, ◌<◌, ◌≡◌, refl, ap, ==_iff, ◌⊎◌, inl, inr, none, some,
  arith, ◌==◌, Bool-cases,
}
use cse.Base.Int.{ℤ, pos, negsuc, ◌+ℤ◌, int_laws}
use cse.Union.{
  Variant, ch, uint, int, signed8, signed32, set_union, char_value, uint_value, int_value,
  get_union, comp_uint, comp_union, compare_union_ascending, compare_union_descending, negate,
}

-- Whatever the union held before, `getUnion` finds the value that `setUnion` was given, at each of
-- the three types: a char by its byte, the others by their four bytes.
pub get-set_union :
    (u : Variant) (value : ℕ)
    → (get_union (set_union u ch value) ≡ some (char_value (signed8 (value % 256))))
      × (get_union (set_union u uint value) ≡ some (uint_value value))
      × (get_union (set_union u int value) ≡ some (int_value (signed32 value)))
unfolding get_union set_union
get-set_union u value = (ap (λ b. some (char_value (signed8 b))) (omega arith), refl, refl)

-- For two variants of one tag the table of functions gives what the switch of `compUnion` gives.
pub compare_union_ascending-comp_union :
    (u v : Variant) → u.tag ≡ v.tag → compare_union_ascending u v ≡ comp_union u v
unfolding compare_union_ascending comp_union
compare_union_ascending-comp_union u v h = rw ((==_iff u.tag v.tag).1 h)

-- compUINT has the sign of the comparison while the two numbers are less than 2 ^ 31 apart; from a
-- distance of 2 ^ 31 on the larger number counts as the smaller one.
pub comp_uint-sign :
    (u v : Variant)
    → u.val < 2 ^ 32
    → v.val ≤ u.val
    → ((u.val < v.val + 2 ^ 31) × (comp_uint u v ≡ some (pos (u.val - v.val))))
      ⊎ ((v.val + 2 ^ 31 ≤ u.val) × (comp_uint u v ≡ some (negsuc (2 ^ 32 - 1 - (u.val - v.val)))))
unfolding comp_uint signed32
comp_uint-sign u v h k = ground arith

-- compareUnionDescending turns the sign of compareUnionAscending round: where the one says that `u`
-- is below `v` the other says that it is above, and equal stays equal. It overflows, which is
-- undefined in C, where the ascending comparison gives the least `int`.
pub compare_union_descending-negates :
    (u v : Variant) {r : ℤ}
    → compare_union_ascending u v ≡ some r
    → ((r ≡ negsuc (2 ^ 31 - 1)) × (compare_union_descending u v ≡ none))
      ⊎ ((s : ℤ) × (compare_union_descending u v ≡ some s) × (r +ℤ s ≡ pos 0))
unfolding compare_union_descending
compare_union_descending-negates u v {r} h = rw h (negate-sum r)
  where
    negate-sum :
        (x : ℤ)
        → ((x ≡ negsuc (2 ^ 31 - 1)) × (negate x ≡ none))
          ⊎ ((s : ℤ) × (negate x ≡ some s) × (x +ℤ s ≡ pos 0))
    negate-sum (pos zero) = inr (pos 0, refl, omega int_laws)
    negate-sum (pos (suc n)) = inr (negsuc n, refl, omega int_laws)
    negate-sum (negsuc n) = elim (Bool-cases (n == 2 ^ 31 - 1)) [
      | inl e ↦ inl (ap negsuc ((==_iff n (2 ^ 31 - 1)).0 e), rw e)
      | inr e ↦ inr (pos (suc n), rw e, omega int_laws)
    ]
