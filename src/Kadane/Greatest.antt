-- ===== src/Kadane/Greatest.antt =====
-- What kadane of lab3/kadane.c finds.
use cse.Base.{
  some, ◌^◌, ℕ, zero, suc, ◌+◌, ◌≤◌, ◌<◌, ◌≡◌, refl, sym, ap, ap₂, ◌∙◌, subst, inl, inr, true,
  false, List, ◌∷◌, length, get_elem?, Bool-cases, if◌then◌else◌, under, arith, Gives, Gives-mono,
}
use cse.Base.Int.{ℤ, pos, ◌+ℤ◌, ◌≤ℤ◌, leb_ℤ, ltb_ℤ}
use cse.Kadane.{SubArray, is_int, extended, extend, better, kadane_loop, kadane}
use cse.Kadane.Rounds.{
  prefix_sum, zero_right, prefix_sum-zero, IsSum, Ends, ≤ℤ_refl, Found, kadane_loop-Found, size,
  rest_size,
}

-- The first number as the loop counts it: `prev` starts with it, and the first round adds it again.
unfoldable pub counted : ℤ → ℤ
counted x = if leb_ℤ x (pos 0) then x else x +ℤ x

doubled : (x : ℤ) → leb_ℤ x (pos 0) ≡ false → ltb_ℤ x (x +ℤ x) ≡ true
unfolding ◌+ℤ◌
doubled x h = ground arith

ltb_ℤ-self : (x : ℤ) → ltb_ℤ x x ≡ false
ltb_ℤ-self x = ground arith

-- The round of the first number.
first_round :
    (x : ℤ)
    → let first : SubArray = record { start = 0; end = 0; sum = x } in
      (extended first x ≡ record { start = 0; end = 0; sum = counted x })
      × (better first (extended first x) ≡ record { start = 0; end = 0; sum = counted x })
unfolding extended better counted
first_round x = elim (Bool-cases (leb_ℤ x (pos 0))) [
  | inl e ↦ rw (e, ltb_ℤ-self x) (refl, refl)
  | inr e ↦ rw (e, doubled x e) (refl, refl)
]

kadane_loop-rest :
    (x y : ℤ) (xs : List ℤ) (rounds j : ℕ) (best prev : SubArray)
    → kadane_loop (x ∷ xs) rounds (suc j) best prev ≡ kadane_loop (y ∷ xs) rounds (suc j) best prev
unfolding kadane_loop
kadane_loop-rest x y xs zero j best prev = refl
kadane_loop-rest x y xs (suc n) j best prev = under (get_elem? xs j) _ _ (λ z.
    under (extend prev z) _ _ (λ now.
      let moved : SubArray = record now { end = now.end + 1 } in
      let next : suc j + 1 ≡ suc (j + 1) = omega arith in
      ap (λ k. kadane_loop (x ∷ xs) n k (better best now) moved) next
      ∙ kadane_loop-rest x y xs n (j + 1) (better best now) moved
      ∙ ap (λ k. kadane_loop (y ∷ xs) n k (better best now) moved) (sym next)))

-- For the numbers `y ∷ xs`, the state behind the first round.
below_one : (k : ℕ) → k < 1 → k ≡ 0
below_one k h = omega arith

one_number :
    (y : ℤ) (xs : List ℤ)
    → Found (y ∷ xs) 1 (record { start = 0; end = 0; sum = y })
      × Ends (y ∷ xs) 1 (record { start = 0; end = 1; sum = y })
unfolding prefix_sum
one_number y xs =
    let from_zero = λ (a : ℕ) (lt : a < 1).
      subst (λ k. prefix_sum (y ∷ xs) 1 ≤ℤ prefix_sum (y ∷ xs) k +ℤ y) (sym (below_one a lt))
        (subst (λ p. p ≤ℤ pos 0 +ℤ y) whole (≤ℤ_refl (pos 0 +ℤ y))) in
    (
      record {
        is_sum = record { order = omega arith; inside = omega arith; sum = whole };
        greatest = λ a b le lt.
            subst (λ k. prefix_sum (y ∷ xs) (suc k) ≤ℤ prefix_sum (y ∷ xs) a +ℤ y)
              (sym (below_one b lt)) (from_zero a (omega arith));
      },
      record { end = refl; start = omega arith; sum = whole; greatest = from_zero },
    )
  where
    whole : pos 0 +ℤ y ≡ y +ℤ prefix_sum xs 0
    whole = sym (zero_right y) ∙ ap (λ a. y +ℤ a) (sym (prefix_sum-zero xs))

-- The first addition doubles the first number.
first-extend :
    (x : ℤ)
    → size (counted x) < 2 ^ 31
    → let first : SubArray = record { start = 0; end = 0; sum = x } in
      extend first x ≡ some (extended first x)
unfolding extend counted
first-extend x h = elim (Bool-cases (leb_ℤ x (pos 0))) [
  | inl e ↦ rw e refl
  | inr e ↦
      let g : size (x +ℤ x) < 2 ^ 31 = rw e at h in
      let fits : is_int (x +ℤ x) ≡ true = size_fits (x +ℤ x) g in rw (e, fits) refl
]
  where
    size_fits : (a : ℤ) → size a < 2 ^ 31 → is_int a ≡ true
    size_fits a h = ground arith

-- The rounds behind the first one.
kadane-rounds :
    (x : ℤ) (xs : List ℤ) (n : ℕ)
    → size (counted x) < 2 ^ 31
    → kadane (x ∷ xs) (suc n)
      ≡ kadane_loop
          (counted x ∷ xs)
          n
          1
          (record { start = 0; end = 0; sum = counted x })
          (record { start = 0; end = 1; sum = counted x })
unfolding kadane kadane_loop
kadane-rounds x xs n small =
    let at_first : SubArray = record { start = 0; end = 0; sum = counted x } in
    rw (first-extend x small) (
      ap₂ (λ best prev. kadane_loop (x ∷ xs) n 1 best (record prev { end = prev.end + 1 }))
        (first_round x).1 (first_round x).0
      ∙ kadane_loop-rest x (counted x) xs n 0 at_first (record at_first { end = 1 }))

-- Where the sizes of the numbers, the first one doubled when it is above 0, add up to less than 2 ^ 31,
-- so that no sum overflows, `kadane` finds a subarray whose sum is the greatest of all, with the first
-- number counted twice when it is above 0: for `a` and `b` in the array no sum of the numbers from `a` to
-- `b` is greater than the one it returns, which is the sum of the numbers from its start to its end.
pub kadane-greatest :
    (x : ℤ) (xs : List ℤ) (a b : ℕ)
    → rest_size (counted x ∷ xs) 0 < 2 ^ 31
    → a ≤ b
    → b < suc (length xs)
    → let ys = counted x ∷ xs in
      Gives
        (λ r. IsSum ys (length ys) r × (prefix_sum ys (suc b) ≤ℤ prefix_sum ys a +ℤ r.sum))
        (kadane (x ∷ xs) (suc (length xs)))
unfolding rest_size
kadane-greatest x xs a b small le lt =
    let y = counted x in
    let (v, w) = one_number y xs in
    let at_first : SubArray = record { start = 0; end = 0; sum = y } in
    let behind : SubArray = record { start = 0; end = 1; sum = y } in
    rw (kadane-rounds x xs (length xs) (omega (arith, small))) (
      Gives-mono
        (kadane_loop-Found (y ∷ xs) (length xs) 1 at_first behind (omega arith) v w
          (omega (arith, small)))
        (λ r found. (found.is_sum, found.greatest a b le lt)))
