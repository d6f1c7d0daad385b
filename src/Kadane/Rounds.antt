-- ===== src/Kadane/Rounds.antt =====
-- The rounds of kadane of lab3/kadane.c: the best subarray, and the best that ends at the last number.
use cse.Base.{
  ◌^◌, none_ne_some, ℕ, zero, suc, ◌+◌, ◌≤◌, ◌<◌, ◌≡◌, ◌⊎◌, refl, sym, ap, ◌∙◌, subst, inl, inr,
  true, false, none, some, List, [], ◌∷◌, length, get_elem?, get_elem?-of_lt, Bool-cases, arith,
  Gives, gives,
}
use cse.Base.Int.{ℤ, pos, pos_part, neg_part, ◌+ℤ◌, ◌≤ℤ◌, int_laws, leb_ℤ, ltb_ℤ, +ℤ_assoc}
use mathlib.Core.Option.{some-injective}
use cse.Kadane.{SubArray, is_int, extended, extend, better, kadane_loop}

-- The sum of the first `n` numbers.
unfoldable pub prefix_sum : List ℤ → ℕ → ℤ
prefix_sum [] n = pos 0
prefix_sum (y ∷ ys) zero = pos 0
prefix_sum (y ∷ ys) (suc n) = y +ℤ prefix_sum ys n

pub zero_right : (a : ℤ) → a +ℤ pos 0 ≡ pos 0 +ℤ a
unfolding ◌+ℤ◌
zero_right a = ground arith

pub prefix_sum-zero : (ys : List ℤ) → prefix_sum ys 0 ≡ pos 0
unfolding prefix_sum
prefix_sum-zero [] = refl
prefix_sum-zero (y ∷ ys) = refl

pub prefix_sum-next :
    (ys : List ℤ) (j : ℕ) (y : ℤ)
    → get_elem? ys j ≡ some y
    → prefix_sum ys (suc j) ≡ prefix_sum ys j +ℤ y
unfolding prefix_sum
prefix_sum-next [] j y e = elim (nothing e) [ ]
  where
    nothing : {y : ℤ} → none ≡ some y → ⊥
    nothing e = cc
prefix_sum-next (z ∷ ys) zero y e =
    ap (λ a. z +ℤ a) (prefix_sum-zero ys)
    ∙ zero_right z
    ∙ ap (λ a. pos 0 +ℤ a) (some-injective _ _ e)
prefix_sum-next (z ∷ ys) (suc j) y e =
    ap (λ a. z +ℤ a) (prefix_sum-next ys j y e) ∙ sym (+ℤ_assoc z (prefix_sum ys j) y)

-- The bounds of `r` lie among the first `j` numbers, and its sum is that between them.
pub record IsSum (ys : List ℤ) (j : ℕ) (r : SubArray) : Type 0 where
  pub order : r.start ≤ r.end
  pub inside : r.end < j
  pub sum : prefix_sum ys r.start +ℤ r.sum ≡ prefix_sum ys (suc r.end)

-- `prev` is the greatest sum of the subarrays that end in front of `j`.
pub record Ends (ys : List ℤ) (j : ℕ) (prev : SubArray) : Type 0 where
  pub end : prev.end ≡ j
  pub start : prev.start < j
  pub sum : prefix_sum ys prev.start +ℤ prev.sum ≡ prefix_sum ys j
  pub greatest : (a : ℕ) → a < j → prefix_sum ys j ≤ℤ prefix_sum ys a +ℤ prev.sum

abbrev pub Greatest : List ℤ → ℕ → SubArray → Type 0
Greatest ys j best =
    (a b : ℕ) → a ≤ b → b < j → prefix_sum ys (suc b) ≤ℤ prefix_sum ys a +ℤ best.sum

pub leb_ℤ-small : (a : ℤ) → leb_ℤ a (pos 0) ≡ true → a ≤ℤ pos 0
leb_ℤ-small a h = ground arith

pub leb_ℤ-big : (a : ℤ) → leb_ℤ a (pos 0) ≡ false → pos 0 ≤ℤ a
leb_ℤ-big a h = ground arith

pub restart_le : (p q s x : ℤ) → s ≤ℤ pos 0 → p ≤ℤ q +ℤ s → p +ℤ x ≤ℤ q +ℤ x
restart_le p q s x h k = omega int_laws

pub longer_le : (p q s x : ℤ) → p ≤ℤ q +ℤ s → p +ℤ x ≤ℤ q +ℤ (s +ℤ x)
longer_le p q s x h = omega int_laws

pub positive_le : (p s x : ℤ) → pos 0 ≤ℤ s → p +ℤ x ≤ℤ p +ℤ (s +ℤ x)
positive_le p s x h = omega int_laws

pub ≤ℤ_refl : (p : ℤ) → p ≤ℤ p
≤ℤ_refl p = omega arith

pub before_or_at : (a j : ℕ) → a < suc j → (a < j) ⊎ (a ≡ j)
before_or_at a j h = omega arith

pub extend-Ends :
    (ys : List ℤ) (j : ℕ) (prev : SubArray) (x : ℤ)
    → Ends ys j prev
    → get_elem? ys j ≡ some x
    → Ends ys (suc j) (record (extended prev x) { end = (extended prev x).end + 1 })
unfolding extended
extend-Ends ys j prev x v e = elim (Bool-cases (leb_ℤ prev.sum (pos 0))) [
  | inl small ↦ rw small (record {
    end = omega (arith, v.end);
    start = omega (arith, v.end);
    sum = ap (λ k. prefix_sum ys k +ℤ x) v.end ∙ sym next;
    greatest = λ a h.
        subst (λ p. p ≤ℤ prefix_sum ys a +ℤ x) (sym next)
          (elim (before_or_at a j h) [
            | inl before ↦
                restart_le (prefix_sum ys j) (prefix_sum ys a) prev.sum x
                  (leb_ℤ-small prev.sum small) (v.greatest a before)
            | inr at ↦
                subst (λ b. prefix_sum ys j +ℤ x ≤ℤ prefix_sum ys b +ℤ x) (sym at)
                  (≤ℤ_refl (prefix_sum ys j +ℤ x))
          ]);
  })
  | inr big ↦ rw big (record {
    end = omega (arith, v.end);
    start = omega (arith, v.start);
    sum = sym (+ℤ_assoc (prefix_sum ys prev.start) prev.sum x) ∙ ap (λ p. p +ℤ x) v.sum ∙ sym next;
    greatest = λ a h.
        subst (λ p. p ≤ℤ prefix_sum ys a +ℤ (prev.sum +ℤ x)) (sym next)
          (elim (before_or_at a j h) [
            | inl before ↦
                longer_le (prefix_sum ys j) (prefix_sum ys a) prev.sum x (v.greatest a before)
            | inr at ↦
                subst (λ b. prefix_sum ys j +ℤ x ≤ℤ prefix_sum ys b +ℤ (prev.sum +ℤ x)) (sym at)
                  (positive_le (prefix_sum ys j) prev.sum x (leb_ℤ-big prev.sum big))
          ]);
  })
]
  where
    next : prefix_sum ys (suc j) ≡ prefix_sum ys j +ℤ x
    next = prefix_sum-next ys j x e

-- What `best` is behind the rounds in front of `j`.
pub record Found (ys : List ℤ) (j : ℕ) (best : SubArray) : Type 0 where
  pub is_sum : IsSum ys j best
  pub greatest : Greatest ys j best

pub ≤ℤ_trans_add : (p q s t : ℤ) → p ≤ℤ q +ℤ s → s ≤ℤ t → p ≤ℤ q +ℤ t
≤ℤ_trans_add p q s t h k = omega int_laws

pub ltb_ℤ-lt : (a b : ℤ) → ltb_ℤ a b ≡ true → a ≤ℤ b
ltb_ℤ-lt a b h = ground arith

pub ltb_ℤ-ge : (a b : ℤ) → ltb_ℤ a b ≡ false → b ≤ℤ a
ltb_ℤ-ge a b h = ground arith

-- `now` is the best subarray that ends at `j`.
pub better-Found :
    (ys : List ℤ) (j : ℕ) (best now : SubArray)
    → Found ys j best
    → now.end ≡ j
    → now.start ≤ j
    → prefix_sum ys now.start +ℤ now.sum ≡ prefix_sum ys (suc j)
    → ((a : ℕ) → a < suc j → prefix_sum ys (suc j) ≤ℤ prefix_sum ys a +ℤ now.sum)
    → Found ys (suc j) (better best now)
unfolding better
better-Found ys j best now v end start sum greatest = elim (Bool-cases (ltb_ℤ best.sum now.sum)) [
  | inl e ↦ rw e (record {
    is_sum = record {
      order = omega (arith, end);
      inside = omega (arith, end);
      sum = sum ∙ ap (λ k. prefix_sum ys (suc k)) (sym end);
    };
    greatest = λ a b le lt. elim (before_or_at b j lt) [
      | inl before ↦
          ≤ℤ_trans_add (prefix_sum ys (suc b)) (prefix_sum ys a) best.sum now.sum
            (v.greatest a b le before) (ltb_ℤ-lt best.sum now.sum e)
      | inr at ↦
          subst (λ b. prefix_sum ys (suc b) ≤ℤ prefix_sum ys a +ℤ now.sum) (sym at)
            (greatest a (omega arith))
    ];
  })
  | inr e ↦ rw e (record {
    is_sum = record {
      order = v.is_sum.order;
      inside = omega (arith, v.is_sum.inside);
      sum = v.is_sum.sum;
    };
    greatest = λ a b le lt. elim (before_or_at b j lt) [
      | inl before ↦ v.greatest a b le before
      | inr at ↦
          subst (λ b. prefix_sum ys (suc b) ≤ℤ prefix_sum ys a +ℤ best.sum) (sym at)
            (≤ℤ_trans_add (prefix_sum ys (suc j)) (prefix_sum ys a) now.sum best.sum
              (greatest a (omega arith)) (ltb_ℤ-ge best.sum now.sum e))
    ];
  })
]

-- The distance from 0.
abbrev pub size : ℤ → ℕ
size a = pos_part a + neg_part a

-- The sizes of the numbers from `j` on, added up.
unfoldable pub rest_size : List ℤ → (j : ℕ) → ℕ
rest_size [] j = 0
rest_size (y ∷ ys) zero = size y + rest_size ys 0
rest_size (y ∷ ys) (suc j) = rest_size ys j

rest_size-next :
    (ys : List ℤ) (j : ℕ) (x : ℤ)
    → get_elem? ys j ≡ some x
    → rest_size ys j ≡ size x + rest_size ys (suc j)
unfolding rest_size
rest_size-next [] j x e = none_ne_some e
rest_size-next (y ∷ ys) zero x e = ap (λ z. size z + rest_size ys 0) (some-injective _ _ e)
rest_size-next (y ∷ ys) (suc j) x e = rest_size-next ys j x e

size-is_int : (a b : ℤ) → size a + size b < 2 ^ 31 → is_int (a +ℤ b) ≡ true
unfolding ◌+ℤ◌
size-is_int a b h = ground arith

-- While the sizes stay below 2 ^ 31 no addition overflows.
pub extend-some :
    (prev : SubArray) (x : ℤ)
    → size prev.sum + size x < 2 ^ 31
    → extend prev x ≡ some (extended prev x)
unfolding extend
extend-some prev x h = elim (Bool-cases (leb_ℤ prev.sum (pos 0))) [
  | inl e ↦ rw e refl
  | inr e ↦ rw (e, size-is_int prev.sum x h) refl
]

size-extended : (prev : SubArray) (x : ℤ) → size (extended prev x).sum ≤ size prev.sum + size x
unfolding extended ◌+ℤ◌
size-extended prev x = ground arith

pub kadane_loop-Found :
    (ys : List ℤ) (rounds j : ℕ) (best prev : SubArray)
    → j + rounds ≡ length ys
    → Found ys j best
    → Ends ys j prev
    → size prev.sum + rest_size ys j < 2 ^ 31
    → Gives (Found ys (length ys)) (kadane_loop ys rounds j best prev)
unfolding kadane_loop
kadane_loop-Found ys zero j best prev count v w small =
    let whole : j ≡ length ys = omega arith in gives (subst (λ k. Found ys k best) whole v)
kadane_loop-Found ys (suc n) j best prev count v w small =
    let (x, e) = get_elem?-of_lt ys j (omega arith) in
    let w' = extend-Ends ys j prev x w e in
    let one : suc j ≡ j + 1 = omega arith in
    let now = extended prev x in
    let next = rest_size-next ys j x e ∙ ap (λ k. size x + rest_size ys k) one in
    let in_range = extend-some prev x (omega (arith, small, next)) in
    let v' =
      better-Found ys j best now v (omega (arith, w'.end)) (omega (arith, w'.start)) w'.sum
        w'.greatest in
    rw (e, in_range)
      (kadane_loop-Found ys n (j + 1) (better best now) (record now { end = now.end + 1 })
        (omega arith) (subst (λ k. Found ys k (better best now)) one v')
        (subst (λ k. Ends ys k (record now { end = now.end + 1 })) one w')
        (omega (arith, small, next, size-extended prev x)))
