-- ===== src/PowerMod/Power.antt =====
-- powmod of ps1/powerMod.c against the power itself.
use cse.Base.{
  ℕ, zero, suc, ◌+◌, ◌*◌, ◌/◌, ◌%◌, ◌^◌, ◌≤◌, ◌<◌, ◌≡◌, ◌≢◌, inl, inr, sym, ap, ◌∙◌, true, false,
  some, refl, lt→ltb, ◌==◌, if◌then◌else◌, Bool-cases, arith,
}
use native.Mathlib.Nat.{
  div-add-mod, mod-lt, mod-mod, mod-eq_of_lt, add-mul-mod_self_left, pow-suc, pow-zero,
  mul-le-mul_left,
}
use cse.PowerMod.{int_mul, powmod_from, powmod}

mod_mul : (a b m : ℕ) → a % m * b % m ≡ a * b % m
mod_mul a b m =
    sym (add-mul-mod_self_left (a % m * b) m (a / m * b))
    ∙ ap (λ k. k % m) (parts m (a / m) (a % m) b ∙ ap (λ k. k * b) (div-add-mod a m))
  where
    parts : (m q r b : ℕ) → r * b + m * (q * b) ≡ (m * q + r) * b
    parts m q r b = grind arith

mul_mod : (a b m : ℕ) → a * (b % m) % m ≡ a * b % m
mul_mod a b m = ap (λ k. k % m) (swap a (b % m)) ∙ mod_mul b a m ∙ ap (λ k. k % m) (swap b a)
  where
    swap : (a b : ℕ) → a * b ≡ b * a
    swap a b = grind arith

pow_mod : (a k m : ℕ) → (a % m) ^ k % m ≡ a ^ k % m
pow_mod a zero m = ap (λ p. p % m) (pow-zero (a % m) ∙ sym (pow-zero a))
pow_mod a (suc k) m =
    ap (λ p. p % m) (pow-suc (a % m) k)
    ∙ mul_mod ((a % m) ^ k) a m
    ∙ sym (mod_mul ((a % m) ^ k) a m)
    ∙ ap (λ p. p * a % m) (pow_mod a k m)
    ∙ mod_mul (a ^ k) a m
    ∙ ap (λ p. p % m) (sym (pow-suc a k))

pow_square : (n k : ℕ) → (n * n) ^ k ≡ n ^ (2 * k)
pow_square n zero = pow-zero (n * n) ∙ sym (pow-zero n)
pow_square n (suc k) =
    let two_more : 2 * suc k ≡ suc (suc (2 * k)) = omega arith in
    pow-suc (n * n) k
    ∙ ap (λ p. p * (n * n)) (pow_square n k)
    ∙ again (n ^ (2 * k)) n
    ∙ sym (ap (λ e. n ^ e) two_more ∙ pow-suc n (suc (2 * k)) ∙ ap (λ p. p * n) (pow-suc n (2 * k)))
  where
    again : (p n : ℕ) → p * (n * n) ≡ p * n * n
    again p n = grind arith

-- The power of the square, as the recursion has it.
half_power : (n x m : ℕ) → (n * n % m) ^ (x / 2) % m % m ≡ n ^ (2 * (x / 2)) % m
half_power n x m =
    mod-mod ((n * n % m) ^ (x / 2)) m
    ∙ pow_mod (n * n) (x / 2) m
    ∙ ap (λ p. p % m) (pow_square n (x / 2))

zero_pow : (x m : ℕ) → 1 < m → 0 < x → 0 ≡ 0 ^ x % m
zero_pow zero m h pos = elim pos [ ]
zero_pow (suc k) m h pos =
    let positive : 0 < m = omega arith in
    sym (ap (λ p. p % m) (pow-suc 0 k ∙ times_zero (0 ^ k)) ∙ mod-eq_of_lt positive)
  where
    times_zero : (p : ℕ) → p * 0 ≡ 0
    times_zero p = omega arith

one_power : (x : ℕ) → 1 ^ x ≡ 1
one_power zero = pow-zero 1
one_power (suc k) = pow-suc 1 k ∙ ap (λ p. p * 1) (one_power k)

-- Both sides of a test.
if_eq :
    {A : Type 0} (a b : ℕ) {u v w : A}
    → (a ≡ b → u ≡ w)
    → (a ≢ b → v ≡ w)
    → (if a == b then u else v) ≡ w
if_eq a b same other = elim (Bool-cases (a == b)) [
  | inl e ↦ rw e (same (equal a b e))
  | inr e ↦ rw e (other (differ a b e))
]
  where
    equal : (a b : ℕ) → (a == b) ≡ true → a ≡ b
    equal a b e = ground arith

    differ : (a b : ℕ) → (a == b) ≡ false → a ≢ b
    differ a b e = ground arith

even_power : (n x m : ℕ) → x % 2 ≡ 0 → (n * n % m) ^ (x / 2) % m % m ≡ n ^ x % m
even_power n x m even =
    let whole : 2 * (x / 2) ≡ x = omega (arith, div-add-mod x 2) in
    half_power n x m ∙ ap (λ e. n ^ e % m) whole

odd_power : (n x m : ℕ) → x % 2 ≢ 0 → n * ((n * n % m) ^ (x / 2) % m % m) % m ≡ n ^ x % m
odd_power n x m odd =
    let whole : suc (2 * (x / 2)) ≡ x = omega (arith, div-add-mod x 2) in
    ap (λ p. n * p % m) (half_power n x m)
    ∙ mul_mod n (n ^ (2 * (x / 2))) m
    ∙ ap (λ p. p % m)
        (swap n (n ^ (2 * (x / 2))) ∙ sym (pow-suc n (2 * (x / 2))) ∙ ap (λ e. n ^ e) whole)
  where
    swap : (a b : ℕ) → a * b ≡ b * a
    swap a b = grind arith

-- 46340 is the greatest number whose square is an `int`.
small_product : (a b : ℕ) → a ≤ 46340 → b ≤ 46340 → a * b < 2 ^ 31
small_product a b h k = omega (arith, mul-le-mul_left a k, mul-le-mul_left 46340 h, swap a)
  where
    swap : (a : ℕ) → a * 46340 ≡ 46340 * a
    swap a = omega arith

int_mul-small : (a b : ℕ) → a ≤ 46340 → b ≤ 46340 → int_mul a b ≡ some (a * b)
unfolding int_mul
int_mul-small a b h k = rw (lt→ltb (a * b) (2 ^ 31) (small_product a b h k)) refl

powmod_from-power :
    (fuel n x m : ℕ)
    → n ≤ 46340
    → 1 < m
    → m ≤ 46341
    → x < fuel
    → 0 < n + x
    → powmod_from fuel n x m ≡ some (n ^ x % m)
unfolding powmod_from
powmod_from-power zero n x m small modulus bound enough ok = elim enough [ ]
powmod_from-power (suc fuel) n x m small modulus bound enough ok =
    if_eq n 0 (λ e. ap some (zero_pow x m modulus (omega arith) ∙ ap (λ k. k ^ x % m) (sym e)))
      (λ n0.
        if_eq n 1
          (λ e.
            ap some
              (sym (ap (λ k. k ^ x % m) e ∙ ap (λ p. p % m) (one_power x) ∙ mod-eq_of_lt modulus)))
          (λ n1.
            if_eq x 0
              (λ e.
                ap some (
                  sym
                    (ap (λ k. n ^ k % m) e ∙ ap (λ p. p % m) (pow-zero n) ∙ mod-eq_of_lt modulus)))
              (λ x0.
                let positive : 0 < m = omega arith in
                let checked = lt→ltb 0 m positive in
                if_eq x 1
                  (λ e.
                    rw checked
                      (ap some (sym (ap (λ k. n ^ k % m) e ∙ ap (λ p. p % m) (first_power n)))))
                  (λ x1.
                    let square = int_mul-small n n small small in
                    let half =
                      powmod_from-power fuel (n * n % m) (x / 2) m (below (n * n)) modulus bound
                        (omega (arith, div-add-mod x 2))
                        (omega (arith, div-add-mod x 2, mod-lt x two)) in
                    let times =
                      int_mul-small n ((n * n % m) ^ (x / 2) % m % m) small
                        (below ((n * n % m) ^ (x / 2) % m)) in
                    if_eq (x % 2) 0
                      (λ even. rw (square, checked, half) (ap some (even_power n x m even)))
                      (λ odd. rw (square, checked, half, times) (ap some (odd_power n x m odd)))))))
  where
    below : (k : ℕ) → k % m ≤ 46340
    below k = let positive : 0 < m = omega arith in omega (arith, mod-lt k positive)

    two : 0 < 2
    two = omega arith

    first_power : (n : ℕ) → n ^ 1 ≡ n
    first_power n = pow-suc n 0 ∙ ap (λ p. p * n) (pow-zero n) ∙ one_times n
      where
        one_times : (n : ℕ) → 1 * n ≡ n
        one_times n = omega arith

-- `powmod` returns the power modulo `m`, with fewer than `x` + 1 halvings and without overflow, for `n` up
-- to 46340 and every modulus from 2 to 46341, where `n` and `x` are not both 0.
pub powmod-power :
    (n x m : ℕ) → n ≤ 46340 → 1 < m → m ≤ 46341 → 0 < n + x → powmod n x m ≡ some (n ^ x % m)
unfolding powmod
powmod-power n x m small modulus bound ok =
    powmod_from-power (x + 1) n x m small modulus bound (omega arith) ok
