-- ===== src/PowerMod.antt =====
-- Powers modulo a number in ps1/powerMod.c, for numbers that are not below 0.
pub mod Power
mod Examples
use cse.Base.{
  ◌^◌, ℕ, zero, suc, ◌+◌, ◌*◌, ◌/◌, ◌%◌, Option, none, some, ltb, ◌==◌, if◌then◌else◌, ◌>>=◌, ◌>>◌,
  assert,
}

-- A product of two `int`s that are not below 0; an overflow is a fault.
unfoldable pub int_mul : ℕ → ℕ → Option ℕ
int_mul a b = assert (ltb (a * b) (2 ^ 31)) >> some (a * b)

-- The recursion halves `x`; a remainder by 0 is a fault.
unfoldable pub powmod_from : (fuel n x m : ℕ) → Option ℕ
powmod_from zero n x m = none
powmod_from (suc fuel) n x m =
    let half =
      int_mul n n >>= λ square. assert (ltb 0 m) >> powmod_from fuel (square % m) (x / 2) m in
    let even = half >>= λ r. some (r % m) in
    let odd = half >>= λ r. int_mul n (r % m) >>= λ p. some (p % m) in
    if n == 0
    then some 0
    else (if n == 1
        then some 1
        else (if x == 0
            then some 1
            else (if x == 1
                then assert (ltb 0 m) >> some (n % m)
                else (if x % 2 == 0 then even else odd))))

-- There are fewer halvings than `x`.
unfoldable pub powmod : (n x m : ℕ) → Option ℕ
powmod n x m = powmod_from (x + 1) n x m
