-- ===== src/PowerMod/Examples.antt =====
-- Runs of ps1/powerMod.c.
use cse.Base.{◌^◌, ◌%◌, ◌≡◌, some, none, refl, arith}
use cse.PowerMod.{int_mul, powmod_from, powmod}
use cse.PowerMod.Power.{powmod-power}

powmod-power_example : powmod 3 13 7 ≡ some (3 ^ 13 % 7)
powmod-power_example = powmod-power 3 13 7 (omega arith) (omega arith) (omega arith) (omega arith)

-- 50000 * 50000 is no `int`.
too_big : powmod 50000 2 60000 ≡ none
unfolding powmod powmod_from int_mul
too_big = refl
