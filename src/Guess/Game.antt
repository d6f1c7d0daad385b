-- ===== src/Guess/Game.antt =====
-- The game ends for every value from 0 to MAX_VALUE.
use cse.Base.{ℕ, zero, suc, ◌≤◌, ◌<◌, ◌≡◌, refl, Bool, true, arith, ◌&&◌}
use cse.Base.Int.{pos}
use cse.Guess.{init, play, finished}

all_below : ℕ → (ℕ → Bool) → Bool
all_below zero p = true
all_below (suc n) p = p n && all_below n p

all_below-true : (n : ℕ) (p : ℕ → Bool) (x : ℕ) → all_below n p ≡ true → x < n → p x ≡ true
unfolding all_below
all_below-true zero p x h lt = absurd (omega arith)
all_below-true (suc n) p x h lt = ground (arith, all_below-true n p x)

table : all_below 1001 (λ v. finished (play 24 (init (pos v)))) ≡ true
unfolding all_below finished play init
table = refl

-- For every value from 0 to MAX_VALUE, after at most 24 rounds of the two threads together both
-- have returned and the last guess is the value.
pub play-finished : (v : ℕ) → v ≤ 1000 → finished (play 24 (init (pos v))) ≡ true
play-finished v h =
    all_below-true 1001 (λ n. finished (play 24 (init (pos n)))) v table (omega arith)
