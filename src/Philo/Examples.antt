-- ===== src/Philo/Examples.antt =====
-- Runs of the philosophers of final/philo.c.
use cse.Base.{◌≤◌, ◌*◌, ◌≡◌, refl, true, false, arith}
use cse.Philo.{do_activity, round, muse_at, muse, System, start, moves, Reach, here, later}
use cse.Philo.Locks.{holds}
use cse.Philo.Safety.{Fine, muse-Fine, holds-one}
use cse.Philo.Ending.{steps, AllReturned, start-ends}

-- Two philosophers and one cycle; philosopher 0 has become hungry and has locked both forks.
eating : (s : System) × Reach 2 (start 1) s
unfolding muse muse_at round do_activity
eating = (
  _,
  later (later (later here (moves 0 (omega arith) refl)) (moves 0 (omega arith) refl))
      (moves 0 (omega arith) refl),
)

muse-Fine_example : Fine (muse 2 eating.0.forks (eating.0.seats 1))
muse-Fine_example = muse-Fine 2 1 (omega arith) (omega arith) eating.1 1 (omega arith)

held : holds 2 (eating.0.seats 0) 1 ≡ true
unfolding holds eating
held = refl

holds-one_example : holds 2 (eating.0.seats 1) 1 ≡ false
holds-one_example =
    holds-one 2 1 (omega arith) (omega arith) eating.1 0 1 1 (omega arith) (omega arith)
      (ground arith) held

start-ends_example :
    (steps eating.1 ≤ 2 * (5 * 1)) × ((t : System) × Reach 2 eating.0 t × AllReturned 2 t.seats)
start-ends_example = start-ends 2 1 (omega arith) (omega arith) eating.1
