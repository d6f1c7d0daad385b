-- ===== src/Philo/Edge.antt =====
-- The philosophers of final/philo.c with no cycle, and one philosopher alone.
use cse.Base.{ℕ, ◌<◌, ◌≡◌, refl, some, arith, lt→ltb}
use cse.Philo.{
  Activity, think, hungry, put, make_table, Place, loop, locked_first, Muse, moved, blocked,
  undefined, do_activity, round, leave, muse_at, muse, System, start, moves, Reach, here, later,
}

-- With no cycle to complete, the first step of every thread unlocks a fork that it does not hold.
pub muse-no_cycle : (n i : ℕ) → muse n (start 0).forks ((start 0).seats i) ≡ undefined
unfolding muse muse_at leave
muse-no_cycle n i = refl

-- A single philosopher has one fork and locks it twice: with at least one cycle to complete, a state
-- can be reached from which it waits for itself for ever.
pub muse-alone :
    (c : ℕ) → 0 < c → (s : System) × Reach 1 (start c) s × (muse 1 s.forks (s.seats 0) ≡ blocked)
unfolding muse muse_at round do_activity
muse-alone c some_cycle = (
  _,
  later (later here (moves 0 (omega arith) (first_step c some_cycle)))
      (moves 0 (omega arith) (second_step c some_cycle)),
  refl,
)
  where
    seat : ℕ → Activity → Place → Muse
    seat c st place = record {
      philo = record { id = 0; state = st; ate = 0; cycle = c };
      place = place;
    }

    first_step :
        (c : ℕ)
        → 0 < c
        → muse 1 make_table (seat c think loop) ≡ moved make_table (seat c hungry loop)
    first_step c h = rw (lt→ltb 0 c h) refl

    second_step :
        (c : ℕ)
        → 0 < c
        → muse 1 make_table (seat c hungry loop)
          ≡ moved (put make_table 0 (some 0)) (seat c hungry locked_first)
    second_step c h = rw (lt→ltb 0 c h) refl
