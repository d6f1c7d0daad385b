-- ===== src/Guess/Examples.antt =====
-- Runs of the game of ps9/guess-mt.c and ps9/pclock.c.
use cse.Base.{◌≡◌, refl, ◌⊎◌, true, arith}
use cse.Base.Int.{pos}
use cse.Guess.{System, init, Step, here, thread_p, gmn_init, finished, play}
use cse.Guess.Game.{play-finished}
use cse.Guess.Range.{OutOfRange, never-finished}
use cse.Guess.Waiting.{
  Sleepers, awake, turn_p, Turn, p_turn, Turns, none_yet, one_more, awake-progress,
}

play-finished_example : finished (play 24 (init (pos 617))) ≡ true
play-finished_example = play-finished 617 (omega arith)

-- The number 3: after its first guess the guessing thread sleeps.
guessed : (w : Sleepers) × Turns (awake (pos 3)) w
unfolding init turn_p thread_p gmn_init
guessed = (_, one_more (one_more none_yet (p_turn refl)) (p_turn refl))

awake-progress_example :
    ((finished guessed.0.game ≡ true) × (guessed.0.game.shared.value ≡ pos 3))
    ⊎ ((u : Sleepers) × Turn guessed.0 u)
awake-progress_example = awake-progress {v = pos 3} guessed.1

above : OutOfRange (pos 1001)
above = omega arith

never-finished_example :
    ((init (pos 1001)).guessing ≡ true)
    × ((init (pos 1001)).checking ≡ true)
    × ((t : System) × Step (init (pos 1001)) t)
never-finished_example = never-finished (pos 1001) above here
