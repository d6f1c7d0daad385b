-- ===== src/Guess/Waiting.antt =====
-- The condition variable of ps9/pclock.c: which thread sleeps in pthread_cond_wait, and the signals that
-- wake it.
use mathlib.Core.Bool.{not, ◌||◌}
use cse.Base.{
  ◌≡◌, ◌⊎◌, inl, inr, Bool, true, false, Option, none, some, arith, ◌&&◌, Option-cases,
  if◌then◌else◌, ◌>>=◌,
}
use cse.Base.Int.{ℤ}
use cse.Guess.{
  Answer, initial, correct, smaller, greater, System, init, thread_p, thread_c, finished,
}
use cse.Guess.Range.{Inv, init-Inv}

-- The game, and which of the two threads sleep.
pub record Sleepers : Type 0 where
  pub game : System
  pub p_sleeps : Bool
  pub c_sleeps : Bool

abbrev pub awake : ℤ → Sleepers
awake val = record { game = init val; p_sleeps = false; c_sleeps = false }

-- Every answer but the right one is followed by a guess, and that by `pthread_cond_signal`.
abbrev pub signals : Answer → Bool
signals correct = false
signals initial = true
signals smaller = true
signals greater = true

-- A turn of `thread_p`: with no guess wanted it goes to sleep, and else it makes its round and wakes
-- the other thread. `none` while it sleeps or after it has returned.
unfoldable pub turn_p : Sleepers → Option Sleepers
unfolding thread_p
turn_p w =
    let round = thread_p w.game >>= λ g. some (record w {
      game = g;
      c_sleeps = if signals w.game.shared.result then false else w.c_sleeps;
    }) in
    if w.p_sleeps
    then none
    else (if w.game.guessing
        then (if w.game.shared.status then some (record w { p_sleeps = true }) else round)
        else none)

-- A turn of `thread_c`, which signals at the end of each round.
unfoldable pub turn_c : Sleepers → Option Sleepers
unfolding thread_c
turn_c w =
    let round = thread_c w.game >>= λ g. some (record w { game = g; p_sleeps = false }) in
    if w.c_sleeps
    then none
    else (if w.game.checking
        then (if w.game.shared.status then round else some (record w { c_sleeps = true }))
        else none)

pub data Turn (w u : Sleepers) : Type 0 where
  p_turn : turn_p w ≡ some u → Turn w u
  c_turn : turn_c w ≡ some u → Turn w u

pub data Turns (w : Sleepers) : Sleepers → Type 0 where
  none_yet : Turns w w
  one_more : {u x : Sleepers} → Turns w u → Turn u x → Turns w x

-- A thread sleeps only while the other one is to go on.
record Alert (v : ℤ) (w : Sleepers) : Type 0 where
  game : Inv v w.game
  p_asleep : (not w.p_sleeps || (w.game.shared.status && w.game.guessing)) ≡ true
  c_asleep : (not w.c_sleeps || (not w.game.shared.status && w.game.checking)) ≡ true

awake-Alert : (v : ℤ) → Alert v (awake v)
unfolding init
awake-Alert v = record { game = init-Inv v; p_asleep = ground arith; c_asleep = ground arith }

Alert-turn_p : (v : ℤ) (w u : Sleepers) → Alert v w → turn_p w ≡ some u → Alert v u
unfolding turn_p thread_p
Alert-turn_p v w u i e = ground arith

Alert-turn_c : (v : ℤ) (w u : Sleepers) → Alert v w → turn_c w ≡ some u → Alert v u
unfolding turn_c thread_c
Alert-turn_c v w u i e = ground arith

asleep :
    (v : ℤ) (w : Sleepers)
    → Alert v w
    → turn_p w ≡ none
    → turn_c w ≡ none
    → (finished w.game ≡ true) × (w.game.shared.value ≡ v)
unfolding turn_p turn_c thread_p thread_c finished
asleep v w i p c = ground arith

Turns-Alert : {v : ℤ} {w : Sleepers} → Turns (awake v) w → Alert v w
Turns-Alert {v} none_yet = awake-Alert v
Turns-Alert {v} (one_more {u} {x} r (p_turn e)) = Alert-turn_p v u x (Turns-Alert r) e
Turns-Alert {v} (one_more {u} {x} r (c_turn e)) = Alert-turn_c v u x (Turns-Alert r) e

-- Whatever the value and the schedule, where a thread that sleeps in pthread_cond_wait goes on only when
-- the other one has signalled, either both threads have returned and the last guess is the value, or one
-- of them can take a turn.
pub awake-progress :
    {v : ℤ} {w : Sleepers}
    → Turns (awake v) w
    → ((finished w.game ≡ true) × (w.game.shared.value ≡ v)) ⊎ ((u : Sleepers) × Turn w u)
awake-progress {v} {w} r = elim (Option-cases (turn_p w)) [
  | inr (u, e) ↦ inr (u, p_turn e)
  | inl p ↦ elim (Option-cases (turn_c w)) [
    | inr (u, e) ↦ inr (u, c_turn e)
    | inl c ↦ inl (asleep v w (Turns-Alert r) p c)
  ]
]
