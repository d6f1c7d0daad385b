-- ===== src/Guess.antt =====
-- The guessing game of ps9: guess-mt.c, its record in guess-mt.h, and the two threads of pclock.c.
-- A thread holds the lock from its wait to its unlock, so one round of either loop is one step of
-- the system, enabled when its `while (status == …) pthread_cond_wait(…)` lets it pass. The sleep in
-- pthread_cond_wait and the signals that end it are in Waiting.
pub mod Game
pub mod Range
pub mod Waiting
mod Examples
use cse.Base.{
  ℕ, zero, suc, ◌+◌, ◌/◌, ◌≡◌, Bool, true, false, Option, none, some, ltb, ◌==◌, if◌then◌else◌,
}
use cse.Base.Int.{ℤ, pos, negsuc}

abbrev pub max_value : ℕ
max_value = 1000

-- The values of `result`: 2 before the first answer, then 0, -1 or 1.
pub data Answer : Type 0 where
  initial correct smaller greater : Answer

-- What `snprintf` has put into `message`.
pub data Message : Type 0 where
  empty too_small too_great : Message
  congrats : ℤ → Message

-- `gmn_t`. A guess is 0 or the middle of two guesses, so it is never negative.
pub record Gmn : Type 0 where
  pub value : ℤ
  pub guess : ℕ
  pub result : Answer
  pub status : Bool
  pub message : Message

unfoldable pub gmn_init : ℤ → Gmn
gmn_init val = record { value = val; guess = 0; result = initial; status = false; message = empty }

-- `guess == value`, `guess < value`, as C compares two `int`s.
abbrev pub eq_int : ℕ → ℤ → Bool
eq_int g (pos v) = g == v
eq_int g (negsuc v) = false

abbrev pub lt_int : ℕ → ℤ → Bool
lt_int g (pos v) = ltb g v
lt_int g (negsuc v) = false

-- The last branch of the source cannot be reached: `guess > value` is all that is left.
unfoldable pub gmn_check : Gmn → Gmn
gmn_check pg =
    if eq_int pg.guess pg.value
    then record pg { result = correct; message = congrats pg.value }
    else (if lt_int pg.guess pg.value
        then record pg { result = smaller; message = too_small }
        else record pg { result = greater; message = too_great })

-- The shared record, the locals of `thread_p`, and which threads have not returned.
pub record System : Type 0 where
  pub shared : Gmn
  pub min : ℕ
  pub max : ℕ
  pub guessing : Bool
  pub checking : Bool

unfoldable pub init : ℤ → System
unfolding gmn_init
init val = record {
  shared = gmn_init val;
  min = 0;
  max = max_value + 1;
  guessing = true;
  checking = true;
}

-- The end of a round of `thread_p`: the next guess is handed over.
abbrev pub offer : System → (min max : ℕ) → System
offer s min max = record s {
  shared = record (s.shared) { guess = (min + max) / 2; status = true };
  min = min;
  max = max;
}

abbrev pub advance : System → Answer → System
advance s greater = offer s s.min s.shared.guess
advance s smaller = offer s s.shared.guess s.max
advance s initial = offer s s.min s.max
advance s correct = record s { guessing = false }

-- One round of `thread_p`; `none` while it waits or after it has returned.
unfoldable pub thread_p : System → Option System
thread_p s =
    if s.guessing
    then (if s.shared.status then none else some (advance s s.shared.result))
    else none

-- `rv == 0 || rv == 2`, after which `thread_c` is done.
abbrev pub ends_check : Answer → Bool
ends_check correct = true
ends_check initial = true
ends_check smaller = false
ends_check greater = false

-- One round of `thread_c`.
unfoldable pub thread_c : System → Option System
unfolding gmn_check
thread_c s =
    if s.checking
    then (if s.shared.status
        then (let pg = gmn_check s.shared in
            some (record s {
              shared = record pg { status = false };
              checking = if ends_check pg.result then false else true;
            }))
        else none)
    else none

pub data Step (s t : System) : Type 0 where
  guess_made : thread_p s ≡ some t → Step s t
  guess_checked : thread_c s ≡ some t → Step s t

pub data Reach (s : System) : System → Type 0 where
  here : Reach s s
  later : {t u : System} → Reach s t → Step t u → Reach s u

-- Both threads have returned, and the guess is the value.
unfoldable pub finished : System → Bool
finished s =
    if s.guessing
    then false
    else (if s.checking then false else eq_int s.shared.guess s.shared.value)

-- `n` steps at most: the thread that can go on does, the guessing one first.
unfoldable pub play : ℕ → System → System
unfolding thread_p thread_c
play zero s = s
play (suc n) s = elim (thread_p s) [
  | some t ↦ play n t
  | none ↦ elim (thread_c s) [ some t ↦ play n t | none ↦ s ]
]
