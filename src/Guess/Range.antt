-- ===== src/Guess/Range.antt =====
-- What holds under every schedule of the two threads, for every value.
use mathlib.Core.Bool.{not, ◌||◌}
use cse.Base.{
  ◌≤◌, ◌<◌, ◌≡◌, ◌⊎◌, inl, inr, Bool, true, false, none, some, arith, ◌&&◌, Option-cases,
}
use cse.Base.Int.{ℤ, pos, negsuc}
use cse.Guess.{
  Answer, correct, System, Step, Reach, here, later, guess_made, guess_checked, init, thread_p,
  thread_c, finished, eq_int,
}

abbrev pub is_final : Answer → Bool
is_final correct = true
is_final _ = false

pub record Inv (v : ℤ) (s : System) : Type 0 where
  pub value : s.shared.value ≡ v
  pub guess_small : s.shared.guess ≤ 1000
  pub min_small : s.min ≤ 1000
  pub max_small : s.max ≤ 1001
  pub ended : s.checking ≡ not (is_final s.shared.result)
  pub hit : (not (is_final s.shared.result) || eq_int s.shared.guess s.shared.value) ≡ true
  pub idle : (is_final s.shared.result && s.shared.status) ≡ false
  pub stop : (s.guessing || not s.checking) ≡ true

pub init-Inv : (v : ℤ) → Inv v (init v)
unfolding init
init-Inv v = ground arith

pub Inv-thread_p : (v : ℤ) (s t : System) → Inv v s → thread_p s ≡ some t → Inv v t
unfolding thread_p
Inv-thread_p v s t i e = ground arith

pub Inv-thread_c : (v : ℤ) (s t : System) → Inv v s → thread_c s ≡ some t → Inv v t
unfolding thread_c
Inv-thread_c v s t i e = ground arith

Reach-Inv : {v : ℤ} {s : System} → Reach (init v) s → Inv v s
Reach-Inv {v} here = init-Inv v
Reach-Inv {v} (later {t} {u} r (guess_made e)) = Inv-thread_p v t u (Reach-Inv r) e
Reach-Inv {v} (later {t} {u} r (guess_checked e)) = Inv-thread_c v t u (Reach-Inv r) e

stuck :
    (v : ℤ) (s : System)
    → Inv v s
    → thread_p s ≡ none
    → thread_c s ≡ none
    → (finished s ≡ true) × (s.shared.value ≡ v)
unfolding thread_p thread_c finished
stuck v s i p c = ground arith

-- Whatever the value and the schedule, either both threads have returned with the right guess, or the
-- state lets one of them make its round.
pub progress :
    {v : ℤ} {s : System}
    → Reach (init v) s
    → ((finished s ≡ true) × (s.shared.value ≡ v)) ⊎ ((t : System) × Step s t)
progress {v} {s} r = elim (Option-cases (thread_p s)) [
  | inr (t, e) ↦ inr (t, guess_made e)
  | inl p ↦ elim (Option-cases (thread_c s)) [
    | inr (t, e) ↦ inr (t, guess_checked e)
    | inl c ↦ inl (stuck v s (Reach-Inv r) p c)
  ]
]

-- No guess reaches a negative number, or one above MAX_VALUE.
abbrev pub OutOfRange : ℤ → Type 0
OutOfRange (pos n) = 1000 < n
OutOfRange (negsuc n) = Unit {0}

live : (v : ℤ) (s : System) → OutOfRange v → Inv v s → (s.guessing ≡ true) × (s.checking ≡ true)
live (pos n) s o i = ground arith
live (negsuc n) s o i = ground arith

not_finished : (s : System) → s.guessing ≡ true → finished s ≡ true → ⊥
unfolding finished
not_finished s g f = ground arith

-- For a value outside 0 to MAX_VALUE neither thread ever returns, and one can always go on: the
-- program never ends.
pub never-finished :
    (v : ℤ) {s : System}
    → OutOfRange v
    → Reach (init v) s
    → (s.guessing ≡ true) × (s.checking ≡ true) × ((t : System) × Step s t)
never-finished v {s} o r = elim (progress r) [
  | inl f ↦ absurd (not_finished s (live v s o (Reach-Inv r)).0 f.0)
  | inr st ↦ let l = live v s o (Reach-Inv r) in (l.0, l.1, st)
]
