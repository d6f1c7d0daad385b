-- ===== src/Philo/Locks.antt =====
-- One step of a thread in muse of final/philo.c: the forks that it holds, and its locks and unlocks.
use cse.Base.{
  ℕ, ◌+◌, ◌≤◌, ◌<◌, ◌≡◌, ◌≢◌, refl, sym, ap, ◌∙◌, inl, inr, Bool, true, false, ◌||◌, Option, none,
  some, arith, ltb, ◌==◌, Bool-cases,
}
use mathlib.Core.Option.{some-injective}
use cse.Philo.{
  Activity, think, hungry, eat, Forks, Place, loop, locked_first, unlocked_second, leaving,
  returned, Muse, Outcome, moved, blocked, ended, exits, undefined, is_free, put, lock, unlock,
  do_activity, first, second, round, leave, muse_at, muse,
}
use cse.Philo.Numbers.{same_number, two_forks, put_at, keeps_first, takes_second}

-- The forks that a thread holds where it stands.
unfoldable pub holds : ℕ → Muse → ℕ → Bool
holds n m f =
    let a = f == first n m.philo.id in
    let b = f == second n m.philo.id in
    elim (m.place) [
      | loop ↦ elim (m.philo.state) [ eat ↦ a || b | think ↦ false | hungry ↦ false ]
      | locked_first ↦ a
      | unlocked_second ↦ a
      | leaving ↦ a
      | returned ↦ false
    ]

-- The state of a thread fits the place where it stands.
abbrev pub Fitting : Activity → (left : Bool) → Place → Type 0
Fitting eat left loop = Unit
Fitting think left loop = left ≡ true
Fitting hungry left loop = left ≡ true
Fitting st left locked_first = (st ≡ hungry) × (left ≡ true)
Fitting st left unlocked_second = (st ≡ eat) × (left ≡ true)
Fitting st left leaving = st ≡ eat
Fitting st left returned = Unit

-- A thread fits its place and owns the forks that it holds.
abbrev pub Local : ℕ → Forks → Muse → Type 0
Local n forks m =
    Fitting m.philo.state (ltb m.philo.ate m.philo.cycle) m.place
    × ((f : ℕ) → holds n m f ≡ true → forks f ≡ some m.philo.id)

-- A step leaves the other threads their forks.
abbrev pub Leaves : ℕ → Forks → Forks → Type 0
Leaves i forks g = (f j : ℕ) → j ≢ i → forks f ≡ some j → g f ≡ some j

abbrev pub Safe : ℕ → ℕ → Forks → Outcome → Type 0
Safe n i forks (moved g m) = (m.philo.id ≡ i) × Local n g m × Leaves i forks g
Safe n i forks blocked = Unit
Safe n i forks ended = Unit
Safe n i forks (exits k) = ⊥
Safe n i forks undefined = ⊥

Safe-lock :
    (n i f : ℕ) (forks : Forks) (next : Forks → Outcome)
    → (is_free (forks f) ≡ true → Safe n i forks (next (put forks f (some i))))
    → Safe n i forks (lock forks f i next)
Safe-lock n i f forks next h = elim (Bool-cases (is_free (forks f))) [
  | inl e ↦ rw e (h e)
  | inr e ↦ rw e tt
]

Safe-unlock :
    (n i f : ℕ) (forks : Forks) (next : Forks → Outcome)
    → forks f ≡ some i
    → Safe n i forks (next (put forks f none))
    → Safe n i forks (unlock forks f i next)
Safe-unlock n i f forks next own h = rw (own, self i) h
  where
    self : (i : ℕ) → (i == i) ≡ true
    self i = ground arith

owned : (o : Option ℕ) (j : ℕ) → is_free o ≡ true → o ≢ some j
owned none j free e = cc
owned (some k) j free e = cc

Leaves-lock :
    (i f : ℕ) (forks : Forks) → is_free (forks f) ≡ true → Leaves i forks (put forks f (some i))
Leaves-lock i f forks free g j other e = elim (Bool-cases (g == f)) [
  | inl same ↦ absurd (owned (forks f) j free (ap forks (sym (same_number g f same)) ∙ e))
  | inr apart ↦ rw apart e
]

Leaves-unlock : (i f : ℕ) (forks : Forks) → forks f ≡ some i → Leaves i forks (put forks f none)
Leaves-unlock i f forks own g j other e = elim (Bool-cases (g == f)) [
  | inl same ↦ absurd (other (some-injective _ _ (sym e ∙ ap forks (same_number g f same) ∙ own)))
  | inr apart ↦ rw apart e
]

abbrev pub thread : ℕ → Activity → ℕ → ℕ → Place → Muse
thread i st a c place = record {
  philo = record { id = i; state = st; ate = a; cycle = c };
  place = place;
}

pub itself : (a : ℕ) → (a == a) ≡ true
itself a = ground arith

pub second_held : (a b : ℕ) → (b == a || b == b) ≡ true
second_held a b = ground arith

pub first_held : (a b : ℕ) → (a == a || a == b) ≡ true
first_held a b = ground arith

pub think_ne_hungry : think ≢ hungry
think_ne_hungry e = cc

pub think_ne_eat : think ≢ eat
think_ne_eat e = cc

pub eat_ne_hungry : eat ≢ hungry
eat_ne_hungry e = cc

abbrev pub goes_to : Muse → Forks → Outcome
goes_to m g = moved g m

-- A step of a thread that stands as it should ends neither in an exit nor in an undefined unlock.
pub muse-Safe :
    (n i : ℕ) (st : Activity) (a c : ℕ) (place : Place) (forks : Forks)
    → 2 ≤ n
    → i < n
    → Local n forks (thread i st a c place)
    → Safe n i forks (muse n forks (thread i st a c place))
unfolding muse muse_at round leave do_activity holds
muse-Safe n i think a c loop forks many seat l = rw (l.0) (refl, (l.0, λ f h. cc), λ f j other e. e)
muse-Safe n i hungry a c loop forks many seat l = rw (l.0) (
    Safe-lock n i (first n i) forks (goes_to (thread i hungry a c locked_first)) (λ free. (
      refl,
      ((refl, l.0), λ f h. put_at forks (first n i) f (some i) h),
      Leaves-lock i (first n i) forks free,
    )))
muse-Safe n i eat a c loop forks many seat l =
    let own_first = l.1 (first n i) (first_held (first n i) (second n i)) in
    let own = l.1 (second n i) (second_held (first n i) (second n i)) in
    let kept = (λ (f : ℕ) (h : (f == first n i) ≡ true).
      keeps_first forks (first n i) (second n i) f i none (two_forks n i many seat) own_first h) in
    elim (Bool-cases (ltb a c)) [
      | inl more ↦ rw more (
          Safe-unlock n i (second n i) forks (goes_to (thread i eat a c unlocked_second)) own
            (refl, ((refl, more), kept), Leaves-unlock i (second n i) forks own))
      | inr enough ↦ rw enough (
          Safe-unlock n i (second n i) forks (goes_to (thread i eat a c leaving)) own
            (refl, (refl, kept), Leaves-unlock i (second n i) forks own))
    ]
muse-Safe n i think a c locked_first forks many seat l = absurd (think_ne_hungry (l.0.0))
muse-Safe n i eat a c locked_first forks many seat l = absurd (eat_ne_hungry (l.0.0))
muse-Safe n i hungry a c locked_first forks many seat l =
    Safe-lock n i (second n i) forks (goes_to (thread i eat (a + 1) c loop)) (λ free. (
      refl,
      (
        tt,
        λ f h.
            takes_second forks (first n i) (second n i) f i (two_forks n i many seat)
              (l.1 (first n i) (itself (first n i))) h,
      ),
      Leaves-lock i (second n i) forks free,
    ))
muse-Safe n i think a c unlocked_second forks many seat l = absurd (think_ne_eat (l.0.0))
muse-Safe n i hungry a c unlocked_second forks many seat l = absurd (eat_ne_hungry (sym (l.0.0)))
muse-Safe n i eat a c unlocked_second forks many seat l =
    let own = l.1 (first n i) (itself (first n i)) in
    Safe-unlock n i (first n i) forks (goes_to (thread i think a c loop)) own
      (refl, (l.0.1, λ f h. cc), Leaves-unlock i (first n i) forks own)
muse-Safe n i think a c leaving forks many seat l = absurd (think_ne_eat (l.0))
muse-Safe n i hungry a c leaving forks many seat l = absurd (eat_ne_hungry (sym (l.0)))
muse-Safe n i eat a c leaving forks many seat l =
    let own = l.1 (first n i) (itself (first n i)) in
    Safe-unlock n i (first n i) forks (goes_to (thread i think a c returned)) own
      (refl, (tt, λ f h. cc), Leaves-unlock i (first n i) forks own)
muse-Safe n i st a c returned forks many seat l = tt
