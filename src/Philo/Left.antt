-- ===== src/Philo/Left.antt =====
-- How many steps a thread of final/philo.c has left: each step takes one of them.
use cse.Base.{
  ℕ, ◌+◌, ◌-◌, ◌*◌, ◌≤◌, ◌≡◌, refl, sym, inl, inr, arith, ltb, Bool-cases, ltb→lt, ltb→le,
}
use cse.Philo.{
  Activity, think, hungry, eat, Forks, Place, loop, locked_first, unlocked_second, leaving,
  returned, Muse, Outcome, moved, blocked, ended, exits, undefined, is_free, is_owner, lock, unlock,
  do_activity, first, second, round, leave, muse_at, muse,
}
use cse.Philo.Locks.{thread, Fitting, think_ne_hungry, think_ne_eat, eat_ne_hungry}

-- The steps that a thread has left.
unfoldable pub left : Muse → ℕ
left m =
    let rounds = 5 * (m.philo.cycle - m.philo.ate) in
    elim (m.place) [
      | loop ↦ elim (m.philo.state) [ think ↦ rounds | hungry ↦ rounds - 1 | eat ↦ rounds + 2 ]
      | locked_first ↦ rounds - 2
      | unlocked_second ↦ rounds + 1
      | leaving ↦ 1
      | returned ↦ 0
    ]

-- A step takes one of them.
abbrev pub Counts : ℕ → Outcome → Type 0
Counts k (moved g m) = left m + 1 ≡ k
Counts k blocked = Unit
Counts k ended = Unit
Counts k (exits e) = Unit
Counts k undefined = Unit

Counts-lock :
    (k i f : ℕ) (forks : Forks) (next : Forks → Outcome)
    → ((g : Forks) → Counts k (next g))
    → Counts k (lock forks f i next)
Counts-lock k i f forks next h = elim (Bool-cases (is_free (forks f))) [
  | inl e ↦ rw e (h _)
  | inr e ↦ rw e tt
]

Counts-unlock :
    (k i f : ℕ) (forks : Forks) (next : Forks → Outcome)
    → ((g : Forks) → Counts k (next g))
    → Counts k (unlock forks f i next)
Counts-unlock k i f forks next h = elim (Bool-cases (is_owner (forks f) i)) [
  | inl e ↦ rw e (h _)
  | inr e ↦ rw e tt
]

module _ (n i : ℕ) (forks : Forks) where
  pub muse-Counts :
      (st : Activity) (a c : ℕ) (place : Place)
      → Fitting st (ltb a c) place
      → Counts (left (thread i st a c place)) (muse n forks (thread i st a c place))
  unfolding muse muse_at round leave do_activity left
  muse-Counts think a c loop l = let h = ltb→lt a c l in rw l (omega (arith, h))
  muse-Counts hungry a c loop l =
      let h = ltb→lt a c l in
      rw l (
        Counts-lock _ i (first n i) forks (λ g. moved g (thread i hungry a c locked_first))
          (λ g. omega (arith, h)))
  muse-Counts eat a c loop l = elim (Bool-cases (ltb a c)) [
    | inl more ↦
        let h = ltb→lt a c more in
        rw more (
          Counts-unlock _ i (second n i) forks (λ g. moved g (thread i eat a c unlocked_second))
            (λ g. omega (arith, h)))
    | inr enough ↦
        let h = ltb→le a c enough in
        rw enough (
          Counts-unlock _ i (second n i) forks (λ g. moved g (thread i eat a c leaving))
            (λ g. omega (arith, h)))
  ]
  muse-Counts think a c locked_first l = absurd (think_ne_hungry (l.0))
  muse-Counts eat a c locked_first l = absurd (eat_ne_hungry (l.0))
  muse-Counts hungry a c locked_first l =
      let h = ltb→lt a c (l.1) in
      Counts-lock _ i (second n i) forks (λ g. moved g (thread i eat (a + 1) c loop))
        (λ g. omega (arith, h))
  muse-Counts think a c unlocked_second l = absurd (think_ne_eat (l.0))
  muse-Counts hungry a c unlocked_second l = absurd (eat_ne_hungry (sym (l.0)))
  muse-Counts eat a c unlocked_second l =
      Counts-unlock _ i (first n i) forks (λ g. moved g (thread i think a c loop)) (λ g. refl)
  muse-Counts think a c leaving l = absurd (think_ne_eat l)
  muse-Counts hungry a c leaving l = absurd (eat_ne_hungry (sym l))
  muse-Counts eat a c leaving l =
      Counts-unlock _ i (first n i) forks (λ g. moved g (thread i think a c returned)) (λ g. refl)
  muse-Counts st a c returned l = tt

-- A thread that has a step left has not returned, and one that has none has.
pub left-returned : (m : Muse) → m.place ≡ returned → left m ≡ 0
unfolding left
left-returned m e = rw e refl

pub none_left :
    (i : ℕ) (st : Activity) (a c : ℕ) (place : Place)
    → Fitting st (ltb a c) place
    → left (thread i st a c place) ≡ 0
    → place ≡ returned
unfolding left
none_left i think a c loop l e =
    let h = ltb→lt a c l in let bad : 1 ≤ 0 = omega (arith, h, e) in elim bad [ ]
none_left i hungry a c loop l e =
    let h = ltb→lt a c l in let bad : 1 ≤ 0 = omega (arith, h, e) in elim bad [ ]
none_left i eat a c loop l e = let bad : 1 ≤ 0 = omega (arith, e) in elim bad [ ]
none_left i st a c locked_first l e =
    let h = ltb→lt a c l.1 in let bad : 1 ≤ 0 = omega (arith, h, e) in elim bad [ ]
none_left i st a c unlocked_second l e = let bad : 1 ≤ 0 = omega (arith, e) in elim bad [ ]
none_left i st a c leaving l e = let bad : 1 ≤ 0 = omega (arith, e) in elim bad [ ]
none_left i st a c returned l e = refl
