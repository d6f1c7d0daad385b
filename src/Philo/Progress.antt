-- ===== src/Philo/Progress.antt =====
-- The philosophers of final/philo.c never all wait: with the even ones taking the left fork first and
-- the odd ones the right fork, one thread can go on as long as one is left.
use cse.Base.{
  ℕ, ◌+◌, ◌-◌, ◌%◌, ◌≤◌, ◌<◌, ◌≡◌, ◌≢◌, ◌⊎◌, refl, sym, ap, ◌∙◌, inl, inr, Bool, true, false, subst,
  none, some, arith, ltb, Bool-cases, Option-cases, ltb→lt, ltb→le,
}
use native.Mathlib.Nat.{mod-eq_of_lt, mod_self}
use cse.Philo.{
  Activity, think, hungry, eat, Forks, Place, loop, locked_first, unlocked_second, leaving,
  returned, Muse, moved, is_free, is_owner, put, do_activity, first, second, round, leave, muse_at,
  muse, System, start, Step, moves, Reach, here, later,
}
use cse.Philo.Locks.{
  holds, thread, Local, second_held, itself, think_ne_hungry, think_ne_eat, eat_ne_hungry,
}
use cse.Philo.Numbers.{same_number}
use cse.Philo.Owners.{Owned, Owned-start, Owned-Step}
use cse.Philo.Safety.{Sound, Sound-Reach}

-- What a thread can do where it stands.
data Stand (n i : ℕ) (forks : Forks) (m : Muse) : Type 0 where
  goes : {g : Forks} {m' : Muse} → muse n forks m ≡ moved g m' → Stand n i forks m
  done : m.place ≡ returned → ((f : ℕ) → holds n m f ≡ false) → Stand n i forks m
  at_first :
      {j : ℕ} → forks (first n i) ≡ some j → ((f : ℕ) → holds n m f ≡ false) → Stand n i forks m
  at_second :
      {j : ℕ}
      → forks (second n i) ≡ some j
      → ((f : ℕ) → holds n m f ≡ true → f ≡ first n i)
      → Stand n i forks m

module _ (n i : ℕ) (forks : Forks) where
  free_or : (f : ℕ) → (is_free (forks f) ≡ true) ⊎ ((j : ℕ) × (forks f ≡ some j))
  free_or f = elim (Option-cases (forks f)) [ inl e ↦ inl (rw e refl) | inr (j, e) ↦ inr (j, e) ]

  own_at : (f : ℕ) → forks f ≡ some i → is_owner (forks f) i ≡ true
  own_at f e = rw e (itself i)

  stand :
      (st : Activity) (a c : ℕ) (place : Place)
      → Local n forks (thread i st a c place)
      → Stand n i forks (thread i st a c place)
  unfolding muse muse_at round leave do_activity holds
  stand think a c loop l = goes {g = forks} {m' = thread i hungry a c loop} (rw (l.0) refl)
  stand hungry a c loop l = elim (free_or (first n i)) [
    | inl free ↦
        goes {g = put forks (first n i) (some i)} {m' = thread i hungry a c locked_first}
          (rw (l.0, free) refl)
    | inr (j, e) ↦ at_first e (λ f. refl)
  ]
  stand eat a c loop l =
      let own = own_at (second n i) (l.1 (second n i) (second_held (first n i) (second n i))) in
      elim (Bool-cases (ltb a c)) [
        | inl more ↦
            goes {g = put forks (second n i) none} {m' = thread i eat a c unlocked_second}
              (rw (more, own) refl)
        | inr enough ↦
            goes {g = put forks (second n i) none} {m' = thread i eat a c leaving}
              (rw (enough, own) refl)
      ]
  stand think a c locked_first l = absurd (think_ne_hungry (l.0.0))
  stand eat a c locked_first l = absurd (eat_ne_hungry (l.0.0))
  stand hungry a c locked_first l = elim (free_or (second n i)) [
    | inl free ↦
        goes {g = put forks (second n i) (some i)} {m' = thread i eat (a + 1) c loop} (rw free refl)
    | inr (j, e) ↦ at_second e (λ f h. same_number f (first n i) h)
  ]
  stand think a c unlocked_second l = absurd (think_ne_eat (l.0.0))
  stand hungry a c unlocked_second l = absurd (eat_ne_hungry (sym (l.0.0)))
  stand eat a c unlocked_second l =
      goes {g = put forks (first n i) none} {m' = thread i think a c loop}
        (rw (own_at (first n i) (l.1 (first n i) (itself (first n i)))) refl)
  stand think a c leaving l = absurd (think_ne_eat (l.0))
  stand hungry a c leaving l = absurd (eat_ne_hungry (sym (l.0)))
  stand eat a c leaving l =
      goes {g = put forks (first n i) none} {m' = thread i think a c returned}
        (rw (own_at (first n i) (l.1 (first n i) (itself (first n i)))) refl)
  stand st a c returned l = done refl (λ f. refl)

wrap : (k n : ℕ) → k ≤ n → 0 < n → ((k < n) × (k % n ≡ k)) ⊎ ((k ≡ n) × (k % n ≡ 0))
wrap k n h p = elim (Bool-cases (ltb k n)) [
  | inl e ↦ let b = ltb→lt k n e in inl (b, mod-eq_of_lt b)
  | inr e ↦
      let same : k ≡ n = omega (arith, h, ltb→le k n e) in
      inr (same, ap (λ m. m % n) same ∙ mod_self n)
]

-- A fork that a thread takes first has an even number.
first-even : (n i : ℕ) → i < n → first n i % 2 ≡ 0
first-even n i below =
    omega (arith, wrap (i + i % 2) n (omega (arith, below)) (omega (arith, below)))

-- Where one thread's second fork is another's first one, that other's second fork has an odd number.
second-odd : (n i j : ℕ) → 2 ≤ n → i < n → j < n → first n j ≡ second n i → second n j % 2 ≡ 1
second-odd n i j many below inside e = omega (
  arith,
  e,
  wrap (j + j % 2) n (omega (arith, inside)) (omega (arith, many)),
  wrap (i + (1 - i % 2)) n (omega (arith, below)) (omega (arith, many)),
  wrap (j + (1 - j % 2)) n (omega (arith, inside)) (omega (arith, many)),
)

module _ (n : ℕ) (s : System) (many : 2 ≤ n) (sound : Sound n s) (owned : Owned n s) where
  abbrev CanStep : Type 0
  CanStep = (t : System) × Step n s t

  stand_of : (i : ℕ) → i < n → Stand n i s.forks (s.seats i)
  stand_of i below =
      let m = s.seats i in
      subst (λ k. Stand n k s.forks m) (sound i below).0
        (stand n m.philo.id s.forks m.philo.state m.philo.ate m.philo.cycle m.place
          (sound i below).1)

  -- The owner of a fork can go on, or it took that fork first and waits for its second one.
  owner :
      (f j : ℕ)
      → s.forks f ≡ some j
      → CanStep ⊎ ((k : ℕ) × (s.forks (second n j) ≡ some k) × (f ≡ first n j))
  owner f j e =
      let (inside, held) = owned f j e in
      elim (stand_of j inside) [
        | goes step ↦ inl (_, moves j inside step)
        | done at free ↦ absurd (unheld held (free f))
        | at_first w free ↦ absurd (unheld held (free f))
        | at_second w only ↦ inr (_, w, only f held)
      ]
    where
      unheld : {x : Bool} → x ≡ true → x ≡ false → ⊥
      unheld e f = cc

  -- No thread waits for a fork of odd number for ever: its owner has all that it needs.
  waits-odd : (i j : ℕ) → second n i % 2 ≡ 1 → s.forks (second n i) ≡ some j → CanStep
  waits-odd i j odd e = elim (owner (second n i) j e) [
    | inl step ↦ step
    | inr (k, w, same) ↦
        let even = first-even n j (owned (second n i) j e).0 in
        let bad : 1 ≤ 0 = omega (arith, odd, even, ap (λ m. m % 2) same) in elim bad [ ]
  ]

  waits-second : (i j : ℕ) → i < n → s.forks (second n i) ≡ some j → CanStep
  waits-second i j below e = elim (owner (second n i) j e) [
    | inl step ↦ step
    | inr (k, w, same) ↦
        waits-odd j k (second-odd n i j many below (owned (second n i) j e).0 (sym same)) w
  ]

  one_goes : (i : ℕ) → i < n → (s.seats i).place ≢ returned → CanStep
  one_goes i below left = elim (stand_of i below) [
    | goes step ↦ (_, moves i below step)
    | done at free ↦ absurd (left at)
    | at_second w only ↦ waits-second i _ below w
    | at_first {j} w free ↦ elim (owner (first n i) j w) [
      | inl step ↦ step
      | inr (k, x, same) ↦ waits-second j k (owned (first n i) j w).0 x
    ]
  ]

Owned-Reach : (n c : ℕ) {s : System} → 2 ≤ n → 0 < c → Reach n (start c) s → Owned n s
Owned-Reach n c many some_cycle here = Owned-start n c
Owned-Reach n c many some_cycle (later r step) =
    Owned-Step n (λ i below. (Sound-Reach n c many some_cycle r i below).0)
      (Owned-Reach n c many some_cycle r) step

-- The philosophers do not deadlock: with at least two of them and at least one cycle, whatever the
-- schedule has been, as long as a thread has not returned, some thread can take a step.
pub start-progress :
    (n c : ℕ) {s : System}
    → 2 ≤ n
    → 0 < c
    → Reach n (start c) s
    → (i : ℕ) → i < n
    → (s.seats i).place ≢ returned
    → (t : System) × Step n s t
start-progress n c {s} many some_cycle r =
    one_goes n s many (Sound-Reach n c many some_cycle r) (Owned-Reach n c many some_cycle r)
