-- ===== src/Philo/Ending.antt =====
-- How long the philosophers of final/philo.c run: each step of a thread brings its end nearer.
use cse.Base.{
  ℕ, zero, suc, ◌+◌, ◌*◌, ◌≤◌, ◌<◌, ◌≡◌, ◌≢◌, refl, ap, inl, inr, false, subst, arith, ◌==◌,
  Bool-cases,
}
use cse.Philo.{returned, Muse, System, sit, start, Step, moves, Reach, here, later}
use cse.Philo.Numbers.{same_number}
use cse.Philo.Safety.{Sound, Sound-Reach}
use cse.Philo.Progress.{start-progress}
use cse.Philo.Left.{left, Counts, muse-Counts, left-returned, none_left}

-- The steps that the first `n` threads have left.
unfoldable pub total : ℕ → (ℕ → Muse) → ℕ
total zero seats = 0
total (suc n) seats = total n seats + left (seats n)

total-sit_above :
    (n i : ℕ) (seats : ℕ → Muse) (m : Muse) → n ≤ i → total n (sit seats i m) ≡ total n seats
unfolding total
total-sit_above zero i seats m h = refl
total-sit_above (suc n) i seats m h =
    let apart : (n == i) ≡ false = ground arith in
    rw apart (omega (arith, total-sit_above n i seats m (omega (arith, h))))

total-sit :
    (n i : ℕ) (seats : ℕ → Muse) (m : Muse)
    → i < n
    → left m + 1 ≡ left (seats i)
    → total n (sit seats i m) + 1 ≡ total n seats
unfolding total
total-sit zero i seats m h e = elim h [ ]
total-sit (suc n) i seats m h e = elim (Bool-cases (n == i)) [
  | inl same ↦
      let p = same_number n i same in
      rw same (
        omega
          (arith, e, total-sit_above n i seats m (omega (arith, p)), ap (λ k. left (seats k)) p))
  | inr apart ↦
      let inside : i < n = ground arith in rw apart (omega (arith, total-sit n i seats m inside e))
]

total-Step : (n : ℕ) {s t : System} → Sound n s → Step n s t → total n t.seats + 1 ≡ total n s.seats
total-Step n {s} sound (moves i {forks} {m} below e) =
    let p = (s.seats i).philo in
    total-sit n i s.seats m below (
      subst (Counts (left (s.seats i))) e
        (muse-Counts n p.id s.forks p.state p.ate p.cycle (s.seats i).place (sound i below).1.0))

total-start : (n c : ℕ) → total n (start c).seats ≡ n * (5 * c)
unfolding total left
total-start zero c = grind arith
total-start (suc n) c = grind (arith, total-start n c)

-- The steps of a run.
abbrev pub steps : {n : ℕ} {s t : System} → Reach n s t → ℕ
steps here = 0
steps (later r step) = suc (steps r)

steps-total :
    (n c : ℕ) {s : System}
    → 2 ≤ n
    → 0 < c
    → (r : Reach n (start c) s) → steps r + total n s.seats ≡ n * (5 * c)
steps-total n c many some_cycle here = omega (arith, total-start n c)
steps-total n c many some_cycle (later r step) = omega (
  arith,
  steps-total n c many some_cycle r,
  total-Step n (Sound-Reach n c many some_cycle r) step,
)

some_left :
    (n k : ℕ) (seats : ℕ → Muse) → total n seats ≡ suc k → (i : ℕ) × (i < n) × (left (seats i) ≢ 0)
unfolding total
some_left zero k seats e = let bad : 1 ≤ 0 = omega (arith, e) in elim bad [ ]
some_left (suc n) k seats e = elim (Bool-cases (left (seats n) == 0)) [
  | inl e' ↦
      let (i, below, l) = some_left n k seats (omega (arith, e, same_number _ _ e')) in
      (i, omega (arith, below), l)
  | inr l ↦ (n, omega arith, ground arith)
]

-- The first `n` threads have returned.
abbrev pub AllReturned : ℕ → (ℕ → Muse) → Type 0
AllReturned zero seats = Unit
AllReturned (suc n) seats = AllReturned n seats × ((seats n).place ≡ returned)

all_returned :
    (n : ℕ) (seats : ℕ → Muse)
    → ((i : ℕ) → i < n → left (seats i) ≡ 0 → (seats i).place ≡ returned)
    → total n seats ≡ 0
    → AllReturned n seats
unfolding total
all_returned zero seats h e = tt
all_returned (suc n) seats h e = (
  all_returned n seats (λ i below. h i (omega (arith, below))) (omega (arith, e)),
  h n (omega arith) (omega (arith, e)),
)

Reach-step : {n : ℕ} {s t u : System} → Step n s t → Reach n t u → Reach n s u
Reach-step step here = later here step
Reach-step step (later r next) = later (Reach-step step r) next

module _ (n c : ℕ) (many : 2 ≤ n) (some_cycle : 0 < c) where
  finish :
      (k : ℕ) {s : System}
      → Reach n (start c) s
      → total n s.seats ≡ k
      → (t : System) × Reach n s t × AllReturned n t.seats
  finish zero {s} r e =
      let sound = Sound-Reach n c many some_cycle r in
      (
        s,
        here,
        all_returned n s.seats (λ i below. none_left _ _ _ _ (s.seats i).place (sound i below).1.0)
            e,
      )
  finish (suc k) {s} r e =
      let (i, below, l) = some_left n k s.seats e in
      let (t, step) =
        start-progress n c many some_cycle r i below (λ q. l (left-returned (s.seats i) q)) in
      let fewer = total-Step n (Sound-Reach n c many some_cycle r) step in
      let (u, q, h) = finish k (later r step) (omega (arith, fewer, e)) in (u, Reach-step step q, h)

  -- With at least two philosophers and at least one cycle, whatever the schedule: a run has at most
  -- five steps for each cycle of each philosopher, and from wherever it has come it can go on to a state
  -- in which every thread has returned.
  pub start-ends :
      {s : System} (r : Reach n (start c) s)
      → (steps r ≤ n * (5 * c)) × ((t : System) × Reach n s t × AllReturned n t.seats)
  start-ends {s} r =
      (omega (arith, steps-total n c many some_cycle r), finish (total n s.seats) r refl)
