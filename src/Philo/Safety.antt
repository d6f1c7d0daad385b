-- ===== src/Philo/Safety.antt =====
-- All threads of final/philo.c: what none of them ever does.
use cse.Base.{
  ℕ, ◌≤◌, ◌<◌, ◌≡◌, ◌≢◌, refl, sym, ◌∙◌, inl, inr, true, false, arith, ◌==◌, Bool-cases, lt→ltb,
  subst,
}
use mathlib.Core.Option.{some-injective}
use cse.Philo.{
  Forks, Muse, Outcome, moved, blocked, ended, exits, undefined, muse, System, sit, start, Step,
  moves, Reach, here, later,
}
use cse.Philo.Locks.{holds, Local, Safe, muse-Safe}
use cse.Philo.Numbers.{same_number}

-- Every thread of the `n` has its number and stands as it should.
abbrev pub Sound : ℕ → System → Type 0
Sound n s = (i : ℕ) → i < n → ((s.seats i).philo.id ≡ i) × Local n s.forks (s.seats i)

Sound-start : (n c : ℕ) → 0 < c → Sound n (start c)
unfolding holds
Sound-start n c some_cycle i below = (refl, (lt→ltb 0 c some_cycle, λ f h. cc))

Safe-seat :
    (n : ℕ) (s : System) (i : ℕ)
    → 2 ≤ n
    → Sound n s
    → i < n
    → Safe n (s.seats i).philo.id s.forks (muse n s.forks (s.seats i))
Safe-seat n s i many sound below =
    let m = s.seats i in
    muse-Safe n m.philo.id m.philo.state m.philo.ate m.philo.cycle m.place s.forks many
      (omega (arith, (sound i below).0)) (sound i below).1

Sound-moves :
    (n : ℕ) (s : System) (i : ℕ) (g : Forks) (m : Muse)
    → Sound n s
    → i < n
    → Safe n (s.seats i).philo.id s.forks (moved g m)
    → Sound n (record { forks = g; seats = sit s.seats i m })
Sound-moves n s i g m sound below safe j inside = elim (Bool-cases (j == i)) [
  | inl same ↦ rw same (safe.0 ∙ (sound i below).0 ∙ sym (same_number j i same), safe.1)
  | inr apart ↦ rw apart (
    (sound j inside).0,
    (
      (sound j inside).1.0,
      λ f h.
          safe.2 f _ (λ e. apart_numbers j i apart (sym (sound j inside).0 ∙ e ∙ (sound i below).0))
            ((sound j inside).1.1 f h),
    ),
  )
]
  where
    apart_numbers : (a b : ℕ) → (a == b) ≡ false → a ≢ b
    apart_numbers a b e f = ground arith

Sound-Step : (n : ℕ) {s t : System} → 2 ≤ n → Sound n s → Step n s t → Sound n t
Sound-Step n {s} many sound (moves i {forks} {m} below e) =
    Sound-moves n s i forks m sound below
      (subst (Safe n (s.seats i).philo.id s.forks) e (Safe-seat n s i many sound below))

pub Sound-Reach : (n c : ℕ) {s : System} → 2 ≤ n → 0 < c → Reach n (start c) s → Sound n s
Sound-Reach n c many some_cycle here = Sound-start n c some_cycle
Sound-Reach n c many some_cycle (later r step) =
    Sound-Step n many (Sound-Reach n c many some_cycle r) step

-- A step that neither ends the process nor unlocks what the thread does not hold.
abbrev pub Fine : Outcome → Type 0
Fine (moved g m) = Unit
Fine blocked = Unit
Fine ended = Unit
Fine (exits k) = ⊥
Fine undefined = ⊥

Fine-of_Safe : (n i : ℕ) (forks : Forks) (o : Outcome) → Safe n i forks o → Fine o
Fine-of_Safe n i forks (moved g m) h = tt
Fine-of_Safe n i forks blocked h = tt
Fine-of_Safe n i forks ended h = tt
Fine-of_Safe n i forks (exits k) h = h
Fine-of_Safe n i forks undefined h = h

-- With at least two philosophers and at least one cycle, whatever the schedule: no thread ends the
-- process out of doActivity, and none unlocks a fork that it does not hold.
pub muse-Fine :
    (n c : ℕ) {s : System}
    → 2 ≤ n
    → 0 < c
    → Reach n (start c) s
    → (i : ℕ) → i < n
    → Fine (muse n s.forks (s.seats i))
muse-Fine n c {s} many some_cycle r i below =
    Fine-of_Safe n (s.seats i).philo.id s.forks (muse n s.forks (s.seats i))
      (Safe-seat n s i many (Sound-Reach n c many some_cycle r) below)

-- With at least two philosophers and at least one cycle, whatever the schedule: a fork that one
-- thread holds is held by no other.
pub holds-one :
    (n c : ℕ) {s : System}
    → 2 ≤ n
    → 0 < c
    → Reach n (start c) s
    → (i j f : ℕ) → i < n
    → j < n
    → i ≢ j
    → holds n (s.seats i) f ≡ true
    → holds n (s.seats j) f ≡ false
holds-one n c {s} many some_cycle r i j f i_below j_below two hi =
    let sound = Sound-Reach n c many some_cycle r in
    elim (Bool-cases (holds n (s.seats j) f)) [
      | inl hj ↦ absurd (
          two (
            sym (sound i i_below).0
            ∙ some-injective _ _ (sym ((sound i i_below).1.1 f hi) ∙ (sound j j_below).1.1 f hj)
            ∙ (sound j j_below).0))
      | inr free ↦ free
    ]
