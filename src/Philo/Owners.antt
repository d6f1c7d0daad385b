-- ===== src/Philo/Owners.antt =====
-- Who owns the forks of final/philo.c: a fork that is owned is held by its owner.
use cse.Base.{
  ℕ, ◌+◌, ◌<◌, ◌≡◌, ◌≢◌, ◌⊎◌, refl, sym, ap, ◌∙◌, inl, inr, Bool, true, false, ◌||◌, subst, none,
  some, none_ne_some, arith, ltb, ◌==◌, Bool-cases,
}
use mathlib.Core.Option.{some-injective}
use cse.Philo.{
  Activity, think, hungry, eat, Forks, Place, loop, locked_first, unlocked_second, leaving,
  returned, Muse, Outcome, moved, blocked, ended, exits, undefined, is_free, is_owner, put, lock,
  unlock, do_activity, first, second, round, leave, muse_at, muse, System, start, Step, moves,
}
use cse.Philo.Locks.{holds, thread, goes_to}
use cse.Philo.Numbers.{same_number}

-- What a fork's owner behind a step of thread `i` had before.
abbrev Owns : ℕ → ℕ → Forks → Outcome → Type 0
Owns n i forks (moved g m) =
    (f j : ℕ) → g f ≡ some j → ((j ≡ i) × (holds n m f ≡ true)) ⊎ ((j ≢ i) × (forks f ≡ some j))
Owns n i forks blocked = Unit
Owns n i forks ended = Unit
Owns n i forks (exits k) = Unit
Owns n i forks undefined = Unit

apart_numbers : (a b : ℕ) → (a == b) ≡ false → a ≢ b
apart_numbers a b e f = ground arith

-- The forks stay as they are, and `i` holds what it held.
same-Owns :
    (n i : ℕ) (forks : Forks) (m : Muse)
    → ((f : ℕ) → forks f ≡ some i → holds n m f ≡ true)
    → Owns n i forks (moved forks m)
same-Owns n i forks m held f j e = elim (Bool-cases (j == i)) [
  | inl same ↦ let p = same_number j i same in inl (p, held f (subst (λ k. forks f ≡ some k) p e))
  | inr apart ↦ inr (apart_numbers j i apart, e)
]

lock-Owns :
    (n i x : ℕ) (forks : Forks) (m : Muse)
    → ((f : ℕ) → forks f ≡ some i → holds n m f ≡ true)
    → holds n m x ≡ true
    → Owns n i forks (lock forks x i (goes_to m))
lock-Owns n i x forks m held new = elim (Bool-cases (is_free (forks x))) [
  | inl free ↦ rw free (λ f j. taken f j (Bool-cases (f == x)))
  | inr busy ↦ rw busy tt
]
  where
    taken :
        (f j : ℕ)
        → ((f == x) ≡ true) ⊎ ((f == x) ≡ false)
        → put forks x (some i) f ≡ some j
        → ((j ≡ i) × (holds n m f ≡ true)) ⊎ ((j ≢ i) × (forks f ≡ some j))
    taken f j (inl at) e = inl (
      sym (some-injective _ _ (rw at at e)),
      subst (λ g. holds n m g ≡ true) (sym (same_number f x at)) new,
    )
    taken f j (inr off) e = same-Owns n i forks m held f j (rw off at e)

unlock-Owns :
    (n i x : ℕ) (forks : Forks) (m : Muse)
    → ((f : ℕ) → (f == x) ≡ false → forks f ≡ some i → holds n m f ≡ true)
    → Owns n i forks (unlock forks x i (goes_to m))
unlock-Owns n i x forks m held = elim (Bool-cases (is_owner (forks x) i)) [
  | inl own ↦ rw own (λ f j. given f j (Bool-cases (f == x)))
  | inr other ↦ rw other tt
]
  where
    given :
        (f j : ℕ)
        → ((f == x) ≡ true) ⊎ ((f == x) ≡ false)
        → put forks x none f ≡ some j
        → ((j ≡ i) × (holds n m f ≡ true)) ⊎ ((j ≢ i) × (forks f ≡ some j))
    given f j (inl at) e = none_ne_some (rw at at e)
    given f j (inr off) e = elim (Bool-cases (j == i)) [
      | inl same ↦
          let p = same_number j i same in
          inl (p, held f off (subst (λ k. forks f ≡ some k) p (rw off at e)))
      | inr apart ↦ inr (apart_numbers j i apart, rw off at e)
    ]

left : (a b : Bool) → a ≡ true → (a || b) ≡ true
left a b e = ground arith

only_left : (a b : Bool) → (a || b) ≡ true → b ≡ false → a ≡ true
only_left a b e f = ground arith

right : (f a x : ℕ) → (f == x) ≡ true → (x == a || x == x) ≡ true
right f a x e = ground arith

never : {x : Bool} → x ≡ true → x ≡ false → ⊥
never e f = cc

module _ (n i : ℕ) (forks : Forks) where
  -- Whatever follows says nothing of the forks.
  lock_any :
      (x : ℕ) (next : Forks → Outcome)
      → ((g : Forks) → Owns n i forks (next g))
      → Owns n i forks (lock forks x i next)
  lock_any x next h = elim (Bool-cases (is_free (forks x))) [ inl e ↦ rw e (h _) | inr e ↦ rw e tt ]

  unlock_any :
      (x : ℕ) (next : Forks → Outcome)
      → ((g : Forks) → Owns n i forks (next g))
      → Owns n i forks (unlock forks x i next)
  unlock_any x next h = elim (Bool-cases (is_owner (forks x) i)) [
    | inl e ↦ rw e (h _)
    | inr e ↦ rw e tt
  ]

  abbrev Held : Muse → Type 0
  Held m = (f : ℕ) → forks f ≡ some i → holds n m f ≡ true

  -- A step of a thread that holds what it owns.
  muse-Owns :
      (st : Activity) (a c : ℕ) (place : Place)
      → Held (thread i st a c place)
      → Owns n i forks (muse n forks (thread i st a c place))
  unfolding muse muse_at round leave do_activity holds
  muse-Owns think a c loop h = elim (Bool-cases (ltb a c)) [
    | inl more ↦ rw more (same-Owns n i forks (thread i hungry a c loop) h)
    | inr enough ↦ rw enough (
        unlock-Owns n i (second n i) forks (thread i think a c leaving)
          (λ f off e. absurd (never (h f e) refl)))
  ]
  muse-Owns hungry a c loop h = elim (Bool-cases (ltb a c)) [
    | inl more ↦ rw more (
        lock-Owns n i (first n i) forks (thread i hungry a c locked_first)
          (λ f e. absurd (never (h f e) refl)) (ground arith))
    | inr enough ↦ rw enough (
        unlock-Owns n i (second n i) forks (thread i hungry a c leaving)
          (λ f off e. absurd (never (h f e) refl)))
  ]
  muse-Owns eat a c loop h = elim (Bool-cases (ltb a c)) [
    | inl more ↦ rw more (
        unlock-Owns n i (second n i) forks (thread i eat a c unlocked_second)
          (λ f off e. only_left _ _ (h f e) off))
    | inr enough ↦ rw enough (
        unlock-Owns n i (second n i) forks (thread i eat a c leaving)
          (λ f off e. only_left _ _ (h f e) off))
  ]
  muse-Owns think a c locked_first h = lock_any (second n i) (λ g. exits 3) (λ g. tt)
  muse-Owns eat a c locked_first h = lock_any (second n i) (λ g. exits 3) (λ g. tt)
  muse-Owns hungry a c locked_first h =
      lock-Owns n i (second n i) forks (thread i eat (a + 1) c loop) (λ f e. left _ _ (h f e))
        (ground arith)
  muse-Owns think a c unlocked_second h = unlock_any (first n i) (λ g. exits 1) (λ g. tt)
  muse-Owns hungry a c unlocked_second h = unlock_any (first n i) (λ g. exits 1) (λ g. tt)
  muse-Owns eat a c unlocked_second h =
      unlock-Owns n i (first n i) forks (thread i think a c loop)
        (λ f off e. absurd (never (h f e) off))
  muse-Owns think a c leaving h = unlock_any (first n i) (λ g. exits 1) (λ g. tt)
  muse-Owns hungry a c leaving h = unlock_any (first n i) (λ g. exits 1) (λ g. tt)
  muse-Owns eat a c leaving h =
      unlock-Owns n i (first n i) forks (thread i think a c returned)
        (λ f off e. absurd (never (h f e) off))
  muse-Owns st a c returned h = tt

-- Every owner is one of the `n` threads, and holds the fork.
abbrev pub Owned : ℕ → System → Type 0
Owned n s = (f j : ℕ) → s.forks f ≡ some j → (j < n) × (holds n (s.seats j) f ≡ true)

pub Owned-start : (n c : ℕ) → Owned n (start c)
Owned-start n c f j e = none_ne_some e

pub Owned-Step :
    (n : ℕ) {s t : System}
    → ((i : ℕ) → i < n → (s.seats i).philo.id ≡ i)
    → Owned n s
    → Step n s t
    → Owned n t
Owned-Step n {s} ids owned (moves i {forks} {m} below e) f j own = elim (behind f j own) [
  | inl (at, held) ↦
      let same : (j == i) ≡ true = ground arith in (omega (arith, at, below), rw same held)
  | inr (other, before) ↦ let off : (j == i) ≡ false = ground arith in rw off (owned f j before)
]
  where
    held : (f : ℕ) → s.forks f ≡ some (s.seats i).philo.id → holds n (s.seats i) f ≡ true
    held f own = (owned f i (own ∙ ap some (ids i below))).1

    behind : Owns n i s.forks (moved forks m)
    behind =
        let p = (s.seats i).philo in
        subst (λ k. Owns n k s.forks (moved forks m)) (ids i below)
          (subst (Owns n p.id s.forks) e
            (muse-Owns n p.id s.forks p.state p.ate p.cycle (s.seats i).place held))
