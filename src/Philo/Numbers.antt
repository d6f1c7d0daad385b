-- ===== src/Philo/Numbers.antt =====
-- The two forks of a philosopher of final/philo.c, and the table of forks after a lock or an unlock.
use cse.Base.{
  ℕ, ◌+◌, ◌%◌, ◌≤◌, ◌<◌, ◌≡◌, ◌≢◌, refl, sym, ap, ◌∙◌, inl, inr, Bool, true, false, ◌||◌, Option,
  some, arith, ltb, ◌==◌, Bool-cases, ltb→lt, ltb→le,
}
use native.Mathlib.Nat.{mod-eq_of_lt, mod_self}
use cse.Philo.{Forks, put, first, second}

pub same_number : (a b : ℕ) → (a == b) ≡ true → a ≡ b
same_number a b e = ground arith

odd_bit : (i : ℕ) → (i % 2 == 0) ≡ false → i % 2 ≡ 1
odd_bit i e = ground arith

neighbours : (n i : ℕ) → 2 ≤ n → i < n → i % n ≢ (i + 1) % n
neighbours n i many below e = elim (Bool-cases (ltb (i + 1) n)) [
  | inl inside ↦
      omega (arith, sym (mod-eq_of_lt below) ∙ e ∙ mod-eq_of_lt (ltb→lt (i + 1) n inside))
  | inr last ↦
      let end = ltb→le (i + 1) n last in
      omega (arith, sym (mod-eq_of_lt below) ∙ e ∙ ap (λ k. k % n) (omega arith) ∙ mod_self n)
]

-- The two forks of a philosopher are two.
pub two_forks : (n i : ℕ) → 2 ≤ n → i < n → first n i ≢ second n i
two_forks n i many below e = elim (Bool-cases (i % 2 == 0)) [
  | inl even ↦
      let zero_bit = same_number (i % 2) 0 even in
      neighbours n i many below (ap (λ k. k % n) (omega arith) ∙ e ∙ ap (λ k. k % n) (omega arith))
  | inr odd ↦
      let one_bit = odd_bit i odd in
      neighbours n i many below
        (ap (λ k. k % n) (omega arith) ∙ sym e ∙ ap (λ k. k % n) (omega arith))
]

pub put_at : (forks : Forks) (x f : ℕ) (o : Option ℕ) → (f == x) ≡ true → put forks x o f ≡ o
put_at forks x f o e = rw e refl

-- The first fork is kept while the second one changes hands.
pub keeps_first :
    (forks : Forks) (x y f i : ℕ) (o : Option ℕ)
    → x ≢ y
    → forks x ≡ some i
    → (f == x) ≡ true
    → put forks y o f ≡ some i
keeps_first forks x y f i o apart own e =
    rw (other f x y apart (same_number f x e)) (ap forks (same_number f x e) ∙ own)
  where
    other : (f x y : ℕ) → x ≢ y → f ≡ x → (f == y) ≡ false
    other f x y apart e = ground arith

pub takes_second :
    (forks : Forks) (x y f i : ℕ)
    → x ≢ y
    → forks x ≡ some i
    → (f == x || f == y) ≡ true
    → put forks y (some i) f ≡ some i
takes_second forks x y f i apart own e = elim (Bool-cases (f == y)) [
  | inl same ↦ put_at forks y f (some i) same
  | inr not_y ↦ keeps_first forks x y f i (some i) apart own (either (f == x) (f == y) e not_y)
]
  where
    either : (a b : Bool) → (a || b) ≡ true → b ≡ false → a ≡ true
    either true b e h = refl
    either false b e h = cc
