-- ===== src/Base/Sorted.antt =====
-- Ascending lists of integers, and permutations of them: what the sorts of ps3 promise.
use mathlib.Core.List.{Perm, perm_middle, reverse_aux}
use mathlib.Core.List.Perm
use Prim.Native.Nat.{suc, ◌+◌}
use mathlib.Core.Path.{◌≡◌, refl, ap}
use mathlib.Core.Bool.{true, false}
use mathlib.Core.Logic.{inl, inr}
use mathlib.Core.List.{List, [], ◌∷◌, ◌++◌}
use native.Mathlib.Omega.{arith}
use cse.Base.Tests.{if◌then◌else◌, Bool-cases}
use cse.Base.Lists.{All, length}
use cse.Base.Int.{ℤ, ◌≤ℤ◌, ltb_ℤ}

-- Each number is at most every later one.
abbrev pub Sorted : List ℤ → Type 0
Sorted [] = Unit
Sorted (x ∷ xs) = All (λ y. x ≤ℤ y) xs × Sorted xs

-- Each number is at least every later one.
abbrev pub Descending : List ℤ → Type 0
Descending [] = Unit
Descending (x ∷ xs) = All (λ y. y ≤ℤ x) xs × Descending xs

pub All-mono {ℓ κ μ} :
    {A : Type ℓ} (P : A → Type κ) (Q : A → Type μ) (xs : List A)
    → ((x : A) → P x → Q x)
    → All P xs
    → All Q xs
All-mono P Q [] f h = tt
All-mono P Q (x ∷ xs) f h = (f x h.0, All-mono P Q xs f h.1)

pub All-zip {ℓ κ μ} :
    {A : Type ℓ} (P : A → Type κ) (Q : A → Type μ) (xs : List A)
    → All P xs
    → All Q xs
    → All (λ x. P x × Q x) xs
All-zip P Q [] h k = tt
All-zip P Q (x ∷ xs) h k = ((h.0, k.0), All-zip P Q xs h.1 k.1)

pub ltb_ℤ-le : (a b : ℤ) → ltb_ℤ a b ≡ true → a ≤ℤ b
ltb_ℤ-le a b h = ground arith

pub ltb_ℤ-ge : (a b : ℤ) → ltb_ℤ a b ≡ false → b ≤ℤ a
ltb_ℤ-ge a b h = ground arith

-- Insertion into a descending list, before the first element that `x` is not below.
unfoldable pub insert_desc : ℤ → List ℤ → List ℤ
insert_desc x [] = x ∷ []
insert_desc x (a ∷ xs) = if ltb_ℤ x a then a ∷ insert_desc x xs else x ∷ a ∷ xs

All-insert_desc {κ} :
    (P : ℤ → Type κ) (x : ℤ) (xs : List ℤ) → P x → All P xs → All P (insert_desc x xs)
unfolding insert_desc
All-insert_desc P x [] p h = (p, tt)
All-insert_desc P x (a ∷ xs) p h = elim (Bool-cases (ltb_ℤ x a)) [
  | inl e ↦ rw e (h.0, All-insert_desc P x xs p h.1)
  | inr e ↦ rw e (p, h)
]

pub insert_desc-Descending : (x : ℤ) (xs : List ℤ) → Descending xs → Descending (insert_desc x xs)
unfolding insert_desc
insert_desc-Descending x [] d = (tt, tt)
insert_desc-Descending x (a ∷ xs) d = elim (Bool-cases (ltb_ℤ x a)) [
  | inl e ↦
      rw e
        (All-insert_desc (λ y. y ≤ℤ a) x xs (ltb_ℤ-le x a e) d.0, insert_desc-Descending x xs d.1)
  | inr e ↦ rw e (
    (
      ltb_ℤ-ge x a e,
      All-mono (λ y. y ≤ℤ a) (λ y. y ≤ℤ x) xs (λ y h. omega (arith, ltb_ℤ-ge x a e)) d.0,
    ),
    d,
  )
]

pub insert_desc-perm : (x : ℤ) (xs : List ℤ) → Perm (insert_desc x xs) (x ∷ xs)
unfolding insert_desc
insert_desc-perm x [] = Perm.refl (x ∷ [])
insert_desc-perm x (a ∷ xs) = elim (Bool-cases (ltb_ℤ x a)) [
  | inl e ↦ rw e (Perm.trans (Perm.cons a (insert_desc-perm x xs)) (Perm.swap x a xs))
  | inr e ↦ rw e (Perm.refl (x ∷ a ∷ xs))
]

pub length-insert_desc : (x : ℤ) (xs : List ℤ) → length (insert_desc x xs) ≡ suc (length xs)
unfolding insert_desc
length-insert_desc x [] = refl
length-insert_desc x (a ∷ xs) = elim (Bool-cases (ltb_ℤ x a)) [
  | inl e ↦ rw e (ap suc (length-insert_desc x xs))
  | inr e ↦ rw e
]

-- A descending list turned round is ascending.
pub Sorted-reverse_aux :
    (xs ys : List ℤ)
    → Descending xs
    → Sorted ys
    → All (λ a. All (λ b. a ≤ℤ b) ys) xs
    → Sorted (reverse_aux xs ys)
Sorted-reverse_aux [] ys d s h = s
Sorted-reverse_aux (x ∷ xs) ys d s h =
    Sorted-reverse_aux xs (x ∷ ys) d.1 (h.0, s)
      (All-zip (λ a. a ≤ℤ x) (λ a. All (λ b. a ≤ℤ b) ys) xs d.0 h.1)

pub reverse_aux-perm : (xs ys : List ℤ) → Perm (reverse_aux xs ys) (xs ++ ys)
reverse_aux-perm [] ys = Perm.refl ys
reverse_aux-perm (x ∷ xs) ys = Perm.trans (reverse_aux-perm xs (x ∷ ys)) (perm_middle xs ys)

pub length-reverse_aux : (xs ys : List ℤ) → length (reverse_aux xs ys) ≡ length xs + length ys
length-reverse_aux [] ys = omega arith
length-reverse_aux (x ∷ xs) ys = omega (arith, length-reverse_aux xs (x ∷ ys))
