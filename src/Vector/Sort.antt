-- ===== src/Vector/Sort.antt =====
-- sortVector of ps3/vector.c: an insertion sort by swaps of neighbours.
use mathlib.Core.List.{Perm, perm_middle, reverse_aux}
use mathlib.Core.List.Perm
use cse.Base.{
  ℕ, suc, ◌+◌, ◌-◌, ◌≤◌, ◌<◌, ◌≡◌, refl, ap, sym, ◌∙◌, inl, inr, some, List, [], ◌∷◌, ◌++◌, map,
  arith, lt→ltb, length, get_elem?, set, Bool-cases, append-nil, subst, All, Gives, gives,
}
use cse.Base.Int.{ℤ, ltb_ℤ}
use cse.Base.Sorted.{
  Sorted, Descending, insert_desc, insert_desc-Descending, insert_desc-perm, length-insert_desc,
  Sorted-reverse_aux, reverse_aux-perm, length-reverse_aux,
}
use cse.Vector.{Cell, IntVector, load, store, swap, sink, sort_rounds, sort_vector}
use cse.Vector.Cells.{Contents}

-- The cells of `xs` in reverse order, then `cells`: the sorted prefix of the loop is kept reversed.
abbrev onto : List ℤ → List Cell → List Cell
onto [] cells = cells
onto (x ∷ xs) cells = onto xs (some x ∷ cells)

next : (n k : ℕ) → suc n + k ≡ n + suc k
next n k = omega arith

get_elem?-onto :
    (xs : List ℤ) (cells : List Cell) (k : ℕ)
    → get_elem? (onto xs cells) (length xs + k) ≡ get_elem? cells k
get_elem?-onto [] cells k = ap (get_elem? cells) (omega arith)
get_elem?-onto (x ∷ xs) cells k =
    rw (next (length xs) k) (get_elem?-onto xs (some x ∷ cells) (suc k))

set-onto :
    (xs : List ℤ) (cells : List Cell) (k : ℕ) (c : Cell)
    → set (onto xs cells) (length xs + k) c ≡ onto xs (set cells k c)
set-onto [] cells k c = ap (λ i. set cells i c) (omega arith)
set-onto (x ∷ xs) cells k c = rw (next (length xs) k) (set-onto xs (some x ∷ cells) (suc k) c)

length-onto : (xs : List ℤ) (cells : List Cell) → length (onto xs cells) ≡ length xs + length cells
length-onto [] cells = omega arith
length-onto (x ∷ xs) cells = length-onto xs (some x ∷ cells) ∙ omega arith

plus_zero : (n : ℕ) → n ≡ n + 0
plus_zero n = omega arith

load-onto :
    (xs : List ℤ) (x : ℤ) (cells : List Cell) → load (onto xs (some x ∷ cells)) (length xs) ≡ some x
unfolding load
load-onto xs x cells = rw (found, load)
  where
    found : get_elem? (onto xs (some x ∷ cells)) (length xs) ≡ some (some x)
    found =
        ap (get_elem? (onto xs (some x ∷ cells))) (plus_zero (length xs))
        ∙ get_elem?-onto xs (some x ∷ cells) 0

store-onto :
    (xs : List ℤ) (c : Cell) (x : ℤ) (cells : List Cell)
    → store (onto xs (c ∷ cells)) (length xs) x ≡ some (onto xs (some x ∷ cells))
unfolding store
store-onto xs c x cells =
    rw
      (lt→ltb (length xs) (length (onto xs (c ∷ cells)))
        (omega (arith, length-onto xs (c ∷ cells))))
      (ap some (
        ap (λ i. set (onto xs (c ∷ cells)) i (some x)) (plus_zero (length xs))
        ∙ set-onto xs (c ∷ cells) 0 (some x)))

-- The vector with the given cells.
abbrev vec : ℕ → ℕ → List Cell → IntVector
vec len cap cells = record { buf = cells; len = len; cap = cap }

inserts : List ℤ → List ℤ → List ℤ
inserts [] ys = ys
inserts (x ∷ xs) ys = inserts xs (insert_desc x ys)

module _ (len cap : ℕ) where
  swap-onto :
      (xs : List ℤ) (a b : ℤ) (cells : List Cell)
      → suc (length xs) < len
      → swap (vec len cap (onto xs (some a ∷ some b ∷ cells))) (suc (length xs)) (length xs)
        ≡ some (vec len cap (onto xs (some b ∷ some a ∷ cells)))
  unfolding swap
  swap-onto xs a b cells h = rw (
    lt→ltb (suc (length xs)) len h,
    lt→ltb (length xs) len (omega arith),
    load-onto (a ∷ xs) b cells,
    load-onto xs a (some b ∷ cells),
    store-onto (a ∷ xs) (some b) a cells,
    store-onto xs (some a) b (some a ∷ cells),
  )

  -- One run of the inner loop inserts the number at `i` into the sorted prefix.
  sink-onto :
      (xs : List ℤ) (x : ℤ) (cells : List Cell)
      → length xs < len
      → sink (length xs) (vec len cap (onto xs (some x ∷ cells)))
        ≡ some (vec len cap (onto (insert_desc x xs) cells))
  unfolding sink insert_desc
  sink-onto [] x cells h = refl
  sink-onto (a ∷ xs) x cells h =
      rw (load-onto xs a (some x ∷ cells), load-onto (a ∷ xs) x cells)
        (elim (Bool-cases (ltb_ℤ x a)) [
          | inl e ↦ rw (e, swap-onto xs a x cells h) (sink-onto xs x (some a ∷ cells) (omega arith))
          | inr e ↦ rw e
        ])

  sort_rounds-onto :
      (xs ys : List ℤ) (cells : List Cell)
      → length ys + length xs ≤ len
      → sort_rounds (length xs) (length ys) (vec len cap (onto ys (map some xs ++ cells)))
        ≡ some (vec len cap (onto (inserts xs ys) cells))
  unfolding sort_rounds inserts
  sort_rounds-onto [] ys cells h = refl
  sort_rounds-onto (x ∷ xs) ys cells h =
      rw (sink-onto ys x (map some xs ++ cells) (omega arith), grown)
        (sort_rounds-onto xs (insert_desc x ys) cells (omega (arith, length-insert_desc x ys)))
    where
      grown : length ys + 1 ≡ length (insert_desc x ys)
      grown = omega (arith, length-insert_desc x ys)

inserts-Descending : (xs ys : List ℤ) → Descending ys → Descending (inserts xs ys)
unfolding inserts
inserts-Descending [] ys d = d
inserts-Descending (x ∷ xs) ys d =
    inserts-Descending xs (insert_desc x ys) (insert_desc-Descending x ys d)

inserts-perm : (xs ys : List ℤ) → Perm (inserts xs ys) (xs ++ ys)
unfolding inserts
inserts-perm [] ys = Perm.refl ys
inserts-perm (x ∷ xs) ys =
    Perm.trans (inserts-perm xs (insert_desc x ys))
      (Perm.trans (Perm.append (Perm.refl xs) (insert_desc-perm x ys)) (perm_middle xs ys))

onto-live :
    (xs ys : List ℤ) (cells : List Cell)
    → onto xs (map some ys ++ cells) ≡ map some (reverse_aux xs ys) ++ cells
onto-live [] ys cells = refl
onto-live (x ∷ xs) ys cells = onto-live xs (x ∷ ys) cells

-- The numbers in the order in which `sortVector` leaves them.
sorted : List ℤ → List ℤ
sorted [] = []
sorted (x ∷ xs) = reverse_aux (inserts xs (x ∷ [])) []

sorted-Sorted : (xs : List ℤ) → Sorted (sorted xs)
unfolding sorted
sorted-Sorted [] = tt
sorted-Sorted (x ∷ xs) =
    let ys = inserts xs (x ∷ []) in
    Sorted-reverse_aux ys [] (inserts-Descending xs (x ∷ []) (tt, tt)) tt (nothing_after ys)
  where
    nothing_after : (zs : List ℤ) → All (λ a. Unit {0}) zs
    nothing_after [] = tt
    nothing_after (z ∷ zs) = (tt, nothing_after zs)

sorted-perm : (xs : List ℤ) → Perm (sorted xs) xs
unfolding sorted
sorted-perm [] = Perm.refl []
sorted-perm (x ∷ xs) =
    let ys = inserts xs (x ∷ []) in
    Perm.trans (reverse_aux-perm ys []) (
      Perm.trans (subst (λ l. Perm l ys) (sym (append-nil ys)) (Perm.refl ys)) (
        Perm.trans (inserts-perm xs (x ∷ [])) (
          Perm.trans (perm_middle xs [])
            (Perm.cons x (subst (λ l. Perm l xs) (sym (append-nil xs)) (Perm.refl xs))))))

length-inserts : (xs ys : List ℤ) → length (inserts xs ys) ≡ length xs + length ys
unfolding inserts
length-inserts [] ys = omega arith
length-inserts (x ∷ xs) ys =
    omega (arith, length-inserts xs (insert_desc x ys), length-insert_desc x ys)

length-sorted : (xs : List ℤ) → length (sorted xs) ≡ length xs
unfolding sorted
length-sorted [] = refl
length-sorted (x ∷ xs) =
    omega (arith, length-reverse_aux (inserts xs (x ∷ [])) [], length-inserts xs (x ∷ []))

sort_rounds-live :
    (len cap : ℕ) (xs : List ℤ) (rest : List Cell)
    → len ≡ length xs
    → sort_rounds (len - 1) 1 (vec len cap (map some xs ++ rest))
      ≡ some (vec len cap (map some (sorted xs) ++ rest))
unfolding sorted sort_rounds
sort_rounds-live len cap [] rest e = let none_left : len - 1 ≡ 0 = omega arith in rw none_left
sort_rounds-live len cap (x ∷ xs) rest e =
    let left : len - 1 ≡ length xs = omega arith in
    rw left (
      sort_rounds-onto len cap xs (x ∷ []) rest (omega arith)
      ∙ ap (λ cells. some (vec len cap cells)) (onto-live (inserts xs (x ∷ [])) [] rest))

-- `sortVector` ends without a fault, with the same numbers in ascending order, and leaves the
-- length, the capacity and the cells behind the numbers as they were.
pub sort_vector-sorts :
    {v : IntVector} (xs : List ℤ) {rest : List Cell}
    → Contents v xs rest
    → Gives
        (λ w.
          (ys : List ℤ) × Contents w ys rest
          × Sorted ys
          × Perm ys xs
          × (w.len ≡ v.len)
          × (w.cap ≡ v.cap))
        (sort_vector v)
unfolding sort_vector
sort_vector-sorts {v} xs {rest} k = rw result (
    gives (
      sorted xs,
      record { cells = refl; count = omega (arith, k.count, length-sorted xs) },
      sorted-Sorted xs,
      sorted-perm xs,
      refl,
      refl,
    ))
  where
    result : sort_rounds (v.len - 1) 1 v ≡ some (vec v.len v.cap (map some (sorted xs) ++ rest))
    result =
        ap (λ cells. sort_rounds (v.len - 1) 1 (vec v.len v.cap cells)) k.cells
        ∙ sort_rounds-live v.len v.cap xs rest k.count
