-- ===== src/Vector/Cells.antt =====
-- The cells of the vector of ps3/vector.c, and what its memory operations do to them.
use cse.Base.{
  ℕ, suc, ◌+◌, ◌-◌, ◌*◌, ◌/◌, ◌^◌, ◌≤◌, ◌<◌, ◌≡◌, refl, ap, sym, ◌∙◌, ap₂, ◌⊎◌, none, some, List,
  [], ◌∷◌, ◌++◌, map, arith, ==_iff, lt→ltb, length, set, take, drop, replicate, length-append,
  length-map, length-take, length-replicate,
}
use cse.Base.Int.{ℤ}
use cse.Vector.{Cell, IntVector, size, store, load, memmove, expand_vector, make_room}

-- The numbers of the vector: the first `len` cells of its block.
pub record Contents (vec : IntVector) (xs : List ℤ) (rest : List Cell) : Type 0 where
  pub cells : vec.buf ≡ map some xs ++ rest
  pub count : vec.len ≡ length xs

-- What `initVector` sets up and the operations keep: the block has the cells that `cap` says.
pub record IsValid (vec : IntVector) : Type 0 where
  pub block : length vec.buf ≡ vec.cap
  pub small : vec.cap < 2 ^ 62
  pub fits : vec.len ≤ vec.cap

pub length-live : (xs : List ℤ) → length (map {B = Cell} some xs) ≡ length xs
length-live xs = length-map some xs

pub length-rest :
    {vec : IntVector} {xs : List ℤ} {rest : List Cell}
    → Contents vec xs rest
    → length vec.buf ≡ vec.len + length rest
length-rest {xs} {rest} c =
    ap length c.cells ∙ length-append (map some xs) rest ∙ omega (arith, length-live xs, c.count)

-- Below its capacity a vector keeps its block.
pub room_lem : (vec : IntVector) → vec.len < vec.cap → make_room vec ≡ vec
unfolding make_room
room_lem vec h = ground arith

-- A full vector gets a block of a quarter of the cells that its new capacity says.
pub make_room-full :
    (vec : IntVector)
    → vec.len ≡ vec.cap
    → length (make_room vec).buf ≤ vec.len × ((make_room vec).len ≡ vec.len)
unfolding make_room expand_vector
make_room-full vec h = rw ((==_iff vec.len vec.cap).1 h) (
    omega (
      arith,
      length-append (take (size (vec.cap * 2) / 4) vec.buf)
          (replicate (size (vec.cap * 2) / 4 - length vec.buf) none),
      length-take (size (vec.cap * 2) / 4) vec.buf,
      length-replicate {A = Cell} (size (vec.cap * 2) / 4 - length vec.buf) none,
    ))

pub length-cells :
    (xs : List ℤ) (rest : List Cell) → length (map some xs ++ rest) ≡ length xs + length rest
length-cells xs rest = length-append (map some xs) rest ∙ ap (λ n. n + length rest) (length-live xs)

pub live-append :
    (xs : List ℤ) (x : ℤ) (rest : List Cell)
    → map some (xs ++ x ∷ []) ++ rest ≡ map some xs ++ some x ∷ rest
live-append [] x rest = refl
live-append (y ∷ xs) x rest = ap (λ r. some y ∷ r) (live-append xs x rest)

pub set-live :
    (xs : List ℤ) (c d : Cell) (rest : List Cell)
    → set (map some xs ++ c ∷ rest) (length xs) d ≡ map some xs ++ d ∷ rest
set-live [] c d rest = refl
set-live (y ∷ xs) c d rest = ap (λ r. some y ∷ r) (set-live xs c d rest)

pub load-live :
    (xs : List ℤ) (x : ℤ) (rest : List Cell)
    → load (map some xs ++ some x ∷ rest) (length xs) ≡ some x
unfolding load
load-live [] x rest = refl
load-live (y ∷ xs) x rest = load-live xs x rest

pub take-live :
    (xs : List ℤ) (rest : List Cell) → take (length xs) (map some xs ++ rest) ≡ map some xs
take-live [] rest = refl
take-live (y ∷ xs) rest = ap (λ r. some y ∷ r) (take-live xs rest)

pub drop-live : (xs : List ℤ) (rest : List Cell) → drop (length xs) (map some xs ++ rest) ≡ rest
drop-live [] rest = refl
drop-live (y ∷ xs) rest = drop-live xs rest

pub drop-live_next :
    (xs : List ℤ) (c : Cell) (rest : List Cell)
    → drop (suc (length xs)) (map some xs ++ c ∷ rest) ≡ rest
drop-live_next [] c rest = refl
drop-live_next (y ∷ xs) c rest = drop-live_next xs c rest

pub take-live_next :
    (xs : List ℤ) (c : Cell) (rest : List Cell)
    → take (suc (length xs)) (map some xs ++ c ∷ rest) ≡ map some xs ++ c ∷ []
take-live_next [] c rest = refl
take-live_next (y ∷ xs) c rest = ap (λ r. some y ∷ r) (take-live_next xs c rest)

pub memmove_inside :
    (cells : List Cell) (dst src n : ℕ)
    → src + n ≤ length cells
    → dst + n ≤ length cells
    → memmove cells dst src n
      ≡ some (take dst cells ++ (take n (drop src cells) ++ drop (dst + n) cells))
unfolding memmove
memmove_inside cells dst src n h k = ground arith

pub memmove_outside :
    (cells : List Cell) (dst src n : ℕ)
    → (length cells < src + n) ⊎ (length cells < dst + n)
    → memmove cells dst src n ≡ none
unfolding memmove
memmove_outside cells dst src n h = ground arith

pub store_first :
    (x : ℤ) (buf cells : List Cell)
    → 0 < length buf
    → store (take 1 buf ++ cells) 0 x ≡ some (some x ∷ cells)
unfolding store
store_first x [] cells h = elim h [ ]
store_first x (c ∷ buf) cells h = ground arith

module _ {buf : List Cell} {i : ℕ} (xs : List ℤ) (rest : List Cell) where
  pub store_next :
      (c : Cell) (x : ℤ)
      → buf ≡ map some xs ++ c ∷ rest
      → i ≡ length xs
      → store buf i x ≡ some (map some (xs ++ x ∷ []) ++ rest)
  unfolding store
  store_next c x e l =
      rw
        (
          e,
          l,
          lt→ltb (length xs) (length (map {B = Cell} some xs ++ c ∷ rest))
              (omega (arith, length-cells xs (c ∷ rest))),
        )
        (ap some (set-live xs c (some x) rest ∙ sym (live-append xs x rest)))

  -- The block moves up by one cell, and the first cell keeps what it held.
  pub shift_up :
      (c : Cell)
      → buf ≡ map some xs ++ c ∷ rest
      → i ≡ length xs
      → memmove buf 1 0 i ≡ some (take 1 buf ++ (map some xs ++ rest))
  shift_up c e l =
      memmove_inside buf 1 0 i (omega (arith, long)) (omega (arith, long))
      ∙ ap (λ r. some (take 1 buf ++ r)) (ap₂ ◌++◌ front back)
    where
      long : length buf ≡ length xs + suc (length rest)
      long = ap length e ∙ length-cells xs (c ∷ rest)

      front : take i buf ≡ map some xs
      front = rw (e, l) (take-live xs (c ∷ rest))

      next : 1 + i ≡ suc (length xs)
      next = omega arith

      back : drop (1 + i) buf ≡ rest
      back = rw (next, e) (drop-live_next xs c rest)

  pub shift_down :
      (x : ℤ) (c : Cell)
      → buf ≡ map some (x ∷ xs) ++ c ∷ rest
      → i ≡ suc (length xs)
      → memmove buf 0 1 i ≡ some ((map some xs ++ c ∷ []) ++ c ∷ rest)
  shift_down x c e l =
      memmove_inside buf 0 1 i (omega (arith, long)) (omega (arith, long))
      ∙ ap some (ap₂ ◌++◌ front back)
    where
      long : length buf ≡ suc (length xs + suc (length rest))
      long = ap length e ∙ ap suc (length-cells xs (c ∷ rest))

      front : take i (drop 1 buf) ≡ map some xs ++ c ∷ []
      front = rw (e, l) (take-live_next xs c rest)

      same : 0 + i ≡ suc (length xs)
      same = omega arith

      back : drop (0 + i) buf ≡ c ∷ rest
      back = rw (same, e) (drop-live xs (c ∷ rest))
