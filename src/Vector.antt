-- ===== src/Vector.antt =====
-- The growable array of ps3/vector.c. A block of memory is the
-- list of the whole `int` cells that fit in its bytes; a cell that was never written is `none`, and
-- an access outside the block, or a read of an unwritten cell, is a fault (`none` of the result).
pub mod Cells
pub mod Ends
pub mod Sort
mod Examples
use cse.Base.{
  ℕ, zero, suc, ◌+◌, ◌-◌, ◌*◌, ◌/◌, ◌%◌, ◌^◌, Option, none, some, List, [], ◌++◌, ltb, leb, ◌==◌,
  if◌then◌else◌, length, get_elem?, set, take, drop, replicate, ◌>>=◌, ◌>>◌, assert,
}
use cse.Base.Int.{ℤ, ltb_ℤ}

abbrev pub Cell : Type 0
Cell = Option ℤ

pub record IntVector : Type 0 where
  pub buf : List Cell
  pub len : ℕ
  pub cap : ℕ

abbrev pub sizeof_int : ℕ
sizeof_int = 4

-- `size_t` arithmetic
abbrev pub size : ℕ → ℕ
size n = n % 2 ^ 64

-- `malloc` and `realloc`, as the C standard has them, when memory is not exhausted.
abbrev pub malloc : ℕ → List Cell
malloc bytes = replicate (bytes / sizeof_int) none

abbrev pub realloc : List Cell → ℕ → List Cell
realloc cells bytes =
    take (bytes / sizeof_int) cells ++ replicate (bytes / sizeof_int - length cells) none

unfoldable pub load : List Cell → ℕ → Option ℤ
load cells i = elim (get_elem? cells i) [ none ↦ none | some c ↦ c ]

unfoldable pub store : List Cell → ℕ → ℤ → Option (List Cell)
store cells i x = if ltb i (length cells) then some (set cells i (some x)) else none

-- `memmove` of `n` whole cells, from index `src` to index `dst`; no byte outside may be touched.
unfoldable pub memmove : List Cell → (dst src n : ℕ) → Option (List Cell)
memmove cells dst src n =
    if leb (src + n) (length cells)
    then (if leb (dst + n) (length cells)
        then some (take dst cells ++ (take n (drop src cells) ++ drop (dst + n) cells))
        else none)
    else none

unfoldable pub init_vector : ℕ → IntVector
init_vector cap = record { buf = malloc (size (sizeof_int * cap)); len = 0; cap = cap }

pub free_vector : IntVector → IntVector
free_vector vec = record { buf = []; len = 0; cap = 0 }

-- The new size is handed to `realloc` as it stands in the source.
unfoldable pub expand_vector : IntVector → IntVector
expand_vector vec =
    let cap = size (vec.cap * 2) in record vec { buf = realloc vec.buf cap; cap = cap }

-- `if (vec->len == vec->cap) expandVector(vec);`
unfoldable pub make_room : IntVector → IntVector
unfolding expand_vector
make_room vec = if vec.len == vec.cap then expand_vector vec else vec

unfoldable pub push_back_vector : IntVector → ℤ → Option IntVector
push_back_vector vec number = do
  let vec' = make_room vec
  buf ← store vec'.buf vec'.len number
  some (record vec' { buf = buf; len = size (vec'.len + 1) })

unfoldable pub pop_back_vector : IntVector → Option (ℤ × IntVector)
pop_back_vector vec = do
  assert (ltb 0 vec.len)
  rc ← load vec.buf (vec.len - 1)
  some (rc, record vec { len = vec.len - 1 })

unfoldable pub push_front_vector : IntVector → ℤ → Option IntVector
push_front_vector vec number = do
  let vec' = make_room vec
  buf ← memmove vec'.buf 1 0 vec'.len
  buf' ← store buf 0 number
  some (record vec' { buf = buf'; len = size (vec'.len + 1) })

unfoldable pub pop_front_vector : IntVector → Option (ℤ × IntVector)
pop_front_vector vec = do
  assert (ltb 0 vec.len)
  rc ← load vec.buf 0
  buf ← memmove vec.buf 0 1 vec.len
  some (rc, record vec { buf = buf; len = vec.len - 1 })

unfoldable pub swap : IntVector → (index_one index_two : ℕ) → Option IntVector
swap vec index_one index_two = do
  assert (ltb index_one vec.len)
  assert (ltb index_two vec.len)
  temp ← load vec.buf index_one
  x ← load vec.buf index_two
  buf ← store vec.buf index_one x
  buf' ← store buf index_two temp
  some (record vec { buf = buf' })

-- The inner loop of `sortVector`, at `j`.
unfoldable pub sink : ℕ → IntVector → Option IntVector
sink zero vec = some vec
sink (suc j) vec = do
  a ← load vec.buf j
  b ← load vec.buf (suc j)
  let rest = swap vec (suc j) j >>= sink j
  if ltb_ℤ b a then rest else some vec

-- The outer loop, with the rounds that are left and `i`.
unfoldable pub sort_rounds : (rounds i : ℕ) → IntVector → Option IntVector
sort_rounds zero i vec = some vec
sort_rounds (suc n) i vec = do vec' ← sink i vec; sort_rounds n (i + 1) vec'

unfoldable pub sort_vector : IntVector → Option IntVector
sort_vector vec = sort_rounds (vec.len - 1) 1 vec

pub length_vector : IntVector → ℕ
length_vector vec = vec.len
