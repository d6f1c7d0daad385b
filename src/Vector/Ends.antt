-- ===== src/Vector/Ends.antt =====
-- pushBackVector, popBackVector, pushFrontVector and popFrontVector of ps3/vector.c.
use cse.Base.{
  ℕ, suc, ◌-◌, ◌≤◌, ◌≡◌, refl, ap, ◌∙◌, ap₂, inl, inr, none, some, false, List, [], ◌∷◌, ◌++◌, map,
  append_assoc, arith, ltb, lt→ltb, length, length-append, Gives, gives,
}
use cse.Base.Int.{ℤ}
use cse.Vector.{
  Cell, IntVector, store, load, make_room, push_back_vector, pop_back_vector, push_front_vector,
  pop_front_vector,
}
use cse.Vector.Cells.{
  Contents, IsValid, length-rest, room_lem, make_room-full, length-cells, live-append, load-live,
  memmove_outside, store_first, store_next, shift_up, shift_down,
}

module _ {vec : IntVector} {xs : List ℤ} {c : Cell} {rest : List Cell} where
  -- `pushBackVector` below the capacity writes behind the last number and changes nothing else.
  pub push_back-append :
      (x : ℤ)
      → Contents vec xs (c ∷ rest)
      → IsValid vec
      → Gives
          (λ v. Contents v (xs ++ x ∷ []) rest × IsValid v × (v.cap ≡ vec.cap))
          (push_back_vector vec x)
  unfolding push_back_vector
  push_back-append x k valid =
      rw
        (
          room_lem vec (omega (arith, length-rest k, valid.block)),
          store_next xs rest c x k.cells k.count,
        )
        (gives (
          record { cells = refl; count = omega (arith, length-append xs (x ∷ []), length-rest k) },
          record {
            block =
                omega (
                  arith,
                  length-cells (xs ++ x ∷ []) rest,
                  length-append xs (x ∷ []),
                  length-rest k,
                );
            small = valid.small;
            fits = omega (arith, length-rest k);
          },
          refl,
        ))

  -- `pushFrontVector` below the capacity moves every number up by one and writes at index 0.
  pub push_front-cons :
      (x : ℤ)
      → Contents vec xs (c ∷ rest)
      → IsValid vec
      → Gives
          (λ v. Contents v (x ∷ xs) rest × IsValid v × (v.cap ≡ vec.cap))
          (push_front_vector vec x)
  unfolding push_front_vector
  push_front-cons x k valid =
      rw
        (
          room_lem vec (omega (arith, length-rest k, valid.block)),
          shift_up xs rest c k.cells k.count,
          store_first x vec.buf (map some xs ++ rest) (omega (arith, length-rest k)),
        )
        (gives (
          record { cells = refl; count = omega (arith, length-rest k) },
          record {
            block = omega (arith, length-cells xs rest, length-rest k);
            small = valid.small;
            fits = omega (arith, length-rest k);
          },
          refl,
        ))

push-full :
    (vec : IntVector) (x : ℤ)
    → vec.len ≡ vec.cap
    → (push_back_vector vec x ≡ none) × (push_front_vector vec x ≡ none)
unfolding push_back_vector push_front_vector store
push-full vec x h =
    let (short, same) = make_room-full vec h in
    let v = make_room vec in
    (
      rw (outside v.len v.buf (omega arith)),
      rw (memmove_outside v.buf 1 0 v.len (inr (omega arith))),
    )
  where
    outside : (i : ℕ) (cells : List Cell) → length cells ≤ i → ltb i (length cells) ≡ false
    outside i cells le = ground arith

module _ {vec : IntVector} {xs : List ℤ} where
  -- `popBackVector` returns the last number and takes it off.
  pub pop_back-append :
      {rest : List Cell} {x : ℤ}
      → Contents vec (xs ++ x ∷ []) rest
      → IsValid vec
      → Gives
          (λ (r, v). (r ≡ x) × Contents v xs (some x ∷ rest) × IsValid v × (v.cap ≡ vec.cap))
          (pop_back_vector vec)
  unfolding pop_back_vector
  pop_back-append {rest} {x} k valid =
      rw (lt→ltb 0 vec.len (omega (arith, count)), found)
        (gives (
          refl,
          record { cells = k.cells ∙ live-append xs x rest; count = omega (arith, count) },
          record { block = valid.block; small = valid.small; fits = omega arith },
          refl,
        ))
    where
      count : vec.len ≡ suc (length xs)
      count = omega (arith, k.count, length-append xs (x ∷ []))

      found : load vec.buf (vec.len - 1) ≡ some x
      found =
          ap₂ load (k.cells ∙ live-append xs x rest) (omega (arith, count)) ∙ load-live xs x rest

  -- `popFrontVector` below the capacity returns the first number and moves the others down by one.
  pub pop_front-cons :
      {c : Cell} {rest : List Cell} {x : ℤ}
      → Contents vec (x ∷ xs) (c ∷ rest)
      → IsValid vec
      → Gives
          (λ (r, v). (r ≡ x) × Contents v xs (c ∷ c ∷ rest) × IsValid v × (v.cap ≡ vec.cap))
          (pop_front_vector vec)
  unfolding pop_front_vector
  pop_front-cons {c} {rest} {x} k valid =
      rw (lt→ltb 0 vec.len (omega (arith, k.count)), first, shift_down xs rest x c k.cells k.count)
        (gives (
          refl,
          record {
            cells = append_assoc (map some xs) (c ∷ []) (c ∷ rest);
            count = omega (arith, k.count);
          },
          record {
            block = omega (
              arith,
              length-append (map {B = Cell} some xs ++ c ∷ []) (c ∷ rest),
              length-cells xs (c ∷ []),
              length-rest k,
              k.count,
            );
            small = valid.small;
            fits = omega arith;
          },
          refl,
        ))
    where
      first : load vec.buf 0 ≡ some x
      first = ap (λ b. load b 0) k.cells ∙ load-live [] x (map some xs ++ c ∷ rest)

-- `popBackVector` returns the last number and takes it off, and
-- `popFrontVector` returns the first one and moves the others down by one; both
-- keep the vector valid. It is for at least two numbers below the capacity.
pub pop-takes :
    (vec : IntVector) (x : ℤ) (xs : List ℤ) (y : ℤ) (c : Cell) (rest : List Cell)
    → Contents vec (x ∷ xs ++ y ∷ []) (c ∷ rest)
    → IsValid vec
    → Gives
        (λ (r, v).
          (r ≡ y) × Contents v (x ∷ xs) (some y ∷ c ∷ rest) × IsValid v × (v.cap ≡ vec.cap))
        (pop_back_vector vec)
      × Gives
          (λ (r, v).
            (r ≡ x) × Contents v (xs ++ y ∷ []) (c ∷ c ∷ rest) × IsValid v × (v.cap ≡ vec.cap))
          (pop_front_vector vec)
pop-takes vec x xs y c rest k valid =
    (pop_back-append {xs = x ∷ xs} k valid, pop_front-cons k valid)

pop_front-full :
    (vec : IntVector) → length vec.buf ≡ vec.cap → vec.len ≡ vec.cap → pop_front_vector vec ≡ none
unfolding pop_front_vector
pop_front-full vec b h = rw (memmove_outside vec.buf 0 1 vec.len (inl (omega arith))) (ground arith)

-- A full vector faults on either push, since the block that `expandVector` asks for is too small, and on
-- `popFrontVector`, whose `memmove` reads one cell behind the block.
pub full-faults :
    (vec : IntVector) (x : ℤ)
    → length vec.buf ≡ vec.cap
    → vec.len ≡ vec.cap
    → (push_back_vector vec x ≡ none)
      × (push_front_vector vec x ≡ none)
      × (pop_front_vector vec ≡ none)
full-faults vec x block full =
    let (back, front) = push-full vec x full in (back, front, pop_front-full vec block full)

-- Popping from an empty vector stops at the `assert`.
pub pop-empty :
    (vec : IntVector) → vec.len ≡ 0 → (pop_back_vector vec ≡ none) × (pop_front_vector vec ≡ none)
unfolding pop_back_vector pop_front_vector
pop-empty vec h = (ground arith, ground arith)
