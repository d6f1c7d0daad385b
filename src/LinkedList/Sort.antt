-- ===== src/LinkedList/Sort.antt =====
-- sortList of ps3/list.c.
use cse.Base.{
  ℕ, zero, suc, ◌+◌, ◌≤◌, ◌<◌, ◌≡◌, ◌≢◌, refl, sym, ◌∙◌, subst, inl, inr, true, false, [], ◌∷◌,
  ◌++◌, append-nil, length, All, All-append, arith, Gives, gives, Gives-bind, Gives-mono,
  Bool-cases,
}
use cse.Base.Int.{ℤ, leb_ℤ, ◌≤ℤ◌}
use cse.Base.Sorted.{Sorted, All-mono, All-zip}
use mathlib.Core.List.{Perm, perm_middle}
use mathlib.Core.List.Perm
use cse.LinkedList.{Ptr, Heap, IntList, load, init_list, sort_loop, sort_list}
use cse.LinkedList.Chain.{
  Cells, start, values, Seg, Apart, Distinct, Allocated, Disjoint, IsList, Frame, load-ne_zero,
  Seg-agree, All-split,
}
use cse.LinkedList.Frames.{Becomes}
use cse.LinkedList.Insert.{sorted_insert-insert_cell}
use cse.LinkedList.Place.{insert_cell}

leb_ℤ-le : (x y : ℤ) → leb_ℤ x y ≡ true → x ≤ℤ y
leb_ℤ-le x y h = ground arith

leb_ℤ-ge : (x y : ℤ) → leb_ℤ x y ≡ false → y ≤ℤ x
leb_ℤ-ge x y h = ground arith

All-insert_cell :
    (P : Ptr × ℤ → Type 0) (a : Ptr) (x : ℤ) (cs : Cells)
    → All P cs
    → P (a, x)
    → All P (insert_cell a x cs)
unfolding insert_cell
All-insert_cell P a x [] h p = (p, tt)
All-insert_cell P a x ((b, y) ∷ cs) h p = elim (Bool-cases (leb_ℤ x y)) [
  | inl e ↦ rw e (p, h)
  | inr e ↦ rw e (h.0, All-insert_cell P a x cs h.1 p)
]

-- The numbers of the cells ascend.
Ascends : Cells → Type 0
Ascends [] = Unit
Ascends (c ∷ cs) = All (λ d. c.1 ≤ℤ d.1) cs × Ascends cs

insert_cell-Ascends : (a : Ptr) (x : ℤ) (cs : Cells) → Ascends cs → Ascends (insert_cell a x cs)
unfolding insert_cell Ascends
insert_cell-Ascends a x [] s = (tt, tt)
insert_cell-Ascends a x ((b, y) ∷ cs) s = elim (Bool-cases (leb_ℤ x y)) [
  | inl e ↦ rw e (
    (
      leb_ℤ-le x y e,
      All-mono (λ d. y ≤ℤ d.1) (λ d. x ≤ℤ d.1) cs (λ d le. omega (arith, leb_ℤ-le x y e)) s.0,
    ),
    s,
  )
  | inr e ↦
      rw e (
        All-insert_cell (λ d. y ≤ℤ d.1) a x cs s.0 (leb_ℤ-ge x y e),
        insert_cell-Ascends a x cs s.1,
      )
]

insert_cell-perm : (a : Ptr) (x : ℤ) (cs : Cells) → Perm (insert_cell a x cs) ((a, x) ∷ cs)
unfolding insert_cell
insert_cell-perm a x [] = Perm.refl ((a, x) ∷ [])
insert_cell-perm a x ((b, y) ∷ cs) = elim (Bool-cases (leb_ℤ x y)) [
  | inl e ↦ rw e (Perm.refl ((a, x) ∷ (b, y) ∷ cs))
  | inr e ↦
      rw e (Perm.trans (Perm.cons (b, y) (insert_cell-perm a x cs)) (Perm.swap (a, x) (b, y) cs))
]

sort_cells : Cells → Cells → Cells
sort_cells [] ds = ds
sort_cells ((a, x) ∷ cs) ds = sort_cells cs (insert_cell a x ds)

sort_cells-Ascends : (cs ds : Cells) → Ascends ds → Ascends (sort_cells cs ds)
unfolding sort_cells
sort_cells-Ascends [] ds s = s
sort_cells-Ascends ((a, x) ∷ cs) ds s =
    sort_cells-Ascends cs (insert_cell a x ds) (insert_cell-Ascends a x ds s)

append_perm : (cs ds es : Cells) → Perm ds es → Perm (cs ++ ds) (cs ++ es)
append_perm [] ds es p = p
append_perm (c ∷ cs) ds es p = Perm.cons c (append_perm cs ds es p)

sort_cells-perm : (cs ds : Cells) → Perm (sort_cells cs ds) (cs ++ ds)
unfolding sort_cells
sort_cells-perm [] ds = Perm.refl ds
sort_cells-perm ((a, x) ∷ cs) ds = Perm.trans (sort_cells-perm cs (insert_cell a x ds)) (
    Perm.trans (append_perm cs (insert_cell a x ds) ((a, x) ∷ ds) (insert_cell-perm a x ds))
      (perm_middle cs ds))

values-Sorted : (cs : Cells) → Ascends cs → Sorted (values cs)
unfolding Ascends
values-Sorted [] s = tt
values-Sorted (c ∷ cs) s = (below c.1 cs s.0, values-Sorted cs s.1)
  where
    below : (x : ℤ) (cs : Cells) → All (λ d. x ≤ℤ d.1) cs → All (λ y. x ≤ℤ y) (values cs)
    below x [] h = tt
    below x (d ∷ cs) h = (h.0, below x cs h.1)

-- The writes of a round and of the rounds after it.
Frame-round :
    {h h' h'' : Heap} (a : Ptr) (x : ℤ) (cs ds : Cells)
    → Frame h h' ((a, x) ∷ ds)
    → Frame h' h'' (cs ++ insert_cell a x ds)
    → Frame h h'' ((a, x) ∷ cs ++ ds)
Frame-round {h} {h'} {h''} a x cs ds frame frame' = record {
  grows = omega (arith, frame.grows, frame'.grows);
  same = λ q le out.
      let (o, o') = All-split (λ c. q ≢ c.0) cs ds out.1 in
      let still : q ≤ h'.brk = omega (arith, frame.grows) in
      frame'.same q still (
        All-append (λ c. q ≢ c.0) cs (insert_cell a x ds) o
          (All-insert_cell (λ c. q ≢ c.0) a x ds o' out.0))
      ∙ frame.same q le (out.0, o');
}

sort_loop-sort_cells :
    (h : Heap) (fuel : ℕ) (list : IntList) (cs ds : Cells)
    → Seg h cs 0
    → Distinct cs
    → Allocated h cs
    → Disjoint cs ds
    → IsList h list ds
    → length cs < fuel
    → Gives (Becomes h (cs ++ ds) (sort_cells cs ds)) (sort_loop h fuel list (start cs 0))
unfolding sort_loop sort_cells
sort_loop-sort_cells h zero list cs ds s d below apart v enough = elim enough [ ]
sort_loop-sort_cells h (suc fuel) list [] ds s d below apart v enough =
    gives (v, record { grows = omega arith; same = λ q le out. refl })
sort_loop-sort_cells h (suc fuel) list ((zero, x) ∷ cs) ds s d below apart v enough =
    absurd (load-ne_zero h 0 _ s.0 refl)
sort_loop-sort_cells h (suc fuel) list ((suc a, x) ∷ cs) ds s d below apart v enough = rw (s.0) (
    Gives-bind (sorted_insert-insert_cell h list (suc a) (start cs 0) x ds below.0 s.0 v apart.0)
      (λ (h', list') (v', frame).
        let others = All-zip (λ c. c.0 ≤ h.brk) (λ c. suc a ≢ c.0) cs below.1 d.0 in
        let all =
          All-zip (λ c. (c.0 ≤ h.brk) × (suc a ≢ c.0)) (λ c. Apart c.0 ds) cs others apart.1 in
        let s' =
          Seg-agree h h' cs 0
            (All-mono (λ c. ((c.0 ≤ h.brk) × (suc a ≢ c.0)) × Apart c.0 ds)
              (λ c. load h' c.0 ≡ load h c.0) cs
              (λ c p. frame.same c.0 p.0.0 ((λ e. p.0.1 (sym e)), p.1)) all)
            s.1 in
        let below' =
          All-mono (λ c. c.0 ≤ h.brk) (λ c. c.0 ≤ h'.brk) cs (λ c le. omega (arith, frame.grows))
            below.1 in
        let apart' =
          All-mono (λ c. ((c.0 ≤ h.brk) × (suc a ≢ c.0)) × Apart c.0 ds)
            (λ c. Apart c.0 (insert_cell (suc a) x ds)) cs
            (λ c p. All-insert_cell (λ e. c.0 ≢ e.0) (suc a) x ds p.1 (λ e. p.0.1 (sym e))) all in
        Gives-mono
          (sort_loop-sort_cells h' fuel list' cs (insert_cell (suc a) x ds) s' d.1 below' apart' v'
            (omega arith))
          (λ (h'', list'') (v'', frame'). (v'', Frame-round (suc a) x cs ds frame frame'))))

-- `sortList` leaves a list of the same nodes, in the order of their numbers, and writes to no other node.
pub sort_list-sorts :
    {h : Heap} {list : IntList} {cs : Cells}
    → IsList h list cs
    → Gives
        (λ (h', list').
          (ds : Cells) × IsList h' list' ds × Sorted (values ds) × Perm ds cs × Frame h h' cs)
        (sort_list h list)
unfolding sort_list Ascends
sort_list-sorts {h} {list} {cs} v =
    let sorted = sort_cells cs [] in
    let empty : IsList h init_list [] = record {
      head = refl;
      tail = refl;
      len = refl;
      seg = tt;
      distinct = tt;
      allocated = tt;
    } in
    let apart = All-mono (λ c. c.0 ≤ h.brk) (λ c. Unit {0}) cs (λ c le. tt) v.allocated in
    rw (v.head) (
      Gives-mono
        (sort_loop-sort_cells h (list.len + 1) init_list cs [] v.seg v.distinct v.allocated apart
          empty (omega (arith, v.len)))
        (λ (h', list') (v', frame). (
          sorted,
          v',
          values-Sorted sorted (sort_cells-Ascends cs [] tt),
          subst (Perm sorted) (append-nil cs) (sort_cells-perm cs []),
          subst (Frame h h') (append-nil cs) frame,
        )))
