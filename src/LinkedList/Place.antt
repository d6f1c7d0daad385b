-- ===== src/LinkedList/Place.antt =====
-- Where sortedInsert of ps3/list.c puts a node, and the writes that link it.
use cse.Base.{
  ℕ, zero, suc, ◌+◌, ◌≤◌, ◌<◌, ◌≡◌, ◌≢◌, refl, sym, ap, ◌∙◌, inl, inr, true, false, not, some, [],
  ◌∷◌, ◌++◌, length, length-append, All, arith, ◌==◌, if◌then◌else◌, Gives, gives, Gives-mono,
  Bool-cases,
}
use cse.Base.Int.{ℤ, leb_ℤ, ltb_ℤ}
use cse.LinkedList.{Ptr, IlNode, Heap, IntList, load, insert_point}
use cse.LinkedList.Chain.{
  Cells, start, last_of, Seg, Apart, Distinct, IsList, Frame, update, load-ne_zero, load-update_ne,
  load-update_self, start-append, Seg-join, Seg-split, Seg-agree, All-split, Distinct-split_snoc,
}
use cse.LinkedList.Frames.{update-agree, Frame-update, Frame-self, test_false, Apart-last}

-- The cell goes before the first number that it is at most.
unfoldable pub insert_cell : Ptr → ℤ → Cells → Cells
insert_cell a x [] = (a, x) ∷ []
insert_cell a x ((b, y) ∷ cs) =
    if leb_ℤ x y then (a, x) ∷ (b, y) ∷ cs else (b, y) ∷ insert_cell a x cs

pub ltb-leb : (x y : ℤ) → ltb_ℤ y x ≡ not (leb_ℤ x y)
ltb-leb x y = ground arith

-- Where `insert_point` stops: behind `us`, the last of which is at `p`.
unfoldable pub Stops : Cells → Ptr → ℤ → Ptr → Type 0
Stops cs a x p =
    (xs zs : Cells) × (z : ℤ) × (cs ≡ (xs ++ (p, z) ∷ []) ++ zs)
    × (insert_cell a x cs ≡ (xs ++ (p, z) ∷ []) ++ (a, x) ∷ zs)

pub insert_cell-front :
    (a : Ptr) (x : ℤ) (b : Ptr) (y : ℤ) (cs : Cells)
    → leb_ℤ x y ≡ true
    → insert_cell a x ((b, y) ∷ cs) ≡ (a, x) ∷ (b, y) ∷ cs
unfolding insert_cell
insert_cell-front a x b y cs e = rw e refl

pub insert_cell-after :
    (a : Ptr) (x : ℤ) (b : Ptr) (y : ℤ) (cs : Cells)
    → leb_ℤ x y ≡ false
    → insert_cell a x ((b, y) ∷ cs) ≡ (b, y) ∷ insert_cell a x cs
unfolding insert_cell
insert_cell-after a x b y cs e = rw e refl

pub insert_cell-nil : (a : Ptr) (x : ℤ) → insert_cell a x [] ≡ (a, x) ∷ []
unfolding insert_cell
insert_cell-nil a x = refl

pub insert_point-Stops :
    (h : Heap) (fuel : ℕ) (a : Ptr) (x : ℤ) (b : Ptr) (y : ℤ) (cs : Cells)
    → Seg h ((b, y) ∷ cs) 0
    → leb_ℤ x y ≡ false
    → length cs < fuel
    → Gives (Stops ((b, y) ∷ cs) a x) (insert_point h fuel b x)
unfolding insert_point Stops
insert_point-Stops h zero a x b y cs s after enough = elim enough [ ]
insert_point-Stops h (suc fuel) a x b y [] s after enough = rw (s.0) (
    gives (
      [],
      [],
      y,
      refl,
      insert_cell-after a x b y [] after ∙ ap (λ r. (b, y) ∷ r) (insert_cell-nil a x),
    ))
insert_point-Stops h (suc fuel) a x b y ((zero, w) ∷ cs) s after enough =
    absurd (load-ne_zero h 0 _ s.1.0 refl)
insert_point-Stops h (suc fuel) a x b y ((suc d, w) ∷ cs) s after enough =
    elim (Bool-cases (leb_ℤ x w)) [
      | inl e ↦
          rw (s.0, s.1.0, ltb-leb x w, e)
            (gives (
              [],
              (suc d, w) ∷ cs,
              y,
              refl,
              insert_cell-after a x b y ((suc d, w) ∷ cs) after
                  ∙ ap (λ r. (b, y) ∷ r) (insert_cell-front a x (suc d) w cs e),
            ))
      | inr e ↦
          rw (s.0, s.1.0, ltb-leb x w, e)
            (Gives-mono (insert_point-Stops h fuel a x (suc d) w cs s.1 e (omega arith))
              (λ p (xs, zs, z, whole, inserted). (
                (b, y) ∷ xs,
                zs,
                z,
                ap (λ r. (b, y) ∷ r) whole,
                insert_cell-after a x b y ((suc d, w) ∷ cs) after ∙ ap (λ r. (b, y) ∷ r) inserted,
              )))
    ]

pub All-insert :
    (P : Ptr × ℤ → Type 0) (us zs : Cells) (c : Ptr × ℤ)
    → All P (us ++ zs)
    → P c
    → All P (us ++ c ∷ zs)
All-insert P [] zs c h p = (p, h)
All-insert P (u ∷ us) zs c h p = (h.0, All-insert P us zs c h.1 p)

pub Distinct-insert :
    (us zs : Cells) (c : Ptr × ℤ)
    → Distinct (us ++ zs)
    → Apart c.0 (us ++ zs)
    → Distinct (us ++ c ∷ zs)
Distinct-insert [] zs c d a = (a, d)
Distinct-insert (u ∷ us) zs c d a =
    (All-insert (λ e. u.0 ≢ e.0) us zs c d.0 (λ e. a.0 (sym e)), Distinct-insert us zs c d.1 a.1)

pub length-insert : (us zs : Cells) (c : Ptr × ℤ) → length (us ++ c ∷ zs) ≡ length (us ++ zs) + 1
length-insert us zs c = omega (arith, length-append us (c ∷ zs), length-append us zs)

pub Distinct-split :
    (us zs : Cells) → Distinct (us ++ zs) → Distinct us × All (λ u. Apart u.0 zs) us
Distinct-split [] zs d = (tt, tt)
Distinct-split (u ∷ us) zs d =
    let (e, f) = Distinct-split us zs d.1 in
    let (b, c) = All-split (λ y. u.0 ≢ y.0) us zs d.0 in ((b, e), (c, f))

pub last_of-append :
    (us zs : Cells) (a q : Ptr) (x : ℤ) → last_of (us ++ (a, x) ∷ zs) q ≡ last_of zs a
last_of-append [] zs a q x = refl
last_of-append (u ∷ us) zs a q x = last_of-append us zs a u.0 x

pub linked_tail :
    (h : Heap) (us zs : Cells) (tail a : Ptr) (x : ℤ)
    → Seg h zs 0
    → tail ≡ last_of (us ++ zs) 0
    → (if start zs 0 == 0 then a else tail) ≡ last_of (us ++ (a, x) ∷ zs) 0
linked_tail h us [] tail a x s e = sym (last_of-append us [] a 0 x)
linked_tail h us ((d, w) ∷ zs) tail a x s e =
    rw (test_false d 0 (load-ne_zero h d _ s.0))
      (e ∙ last_of-append us zs d 0 w ∙ sym (last_of-append us ((d, w) ∷ zs) a 0 x))

-- The write to the node behind which the new one goes, and that to the new one.
pub link :
    (h : Heap) (list : IntList) (xs zs : Cells) (p a : Ptr) (z x : ℤ) (n : IlNode)
    → let cs = (xs ++ (p, z) ∷ []) ++ zs in
      IsList h list cs
      → Apart a cs
      → a ≤ h.brk
      → load h a ≡ some n
      → let h1 = update h p (some (record { next = a; number = z })) in
        let h2 = update h1 a (some (record { next = start zs 0; number = x })) in
        IsList h2
          (record list { tail = if start zs 0 == 0 then a else list.tail; len = list.len + 1 })
          ((xs ++ (p, z) ∷ []) ++ (a, x) ∷ zs)
        × Frame h h2 ((a, x) ∷ cs)
link h list xs zs p a z x n v out below at =
    let us = xs ++ (p, z) ∷ [] in
    let to_new : IlNode = record { next = a; number = z } in
    let new : IlNode = record { next = start zs 0; number = x } in
    let h1 = update h p (some to_new) in
    let h2 = update h1 a (some new) in
    let (s, s_zs) = Seg-split h us zs 0 v.seg in
    let (s_xs, s_p) = Seg-split h xs ((p, z) ∷ []) (start zs 0) s in
    let (d, apart) = Distinct-split us zs v.distinct in
    let (_, p_xs) = Distinct-split_snoc xs (p, z) d in
    let (_, p_zs) = All-split (λ u. Apart u.0 zs) xs ((p, z) ∷ []) apart in
    let (a_us, a_zs) = All-split (λ c. a ≢ c.0) us zs out in
    let (a_xs, a_p) = All-split (λ c. a ≢ c.0) xs ((p, z) ∷ []) a_us in
    let both = λ (cs : Cells) (q : Ptr) (p_cs : Apart p cs) (a_cs : Apart a cs) (t : Seg h cs q).
      Seg-agree h1 h2 cs q (update-agree h1 a (some new) cs a_cs)
        (Seg-agree h h1 cs q (update-agree h p (some to_new) cs p_cs) t) in
    let at_p =
      load-update_ne h1 a p (some new) (λ e. a_p.0 (sym e))
      ∙ load-update_self h p (some to_new) (load-ne_zero h p _ s_p.0) in
    let at_a = load-update_self h1 a (some new) (load-ne_zero h a n at) in
    (
      record {
        head =
            v.head
            ∙ start-append us zs 0
            ∙ start-append xs ((p, z) ∷ []) (start zs 0)
            ∙ sym (start-append us ((a, x) ∷ zs) 0 ∙ start-append xs ((p, z) ∷ []) a);
        tail = linked_tail h us zs list.tail a x s_zs v.tail;
        len = omega (arith, v.len, length-insert us zs (a, x));
        seg =
            Seg-join h2 us ((a, x) ∷ zs) 0
              (Seg-join h2 xs ((p, z) ∷ []) a (both xs p p_xs a_xs s_xs) (at_p, tt))
              (at_a, both zs 0 p_zs.0 a_zs s_zs);
        distinct = Distinct-insert us zs (a, x) v.distinct out;
        allocated = All-insert (λ c. c.0 ≤ h.brk) us zs (a, x) v.allocated below;
      },
      Frame-update a (some new)
          (Frame-update p (some to_new) (Frame-self h ((a, x) ∷ us ++ zs))
            (λ q out. Apart-last q xs p z (All-split (λ c. q ≢ c.0) us zs out.1).0))
          (λ q out. out.0),
    )
