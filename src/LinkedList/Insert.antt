-- ===== src/LinkedList/Insert.antt =====
-- sortedInsert of ps3/list.c.
use cse.Base.{
  suc, ◌≤◌, ◌≡◌, ◌≢◌, refl, sym, ◌∙◌, subst, inl, inr, true, false, some, [], ◌∷◌, ◌++◌, length,
  arith, Gives, gives, Gives-value, Bool-cases,
}
use cse.Base.Int.{ℤ, leb_ℤ}
use cse.LinkedList.{Ptr, IlNode, Heap, IntList, load, sorted_insert}
use cse.LinkedList.Chain.{
  Cells, start, Seg, Apart, IsList, Frame, update, load-ne_zero, load-update_ne, load-update_self,
  store-some, Seg-split, Seg-agree, All-split,
}
use cse.LinkedList.Frames.{Becomes, update-agree, Frame-update, Frame-self, test_false, Apart-last}
use cse.LinkedList.Place.{insert_cell, Stops, insert_cell-front, insert_point-Stops, link}

module _ (h : Heap) (list : IntList) (a q : Ptr) (x : ℤ) (below : a ≤ h.brk)
    (at : load h a ≡ some (record { next = q; number = x })) where
  insert-nil :
      IsList h list [] → Gives (Becomes h ((a, x) ∷ []) ((a, x) ∷ [])) (sorted_insert h list a)
  unfolding sorted_insert
  insert-nil v =
      let alone : IlNode = record { next = 0; number = x } in
      rw (v.head, at, store-some h a alone _ at)
        (gives (
          record {
            head = refl;
            tail = refl;
            len = refl;
            seg = (load-update_self h a (some alone) (load-ne_zero h a _ at), tt);
            distinct = (tt, tt);
            allocated = (below, tt);
          },
          Frame-update a (some alone) (Frame-self h ((a, x) ∷ [])) (λ q out. out.0),
        ))

  insert-front :
      (b : Ptr) (y : ℤ) (cs : Cells)
      → IsList h list ((b, y) ∷ cs)
      → Apart a ((b, y) ∷ cs)
      → leb_ℤ x y ≡ true
      → Gives (Becomes h ((a, x) ∷ (b, y) ∷ cs) ((a, x) ∷ (b, y) ∷ cs)) (sorted_insert h list a)
  unfolding sorted_insert
  insert-front b y cs v out e =
      let first : IlNode = record { next = b; number = x } in
      let ds = (b, y) ∷ cs in
      rw
        (
          v.head,
          test_false b 0 (load-ne_zero h b _ v.seg.0),
          at,
          v.seg.0,
          e,
          store-some h a first _ at,
        )
        (gives (
          record {
            head = refl;
            tail = v.tail;
            len = omega (arith, v.len);
            seg = (
              load-update_self h a (some first) (load-ne_zero h a _ at),
              Seg-agree h (update h a (some first)) ds 0 (update-agree h a (some first) ds out)
                  v.seg,
            );
            distinct = (out, v.distinct);
            allocated = (below, v.allocated);
          },
          Frame-update a (some first) (Frame-self h ((a, x) ∷ ds)) (λ q out. out.0),
        ))

  insert-behind :
      (b : Ptr) (y : ℤ) (cs : Cells)
      → IsList h list ((b, y) ∷ cs)
      → Apart a ((b, y) ∷ cs)
      → leb_ℤ x y ≡ false
      → Gives
          (Becomes h ((a, x) ∷ (b, y) ∷ cs) (insert_cell a x ((b, y) ∷ cs)))
          (sorted_insert h list a)
  unfolding sorted_insert Stops
  insert-behind b y cs v out e =
      let found = insert_point-Stops h (suc (length cs)) a x b y cs v.seg e (omega arith) in
      let (p, point, (xs, zs, z, whole, inserted)) = Gives-value found in
      let us = xs ++ (p, z) ∷ [] in
      let out' = subst (Apart a) whole out in
      let (s, _) = Seg-split h us zs 0 (subst (λ cs. Seg h cs 0) whole v.seg) in
      let (_, s_p) = Seg-split h xs ((p, z) ∷ []) (start zs 0) s in
      let a_us = (All-split (λ c. a ≢ c.0) us zs out').0 in
      let to_new : IlNode = record { next = a; number = z } in
      let new : IlNode = record { next = start zs 0; number = x } in
      let h1 = update h p (some to_new) in
      let at1 = load-update_ne h p a (some to_new) (Apart-last a xs p z a_us) ∙ at in
      let h2 = update h1 a (some new) in
      let list' : IntList = record { head = b; tail = list.tail; len = suc (length cs) } in
      let v' : IsList h list' ((b, y) ∷ cs) = record {
        head = refl;
        tail = v.tail;
        len = refl;
        seg = v.seg;
        distinct = v.distinct;
        allocated = v.allocated;
      } in
      let (linked, frame) =
        link h list' xs zs p a z x _ (subst (IsList h list') whole v') out' below at in
      rw
        (
          v.head,
          test_false b 0 (load-ne_zero h b _ v.seg.0),
          at,
          v.seg.0,
          e,
          v.len,
          point,
          s_p.0,
          store-some h p to_new _ s_p.0,
          at1,
          store-some h1 a new _ at1,
        )
        (gives (
          subst (IsList h2 _) (sym inserted) linked,
          subst (λ cs. Frame h h2 ((a, x) ∷ cs)) (sym whole) frame,
        ))

-- `sortedInsert` puts a node of its own in its place.
pub sorted_insert-insert_cell :
    (h : Heap) (list : IntList) (a q : Ptr) (x : ℤ) (cs : Cells)
    → a ≤ h.brk
    → load h a ≡ some (record { next = q; number = x })
    → IsList h list cs
    → Apart a cs
    → Gives (Becomes h ((a, x) ∷ cs) (insert_cell a x cs)) (sorted_insert h list a)
unfolding insert_cell
sorted_insert-insert_cell h list a q x [] below at v out = insert-nil h list a q x below at v
sorted_insert-insert_cell h list a q x ((b, y) ∷ cs) below at v out =
    elim (Bool-cases (leb_ℤ x y)) [
      | inl e ↦
          subst (λ ds. Gives (Becomes h ((a, x) ∷ (b, y) ∷ cs) ds) (sorted_insert h list a))
            (sym (insert_cell-front a x b y cs e))
            (insert-front h list a q x below at b y cs v out e)
      | inr e ↦ insert-behind h list a q x below at b y cs v out e
    ]
