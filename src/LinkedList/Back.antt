-- ===== src/LinkedList/Back.antt =====
-- Popping at the end of the list of ps3/list.c.
use cse.Base.{
  ℕ, zero, suc, ◌+◌, ◌≡◌, ◌≢◌, refl, sym, ap, ◌∙◌, subst, inl, inr, none, some, Option, [], ◌∷◌,
  ◌++◌, length, length-append, arith, ==_self, Gives, gives,
}
use cse.Base.Int.{ℤ}
use cse.LinkedList.{
  Ptr, IlNode, Heap, IntList, load, pop_front_list, pop_back_list, il_penult, il_penult_loop,
}
use cse.LinkedList.Chain.{
  Cells, start, Seg, Apart, IsList, update, load-ne_zero, load-update_ne, load-update_self,
  store-some, free-some, start-append, last_of-snoc, Seg-join, Seg-split, Seg-agree, All-split,
  Distinct-split_snoc, rsplit,
}
use cse.LinkedList.Frames.{
  Becomes, update-agree, Frame-update, Frame-self, Last, snoc-Last, Apart-last, not_empty,
  test_false,
}

step_next :
    (h : Heap) (fuel : ℕ) (prev a : Ptr) (n : IlNode)
    → load h a ≡ some n
    → n.next ≢ 0
    → il_penult_loop h (suc fuel) prev a ≡ il_penult_loop h fuel a n.next
unfolding il_penult_loop
step_next h fuel prev zero n e ne = absurd (load-ne_zero h 0 n e refl)
step_next h fuel prev (suc a) n e ne = rw e (follow h fuel prev (suc a) n.next ne)
  where
    follow :
        (h : Heap) (fuel : ℕ) (prev a q : Ptr)
        → q ≢ 0
        → (elim q as (λ _. Option Ptr) [
          | zero ↦ some prev
          | suc q ↦ il_penult_loop h fuel a (suc q)
        ])
          ≡ il_penult_loop h fuel a q
    follow h fuel prev a zero ne = absurd (ne refl)
    follow h fuel prev a (suc q) ne = refl

step_end :
    (h : Heap) (fuel : ℕ) (prev a : Ptr) (x : ℤ)
    → load h a ≡ some (record { next = 0; number = x })
    → il_penult_loop h (suc fuel) prev a ≡ some prev
unfolding il_penult_loop
step_end h fuel prev zero x e = refl
step_end h fuel prev (suc a) x e = rw e refl

start-ne_zero :
    (h : Heap) (xs : Cells) (p q : Ptr) (y : ℤ) → Seg h (xs ++ (p, y) ∷ []) q → start xs p ≢ 0
start-ne_zero h [] p q y s = load-ne_zero h p _ s.0
start-ne_zero h ((a, x) ∷ xs) p q y s = load-ne_zero h a _ s.0

il_penult_loop-snoc :
    (h : Heap) (xs : Cells) (prev p t : Ptr) (y x : ℤ)
    → Seg h (xs ++ (p, y) ∷ []) t
    → load h t ≡ some (record { next = 0; number = x })
    → il_penult_loop h (length xs + 2) prev (start xs p) ≡ some p
il_penult_loop-snoc h [] prev p t y x s e =
    step_next h 1 prev p _ s.0 (load-ne_zero h t _ e) ∙ step_end h 0 p t x e
il_penult_loop-snoc h ((a, z) ∷ xs) prev p t y x s e =
    let here =
      s.0 ∙ ap (λ n. some (record { next = n; number = z })) (start-append xs ((p, y) ∷ []) t) in
    ap (λ n. il_penult_loop h n prev a) (more (length xs))
    ∙ step_next h (length xs + 2) prev a _ here (start-ne_zero h xs p t y s.1)
    ∙ il_penult_loop-snoc h xs a p t y x s.1 e
  where
    more : (n : ℕ) → suc n + 2 ≡ suc (n + 2)
    more n = omega arith

start-ne : (xs : Cells) (p t q : Ptr) (y : ℤ) → Apart t (xs ++ (p, y) ∷ []) → start xs p ≢ t
start-ne [] p t q y out = λ e. out.0 (sym e)
start-ne ((a, x) ∷ xs) p t q y out = λ e. out.0 (sym e)

abbrev pub PopsBack : Heap → Cells → Cells → ℤ → Option (ℤ × Heap × IntList) → Type 0
PopsBack h cs ds x o = Gives (λ (r, h', list). (r ≡ x) × Becomes h cs ds (h', list)) o

pop_back-single :
    {h : Heap} {list : IntList} (t : Ptr) (x : ℤ)
    → IsList h list ((t, x) ∷ [])
    → PopsBack h ((t, x) ∷ []) [] x (pop_back_list h list)
unfolding pop_back_list
pop_back-single {h} {list} t x v =
    rw
      (
        v.head,
        v.tail,
        v.len,
        not_empty t 0 (load-ne_zero h t _ v.seg.0),
        ==_self t,
        v.seg.0,
        free-some h t _ v.seg.0,
      )
      (gives (
        refl,
        (
          record { head = refl; tail = refl; len = refl; seg = tt; distinct = tt; allocated = tt },
          Frame-update t none (Frame-self h ((t, x) ∷ [])) (λ q out. out.0),
        ),
      ))

pop_back-snoc :
    {h : Heap} {list : IntList} (xs : Cells) (p t : Ptr) (y x : ℤ)
    → let ds = xs ++ (p, y) ∷ [] in
      IsList h list (ds ++ (t, x) ∷ []) → PopsBack h (ds ++ (t, x) ∷ []) ds x (pop_back_list h list)
unfolding pop_back_list Last il_penult
pop_back-snoc {h} {list} xs p t y x v =
    let ds = xs ++ (p, y) ∷ [] in
    let (tail, len, at, s, d, a, below, t_below) = snoc-Last ds t x v in
    let head : list.head ≡ start xs p =
      v.head ∙ start-append ds ((t, x) ∷ []) 0 ∙ start-append xs ((p, y) ∷ []) t in
    let (s', u) = Seg-split h xs ((p, y) ∷ []) t s in
    let (d', a') = Distinct-split_snoc xs (p, y) d in
    let (a_xs, a_p) = All-split (λ c. t ≢ c.0) xs ((p, y) ∷ []) a in
    let count : suc (length ds) ≡ length xs + 2 = omega (arith, length-append xs ((p, y) ∷ [])) in
    let found =
      ap (λ n. il_penult_loop h n 0 (start xs p)) count ∙ il_penult_loop-snoc h xs 0 p t y x s at in
    let cut : IlNode = record { next = 0; number = y } in
    let h1 = update h t none in
    let h2 = update h1 p (some cut) in
    let at_p : load h1 p ≡ some (record { next = t; number = y }) =
      load-update_ne h t p none (λ e. a_p.0 (sym e)) ∙ u.0 in
    let seg1 = Seg-agree h h1 xs p (update-agree h t none xs a_xs) s' in
    let seg2 = Seg-agree h1 h2 xs p (update-agree h1 p (some cut) xs a') seg1 in
    rw
      (
        head,
        tail,
        len,
        not_empty (start xs p) (length ds) (start-ne_zero h xs p t y s),
        test_false (start xs p) t (start-ne xs p t 0 y a),
        found,
        u.0,
        ==_self t,
        at,
        free-some h t _ at,
        at_p,
        store-some h1 p cut _ at_p,
      )
      (gives (
        refl,
        (
          record {
            head = sym (start-append xs ((p, y) ∷ []) 0);
            tail = sym (last_of-snoc xs p 0 y);
            len = omega arith;
            seg =
                Seg-join h2 xs ((p, y) ∷ []) 0 seg2
                  (load-update_self h1 p (some cut) (load-ne_zero h p _ u.0), tt);
            distinct = d;
            allocated = below;
          },
          Frame-update p (some cut)
              (Frame-update t none (Frame-self h (ds ++ (t, x) ∷ []))
                (λ q out. Apart-last q ds t x out))
              (λ q out. Apart-last q xs p y (All-split (λ c. q ≢ c.0) ds ((t, x) ∷ []) out).0),
        ),
      ))

-- `popBackList` takes the number of the last node.
pub pop_back-append :
    {h : Heap} {list : IntList} (cs : Cells) (t : Ptr) (x : ℤ)
    → IsList h list (cs ++ (t, x) ∷ [])
    → PopsBack h (cs ++ (t, x) ∷ []) cs x (pop_back_list h list)
pop_back-append {h} {list} cs t x v = elim (rsplit cs) [
  | inl e ↦
      subst
        (λ cs.
          IsList h list (cs ++ (t, x) ∷ [])
          → PopsBack h (cs ++ (t, x) ∷ []) cs x (pop_back_list h list))
        (sym e) (pop_back-single t x) v
  | inr (xs, (p, y), e) ↦
      subst
        (λ cs.
          IsList h list (cs ++ (t, x) ∷ [])
          → PopsBack h (cs ++ (t, x) ∷ []) cs x (pop_back_list h list))
        (sym e) (pop_back-snoc xs p t y x) v
]

-- An `assert` stops both pops of an empty list.
pub pop-empty :
    {h : Heap} {list : IntList}
    → IsList h list []
    → (pop_back_list h list ≡ none) × (pop_front_list h list ≡ none)
unfolding pop_back_list pop_front_list
pop-empty {h} {list} v = (rw (v.head) refl, rw (v.head) refl)
