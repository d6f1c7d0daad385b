-- ===== src/LinkedList/Ends.antt =====
-- Pushing and popping at the ends of the list of ps3/list.c.
use cse.Base.{
  suc, ◌≤◌, ◌≡◌, refl, sym, ap, ◌∙◌, subst, inl, inr, none, some, [], ◌∷◌, ◌++◌, length,
  length-append, All-append, arith, ◌==◌, if◌then◌else◌, Gives, gives,
}
use cse.Base.Int.{ℤ, pos}
use cse.LinkedList.{
  Ptr, IlNode, Heap, IntList, load, alloc, push_front_list, pop_front_list, push_back_list,
}
use cse.LinkedList.Chain.{
  Cells, start, last_of, Seg, IsList, update, load-ne_zero, load-update_ne, load-update_self,
  load-alloc_old, load-alloc_new, store-some, free-some, start-append, last_of-snoc, Seg-join,
  Seg-agree, Distinct-snoc, rsplit, Apart-new,
}
use cse.LinkedList.Frames.{
  Becomes, update-agree, alloc-agree, Allocated-mono, Frame-update, Frame-update_new, Frame-alloc,
  Frame-self, last_of-ne_zero, test_false, not_empty, Last, snoc-Last, Apart-last,
}

pushed_tail :
    (h : Heap) (list : IntList) (cs : Cells) (new : Ptr)
    → IsList h list cs
    → (if list.tail == 0 then new else list.tail) ≡ last_of cs new
pushed_tail h list [] new v = rw (v.tail) refl
pushed_tail h list (c ∷ cs) new v =
    rw (v.tail, test_false (last_of cs c.0) 0 (last_of-ne_zero h cs c 0 v.seg)) refl

-- `pushFrontList` puts the number before those of the list.
pub push_front-cons :
    {h : Heap} {list : IntList} {cs : Cells} (num : ℤ)
    → IsList h list cs
    → Becomes h cs ((suc h.brk, num) ∷ cs) (push_front_list h list num)
unfolding push_front_list alloc
push_front-cons {h} {list} {cs} num v =
    let node : IlNode = record { next = list.head; number = num } in
    (
      record {
        head = refl;
        tail = pushed_tail h list cs (suc h.brk) v;
        len = omega (arith, v.len);
        seg = (
          load-alloc_new h node ∙ ap (λ n. some (record { next = n; number = num })) v.head,
          Seg-agree h (alloc h node) cs 0 (alloc-agree h node cs v.allocated) v.seg,
        );
        distinct = (Apart-new h cs v.allocated, v.distinct);
        allocated = (omega arith, Allocated-mono h (alloc h node) cs (omega arith) v.allocated);
      },
      Frame-alloc h node cs,
    )

popped_tail :
    (h : Heap) (cs : Cells) (c : Ptr × ℤ)
    → Seg h (c ∷ cs) 0
    → (if start cs 0 == 0 then start cs 0 else last_of cs c.0) ≡ last_of cs 0
popped_tail h [] c s = refl
popped_tail h (d ∷ cs) c s = rw (test_false d.0 0 (load-ne_zero h d.0 _ s.1.0)) refl

pub pop_front-cons :
    {h : Heap} {list : IntList} {cs : Cells} {a : Ptr} {x : ℤ}
    → IsList h list ((a, x) ∷ cs)
    → Gives
        (λ (r, h', list'). (r ≡ x) × Becomes h ((a, x) ∷ cs) cs (h', list'))
        (pop_front_list h list)
unfolding pop_front_list
pop_front-cons {h} {list} {cs} {a} {x} v =
    let node : IlNode = record { next = start cs 0; number = x } in
    let h' = update h a none in
    rw
      (
        v.head,
        v.len,
        not_empty a (length cs) (load-ne_zero h a node v.seg.0),
        v.seg.0,
        free-some h a node v.seg.0,
      )
      (gives (
        refl,
        (
          record {
            head = refl;
            tail =
                ap (λ t. if start cs 0 == 0 then start cs 0 else t) v.tail
                ∙ popped_tail h cs (a, x) v.seg;
            len = omega arith;
            seg = Seg-agree h h' cs 0 (update-agree h a none cs v.distinct.0) v.seg.1;
            distinct = v.distinct.1;
            allocated = v.allocated.1;
          },
          Frame-update a none (Frame-self h ((a, x) ∷ cs)) (λ q out. out.0),
        ),
      ))

push_back-nil :
    {h : Heap} {list : IntList} (num : ℤ)
    → IsList h list []
    → Gives (Becomes h [] ((suc h.brk, num) ∷ [])) (push_back_list h list num)
unfolding push_back_list alloc
push_back-nil {h} {list} num v =
    let empty : IlNode = record { next = 0; number = pos 0 } in
    let new : IlNode = record { next = 0; number = num } in
    let h1 = alloc h empty in
    rw (v.tail, v.head, v.len, store-some h1 (suc h.brk) new empty (load-alloc_new h empty))
      (gives (
        record {
          head = refl;
          tail = refl;
          len = refl;
          seg = (load-update_self h1 (suc h.brk) (some new) (λ e. omega arith), tt);
          distinct = (tt, tt);
          allocated = (omega arith, tt);
        },
        Frame-update_new (suc h.brk) (some new) (Frame-alloc h empty []) (omega arith),
      ))

push_back-snoc :
    {h : Heap} {list : IntList} (xs : Cells) (t : Ptr) (x num : ℤ)
    → let cs = xs ++ (t, x) ∷ [] in
      IsList h list cs
      → Gives (Becomes h cs (cs ++ (suc h.brk, num) ∷ [])) (push_back_list h list num)
unfolding push_back_list alloc Last
push_back-snoc {h} {list} xs t x num v =
    let (tail, len, at, s, d, a, below, t_below) = snoc-Last xs t x v in
    let cs = xs ++ (t, x) ∷ [] in
    let empty : IlNode = record { next = 0; number = pos 0 } in
    let new : IlNode = record { next = 0; number = num } in
    let linked : IlNode = record { next = suc h.brk; number = x } in
    let h1 = alloc h empty in
    let h2 = update h1 t (some linked) in
    let h3 = update h2 (suc h.brk) (some new) in
    let at1 : load h1 t ≡ some (record { next = 0; number = x }) =
      load-alloc_old h t empty t_below ∙ at in
    let fresh =
      load-update_ne h1 t (suc h.brk) (some linked) (λ e. omega arith) ∙ load-alloc_new h empty in
    let at3 =
      load-update_ne h2 (suc h.brk) t (some new) (λ e. omega arith)
      ∙ load-update_self h1 t (some linked) (load-ne_zero h t _ at) in
    let seg1 = Seg-agree h h1 xs t (alloc-agree h empty xs below) s in
    let seg2 = Seg-agree h1 h2 xs t (update-agree h1 t (some linked) xs a) seg1 in
    let seg3 =
      Seg-agree h2 h3 xs t (update-agree h2 (suc h.brk) (some new) xs (Apart-new h xs below))
        seg2 in
    rw
      (
        tail,
        test_false t 0 (load-ne_zero h t _ at),
        at,
        store-some h1 t linked _ at1,
        fresh,
        store-some h2 (suc h.brk) new empty fresh,
      )
      (gives (
        record {
          head =
              v.head
              ∙ start-append xs ((t, x) ∷ []) 0
              ∙ sym (
                  start-append cs ((suc h.brk, num) ∷ []) 0
                  ∙ start-append xs ((t, x) ∷ []) (suc h.brk));
          tail = sym (last_of-snoc cs (suc h.brk) 0 num);
          len = omega (arith, v.len, length-append cs ((suc h.brk, num) ∷ []));
          seg =
              Seg-join h3 cs ((suc h.brk, num) ∷ []) 0
                (Seg-join h3 xs ((t, x) ∷ []) (suc h.brk) seg3 (at3, tt))
                (load-update_self h2 (suc h.brk) (some new) (λ e. omega arith), tt);
          distinct = Distinct-snoc cs (suc h.brk, num) v.distinct (Apart-new h cs v.allocated);
          allocated =
              All-append (λ c. c.0 ≤ suc h.brk) cs _
                (Allocated-mono h h1 cs (omega arith) v.allocated) (omega arith, tt);
        },
        Frame-update_new (suc h.brk) (some new)
            (Frame-update t (some linked) (Frame-alloc h empty cs)
              (λ q out. Apart-last q xs t x out))
            (omega arith),
      ))

-- `pushBackList` puts the number behind those of the list.
pub push_back-append :
    {h : Heap} {list : IntList} {cs : Cells} (num : ℤ)
    → IsList h list cs
    → Gives (Becomes h cs (cs ++ (suc h.brk, num) ∷ [])) (push_back_list h list num)
push_back-append {h} {list} {cs} num v = elim (rsplit cs) [
  | inl e ↦
      subst
        (λ cs.
          IsList h list cs
          → Gives (Becomes h cs (cs ++ (suc h.brk, num) ∷ [])) (push_back_list h list num))
        (sym e) (push_back-nil num) v
  | inr (xs, (t, x), e) ↦
      subst
        (λ cs.
          IsList h list cs
          → Gives (Becomes h cs (cs ++ (suc h.brk, num) ∷ [])) (push_back_list h list num))
        (sym e) (push_back-snoc xs t x num) v
]
