-- ===== src/ListQueue/Flip.antt =====
-- The loop of deQueue in ps3/queue.c, which moves one stack onto the other.
use cse.Base.{
  ℕ, zero, suc, ◌+◌, ◌≤◌, ◌<◌, ◌≡◌, ◌≢◌, refl, sym, ap, ◌∙◌, subst, inl, inr, true, false, List, [],
  ◌∷◌, ◌++◌, append_assoc, length, length-append, All-append, arith, ◌==◌, Gives, gives, Gives-bind,
  Gives-mono,
}
use cse.Base.Int.{ℤ}
use cse.Base.Sorted.{All-mono, All-zip}
use mathlib.Core.List.{reverse_aux}
use cse.LinkedList.{Ptr, Heap, IntList}
use cse.LinkedList.Chain.{
  values-snoc, Cells, values, Apart, Disjoint, Allocated, IsList, IsList-Frame, All-split, rsplit,
}
use cse.LinkedList.Ends.{push_back-append}
use cse.LinkedList.Back.{pop_back-append}
use cse.ListQueue.{Queue, is_empty, flip_loop}

pub reverse_aux-snoc :
    (xs : List ℤ) (x : ℤ) (ys : List ℤ) → reverse_aux (xs ++ x ∷ []) ys ≡ x ∷ reverse_aux xs ys
reverse_aux-snoc [] x ys = refl
reverse_aux-snoc (a ∷ xs) x ys = reverse_aux-snoc xs x (a ∷ ys)

pub reverse_aux-append : (xs ys zs : List ℤ) → reverse_aux xs (ys ++ zs) ≡ reverse_aux xs ys ++ zs
reverse_aux-append [] ys zs = refl
reverse_aux-append (a ∷ xs) ys zs = reverse_aux-append xs (a ∷ ys) zs

pub Disjoint-sym : (cs ds : Cells) → Disjoint cs ds → Disjoint ds cs
Disjoint-sym cs [] d = tt
Disjoint-sym cs (e ∷ ds) d = (
  All-mono (λ c. Apart c.0 (e ∷ ds)) (λ c. e.0 ≢ c.0) cs (λ c p z. p.0 (sym z)) d,
  Disjoint-sym cs ds (All-mono (λ c. Apart c.0 (e ∷ ds)) (λ c. Apart c.0 ds) cs (λ c p. p.1) d),
)

-- A node that is new to the heap joins the second chain.
pub Disjoint-snoc :
    (h : Heap) (cs ds : Cells) (x : ℤ)
    → Disjoint cs ds
    → Allocated h cs
    → Disjoint cs (ds ++ (suc h.brk, x) ∷ [])
Disjoint-snoc h cs ds x d a =
    All-mono (λ c. Apart c.0 ds × (c.0 ≤ h.brk)) (λ c. Apart c.0 (ds ++ (suc h.brk, x) ∷ [])) cs
      (λ c p.
        All-append (λ e. c.0 ≢ e.0) ds ((suc h.brk, x) ∷ []) p.0 ((λ e. omega (arith, p.1)), tt))
      (All-zip (λ c. Apart c.0 ds) (λ c. c.0 ≤ h.brk) cs d a)

pub is_empty-nil : {h : Heap} {list : IntList} → IsList h list [] → is_empty list ≡ true
unfolding is_empty
is_empty-nil v = rw (v.len) refl

pub is_empty-snoc :
    {h : Heap} {list : IntList} (cs : Cells) (c : Ptr × ℤ)
    → IsList h list (cs ++ c ∷ [])
    → is_empty list ≡ false
unfolding is_empty
is_empty-snoc {h} {list} cs c v = rw (v.len, length-append cs (c ∷ [])) (more (length cs))
  where
    more : (n : ℕ) → (n + 1 == 0) ≡ false
    more n = ground arith

-- The first stack is empty, and the second one holds `xs` from its top on.
unfoldable pub Flipped : List ℤ → Heap × Queue → Type 0
Flipped xs (h, q) =
    (ds : Cells) × IsList h q.one [] × IsList h q.two ds × (reverse_aux (values ds) [] ≡ xs)

pub flip_loop-Flipped :
    (fuel : ℕ) (h : Heap) (q : Queue) (cs ds : Cells)
    → IsList h q.one cs
    → IsList h q.two ds
    → Disjoint cs ds
    → length cs < fuel
    → Gives (Flipped (values cs ++ reverse_aux (values ds) [])) (flip_loop h fuel q)
unfolding flip_loop Flipped
flip_loop-Flipped zero h q cs ds one two apart enough = elim enough [ ]
flip_loop-Flipped (suc fuel) h q cs ds one two apart enough = elim (rsplit cs) [
  | inl e ↦
      let one' = subst (IsList h q.one) e one in
      rw (is_empty-nil one', e) (gives (ds, one', two, refl))
  | inr (cs', (t, x), e) ↦
      let one' = subst (IsList h q.one) e one in
      let apart' = subst (λ cs. Disjoint cs ds) e apart in
      let (apart_cs, _) = All-split (λ c. Apart c.0 ds) cs' ((t, x) ∷ []) apart' in
      let size = ap length e ∙ length-append cs' ((t, x) ∷ []) in
      rw (is_empty-snoc cs' (t, x) one') (
        Gives-bind (pop_back-append cs' t x one') (λ (r, h1, one1) (same, (popped, frame)).
          Gives-bind
            (push_back-append r
              (IsList-Frame two frame (Disjoint-sym (cs' ++ (t, x) ∷ []) ds apart')))
            (λ (h2, two2) (pushed, frame2).
              Gives-mono
                (flip_loop-Flipped fuel h2 (record { one = one1; two = two2 }) cs'
                  (ds ++ (suc h1.brk, r) ∷ []) (IsList-Frame popped frame2 apart_cs) pushed
                  (Disjoint-snoc h1 cs' ds r apart_cs popped.allocated) (omega (arith, size)))
                (λ s p.
                  subst (λ xs. Flipped xs s)
                    (moved cs' ds t (suc h1.brk) x r same
                      ∙ ap (λ cs. values cs ++ reverse_aux (values ds) []) (sym e))
                    p))))
]
  where
    moved :
        (cs ds : Cells) (t a : Ptr) (x r : ℤ)
        → r ≡ x
        → values cs ++ reverse_aux (values (ds ++ (a, r) ∷ [])) []
          ≡ values (cs ++ (t, x) ∷ []) ++ reverse_aux (values ds) []
    moved cs ds t a x r same =
        rw (same, values-snoc ds a x, reverse_aux-snoc (values ds) x [], values-snoc cs t x)
          (sym (append_assoc (values cs) (x ∷ []) (reverse_aux (values ds) [])))
