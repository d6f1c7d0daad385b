-- ===== src/ListQueue/Fifo.antt =====
-- The queue of ps3/queue.c gives out the numbers in the order in which they came.
use cse.Base.{
  suc, ◌+◌, ◌≡◌, ◌≢◌, refl, sym, ap, ◌∙◌, subst, inl, inr, none, some, Option, List, [], ◌∷◌, ◌++◌,
  append-nil, arith, ◌>>=◌, Gives, gives, Gives-bind, Gives-value,
}
use cse.Base.Int.{ℤ}
use cse.Base.Sorted.{All-mono}
use mathlib.Core.List.{reverse_aux}
use cse.LinkedList.{Ptr, Heap, pop_back_list}
use cse.LinkedList.Chain.{
  values-snoc, Cells, values, Apart, Disjoint, IsList, IsList-Frame, All-split, rsplit,
}
use cse.LinkedList.Ends.{push_back-append}
use cse.LinkedList.Back.{pop_back-append, pop-empty}
use cse.ListQueue.{Queue, en_queue, de_queue, Op, enqueue, dequeue, run}
use cse.ListQueue.Flip.{
  reverse_aux-snoc, reverse_aux-append, Disjoint-sym, Disjoint-snoc, is_empty-nil, is_empty-snoc,
  Flipped, flip_loop-Flipped,
}

-- A queue of numbers and no more: the last one in the list was put in last.
unfoldable pub run_fifo : List ℤ → List Op → Option (List ℤ)
run_fifo xs [] = some []
run_fifo xs (enqueue number ∷ ops) = run_fifo (xs ++ number ∷ []) ops
run_fifo [] (dequeue ∷ ops) = none
run_fifo (x ∷ xs) (dequeue ∷ ops) = do ys ← run_fifo xs ops; some (x ∷ ys)

-- The two stacks have no node in common, and hold `xs`: what is in the second, from its top on, and
-- then what is in the first, from its bottom on.
pub record IsQueue (h : Heap) (q : Queue) (xs : List ℤ) : Type 0 where
  pub cs : Cells
  pub ds : Cells
  pub one : IsList h q.one cs
  pub two : IsList h q.two ds
  pub apart : Disjoint cs ds
  pub content : reverse_aux (values ds) (values cs) ≡ xs

-- `enQueue` puts a number behind the others.
en_queue-append :
    {h : Heap} {q : Queue} {xs : List ℤ} (number : ℤ)
    → IsQueue h q xs
    → Gives (λ (h', q'). IsQueue h' q' (xs ++ number ∷ [])) (en_queue h q number)
unfolding en_queue
en_queue-append {h} {q} {xs} number v =
    Gives-bind (push_back-append number v.one) (λ (h', one) (pushed, frame). gives (record {
      cs = v.cs ++ (suc h.brk, number) ∷ [];
      ds = v.ds;
      one = pushed;
      two = IsList-Frame v.two frame (Disjoint-sym v.cs v.ds v.apart);
      apart =
          Disjoint-sym v.ds (v.cs ++ (suc h.brk, number) ∷ [])
            (Disjoint-snoc h v.ds v.cs number (Disjoint-sym v.cs v.ds v.apart) v.two.allocated);
      content =
          ap (reverse_aux (values v.ds)) (values-snoc v.cs (suc h.brk) number)
          ∙ reverse_aux-append (values v.ds) (values v.cs) (number ∷ [])
          ∙ ap (λ r. r ++ number ∷ []) v.content;
    }))

-- A pop of the second stack, when it is not empty.
pop_two :
    {h : Heap} {q : Queue} {x : ℤ} {xs : List ℤ} (cs ds : Cells) (t : Ptr) (y : ℤ)
    → IsList h q.one cs
    → IsList h q.two (ds ++ (t, y) ∷ [])
    → Disjoint cs (ds ++ (t, y) ∷ [])
    → reverse_aux (values (ds ++ (t, y) ∷ [])) (values cs) ≡ x ∷ xs
    → Gives
        (λ (r, h', q'). (r ≡ x) × IsQueue h' q' xs)
        (pop_back_list h q.two >>= λ (r, h', two). some (r, h', record q { two = two }))
pop_two {h} {q} {x} {xs} cs ds t y one two apart content =
    let (e, f) = cons_parts (
      sym (
        ap (λ vs. reverse_aux vs (values cs)) (values-snoc ds t y)
        ∙ reverse_aux-snoc (values ds) y (values cs))
      ∙ content) in
    Gives-bind (pop_back-append ds t y two) (λ (r, h', two') (same, (popped, frame)). gives (
      same ∙ e,
      record {
        cs = cs;
        ds = ds;
        one = IsList-Frame one frame apart;
        two = popped;
        apart =
            All-mono (λ c. Apart c.0 (ds ++ (t, y) ∷ [])) (λ c. Apart c.0 ds) cs
              (λ c p. (All-split (λ d. c.0 ≢ d.0) ds ((t, y) ∷ []) p).0) apart;
        content = f;
      },
    ))
  where
    cons_parts : {x y : ℤ} {xs ys : List ℤ} → (List.◌∷◌ x xs ≡ y ∷ ys) → (x ≡ y) × (xs ≡ ys)
    cons_parts e = (cc, cc)

nil_ne_cons : {x : ℤ} {xs : List ℤ} → [] ≡ x ∷ xs → ⊥
nil_ne_cons e = cc

-- `deQueue` takes the number that came first.
de_queue-cons :
    {h : Heap} {q : Queue} {x : ℤ} {xs : List ℤ}
    → IsQueue h q (x ∷ xs)
    → Gives (λ (r, h', q'). (r ≡ x) × IsQueue h' q' xs) (de_queue h q)
unfolding de_queue Flipped
de_queue-cons {h} {q} {x} {xs} v = elim (rsplit v.ds) [
  | inl e ↦
      let two = subst (IsList h q.two) e v.two in
      let content : values v.cs ++ [] ≡ x ∷ xs =
        append-nil (values v.cs)
        ∙ sym (ap (λ ds. reverse_aux (values ds) (values v.cs)) e)
        ∙ v.content in
      rw (is_empty-nil two) (
        Gives-bind
          (flip_loop-Flipped (q.one.len + 1) h q v.cs [] v.one two (subst (Disjoint v.cs) e v.apart)
            (omega (arith, v.one.len)))
          (λ (h', q') (ds, one, two, reversed). elim (rsplit ds) [
            | inl e ↦
                elim (nil_ne_cons
                  (sym (ap (λ ds. reverse_aux (values ds) []) e) ∙ reversed ∙ content)) [ ]
            | inr (ds', (t, y), e) ↦
                pop_two [] ds' t y one (subst (IsList h' q'.two) e two) tt
                  (sym (ap (λ ds. reverse_aux (values ds) []) e) ∙ reversed ∙ content)
          ]))
  | inr (ds', (t, y), e) ↦
      let two = subst (IsList h q.two) e v.two in
      rw (is_empty-snoc ds' (t, y) two) (
        pop_two v.cs ds' t y v.one two (subst (Disjoint v.cs) e v.apart)
          (sym (ap (λ ds. reverse_aux (values ds) (values v.cs)) e) ∙ v.content))
]

-- The list of a chain read backwards is empty only if the chain is.
reverse-nil : (ds : Cells) (ys : List ℤ) → reverse_aux (values ds) ys ≡ [] → ds ≡ []
reverse-nil ds ys content = elim (rsplit ds) [
  | inl e ↦ e
  | inr (ds', (t, y), e) ↦
      elim (nil_ne_cons (
        sym content
        ∙ ap (λ ds. reverse_aux (values ds) ys) e
        ∙ ap (λ vs. reverse_aux vs ys) (values-snoc ds' t y)
        ∙ reverse_aux-snoc (values ds') y ys)) [ ]
]

-- A pop of an empty queue stops at an `assert`.
de_queue-nil : {h : Heap} {q : Queue} → IsQueue h q [] → de_queue h q ≡ none
unfolding de_queue Flipped
de_queue-nil {h} {q} v =
    let e = reverse-nil v.ds (values v.cs) v.content in
    let two = subst (IsList h q.two) e v.two in
    let content : values v.cs ++ [] ≡ [] =
      append-nil (values v.cs)
      ∙ sym (ap (λ ds. reverse_aux (values ds) (values v.cs)) e)
      ∙ v.content in
    let flip =
      flip_loop-Flipped (q.one.len + 1) h q v.cs [] v.one two (subst (Disjoint v.cs) e v.apart)
        (omega (arith, v.one.len)) in
    let ((h', q'), flipped, (ds, one, two', reversed)) = Gives-value flip in
    let empty = subst (IsList h' q'.two) (reverse-nil ds [] (reversed ∙ content)) two' in
    rw (is_empty-nil two, flipped, (pop-empty empty).0) refl

-- What a client gets from the queue that holds `xs` is what it gets from a list of those numbers to
-- which each is added at the end and taken from the front, whatever it does: the same numbers, and
-- a stop at the same `deQueue`, the first one of an empty queue.
pub run-run_fifo :
    (ops : List Op) (h : Heap) (q : Queue) (xs : List ℤ)
    → IsQueue h q xs
    → run h q ops ≡ run_fifo xs ops
unfolding run run_fifo
run-run_fifo [] h q xs v = refl
run-run_fifo (enqueue number ∷ ops) h q xs v =
    let ((h', q'), e, v') = Gives-value (en_queue-append number v) in
    rw e (run-run_fifo ops h' q' (xs ++ number ∷ []) v')
run-run_fifo (dequeue ∷ ops) h q [] v = rw (de_queue-nil v) refl
run-run_fifo (dequeue ∷ ops) h q (x ∷ xs) v =
    let ((r, h', q'), e, (same, v')) = Gives-value (de_queue-cons v) in
    rw (e, same, run-run_fifo ops h' q' xs v') refl
