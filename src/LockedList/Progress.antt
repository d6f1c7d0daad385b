-- ===== src/LockedList/Progress.antt =====
-- The insertions into the list of lab10/dllist.c do not wait for each other in a circle.
use cse.Base.{
  ℕ, zero, suc, ◌≡◌, ◌≢◌, refl, sym, ap, ◌∙◌, subst, inl, inr, true, false, Option, none, some,
  List, [], ◌∷◌, get_elem?, Bool-cases, none_ne_some, Gives-value, ◌>>=◌,
}
use cse.Base.Int.{ℤ, leb_ℤ}
use mathlib.Core.Option.{some-injective}
use cse.LockedList.{
  Ptr, DlNode, DlList, Phase, entering, looking, returned, Inserter, holds, is_free, insert_before,
  look, advance, System, run, start,
}
use cse.LockedList.Links.{Entry, Seg, link}
use cse.LockedList.Insert.{Seg-some}
use cse.LockedList.Places.{Placed, Placed-Between}
use cse.LockedList.Threads.{is_returned, advance-Outcome, eq_of_same_ptr}
use cse.LockedList.Runs.{run-Inv, start-Inv}
use cse.LockedList.Together.{same_ptr_self, Inv, free-holds, true_ne_false}

-- Some thread can go on to another phase.
pub record Progress (s : System) : Type 0 where
  pub i : ℕ
  pub t : Inserter
  pub here : get_elem? s.threads i ≡ some t
  pub phase : Phase
  pub list : DlList
  pub moves : advance s.threads s.list t.val t.phase ≡ some (phase, list)
  pub other : phase ≢ t.phase

nil_ne_cons : {e : Entry} {ys : List Entry} → [] ≡ e ∷ ys → ⊥
nil_ne_cons h = cc

holder :
    (p : Ptr) (ts : List Inserter)
    → is_free p ts ≡ false
    → (k : ℕ) × (b : Inserter) × (get_elem? ts k ≡ some b) × (holds p b.phase ≡ true)
unfolding is_free
holder p [] h = absurd (true_ne_false refl h)
holder p (t ∷ ts) h = elim (Bool-cases (holds p t.phase)) [
  | inl e ↦ (zero, t, refl, e)
  | inr e ↦ let (k, b, at_k, g) = holder p ts (rw e at h) in (suc k, b, at_k, g)
]

holds-looking :
    (p : Ptr) (phase : Phase) → holds p phase ≡ true → (cur : Ptr) × (phase ≡ looking p cur)
unfolding holds
holds-looking p entering h = cc
holds-looking p (looking q cur) h = (cur, ap (λ r. looking r cur) (sym (eq_of_same_ptr p q h)))
holds-looking p returned h = cc

returned-bind :
    (o : Option DlList) {r : Phase × DlList}
    → (o >>= λ l. some (returned, l)) ≡ some r
    → r.0 ≡ returned
returned-bind none e = none_ne_some e
returned-bind (some l) e = ap (λ r. r.0) (sym (some-injective _ _ e))

looking-returned : (at cur : Ptr) → returned ≢ looking at cur
looking-returned at cur e = cc

looking-entering : (at cur : Ptr) → looking at cur ≢ entering
looking-entering at cur e = cc

holds_self : (p cur : Ptr) → holds p (looking p cur) ≡ true
unfolding holds
holds_self p cur = same_ptr_self p

module _ (others : List Inserter) (l : DlList) (v : ℤ) (at : Ptr) (c : ℕ) (n : DlNode)
    (here : get_elem? l.nodes c ≡ some n) where
  look_on :
      leb_ℤ n.value v ≡ true
      → is_free (some c) others ≡ true
      → look others l v at (some c) ≡ some (looking (some c) n.next, l)
  unfolding look
  look_on le free = rw (here, le, free) refl

  look_at_place :
      leb_ℤ n.value v ≡ false
      → look others l v at (some c) ≡ (insert_before l (some c) v >>= λ l. some (returned, l))
  unfolding look
  look_at_place gt = rw (here, gt) refl

enters :
    (others : List Inserter) (l : DlList) (v : ℤ)
    → is_free none others ≡ true
    → advance others l v entering ≡ some (looking none l.head, l)
unfolding advance
enters others l v free = rw free refl

module _ (s : System) (v : Inv s) where
  inserts :
      (k : ℕ) (t : Inserter) (at cur : Ptr)
      → get_elem? s.threads k ≡ some t
      → t.phase ≡ looking at cur
      → look s.threads s.list t.val at cur
        ≡ (insert_before s.list cur t.val >>= λ l. some (returned, l))
      → Progress s
  unfolding advance
  inserts k t at cur at_k ph e =
      let placed = subst (Placed s.list v.zs t.val) ph (v.placed k t at_k) in
      let (r, gone, _) =
        Gives-value
          (advance-Outcome s.threads s.list v.zs t.val v.linked (looking at cur) placed) in
      let done = returned-bind (insert_before s.list cur t.val) (sym e ∙ gone) in
      record {
        i = k;
        t = t;
        here = at_k;
        phase = r.0;
        list = r.1;
        moves = ap (advance s.threads s.list t.val) ph ∙ gone;
        other = λ f. looking-returned at cur (sym done ∙ f ∙ ph);
      }

  -- The thread that is furthest in the list can go on.
  from_looking :
      {q : Ptr} (ys : List Entry) (k : ℕ) (t : Inserter) (at cur : Ptr)
      → get_elem? s.threads k ≡ some t
      → t.phase ≡ looking at cur
      → Seg s.list.nodes at cur ys q none
      → Progress s
  unfolding look advance
  from_looking ys k t at none at_k ph g = inserts k t at none at_k ph refl
  from_looking [] k t at (some c) at_k ph g =
      let (w, c', ys', e, here, rest) = Seg-some g in absurd (nil_ne_cons e)
  from_looking (y ∷ ys) k t at (some c) at_k ph (link {v = w} {c' = c'} here g) =
      elim (Bool-cases (leb_ℤ w t.val)) [
        | inl le ↦ elim (Bool-cases (is_free (some c) s.threads)) [
          | inl free ↦ record {
            i = k;
            t = t;
            here = at_k;
            phase = looking (some c) c';
            list = s.list;
            moves =
                ap (advance s.threads s.list t.val) ph
                ∙ look_on s.threads s.list t.val at c _ here le free;
            other = λ f.
                free-holds (some c) s.threads k t free at_k
                  (ap (holds (some c)) (sym f) ∙ holds_self (some c) c');
          }
          | inr busy ↦
              let (j, b, at_j, has) = holder (some c) s.threads busy in
              let (cur, there) = holds-looking (some c) b.phase has in
              let (u, n, m, below, at_c, next) =
                subst (Placed s.list v.zs b.val) there (v.placed j b at_j) in
              let same : cur ≡ c' =
                sym next ∙ ap (λ n. n.next) (some-injective _ _ (sym at_c ∙ here)) in
              from_looking ys j b (some c) c' at_j (there ∙ ap (looking (some c)) same) g
        ]
        | inr gt ↦
            inserts k t at (some c) at_k ph (look_at_place s.threads s.list t.val at c _ here gt)
      ]

progress_at :
    (s : System) (v : Inv s) (i : ℕ) (t : Inserter)
    → get_elem? s.threads i ≡ some t
    → is_returned t.phase ≡ false
    → Progress s
progress_at s v i t at_i h = go t.phase refl
  where
    go : (phase : Phase) → t.phase ≡ phase → Progress s
    go entering ph = elim (Bool-cases (is_free none s.threads)) [
      | inl free ↦ record {
        i = i;
        t = t;
        here = at_i;
        phase = looking none s.list.head;
        list = s.list;
        moves = ap (advance s.threads s.list t.val) ph ∙ enters s.threads s.list t.val free;
        other = λ f. looking-entering none s.list.head (f ∙ ph);
      }
      | inr busy ↦
          let (j, b, at_j, has) = holder none s.threads busy in
          let (cur, there) = holds-looking none b.phase has in
          let at_head : s.list.head ≡ cur =
            subst (Placed s.list v.zs b.val) there (v.placed j b at_j) in
          from_looking s v v.zs j b none s.list.head at_j (there ∙ ap (looking none) (sym at_head))
            v.linked.seg
    ]
    go (looking at cur) ph =
        let placed = subst (Placed s.list v.zs t.val) ph (v.placed i t at_i) in
        let b = Placed-Between s.list v.zs t.val at cur v.linked placed in
        from_looking s v b.ys i t at cur at_i ph b.behind
    go returned ph = absurd (true_ne_false (ap is_returned ph) h)

-- Threads that insert any values into the empty list, after any moves: as long as one of them has not
-- returned, there is a thread whose next move takes it on, so that they never wait in a circle.
pub run-progress :
    (vals : List ℤ) (is : List ℕ) (s : System) (i : ℕ) (t : Inserter)
    → run (start vals) is ≡ some s
    → get_elem? s.threads i ≡ some t
    → is_returned t.phase ≡ false
    → Progress s
run-progress vals is s i t r at_i h =
    let (s', e, v) = Gives-value (run-Inv is (start vals) (start-Inv vals)) in
    progress_at s (subst Inv (some-injective _ _ (sym e ∙ r)) v) i t at_i h
