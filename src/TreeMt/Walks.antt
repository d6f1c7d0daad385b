-- ===== src/TreeMt/Walks.antt =====
-- The walk of a thread in the tree of ps8/treeMT.c, and the insertions of the others.
use cse.Base.{◌≡◌, ◌≢◌, refl, sym, ap, ◌∙◌, subst, inl, inr, true, false, [], ◌∷◌, ◌++◌, Bool-cases}
use cse.Base.Int.{ℤ, ltb_ℤ}
use cse.TreeMt.{TNode, null, node, make_node, insert_below}
use cse.TreeMt.Threads.{Dir, go_left, go_right, Way, subtree, graft, guard}

-- The search for `v` goes along `p`.
abbrev pub OnWay : ℤ → TNode → Way → Type 0
OnWay v t [] = Unit
OnWay v null (d ∷ p) = ⊥
OnWay v (node l x r) (go_left ∷ p) = (ltb_ℤ x v ≡ false) × (ltb_ℤ v x ≡ true) × OnWay v l p
OnWay v (node l x r) (go_right ∷ p) = (ltb_ℤ x v ≡ true) × OnWay v r p

pub graft-insert :
    (v : ℤ) (t : TNode) (q : Way)
    → OnWay v t q
    → subtree t q ≡ null
    → graft t q (make_node v) ≡ insert_below t v
unfolding subtree graft insert_below
graft-insert v t [] w e = sym (ap (λ u. insert_below u v) e)
graft-insert v null (d ∷ q) w e = elim w [ ]
graft-insert v (node l x r) (go_left ∷ q) w e =
    rw (w.0, w.1) (ap (λ u. node u x r) (graft-insert v l q w.2 e))
graft-insert v (node l x r) (go_right ∷ q) w e =
    rw (w.0) (ap (λ u. node l x u) (graft-insert v r q w.1 e))

pub insert-present :
    (v : ℤ) (t : TNode) (p : Way) (l : TNode) (x : ℤ) (r : TNode)
    → OnWay v t p
    → subtree t p ≡ node l x r
    → ltb_ℤ x v ≡ false
    → ltb_ℤ v x ≡ false
    → insert_below t v ≡ t
unfolding subtree insert_below
insert-present v t [] l x r w e f g = ap (λ u. insert_below u v) e ∙ rw (f, g) (sym e)
insert-present v null (d ∷ p) l x r w e f g = elim w [ ]
insert-present v (node l' y r') (go_left ∷ p) l x r w e f g =
    rw (w.0, w.1) (ap (λ u. node u y r') (insert-present v l' p l x r w.2 e f g))
insert-present v (node l' y r') (go_right ∷ p) l x r w e f g =
    rw (w.0) (ap (λ u. node l' y u) (insert-present v r' p l x r w.1 e f g))

-- An insertion leaves the walks of the others.
pub insert-OnWay : (v w : ℤ) (t : TNode) (p : Way) → OnWay v t p → OnWay v (insert_below t w) p
unfolding insert_below
insert-OnWay v w t [] h = tt
insert-OnWay v w null (d ∷ p) h = elim h [ ]
insert-OnWay v w (node l x r) (go_left ∷ p) h = elim (Bool-cases (ltb_ℤ x w)) [
  | inl e ↦ rw e h
  | inr e ↦ elim (Bool-cases (ltb_ℤ w x)) [
    | inl f ↦ rw (e, f) (h.0, h.1, insert-OnWay v w l p h.2)
    | inr f ↦ rw (e, f) h
  ]
]
insert-OnWay v w (node l x r) (go_right ∷ p) h = elim (Bool-cases (ltb_ℤ x w)) [
  | inl e ↦ rw e (h.0, insert-OnWay v w r p h.1)
  | inr e ↦ elim (Bool-cases (ltb_ℤ w x)) [ inl f ↦ rw (e, f) h | inr f ↦ rw (e, f) h ]
]

-- A write to one link leaves another one NULL.
pub graft-null :
    (v w : ℤ) (t n : TNode) (q p : Way)
    → OnWay v t q
    → OnWay w t p
    → subtree t q ≡ null
    → subtree t p ≡ null
    → q ≢ p
    → subtree (graft t q n) p ≡ null
unfolding subtree graft
graft-null v w t n [] [] h k e f ne = absurd (ne refl)
graft-null v w null n [] (d ∷ p) h k e f ne = elim k [ ]
graft-null v w (node l x r) n [] (d ∷ p) h k e f ne = absurd (node_ne_null e)
  where
    node_ne_null : {l r : TNode} {x : ℤ} → node l x r ≡ null → ⊥
    node_ne_null e = cc
graft-null v w null n (d ∷ q) p h k e f ne = elim h [ ]
graft-null v w (node l x r) n (d ∷ q) [] h k e f ne = absurd (node_ne_null f)
  where
    node_ne_null : {l r : TNode} {x : ℤ} → node l x r ≡ null → ⊥
    node_ne_null e = cc
graft-null v w (node l x r) n (go_left ∷ q) (go_left ∷ p) h k e f ne =
    graft-null v w l n q p h.2 k.2 e f (λ z. ne (ap (λ s. go_left ∷ s) z))
graft-null v w (node l x r) n (go_left ∷ q) (go_right ∷ p) h k e f ne = f
graft-null v w (node l x r) n (go_right ∷ q) (go_left ∷ p) h k e f ne = f
graft-null v w (node l x r) n (go_right ∷ q) (go_right ∷ p) h k e f ne =
    graft-null v w r n q p h.1 k.1 e f (λ z. ne (ap (λ s. go_right ∷ s) z))

-- One step further.
pub OnWay-right :
    (v : ℤ) (t : TNode) (p : Way) (l : TNode) (x : ℤ) (r : TNode)
    → OnWay v t p
    → subtree t p ≡ node l x r
    → ltb_ℤ x v ≡ true
    → OnWay v t (p ++ go_right ∷ [])
unfolding subtree
OnWay-right v t [] l x r w e f = subst (λ u. OnWay v u (go_right ∷ [])) (sym e) (f, tt)
OnWay-right v null (d ∷ p) l x r w e f = elim w [ ]
OnWay-right v (node l' y r') (go_left ∷ p) l x r w e f =
    (w.0, w.1, OnWay-right v l' p l x r w.2 e f)
OnWay-right v (node l' y r') (go_right ∷ p) l x r w e f = (w.0, OnWay-right v r' p l x r w.1 e f)

pub OnWay-left :
    (v : ℤ) (t : TNode) (p : Way) (l : TNode) (x : ℤ) (r : TNode)
    → OnWay v t p
    → subtree t p ≡ node l x r
    → ltb_ℤ x v ≡ false
    → ltb_ℤ v x ≡ true
    → OnWay v t (p ++ go_left ∷ [])
unfolding subtree
OnWay-left v t [] l x r w e f g = subst (λ u. OnWay v u (go_left ∷ [])) (sym e) (f, g, tt)
OnWay-left v null (d ∷ p) l x r w e f g = elim w [ ]
OnWay-left v (node l' y r') (go_left ∷ p) l x r w e f g =
    (w.0, w.1, OnWay-left v l' p l x r w.2 e f g)
OnWay-left v (node l' y r') (go_right ∷ p) l x r w e f g = (w.0, OnWay-left v r' p l x r w.1 e f g)

pub guard-snoc : (p : Way) (d : Dir) → guard (p ++ d ∷ []) ≡ p
unfolding guard
guard-snoc [] d = refl
guard-snoc (e ∷ []) d = refl
guard-snoc (e ∷ f ∷ p) d = ap (λ q. e ∷ q) (guard-snoc (f ∷ p) d)
