-- ===== src/TreeMt/Growth.antt =====
-- What an insertion of another thread leaves of the tree of ps8/treeMT.c and of the threads' places in it.
use cse.Base.{◌≡◌, refl, sym, subst, inl, inr, some, List, [], ◌∷◌, ◌++◌, Bool-cases}
use cse.Base.Int.{ℤ, ltb_ℤ}
use cse.TreeMt.{TNode, null, node, insert_below}
use cse.TreeMt.Threads.{
  go_left, go_right, Way, subtree, Phase, entering, looking, bottom, returned, guard, held,
}
use cse.TreeMt.Walks.{OnWay, insert-OnWay}
use cse.TreeMt.Moves.{NonNull, NonNullBelow, Placed}

-- The values one after the other.
unfoldable pub insert_list : TNode → List ℤ → TNode
insert_list t [] = t
insert_list t (v ∷ vs) = insert_list (insert_below t v) vs

pub insert_list-snoc :
    (t : TNode) (vs : List ℤ) (v : ℤ)
    → insert_list t (vs ++ v ∷ []) ≡ insert_below (insert_list t vs) v
unfolding insert_list
insert_list-snoc t [] v = refl
insert_list-snoc t (w ∷ vs) v = insert_list-snoc (insert_below t w) vs v

pub insert-NonNullBelow :
    (w : ℤ) (t : TNode) (p q : Way)
    → NonNullBelow p (subtree t q)
    → NonNullBelow p (subtree (insert_below t w) q)
unfolding subtree insert_below
insert-NonNullBelow w t [] q n = tt
insert-NonNullBelow w t (d ∷ p) q n = grown t q n
  where
    grown : (t : TNode) (q : Way) → NonNull (subtree t q) → NonNull (subtree (insert_below t w) q)
    grown null [] n = elim n [ ]
    grown null (d ∷ q) n = elim n [ ]
    grown (node l x r) [] n = elim (Bool-cases (ltb_ℤ x w)) [
      | inl e ↦ rw e tt
      | inr e ↦ elim (Bool-cases (ltb_ℤ w x)) [ inl f ↦ rw (e, f) tt | inr f ↦ rw (e, f) tt ]
    ]
    grown (node l x r) (go_left ∷ q) n = elim (Bool-cases (ltb_ℤ x w)) [
      | inl e ↦ rw e n
      | inr e ↦ elim (Bool-cases (ltb_ℤ w x)) [
        | inl f ↦ rw (e, f) (grown l q n)
        | inr f ↦ rw (e, f) n
      ]
    ]
    grown (node l x r) (go_right ∷ q) n = elim (Bool-cases (ltb_ℤ x w)) [
      | inl e ↦ rw e (grown r q n)
      | inr e ↦ elim (Bool-cases (ltb_ℤ w x)) [ inl f ↦ rw (e, f) n | inr f ↦ rw (e, f) n ]
    ]

-- A thread that does not move is placed as before.
pub after-Placed :
    (root root' : TNode) (v w : ℤ) (phase : Phase)
    → root' ≡ insert_below root v
    → Placed root w phase
    → ((q : Way)
        → held phase ≡ some (guard q)
        → OnWay w root q
        → subtree root q ≡ null
        → subtree root' q ≡ null)
    → Placed root' w phase
unfolding held
after-Placed root root' v w entering e g keep = tt
after-Placed root root' v w (looking p) e g keep =
    subst (λ t. OnWay w t p × NonNullBelow p (subtree t p)) (sym e)
      (insert-OnWay w v root p g.0, insert-NonNullBelow v root p p g.1)
after-Placed root root' v w (bottom q) e g keep =
    (subst (λ t. OnWay w t q) (sym e) (insert-OnWay w v root q g.0), keep q refl g.0 g.1)
after-Placed root root' v w returned e g keep = tt
