-- ===== src/TreeMt/Moves.antt =====
-- One move of a thread of ps8/treeMT.c: what it does to the tree and to the locks.
use cse.Base.{
  ◌≡◌, ◌≢◌, ◌⊎◌, refl, sym, ap, ◌∙◌, subst, inl, inr, Bool, true, false, none, some, List, [], ◌∷◌,
  ◌++◌, Bool-cases, Gives, gives, Gives-bind,
}
use cse.Base.Int.{ℤ, ltb_ℤ}
use mathlib.Core.Option.{some-injective}
use cse.TreeMt.{TNode, null, node, make_node, insert_below}
use cse.TreeMt.Threads.{
  Dir, go_left, go_right, Way, subtree, Phase, entering, looking, bottom, returned, Inserter, guard,
  held, is_free, descend, look, advance,
}
use cse.TreeMt.Walks.{
  OnWay, graft-insert, insert-present, graft-null, OnWay-right, OnWay-left, guard-snoc,
}

abbrev pub NonNull : TNode → Type 0
NonNull null = ⊥
NonNull (node l x r) = Unit

-- Only the link of the root can be NULL where a thread looks.
abbrev pub NonNullBelow : Way → TNode → Type 0
NonNullBelow [] u = Unit
NonNullBelow (d ∷ p) u = NonNull u

NonNull-below : (p : Way) (u : TNode) → NonNull u → NonNullBelow p u
NonNull-below [] u n = tt
NonNull-below (d ∷ p) u n = n

-- Where a thread with the value `v` may be.
abbrev pub Placed : TNode → ℤ → Phase → Type 0
Placed root v entering = Unit
Placed root v (looking p) = OnWay v root p × NonNullBelow p (subtree root p)
Placed root v (bottom q) = OnWay v root q × (subtree root q ≡ null)
Placed root v returned = Unit

abbrev pub is_returned : Phase → Bool
is_returned returned = true
is_returned p = false

-- A move leaves the tree, or it is the end of the insertion of `v`; then a link that is NULL stays
-- NULL unless the thread held its lock.
pub data Effect (root : TNode) (v : ℤ) (phase : Phase) (root' : TNode) (phase' : Phase)
    : Type 0 where
  stays : root' ≡ root → is_returned phase' ≡ is_returned phase → Effect root v phase root' phase'
  ends :
      root' ≡ insert_below root v
      → is_returned phase ≡ false
      → is_returned phase' ≡ true
      → ((w : ℤ) (q : Way)
          → OnWay w root q
          → subtree root q ≡ null
          → held phase ≢ some (guard q)
          → subtree root' q ≡ null)
      → Effect root v phase root' phase'

-- What a move comes to: the thread is placed, has no lock but one that it had or that was free, and
-- its effect is as above.
pub record Moved (others : List Inserter) (root : TNode) (v : ℤ) (phase : Phase) (root' : TNode)
    (phase' : Phase) : Type 0 where
  pub placed : Placed root' v phase'
  pub locks : (p : Way) → held phase' ≡ some p → (held phase ≡ some p) ⊎ (is_free p others ≡ true)
  pub effect : Effect root v phase root' phase'

none_is_no_lock : {A : Type 0} {p : Way} → none ≡ some p → A
none_is_no_lock e = absurd (clash e)
  where
    clash : {p : Way} → none ≡ some p → ⊥
    clash e = cc

module _ (others : List Inserter) (root : TNode) (v : ℤ) where
  abbrev Goes : Phase → Phase → Type 0
  Goes phase phase' = Moved others root v phase root phase'

  descend-Moved :
      (p : Way) (d : Dir) (u : TNode)
      → OnWay v root p
      → NonNullBelow p (subtree root p)
      → OnWay v root (p ++ d ∷ [])
      → subtree root (p ++ d ∷ []) ≡ u
      → Goes (looking p) (descend others p (p ++ d ∷ []) u)
  unfolding descend held
  descend-Moved p d null w n w' e = record {
    placed = (w', e);
    locks = λ q h. inl (ap some (sym (guard-snoc p d)) ∙ h);
    effect = stays refl refl;
  }
  descend-Moved p d (node l x r) w n w' e = elim (Bool-cases (is_free (p ++ d ∷ []) others)) [
    | inl free ↦ rw free (record {
      placed = (
        w',
        subst (NonNullBelow (p ++ d ∷ [])) (sym e) (NonNull-below (p ++ d ∷ []) (node l x r) tt),
      );
      locks = λ q h. inr (ap (λ k. is_free k others) (sym (some-injective _ _ h)) ∙ free);
      effect = stays refl refl;
    })
    | inr busy ↦
        rw busy (record { placed = (w, n); locks = λ q h. inl h; effect = stays refl refl })
  ]

  look-Moved :
      (p : Way) (u : TNode)
      → subtree root p ≡ u
      → OnWay v root p
      → NonNullBelow p (subtree root p)
      → Gives (λ phase'. Goes (looking p) phase') (look others root v p u)
  unfolding look held guard subtree
  look-Moved [] null e w n =
      gives (record { placed = (tt, e); locks = λ q h. inl h; effect = stays refl refl })
  look-Moved (d ∷ p) null e w n = elim (subst NonNull e n) [ ]
  look-Moved p (node l x r) e w n = elim (Bool-cases (ltb_ℤ x v)) [
    | inl f ↦ rw f (
        gives (
          descend-Moved p go_right (subtree root (p ++ go_right ∷ [])) w n
            (OnWay-right v root p l x r w e f) refl))
    | inr f ↦ elim (Bool-cases (ltb_ℤ v x)) [
      | inl g ↦
          rw (f, g)
            (gives (
              descend-Moved p go_left (subtree root (p ++ go_left ∷ [])) w n
                (OnWay-left v root p l x r w e f g) refl))
      | inr g ↦
          rw (f, g)
            (gives (record {
              placed = tt;
              locks = λ q h. none_is_no_lock h;
              effect =
                  ends (sym (insert-present v root p l x r w e f g)) refl refl (λ w q o k ne. k);
            }))
    ]
  ]

  pub advance-Moved :
      (phase : Phase)
      → Placed root v phase
      → Gives
          (λ (phase', root'). Moved others root v phase root' phase')
          (advance others root v phase)
  unfolding advance held
  advance-Moved entering g = elim (Bool-cases (is_free [] others)) [
    | inl free ↦ rw free (
        gives (record {
          placed = (tt, tt);
          locks = λ q h. inr (ap (λ k. is_free k others) (sym (some-injective _ _ h)) ∙ free);
          effect = stays refl refl;
        }))
    | inr busy ↦
        rw busy (
          gives
            (record { placed = tt; locks = λ q h. none_is_no_lock h; effect = stays refl refl }))
  ]
  advance-Moved (looking p) g =
      Gives-bind (look-Moved p (subtree root p) refl g.0 g.1) (λ phase' m. gives m)
  advance-Moved (bottom q) g = gives (record {
    placed = tt;
    locks = λ p h. none_is_no_lock h;
    effect = ends (graft-insert v root q g.0 g.1) refl refl (λ w p o k ne.
        graft-null v w root (make_node v) q p g.0 o g.1 k (λ e. ne (ap (λ s. some (guard s)) e)));
  })
  advance-Moved returned g =
      gives (record { placed = tt; locks = λ q h. none_is_no_lock h; effect = stays refl refl })
