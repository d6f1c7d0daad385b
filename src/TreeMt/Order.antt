-- ===== src/TreeMt/Order.antt =====
-- The order of the tree of ps8/treeMT.c, and what it holds after an insertion.
use cse.Base.{◌≡◌, refl, inl, inr, Bool, true, false, ◌||◌, arith, if◌then◌else◌, Bool-cases}
use cse.Base.Int.{ℤ, ltb_ℤ, eq_of_parts}
use cse.TreeMt.{TNode, null, node, Tree, insert_below, insert_into_tree}

abbrev pub AllNodes {κ} : (ℤ → Type κ) → TNode → Type κ
AllNodes P null = Unit
AllNodes P (node l x r) = P x × AllNodes P l × AllNodes P r

-- Smaller values are on the left, greater ones on the right, and no value stands twice.
abbrev pub IsSearchTree : TNode → Type 0
IsSearchTree null = Unit
IsSearchTree (node l x r) =
    AllNodes (λ y. ltb_ℤ y x ≡ true) l
    × AllNodes (λ y. ltb_ℤ x y ≡ true) r
    × IsSearchTree l
    × IsSearchTree r

-- `v == j`
unfoldable pub eq_ℤ : ℤ → ℤ → Bool
eq_ℤ v j = if ltb_ℤ v j then false else (if ltb_ℤ j v then false else true)

-- Whether a value stands anywhere in the tree.
unfoldable pub holds : TNode → ℤ → Bool
holds null j = false
holds (node l x r) j = eq_ℤ x j || (holds l j || holds r j)

AllNodes-insert {κ} :
    (P : ℤ → Type κ) (t : TNode) (v : ℤ) → P v → AllNodes P t → AllNodes P (insert_below t v)
unfolding insert_below
AllNodes-insert P null v p a = (p, tt, tt)
AllNodes-insert P (node l x r) v p a = elim (Bool-cases (ltb_ℤ x v)) [
  | inl e ↦ rw e (a.0, a.1, AllNodes-insert P r v p a.2)
  | inr e ↦ rw e (elim (Bool-cases (ltb_ℤ v x)) [
    | inl e' ↦ rw e' (a.0, AllNodes-insert P l v p a.1, a.2)
    | inr e' ↦ rw e' a
  ])
]

insert_below-IsSearchTree : (t : TNode) (v : ℤ) → IsSearchTree t → IsSearchTree (insert_below t v)
unfolding insert_below
insert_below-IsSearchTree null v s = (tt, tt, tt, tt)
insert_below-IsSearchTree (node l x r) v s = elim (Bool-cases (ltb_ℤ x v)) [
  | inl e ↦ rw e (
    s.0,
    AllNodes-insert (λ y. ltb_ℤ x y ≡ true) r v e s.1,
    s.2,
    insert_below-IsSearchTree r v s.3,
  )
  | inr e ↦ rw e (elim (Bool-cases (ltb_ℤ v x)) [
    | inl e' ↦ rw e' (
      AllNodes-insert (λ y. ltb_ℤ y x ≡ true) l v e' s.0,
      s.1,
      insert_below-IsSearchTree l v s.2,
      s.3,
    )
    | inr e' ↦ rw e' s
  ])
]

eq_of_not_ltb : (a b : ℤ) → ltb_ℤ a b ≡ false → ltb_ℤ b a ≡ false → a ≡ b
eq_of_not_ltb a b h k = eq_of_parts a b (ground arith)

or_last : (a b c d : Bool) → (a || (b || (d || c))) ≡ (d || (a || (b || c)))
or_last a b c d = ground arith

or_middle : (a b c d : Bool) → (a || ((d || b) || c)) ≡ (d || (a || (b || c)))
or_middle a b c d = ground arith

or_again : (a b : Bool) → (a || b) ≡ (a || (a || b))
or_again a b = ground arith

holds-insert_below : (t : TNode) (v j : ℤ) → holds (insert_below t v) j ≡ (eq_ℤ v j || holds t j)
unfolding insert_below holds
holds-insert_below null v j = refl
holds-insert_below (node l x r) v j = elim (Bool-cases (ltb_ℤ x v)) [
  | inl e ↦ rw (e, holds-insert_below r v j) (or_last (eq_ℤ x j) (holds l j) (holds r j) (eq_ℤ v j))
  | inr e ↦ rw e (elim (Bool-cases (ltb_ℤ v x)) [
    | inl e' ↦
        rw (e', holds-insert_below l v j) (or_middle (eq_ℤ x j) (holds l j) (holds r j) (eq_ℤ v j))
    | inr e' ↦ rw (e', eq_of_not_ltb x v e e') (or_again (eq_ℤ v j) (holds l j || holds r j))
  ])
]

-- insertIntoTree keeps the search order with every value at most once, and afterwards the tree
-- holds the value given and what it held before, and nothing else.
pub insert_into_tree-holds :
    (t : Tree) (v j : ℤ)
    → IsSearchTree t.root
    → IsSearchTree (insert_into_tree t v).root
      × (holds (insert_into_tree t v).root j ≡ (eq_ℤ v j || holds t.root j))
unfolding insert_into_tree
insert_into_tree-holds t v j s =
    (insert_below-IsSearchTree t.root v s, holds-insert_below t.root v j)
