-- ===== src/WordTree/Search.antt =====
-- What searchTree finds after insertIntoTree.
use Prim.Native.Nat.{Ordering}
use cse.Base.{
  ◌≡◌, refl, sym, ap, ◌∙◌, ◌≢◌, Bool-cases, ◌⊎◌, inl, inr, Bool, true, false, ◌||◌, Option, none,
  some, List, [], ◌∷◌, arith, ◌>>=◌, Gives, gives, Gives-bind, Gives-mono,
}
use cse.Strcmp.{Text, strcmp, eq_of_strcmp}
use cse.WordTree.{
  Tree, null, node, is_null, make_empty_tree, emplace_node, insert_into_tree, search_tree,
  insert_all,
}

-- `strcmp(k, j) == 0`
abbrev pub same : Text → Text → Bool
same k j = elim (strcmp k j) [ Ordering.eq ↦ true | Ordering.lt ↦ false | Ordering.gt ↦ false ]

or_true : (a : Bool) → true ≡ (a || true)
or_true a = ground arith

-- Every node has its word.
abbrev pub Full : Tree → Type 0
Full null = Unit
Full (node none l r) = ⊥
Full (node (some v) l r) = Full l × Full r

search-emplace : (s j : Text) → search_tree (emplace_node s) j ≡ some (same s j)
unfolding search_tree emplace_node
search-emplace s j = ground arith

-- The tree after an insertion is full, is not NULL, and has one more word.
record Inserted (t : Tree) (s j : Text) (t' : Tree) : Type 0 where
  full : Full t'
  not_null : is_null t' ≡ false
  finds : search_tree t' j ≡ (search_tree t j >>= λ b. some (same s j || b))

Ordering-cases : (o : Ordering) → (o ≡ Ordering.lt) ⊎ ((o ≡ Ordering.eq) ⊎ (o ≡ Ordering.gt))
Ordering-cases Ordering.lt = inl refl
Ordering-cases Ordering.eq = inr (inl refl)
Ordering-cases Ordering.gt = inr (inr refl)

keep : (m : Option Bool) (a : Bool) → a ≡ false → m ≡ (m >>= λ b. some (a || b))
keep none a h = refl
keep (some b) a h = rw h

null-finds :
    (t : Tree) (s j : Text)
    → is_null t ≡ true
    → search_tree (emplace_node s) j ≡ (search_tree t j >>= λ b. some (same s j || b))
unfolding search_tree emplace_node
null-finds null s j h = ground arith
null-finds (node v l r) s j h = cc

emplace_node-Full : (s : Text) → Full (emplace_node s)
unfolding emplace_node
emplace_node-Full s = (tt, tt)

module _ (s j v : Text) where
  -- Two words that compare differently with a third are two.
  differ : {o p : Ordering} → strcmp v s ≡ o → strcmp v j ≡ p → o ≢ p → same s j ≡ false
  differ e f h = elim (Bool-cases (same s j)) [
    | inl t ↦ absurd (h (sym e ∙ ap (strcmp v) (eq_of_strcmp s j (ground arith)) ∙ f))
    | inr t ↦ t
  ]

  finds-left :
      (l l' r : Tree)
      → strcmp v s ≡ Ordering.gt
      → search_tree l' j ≡ (search_tree l j >>= λ b. some (same s j || b))
      → search_tree (node (some v) l' r) j
        ≡ (search_tree (node (some v) l r) j >>= λ b. some (same s j || b))
  unfolding search_tree
  finds-left l l' r h e = elim (Ordering-cases (strcmp v j)) [
    | inl lt ↦ rw (lt, search_tree) (keep (search_tree r j) (same s j) (differ h lt (λ p. cc)))
    | inr (inl eq) ↦ rw (eq, search_tree, differ h eq (λ p. cc))
    | inr (inr gt) ↦ rw (gt, search_tree) e
  ]

  finds-right :
      (l r r' : Tree)
      → strcmp v s ≡ Ordering.lt
      → search_tree r' j ≡ (search_tree r j >>= λ b. some (same s j || b))
      → search_tree (node (some v) l r') j
        ≡ (search_tree (node (some v) l r) j >>= λ b. some (same s j || b))
  unfolding search_tree
  finds-right l r r' h e = elim (Ordering-cases (strcmp v j)) [
    | inl lt ↦ rw (lt, search_tree) e
    | inr (inl eq) ↦ rw (eq, search_tree, differ h eq (λ p. cc))
    | inr (inr gt) ↦
        rw (gt, search_tree) (keep (search_tree l j) (same s j) (differ h gt (λ p. cc)))
  ]

  finds-here :
      (l r : Tree)
      → strcmp v s ≡ Ordering.eq
      → search_tree (node (some v) l r) j
        ≡ (search_tree (node (some v) l r) j >>= λ b. some (same s j || b))
  unfolding search_tree
  finds-here l r h = elim (Ordering-cases (strcmp v j)) [
    | inl lt ↦ rw (lt, search_tree) (keep (search_tree r j) (same s j) (differ h lt (λ p. cc)))
    | inr (inl eq) ↦ rw (eq, search_tree) (ap some (or_true (same s j)))
    | inr (inr gt) ↦
        rw (gt, search_tree) (keep (search_tree l j) (same s j) (differ h gt (λ p. cc)))
  ]

module _ (s j : Text) where
  insert-Inserted :
      (t : Tree) → Full t → is_null t ≡ false → Gives (Inserted t s j) (insert_into_tree t s)
  unfolding insert_into_tree
  insert-Inserted null f n = cc
  insert-Inserted (node none l r) f n = absurd f
  insert-Inserted (node (some v) l r) f n = elim (Ordering-cases (strcmp v s)) [
    | inl lt ↦
        rw (lt, insert_into_tree)
          (elim (Bool-cases (is_null r)) [
            | inl e ↦ rw e (
                gives (record {
                  full = (f.0, emplace_node-Full s);
                  not_null = refl;
                  finds = finds-right s j v l r (emplace_node s) lt (null-finds r s j e);
                }))
            | inr e ↦ rw e (
                Gives-bind (insert-Inserted r f.1 e) (λ r' i. gives (record {
                  full = (f.0, i.full);
                  not_null = refl;
                  finds = finds-right s j v l r r' lt i.finds;
                })))
          ])
    | inr (inl eq) ↦
        rw (eq, insert_into_tree)
          (gives (record { full = f; not_null = refl; finds = finds-here s j v l r eq }))
    | inr (inr gt) ↦
        rw (gt, insert_into_tree)
          (elim (Bool-cases (is_null l)) [
            | inl e ↦ rw e (
                gives (record {
                  full = (emplace_node-Full s, f.1);
                  not_null = refl;
                  finds = finds-left s j v l (emplace_node s) r gt (null-finds l s j e);
                }))
            | inr e ↦ rw e (
                Gives-bind (insert-Inserted l f.0 e) (λ l' i. gives (record {
                  full = (i.full, f.1);
                  not_null = refl;
                  finds = finds-left s j v l l' r gt i.finds;
                })))
          ])
  ]

-- The words of a list, by `strcmp`.
unfoldable pub among : List Text → Text → Bool
among [] j = false
among (w ∷ ws) j = same w j || among ws j

insert_all-finds :
    (j : Text) (ws : List Text) (t : Tree)
    → Full t
    → is_null t ≡ false
    → Gives
        (λ t'. search_tree t' j ≡ (search_tree t j >>= λ b. some (among ws j || b)))
        (insert_all t ws)
unfolding insert_all among
insert_all-finds j [] t f n = gives (keep (search_tree t j) false refl)
insert_all-finds j (w ∷ ws) t f n = Gives-bind (insert-Inserted w j t f n) (λ u i.
    Gives-mono (insert_all-finds j ws u i.full i.not_null)
      (λ t' e. e ∙ both (search_tree t j) (search_tree u j) i.finds))
  where
    both :
        (m n : Option Bool)
        → n ≡ (m >>= λ b. some (same w j || b))
        → (n >>= λ b. some (among ws j || b)) ≡ (m >>= λ b. some ((same w j || among ws j) || b))
    both none n e = rw e
    both (some b) n e = rw e (ap some (ground arith))

-- The tree that `main` builds from a file with at least one word finds exactly the words of the
-- file, and no insertion or search in it dereferences NULL.
pub insert_all-search :
    (w : Text) (ws : List Text) (j : Text)
    → Gives (λ t. search_tree t j ≡ some (among (w ∷ ws) j)) (insert_all make_empty_tree (w ∷ ws))
unfolding insert_all insert_into_tree make_empty_tree among search_tree
insert_all-search w ws j =
    Gives-mono (insert_all-finds j ws (node (some w) null null) (tt, tt) refl)
      (λ t e. e ∙ ground arith)

-- A search in the tree of an empty file passes NULL to `strcmp`.
pub search_tree-empty : (j : Text) → search_tree make_empty_tree j ≡ none
unfolding search_tree make_empty_tree
search_tree-empty j = refl
