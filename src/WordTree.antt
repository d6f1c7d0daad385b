-- ===== src/WordTree.antt =====
-- The search tree of words of lab4/tree.c. A node has one owner, so a pointer to a node is the tree
-- below it. `none` of a result is a dereference of NULL.
mod Search
mod Examples
use Prim.Native.Nat.{Ordering}
use cse.Base.{Bool, true, false, Option, none, some, List, [], ◌∷◌, ◌++◌, if◌then◌else◌, ◌>>=◌}
use cse.Strcmp.{Text, strcmp}

-- `val` is NULL only in the root that makeEmptyTree returns.
pub data Tree : Type 0 where
  null : Tree
  node : Option Text → Tree → Tree → Tree

unfoldable pub make_empty_tree : Tree
make_empty_tree = node none null null

abbrev pub is_null : Tree → Bool
is_null null = true
is_null (node v l r) = false

unfoldable pub emplace_node : Text → Tree
emplace_node str = node (some str) null null

-- The tree behind `root` after the call. Where the child is NULL the new node is put there.
unfoldable pub insert_into_tree : Tree → Text → Option Tree
unfolding emplace_node
insert_into_tree null string = none
insert_into_tree (node none l r) string = some (node (some string) l r)
insert_into_tree (node (some val) l r) string =
    let in_left = insert_into_tree l string in
    let in_right = insert_into_tree r string in
    elim (strcmp val string) [
      | Ordering.gt ↦
          if is_null l
          then some (node (some val) (emplace_node string) r)
          else (in_left >>= λ l'. some (node (some val) l' r))
      | Ordering.lt ↦
          if is_null r
          then some (node (some val) l (emplace_node string))
          else (in_right >>= λ r'. some (node (some val) l r'))
      | Ordering.eq ↦ some (node (some val) l r)
    ]

-- Whether searchTree returns a node. The `strcmp` of a NULL value is a fault.
unfoldable pub search_tree : Tree → Text → Option Bool
search_tree null string = some false
search_tree (node none l r) string = none
search_tree (node (some val) l r) string =
    let in_left = search_tree l string in
    let in_right = search_tree r string in
    elim (strcmp val string) [
      | Ordering.gt ↦ in_left
      | Ordering.lt ↦ in_right
      | Ordering.eq ↦ some true
    ]

-- The loop of `main` that reads the words of the file.
unfoldable pub insert_all : Tree → List Text → Option Tree
insert_all tree [] = some tree
insert_all tree (word ∷ words) = do tree' ← insert_into_tree tree word; insert_all tree' words
