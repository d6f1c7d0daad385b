-- ===== src/WordTree/Examples.antt =====
-- Runs of the tree of words of lab4/tree.c.
use cse.Base.{◌≡◌, some, [], ◌∷◌, Gives}
use cse.Strcmp.{Text}
use cse.WordTree.{make_empty_tree, search_tree, insert_all}
use cse.WordTree.Search.{among, insert_all-search}

abbrev cat : Text
cat = b'c' ∷ b'a' ∷ b't' ∷ []

abbrev ant : Text
ant = b'a' ∷ b'n' ∷ b't' ∷ []

insert_all-search_example :
    Gives
      (λ t. search_tree t ant ≡ some (among (cat ∷ ant ∷ []) ant))
      (insert_all make_empty_tree (cat ∷ ant ∷ []))
insert_all-search_example = insert_all-search cat (ant ∷ []) ant
