-- ===== src/TreeMt.antt =====
-- The search tree of numbers of ps8/treeMT.c. A node has one owner, so a pointer to a node is the
-- tree below it. An insertion holds the lock of the link that it looks at from the check to the
-- write, taking the next lock before it lets go of the last; this is one insertion by itself, and Threads has several at once.
pub mod Threads
pub mod Walks
pub mod Moves
pub mod Growth
pub mod Linear
mod Order
mod Examples
use cse.Base.{if◌then◌else◌}
use cse.Base.Int.{ℤ, ltb_ℤ}

pub data TNode : Type 0 where
  null : TNode
  node : TNode → ℤ → TNode → TNode

pub record Tree : Type 0 where
  pub root : TNode

unfoldable pub make_node : ℤ → TNode
make_node val = node null val null

unfoldable pub make_empty_tree : Tree
make_empty_tree = record { root = null }

-- The walk from a link: a NULL link gets the new node; a node with the value is left as it is.
unfoldable pub insert_below : TNode → ℤ → TNode
unfolding make_node
insert_below null val = make_node val
insert_below (node left x right) val =
    let l = insert_below left val in
    let r = insert_below right val in
    if ltb_ℤ x val
    then node left x r
    else (if ltb_ℤ val x then node l x right else node left x right)

unfoldable pub insert_into_tree : Tree → ℤ → Tree
unfolding insert_below
insert_into_tree t val = record { root = insert_below t.root val }
