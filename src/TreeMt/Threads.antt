-- ===== src/TreeMt/Threads.antt =====
-- Several insertions into the tree of ps8/treeMT.c at once, each with the lock of one link at a time.
use cse.Base.{
  ℕ, Bool, true, false, not, ◌&&◌, Option, none, some, List, [], ◌∷◌, ◌++◌, if◌then◌else◌,
  get_elem?, set, map, ◌>>=◌,
}
use cse.Base.Int.{ℤ, ltb_ℤ}
use cse.TreeMt.{TNode, null, node, make_node}

pub data Dir : Type 0 where
  go_left : Dir
  go_right : Dir

-- A link of the tree, by the way to it from the root.
abbrev pub Way : Type 0
Way = List Dir

unfoldable pub subtree : TNode → Way → TNode
subtree t [] = t
subtree null (d ∷ p) = null
subtree (node l x r) (go_left ∷ p) = subtree l p
subtree (node l x r) (go_right ∷ p) = subtree r p

-- `*next = n`
unfoldable pub graft : TNode → Way → TNode → TNode
graft t [] n = n
graft null (d ∷ p) n = null
graft (node l x r) (go_left ∷ p) n = node (graft l p n) x r
graft (node l x r) (go_right ∷ p) n = node l x (graft r p n)

-- Where a thread is: before its first `pthread_mutex_lock`, in the loop with `cursor` at a link,
-- behind the loop with `next` at a link that was NULL, and behind `insertIntoTree`.
pub data Phase : Type 0 where
  entering : Phase
  looking : (cursor : Way) → Phase
  bottom : (next : Way) → Phase
  returned : Phase

pub record Inserter : Type 0 where
  pub val : ℤ
  pub phase : Phase

-- The lock of the node that a link leaves from; that of the tree for the root.
unfoldable pub guard : Way → Way
guard [] = []
guard (d ∷ []) = []
guard (d ∷ e ∷ p) = d ∷ guard (e ∷ p)

-- `curlock`
unfoldable pub held : Phase → Option Way
held entering = none
held (looking p) = some p
held (bottom q) = some (guard q)
held returned = none

unfoldable pub same_path : Way → Way → Bool
same_path [] [] = true
same_path (go_left ∷ p) (go_left ∷ q) = same_path p q
same_path (go_right ∷ p) (go_right ∷ q) = same_path p q
same_path p q = false

abbrev pub is_lock : Way → Option Way → Bool
is_lock p none = false
is_lock p (some q) = same_path p q

unfoldable pub is_free : Way → List Inserter → Bool
is_free p [] = true
is_free p (t ∷ ts) = not (is_lock p (held t.phase)) && is_free p ts

-- A child that is not NULL is gone to, as soon as its lock is free.
unfoldable pub descend : (others : List Inserter) → (cursor next : Way) → TNode → Phase
descend others cursor next null = bottom next
descend others cursor next (node l x r) =
    if is_free next others then looking next else looking cursor

-- A round of the loop at a node; at the link of the root it can be the check for an empty tree. A NULL
-- below that is a fault.
unfoldable pub look :
    (others : List Inserter) → (root : TNode) → (val : ℤ) → (cursor : Way) → TNode → Option Phase
look others root val [] null = some (bottom [])
look others root val (d ∷ p) null = none
look others root val cursor (node l x r) = some (
    if ltb_ℤ x val
    then descend others cursor (cursor ++ go_right ∷ []) (subtree root (cursor ++ go_right ∷ []))
    else (if ltb_ℤ val x
        then descend others cursor (cursor ++ go_left ∷ []) (subtree root (cursor ++ go_left ∷ []))
        else returned))

unfoldable pub advance :
    (others : List Inserter) → (root : TNode) → (val : ℤ) → Phase → Option (Phase × TNode)
advance others root val entering = some (if is_free [] others then looking [] else entering, root)
advance others root val (looking p) =
    look others root val p (subtree root p) >>= λ phase. some (phase, root)
advance others root val (bottom q) = some (returned, graft root q (make_node val))
advance others root val returned = some (returned, root)

pub record Threads : Type 0 where
  pub root : TNode
  pub threads : List Inserter

unfoldable pub move : ℕ → Threads → Option Inserter → Option Threads
move i s none = some s
move i s (some t) = do
  (phase, root) ← advance s.threads s.root t.val t.phase
  some (record { root = root; threads = set s.threads i (record t { phase = phase }) })

-- The threads that run next, in their order.
unfoldable pub run : Threads → List ℕ → Option Threads
run s [] = some s
run s (i ∷ is) = move i s (get_elem? s.threads i) >>= λ s'. run s' is

abbrev pub start : TNode → List ℤ → Threads
start root vals = record {
  root = root;
  threads = map (λ v. record { val = v; phase = entering }) vals;
}
