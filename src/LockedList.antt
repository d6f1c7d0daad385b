-- ===== src/LockedList.antt =====
-- The sorted list of lab10/dllist.c, with links in both directions and a lock for each node, and
-- several insertions into it at once. An address is the index of a node in the order of allocation.
use cse.Base.{
  ℕ, zero, suc, ◌+◌, Bool, true, false, not, ◌&&◌, ◌==◌, Option, none, some, List, [], ◌∷◌, ◌++◌,
  map, if◌then◌else◌, length, get_elem?, set, ◌>>=◌,
}
use cse.Base.Int.{ℤ, leb_ℤ}
mod Links
mod Retie
mod Insert
mod Places
mod Threads
mod Together
mod Runs
mod Progress
mod Examples

abbrev pub Ptr : Type 0
Ptr = Option ℕ

pub record DlNode : Type 0 where
  pub value : ℤ
  pub prv : Ptr
  pub next : Ptr

pub record DlList : Type 0 where
  pub head : Ptr
  pub tail : Ptr
  pub nodes : List DlNode

abbrev pub init_list : DlList
init_list = record { head = none; tail = none; nodes = [] }

-- `malloc`, with the fields of the node written.
abbrev pub new_node : DlList → DlNode → DlList
new_node l n = record l { nodes = l.nodes ++ n ∷ [] }

-- `prev->next = nn`, and `list->head = nn` where there is no node before.
unfoldable pub set_next : DlList → (prev nn : Ptr) → Option DlList
set_next l none nn = some (record l { head = nn })
set_next l (some p) nn = do
  n ← get_elem? l.nodes p
  some (record l { nodes = set l.nodes p (record n { next = nn }) })

-- `nxt->prv = nn`
unfoldable pub set_prv : DlList → (nxt : ℕ) → (nn : Ptr) → Option DlList
set_prv l c nn = do
  n ← get_elem? l.nodes c
  some (record l { nodes = set l.nodes c (record n { prv = nn }) })

-- What follows the loop of insertSortedList: the new node before `cur`, or at the end.
unfoldable pub insert_before : DlList → (cur : Ptr) → (v : ℤ) → Option DlList
insert_before l none v = do
  let nn = some (length l.nodes)
  l ← set_next (new_node l (record { value = v; prv = l.tail; next = none })) l.tail nn
  some (record l { tail = nn })
insert_before l (some c) v = do
  n ← get_elem? l.nodes c
  let nn = some (length l.nodes)
  l ← set_next (new_node l (record { value = v; prv = n.prv; next = some c })) n.prv nn
  set_prv l c nn

-- The loop of printListForward, one round for each node: the values that it prints.
unfoldable pub print_from : (fuel : ℕ) → DlList → (cur : Ptr) → Option (List ℤ)
print_from zero l cur = none
print_from (suc fuel) l none = some []
print_from (suc fuel) l (some c) =
    get_elem? l.nodes c >>= λ n. print_from fuel l n.next >>= λ rest. some (n.value ∷ rest)

abbrev pub print_list_forward : (fuel : ℕ) → DlList → Option (List ℤ)
print_list_forward fuel l = print_from fuel l l.head

-- Where a thread is in insertSortedList: before its first lock, in the loop with the lock `curlock`
-- (that of the list, or of a node) and `cur`, and at its end.
pub data Phase : Type 0 where
  entering : Phase
  looking : (curlock cur : Ptr) → Phase
  returned : Phase

pub record Inserter : Type 0 where
  pub val : ℤ
  pub phase : Phase

abbrev pub same_ptr : Ptr → Ptr → Bool
same_ptr none none = true
same_ptr none (some j) = false
same_ptr (some i) none = false
same_ptr (some i) (some j) = i == j

-- Whether a thread has a lock, and whether no thread has it.
unfoldable pub holds : (lock : Ptr) → Phase → Bool
holds lock entering = false
holds lock (looking curlock cur) = same_ptr lock curlock
holds lock returned = false

unfoldable pub is_free : (lock : Ptr) → List Inserter → Bool
is_free lock [] = true
is_free lock (t ∷ ts) = not (holds lock t.phase) && is_free lock ts

-- A round of the loop: the lock of the next node is taken and the one before is given back, as soon
-- as it is free; or the place is found, the node is inserted and the lock is given back.
unfoldable pub look :
    (others : List Inserter) → DlList → (v : ℤ) → (curlock cur : Ptr) → Option (Phase × DlList)
look others l v curlock none = insert_before l none v >>= λ l. some (returned, l)
look others l v curlock (some c) = get_elem? l.nodes c >>= λ n.
    if leb_ℤ n.value v
    then (if is_free (some c) others
        then some (looking (some c) n.next, l)
        else some (looking curlock (some c), l))
    else (insert_before l (some c) v >>= λ l. some (returned, l))

unfoldable pub advance :
    (others : List Inserter) → DlList → (v : ℤ) → Phase → Option (Phase × DlList)
advance others l v entering =
    some (if is_free none others then looking none l.head else entering, l)
advance others l v (looking curlock cur) = look others l v curlock cur
advance others l v returned = some (returned, l)

pub record System : Type 0 where
  pub list : DlList
  pub threads : List Inserter

unfoldable pub move : ℕ → System → Option Inserter → Option System
move i s none = some s
move i s (some t) = do
  (phase, list) ← advance s.threads s.list t.val t.phase
  some (record { list = list; threads = set s.threads i (record t { phase = phase }) })

-- The threads that run next, in their order.
unfoldable pub run : System → List ℕ → Option System
run s [] = some s
run s (i ∷ is) = move i s (get_elem? s.threads i) >>= λ s'. run s' is

abbrev pub start : List ℤ → System
start vals = record {
  list = init_list;
  threads = map (λ v. record { val = v; phase = entering }) vals;
}
