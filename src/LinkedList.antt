-- ===== src/LinkedList.antt =====
-- The linked list of ps3/list.c, on a heap of nodes. `malloc` always finds memory, and no address is
-- given out twice, so that every use of a freed node shows as a fault.
pub mod Chain
pub mod Frames
pub mod Ends
pub mod Back
pub mod Place
pub mod Insert
pub mod Sort
pub mod Free
pub mod Deque
mod Examples
use cse.Base.{
  ℕ, zero, suc, ◌+◌, ◌-◌, Bool, not, ◌&&◌, Option, none, some, ltb, ◌==◌, if◌then◌else◌, ◌>>=◌,
  ◌>>◌, assert,
}
use cse.Base.Int.{ℤ, pos, ltb_ℤ, leb_ℤ}

-- An address; 0 is `NULL`.
abbrev pub Ptr : Type 0
Ptr = ℕ

pub record IlNode : Type 0 where
  pub next : Ptr
  pub number : ℤ

-- The nodes that are allocated, and the last address that was given out.
pub record Heap : Type 0 where
  pub node : Ptr → Option IlNode
  pub brk : ℕ

pub record IntList : Type 0 where
  pub head : Ptr
  pub tail : Ptr
  pub len : ℕ

-- `*p`; there is nothing at `NULL`.
unfoldable pub load : Heap → Ptr → Option IlNode
load h zero = none
load h (suc p) = h.node (suc p)

abbrev pub put : (Ptr → Option IlNode) → Ptr → Option IlNode → (Ptr → Option IlNode)
put node p n q = if q == p then n else node q

-- `*p = n` for a node that is allocated.
unfoldable pub store : Heap → Ptr → IlNode → Option Heap
store h p n = do _ ← load h p; some (record h { node = put h.node p (some n) })

unfoldable pub alloc : Heap → IlNode → Heap
alloc h n = record { node = put h.node (suc h.brk) (some n); brk = suc h.brk }

-- A second `free`, and one of an address that was never given out, is a fault.
unfoldable pub free : Heap → Ptr → Option Heap
free h p = do _ ← load h p; some (record h { node = put h.node p none })

unfoldable pub il_penult_loop : Heap → (fuel : ℕ) → (prev node : Ptr) → Option Ptr
il_penult_loop h zero prev node = none
il_penult_loop h (suc fuel) prev zero = some prev
il_penult_loop h (suc fuel) prev (suc p) = do
  n ← load h (suc p)
  elim n.next [ zero ↦ some prev | suc q ↦ il_penult_loop h fuel (suc p) (suc q) ]

-- The fuel is more than the nodes that follow.
unfoldable pub il_penult : Heap → (fuel : ℕ) → Ptr → Option Ptr
il_penult h fuel node = il_penult_loop h fuel 0 node

abbrev pub init_list : IntList
init_list = record { head = 0; tail = 0; len = 0 }

unfoldable pub free_loop : Heap → (fuel : ℕ) → Ptr → Option Heap
free_loop h zero p = none
free_loop h (suc fuel) zero = some h
free_loop h (suc fuel) (suc p) = do n ← load h (suc p); h ← free h (suc p); free_loop h fuel n.next

-- The loop stops at the end of the list, within `len` rounds; `tail` is left as it is.
unfoldable pub free_list : Heap → IntList → Option (Heap × IntList)
free_list h list = do
  h ← free_loop h (list.len + 1) list.head
  some (h, record list { head = 0; len = 0 })

-- `calloc` gives a node of zeros, which `number` is then written to.
unfoldable pub push_back_list : Heap → IntList → ℤ → Option (Heap × IntList)
push_back_list h list num =
    let new = suc h.brk in
    let behind = (do
      t ← load h list.tail
      assert (t.next == 0)
      h ← store (alloc h (record { next = 0; number = pos 0 })) list.tail (record t { next = new })
      n ← load h new
      h ← store h new (record n { number = num })
      some (h, record list { tail = new; len = list.len + 1 })) in
    let alone = (do
      assert (list.head == list.tail)
      h ←
          store (alloc h (record { next = 0; number = pos 0 })) new
            (record { next = 0; number = num })
      some (h, record { head = new; tail = new; len = list.len + 1 })) in
    if list.tail == 0 then alone else behind

unfoldable pub pop_back_list : Heap → IntList → Option (ℤ × Heap × IntList)
pop_back_list h list =
    let single = (do
      assert (list.len == 1)
      n ← load h list.head
      h ← free h list.head
      some (n.number, h, init_list)) in
    let several = (do
      p ← il_penult h list.len list.head
      prev ← load h p
      assert (prev.next == list.tail)
      t ← load h list.tail
      assert (t.next == 0)
      h ← free h list.tail
      n ← load h p
      h ← store h p (record n { next = 0 })
      some (t.number, h, record list { tail = p; len = list.len - 1 })) in
    assert (not (list.head == 0) && ltb 0 list.len)
    >> (if list.head == list.tail then single else several)

unfoldable pub push_front_list : Heap → IntList → ℤ → Heap × IntList
push_front_list h list num =
    let new = suc h.brk in
    (
      alloc h (record { next = list.head; number = num }),
      record { head = new; tail = if list.tail == 0 then new else list.tail; len = list.len + 1 },
    )

unfoldable pub pop_front_list : Heap → IntList → Option (ℤ × Heap × IntList)
pop_front_list h list = do
  assert (not (list.head == 0) && ltb 0 list.len)
  n ← load h list.head
  h ← free h list.head
  some (
    n.number,
    h,
    record { head = n.next; tail = if n.next == 0 then n.next else list.tail; len = list.len - 1 },
  )

-- The last node from `cursor` on that a node of `number` goes behind.
unfoldable pub insert_point : Heap → (fuel : ℕ) → (cursor : Ptr) → (number : ℤ) → Option Ptr
insert_point h zero cursor number = none
insert_point h (suc fuel) cursor number = do
  c ← load h cursor
  let later = insert_point h fuel c.next number in
      elim c.next [
        | zero ↦ some cursor
        | suc q ↦ load h (suc q) >>= λ n. if ltb_ℤ n.number number then later else some cursor
      ]

unfoldable pub sorted_insert : Heap → (slist : IntList) → (new : Ptr) → Option (Heap × IntList)
sorted_insert h slist new =
    let empty = (do
      n ← load h new
      h ← store h new (record n { next = 0 })
      some (h, record { head = new; tail = new; len = 1 })) in
    let front = (λ (n : IlNode). do
      h ← store h new (record n { next = slist.head })
      some (h, record slist { head = new; len = slist.len + 1 })) in
    let behind = (λ (n : IlNode). do
      cursor ← insert_point h slist.len slist.head n.number
      c ← load h cursor
      h ← store h cursor (record c { next = new })
      n ← load h new
      h ← store h new (record n { next = c.next })
      some (
        h,
        record slist { tail = if c.next == 0 then new else slist.tail; len = slist.len + 1 },
      )) in
    let several = (do
      n ← load h new
      first ← load h slist.head
      if leb_ℤ n.number first.number then front n else behind n) in
    if slist.head == 0 then empty else several

unfoldable pub sort_loop :
    Heap → (fuel : ℕ) → (new_list : IntList) → (cur : Ptr) → Option (Heap × IntList)
sort_loop h zero new_list cur = none
sort_loop h (suc fuel) new_list zero = some (h, new_list)
sort_loop h (suc fuel) new_list (suc p) = do
  n ← load h (suc p)
  (h, new_list) ← sorted_insert h new_list (suc p)
  sort_loop h fuel new_list n.next

unfoldable pub sort_list : Heap → IntList → Option (Heap × IntList)
sort_list h list = sort_loop h (list.len + 1) init_list list.head

abbrev pub length_list : IntList → ℕ
length_list list = list.len
