-- ===== src/LinkedList/Frames.antt =====
-- What the writes of ps3/list.c leave of a chain, and the last node of one.
use cse.Base.{
  ℕ, suc, ◌≤◌, ◌<◌, ◌≡◌, ◌≢◌, refl, sym, ◌∙◌, true, false, not, ◌&&◌, ltb, some, Option, [], ◌∷◌,
  ◌++◌, length, length-append, All, arith, ◌==◌,
}
use cse.Base.Int.{ℤ}
use cse.Base.Sorted.{All-mono}
use cse.LinkedList.{Ptr, IlNode, Heap, IntList, load, alloc}
use cse.LinkedList.Chain.{
  Cells, last_of, Seg, Apart, Distinct, Allocated, IsList, Frame, update, load-ne_zero,
  load-update_ne, load-alloc_old, last_of-snoc, Seg-split, All-split, Distinct-split_snoc,
}

-- The state of the heap and the list after an operation on the list of `cs`, which is now that of `ds`.
abbrev pub Becomes : Heap → Cells → Cells → Heap × IntList → Type 0
Becomes h cs ds (h', list) = IsList h' list ds × Frame h h' cs

pub update-agree :
    (h : Heap) (p : Ptr) (n : Option IlNode) (cs : Cells)
    → Apart p cs
    → All (λ c. load (update h p n) c.0 ≡ load h c.0) cs
update-agree h p n cs a =
    All-mono (λ c. p ≢ c.0) (λ c. load (update h p n) c.0 ≡ load h c.0) cs
      (λ c ne. load-update_ne h p c.0 n (λ e. ne (sym e))) a

pub alloc-agree :
    (h : Heap) (n : IlNode) (cs : Cells)
    → Allocated h cs
    → All (λ c. load (alloc h n) c.0 ≡ load h c.0) cs
alloc-agree h n cs a =
    All-mono (λ c. c.0 ≤ h.brk) (λ c. load (alloc h n) c.0 ≡ load h c.0) cs
      (λ c le. load-alloc_old h c.0 n le) a

pub Allocated-mono : (h h' : Heap) (cs : Cells) → h.brk ≤ h'.brk → Allocated h cs → Allocated h' cs
Allocated-mono h h' cs grows a =
    All-mono (λ c. c.0 ≤ h.brk) (λ c. c.0 ≤ h'.brk) cs (λ c le. omega arith) a

-- A write to a node of the list stays within the frame, and so does one to a new node.
pub Frame-update :
    {h h' : Heap} {cs : Cells} (p : Ptr) (n : Option IlNode)
    → Frame h h' cs
    → ((q : Ptr) → Apart q cs → q ≢ p)
    → Frame h (update h' p n) cs
Frame-update {h} {h'} p n f inside = record {
  grows = f.grows;
  same = λ q le out. load-update_ne h' p q n (inside q out) ∙ f.same q le out;
}

pub Frame-update_new :
    {h h' : Heap} {cs : Cells} (p : Ptr) (n : Option IlNode)
    → Frame h h' cs
    → h.brk < p
    → Frame h (update h' p n) cs
Frame-update_new {h} {h'} p n f new = record {
  grows = f.grows;
  same = λ q le out. load-update_ne h' p q n (λ e. omega arith) ∙ f.same q le out;
}

pub Frame-alloc : (h : Heap) (n : IlNode) (cs : Cells) → Frame h (alloc h n) cs
unfolding alloc
Frame-alloc h n cs = record { grows = omega arith; same = λ q le out. load-alloc_old h q n le }

pub Frame-self : (h : Heap) (cs : Cells) → Frame h h cs
Frame-self h cs = record { grows = omega arith; same = λ q le out. refl }

pub last_of-ne_zero :
    (h : Heap) (cs : Cells) (c : Ptr × ℤ) (q : Ptr) → Seg h (c ∷ cs) q → last_of cs c.0 ≢ 0
last_of-ne_zero h [] c q s = load-ne_zero h c.0 _ s.0
last_of-ne_zero h (d ∷ cs) c q s = last_of-ne_zero h cs d q s.1

pub test_false : (a b : ℕ) → a ≢ b → (a == b) ≡ false
test_false a b h = ground arith

pub test_true : (a b : ℕ) → a ≡ b → (a == b) ≡ true
test_true a b h = ground arith

-- `list->head && list->len > 0`
pub not_empty : (a n : ℕ) → a ≢ 0 → (not (a == 0) && ltb 0 (suc n)) ≡ true
not_empty a n h = ground arith

-- What the list of `xs` and one more node at the end gives about that node.
unfoldable pub Last : Heap → IntList → Cells → Ptr → ℤ → Type 0
Last h list xs t x =
    (list.tail ≡ t)
    × (list.len ≡ suc (length xs))
    × (load h t ≡ some (record { next = 0; number = x }))
    × Seg h xs t
    × Distinct xs
    × Apart t xs
    × Allocated h xs
    × (t ≤ h.brk)

pub snoc-Last :
    {h : Heap} {list : IntList} (xs : Cells) (t : Ptr) (x : ℤ)
    → IsList h list (xs ++ (t, x) ∷ [])
    → Last h list xs t x
unfolding Last
snoc-Last {h} {list} xs t x v =
    let (s, u) = Seg-split h xs ((t, x) ∷ []) 0 v.seg in
    let (d, a) = Distinct-split_snoc xs (t, x) v.distinct in
    let (b, c) = All-split (λ c. c.0 ≤ h.brk) xs ((t, x) ∷ []) v.allocated in
    (
      v.tail ∙ last_of-snoc xs t 0 x,
      omega (arith, v.len, length-append xs ((t, x) ∷ [])),
      u.0,
      s,
      d,
      a,
      b,
      c.0,
    )

pub Apart-last : (q : Ptr) (xs : Cells) (t : Ptr) (x : ℤ) → Apart q (xs ++ (t, x) ∷ []) → q ≢ t
Apart-last q xs t x out = (All-split (λ c. q ≢ c.0) xs ((t, x) ∷ []) out).1.0
