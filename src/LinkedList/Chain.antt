-- ===== src/LinkedList/Chain.antt =====
-- The chains of nodes that the lists of ps3/list.c are made of, and what a write leaves of them.
use cse.Base.{
  ℕ, zero, suc, ◌≤◌, ◌≡◌, ◌≢◌, refl, sym, ap, ◌∙◌, ◌⊎◌, inl, inr, false, none, some, Option, List,
  [], ◌∷◌, ◌++◌, map, length, All, All-append, arith, ◌==◌, ==_self,
}
use cse.Base.Int.{ℤ}
use cse.Base.Sorted.{All-mono, All-zip}
use cse.LinkedList.{Ptr, IlNode, Heap, IntList, load, store, alloc, free, put}

-- An address and the number there.
abbrev pub Cells : Type 0
Cells = List (Ptr × ℤ)

abbrev pub start : Cells → Ptr → Ptr
start [] q = q
start ((a, x) ∷ cs) q = a

abbrev pub last_of : Cells → Ptr → Ptr
last_of [] q = q
last_of ((a, x) ∷ cs) q = last_of cs a

-- The nodes of `cs` are in the heap, each with the address of the next, the last one with `q`.
abbrev pub Seg : Heap → Cells → Ptr → Type 0
Seg h [] q = Unit
Seg h ((a, x) ∷ cs) q = (load h a ≡ some (record { next = start cs q; number = x })) × Seg h cs q

abbrev pub Apart : Ptr → Cells → Type 0
Apart a cs = All (λ c. a ≢ c.0) cs

abbrev pub Distinct : Cells → Type 0
Distinct [] = Unit
Distinct (c ∷ cs) = Apart c.0 cs × Distinct cs

abbrev pub Allocated : Heap → Cells → Type 0
Allocated h cs = All (λ c. c.0 ≤ h.brk) cs

abbrev pub Disjoint : Cells → Cells → Type 0
Disjoint cs ds = All (λ c. Apart c.0 ds) cs

-- `list` is the list of the nodes `cs`.
pub record IsList (h : Heap) (list : IntList) (cs : Cells) : Type 0 where
  pub head : list.head ≡ start cs 0
  pub tail : list.tail ≡ last_of cs 0
  pub len : list.len ≡ length cs
  pub seg : Seg h cs 0
  pub distinct : Distinct cs
  pub allocated : Allocated h cs

-- Nothing but the nodes of `cs` and new ones was written to.
pub record Frame (h h' : Heap) (cs : Cells) : Type 0 where
  pub grows : h.brk ≤ h'.brk
  pub same : (q : Ptr) → q ≤ h.brk → Apart q cs → load h' q ≡ load h q

abbrev pub values : Cells → List ℤ
values cs = map (λ c. c.1) cs

-- Loads after a write.

abbrev pub update : Heap → Ptr → Option IlNode → Heap
update h p n = record h { node = put h.node p n }

ne→== : (a b : ℕ) → a ≢ b → (a == b) ≡ false
ne→== a b h = ground arith

pub load-ne_zero : (h : Heap) (p : Ptr) (n : IlNode) → load h p ≡ some n → p ≢ 0
unfolding load
load-ne_zero h zero n e = elim (some_none n e) [ ]
  where
    some_none : (n : IlNode) → none ≡ some n → ⊥
    some_none n e = cc
load-ne_zero h (suc p) n e = λ z. omega arith

pub load-update_ne :
    (h : Heap) (p q : Ptr) (n : Option IlNode) → q ≢ p → load (update h p n) q ≡ load h q
unfolding load
load-update_ne h p zero n ne = refl
load-update_ne h p (suc q) n ne = rw (ne→== (suc q) p ne) refl

pub load-update_self : (h : Heap) (p : Ptr) (n : Option IlNode) → p ≢ 0 → load (update h p n) p ≡ n
unfolding load
load-update_self h zero n ne = absurd (ne refl)
load-update_self h (suc p) n ne = rw (==_self (suc p)) refl

pub load-alloc_old : (h : Heap) (q : Ptr) (n : IlNode) → q ≤ h.brk → load (alloc h n) q ≡ load h q
unfolding load alloc
load-alloc_old h zero n le = refl
load-alloc_old h (suc q) n le = rw (ne→== (suc q) (suc h.brk) (λ e. omega arith)) refl

pub load-alloc_new : (h : Heap) (n : IlNode) → load (alloc h n) (suc h.brk) ≡ some n
unfolding load alloc
load-alloc_new h n = rw (==_self (suc h.brk)) refl

pub store-some :
    (h : Heap) (p : Ptr) (n m : IlNode)
    → load h p ≡ some m
    → store h p n ≡ some (update h p (some n))
unfolding store
store-some h p n m e = rw e refl

pub free-some :
    (h : Heap) (p : Ptr) (m : IlNode) → load h p ≡ some m → free h p ≡ some (update h p none)
unfolding free
free-some h p m e = rw e refl

-- Chains that are joined.

pub start-append : (xs ys : Cells) (q : Ptr) → start (xs ++ ys) q ≡ start xs (start ys q)
start-append [] ys q = refl
start-append (c ∷ xs) ys q = refl

pub last_of-snoc : (xs : Cells) (a q : Ptr) (x : ℤ) → last_of (xs ++ (a, x) ∷ []) q ≡ a
last_of-snoc [] a q x = refl
last_of-snoc (c ∷ xs) a q x = last_of-snoc xs a c.0 x

pub Seg-join :
    (h : Heap) (xs ys : Cells) (q : Ptr) → Seg h xs (start ys q) → Seg h ys q → Seg h (xs ++ ys) q
Seg-join h [] ys q s t = t
Seg-join h ((a, x) ∷ xs) ys q s t = (
  s.0 ∙ ap (λ n. some (record { next = n; number = x })) (sym (start-append xs ys q)),
  Seg-join h xs ys q s.1 t,
)

pub Seg-split :
    (h : Heap) (xs ys : Cells) (q : Ptr) → Seg h (xs ++ ys) q → Seg h xs (start ys q) × Seg h ys q
Seg-split h [] ys q s = (tt, s)
Seg-split h ((a, x) ∷ xs) ys q s =
    let (t, u) = Seg-split h xs ys q s.1 in
    ((s.0 ∙ ap (λ n. some (record { next = n; number = x })) (start-append xs ys q), t), u)

pub Seg-agree :
    (h h' : Heap) (cs : Cells) (q : Ptr)
    → All (λ c. load h' c.0 ≡ load h c.0) cs
    → Seg h cs q
    → Seg h' cs q
Seg-agree h h' [] q same s = tt
Seg-agree h h' (c ∷ cs) q same s = (same.0 ∙ s.0, Seg-agree h h' cs q same.1 s.1)

pub All-split : (P : Ptr × ℤ → Type 0) (xs ys : Cells) → All P (xs ++ ys) → All P xs × All P ys
All-split P [] ys h = (tt, h)
All-split P (x ∷ xs) ys h = let (a, b) = All-split P xs ys h.1 in ((h.0, a), b)

pub Distinct-split_snoc :
    (xs : Cells) (c : Ptr × ℤ) → Distinct (xs ++ c ∷ []) → Distinct xs × Apart c.0 xs
Distinct-split_snoc [] c d = (tt, tt)
Distinct-split_snoc (x ∷ xs) c d =
    let (e, a) = Distinct-split_snoc xs c d.1 in
    let (b, f) = All-split (λ y. x.0 ≢ y.0) xs (c ∷ []) d.0 in ((b, e), (λ z. f.0 (sym z), a))

pub Distinct-snoc :
    (xs : Cells) (c : Ptr × ℤ) → Distinct xs → Apart c.0 xs → Distinct (xs ++ c ∷ [])
Distinct-snoc [] c d a = (tt, tt)
Distinct-snoc (x ∷ xs) c d a =
    (All-append (λ y. x.0 ≢ y.0) xs (c ∷ []) d.0 (λ z. a.0 (sym z), tt), Distinct-snoc xs c d.1 a.1)

pub values-snoc : (cs : Cells) (t : Ptr) (x : ℤ) → values (cs ++ (t, x) ∷ []) ≡ values cs ++ x ∷ []
values-snoc [] t x = refl
values-snoc (c ∷ cs) t x = ap (λ r. c.1 ∷ r) (values-snoc cs t x)

pub rsplit : (cs : Cells) → (cs ≡ []) ⊎ ((xs : Cells) × (c : Ptr × ℤ) × (cs ≡ xs ++ c ∷ []))
rsplit [] = inl refl
rsplit (c ∷ cs) = elim (rsplit cs) [
  | inl e ↦ inr ([], c, ap (λ r. c ∷ r) e)
  | inr (xs, d, e) ↦ inr (c ∷ xs, d, ap (λ r. c ∷ r) e)
]

-- An address that is not given out yet is in no chain.
pub Apart-new : (h : Heap) (cs : Cells) → Allocated h cs → Apart (suc h.brk) cs
Apart-new h cs a = All-mono (λ c. c.0 ≤ h.brk) (λ c. suc h.brk ≢ c.0) cs (λ c le e. omega arith) a

-- A chain that an operation on others leaves alone.
pub IsList-Frame :
    {h h' : Heap} {list : IntList} {cs ds : Cells}
    → IsList h list cs
    → Frame h h' ds
    → Disjoint cs ds
    → IsList h' list cs
IsList-Frame {h} {h'} {list} {cs} {ds} v f d = record {
  head = v.head;
  tail = v.tail;
  len = v.len;
  seg =
      Seg-agree h h' cs 0
        (All-mono (λ c. (c.0 ≤ h.brk) × Apart c.0 ds) (λ c. load h' c.0 ≡ load h c.0) cs
          (λ c p. f.same c.0 p.0 p.1)
          (All-zip (λ c. c.0 ≤ h.brk) (λ c. Apart c.0 ds) cs v.allocated d))
        v.seg;
  distinct = v.distinct;
  allocated =
      All-mono (λ c. c.0 ≤ h.brk) (λ c. c.0 ≤ h'.brk) cs (λ c le. omega (arith, f.grows))
        v.allocated;
}
