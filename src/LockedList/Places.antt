-- ===== src/LockedList/Places.antt =====
-- Where the threads of lab10/dllist.c are in the list: the order of the values, and the two parts of the
-- list at the place of a thread.
use cse.Base.{
  ℕ, ◌≡◌, refl, sym, ap, ◌∙◌, subst, inl, inr, none, some, List, [], ◌∷◌, ◌++◌, get_elem?, All,
  append_assoc, All-append,
}
use cse.Base.Int.{ℤ, ◌≤ℤ◌, int_laws}
use cse.Base.Sorted.{All-mono}
use mathlib.Core.Option.{some-injective}
use mathlib.Core.List.{Memᴰ}
use mathlib.Core.List.Memᴰ
use cse.LockedList.{Ptr, DlNode, DlList, Phase, entering, looking, returned}
use cse.LockedList.Links.{Entry, Seg, end, link, Distinct, Seg-append}

-- The values in order.
abbrev pub Ascending : List Entry → Type 0
Ascending [] = Unit
Ascending (x ∷ xs) = All (λ y. x.1 ≤ℤ y.1) xs × Ascending xs

-- The list in the memory has these entries.
pub record Linked (l : DlList) (zs : List Entry) : Type 0 where
  pub seg : Seg l.nodes none l.head zs l.tail none
  pub distinct : Distinct zs
  pub ascending : Ascending zs

-- Where a thread with the value `v` may be: `cur` is the next of the node whose lock it has, and no
-- value up to that node is above `v`.
abbrev pub Placed : DlList → List Entry → ℤ → Phase → Type 0
Placed l zs v entering = Unit
Placed l zs v (looking none cur) = l.head ≡ cur
Placed l zs v (looking (some p) cur) =
    (u : ℤ) × (n : DlNode) × Memᴰ (p, u) zs
    × (u ≤ℤ v)
    × (get_elem? l.nodes p ≡ some n)
    × (n.next ≡ cur)
Placed l zs v returned = Unit

-- The same, as a place between two parts of the list.
pub record Between (l : DlList) (zs : List Entry) (v : ℤ) (at cur : Ptr) : Type 0 where
  pub xs : List Entry
  pub ys : List Entry
  pub parts : zs ≡ xs ++ ys
  pub before : Seg l.nodes none l.head xs at cur
  pub behind : Seg l.nodes at cur ys l.tail none
  pub below : All (λ e. e.1 ≤ℤ v) xs

pub Memᴰ-split :
    {e : Entry} {zs : List Entry}
    → Memᴰ e zs
    → (xs : List Entry) × (ys : List Entry) × (zs ≡ xs ++ e ∷ ys)
Memᴰ-split (Memᴰ.head {xs = ys} h) = ([], ys, ap (λ x. x ∷ ys) (sym h))
Memᴰ-split (Memᴰ.tail {x = x} m) = let (xs, ys, h) = Memᴰ-split m in (x ∷ xs, ys, ap (λ r. x ∷ r) h)

pub Memᴰ-insert :
    {e : Entry} (xs ys : List Entry) (new : Entry) → Memᴰ e (xs ++ ys) → Memᴰ e (xs ++ new ∷ ys)
Memᴰ-insert xs ys new m = elim (Memᴰ.append_cases xs m) [
  | inl before ↦ Memᴰ.append_left (new ∷ ys) before
  | inr behind ↦ Memᴰ.append_right xs (Memᴰ.tail behind)
]

pub Seg-split :
    {nodes : List DlNode} {p cur r d : Ptr} (xs ys : List Entry)
    → Seg nodes p cur (xs ++ ys) r d
    → (q : Ptr) × (c : Ptr) × Seg nodes p cur xs q c × Seg nodes q c ys r d
Seg-split [] ys s = (_, _, end, s)
Seg-split (x ∷ xs) ys (link e s) =
    let (q, c, first, rest) = Seg-split xs ys s in (q, c, link e first, rest)

pub Seg-head :
    {nodes : List DlNode} {q c r d : Ptr} {p : ℕ} {u : ℤ} {ys : List Entry}
    → Seg nodes q c ((p, u) ∷ ys) r d
    → (c' : Ptr) × (c ≡ some p)
      × (get_elem? nodes p ≡ some (record { value = u; prv = q; next = c' }))
      × Seg nodes (some p) c' ys r d
Seg-head (link e s) = (_, refl, e, s)

pub Ascending-before :
    (xs ys : List Entry) (e : Entry) → Ascending (xs ++ e ∷ ys) → All (λ x. x.1 ≤ℤ e.1) xs
Ascending-before [] ys e a = tt
Ascending-before (x ∷ xs) ys e a = (All-here x xs ys e a.0, Ascending-before xs ys e a.1)
  where
    All-here :
        (x : Entry) (xs ys : List Entry) (e : Entry)
        → All (λ y. x.1 ≤ℤ y.1) (xs ++ e ∷ ys)
        → x.1 ≤ℤ e.1
    All-here x [] ys e h = h.0
    All-here x (y ∷ xs) ys e h = All-here x xs ys e h.1

-- A thread that is placed has found the parts.
pub Placed-Between :
    (l : DlList) (zs : List Entry) (v : ℤ) (at cur : Ptr)
    → Linked l zs
    → Placed l zs v (looking at cur)
    → Between l zs v at cur
Placed-Between l zs v none cur i g = record {
  xs = [];
  ys = zs;
  parts = refl;
  before = subst (λ c. Seg l.nodes none l.head [] none c) g end;
  behind = subst (λ c. Seg l.nodes none c zs l.tail none) g i.seg;
  below = tt;
}
Placed-Between l zs v (some p) cur i (u, n, m, le, at_p, next) =
    let (xs, ys, e) = Memᴰ-split m in
    let (q, c, first, rest) =
      Seg-split xs ((p, u) ∷ ys) (subst (λ zs. Seg l.nodes none l.head zs l.tail none) e i.seg) in
    let (c', f, here, behind) = Seg-head rest in
    let to_cur : c' ≡ cur = ap (λ n. n.next) (some-injective _ _ (sym here ∙ at_p)) ∙ next in
    record {
      xs = xs ++ (p, u) ∷ [];
      ys = ys;
      parts = e ∙ sym (append_assoc xs ((p, u) ∷ []) ys);
      before = Seg-append first (
          subst (λ c. Seg l.nodes q c ((p, u) ∷ []) (some p) cur) (sym f)
            (link here (subst (λ c. Seg l.nodes (some p) c' [] (some p) c) to_cur end)));
      behind = subst (λ c. Seg l.nodes (some p) c ys l.tail none) to_cur behind;
      below =
          All-append (λ e. e.1 ≤ℤ v) xs ((p, u) ∷ [])
            (All-mono _ _ xs (λ e h. omega int_laws)
              (Ascending-before xs ys (p, u) (subst Ascending e i.ascending)))
            (le, tt);
    }
