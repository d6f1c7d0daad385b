-- ===== src/LockedList/Insert.antt =====
-- The writes of insertSortedList of lab10/dllist.c: the new node stands where the thread has found its
-- place, the links are right in both directions, and no other node gets another next.
use cse.Base.{
  ℕ, ◌≡◌, ◌≢◌, refl, sym, ap, ◌∙◌, subst, inl, inr, none, some, List, [], ◌∷◌, ◌++◌, get_elem?, set,
  length, All, arith, Bool-cases, ◌==◌, ==_iff, get_elem?-set_ne, get_elem?-set_self, none_ne_some,
  Gives, gives, Gives-bind, get_elem?-append_length, append_assoc,
}
use cse.Base.Int.{ℤ}
use cse.Base.Sorted.{All-mono}
use mathlib.Core.Option.{some-injective}
use cse.LockedList.{Ptr, DlNode, DlList, new_node, set_prv, insert_before}
use cse.LockedList.Links.{
  Entry, Seg, end, link, Distinct, empty, snoc, Seg-append, Seg-keep, Seg-Last, Distinct-middle,
  Distinct-first, set-Apart, Seg-old, get_elem?-lt, get_elem?-append_old,
}
use cse.LockedList.Retie.{set_next-Seg}

-- What an insertion with the lock at `at` leaves: the nodes with their values, and their next but for
-- the node at `at`.
pub record Frame (l : DlList) (at : Ptr) (l' : DlList) : Type 0 where
  pub same_next :
      (j : ℕ) (n : DlNode)
      → get_elem? l.nodes j ≡ some n
      → some j ≢ at
      → (n' : DlNode) × (get_elem? l'.nodes j ≡ some n') × (n'.next ≡ n.next)
  pub same_head : at ≢ none → l'.head ≡ l.head

pub Seg-none :
    {nodes : List DlNode} {p q d : Ptr} {ys : List Entry}
    → Seg nodes p none ys q d
    → (ys ≡ []) × (p ≡ q)
Seg-none end = (refl, refl)

pub Seg-some :
    {nodes : List DlNode} {p q : Ptr} {c : ℕ} {ys : List Entry}
    → Seg nodes p (some c) ys q none
    → (w : ℤ) × (c' : Ptr) × (ys' : List Entry) × (ys ≡ (c, w) ∷ ys')
      × (get_elem? nodes c ≡ some (record { value = w; prv = p; next = c' }))
      × Seg nodes (some c) c' ys' q none
Seg-some (link e s) = (_, _, _, refl, e, s)

-- The node that a segment ends with is not one behind it, and not a new one.
ends_apart :
    {nodes : List DlNode} {cur at c : Ptr} (xs ys : List Entry)
    → Seg nodes none cur xs at c
    → Distinct (xs ++ ys)
    → All (λ e. some e.0 ≢ at) ys
ends_apart xs ys s d = elim (Seg-Last s) [
  | empty nothing at next ↦ All-always ys (λ e h. none_ne_some (at ∙ sym h))
  | snoc {xs' = xs'} {i} {u} last at before here ↦
      let parts = subst Distinct (ap (λ r. r ++ ys) last ∙ append_assoc xs' ((i, u) ∷ []) ys) d in
      All-mono _ _ ys (λ e ne h. ne (sym (some-injective _ _ (h ∙ at))))
        (Distinct-middle xs' ys (i, u) parts).1
]
  where
    All-always : {P : Entry → Type 0} (ys : List Entry) → ((e : Entry) → P e) → All P ys
    All-always [] f = tt
    All-always (y ∷ ys) f = (f y, All-always ys f)

fresh_end :
    {nodes : List DlNode} {cur at c : Ptr} {xs : List Entry}
    → Seg nodes none cur xs at c
    → some (length nodes) ≢ at
fresh_end {nodes} s h = elim (Seg-Last s) [
  | empty nothing at next ↦ none_ne_some (at ∙ sym h)
  | snoc {xs' = xs'} {i} {u} last at before here ↦
      let same = some-injective _ _ (h ∙ at) in omega (arith, get_elem?-lt nodes i here, same)
]

-- Behind the insertion at a place between `xs` and `ys` the list has the new entry there.
abbrev pub Grown : DlList → (xs ys : List Entry) → (at : Ptr) → ℤ → DlList → Type 0
Grown l xs ys at v l' =
    Seg l'.nodes none l'.head (xs ++ (length l.nodes, v) ∷ ys) l'.tail none × Frame l at l'

insert_before-end :
    (l : DlList) (xs : List Entry) (v : ℤ)
    → Seg l.nodes none l.head xs l.tail none
    → Distinct xs
    → Gives (Grown l xs [] l.tail v) (insert_before l none v)
unfolding insert_before
insert_before-end l xs v s d =
    let k = length l.nodes in
    let n : DlNode = record { value = v; prv = l.tail; next = none } in
    let l1 = new_node l n in
    Gives-bind (set_next-Seg l1 xs l.tail none (some k) (Seg-old (n ∷ []) s) d) (λ l2 r. gives (
      let new : get_elem? l2.nodes k ≡ some n =
        r.0.others k (fresh_end s) ∙ get_elem?-append_length l.nodes n [] in
      (
        Seg-append r.1 (link new end),
        record {
          same_next =
              λ j m e ne. (m, r.0.others j ne ∙ get_elem?-append_old l.nodes (n ∷ []) j e, refl);
          same_head = r.0.same_head;
        },
      )))

set_prv-next :
    (nodes : List DlNode) (c j : ℕ) (m o : DlNode) (nn : Ptr)
    → get_elem? nodes c ≡ some m
    → get_elem? nodes j ≡ some o
    → (o' : DlNode) × (get_elem? (set nodes c (record m { prv = nn })) j ≡ some o')
      × (o'.next ≡ o.next)
set_prv-next nodes c j m o nn here there = elim (Bool-cases (c == j)) [
  | inl e ↦
      let cj = (==_iff c j).0 e in
      (
        record m { prv = nn },
        ap (get_elem? (set nodes c (record m { prv = nn }))) (sym cj)
            ∙ get_elem?-set_self nodes c _ (get_elem?-lt nodes c here),
        ap (λ n. n.next) (some-injective _ _ (sym here ∙ ap (get_elem? nodes) cj ∙ there)),
      )
  | inr e ↦ (o, get_elem?-set_ne nodes c j _ (λ h. ground arith) ∙ there, refl)
]

insert_before-middle :
    (l : DlList) (xs ys : List Entry) (at : Ptr) (c : ℕ) (v w : ℤ) (c' : Ptr)
    → Seg l.nodes none l.head xs at (some c)
    → get_elem? l.nodes c ≡ some (record { value = w; prv = at; next = c' })
    → Seg l.nodes (some c) c' ys l.tail none
    → Distinct (xs ++ (c, w) ∷ ys)
    → Gives (Grown l xs ((c, w) ∷ ys) at v) (insert_before l (some c) v)
unfolding insert_before set_prv
insert_before-middle l xs ys at c v w c' s here t d =
    let k = length l.nodes in
    let n : DlNode = record { value = v; prv = at; next = some c } in
    let m : DlNode = record { value = w; prv = some k; next = c' } in
    let l1 = new_node l n in
    let (before, behind, others) = Distinct-middle xs ys (c, w) d in
    let ys_apart = ends_apart xs ((c, w) ∷ ys) s d in
    rw here (
      Gives-bind
        (set_next-Seg l1 xs at (some c) (some k) (Seg-old (n ∷ []) s)
          (Distinct-first xs ((c, w) ∷ ys) d))
        (λ l2 r.
          let old : (j : ℕ) (o : DlNode)
              → some j ≢ at
              → get_elem? l.nodes j ≡ some o
              → get_elem? l2.nodes j ≡ some o =
            λ j o ne e. r.0.others j ne ∙ get_elem?-append_old l.nodes (n ∷ []) j e in
          let here2 = old c _ ys_apart.0 here in
          let nodes3 = set l2.nodes c m in
          let c_k : c ≢ k = λ h. omega (arith, get_elem?-lt l.nodes c here, h) in
          let new : get_elem? nodes3 k ≡ some n =
            get_elem?-set_ne l2.nodes c k m c_k
            ∙ r.0.others k (fresh_end s)
            ∙ get_elem?-append_length l.nodes n [] in
          let written = get_elem?-set_self l2.nodes c m (get_elem?-lt l2.nodes c here2) in
          let first = Seg-keep r.1 (set-Apart l2.nodes c m xs before) in
          let rest1 = Seg-old (n ∷ []) t in
          let rest2 =
            Seg-keep {nodes' = l2.nodes} rest1
              (All-mono _ _ ys (λ e ne. r.0.others e.0 ne) ys_apart.1) in
          let rest3 = Seg-keep rest2 (set-Apart l2.nodes c m ys behind) in
          rw here2 (
            gives (
              subst (λ q. Seg nodes3 none l2.head (xs ++ (k, v) ∷ (c, w) ∷ ys) q none)
                  (sym r.0.same_tail) (Seg-append first (link new (link written rest3))),
              record {
                same_next = λ j o e ne. set_prv-next l2.nodes c j _ o (some k) here2 (old j o ne e);
                same_head = r.0.same_head;
              },
            ))))

-- Where a thread has found its place, between the entries `xs` and `ys`, it inserts its value there.
pub insert_before-Grown :
    (l : DlList) (xs ys : List Entry) (at cur : Ptr) (v : ℤ)
    → Seg l.nodes none l.head xs at cur
    → Seg l.nodes at cur ys l.tail none
    → Distinct (xs ++ ys)
    → Gives (Grown l xs ys at v) (insert_before l cur v)
insert_before-Grown l xs ys at none v s t d =
    let (nothing, last) = Seg-none t in
    subst (λ ys. Gives (Grown l xs ys at v) (insert_before l none v)) (sym nothing)
      (subst (λ q. Gives (Grown l xs [] q v) (insert_before l none v)) (sym last)
        (insert_before-end l xs v (subst (λ q. Seg l.nodes none l.head xs q none) last s)
          (Distinct-first xs ys d)))
insert_before-Grown l xs ys at (some c) v s t d =
    let (w, c', ys', e, here, rest) = Seg-some t in
    subst (λ ys. Gives (Grown l xs ys at v) (insert_before l (some c) v)) (sym e)
      (insert_before-middle l xs ys' at c v w c' s here rest
        (subst (λ ys. Distinct (xs ++ ys)) e d))
