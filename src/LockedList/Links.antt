-- ===== src/LockedList/Links.antt =====
-- The nodes of lab10/dllist.c in their order: segments of the list, and what a write leaves of them.
use cse.Base.{
  ℕ, zero, suc, ◌<◌, ◌≡◌, ◌≢◌, refl, sym, ap, ◌∙◌, some, List, [], none_ne_some, ◌∷◌, ◌++◌,
  get_elem?, set, length, All, arith, get_elem?-set_ne,
}
use cse.Base.Int.{ℤ}
use cse.Base.Sorted.{All-mono}
use cse.LockedList.{Ptr, DlNode}

-- An address with the value there.
abbrev pub Entry : Type 0
Entry = ℕ × ℤ

-- The nodes from `cur` on, which `p` stands before, up to the node `q`, whose next is `c`.
pub data Seg (nodes : List DlNode) : (p cur : Ptr) → List Entry → (q c : Ptr) → Type 0 where
  end : {p cur : Ptr} → Seg nodes p cur [] p cur
  link :
      {i : ℕ} {v : ℤ} {p c' : Ptr} {xs : List Entry} {q c : Ptr}
      → get_elem? nodes i ≡ some (record { value = v; prv = p; next = c' })
      → Seg nodes (some i) c' xs q c
      → Seg nodes p (some i) ((i, v) ∷ xs) q c

-- No address occurs twice.
abbrev pub Apart : ℕ → List Entry → Type 0
Apart i = All (λ e. i ≢ e.0)

abbrev pub Distinct : List Entry → Type 0
Distinct [] = Unit
Distinct (e ∷ xs) = Apart e.0 xs × Distinct xs

pub Seg-append :
    {nodes : List DlNode} {p cur q c r d : Ptr} {xs ys : List Entry}
    → Seg nodes p cur xs q c
    → Seg nodes q c ys r d
    → Seg nodes p cur (xs ++ ys) r d
Seg-append end t = t
Seg-append (link e s) t = link e (Seg-append s t)

-- Nodes that are as before make the same segment.
pub Seg-keep :
    {nodes nodes' : List DlNode} {p cur q c : Ptr} {xs : List Entry}
    → Seg nodes p cur xs q c
    → All (λ e. get_elem? nodes' e.0 ≡ get_elem? nodes e.0) xs
    → Seg nodes' p cur xs q c
Seg-keep end h = end
Seg-keep (link e s) h = link (h.0 ∙ e) (Seg-keep s h.1)

-- A segment that ends at a node of its own has that node last.
pub data Last (nodes : List DlNode) (p₀ cur : Ptr) (xs : List Entry) (q c : Ptr) : Type 0 where
  empty : xs ≡ [] → p₀ ≡ q → cur ≡ c → Last nodes p₀ cur xs q c
  snoc :
      {xs' : List Entry} {i : ℕ} {u : ℤ} {p : Ptr}
      → xs ≡ xs' ++ (i, u) ∷ []
      → q ≡ some i
      → Seg nodes p₀ cur xs' p (some i)
      → get_elem? nodes i ≡ some (record { value = u; prv = p; next = c })
      → Last nodes p₀ cur xs q c

pub Seg-Last :
    {nodes : List DlNode} {p cur q c : Ptr} {xs : List Entry}
    → Seg nodes p cur xs q c
    → Last nodes p cur xs q c
Seg-Last end = empty refl refl refl
Seg-Last (link {i} {v} {p} {c'} {xs} e s) = elim (Seg-Last s) [
  | empty none_left at next ↦
      snoc {xs' = []} (ap (λ r. (i, v) ∷ r) none_left) (sym at) end
        (e ∙ ap (λ n. some (record { value = v; prv = p; next = n })) next)
  | snoc {xs' = xs'} last at before here ↦
      snoc {xs' = (i, v) ∷ xs'} (ap (λ r. (i, v) ∷ r) last) at (link e before) here
]

pub get_elem?-append_old {ℓ} :
    {A : Type ℓ} (xs ys : List A) (i : ℕ) {a : A}
    → get_elem? xs i ≡ some a
    → get_elem? (xs ++ ys) i ≡ some a
get_elem?-append_old [] ys i e = none_ne_some e
get_elem?-append_old (x ∷ xs) ys zero e = e
get_elem?-append_old (x ∷ xs) ys (suc i) e = get_elem?-append_old xs ys i e

pub get_elem?-lt {ℓ} :
    {A : Type ℓ} (xs : List A) (i : ℕ) {a : A} → get_elem? xs i ≡ some a → i < length xs
get_elem?-lt [] i e = none_ne_some e
get_elem?-lt (x ∷ xs) zero e = omega arith
get_elem?-lt (x ∷ xs) (suc i) e = omega (arith, get_elem?-lt xs i e)

module _ (P : Entry → Type 0) where
  All-parts : (xs ys : List Entry) (e : Entry) → All P (xs ++ e ∷ ys) → P e × All P (xs ++ ys)
  All-parts [] ys e h = h
  All-parts (x ∷ xs) ys e h = let (here, rest) = All-parts xs ys e h.1 in (here, (h.0, rest))

  pub All-insert : (xs ys : List Entry) (e : Entry) → P e → All P (xs ++ ys) → All P (xs ++ e ∷ ys)
  All-insert [] ys e p h = (p, h)
  All-insert (x ∷ xs) ys e p h = (h.0, All-insert xs ys e p h.1)

  pub All-first : (xs ys : List Entry) → All P (xs ++ ys) → All P xs
  All-first [] ys h = tt
  All-first (x ∷ xs) ys h = (h.0, All-first xs ys h.1)

-- An entry among others that are distinct.
pub Distinct-middle :
    (xs ys : List Entry) (e : Entry)
    → Distinct (xs ++ e ∷ ys)
    → Apart e.0 xs × Apart e.0 ys × Distinct (xs ++ ys)
Distinct-middle [] ys e d = (tt, d.0, d.1)
Distinct-middle (x ∷ xs) ys e d =
    let (before, behind, others) = Distinct-middle xs ys e d.1 in
    let (near, far) = All-parts (λ y. x.0 ≢ y.0) xs ys e d.0 in
    (((λ h. near (sym h)), before), behind, (far, others))

pub Distinct-insert :
    (xs ys : List Entry) (e : Entry)
    → Distinct (xs ++ ys)
    → Apart e.0 (xs ++ ys)
    → Distinct (xs ++ e ∷ ys)
Distinct-insert [] ys e d h = (h, d)
Distinct-insert (x ∷ xs) ys e d h =
    (All-insert (λ y. x.0 ≢ y.0) xs ys e (λ k. h.0 (sym k)) d.0, Distinct-insert xs ys e d.1 h.1)

pub Distinct-first : (xs ys : List Entry) → Distinct (xs ++ ys) → Distinct xs
Distinct-first [] ys d = tt
Distinct-first (x ∷ xs) ys d = (All-first (λ y. x.0 ≢ y.0) xs ys d.0, Distinct-first xs ys d.1)

-- All nodes of a segment are allocated, so a new one is apart from them.
pub fresh-Apart :
    {nodes : List DlNode} {p cur q c : Ptr} {xs : List Entry}
    → Seg nodes p cur xs q c
    → Apart (length nodes) xs
fresh-Apart end = tt
fresh-Apart {nodes} (link {i} e s) =
    ((λ h. omega (arith, get_elem?-lt nodes i e, h)), fresh-Apart s)

-- Unchanged where an address is apart.
pub set-Apart :
    (nodes : List DlNode) (i : ℕ) (n : DlNode) (xs : List Entry)
    → Apart i xs
    → All (λ e. get_elem? (set nodes i n) e.0 ≡ get_elem? nodes e.0) xs
set-Apart nodes i n xs h = All-mono _ _ xs (λ e ne. get_elem?-set_ne nodes i e.0 n ne) h

pub Seg-old :
    {nodes : List DlNode} {p cur q c : Ptr} {xs : List Entry} (new : List DlNode)
    → Seg nodes p cur xs q c
    → Seg (nodes ++ new) p cur xs q c
Seg-old new end = end
Seg-old {nodes} new (link {i} e s) = link (get_elem?-append_old nodes new i e) (Seg-old new s)
