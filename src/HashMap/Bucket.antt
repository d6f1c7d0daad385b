-- ===== src/HashMap/Bucket.antt =====
-- The sorted lists of lab9/dllist.c: lookup, insertion and removal.
use Prim.Native.Nat.{Ordering}
use cse.Base.{
  ℕ, ◌+◌, length, inl, inr, Bool-cases, if◌then◌else◌, ◌≡◌, refl, ◌≢◌, Bool, true, false, Option,
  none, some, [], ◌∷◌, ◌++◌, arith, All,
}
use cse.Strcmp.{Text, strcmp, strcmp_self, eq_of_strcmp, strcmp-flip, strcmp_trans}
use cse.HashMap.{DlList, get_value, insert_sorted_list, remove_from_list}

abbrev pub Above : Text → DlList → Type 0
Above k list = All (λ n. strcmp k n.0 ≡ Ordering.lt) list

-- The keys ascend strictly, from `head` to `tail`.
abbrev pub Ascending : DlList → Type 0
Ascending [] = Unit
Ascending ((k, v) ∷ list) = Above k list × Ascending list

abbrev pub or_else : Option Text → Text → Text
or_else none v = v
or_else (some u) v = u

abbrev pub is_none : Option Text → Bool
is_none none = true
is_none (some u) = false

-- Behind a greater key there is nothing to find.
get_value-Above : (l : DlList) (k : Text) → Above k l → get_value l k ≡ none
unfolding get_value
get_value-Above [] k h = refl
get_value-Above ((j, v) ∷ l) k h = ground (arith, strcmp-flip k j)

pub get_value-insert_self :
    (l : DlList) (k v : Text)
    → get_value (insert_sorted_list l k v).0 k ≡ some (or_else (get_value l k) v)
unfolding get_value insert_sorted_list
get_value-insert_self [] k v = ground (arith, strcmp_self k)
get_value-insert_self ((j, w) ∷ l) k v = ground (arith, strcmp_self k, get_value-insert_self l k v)

pub get_value-insert_ne :
    (l : DlList) (k v j : Text)
    → strcmp k j ≢ Ordering.eq
    → get_value (insert_sorted_list l k v).0 j ≡ get_value l j
unfolding get_value insert_sorted_list
get_value-insert_ne [] k v j h = ground arith
get_value-insert_ne ((a, w) ∷ l) k v j h = ground (
  arith,
  get_value-insert_ne l k v j h,
  strcmp-flip k a,
  strcmp-flip k j,
  strcmp-flip j a,
  strcmp_trans j k a,
)

pub insert-none : (l : DlList) (k v : Text) → (insert_sorted_list l k v).1 ≡ is_none (get_value l k)
unfolding get_value insert_sorted_list
insert-none [] k v = refl
insert-none ((a, w) ∷ l) k v = ground (arith, insert-none l k v)

Above-trans : (j k : Text) (l : DlList) → strcmp j k ≡ Ordering.lt → Above k l → Above j l
Above-trans j k [] h a = tt
Above-trans j k ((i, v) ∷ l) h a = (strcmp_trans j k i h a.0, Above-trans j k l h a.1)

Above-insert :
    (j k v : Text) (l : DlList)
    → strcmp j k ≡ Ordering.lt
    → Above j l
    → Above j (insert_sorted_list l k v).0
unfolding insert_sorted_list
Above-insert j k v [] h a = (h, tt)
Above-insert j k v ((i, w) ∷ l) h a = ground (arith, Above-insert j k v l)

pub insert-Ascending :
    (l : DlList) (k v : Text) → Ascending l → Ascending (insert_sorted_list l k v).0
unfolding insert_sorted_list
insert-Ascending [] k v s = (tt, tt)
insert-Ascending ((a, w) ∷ l) k v s =
    ground (arith, insert-Ascending l k v, Above-insert a k v l, strcmp-flip a k, Above-trans k a l)

Above-remove : (j k : Text) (l : DlList) → Above j l → Above j (remove_from_list l k).0
unfolding remove_from_list
Above-remove j k [] a = tt
Above-remove j k ((i, w) ∷ l) a = ground (arith, Above-remove j k l)

pub remove-Ascending : (l : DlList) (k : Text) → Ascending l → Ascending (remove_from_list l k).0
unfolding remove_from_list
remove-Ascending [] k s = tt
remove-Ascending ((a, w) ∷ l) k s = ground (arith, remove-Ascending l k, Above-remove a k l)

-- Removing a key that is there takes it away, and no other.
pub get_value-remove_self :
    (l : DlList) (k : Text) {v : Text}
    → Ascending l
    → get_value l k ≡ some v
    → (get_value (remove_from_list l k).0 k ≡ none) × ((remove_from_list l k).1 ≡ true)
unfolding get_value remove_from_list
get_value-remove_self [] k s h = cc
get_value-remove_self ((a, w) ∷ l) k {v} s h = ground (
  arith,
  get_value-remove_self l k {v = v} s.1,
  get_value-Above l k,
  Above-trans k a l,
  eq_of_strcmp a k,
)

pub get_value-remove_ne :
    (l : DlList) (k j : Text) {v : Text}
    → Ascending l
    → get_value l k ≡ some v
    → strcmp k j ≢ Ordering.eq
    → get_value (remove_from_list l k).0 j ≡ get_value l j
unfolding get_value remove_from_list
get_value-remove_ne [] k j s h ne = cc
get_value-remove_ne ((a, w) ∷ l) k j {v} s h ne = ground (
  arith,
  get_value-remove_ne l k j {v = v} s.1,
  eq_of_strcmp a k,
  get_value-Above l j,
  Above-trans j a l,
  strcmp-flip a j,
  strcmp-flip k j,
)

-- removeFromList of a key that is not in the list, where some key is greater: it removes the least
-- greater key, and says that it removed something.
pub remove_from_list-absent :
    (l r : DlList) (k j v : Text)
    → All (λ n. strcmp n.0 k ≡ Ordering.lt) l
    → strcmp k j ≡ Ordering.lt
    → remove_from_list (l ++ (j, v) ∷ r) k ≡ (l ++ r, true)
unfolding remove_from_list
remove_from_list-absent [] r k j v b h = ground (arith, strcmp-flip k j)
remove_from_list-absent ((a, w) ∷ l) r k j v b h =
    ground (arith, remove_from_list-absent l r k j v b.1 h)

abbrev pub bit : Bool → ℕ
bit true = 1
bit false = 0

pub length-insert :
    (l : DlList) (k v : Text)
    → length (insert_sorted_list l k v).0 ≡ length l + bit (insert_sorted_list l k v).1
unfolding insert_sorted_list
length-insert [] k v = refl
length-insert ((a, w) ∷ l) k v = ground (arith, length-insert l k v)

pub length-remove :
    (l : DlList) (k : Text)
    → length (remove_from_list l k).0 + bit (remove_from_list l k).1 ≡ length l
unfolding remove_from_list
length-remove [] k = refl
length-remove ((a, w) ∷ l) k = ground (arith, length-remove l k)

-- `strcmp(k, j) == 0`
abbrev pub same : Text → Text → Bool
same k j = elim (strcmp k j) [ Ordering.eq ↦ true | Ordering.lt ↦ false | Ordering.gt ↦ false ]

pub eq_of_same : (k j : Text) → same k j ≡ true → k ≡ j
eq_of_same k j h = eq_of_strcmp k j (ground arith)

-- A key that is in the list keeps its value; a new one gets the given value; no other key changes.
pub get_value-insert :
    (l : DlList) (k v j : Text)
    → get_value (insert_sorted_list l k v).0 j
      ≡ (if same k j then some (or_else (get_value l j) v) else get_value l j)
get_value-insert l k v j = elim (Bool-cases (same k j)) [
  | inl e ↦ rw (e, ← eq_of_same k j e) (get_value-insert_self l k v)
  | inr e ↦ rw e (get_value-insert_ne l k v j (λ h. ground arith))
]

-- A key that is in the list goes; no other key changes.
pub get_value-remove :
    (l : DlList) (k j : Text) {v : Text}
    → Ascending l
    → get_value l k ≡ some v
    → get_value (remove_from_list l k).0 j ≡ (if same k j then none else get_value l j)
get_value-remove l k j s h = elim (Bool-cases (same k j)) [
  | inl e ↦ rw (e, ← eq_of_same k j e) (get_value-remove_self l k s h).0
  | inr e ↦ rw e (get_value-remove_ne l k j s h (λ g. ground arith))
]
