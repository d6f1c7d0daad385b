-- ===== src/HashMap.antt =====
-- The hash map of lab9/hashMap.c over the sorted lists of lab9/dllist.c. A doubly linked list is its
-- nodes from `head` to `tail`; a node is a key with its value. Every operation on a bucket runs
-- under that bucket's mutex, and the count under the table's, so an operation is one step here.
pub mod Bucket
pub mod Invariant
pub mod Table
mod Examples
use Prim.Native.Nat.{Ordering}
use cse.Base.{
  ℕ, zero, suc, ◌+◌, ◌-◌, ◌*◌, ◌%◌, ◌^◌, Bool, true, false, Option, none, some, List, [], ◌∷◌, ltb,
  ◌==◌, if◌then◌else◌, get_elem?, set, replicate, ◌>>=◌, ◌>>◌, assert,
}
use cse.Strcmp.{Text, strcmp}

abbrev pub DlList : Type 0
DlList = List (Text × Text)

unfoldable pub init_list : DlList
init_list = []

-- `clearList` frees every node.
unfoldable pub clear_list : DlList → DlList
clear_list list = []

unfoldable pub get_value : DlList → Text → Option Text
get_value [] key = none
get_value ((k, v) ∷ list) key =
    let rest = get_value list key in
    elim (strcmp k key) [ Ordering.lt ↦ rest | Ordering.eq ↦ some v | Ordering.gt ↦ none ]

-- The list and the `int` that is returned, as a test.
unfoldable pub insert_sorted_list : DlList → (key val : Text) → DlList × Bool
insert_sorted_list [] key val = ((key, val) ∷ [], true)
insert_sorted_list ((k, v) ∷ list) key val =
    let (rest, done) = insert_sorted_list list key val in
    elim (strcmp k key) [
      | Ordering.lt ↦ ((k, v) ∷ rest, done)
      | Ordering.eq ↦ ((k, v) ∷ list, false)
      | Ordering.gt ↦ ((key, val) ∷ (k, v) ∷ list, true)
    ]

-- The node that the walk stops at is unlinked, whatever its key.
unfoldable pub remove_from_list : DlList → Text → DlList × Bool
remove_from_list [] key = ([], false)
remove_from_list ((k, v) ∷ list) key =
    let (rest, done) = remove_from_list list key in
    elim (strcmp k key) [
      | Ordering.lt ↦ ((k, v) ∷ rest, done)
      | Ordering.eq ↦ (list, true)
      | Ordering.gt ↦ (list, true)
    ]

-- `p` and `m` of the hash function.
abbrev pub prime : ℕ
prime = 31

abbrev pub modulus : ℕ
modulus = 1000000009

-- A `char`, widened to 64 bits with its sign, less `'a'`, plus 1.
abbrev letter : ℕ → ℕ
letter c = (if ltb c 128 then c + 2 ^ 64 - 96 else c + 2 ^ 64 - 352) % 2 ^ 64

unfoldable pub hash_loop : Text → (hash_value p_pow : ℕ) → ℕ
hash_loop [] hash_value p_pow = hash_value
hash_loop (c ∷ key) hash_value p_pow =
    hash_loop key ((hash_value + letter c * p_pow) % 2 ^ 64 % modulus) (p_pow * prime % modulus)

unfoldable pub hash : Text → ℕ
unfolding hash_loop
hash key = hash_loop key 0 1

pub record HashMap : Type 0 where
  pub num_buckets : ℕ
  pub num_items : ℕ
  pub buckets : List DlList

unfoldable pub init_hash_map : ℕ → HashMap
unfolding init_list
init_hash_map nb = record { num_buckets = nb; num_items = 0; buckets = replicate nb init_list }

unfoldable pub clear_hash_map : HashMap → HashMap
clear_hash_map hm = record { num_buckets = 0; num_items = 0; buckets = [] }

-- `hash(key) % hm->numBuckets`, which faults in a table of no buckets.
unfoldable pub bucket_index : HashMap → Text → Option ℕ
unfolding hash
bucket_index hm key = if hm.num_buckets == 0 then none else some (hash key % hm.num_buckets)

unfoldable pub insert_hash_map : HashMap → (key value : Text) → Option HashMap
insert_hash_map hm key value = do
  h ← bucket_index hm key
  bkt ← get_elem? hm.buckets h
  let (list, rc) = insert_sorted_list bkt key value
  some (record hm {
    num_items = if rc then (hm.num_items + 1) % 2 ^ 32 else hm.num_items;
    buckets = set hm.buckets h list;
  })

unfoldable pub retrieve_value : HashMap → Text → Option (Option Text)
retrieve_value hm key = do
  h ← bucket_index hm key
  bkt ← get_elem? hm.buckets h
  some (get_value bkt key)

unfoldable pub delete_entry : HashMap → Text → Option HashMap
delete_entry hm key = do
  h ← bucket_index hm key
  bkt ← get_elem? hm.buckets h
  let (list, rc) = remove_from_list bkt key
  some (record hm {
    num_items = if rc then (hm.num_items + 2 ^ 32 - 1) % 2 ^ 32 else hm.num_items;
    buckets = set hm.buckets h list;
  })
