-- ===== src/HashMap/Table.antt =====
-- The hash map of lab9/hashMap.c as a map from keys to values.
use native.Mathlib.Nat.{mod-lt}
use native.Mathlib.Decide.{ℕ_discrete}
use cse.Base.{
  ℕ, subst, inl, inr, Bool-cases, ◌+◌, ◌-◌, ◌%◌, ◌^◌, ◌<◌, ◌≡◌, refl, ap, sym, ◌∙◌, ◌≢◌, Bool,
  false, Option, none, some, arith, length, get_elem?, set, length-set, get_elem?-of_lt,
  get_elem?-set_self, get_elem?-set_ne, ◌==◌, if◌then◌else◌, ◌>>=◌, Gives, gives,
}
use mathlib.Core.Option.{some-injective}
use cse.Strcmp.{Text}
use cse.HashMap.{
  DlList, HashMap, get_value, insert_sorted_list, remove_from_list, hash, bucket_index,
  insert_hash_map, retrieve_value, delete_entry,
}
use cse.HashMap.Bucket.{
  Ascending, or_else, same, eq_of_same, get_value-insert, get_value-remove, insert-Ascending,
  remove-Ascending, length-insert, length-remove,
}
use cse.HashMap.Invariant.{total, IsTable, All-get_elem?, All-set, total-set}

-- Where a key goes, and what stands there.
record Place (hm : HashMap) (key : Text) : Type 0 where
  index : ℕ
  list : DlList
  located : bucket_index hm key ≡ some index
  below : index < length hm.buckets
  found : get_elem? hm.buckets index ≡ some list
  sorted : Ascending list

place : (hm : HashMap) (key : Text) → IsTable hm → Place hm key
unfolding bucket_index
place hm key t =
    let (l, e) = get_elem?-of_lt hm.buckets (hash key % hm.num_buckets) below in
    record {
      index = hash key % hm.num_buckets;
      list = l;
      located = rw some_bucket;
      below = below;
      found = e;
      sorted = All-get_elem? hm.buckets (hash key % hm.num_buckets) t.ascending e;
    }
  where
    below : hash key % hm.num_buckets < length hm.buckets
    below = omega (arith, mod-lt (hash key) t.some_bucket, t.every_bucket)

    some_bucket : (hm.num_buckets == 0) ≡ false
    some_bucket = ground arith

retrieve-place :
    (hm : HashMap) (j : Text) {i : ℕ} {l : DlList}
    → bucket_index hm j ≡ some i
    → get_elem? hm.buckets i ≡ some l
    → retrieve_value hm j ≡ some (get_value l j)
unfolding retrieve_value
retrieve-place hm j e f = rw (e, f)

-- The table with another list at an index, and another count.
abbrev with_list : HashMap → ℕ → DlList → ℕ → HashMap
with_list hm i l n = record hm { num_items = n; buckets = set hm.buckets i l }

module _ (hm : HashMap) (k j : Text) (t : IsTable hm) where
  abbrev at_k : Place hm k
  at_k = place hm k t

  with_list-IsTable :
      (l : DlList) (n : ℕ)
      → Ascending l
      → n ≡ total (set hm.buckets at_k.index l) % 2 ^ 32
      → IsTable (with_list hm at_k.index l n)
  with_list-IsTable l n s c = record {
    some_bucket = t.some_bucket;
    every_bucket = length-set hm.buckets at_k.index l ∙ t.every_bucket;
    ascending = All-set hm.buckets at_k.index l t.ascending s;
    counted = c;
  }

  -- After a change to the bucket of `k`, the value of `j` is the one in the new list if `j` goes
  -- there too, and else the old one.
  retrieve-with_list :
      (l : DlList) (n : ℕ) (f : Bool → Option Text → Option Text)
      → ((v : Option Text) → f false v ≡ v)
      → get_value l j ≡ f (same k j) (get_value at_k.list j)
      → retrieve_value (with_list hm at_k.index l n) j
        ≡ (retrieve_value hm j >>= λ v. some (f (same k j) v))
  unfolding bucket_index
  retrieve-with_list l n f keep e = elim (ℕ_discrete at_k.index at_j.index) [
    | yes p ↦
        after l (
          subst (λ i. get_elem? (set hm.buckets at_k.index l) i ≡ some l) p
            (get_elem?-set_self hm.buckets at_k.index l at_k.below))
        ∙ ap some (e ∙ ap (λ m. f (same k j) (get_value m j)) (sym (one_list p)))
        ∙ sym before
    | no p ↦
        after at_j.list (get_elem?-set_ne hm.buckets at_k.index at_j.index l p ∙ at_j.found)
        ∙ ap some (
            sym (keep (get_value at_j.list j))
            ∙ ap (λ b. f b (get_value at_j.list j)) (sym (apart p)))
        ∙ sym before
  ]
    where
      at_j : Place hm j
      at_j = place hm j t

      after :
          (m : DlList)
          → get_elem? (set hm.buckets at_k.index l) at_j.index ≡ some m
          → retrieve_value (with_list hm at_k.index l n) j ≡ some (get_value m j)
      after m = retrieve-place (with_list hm at_k.index l n) j at_j.located

      before :
          (retrieve_value hm j >>= λ v. some (f (same k j) v))
          ≡ some (f (same k j) (get_value at_j.list j))
      before = rw (retrieve-place hm j at_j.located at_j.found)

      one_list : at_k.index ≡ at_j.index → at_j.list ≡ at_k.list
      one_list p =
          some-injective at_j.list at_k.list
            (sym at_j.found ∙ ap (get_elem? hm.buckets) (sym p) ∙ at_k.found)

      one_index : k ≡ j → at_k.index ≡ at_j.index
      one_index p =
          some-injective at_k.index at_j.index
            (sym at_k.located ∙ ap (bucket_index hm) p ∙ at_j.located)

      apart : at_k.index ≢ at_j.index → same k j ≡ false
      apart p = elim (Bool-cases (same k j)) [
        | inl e ↦ absurd (p (one_index (eq_of_same k j e)))
        | inr e ↦ e
      ]

  -- insertHashMap does not fault, keeps the table well formed, gives a new key its value, leaves the
  -- value of a key that is there, and changes no other key.
  pub insert_hash_map-retrieve :
      (v : Text)
      → Gives
          (λ h.
            IsTable h
            × (retrieve_value h j ≡ (
                retrieve_value hm j >>= λ old.
                some (if same k j then some (or_else old v) else old))))
          (insert_hash_map hm k v)
  unfolding insert_hash_map
  insert_hash_map-retrieve v =
      rw (at_k.located, at_k.found)
        (gives (
          with_list-IsTable list _ (insert-Ascending at_k.list k v at_k.sorted) count,
          retrieve-with_list list _ (λ b old. if b then some (or_else old v) else old) (λ w. refl)
              (get_value-insert at_k.list k v j),
        ))
    where
      list : DlList
      list = (insert_sorted_list at_k.list k v).0

      count :
          (if (insert_sorted_list at_k.list k v).1
            then (hm.num_items + 1) % 2 ^ 32
            else hm.num_items)
          ≡ total (set hm.buckets at_k.index list) % 2 ^ 32
      count = ground (
        arith,
        t.counted,
        total-set hm.buckets at_k.index list at_k.found,
        length-insert at_k.list k v,
      )

  -- deleteEntry of a key that is there does not fault, keeps the table well formed, takes that key
  -- away and changes no other key.
  pub delete_entry-retrieve :
      {v : Text}
      → retrieve_value hm k ≡ some (some v)
      → Gives
          (λ h.
            IsTable h
            × (retrieve_value h j
                ≡ (retrieve_value hm j >>= λ old. some (if same k j then none else old))))
          (delete_entry hm k)
  unfolding delete_entry
  delete_entry-retrieve {v} e =
      rw (at_k.located, at_k.found)
        (gives (
          with_list-IsTable list _ (remove-Ascending at_k.list k at_k.sorted) count,
          retrieve-with_list list _ (λ b old. if b then none else old) (λ w. refl)
              (get_value-remove at_k.list k j at_k.sorted there),
        ))
    where
      list : DlList
      list = (remove_from_list at_k.list k).0

      count :
          (if (remove_from_list at_k.list k).1
            then (hm.num_items + 2 ^ 32 - 1) % 2 ^ 32
            else hm.num_items)
          ≡ total (set hm.buckets at_k.index list) % 2 ^ 32
      count = ground (
        arith,
        t.counted,
        total-set hm.buckets at_k.index list at_k.found,
        length-remove at_k.list k,
      )

      there : get_value at_k.list k ≡ some v
      there =
          some-injective (get_value at_k.list k) (some v)
            (sym (retrieve-place hm k at_k.located at_k.found) ∙ e)
