-- ===== src/HashMap/Invariant.antt =====
-- What the operations of lab9/hashMap.c keep of a table.
use cse.Base.{
  ℕ, subst, zero, suc, ◌+◌, ◌%◌, ◌^◌, ◌<◌, ◌≡◌, refl, ap, some, List, [], ◌∷◌, arith, All, length,
  get_elem?, set, replicate, length-replicate,
}
use mathlib.Core.Option.{some-injective}
use cse.HashMap.{DlList, HashMap, init_hash_map, init_list}
use cse.HashMap.Bucket.{Ascending}

unfoldable pub total : List DlList → ℕ
total [] = 0
total (l ∷ bs) = length l + total bs

-- What the operations keep: a bucket for each index, ascending keys in each, and the count of all
-- entries, modulo 2 ^ 32.
pub record IsTable (hm : HashMap) : Type 0 where
  pub some_bucket : 0 < hm.num_buckets
  pub every_bucket : length hm.buckets ≡ hm.num_buckets
  pub ascending : All Ascending hm.buckets
  pub counted : hm.num_items ≡ total hm.buckets % 2 ^ 32

pub All-get_elem? :
    (bs : List DlList) (i : ℕ) {l : DlList}
    → All Ascending bs
    → get_elem? bs i ≡ some l
    → Ascending l
All-get_elem? [] i a e = cc
All-get_elem? (b ∷ bs) zero a e = subst Ascending (some-injective _ _ e) a.0
All-get_elem? (b ∷ bs) (suc i) a e = All-get_elem? bs i a.1 e

pub All-set :
    (bs : List DlList) (i : ℕ) (l : DlList)
    → All Ascending bs
    → Ascending l
    → All Ascending (set bs i l)
All-set [] i l a s = tt
All-set (b ∷ bs) zero l a s = (s, a.1)
All-set (b ∷ bs) (suc i) l a s = (a.0, All-set bs i l a.1 s)

pub total-set :
    (bs : List DlList) (i : ℕ) {l : DlList} (l' : DlList)
    → get_elem? bs i ≡ some l
    → total (set bs i l') + length l ≡ total bs + length l'
unfolding total
total-set [] i l' e = cc
total-set (b ∷ bs) zero {l} l' e = omega (arith, ap length (some-injective b l e))
total-set (b ∷ bs) (suc i) l' e = omega (arith, total-set bs i l' e)

pub replicate-empty :
    (n : ℕ) → All Ascending (replicate n init_list) × (total (replicate n init_list) ≡ 0)
unfolding total init_list
replicate-empty zero = (tt, refl)
replicate-empty (suc n) = ((tt, (replicate-empty n).0), omega (arith, (replicate-empty n).1))

-- initHashMap with at least one bucket gives a well-formed table.
pub init_hash_map-IsTable : (nb : ℕ) → 0 < nb → IsTable (init_hash_map nb)
unfolding init_hash_map
init_hash_map-IsTable nb h = record {
  some_bucket = h;
  every_bucket = length-replicate nb init_list;
  ascending = (replicate-empty nb).0;
  counted = omega (arith, (replicate-empty nb).1);
}
