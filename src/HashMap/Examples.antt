-- ===== src/HashMap/Examples.antt =====
-- Runs of the hash map of lab9/hashMap.c.
use cse.Base.{◌≡◌, refl, none, some, [], ◌∷◌, arith, if◌then◌else◌, ◌>>=◌, Gives}
use cse.Strcmp.{Text, strcmp}
use cse.HashMap.{
  HashMap, get_value, hash_loop, hash, bucket_index, insert_hash_map, retrieve_value, delete_entry,
}
use cse.HashMap.Bucket.{or_else, same}
use cse.HashMap.Invariant.{IsTable, total}
use cse.HashMap.Table.{insert_hash_map-retrieve, delete_entry-retrieve}

abbrev ant : Text
ant = b'a' ∷ b'n' ∷ b't' ∷ []

abbrev bee : Text
bee = b'b' ∷ b'e' ∷ b'e' ∷ []

abbrev cat : Text
cat = b'c' ∷ b'a' ∷ b't' ∷ []

abbrev red : Text
red = b'r' ∷ []

-- One bucket with the entries of ant and cat
abbrev two : HashMap
two = record { num_buckets = 1; num_items = 2; buckets = ((ant, red) ∷ (cat, red) ∷ []) ∷ [] }

two-IsTable : IsTable two
unfolding strcmp total
two-IsTable = record {
  some_bucket = omega arith;
  every_bucket = refl;
  ascending = (((refl, tt), (tt, tt)), tt);
  counted = refl;
}

insert_hash_map-retrieve_example :
    Gives
      (λ h.
        IsTable h
        × (retrieve_value h bee ≡ (
            retrieve_value two bee >>= λ old.
            some (if same bee bee then some (or_else old red) else old))))
      (insert_hash_map two bee red)
insert_hash_map-retrieve_example = insert_hash_map-retrieve two bee bee two-IsTable red

ant_there : retrieve_value two ant ≡ some (some red)
unfolding retrieve_value bucket_index hash hash_loop get_value strcmp
ant_there = refl

delete_entry-retrieve_example :
    Gives
      (λ h.
        IsTable h
        × (retrieve_value h cat
            ≡ (retrieve_value two cat >>= λ old. some (if same ant cat then none else old))))
      (delete_entry two ant)
delete_entry-retrieve_example = delete_entry-retrieve two ant cat two-IsTable ant_there
