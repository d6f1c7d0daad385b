-- ===== src/Union/Examples.antt =====
-- Runs of the variants of lab5/union.c.
use cse.Base.{◌≡◌, refl, some}
use cse.Base.Int.{negsuc}
use cse.Union.{uint, Variant, signed32, comp_uint, compare_union_ascending, fun_ptrs}

abbrev small : Variant
small = record { tag = uint; val = 1 }

abbrev big : Variant
big = record { tag = uint; val = 4000000000 }

ascending : compare_union_ascending big small ≡ some (negsuc 294967296)
unfolding compare_union_ascending fun_ptrs comp_uint signed32
ascending = refl
