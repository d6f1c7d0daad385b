-- ===== src/Union.antt =====
-- The tagged unions of lab5/union.c. A value of the union is its four bytes, the number below 2 ^ 32
-- that they make with the lowest byte first; `none` is an `exit`, a failed `assert`, a signed
-- overflow, or a call through a pointer outside the table.
mod Orders
mod Examples
use cse.Base.{
  ℕ, zero, suc, ◌+◌, ◌-◌, ◌*◌, ◌/◌, ◌%◌, ◌^◌, Option, none, some, ltb, ◌==◌, if◌then◌else◌, ◌>>=◌,
  ◌>>◌, assert,
}
use cse.Base.Int.{ℤ, pos, negsuc, sub_ℕ, pos_part, neg_part, ◌-ℤ◌}

-- CH, UINT and INT; any other number can stand in `tag` too.
abbrev pub ch : ℕ
ch = 0

abbrev pub uint : ℕ
uint = 1

abbrev pub int : ℕ
int = 2

pub record Variant : Type 0 where
  pub tag : ℕ
  pub val : ℕ

-- The `char` and the `int` with the given bit pattern.
unfoldable pub signed8 : ℕ → ℤ
signed8 x = if ltb x 128 then pos x else negsuc (255 - x)

unfoldable pub signed32 : ℕ → ℤ
signed32 x = if ltb x (2 ^ 31) then pos x else negsuc (2 ^ 32 - 1 - x)

-- `value` is the pattern behind the pointer: a byte for CH, four bytes else. UINT runs on into INT,
-- which stores the same four bytes again.
unfoldable pub set_union : Variant → (d_type value : ℕ) → Variant
set_union u d_type value =
    if d_type == ch
    then record { tag = d_type; val = u.val / 256 * 256 + value % 256 }
    else (if d_type == uint
        then record { tag = d_type; val = value }
        else (if d_type == int
            then record { tag = d_type; val = value }
            else record { tag = d_type; val = u.val }))

-- What the pointer of `getUnion` leads to, at the type of the tag.
pub data Value : Type 0 where
  char_value : ℤ → Value
  uint_value : ℕ → Value
  int_value : ℤ → Value

unfoldable pub get_union : Variant → Option Value
unfolding signed8 signed32
get_union u =
    if u.tag == ch
    then some (char_value (signed8 (u.val % 256)))
    else (if u.tag == uint
        then some (uint_value u.val)
        else (if u.tag == int then some (int_value (signed32 u.val)) else none))

-- `abs` of the C library, undefined at INT_MIN.
abbrev pub abs_int : ℕ → Option ℕ
abs_int x = if x == 2 ^ 31 then none else some (if ltb x (2 ^ 31) then x else 2 ^ 32 - x)

unfoldable pub comp_ch : Variant → Variant → Option ℤ
comp_ch u v = some (signed8 (u.val % 256) -ℤ signed8 (v.val % 256))

-- The difference of two `unsigned int`s, as an `int`.
unfoldable pub comp_uint : Variant → Variant → Option ℤ
comp_uint u v = some (signed32 ((u.val + 2 ^ 32 - v.val) % 2 ^ 32))

unfoldable pub comp_int : Variant → Variant → Option ℤ
comp_int u v = do a ← abs_int u.val; b ← abs_int v.val; some (sub_ℕ a b)

unfoldable pub comp_union : Variant → Variant → Option ℤ
unfolding comp_ch comp_uint comp_int
comp_union u v = do
  assert (u.tag == v.tag)
  if u.tag == ch
      then some (signed8 (u.val % 256) -ℤ signed8 (v.val % 256))
      else (if u.tag == uint
          then some (signed32 ((u.val + 2 ^ 32 - v.val) % 2 ^ 32))
          else (if u.tag == int
              then (do a ← abs_int u.val; b ← abs_int v.val; some (sub_ℕ a b))
              else none))

-- `fun_ptrs[CH] = compCH; fun_ptrs[UINT] = compUINT; fun_ptrs[INT] = compINT;`
unfoldable pub fun_ptrs : ℕ → Variant → Variant → Option ℤ
unfolding comp_ch comp_uint comp_int
fun_ptrs tag u v =
    if tag == ch
    then comp_ch u v
    else (if tag == uint then comp_uint u v else (if tag == int then comp_int u v else none))

unfoldable pub compare_union_ascending : Variant → Variant → Option ℤ
unfolding fun_ptrs
compare_union_ascending u v = fun_ptrs u.tag u v

-- `-1 * x`, which overflows at INT_MIN.
abbrev pub negate : ℤ → Option ℤ
negate (pos zero) = some (pos 0)
negate (pos (suc n)) = some (negsuc n)
negate (negsuc n) = if n == 2 ^ 31 - 1 then none else some (pos (suc n))

unfoldable pub compare_union_descending : Variant → Variant → Option ℤ
unfolding compare_union_ascending
compare_union_descending u v = compare_union_ascending u v >>= negate
