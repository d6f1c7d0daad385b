-- ===== src/Shell/Words.antt =====
-- skipWS and cutWord of ps5/shellp.c, on the buffer of a line and an index into it. An access outside
-- the buffer is a fault.
use cse.Base.{
  ℕ, zero, suc, ◌-◌, not, ◌&&◌, Option, none, some, List, [], ◌∷◌, ◌==◌, if◌then◌else◌, length,
  get_elem?, set, ◌>>=◌,
}
use cse.Shell.Chars.{is_space, quote}

abbrev pub Buffer : Type 0
Buffer = List ℕ

-- `while (arg && *arg && isspace(*arg)) arg++;`
unfoldable pub skip_spaces : ℕ → Buffer → ℕ → Option ℕ
skip_spaces zero buf i = none
skip_spaces (suc fuel) buf i = do
  c ← get_elem? buf i
  let next = skip_spaces fuel buf (suc i)
  if not (c == 0) && is_space c then next else some i

unfoldable pub skip_ws : Buffer → ℕ → Option ℕ
skip_ws buf arg = do
  i ← skip_spaces (length buf) buf arg
  c ← get_elem? buf i
  some (if c == quote then suc i else i)

-- `while (arg && *arg && !isspace(*arg)) arg++;`
unfoldable pub find_end : ℕ → Buffer → ℕ → Option ℕ
find_end zero buf i = none
find_end (suc fuel) buf i = do
  c ← get_elem? buf i
  let next = find_end fuel buf (suc i)
  if not (c == 0) && not (is_space c) then next else some i

-- `*(arg - 1)`
abbrev pub before : Buffer → ℕ → Option ℕ
before buf zero = none
before buf (suc i) = get_elem? buf i

-- The buffer with the word ended, and where the next search starts.
unfoldable pub cut_word : Buffer → ℕ → Option (Buffer × ℕ)
cut_word buf arg = do
  i ← find_end (length buf) buf arg
  p ← before buf i
  let j = if p == quote then i - 1 else i
  c ← get_elem? buf j
  if c == 0 then some (buf, j) else some (set buf j 0, suc j)

-- The C string that starts at an index.
unfoldable pub string_at : Buffer → ℕ → List ℕ
string_at [] i = []
string_at (c ∷ buf) zero = if c == 0 then [] else c ∷ string_at buf 0
string_at (c ∷ buf) (suc i) = string_at buf i
