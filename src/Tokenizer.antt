-- ===== src/Tokenizer.antt =====
-- The tokenizer of lab4/debug.c. A C string is the list of its characters before the terminating
-- NUL; a pointer into it is the rest of the list from there.
mod Words
mod Examples
use cse.Base.{
  ℕ, zero, suc, ◌+◌, ◌-◌, Bool, true, false, ◌||◌, List, [], ◌∷◌, ◌==◌, if◌then◌else◌, length, take,
}

-- `dupString(s, len)`: the `len` characters from `s` on.
unfoldable pub dup_string : List ℕ → ℕ → List ℕ
dup_string s len = take len s

-- `*(s + 1) == '\0'`, with `s` the rest behind the current character.
abbrev pub is_end : List ℕ → Bool
is_end [] = true
is_end (c ∷ s) = false

-- The loop of `countTokens`, with `inToken` (0 or 1) and `cnt`.
unfoldable pub count_loop : List ℕ → (delim in_token cnt : ℕ) → ℕ
count_loop [] delim in_token cnt = cnt
count_loop (c ∷ s) delim in_token cnt =
    count_loop s delim (if c == delim then 0 else 1)
      (if (c == delim) || is_end s then cnt + in_token else cnt)

-- `int inToken = *s != delim;` reads the NUL of an empty string, which the loop then ignores.
unfoldable pub count_tokens : List ℕ → ℕ → ℕ
unfolding count_loop
count_tokens [] delim = count_loop [] delim (if 0 == delim then 0 else 1) 0
count_tokens (c ∷ s) delim = count_loop (c ∷ s) delim (if c == delim then 0 else 1) 0

unfoldable pub skip_delim : List ℕ → ℕ → List ℕ
skip_delim [] delim = []
skip_delim (c ∷ from) delim = if c == delim then skip_delim from delim else c ∷ from

unfoldable pub token_end : List ℕ → ℕ → List ℕ
token_end [] delim = []
token_end (c ∷ from) delim = if c == delim then c ∷ from else token_end from delim

-- The loop of `tokenize`, with the rounds that are left and `ts`.
unfoldable pub tokenize_loop : ℕ → List ℕ → ℕ → List (List ℕ)
unfolding dup_string
tokenize_loop zero ts delim = []
tokenize_loop (suc n) ts delim =
    let te = token_end ts delim in
    dup_string ts (length ts - length te) ∷ tokenize_loop n (skip_delim te delim) delim

unfoldable pub tokenize : List ℕ → ℕ → List (List ℕ)
unfolding count_tokens tokenize_loop
tokenize string delim = tokenize_loop (count_tokens string delim) (skip_delim string delim) delim
