-- ===== src/Tokenizer/Examples.antt =====
-- Runs of the tokenizer of lab4/debug.c.
use cse.Base.{ℕ, ◌≡◌, refl, false, List, [], ◌∷◌}
use cse.Tokenizer.{tokenize}
use cse.Tokenizer.Words.{words, lone_end, tokenize-words}

-- "a b"
abbrev short : List ℕ
short = b'a' ∷ 32 ∷ b'b' ∷ []

-- "a bc"
abbrev long : List ℕ
long = b'a' ∷ 32 ∷ b'b' ∷ b'c' ∷ []

long_end : lone_end long 32 ≡ false
unfolding lone_end
long_end = refl

tokenize-words_example : tokenize long 32 ≡ words long 32
tokenize-words_example = tokenize-words long 32 long_end
